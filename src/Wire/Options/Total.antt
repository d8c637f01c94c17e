-- ===== src/Wire/Options/Total.antt =====
-- `TcpOption::parse` of ethox/src/wire/tcp.rs on any octets.
use ethox.Base.{
  ℕ, ◌+◌, ◌-◌, ◌*◌, ◌%◌, ◌<◌, ◌≤◌, ◌≡◌, refl, ap, not, ◌||◌, ◌&&◌, none, some, Outcome, returns,
  List, [], ◌∷◌, length, get_elem?, take, drop, ltb, leb, ◌==◌, Bool-cases, Option-cases, inl, inr,
  arith, get_elem?-some, length-take, length-drop, le→leb,
}
use ethox.Wire.Bytes.{read_u16, read_u32, get_range, slice_from}
use ethox.Wire.Checked.{truncated, Result, ok, err, accept, run, ◌>>=◌, Answers, >>=-Answers}
use ethox.Wire.Options.{TcpOption, end_of_list, no_operation}
use ethox.Wire.Options.Parse.{parse, parse_body, parse_range, parse_ranges}

pub read_u16_total : (b : List ℕ) (i : ℕ) → i + 1 < length b → Answers (read_u16 b i)
read_u16_total b i h =
    let (high, e) = get_elem?-some b i (omega arith) in
    let (low, e') = get_elem?-some b (i + 1) h in rw (e, e') (_, refl)

pub read_u32_total : (b : List ℕ) (i : ℕ) → i + 3 < length b → Answers (read_u32 b i)
read_u32_total b i h =
    let (high, e) = read_u16_total b i (omega arith) in
    let (low, e') = read_u16_total b (i + 2) (omega arith) in rw (e, e') (_, refl)

pub run-Answers {ℓ} : {A : Type ℓ} (m : Outcome A) → Answers m → Answers (run m)
run-Answers m (r, e) = (ok r, ap run e)

parse_range_total : (items : List ℕ) (i : ℕ) → length items % 8 ≡ 0 → Answers (parse_range items i)
unfolding parse_range
parse_range_total items i h = elim (Bool-cases (ltb (i * 8) (length items))) [
  | inl t ↦
      let room : i * 8 + 7 < length items = ground arith in
      let (l, e) = read_u32_total items (i * 8) (omega arith) in
      let (r, e') = read_u32_total items (i * 8 + 4) (omega arith) in rw (t, e, e') (_, refl)
  | inr f ↦ rw f (_, refl)
]

parse_ranges_total : (items : List ℕ) → length items % 8 ≡ 0 → Answers (parse_ranges items)
unfolding parse_ranges
parse_ranges_total items h =
    >>=-Answers (parse_range items 0) _ (parse_range_total items 0 h) (λ first _.
      >>=-Answers (parse_range items 1) _ (parse_range_total items 1 h) (λ second _.
        >>=-Answers (parse_range items 2) _ (parse_range_total items 2 h) (λ third _. (_, refl))))

parse_body_total :
    (kind len : ℕ) (items : List ℕ) → len ≡ 2 + length items → Answers (parse_body kind len items)
unfolding parse_body
parse_body_total kind len items e = elim (Bool-cases (kind == 2)) [
  | inl t ↦ rw t (elim (Bool-cases (len == 4)) [
    | inl u ↦ let (v, q) = read_u16_total items 0 (ground arith) in rw (u, q) (_, refl)
    | inr u ↦ rw u (_, refl)
  ])
  | inr f ↦ rw f (elim (Bool-cases (kind == 3)) [
    | inl t ↦ rw t (elim (Bool-cases (len == 3)) [
      | inl u ↦ let (v, q) = get_elem?-some items 0 (ground arith) in rw (u, q) (_, refl)
      | inr u ↦ rw u (_, refl)
    ])
    | inr f' ↦ rw f' (elim (Bool-cases (kind == 4)) [
      | inl t ↦
          rw t (elim (Bool-cases (len == 2)) [ inl u ↦ rw u (_, refl) | inr u ↦ rw u (_, refl) ])
      | inr f'' ↦ rw f'' (elim (Bool-cases (kind == 5)) [
        | inl t ↦ rw t (elim (Bool-cases (ltb len 10 || not ((len - 2) % 8 == 0))) [
          | inl u ↦ rw u (_, refl)
          | inr u ↦
              let whole : length items % 8 ≡ 0 = ground arith in
              let (found, q) = parse_ranges_total items whole in
              rw u (>>=-Answers (parse_ranges items) _ (found, q) (λ s _. (_, refl)))
        ])
        | inr f3 ↦ rw f3 (_, refl)
      ])
    ])
  ])
]

-- An option takes an octet at least.
abbrev pub Shortens : List ℕ → Result (List ℕ × TcpOption) → Type 0
Shortens b (ok (rest, _)) = length rest < length b
Shortens b (err _) = Unit

get_range_size :
    (b items : List ℕ) (from to : ℕ)
    → get_range b from to ≡ some items
    → (to ≡ from + length items) × (to ≤ length b)
get_range_size b items from to h = elim (Bool-cases (leb from to && leb to (length b))) [
  | inl t ↦
      let e : some (take (to - from) (drop from b)) ≡ some items = rw t at h in
      let l : length (take (to - from) (drop from b)) ≡ length items =
        ap (λ o. elim o [ none ↦ 0 | some xs ↦ length xs ]) e in
      let low : from ≤ to = ground arith in
      let high : to ≤ length b = ground arith in
      (omega (arith, l, length-take (to - from) (drop from b), length-drop from b), high)
  | inr f ↦ let e : none ≡ some items = rw f at h in cc
]

take_rest :
    (b : List ℕ) (len : ℕ) (m : Outcome (Result TcpOption))
    → 0 < len
    → len ≤ length b
    → Answers m
    → (r : Result (List ℕ × TcpOption)) × ((m >>= λ option.
          run (slice_from b len) >>= λ rest. accept (rest, option))
        ≡ returns r)
      × Shortens b r
take_rest b len m low high (ok o, e) =
    rw (e, le→leb len (length b) high) (ok (drop len b, o), refl, omega (arith, length-drop len b))
take_rest b len m low high (err x, e) = rw e (err x, refl, tt)

-- Parsing the first option never panics, whatever the octets, and what it leaves is shorter.
pub parse_total :
    (b : List ℕ) → (r : Result (List ℕ × TcpOption)) × (parse b ≡ returns r) × Shortens b r
unfolding parse
parse_total [] = (err truncated, refl, tt)
parse_total (kind ∷ more) = elim (Bool-cases (kind == 0)) [
  | inl t ↦
      rw t (take_rest (kind ∷ more) 1 (accept end_of_list) (omega arith) (omega arith) (_, refl))
  | inr f ↦ rw f (elim (Bool-cases (kind == 1)) [
    | inl t ↦
        rw t (take_rest (kind ∷ more) 1 (accept no_operation) (omega arith) (omega arith) (_, refl))
    | inr f' ↦ rw f' (elim (Option-cases (get_elem? more 0)) [
      | inl none_there ↦ rw none_there (err truncated, refl, tt)
      | inr (len, there) ↦ rw there (elim (Option-cases (get_range (kind ∷ more) 2 len)) [
        | inl outside ↦ rw outside (err truncated, refl, tt)
        | inr (items, inside) ↦
            let (size, fits) = get_range_size (kind ∷ more) items 2 len inside in
            rw inside (
              take_rest (kind ∷ more) len (parse_body kind len items) (omega arith) fits
                (parse_body_total kind len items size))
      ])
    ])
  ])
]
