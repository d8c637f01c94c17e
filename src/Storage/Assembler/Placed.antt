-- ===== src/Storage/Assembler/Placed.antt =====
-- Where `add_impl` of ethox/src/storage/assembler.rs finds and puts a contig, by the parts of the list.
use ethox.Base.{
  ℕ, suc, ◌+◌, ◌-◌, ◌^◌, ◌≡◌, ◌<◌, ◌≤◌, refl, ap, sym, ◌∙◌, true, false, none, some, returns, List,
  [], ◌∷◌, ◌++◌, map, length, take, drop, set, leb, arith, inl, inr, ◌⊎◌, Bool-cases, ◌==◌, le→leb,
  lt→ltb, length-append, take-append, drop-append,
}
use mathlib.Core.List.{append_assoc}
use ethox.Storage.Assembler.{
  Contig, Absorber, empty, is_empty, total_size, back, find, absorb, absorb_all, add_contig_at,
  remove_contigs, store_absorbed,
}
use ethox.Storage.Assembler.Bytes.{extent, span, IsFilled}

set-append {ℓ} :
    {A : Type ℓ} (xs ys : List A) (v w : A) → set (xs ++ (v ∷ ys)) (length xs) w ≡ xs ++ (w ∷ ys)
set-append [] ys v w = refl
set-append (x ∷ xs) ys v w = ap (λ l. x ∷ l) (set-append xs ys v w)

take-past {ℓ} :
    {A : Type ℓ} (xs ys : List A) (v : A) → take (length xs + 1) (xs ++ (v ∷ ys)) ≡ xs ++ (v ∷ [])
take-past xs ys v =
    let e : length (xs ++ (v ∷ [])) ≡ length xs + 1 = length-append xs (v ∷ []) in
    ap (λ n. take n (xs ++ (v ∷ ys))) (sym e)
    ∙ ap (take (length (xs ++ (v ∷ [])))) (sym (append_assoc xs (v ∷ []) ys))
    ∙ take-append (xs ++ (v ∷ [])) ys

drop-past {ℓ} : {A : Type ℓ} (xs ys : List A) (v : A) → drop (length xs + 1) (xs ++ (v ∷ ys)) ≡ ys
drop-past xs ys v =
    let e : length (xs ++ (v ∷ [])) ≡ length xs + 1 = length-append xs (v ∷ []) in
    ap (λ n. drop n (xs ++ (v ∷ ys))) (sym e)
    ∙ ap (drop (length (xs ++ (v ∷ [])))) (sym (append_assoc xs (v ∷ []) ys))
    ∙ drop-append (xs ++ (v ∷ [])) ys

pub back-cons : (c : Contig) (cs : List Contig) → 0 < length cs → back (c ∷ cs) ≡ back cs
unfolding back
back-cons c [] h = absurd (omega arith)
back-cons c (d ∷ cs) h = refl

pub back-append :
    (xs : List Contig) (c : Contig) (cs : List Contig) → back (xs ++ (c ∷ cs)) ≡ back (c ∷ cs)
back-append [] c cs = refl
back-append (x ∷ xs) c cs =
    back-cons x (xs ++ (c ∷ cs)) (omega (arith, length-append xs (c ∷ cs))) ∙ back-append xs c cs

pub cut_last :
    (cs : List Contig) (last : Contig)
    → back cs ≡ returns last
    → (init : List Contig) × (cs ≡ init ++ (last ∷ []))
unfolding back
cut_last [] last b = cc
cut_last (c ∷ []) last b = ([], cc)
cut_last (c ∷ d ∷ cs) last b =
    let (init, e) = cut_last (d ∷ cs) last b in (c ∷ init, ap (λ l. c ∷ l) e)

-- What the search finds: the contigs before, the one that the offset falls to, and those behind it.
abbrev pub Found : List Contig → ℕ → ℕ → Type 0
Found cs relative idx =
    (xs : List Contig) × (d : Contig) × (ys : List Contig) × (r : ℕ) × (cs ≡ xs ++ (d ∷ ys))
    × (find cs relative idx ≡ returns (some (r, idx + length xs)))
    × (span xs + r ≡ relative)
    × ((r ≤ extent d) ⊎ (extent d ≡ 0))
    × IsFilled xs
    × (0 < relative → 0 < r)

-- Nothing is found only behind the last contig, and if that holds something.
abbrev pub Missed : List Contig → ℕ → ℕ → Type 0
Missed cs relative idx =
    (find cs relative idx ≡ returns none)
    × (last : Contig) × (back cs ≡ returns last)
    × (is_empty last ≡ false)

found_here :
    (c : Contig) (cs : List Contig) (relative idx : ℕ)
    → find (c ∷ cs) relative idx ≡ returns (some (relative, idx))
    → (relative ≤ extent c) ⊎ (extent c ≡ 0)
    → Found (c ∷ cs) relative idx
found_here c cs relative idx e near =
    let same : idx ≡ idx + 0 = omega arith in
    (
      [],
      c,
      cs,
      relative,
      refl,
      e ∙ ap (λ i. returns (some (relative, i))) same,
      omega arith,
      near,
      tt,
      λ h. h,
    )

pub find_lem :
    (c : Contig) (cs : List Contig) (relative idx : ℕ)
    → span (c ∷ cs) < 2 ^ 32
    → Missed (c ∷ cs) relative idx ⊎ Found (c ∷ cs) relative idx
unfolding find back
find_lem c [] relative idx fits = elim (Bool-cases (leb relative (total_size c))) [
  | inl h ↦ inr (found_here c [] relative idx (rw h refl) (inl (ground arith)))
  | inr h ↦ elim (Bool-cases (is_empty c)) [
    | inl e ↦ inr (found_here c [] relative idx (rw (h, e) refl) (inr (ground arith)))
    | inr e ↦ inl (rw (h, e) refl, c, refl, e)
  ]
]
find_lem c (d ∷ cs) relative idx fits = elim (Bool-cases (leb relative (total_size c))) [
  | inl h ↦ inr (found_here c (d ∷ cs) relative idx (rw h refl) (inl (ground arith)))
  | inr h ↦ elim (Bool-cases (is_empty c)) [
    | inl e ↦ inr (found_here c (d ∷ cs) relative idx (rw (h, e) refl) (inr (ground arith)))
    | inr e ↦ elim (find_lem d cs (relative - total_size c) (idx + 1) (omega arith)) [
      | inl (none_found, last, b, some_last) ↦ inl (rw (h, e) none_found, last, b, some_last)
      | inr (xs, d', ys, r, parts, found, sums, near, filled, positive) ↦
          let place : idx + 1 + length xs ≡ idx + suc (length xs) = omega arith in
          inr (
            c ∷ xs,
            d',
            ys,
            r,
            ap (λ l. c ∷ l) parts,
            rw (h, e) found ∙ ap (λ i. returns (some (r, i))) place,
            ground (arith, sums),
            near,
            (ground arith, filled),
            λ _. positive (ground arith),
          )
    ]
  ]
]

-- The contig of what was absorbed.
abbrev pub gathered : Absorber → Contig
gathered a = record { hole_size = a.start; data_size = a.len }

pub length-map {ℓ} : {A : Type ℓ} (f : A → A) (xs : List A) → length (map f xs) ≡ length xs
length-map f [] = refl
length-map f (x ∷ xs) = ap suc (length-map f xs)

remove_contigs-past :
    (xs ws rest : List Contig) (w : Contig)
    → remove_contigs (xs ++ (w ∷ (ws ++ rest))) (length xs + 1) (length ws)
      ≡ returns ((xs ++ (w ∷ [])) ++ (rest ++ map (λ _. empty) ws))
unfolding remove_contigs
remove_contigs-past xs ws rest w =
    let cs = xs ++ (w ∷ (ws ++ rest)) in
    let wiped = map (λ (_ : Contig). empty) ws in
    let long = length-append xs (w ∷ (ws ++ rest)) in
    let room = length-append ws rest in
    let kept : drop (length ws) (wiped ++ rest) ≡ rest =
      ap (λ n. drop n (wiped ++ rest)) (sym (length-map (λ _. empty) ws))
      ∙ drop-append wiped rest in
    let wiped_part : take (length ws) (wiped ++ rest) ≡ wiped =
      ap (λ n. take n (wiped ++ rest)) (sym (length-map (λ _. empty) ws))
      ∙ take-append wiped rest in
    rw
      (
        le→leb (length xs + 1) (length cs) (omega arith),
        drop-past xs (ws ++ rest) w,
        le→leb (length ws) (length (ws ++ rest)) (omega arith),
        take-past xs (ws ++ rest) w,
        take-append ws rest,
        drop-append ws rest,
        kept,
        wiped_part,
      )
      (ap returns (append_assoc (xs ++ (w ∷ [])) rest wiped))

pub store_removed :
    (xs ws rest : List Contig) (w : Contig) (a : Absorber)
    → a.absorbed ≡ suc (length ws)
    → store_absorbed (xs ++ (w ∷ (ws ++ rest))) (length xs) a 0
      ≡ returns (some 0, xs ++ (gathered a ∷ (rest ++ map (λ _. empty) ws)))
unfolding store_absorbed
store_removed xs ws rest w a count =
    let some_absorbed : (a.absorbed == 0) ≡ false = ground arith in
    let less : a.absorbed - 1 ≡ length ws = omega arith in
    let tail = rest ++ map (λ (_ : Contig). empty) ws in
    let placed : set ((xs ++ (w ∷ [])) ++ tail) (length xs) (gathered a)
        ≡ xs ++ (gathered a ∷ tail) =
      ap (λ l. set l (length xs) (gathered a)) (append_assoc xs (w ∷ []) tail)
      ∙ set-append xs tail w (gathered a) in
    rw (some_absorbed, less, remove_contigs-past xs ws rest w, placed) refl

add_contig_at-free :
    (xs init : List Contig) (last : Contig)
    → is_empty last ≡ true
    → add_contig_at (xs ++ (init ++ (last ∷ []))) (length xs) ≡ returns (xs ++ (empty ∷ init))
unfolding add_contig_at back
add_contig_at-free xs init last e =
    let range = init ++ (last ∷ []) in
    let long = length-append init (last ∷ []) in
    let behind : back (xs ++ range) ≡ returns last =
      ap back (sym (append_assoc xs init (last ∷ []))) ∙ back-append (xs ++ init) last [] in
    let less : length range - 1 ≡ length init = omega arith in
    rw
      (
        behind,
        e,
        drop-append xs range,
        lt→ltb 0 (length range) (omega arith),
        less,
        drop-append init (last ∷ []),
        take-append init (last ∷ []),
        take-append xs range,
        set-append xs init last empty,
      )
      refl

pub store_inserted :
    (xs init : List Contig) (last : Contig) (a : Absorber)
    → is_empty last ≡ true
    → a.absorbed ≡ 0
    → a.available ≡ true
    → store_absorbed (xs ++ (init ++ (last ∷ []))) (length xs) a 0
      ≡ returns (some 0, xs ++ (gathered a ∷ init))
unfolding store_absorbed
store_inserted xs init last a e none_absorbed free =
    rw
      (
        none_absorbed,
        free,
        add_contig_at-free xs init last e,
        set-append xs init empty (gathered a),
      )
      refl

length-absorb_all : (a : Absorber) (cs : List Contig) → length (absorb_all a cs).1 ≡ length cs
unfolding absorb_all
length-absorb_all a [] = refl
length-absorb_all a (c ∷ cs) = ground (arith, length-absorb_all (absorb a c).1 cs)

-- An empty contig at the end is never touched.
pub absorb_all-back :
    (a : Absorber) (cs : List Contig) (last : Contig)
    → back cs ≡ returns last
    → is_empty last ≡ true
    → back (absorb_all a cs).1 ≡ returns last
unfolding absorb_all absorb back
absorb_all-back a [] last b e = cc
absorb_all-back a (c ∷ []) last b e = ground arith
absorb_all-back a (c ∷ d ∷ cs) last b e =
    let a' = (absorb a c).1 in
    let c' = (absorb a c).2 in
    elim (Bool-cases (absorb a c).0) [
      | inl h ↦ rw h (
          back-cons c' (absorb_all a' (d ∷ cs)).1 (omega (arith, length-absorb_all a' (d ∷ cs)))
          ∙ absorb_all-back a' (d ∷ cs) last b e)
      | inr h ↦ rw h b
    ]
