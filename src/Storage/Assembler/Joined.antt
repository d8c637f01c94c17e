-- ===== src/Storage/Assembler/Joined.antt =====
-- A range of bytes that is added behind the front, in ethox/src/storage/assembler.rs.
use ethox.Base.{
  ℕ, ◌+◌, ◌-◌, ◌%◌, ◌^◌, ◌≡◌, ◌<◌, ◌≤◌, refl, ap, sym, subst, ◌∙◌, Bool, true, false, ◌||◌, none,
  some, returns, List, [], ◌∷◌, ◌++◌, length, take, drop, ◌==◌, arith, inl, inr, ◌⊎◌, Bool-cases,
  take-append, drop-append,
}
use ethox.Storage.Assembler.{
  Contig, Absorber, is_empty, back, absorb_all, find, would_overflow, store_absorbed, add_absorbed,
  add_impl,
}
use ethox.Storage.Assembler.Bytes.{
  extent, span, covers, within, IsPacked, covers-append, covers-append_empty, wiped, span-wiped,
  wiped-IsPacked, IsPacked-emptied, IsPacked-behind, IsPacked-before, IsPacked-filled, IsFilled,
  IsAssembly, span-append,
}
use ethox.Storage.Assembler.Errors.{available-stays, refused_keeps}
use ethox.Storage.Assembler.Absorbed.{joined, absorb_all-Absorbs}
use ethox.Storage.Assembler.Placed.{
  gathered, find_lem, back-append, cut_last, store_removed, store_inserted, absorb_all-back,
}

-- The absorber that `add_impl` begins with.
abbrev pub from : ℕ → ℕ → Bool → Absorber
from relative size available = record {
  len = size;
  start = relative;
  rel_end = (relative + size) % 2 ^ 32;
  absorbed = 0;
  available = available;
}

-- What is stored where a range was absorbed holds the bytes of what was absorbed and what is left.
stored :
    (xs : List Contig) (last : Contig) (there : ℕ → Bool) (a : Absorber)
    (cs whole rest : List Contig)
    → cs ≡ whole ++ rest
    → a.absorbed ≡ 0 + length whole
    → (a.absorbed ≡ 0
        → (a.available ≡ true)
          × (back cs ≡ returns last)
          × (is_empty last ≡ true)
          × (extent last ≡ 0))
    → 0 < a.start + a.len
    → IsPacked rest
    → ((y : ℕ) → covers (gathered a ∷ rest) y ≡ there y)
    → (cs' : List Contig) × (store_absorbed (xs ++ cs) (length xs) a 0
        ≡ returns (some 0, xs ++ cs'))
      × (span cs' ≡ span (gathered a ∷ rest))
      × IsPacked cs'
      × ((y : ℕ) → covers cs' y ≡ there y)
stored xs last there a cs [] rest parts count free filled packed bytes =
    let untouched : a.absorbed ≡ 0 = omega arith in
    let (available, b, e, nothing) = free untouched in
    let (init, cut) = cut_last cs last b in
    let split : rest ≡ init ++ (last ∷ []) = sym parts ∙ cut in
    (
      gathered a ∷ init,
      ap (λ l. store_absorbed (xs ++ l) (length xs) a 0) cut
          ∙ store_inserted xs init last a e untouched available,
      omega (arith, ap span split, span-append init (last ∷ [])),
      ((λ z. absurd (omega arith)), IsPacked-before init (last ∷ []) (subst IsPacked split packed)),
      λ y.
          sym (covers-append_empty (gathered a ∷ init) (last ∷ []) y (omega arith))
          ∙ ap (λ l. covers (gathered a ∷ l) y) (sym split)
          ∙ bytes y,
    )
stored xs last there a cs (w ∷ ws) rest parts count free filled packed bytes = (
  gathered a ∷ (rest ++ wiped ws),
  rw parts (store_removed xs ws rest w a (omega arith)),
  omega (arith, span-append rest (wiped ws), span-wiped ws),
  (
    (λ z. absurd (omega arith)),
    IsPacked-emptied rest (wiped ws) packed (span-wiped ws) (wiped-IsPacked ws),
  ),
  λ y. covers-append_empty (gathered a ∷ rest) (wiped ws) y (span-wiped ws) ∙ bytes y,
)

-- Behind the same contigs, the bytes are joined with the range from the front on.
joined-behind :
    (xs cs cs' : List Contig) (a : Absorber) (start size x : ℕ)
    → span xs + a.start ≡ start
    → a.len ≡ size
    → ((y : ℕ) → covers cs' y ≡ joined 0 a (covers cs) y)
    → covers (xs ++ cs') x ≡ (covers (xs ++ cs) x || within start size x)
joined-behind xs cs cs' a start size x e l bytes =
    let there = covers-append xs cs x in
    let after = covers-append xs cs' x in
    let same : x - span xs - 0 ≡ x - span xs = omega arith in
    ground (arith, there, after, bytes (x - span xs), same)

pub back_total : (c : Contig) (cs : List Contig) → (last : Contig) × (back (c ∷ cs) ≡ returns last)
unfolding back
back_total c [] = (c, refl)
back_total c (d ∷ cs) = back_total d cs

add_impl_lem :
    (cs xs ys : List Contig) (start size max r idx : ℕ) (last : Contig)
    → find cs start 0 ≡ returns (some (r, idx))
    → back cs ≡ returns last
    → take idx cs ≡ xs
    → drop idx cs ≡ ys
    → 0 < start
    → let result = absorb_all (from r size (is_empty last)) ys in
      add_impl cs start size max ≡ store_absorbed (xs ++ result.1) idx result.0 0
unfolding add_impl add_absorbed
add_impl_lem cs xs ys start size max r idx last f b before behind h =
    let later : (start == 0) ≡ false = ground arith in rw (f, b, before, behind, later) refl

store_full :
    (cs : List Contig) (idx : ℕ) (a : Absorber)
    → would_overflow a ≡ true
    → store_absorbed cs idx a 0 ≡ returns (none, cs)
unfolding store_absorbed
store_full cs idx a h = ground arith

-- How the addition of a range ends: without a free contig it may be refused, and nothing changes; else no byte is
-- returned, and the bytes are those of before and of the range.
abbrev pub Added : List Contig → ℕ → ℕ → ℕ → Contig → Type 0
Added cs start size max last =
    ((is_empty last ≡ false) × (add_impl cs start size max ≡ returns (none, cs)))
    ⊎ ((cs' : List Contig) × (add_impl cs start size max ≡ returns (some 0, cs'))
        × IsAssembly cs'
        × ((x : ℕ) → covers cs' x ≡ (covers cs x || within start size x)))

pub last_extent :
    (cs : List Contig) (last : Contig)
    → span cs < 2 ^ 32
    → back cs ≡ returns last
    → is_empty last ≡ true
    → extent last ≡ 0
last_extent cs last fits b e =
    let (init, cut) = cut_last cs last b in
    let spans : span cs ≡ span init + (extent last + 0) =
      ap span cut ∙ span-append init (last ∷ []) in
    ground arith

find-Added :
    (xs ys : List Contig) (d : Contig) (start size max r : ℕ) (last : Contig)
    → IsAssembly (xs ++ (d ∷ ys))
    → 0 < start
    → start + size < 2 ^ 32
    → back (xs ++ (d ∷ ys)) ≡ returns last
    → find (xs ++ (d ∷ ys)) start 0 ≡ returns (some (r, length xs))
    → span xs + r ≡ start
    → (r ≤ extent d) ⊎ (extent d ≡ 0)
    → IsFilled xs
    → 0 < r
    → Added (xs ++ (d ∷ ys)) start size max last
find-Added xs ys d start size max r last (fits, packed) later ends b found sums near filled
      positive =
    let cs = xs ++ (d ∷ ys) in
    let a = from r size (is_empty last) in
    let result = absorb_all a (d ∷ ys) in
    let run : add_impl cs start size max ≡ store_absorbed (xs ++ result.1) (length xs) result.0 0 =
      add_impl_lem cs xs (d ∷ ys) start size max r (length xs) last found b
        (take-append xs (d ∷ ys)) (drop-append xs (d ∷ ys)) later in
    let spans = span-append xs (d ∷ ys) in
    let close : (r ≤ 0 + extent d) ⊎ (extent d ≡ 0) = ground (arith, near) in
    let stays : result.0.available ≡ is_empty last = available-stays a (d ∷ ys) in
    elim (Bool-cases (would_overflow result.0)) [
      | inl w ↦
          let refused = run ∙ store_full (xs ++ result.1) (length xs) result.0 w in
          let same = refused_keeps cs (xs ++ result.1) start size max refused in
          inl (ground (arith, stays), refused ∙ ap (λ l. returns (none, l)) same)
      | inr w ↦
          let free : result.0.absorbed ≡ 0 → is_empty last ≡ true = λ z. ground (arith, stays) in
          let (whole, rest, parts, count, v) =
            absorb_all-Absorbs 0 a (d ∷ ys) (omega arith) (omega arith) (omega arith) (inl refl)
              close (IsPacked-behind xs (d ∷ ys) packed) free in
          let nothing : is_empty last ≡ true → extent last ≡ 0 = last_extent cs last fits b in
          let (cs', put, spans', packed', there) =
            stored xs last (joined 0 a (covers (d ∷ ys))) result.0 result.1 whole rest parts count
              (λ z. (
                stays ∙ free z,
                absorb_all-back a (d ∷ ys) last (sym (back-append xs d ys) ∙ b) (free z),
                free z,
                nothing (free z),
              ))
              (omega (arith, v.no_shorter)) v.left_packed v.bytes in
          let all = span-append xs cs' in
          inr (
            xs ++ cs',
            run ∙ put,
            (omega (arith, v.left_fits), IsPacked-filled xs cs' filled packed'),
            λ x. joined-behind xs (d ∷ ys) cs' a start size x sums refl there,
          )
    ]

-- A range that does not begin at the front is added to contigs that are packed and span at most the 2^32 bytes of an
-- offset: it is refused, without any change, at most if no contig is free. Otherwise no byte is returned, the contigs
-- are packed and span as little again, and exactly the bytes of the range join those that were there.
pub add_impl-Added :
    (c : Contig) (cs : List Contig) (start size max : ℕ)
    → IsAssembly (c ∷ cs)
    → 0 < start
    → start + size < 2 ^ 32
    → (last : Contig) × (back (c ∷ cs) ≡ returns last) × Added (c ∷ cs) start size max last
unfolding add_impl
add_impl-Added c cs start size max (fits, packed) later ends =
    let (last, b) = back_total c cs in
    elim (find_lem c cs start 0 fits) [
      | inl (missed, last', b', some_last) ↦ (last', b', inl (some_last, rw (missed, b') refl))
      | inr (xs, d, ys, r, parts, found, sums, near, filled, positive) ↦
          let place : 0 + length xs ≡ length xs = omega arith in
          (
            last,
            b,
            subst (λ l. Added l start size max last) (sym parts)
                (find-Added xs ys d start size max r last (rw (← parts) fits, rw (← parts) packed)
                  later ends (rw (← parts) b)
                  (rw (← parts) (found ∙ ap (λ i. returns (some (r, i))) place)) sums near filled
                  (positive later)),
          )
    ]
