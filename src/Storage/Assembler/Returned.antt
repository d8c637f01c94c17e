-- ===== src/Storage/Assembler/Returned.antt =====
-- A range of bytes that is added at the front, in ethox/src/storage/assembler.rs.
use ethox.Base.{
  ℕ, ◌+◌, ◌-◌, ◌^◌, ◌≡◌, ◌<◌, ◌≤◌, refl, ap, sym, ◌∙◌, Bool, inl, true, false, ◌||◌, some, returns,
  List, ◌∷◌, ◌++◌, length, take, drop, arith, take-append, drop-append, le→leb, length-append,
  u32_max,
}
use ethox.Storage.Assembler.{
  Contig, Absorber, empty, is_empty, back, absorb_all, remove_contigs, add_absorbed, add_impl, add,
}
use ethox.Storage.Assembler.Bytes.{
  covers, within, covers-append_empty, wiped, span-wiped, wiped-IsPacked, IsPacked-emptied,
  IsAssembly, span-append,
}
use ethox.Storage.Assembler.Front.{find-start}
use ethox.Storage.Assembler.Absorbed.{joined, absorb_all-Absorbs}
use ethox.Storage.Assembler.Placed.{gathered, length-map}
use ethox.Storage.Assembler.Joined.{from}

remove_contigs-front :
    (whole rest : List Contig)
    → remove_contigs (whole ++ rest) 0 (length whole) ≡ returns (rest ++ wiped whole)
unfolding remove_contigs
remove_contigs-front whole rest =
    let emptied = wiped whole in
    let l : length emptied ≡ length whole = length-map (λ _. empty) whole in
    let kept : drop (length whole) (emptied ++ rest) ≡ rest =
      ap (λ n. drop n (emptied ++ rest)) (sym l) ∙ drop-append emptied rest in
    let wiped_part : take (length whole) (emptied ++ rest) ≡ emptied =
      ap (λ n. take n (emptied ++ rest)) (sym l) ∙ take-append emptied rest in
    rw
      (
        le→leb 0 (length (whole ++ rest)) (omega arith),
        le→leb (length whole) (length (whole ++ rest)) (omega (arith, length-append whole rest)),
        take-append whole rest,
        drop-append whole rest,
        kept,
        wiped_part,
      )
      refl

add_absorbed-short :
    (cs : List Contig) (max : ℕ) (a : Absorber) (whole rest : List Contig)
    → cs ≡ whole ++ rest
    → a.absorbed ≡ 0 + length whole
    → a.len ≤ max
    → add_absorbed cs 0 0 max a ≡ returns (some a.len, rest ++ wiped whole)
unfolding add_absorbed
add_absorbed-short cs max a whole rest parts count fits =
    let count' : a.absorbed ≡ length whole = omega arith in
    rw (le→leb a.len max fits, parts, count', remove_contigs-front whole rest) refl

add_impl-front :
    (c last : Contig) (cs : List Contig) (size max : ℕ)
    → back (c ∷ cs) ≡ returns last
    → let result = absorb_all (from 0 size (is_empty last)) (c ∷ cs) in
      add_impl (c ∷ cs) 0 size max ≡ add_absorbed result.1 0 0 max result.0
unfolding add_impl
add_impl-front c last cs size max b = rw (find-start c cs, b) refl

-- The bytes of before with those of the range.
abbrev pub united : List Contig → ℕ → ℕ → Bool
united cs size x = covers cs x || within 0 size x

joined-united :
    (cs : List Contig) (a : Absorber) (size : ℕ)
    → a.start ≡ 0
    → a.len ≡ size
    → (x : ℕ) → joined 0 a (covers cs) x ≡ united cs size x
joined-united cs a size e l x = let same : x - 0 ≡ x = omega arith in ground (arith, same)

gathered-there :
    (a : Absorber) (cs : List Contig) (x : ℕ)
    → a.start ≡ 0
    → x < a.len
    → covers (gathered a ∷ cs) x ≡ true
gathered-there a cs x e h = ground arith

gathered-behind :
    (a : Absorber) (cs : List Contig) (x : ℕ)
    → a.start ≡ 0
    → covers cs x ≡ covers (gathered a ∷ cs) (x + a.len)
gathered-behind a cs x e =
    let same : x + a.len - (a.start + a.len) ≡ x = omega arith in ground (arith, same)

-- A range at the front is added, with a contig free, to contigs that are packed and span at most the 2^32 bytes of an
-- offset: the call returns how many bytes are there from the front on, of the range and of before, up to the first that
-- is missing, and what is left, packed again, are exactly the bytes behind them, counted from the new front.
pub add-front :
    (c last : Contig) (cs : List Contig) (size : ℕ)
    → IsAssembly (c ∷ cs)
    → size < 2 ^ 32
    → back (c ∷ cs) ≡ returns last
    → is_empty last ≡ true
    → (n : ℕ) × (cs' : List Contig) × (add (c ∷ cs) 0 size ≡ returns (some n, cs'))
      × IsAssembly cs'
      × ((x : ℕ) → x < n → united (c ∷ cs) size x ≡ true)
      × (covers cs' 0 ≡ false)
      × ((x : ℕ) → covers cs' x ≡ united (c ∷ cs) size (x + n))
unfolding add
add-front c last cs size (fits, packed) ends b e =
    let a = from 0 size (is_empty last) in
    let result = absorb_all a (c ∷ cs) in
    let (whole, rest, parts, count, v) =
      absorb_all-Absorbs 0 a (c ∷ cs) (omega arith) (omega arith) (omega arith) (inl refl)
        (inl (omega arith)) packed (λ z. e) in
    let len_fits : result.0.len ≤ u32_max = omega (arith, v.left_fits) in
    let front : result.0.start ≡ 0 = omega (arith, v.earlier) in
    let spans = span-append rest (wiped whole) in
    let whole_range = joined-united (c ∷ cs) a size refl refl in
    (
      result.0.len,
      rest ++ wiped whole,
      add_impl-front c last cs size u32_max b
          ∙ add_absorbed-short result.1 u32_max result.0 whole rest parts count len_fits,
      (
        omega (arith, v.left_fits, span-wiped whole),
        IsPacked-emptied rest (wiped whole) v.left_packed (span-wiped whole) (wiped-IsPacked whole),
      ),
      λ x h. sym (whole_range x) ∙ sym (v.bytes x) ∙ gathered-there result.0 rest x front h,
      covers-append_empty rest (wiped whole) 0 (span-wiped whole) ∙ v.gap,
      λ x.
          covers-append_empty rest (wiped whole) x (span-wiped whole)
          ∙ gathered-behind result.0 rest x front
          ∙ v.bytes (x + result.0.len)
          ∙ whole_range (x + result.0.len),
    )
