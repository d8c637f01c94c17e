-- ===== src/Wire/Checksum/Sums.antt =====
-- `checksum::data` of ethox/src/wire/ip.rs, which works by blocks of 32 octets, against the plain sum of
-- the words.
use ethox.Base.{
  ℕ, take-drop, zero, suc, ◌+◌, ◌*◌, ◌%◌, ◌^◌, ◌-◌, ◌<◌, ◌≤◌, ◌≡◌, refl, ap, ◌∙◌, sym, List, [],
  ◌∷◌, ◌++◌, length, take, drop, leb, arith, length-take, Bool-cases, inl, inr, leb→le,
}
use ethox.Wire.Checksum.{propagate_carries, add_words, add_chunks, add_odd, data_sum}

-- Each element fits an octet.
abbrev pub IsOctets : List ℕ → Type 0
IsOctets [] = Unit
IsOctets (x ∷ xs) = (x < 256) × IsOctets xs

-- The sum of the words in network order; an odd octet is the high one of a last word.
abbrev pub words : List ℕ → ℕ
words [] = 0
words (odd ∷ []) = odd * 256
words (high ∷ low ∷ rest) = high * 256 + low + words rest

pub words_bound : (b : List ℕ) → IsOctets b → words b + words b ≤ suc (length b) * 65535
words_bound [] h = omega arith
words_bound (x ∷ []) h = omega arith
words_bound (x ∷ y ∷ rest) (hx, (hy, h)) = omega (arith, words_bound rest h)

pub words-append :
    (xs ys : List ℕ) (k : ℕ) → length xs ≡ k + k → words (xs ++ ys) ≡ words xs + words ys
words-append [] ys k h = omega arith
words-append (x ∷ []) ys k h = absurd (omega arith)
words-append (x ∷ y ∷ xs) ys k h = omega (arith, words-append xs ys (k - 1) (omega arith))

add_words_even :
    (b : List ℕ) (accum k : ℕ)
    → length b ≡ k + k
    → accum + words b < 2 ^ 32
    → (add_words b accum).0 ≡ accum + words b
add_words_even [] accum k h fits = omega arith
add_words_even (x ∷ []) accum k h fits = absurd (omega arith)
add_words_even (x ∷ y ∷ b) accum k h fits =
    let e : (accum + (x * 256 + y)) % 2 ^ 32 ≡ accum + (x * 256 + y) = omega arith in
    rw e
      (add_words_even b (accum + (x * 256 + y)) (k - 1) (omega arith) (omega arith) ∙ omega arith)

add_words_lem :
    (b : List ℕ) (accum : ℕ)
    → accum + words b < 2 ^ 32
    → add_odd (add_words b accum).0 (add_words b accum).1 ≡ accum + words b
add_words_lem [] accum fits = omega arith
add_words_lem (x ∷ []) accum fits = omega arith
add_words_lem (x ∷ y ∷ b) accum fits =
    let e : (accum + (x * 256 + y)) % 2 ^ 32 ≡ accum + (x * 256 + y) = omega arith in
    rw e (add_words_lem b (accum + (x * 256 + y)) (omega arith) ∙ omega arith)

split_words : (b : List ℕ) → 32 ≤ length b → words b ≡ words (take 32 b) + words (drop 32 b)
split_words b h =
    sym (ap words (take-drop 32 b))
    ∙ words-append (take 32 b) (drop 32 b) 16 (omega (arith, length-take 32 b))

add_chunks_lem :
    (fuel : ℕ) (b : List ℕ) (accum : ℕ)
    → accum + words b < 2 ^ 32
    → (add_chunks fuel b accum).0 + words (add_chunks fuel b accum).1 ≡ accum + words b
add_chunks_lem zero b accum fits = refl
add_chunks_lem (suc fuel) b accum fits = elim (Bool-cases (leb 32 (length b))) [
  | inl t ↦
      let h : 32 ≤ length b = leb→le 32 (length b) t in
      let split = split_words b h in
      let block : (add_words (take 32 b) accum).0 ≡ accum + words (take 32 b) =
        add_words_even (take 32 b) accum 16 (omega (arith, length-take 32 b))
          (omega (arith, split)) in
      rw (t, block)
        (add_chunks_lem fuel (drop 32 b) (accum + words (take 32 b)) (omega (arith, split))
          ∙ omega (arith, split))
  | inr f ↦ rw f refl
]

-- The checksum of at most 2^16 octets is the sum of its words, with the carries folded in.
pub data_sum-words :
    (b : List ℕ) → IsOctets b → length b ≤ 2 ^ 16 → data_sum b ≡ propagate_carries (words b)
unfolding data_sum
data_sum-words b h fits =
    let small : words b < 2 ^ 32 = omega (arith, words_bound b h) in
    let chunks = add_chunks_lem (length b) b 0 (omega arith) in
    ap propagate_carries (
      add_words_lem (add_chunks (length b) b 0).1 (add_chunks (length b) b 0).0 (omega arith)
      ∙ chunks
      ∙ omega arith)
