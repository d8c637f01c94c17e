-- ===== src/Storage/Assembler/Reached.antt =====
-- The contigs that a sequence of calls leaves, in ethox/src/storage/assembler.rs.
use ethox.Base.{
  ℕ, ◌+◌, ◌<◌, ◌^◌, ◌≡◌, ap, sym, ◌∙◌, Bool, false, ◌||◌, none, some, returns, List, [], ◌∷◌, arith,
  inl, inr, subst,
}
use ethox.Storage.Assembler.{Contig, new, find, add_impl, bounded_add}
use ethox.Storage.Assembler.Bytes.{
  covers, within, IsAssembly, wiped, span-wiped, wiped-IsPacked, covers-nothing,
}
use ethox.Storage.Assembler.Errors.{refused_keeps}
use ethox.Storage.Assembler.Joined.{add_impl-Added}

-- A sequence of calls on a new assembly that adds ranges behind the front, with the ranges that were accepted.
pub data Reached : List (ℕ × ℕ) → List Contig → Type 0 where
  begun : (storage cs : List Contig) → new storage ≡ returns cs → Reached [] cs
  accepted :
      (ranges : List (ℕ × ℕ)) (cs cs' : List Contig) (start size max n : ℕ)
      → Reached ranges cs
      → 0 < start
      → start + size < 2 ^ 32
      → bounded_add cs start size max ≡ returns (some n, cs')
      → Reached ((start, size) ∷ ranges) cs'
  refused :
      (ranges : List (ℕ × ℕ)) (cs cs' : List Contig) (start size max : ℕ)
      → Reached ranges cs
      → 0 < start
      → start + size < 2 ^ 32
      → bounded_add cs start size max ≡ returns (none, cs')
      → Reached ranges cs'

-- Whether a byte is in one of the ranges.
abbrev pub in_ranges : List (ℕ × ℕ) → ℕ → Bool
in_ranges [] x = false
in_ranges ((start, size) ∷ ranges) x = in_ranges ranges x || within start size x

new-IsAssembly :
    (storage cs : List Contig)
    → new storage ≡ returns cs
    → IsAssembly cs × ((x : ℕ) → covers cs x ≡ false)
unfolding new
new-IsAssembly storage cs h =
    let e : wiped storage ≡ cs = ground (arith, h) in
    subst (λ l. IsAssembly l × ((x : ℕ) → covers l x ≡ false)) e
      (
        (omega (arith, span-wiped storage), wiped-IsPacked storage),
        (λ x. covers-nothing (wiped storage) x (span-wiped storage)),
      )

accepted-Added :
    (cs cs' : List Contig) (start size max n : ℕ)
    → IsAssembly cs
    → 0 < start
    → start + size < 2 ^ 32
    → bounded_add cs start size max ≡ returns (some n, cs')
    → IsAssembly cs' × ((x : ℕ) → covers cs' x ≡ (covers cs x || within start size x))
unfolding bounded_add add_impl find
accepted-Added [] cs' start size max n v later ends h = absurd (ground (arith, h))
accepted-Added (c ∷ cs) cs' start size max n v later ends h =
    let (last, _, added) = add_impl-Added c cs start size max v later ends in
    elim added [
      | inl (full, e) ↦ absurd (ground (arith, e, h))
      | inr (cs_1, e, v', there) ↦
          let same : cs_1 ≡ cs' = ground (arith, e, h) in
          subst
            (λ l.
              IsAssembly l × ((x : ℕ) → covers l x ≡ (covers (c ∷ cs) x || within start size x)))
            same (v', there)
    ]

-- On a new assembly, whatever ranges were added behind the front and whether each was accepted or refused, the bytes
-- that are there are exactly those of the accepted ranges, and the contigs are packed and span at most the 2^32 bytes
-- of an offset.
pub Reached-covers :
    (ranges : List (ℕ × ℕ)) (cs : List Contig)
    → Reached ranges cs
    → IsAssembly cs × ((x : ℕ) → covers cs x ≡ in_ranges ranges x)
unfolding bounded_add
Reached-covers _ _ (begun storage cs h) = new-IsAssembly storage cs h
Reached-covers _ _ (accepted ranges cs cs' start size max n before later ends h) =
    let (v, there) = Reached-covers ranges cs before in
    let (v', joined) = accepted-Added cs cs' start size max n v later ends h in
    (v', λ x. joined x ∙ ap (λ b. b || within start size x) (there x))
Reached-covers _ _ (refused ranges cs cs' start size max before later ends h) =
    let same : cs' ≡ cs = refused_keeps cs cs' start size max h in
    subst (λ l. IsAssembly l × ((x : ℕ) → covers l x ≡ in_ranges ranges x)) (sym same)
      (Reached-covers ranges cs before)
