-- ===== src/Storage/Assembler/Front.antt =====
-- Bytes at the front that do not reach the first data, in ethox/src/storage/assembler.rs.
use ethox.Base.{
  ℕ, ◌+◌, ◌-◌, ◌^◌, ◌≡◌, ◌<◌, ◌≤◌, refl, ap, ◌%◌, Bool, true, false, some, returns, List, [], ◌∷◌,
  ◌++◌, arith, if◌then◌else◌,
}
use ethox.Storage.Assembler.{
  Contig, Absorber, absorb, absorb_all, is_empty, find, back, remove_contigs, add_absorbed,
  add_impl,
}

append-[] {ℓ} : {A : Type ℓ} (xs : List A) → xs ++ [] ≡ xs
append-[] [] = refl
append-[] (x ∷ xs) = ap (λ ys. x ∷ ys) (append-[] xs)

pub remove_contigs-none : (cs : List Contig) → remove_contigs cs 0 0 ≡ returns cs
unfolding remove_contigs
remove_contigs-none cs = ground (arith, append-[] cs)

pub find-start : (c : Contig) (cs : List Contig) → find (c ∷ cs) 0 0 ≡ returns (some (0, 0))
unfolding find
find-start c [] = ground arith
find-start c (d ∷ cs) = ground arith

-- The absorber that `add_impl` begins with at the front.
abbrev at_front : ℕ → Bool → Absorber
at_front size available = record {
  len = size;
  start = 0;
  rel_end = size;
  absorbed = 0;
  available = available;
}

absorb_all-front :
    (c : Contig) (cs : List Contig) (size : ℕ) (available : Bool)
    → size < c.hole_size
    → c.hole_size + c.data_size < 2 ^ 32
    → (absorb_all (at_front size available) (c ∷ cs)).0.len ≡ size
      × ((absorb_all (at_front size available) (c ∷ cs)).0.absorbed ≡ 0)
      × ((absorb_all (at_front size available) (c ∷ cs)).1
          ≡ (if available then record c { hole_size = c.hole_size - size } else c) ∷ cs)
unfolding absorb_all absorb
absorb_all-front c cs size true l t = ground arith
absorb_all-front c cs size false l t = ground arith

add_absorbed-front :
    (cs : List Contig) (size max : ℕ) (a : Absorber)
    → a.len ≡ size
    → size ≤ max
    → a.absorbed ≡ 0
    → add_absorbed cs 0 0 max a ≡ returns (some size, cs)
unfolding add_absorbed
add_absorbed-front cs size max a e l z = ground (arith, remove_contigs-none cs)

-- Bytes at the front that end within the first hole are all returned. The hole shrinks by them if the
-- last contig is free; if none is free the hole stays as it was, though the front has moved.
pub front_bytes :
    (c last : Contig) (cs : List Contig) (size max : ℕ)
    → back (c ∷ cs) ≡ returns last
    → size < c.hole_size
    → c.hole_size + c.data_size < 2 ^ 32
    → size ≤ max
    → add_impl (c ∷ cs) 0 size max
      ≡ returns (
        some size,
        (if is_empty last then record c { hole_size = c.hole_size - size } else c) ∷ cs,
      )
unfolding add_impl
front_bytes c last cs size max b l t m =
    let (len, none_absorbed, tail) = absorb_all-front c cs size (is_empty last) l t in
    let word : (0 + size) % 2 ^ 32 ≡ size = omega arith in
    rw (find-start c cs, b, word, tail) (add_absorbed-front _ size max _ len m none_absorbed)
