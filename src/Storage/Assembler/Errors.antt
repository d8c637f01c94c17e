-- ===== src/Storage/Assembler/Errors.antt =====
-- What a refused range leaves in the assembly of ethox/src/storage/assembler.rs.
use ethox.Base.{
  ℕ, zero, suc, ◌+◌, ◌%◌, ◌^◌, ◌≡◌, ◌<◌, ◌≤◌, refl, ap, sym, ◌∙◌, true, false, none, returns, List,
  [], ◌∷◌, ◌++◌, take, drop, arith, >>=-eq-returns, Bool-cases, inl, inr, Option-cases,
}
use ethox.Storage.Assembler.{
  Contig, Absorber, absorb, absorb_whole, absorb_all, is_empty, find, back, store_absorbed,
  add_absorbed, add_impl,
}

-- A contig that is not absorbed whole is left alone when nothing was absorbed and no contig is free.
absorb-refused :
    (a : Absorber) (c : Contig)
    → a.available ≡ false
    → (absorb a c).1.absorbed ≡ 0
    → ((absorb a c).0 ≡ false) × ((absorb a c).2 ≡ c)
unfolding absorb
absorb-refused a c v z = ground arith

pub absorbed-grows : (a : Absorber) (cs : List Contig) → a.absorbed ≤ (absorb_all a cs).0.absorbed
unfolding absorb_all absorb
absorbed-grows a [] = ground arith
absorbed-grows a (c ∷ cs) = ground (arith, absorbed-grows (absorb a c).1 cs)

pub available-stays :
    (a : Absorber) (cs : List Contig) → (absorb_all a cs).0.available ≡ a.available
unfolding absorb_all absorb
available-stays a [] = refl
available-stays a (c ∷ cs) = ground (arith, available-stays (absorb a c).1 cs)

absorbs-whole : (a : Absorber) (c : Contig) → (absorb a c).0 ≡ true → 0 < (absorb a c).1.absorbed
unfolding absorb absorb_whole
absorbs-whole a c h = ground arith

absorb_all-refused :
    (a : Absorber) (cs : List Contig)
    → a.available ≡ false
    → (absorb_all a cs).0.absorbed ≡ 0
    → (absorb_all a cs).1 ≡ cs
unfolding absorb_all
absorb_all-refused a [] v z = refl
absorb_all-refused a (c ∷ cs) v z = elim (Bool-cases (absorb a c).0) [
  | inl whole ↦ absurd (ground (arith, absorbs-whole a c whole, absorbed-grows (absorb a c).1 cs))
  | inr part ↦ ground (arith, part, absorb-refused a c v)
]

pub take-drop {ℓ} : {A : Type ℓ} (n : ℕ) (xs : List A) → take n xs ++ drop n xs ≡ xs
take-drop zero xs = refl
take-drop (suc n) [] = refl
take-drop (suc n) (x ∷ xs) = ap (λ ys. x ∷ ys) (take-drop n xs)

add_absorbed-refused :
    (cs cs' : List Contig) (idx start max : ℕ) (a : Absorber)
    → add_absorbed cs idx start max a ≡ returns (none, cs')
    → (cs' ≡ cs) × (a.absorbed ≡ 0) × (a.available ≡ false)
unfolding add_absorbed store_absorbed
add_absorbed-refused cs cs' idx start max a h = ground arith

absorbing-refused :
    (cs cs' : List Contig) (idx start max : ℕ) (a : Absorber)
    → add_absorbed
        (take idx cs ++ (absorb_all a (drop idx cs)).1)
        idx
        start
        max
        (absorb_all a (drop idx cs)).0
      ≡ returns (none, cs')
    → cs' ≡ cs
absorbing-refused cs cs' idx start max a h =
    let tail = absorb_all a (drop idx cs) in
    let (same, untouched, full) =
      add_absorbed-refused (take idx cs ++ tail.1) cs' idx start max tail.0 h in
    let full' = sym (available-stays a (drop idx cs)) ∙ full in
    same
    ∙ ap (λ xs. take idx cs ++ xs) (absorb_all-refused a (drop idx cs) full' untouched)
    ∙ take-drop idx cs

-- A range that cannot be stored is refused without any change to the contigs.
pub refused_keeps :
    (cs cs' : List Contig) (start size max : ℕ)
    → add_impl cs start size max ≡ returns (none, cs')
    → cs' ≡ cs
unfolding add_impl
refused_keeps cs cs' start size max h =
    let (found, f, h₁) = >>=-eq-returns (find cs start 0) _ h in
    let (last, b, h₂) = >>=-eq-returns (back cs) _ h₁ in
    elim (Option-cases found) [
      | inl absent ↦ ground arith
      | inr ((relative, idx), there) ↦
          ground (arith, absorbing-refused cs cs' idx start max (from relative last))
    ]
  where
    from : ℕ → Contig → Absorber
    from relative last = record {
      len = size;
      start = relative;
      rel_end = (relative + size) % 2 ^ 32;
      absorbed = 0;
      available = is_empty last;
    }
