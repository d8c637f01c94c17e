-- ===== src/Storage/Assembler/Absorbed.antt =====
-- The bytes of the contigs that a range absorbs, in ethox/src/storage/assembler.rs.
use ethox.Base.{
  ℕ, suc, ◌+◌, ◌-◌, ◌^◌, ◌≡◌, ◌<◌, ◌≤◌, min, max, refl, ap, ◌∙◌, Bool, true, false, ◌&&◌, ◌||◌,
  List, [], ◌∷◌, ◌++◌, length, ltb, leb, arith, inl, inr, ◌⊎◌, Bool-cases,
}
use ethox.Storage.Assembler.{
  Contig, Absorber, absorb, absorb_whole, absorb_all, is_empty, would_overflow,
}
use ethox.Storage.Assembler.Errors.{absorbed-grows}
use ethox.Storage.Assembler.Bytes.{extent, span, covers, within, IsPacked, covers-nothing}

-- The range of an absorber ends where it does from the contig that is next, which begins at `at`.
pub record IsAt (at : ℕ) (a : Absorber) (c : Contig) : Type 0 where
  pub ends : a.start + a.len ≡ at + a.rel_end
  pub end_fits : a.start + a.len < 2 ^ 32
  pub fits : at + extent c < 2 ^ 32
  pub near : a.start ≤ at + extent c
  pub first : (at ≡ 0) ⊎ (a.start ≤ at)

absorb_whole_lem :
    (at : ℕ) (a : Absorber) (c : Contig)
    → IsAt at a c
    → c.hole_size ≤ a.rel_end
    → let a' = absorb_whole a c in
      (a'.start ≡ min a.start (at + c.hole_size))
      × (a'.start + a'.len ≡ at + max a.rel_end (extent c))
      × (extent c + a'.rel_end ≡ max a.rel_end (extent c))
      × (a'.absorbed ≡ suc a.absorbed)
unfolding absorb_whole
absorb_whole_lem at a c v h = ground (arith, v.ends, v.end_fits, v.fits, v.near, v.first)

-- What is there with the range of an absorber added, by what is there from `at` on.
abbrev pub joined : ℕ → Absorber → (ℕ → Bool) → ℕ → Bool
joined at a there y = within a.start a.len y || (leb at y && there (y - at))

absorb_whole-joined :
    (at : ℕ) (a : Absorber) (c : Contig) (cs : List Contig) (y : ℕ)
    → IsAt at a c
    → c.hole_size ≤ a.rel_end
    → joined (at + extent c) (absorb_whole a c) (covers cs) y ≡ joined at a (covers (c ∷ cs)) y
absorb_whole-joined at a c cs y v h =
    let (low, high, _, _) = absorb_whole_lem at a c v h in
    let e : y - at - extent c ≡ y - (at + extent c) = omega arith in
    ground (arith, low, high, e, v.ends, v.near, v.first)

-- A range that ends before the data of the contig, which gives up the hole before its end.
absorb_part-joined :
    (at : ℕ) (a : Absorber) (c : Contig) (cs : List Contig) (y : ℕ)
    → a.start + a.len ≡ at + a.rel_end
    → a.rel_end < c.hole_size
    → covers
        (record { hole_size = a.start; data_size = a.len }
          ∷ record c { hole_size = c.hole_size - a.rel_end }
          ∷ cs)
        y
      ≡ joined at a (covers (c ∷ cs)) y
absorb_part-joined at a c cs y e h =
    let same : y - at - extent c ≡ y - (a.start + a.len) - (c.hole_size - a.rel_end + c.data_size) =
      omega arith in
    ground (arith, e, h, same)

absorb_all_whole :
    (a : Absorber) (c : Contig) (cs : List Contig)
    → is_empty c ≡ false
    → ltb a.rel_end c.hole_size ≡ false
    → absorb_all a (c ∷ cs)
      ≡ ((absorb_all (absorb_whole a c) cs).0, c ∷ (absorb_all (absorb_whole a c) cs).1)
unfolding absorb_all absorb
absorb_all_whole a c cs e h = rw (e, h) refl

absorb_all_part :
    (a : Absorber) (c : Contig) (cs : List Contig)
    → is_empty c ≡ false
    → ltb a.rel_end c.hole_size ≡ true
    → would_overflow a ≡ false
    → absorb_all a (c ∷ cs)
      ≡ (record a { rel_end = 0 }, record c { hole_size = c.hole_size - a.rel_end } ∷ cs)
unfolding absorb_all absorb
absorb_all_part a c cs e h w = rw (e, h, w) refl

absorb_all_stop :
    (a : Absorber) (c : Contig) (cs : List Contig)
    → is_empty c ≡ true
    → absorb_all a (c ∷ cs) ≡ (a, c ∷ cs)
unfolding absorb_all absorb
absorb_all_stop a c cs e = rw e refl

absorb_all_full :
    (a : Absorber) (c : Contig) (cs : List Contig)
    → is_empty c ≡ false
    → ltb a.rel_end c.hole_size ≡ true
    → would_overflow a ≡ true
    → absorb_all a (c ∷ cs) ≡ (a, c ∷ cs)
unfolding absorb_all absorb
absorb_all_full a c cs e h w = rw (e, h, w) refl

-- What is left of the contigs from `at` on behind those that are absorbed whole.
pub record IsLeft (at : ℕ) (a a' : Absorber) (cs rest : List Contig) : Type 0 where
  pub earlier : a'.start ≤ a.start
  pub no_shorter : a.start + a.len ≤ a'.start + a'.len
  pub left_fits : a'.start + a'.len + span rest ≤ max (a.start + a.len) (at + span cs)
  pub left_packed : IsPacked rest
  pub gap : covers rest 0 ≡ false
  pub bytes :
      (y : ℕ)
      → covers (record { hole_size = a'.start; data_size = a'.len } ∷ rest) y
        ≡ joined at a (covers cs) y

-- What a loop over the contigs leaves: those that are absorbed whole, and the others.
abbrev pub Absorbs : ℕ → Absorber → List Contig → Absorber × List Contig → Type 0
Absorbs at a cs (a', cs') =
    (whole : List Contig) × (rest : List Contig) × (cs' ≡ whole ++ rest)
    × (a'.absorbed ≡ a.absorbed + length whole)
    × IsLeft at a a' cs rest

abbrev pub IsNear : ℕ → Absorber → List Contig → Type 0
IsNear at a [] = Unit
IsNear at a (c ∷ cs) = (a.start ≤ at + extent c) ⊎ (extent c ≡ 0)

joined-nothing :
    (at : ℕ) (a : Absorber) (cs : List Contig) (y : ℕ)
    → span cs ≡ 0
    → covers (record { hole_size = a.start; data_size = a.len } ∷ cs) y ≡ joined at a (covers cs) y
joined-nothing at a cs y h =
    ground (arith, covers-nothing cs (y - (a.start + a.len)) h, covers-nothing cs (y - at) h)

empty_extent : (c : Contig) → extent c < 2 ^ 32 → is_empty c ≡ true → extent c ≡ 0
empty_extent c h e = ground arith

some_extent : (c : Contig) → is_empty c ≡ false → 0 < extent c
some_extent c e = ground arith

near_lem : (at : ℕ) (a : Absorber) (cs : List Contig) → a.start ≤ at → IsNear at a cs
near_lem at a [] h = tt
near_lem at a (c ∷ cs) h = inl (omega arith)

stop_lem :
    (at : ℕ) (a : Absorber) (cs : List Contig) → IsPacked cs → span cs ≡ 0 → IsLeft at a a cs cs
stop_lem at a cs packed all = record {
  earlier = omega arith;
  no_shorter = omega arith;
  left_fits = omega arith;
  left_packed = packed;
  gap = covers-nothing cs 0 all;
  bytes = λ y. joined-nothing at a cs y all;
}

part_lem :
    (at : ℕ) (a : Absorber) (c : Contig) (cs : List Contig)
    → a.start + a.len ≡ at + a.rel_end
    → a.rel_end < c.hole_size
    → IsPacked cs
    → IsLeft at a
        (record a { rel_end = 0 })
        (c ∷ cs)
        (record c { hole_size = c.hole_size - a.rel_end } ∷ cs)
part_lem at a c cs ends h packed = record {
  earlier = omega arith;
  no_shorter = omega arith;
  left_fits = omega arith;
  left_packed = ((λ e. absurd (omega arith)), packed);
  gap = ground arith;
  bytes = λ y. absorb_part-joined at a c cs y ends h;
}

whole_lem :
    (at : ℕ) (a : Absorber) (c : Contig) (cs : List Contig) (a' : Absorber) (rest : List Contig)
    → IsAt at a c
    → c.hole_size ≤ a.rel_end
    → IsLeft (at + extent c) (absorb_whole a c) a' cs rest
    → IsLeft at a a' (c ∷ cs) rest
whole_lem at a c cs a' rest here below v =
    let (low, high, _, _) = absorb_whole_lem at a c here below in
    record {
      earlier = omega (arith, v.earlier, low);
      no_shorter = omega (arith, v.no_shorter, high, here.ends);
      left_fits = omega (arith, v.left_fits, high, here.ends);
      left_packed = v.left_packed;
      gap = v.gap;
      bytes = λ y. v.bytes y ∙ absorb_whole-joined at a c cs y here below;
    }

pub absorb_all-Absorbs :
    (at : ℕ) (a : Absorber) (cs : List Contig)
    → a.start + a.len ≡ at + a.rel_end
    → a.start + a.len < 2 ^ 32
    → at + span cs < 2 ^ 32
    → (at ≡ 0) ⊎ (a.start ≤ at)
    → IsNear at a cs
    → IsPacked cs
    → ((absorb_all a cs).0.absorbed ≡ 0 → a.available ≡ true)
    → Absorbs at a cs (absorb_all a cs)
unfolding absorb_all
absorb_all-Absorbs at a [] ends end_fits fits first near packed free =
    ([], [], refl, omega arith, stop_lem at a [] tt refl)
absorb_all-Absorbs at a (c ∷ cs) ends end_fits fits first near packed free =
    elim (Bool-cases (is_empty c)) [
      | inl e ↦
          let none = empty_extent c (omega arith) e in
          let all : span (c ∷ cs) ≡ 0 = omega (arith, none, packed.0 none) in
          rw (absorb_all_stop a c cs e)
            ([], c ∷ cs, refl, omega arith, stop_lem at a (c ∷ cs) packed all)
      | inr e ↦ elim (Bool-cases (ltb a.rel_end c.hole_size)) [
        | inl h ↦ elim (Bool-cases (would_overflow a)) [
          | inl w ↦
              let same = ap (λ p. p.0.absorbed) (absorb_all_full a c cs e h w) in
              let z : a.absorbed ≡ 0 = ground arith in
              let there = free (same ∙ z) in absurd (ground arith)
          | inr w ↦
              rw (absorb_all_part a c cs e h w)
                ([], _, refl, omega arith, part_lem at a c cs ends (ground arith) packed.1)
        ]
        | inr h ↦
            let a_1 = absorb_whole a c in
            let at_1 = at + extent c in
            let positive = some_extent c e in
            let close : a.start ≤ at + extent c = ground (arith, near) in
            let here : IsAt at a c = record {
              ends = ends;
              end_fits = end_fits;
              fits = omega arith;
              near = close;
              first = first;
            } in
            let below : c.hole_size ≤ a.rel_end = ground arith in
            let (low, high, left, count) = absorb_whole_lem at a c here below in
            let grown = absorbed-grows a_1 cs in
            let (whole, rest, parted, counted, left_over) =
              absorb_all-Absorbs at_1 a_1 cs (omega arith) (ground arith) (omega arith)
                (inr (ground arith)) (near_lem at_1 a_1 cs (ground arith)) packed.1
                (λ z. absurd (omega arith)) in
            rw (absorb_all_whole a c cs e h) (
              c ∷ whole,
              rest,
              ap (λ xs. c ∷ xs) parted,
              omega arith,
              whole_lem at a c cs (absorb_all a_1 cs).0 rest here below left_over,
            )
      ]
    ]
