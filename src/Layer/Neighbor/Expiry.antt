-- ===== src/Layer/Neighbor/Expiry.antt =====
-- The entry that expires first, in ethox/src/layer/arp/neighbor.rs.
use ethox.Base.{
  ℕ, zero, suc, ◌≡◌, refl, ap, Option, none, some, List, [], ◌∷◌, get_elem?, true, false, arith,
  Bool-cases, inl, inr, subst,
}
use ethox.Time.{Expiration, at, never, cmp}
use ethox.Layer.Neighbor.{Neighbor, oldest, first_of, is_gt}

-- The first expiry is not after the second.
abbrev pub NotAfter : Expiration → Expiration → Type 0
NotAfter a b = is_gt (cmp a b) ≡ false

NotAfter-trans : (a b c : Expiration) → NotAfter a b → NotAfter b c → NotAfter a c
unfolding cmp
NotAfter-trans never never c h k = k
NotAfter-trans never (at b) c h k = absurd cc
NotAfter-trans (at a) b never h k = refl
NotAfter-trans (at a) never (at c) h k = absurd cc
NotAfter-trans (at a) (at b) (at c) h k = ground (arith, h, k)

NotAfter-refl : (a : Expiration) → NotAfter a a
unfolding cmp
NotAfter-refl never = refl
NotAfter-refl (at a) = ground arith

pub NotAfter-turned : (a b : Expiration) → is_gt (cmp a b) ≡ true → NotAfter b a
unfolding cmp
NotAfter-turned never never h = absurd cc
NotAfter-turned never (at b) h = refl
NotAfter-turned (at a) never h = absurd cc
NotAfter-turned (at a) (at b) h = ground (arith, h)

pub after-NotAfter :
    (a b c : Expiration) → is_gt (cmp a c) ≡ true → NotAfter a b → is_gt (cmp b c) ≡ true
unfolding cmp
after-NotAfter never never c h k = h
after-NotAfter never (at b) c h k = absurd cc
after-NotAfter (at a) b never h k = absurd cc
after-NotAfter (at a) never (at c) h k = refl
after-NotAfter (at a) (at b) (at c) h k = ground (arith, h, k)

-- What the search for the entry that expires first finds.
abbrev pub Oldest : List Neighbor → Option (ℕ × Neighbor) → Type 0
Oldest ns none = ns ≡ []
Oldest ns (some (i, n)) =
    (get_elem? ns i ≡ some n)
    × ((j : ℕ) (m : Neighbor) → get_elem? ns j ≡ some m → NotAfter n.expires_at m.expires_at)

Oldest-first_of :
    (x : Neighbor) (xs : List Neighbor) (r : Option (ℕ × Neighbor))
    → Oldest xs r
    → Oldest (x ∷ xs) (first_of x r)
Oldest-first_of x xs none e = (refl, least)
  where
    least :
        (j : ℕ) (m : Neighbor) → get_elem? (x ∷ xs) j ≡ some m → NotAfter x.expires_at m.expires_at
    least zero m f =
        let same : x ≡ m = cc in
        subst (λ y. NotAfter x.expires_at y.expires_at) same (NotAfter-refl x.expires_at)
    least (suc j) m f = let wrong : get_elem? xs j ≡ none = ap (λ ys. get_elem? ys j) e in absurd cc
Oldest-first_of x xs (some (i, y)) (at_i, least) =
    elim (Bool-cases (is_gt (cmp x.expires_at y.expires_at))) [
      | inl g ↦ rw g (at_i, later g)
      | inr g ↦ rw g (refl, earlier g)
    ]
  where
    later :
        is_gt (cmp x.expires_at y.expires_at) ≡ true
        → (j : ℕ) (m : Neighbor) → get_elem? (x ∷ xs) j ≡ some m
        → NotAfter y.expires_at m.expires_at
    later g zero m f =
        let same : x ≡ m = cc in
        subst (λ z. NotAfter y.expires_at z.expires_at) same
          (NotAfter-turned x.expires_at y.expires_at g)
    later g (suc j) m f = least j m f

    earlier :
        is_gt (cmp x.expires_at y.expires_at) ≡ false
        → (j : ℕ) (m : Neighbor) → get_elem? (x ∷ xs) j ≡ some m
        → NotAfter x.expires_at m.expires_at
    earlier g zero m f =
        let same : x ≡ m = cc in
        subst (λ z. NotAfter x.expires_at z.expires_at) same (NotAfter-refl x.expires_at)
    earlier g (suc j) m f = NotAfter-trans x.expires_at y.expires_at m.expires_at g (least j m f)

pub oldest-Oldest : (ns : List Neighbor) → Oldest ns (oldest ns)
oldest-Oldest [] = refl
oldest-Oldest (x ∷ xs) = Oldest-first_of x xs (oldest xs) (oldest-Oldest xs)
