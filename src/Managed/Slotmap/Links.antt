-- ===== src/Managed/Slotmap/Links.antt =====
-- The links of the free list in ethox/src/managed/slotmap.rs.
use ethox.Base.{
  ℕ, zero, suc, ◌+◌, ◌-◌, ◌≡◌, ◌≢◌, ◌≤◌, ◌<◌, refl, some, returns, isize_max, ◌⊎◌, inl, inr, arith,
}
use ethox.Managed.Slotmap.{free_list_next, free_list_offset, free_link, from_offset}

-- In a map whose capacity is an `isize`, the link from a slot to another, or to the end of the list,
-- can be stored, and following it leads to where it was made for.
pub link_roundtrip :
    (capacity base to : ℕ)
    → capacity < isize_max
    → base < capacity
    → to ≤ capacity
    → base ≢ to
    → (offset : ℕ) × (free_list_offset capacity base to ≡ returns offset)
      × (free_link (from_offset offset) ≡ some offset)
      × (free_list_next capacity base offset ≡ returns to)
unfolding free_list_next free_list_offset
link_roundtrip capacity base to c b t n = elim (to_case base to) [
  | inl le ↦ (to - (base + 1), ground arith, stored _, ground arith)
  | inr gt ↦ (to + (capacity + 1) - (base + 1), ground arith, stored _, ground arith)
]
  where
    to_case : (a b : ℕ) → (a < b) ⊎ (b ≤ a)
    to_case a b = ground arith

    stored : (n : ℕ) → free_link (from_offset n) ≡ some n
    stored zero = refl
    stored (suc n) = refl
