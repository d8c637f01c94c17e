-- ===== src/Examples/Fragments.antt =====
-- The assembly of ethox/src/storage/assembler.rs on one and two contigs.
use ethox.Base.{
  ℕ, ◌<◌, ◌+◌, List, true, false, ◌≡◌, ◌-◌, refl, some, none, returns, [], ◌∷◌, arith,
  if◌then◌else◌, u32_max,
}
use ethox.Storage.Assembler.{
  new, add_contig_at, Contig, empty, is_empty, back, find, absorb, absorb_all, absorb_whole,
  remove_contigs, add_absorbed, add_impl, add, bounded_add, store_absorbed,
}
use ethox.Storage.Assembler.Front.{front_bytes}
use ethox.Storage.Assembler.Bytes.{covers, IsAssembly}
use ethox.Storage.Assembler.Joined.{Added, add_impl-Added}
use ethox.Storage.Assembler.Reached.{Reached, begun, accepted, in_ranges, Reached-covers}
use ethox.Storage.Assembler.Returned.{united, add-front}

-- A byte after a hole of ten.
abbrev byte_ten : Contig
byte_ten = record { hole_size = 10; data_size = 1 }

refused : add_impl (byte_ten ∷ []) 20 1 u32_max ≡ returns (none, byte_ten ∷ [])
unfolding add_impl find
refused = refl

front_bytes_example :
    add_impl (byte_ten ∷ []) 0 4 u32_max
    ≡ returns (
      some 4,
      (if is_empty byte_ten then record byte_ten { hole_size = 10 - 4 } else byte_ten) ∷ [],
    )
front_bytes_example =
    front_bytes byte_ten byte_ten [] 4 u32_max (unfold back in refl) (omega arith) (omega arith)
      (omega arith)

-- The documentation's example: the front is filled, and all ten bytes are returned.
joined :
    add (record { hole_size = 5; data_size = 5 } ∷ empty ∷ []) 0 5
    ≡ returns (some 10, empty ∷ empty ∷ [])
unfolding add add_impl find add_absorbed absorb_all absorb remove_contigs absorb_whole
joined = refl

-- The byte after ten is kept in the only contig; four bytes at the front, then six more, are returned
-- as they come, and do not bring it along.
four_front : add (byte_ten ∷ []) 0 4 ≡ returns (some 4, byte_ten ∷ [])
unfolding add add_impl find add_absorbed absorb_all absorb remove_contigs
four_front = refl

six_front : add (byte_ten ∷ []) 0 6 ≡ returns (some 6, byte_ten ∷ [])
unfolding add add_impl find add_absorbed absorb_all absorb remove_contigs
six_front = refl

-- The tests of partial progress in the source.
forgotten_progress :
    bounded_add (record { hole_size = 3; data_size = 5 } ∷ []) 0 2 1
    ≡ returns (some 1, record { hole_size = 2; data_size = 5 } ∷ [])
unfolding bounded_add add_impl find add_absorbed absorb_all absorb
forgotten_progress = refl

overlapping_progress :
    bounded_add
      (record { hole_size = 4; data_size = 8 } ∷ record { hole_size = 4; data_size = 4 } ∷ [])
      0
      16
      2
    ≡ returns (some 2, record { hole_size = 0; data_size = 18 } ∷ empty ∷ [])
unfolding bounded_add add_impl find add_absorbed absorb_all absorb absorb_whole store_absorbed
    remove_contigs
overlapping_progress = refl

-- Two octets that stand before the byte after ten, with a contig free.
add_impl-Added_example :
    (last : Contig) × (back (byte_ten ∷ empty ∷ []) ≡ returns last)
    × Added (byte_ten ∷ empty ∷ []) 8 2 0 last
add_impl-Added_example =
    add_impl-Added byte_ten (empty ∷ []) 8 2 0 (omega arith, ((λ h. refl), ((λ h. refl), tt)))
      (omega arith) (omega arith)

-- Ten bytes at the front bring the byte after them along.
add-front_example :
    (n : ℕ) × (cs : List Contig) × (add (byte_ten ∷ empty ∷ []) 0 10 ≡ returns (some n, cs))
    × IsAssembly cs
    × ((x : ℕ) → x < n → united (byte_ten ∷ empty ∷ []) 10 x ≡ true)
    × (covers cs 0 ≡ false)
    × ((x : ℕ) → covers cs x ≡ united (byte_ten ∷ empty ∷ []) 10 (x + n))
add-front_example =
    add-front byte_ten empty (empty ∷ []) 10 (omega arith, ((λ h. refl), ((λ h. refl), tt)))
      (omega arith) (unfold back in refl) refl

-- On a new assembly of two contigs, two bytes are added at eight.
two_at_eight : Reached ((8, 2) ∷ []) (record { hole_size = 8; data_size = 2 } ∷ empty ∷ [])
unfolding new bounded_add add_impl find add_absorbed absorb_all absorb store_absorbed add_contig_at
two_at_eight =
    accepted [] (empty ∷ empty ∷ []) _ 8 2 0 0
      (begun (byte_ten ∷ byte_ten ∷ []) (empty ∷ empty ∷ []) refl) (omega arith) (omega arith) refl

Reached-covers_example :
    IsAssembly (record { hole_size = 8; data_size = 2 } ∷ empty ∷ [])
    × ((x : ℕ)
        → covers (record { hole_size = 8; data_size = 2 } ∷ empty ∷ []) x
          ≡ in_ranges ((8, 2) ∷ []) x)
Reached-covers_example =
    Reached-covers ((8, 2) ∷ []) (record { hole_size = 8; data_size = 2 } ∷ empty ∷ []) two_at_eight
