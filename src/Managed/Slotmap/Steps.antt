-- ===== src/Managed/Slotmap/Steps.antt =====
-- Reserving and removing in the slot map of ethox/src/managed/slotmap.rs, as what they do to the keys.
use ethox.Base.{
  ℕ, suc, ◌+◌, ◌≡◌, ◌≢◌, ◌<◌, refl, none, some, returns, List, [], ◌∷◌, set, get_elem?-set_self,
  length-set, ◌==◌, if◌then◌else◌, isize_max, arith, pos,
}
use ethox.Managed.Partial
use ethox.Managed.Partial.{Partial}
use ethox.Managed.Partial.Lists.{get_lem, push_lem}
use ethox.Managed.Slotmap.{Slot, SlotMap, from_offset, next_free_slot, reserve_at, advance}
use ethox.Managed.Slotmap.Links.{link_roundtrip}
use ethox.Managed.Slotmap.Free.{
  FreeList-set, IsSound, stored, unlinked, linked, generation_at-set_self, generation_at-set_ne,
  stored_lem,
}

module _ {ℓ} {A : Type ℓ} where
  -- What a call that finds a free slot leaves: it is the first of the list, and no key has changed.
  abbrev pub Found : SlotMap A → ℕ → List ℕ → SlotMap A → Type ℓ
  Found m i free m' =
      (next_free_slot m ≡ returns (some (i, m')))
      × IsSound m' (i ∷ free)
      × ((j : ℕ) → stored m' j ≡ stored m j)
      × (m'.elements ≡ m.elements)
      × (m'.generation ≡ m.generation)

  pub Found-listed :
      (m : SlotMap A) (i : ℕ) (free : List ℕ) → IsSound m (i ∷ free) → Found m i free m
  unfolding next_free_slot
  Found-listed m i free v =
      (ground (arith, get_lem m.slots m.free_top, v.links), v, (λ j. refl), refl, refl)

  pub Found-new :
      (m : SlotMap A)
      → IsSound m []
      → m.slots.end < m.indices
      → (m' : SlotMap A) × Found m m.slots.end [] m'
  unfolding next_free_slot
  Found-new m v l =
      let (offset, made, read, back) =
        link_roundtrip m.indices m.slots.end (suc m.slots.end) v.capacity_fits l (ground arith)
          (ground arith) in
      (
        pushed offset,
        (
          ground (arith, get_lem m.slots m.free_top, v.links, v.capacity_min, push_lem m.slots),
          record {
            capacity_min =
                rw
                  (length-set m.slots.inner m.slots.end
                    (record { generation_id = from_offset offset }))
                  v.capacity_min;
            capacity_fits = v.capacity_fits;
            end_fits = ground arith;
            generation_positive = v.generation_positive;
            links = (
              refl,
              ground arith,
              tt,
              (
                offset,
                suc m.slots.end,
                get_elem?-set_self m.slots.inner m.slots.end _ (ground (arith, v.capacity_min)),
                back,
                refl,
              ),
            );
          },
          kept offset,
          refl,
          refl,
        ),
      )
    where
      pushed : ℕ → SlotMap A
      pushed offset = record m {
        slots = record {
          inner = set m.slots.inner m.slots.end (record { generation_id = from_offset offset });
          end = suc m.slots.end;
        };
        free_top = m.slots.end;
      }

      kept : (offset j : ℕ) → stored (pushed offset) j ≡ stored m j
      kept offset j = ground (
        arith,
        stored_lem m j,
        stored_lem (pushed offset) j,
        unlinked offset,
        generation_at-set_self m.slots.inner m.slots.end
            (record { generation_id = from_offset offset }),
        generation_at-set_ne m.slots.inner m.slots.end j
            (record { generation_id = from_offset offset }),
        v.capacity_min,
      )

  -- What a call that reserves a slot leaves: its key is the only one that changed.
  abbrev pub Reserved : SlotMap A → ℕ → List ℕ → SlotMap A → Type ℓ
  Reserved m i free m' =
      (reserve_at m i ≡ returns (some (record { idx = i; generation = m.generation }, m')))
      × IsSound m' free
      × (stored m i ≡ none)
      × (stored m' i ≡ some m.generation)
      × ((j : ℕ) → i ≢ j → stored m' j ≡ stored m j)
      × (m'.elements ≡ m.elements)
      × (advance m.generation ≡ returns m'.generation)

  pub reserved :
      (m : SlotMap A) (i : ℕ) (free : List ℕ)
      → IsSound m (i ∷ free)
      → (m' : SlotMap A) × Reserved m i free m'
  unfolding reserve_at Partial.put advance
  reserved m i free v =
      let (t, l, once, (offset, following, e, n, f)) = v.links in
      let m' : SlotMap A = taken following in
      (
        m',
        (
          ground (
            arith,
            get_lem m.slots i,
            linked offset,
            v.capacity_min,
            v.end_fits,
            v.generation_positive,
          ),
          record {
            capacity_min = rw (length-set m.slots.inner i now) v.capacity_min;
            capacity_fits = v.capacity_fits;
            end_fits = v.end_fits;
            generation_positive = ground arith;
            links = FreeList-set m.indices m.slots.inner m.slots.end following i now free once f;
          },
          ground (arith, stored_lem m i, unlinked offset),
          ground (
            arith,
            stored_lem m' i,
            generation_at-set_self m.slots.inner i now,
            v.capacity_min,
            v.end_fits,
            v.generation_positive,
          ),
          (λ j ne. ground (
            arith,
            stored_lem m j,
            stored_lem m' j,
            generation_at-set_ne m.slots.inner i j now ne,
          )),
          refl,
          ground (arith, v.generation_positive),
        ),
      )
    where
      now : Slot
      now = record { generation_id = pos m.generation }

      taken : ℕ → SlotMap A
      taken following = record m {
        slots = record (m.slots) { inner = set m.slots.inner i now };
        free_top = following;
        generation = if m.generation == isize_max then 1 else m.generation + 1;
      }
