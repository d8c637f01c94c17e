-- ===== src/Layer/Neighbor/Filled.antt =====
-- What filling the cache of ethox/src/layer/arp/neighbor.rs does to the map from addresses to their entries.
use ethox.Base.{
  ℕ, ◌<◌, ◌≡◌, ◌≢◌, ◌⊎◌, inl, inr, refl, ap, sym, subst, ◌∙◌, Option, none, some, returns, [],
  get_elem?, length, length-take, ltb→lt, true, false, arith, Bool-cases, Option-cases, ltb,
}
use ethox.Time.{Instant, cmp, expiration_ge, from_option}
use ethox.Wire.Repr.{Address}
use ethox.Managed.Ordered.{ordered_slice, init}
use ethox.Layer.Neighbor.{
  Neighbor, Mapping, hardware, takes_back, looking_for, requesting, Cache, Error, no_space,
  expires_too_soon, new_neighbor, update_or_insert, is_running, is_gt, oldest, search, insert,
  update_at, replace,
}
use ethox.Layer.Neighbor.Keys.{address_cmp-same, entry_of, Found, search-Found}
use ethox.Layer.Neighbor.Changed.{entry_of-at, entry_of-listed}
use ethox.Layer.Neighbor.Removed.{entry_of-removed, entry_of-removed_self}
use ethox.Layer.Neighbor.Expiry.{after-NotAfter, Oldest, oldest-Oldest, NotAfter}
use ethox.Layer.Neighbor.Stored.{view, IsCache, Stored, store-Stored}
use ethox.Layer.Neighbor.Replaced.{replace-Stored}
use ethox.Layer.Neighbor.Evicted.{without, without-slice, evict-Stored}

-- What becomes of a new entry.
pub data Answered (c : Cache) (e : Neighbor) (timestamp : Option Instant)
    : Error ⊎ Cache → Type 0 where
  -- A request is running that has not expired, and remains.
  left :
      (old : Neighbor)
      → view c e.protocol_addr ≡ some old
      → old.hardware_addr ≡ requesting
      → e.hardware_addr ≡ looking_for
      → expiration_ge old.expires_at (from_option timestamp) ≡ true
      → Answered c e timestamp (inr c)
  -- It takes the place of another entry of the address, unless that is such a request.
  updated :
      (old : Neighbor) (c' : Cache)
      → view c e.protocol_addr ≡ some old
      → (old.hardware_addr ≡ requesting
          → e.hardware_addr ≡ looking_for
          → expiration_ge old.expires_at (from_option timestamp) ≡ false)
      → Stored c e c'
      → Answered c e timestamp (inr c')
  added :
      (c' : Cache)
      → view c e.protocol_addr ≡ none
      → c.storage.start < length c.storage.inner
      → Stored c e c'
      → Answered c e timestamp (inr c')
  -- The cache is full, and an entry that expires first goes, which does not outlive the new one.
  evicted :
      (old : Neighbor) (without c' : Cache)
      → view c e.protocol_addr ≡ none
      → c.storage.start ≡ length c.storage.inner
      → view c old.protocol_addr ≡ some old
      → ((b : Address) (n : Neighbor) → view c b ≡ some n → NotAfter old.expires_at n.expires_at)
      → NotAfter old.expires_at e.expires_at
      → view without old.protocol_addr ≡ none
      → ((b : Address) → b ≢ old.protocol_addr → view without b ≡ view c b)
      → Stored without e c'
      → Answered c e timestamp (inr c')
  -- The cache is full, and all of its entries outlive the new one.
  outlived :
      view c e.protocol_addr ≡ none
      → c.storage.start ≡ length c.storage.inner
      → ((b : Address) (n : Neighbor)
          → view c b ≡ some n
          → is_gt (cmp n.expires_at e.expires_at) ≡ true)
      → Answered c e timestamp (inl expires_too_soon)
  no_room : length c.storage.inner ≡ 0 → Answered c e timestamp (inl no_space)

takes_back_lem : (a b : Mapping) → takes_back a b ≡ true → (a ≡ requesting) × (b ≡ looking_for)
takes_back_lem requesting looking_for h = (refl, refl)
takes_back_lem requesting requesting h = absurd cc
takes_back_lem requesting (hardware b) h = absurd cc
takes_back_lem looking_for b h = absurd cc
takes_back_lem (hardware a) b h = absurd cc

is_running_lem :
    (old e : Neighbor) (t : Option Instant)
    → is_running old e t ≡ true
    → (old.hardware_addr ≡ requesting)
      × (e.hardware_addr ≡ looking_for)
      × (expiration_ge old.expires_at (from_option t) ≡ true)
unfolding is_running
is_running_lem old e t h = elim (Bool-cases (takes_back old.hardware_addr e.hardware_addr)) [
  | inl b ↦
      let (x, y) = takes_back_lem old.hardware_addr e.hardware_addr b in
      (x, y, sym (rw (b, is_running) refl) ∙ h)
  | inr b ↦ let wrong : is_running old e t ≡ false = rw (b, is_running) refl in absurd cc
]

not_running :
    (old e : Neighbor) (t : Option Instant)
    → is_running old e t ≡ false
    → old.hardware_addr ≡ requesting
    → e.hardware_addr ≡ looking_for
    → expiration_ge old.expires_at (from_option t) ≡ false
unfolding is_running
not_running old e t run x y =
    let both : takes_back old.hardware_addr e.hardware_addr ≡ true = rw (x, y) refl in
    rw both at run

-- Of a full cache without an entry for the address.
insert_full-Answered :
    (c : Cache) (e : Neighbor) (t : Option Instant)
    → IsCache c
    → view c e.protocol_addr ≡ none
    → c.storage.start ≡ length c.storage.inner
    → ltb c.storage.start (length c.storage.inner) ≡ false
    → (r : Error ⊎ Cache) × (insert c e ≡ returns r) × Answered c e t r
unfolding insert init
insert_full-Answered c e t v absent full past =
    let ns = ordered_slice c.storage in
    let least = oldest-Oldest ns in
    elim (Option-cases (oldest ns)) [
      | inl f ↦
          let empty : ns ≡ [] = subst (Oldest ns) f least in
          let nothing : length ns ≡ 0 = ap length empty in
          (
            inl no_space,
            rw (past, f, insert) refl,
            Answered.no_room (omega (arith, length-take c.storage.start c.storage.inner, full)),
          )
      | inr ((i, old), f) ↦
          let (at_i, first) = subst (Oldest ns) f least in
          let there : view c old.protocol_addr ≡ some old = entry_of-at ns i old v.sorted at_i in
          elim (Bool-cases (is_gt (cmp old.expires_at e.expires_at))) [
            | inl g ↦ (
              inl expires_too_soon,
              rw (past, f, g, insert) refl,
              Answered.outlived absent full (λ b n h.
                  let (j, at_j) = entry_of-listed ns b n h in
                  after-NotAfter old.expires_at n.expires_at e.expires_at g (first j n at_j)),
            )
            | inr g ↦
                let (c', evicts, stored) = evict-Stored c i old e v at_i absent there in
                let (low, slice) = without-slice c i old v at_i in
                (
                  inr c',
                  rw (past, f, g, insert) evicts,
                  Answered.evicted old (without c i) c' absent full there
                      (λ b n h. let (j, at_j) = entry_of-listed ns b n h in first j n at_j) g
                      (ap (λ ms. entry_of ms old.protocol_addr) slice
                        ∙ entry_of-removed_self ns i old v.sorted at_i)
                      (λ b h. ap (λ ms. entry_of ms b) slice ∙ entry_of-removed ns i old b at_i h)
                      stored,
                )
          ]
    ]

insert-Answered :
    (c : Cache) (e : Neighbor) (t : Option Instant)
    → IsCache c
    → view c e.protocol_addr ≡ none
    → (r : Error ⊎ Cache) × (insert c e ≡ returns r) × Answered c e t r
unfolding insert init
insert-Answered c e t v absent = elim (Bool-cases (ltb c.storage.start (length c.storage.inner))) [
  | inl room ↦
      let (c', stores, stored) = store-Stored c c.storage e v (ltb→lt _ _ room) absent in
      (inr c', rw (room, insert) stores, Answered.added c' absent (ltb→lt _ _ room) stored)
  | inr past ↦ insert_full-Answered c e t v absent (ground (arith, past, v.within)) past
]

replaced_at :
    (c : Cache) (i : ℕ) (old e : Neighbor) (t : Option Instant)
    → get_elem? (ordered_slice c.storage) i ≡ some old
    → old.protocol_addr ≡ e.protocol_addr
    → is_running old e t ≡ false
    → update_at c i e t ≡ replace c i e
unfolding update_at
replaced_at c i old e t at_i same run =
    rw (at_i, address_cmp-same old.protocol_addr e.protocol_addr same, run) refl

update-Answered :
    (c : Cache) (i : ℕ) (old e : Neighbor) (t : Option Instant)
    → IsCache c
    → get_elem? (ordered_slice c.storage) i ≡ some old
    → old.protocol_addr ≡ e.protocol_addr
    → view c e.protocol_addr ≡ some old
    → (r : Error ⊎ Cache) × (update_at c i e t ≡ returns r) × Answered c e t r
unfolding update_at
update-Answered c i old e t v at_i same there =
    let found = address_cmp-same old.protocol_addr e.protocol_addr same in
    elim (Bool-cases (is_running old e t)) [
      | inl run ↦
          let (x, y, z) = is_running_lem old e t run in
          (inr c, rw (at_i, found, run) refl, Answered.left old there x y z)
      | inr run ↦
          let (c', replaces, stored) = replace-Stored c i old e v at_i same in
          (
            inr c',
            replaced_at c i old e t at_i same run ∙ replaces,
            Answered.updated old c' there (not_running old e t run) stored,
          )
    ]

-- On a cache whose entries are in order, the methods that fill it return in every case, and the answer and the new
-- map from addresses to entries are those that `Answered` names; the entries stay in order.
pub update_or_insert-Answered :
    (c : Cache) (a : Address) (m : Mapping) (t : Option Instant)
    → IsCache c
    → (r : Error ⊎ Cache) × (update_or_insert c a m t ≡ returns r)
      × Answered c (new_neighbor a m t) t r
unfolding update_or_insert
update_or_insert-Answered c a m t v =
    let ns = ordered_slice c.storage in
    let e = new_neighbor a m t in go (search ns a) (search-Found ns a v.sorted)
  where
    go :
        (r : ℕ ⊎ ℕ)
        → Found (ordered_slice c.storage) a r
        → (x : Error ⊎ Cache) × (elim r [
          | inl i ↦ update_at c i (new_neighbor a m t) t
          | inr _ ↦ insert c (new_neighbor a m t)
        ]
            ≡ returns x)
          × Answered c (new_neighbor a m t) t x
    go (inl i) (old, at_i, same, there) =
        update-Answered c i old (new_neighbor a m t) t v at_i same there
    go (inr i) absent = insert-Answered c (new_neighbor a m t) t v absent
