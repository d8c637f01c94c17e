-- ===== src/Layer/Route/Longest.antt =====
-- The lookup in the routing table of ethox/src/layer/ip/route.rs finds the first of the longest prefixes.
use ethox.Base.{
  ℕ, zero, suc, ◌<◌, ◌≤◌, ◌≡◌, refl, sym, ap, ◌∙◌, subst, Bool, true, false, not, ◌&&◌, Option,
  none, some, Outcome, returns, panics, List, [], ◌∷◌, ◌++◌, length, get_elem?, Bool-cases, ltb,
  if◌then◌else◌, inl, inr, arith, ◌⊎◌, ltb→lt, le→leb, some-within,
}
use mathlib.Core.List.{append_assoc, append-nil}
use ethox.Time.{Instant}
use ethox.Wire.Repr.{Address, unspecified, ipv4, ipv6}
use ethox.Wire.Ip.{Subnet, net4, net6, is_unicast, contains, prefix_len}
use ethox.Wire.Ip.V4
use ethox.Wire.Ip.V6
use ethox.Managed.Partial
use ethox.Layer.Route.{Route, Routes, is_expired, better, lookup_from, lookup, next_hop_of}

-- The prefix is one that the version's addresses have.
abbrev pub Fits : Subnet → Type 0
Fits (net4 s) = s.prefix ≤ 32
Fits (net6 s) = s.prefix ≤ 128

abbrev contained : Outcome Bool → Bool
contained (returns b) = b
contained panics = false

contains_total :
    (s : Subnet) (a : Address) → Fits s → contains s a ≡ returns (contained (contains s a))
unfolding contains V4.contains V4.mask V6.contains V6.mask
contains_total (net4 s) unspecified h = refl
contains_total (net4 s) (ipv4 a) h = ground (arith, h)
contains_total (net4 s) (ipv6 a) h = refl
contains_total (net6 s) unspecified h = refl
contains_total (net6 s) (ipv4 a) h = refl
contains_total (net6 s) (ipv6 a) h = rw (le→leb s.prefix 128 h) refl

module _ (a : Address) (t : Instant) where
  -- The route has not expired, and its network contains the address.
  abbrev pub matches : Route → Bool
  matches route = not (is_expired route t) && contained (contains route.net a)

  abbrev after_one : Option Route → Route → Option Route
  after_one best route = if matches route then some (better best route) else best

  abbrev after_all : List Route → Option Route → Option Route
  after_all [] best = best
  after_all (route ∷ routes) best = after_all routes (after_one best route)

  lookup_from_lem :
      (routes : List Route) (best : Option Route)
      → ((i : ℕ) (x : Route) → get_elem? routes i ≡ some x → Fits x.net)
      → lookup_from routes best a t ≡ returns (after_all routes best)
  unfolding lookup_from
  lookup_from_lem [] best fits = refl
  lookup_from_lem (route ∷ routes) best fits =
      let next = some (better best route) in
      let taken : lookup_from routes next a t ≡ returns (after_all routes next) =
        lookup_from_lem routes next (λ i. fits (suc i)) in
      let skipped : lookup_from routes best a t ≡ returns (after_all routes best) =
        lookup_from_lem routes best (λ i. fits (suc i)) in
      let total = contains_total route.net a (fits 0 route refl) in
      elim (Bool-cases (is_expired route t)) [
        | inl e ↦ rw e skipped
        | inr e ↦ elim (Bool-cases (contained (contains route.net a))) [
          | inl c ↦
              let found : contains route.net a ≡ returns true = total ∙ ap returns c in
              rw (e, found) taken
          | inr c ↦
              let missed : contains route.net a ≡ returns false = total ∙ ap returns c in
              rw (e, missed) skipped
        ]
      ]

  -- The best of a list: the first of those with the longest prefix, among the routes that match.
  abbrev pub IsBest : List Route → Option Route → Type 0
  IsBest routes none = (i : ℕ) (x : Route) → get_elem? routes i ≡ some x → matches x ≡ false
  IsBest routes (some best) =
      (k : ℕ) × (get_elem? routes k ≡ some best)
      × (matches best ≡ true)
      × ((i : ℕ) (x : Route)
          → get_elem? routes i ≡ some x
          → matches x ≡ true
          → (prefix_len x.net ≤ prefix_len best.net)
            × (i < k → prefix_len x.net < prefix_len best.net))

  -- What a list with one more route has at an index.
  snoc-cases :
      (routes : List Route) (route : Route) (i : ℕ) (x : Route)
      → get_elem? (routes ++ (route ∷ [])) i ≡ some x
      → (get_elem? routes i ≡ some x) ⊎ ((i ≡ length routes) × (x ≡ route))
  snoc-cases [] route zero x h = inr (refl, cc)
  snoc-cases [] route (suc i) x h = cc
  snoc-cases (y ∷ routes) route zero x h = inl h
  snoc-cases (y ∷ routes) route (suc i) x h = elim (snoc-cases routes route i x h) [
    | inl e ↦ inl e
    | inr (e, f) ↦ inr (ap suc e, f)
  ]

  at_last :
      (routes : List Route) (route : Route)
      → get_elem? (routes ++ (route ∷ [])) (length routes) ≡ some route
  at_last [] route = refl
  at_last (y ∷ routes) route = at_last routes route

  still_at :
      (routes : List Route) (route : Route) (i : ℕ) (x : Route)
      → get_elem? routes i ≡ some x
      → get_elem? (routes ++ (route ∷ [])) i ≡ some x
  still_at [] route i x h = cc
  still_at (y ∷ routes) route zero x h = h
  still_at (y ∷ routes) route (suc i) x h = still_at routes route i x h

  IsBest-skipped :
      (routes : List Route) (best : Option Route) (route : Route)
      → matches route ≡ false
      → IsBest routes best
      → IsBest (routes ++ (route ∷ [])) best
  IsBest-skipped routes none route m h = λ i x e. elim (snoc-cases routes route i x e) [
    | inl f ↦ h i x f
    | inr (_, f) ↦ ap matches f ∙ m
  ]
  IsBest-skipped routes (some b) route m (k, at_k, good, most) = (
    k,
    still_at routes route k b at_k,
    good,
    λ i x e n. elim (snoc-cases routes route i x e) [
      | inl f ↦ most i x f n
      | inr (_, f) ↦ let wrong : matches x ≡ false = ap matches f ∙ m in cc
    ],
  )

  IsBest-first :
      (routes : List Route) (route : Route)
      → matches route ≡ true
      → IsBest routes none
      → IsBest (routes ++ (route ∷ [])) (some route)
  IsBest-first routes route m h = (
    length routes,
    at_last routes route,
    m,
    λ i x e n. elim (snoc-cases routes route i x e) [
      | inl f ↦ let wrong = h i x f in cc
      | inr (l, f) ↦
          let same : prefix_len x.net ≡ prefix_len route.net = ap (λ r. prefix_len r.net) f in
          (omega arith, λ less. absurd (omega arith))
    ],
  )

  IsBest-replaced :
      (routes : List Route) (b route : Route)
      → matches route ≡ true
      → prefix_len b.net < prefix_len route.net
      → IsBest routes (some b)
      → IsBest (routes ++ (route ∷ [])) (some route)
  IsBest-replaced routes b route m l (k, at_k, good, most) = (
    length routes,
    at_last routes route,
    m,
    λ i x e n. elim (snoc-cases routes route i x e) [
      | inl f ↦ let below = (most i x f n).0 in (omega arith, λ less. omega arith)
      | inr (l, f) ↦
          let same : prefix_len x.net ≡ prefix_len route.net = ap (λ r. prefix_len r.net) f in
          (omega arith, λ less. absurd (omega arith))
    ],
  )

  IsBest-kept :
      (routes : List Route) (b route : Route)
      → prefix_len route.net ≤ prefix_len b.net
      → IsBest routes (some b)
      → IsBest (routes ++ (route ∷ [])) (some b)
  IsBest-kept routes b route l (k, at_k, good, most) = (
    k,
    still_at routes route k b at_k,
    good,
    λ i x e n. elim (snoc-cases routes route i x e) [
      | inl f ↦ most i x f n
      | inr (at_end, f) ↦
          let same : prefix_len x.net ≡ prefix_len route.net = ap (λ r. prefix_len r.net) f in
          let before = some-within routes k b at_k in (omega arith, λ less. absurd (omega arith))
    ],
  )

  IsBest-better :
      (routes : List Route) (best : Option Route) (route : Route)
      → matches route ≡ true
      → IsBest routes best
      → IsBest (routes ++ (route ∷ [])) (some (better best route))
  unfolding better
  IsBest-better routes none route m h = IsBest-first routes route m h
  IsBest-better routes (some b) route m h =
      elim (Bool-cases (ltb (prefix_len b.net) (prefix_len route.net))) [
        | inl l ↦ rw l (IsBest-replaced routes b route m (ltb→lt _ _ l) h)
        | inr l ↦ rw l (IsBest-kept routes b route (ground (arith, l)) h)
      ]

  IsBest-after_one :
      (routes : List Route) (best : Option Route) (route : Route)
      → IsBest routes best
      → IsBest (routes ++ (route ∷ [])) (after_one best route)
  IsBest-after_one routes best route h = elim (Bool-cases (matches route)) [
    | inr m ↦ rw m (IsBest-skipped routes best route m h)
    | inl m ↦ rw m (IsBest-better routes best route m h)
  ]

  IsBest-after_all :
      (seen routes : List Route) (best : Option Route)
      → IsBest seen best
      → IsBest (seen ++ routes) (after_all routes best)
  IsBest-after_all seen [] best h = subst (λ xs. IsBest xs best) (sym (append-nil seen)) h
  IsBest-after_all seen (route ∷ routes) best h =
      subst (λ xs. IsBest xs (after_all routes (after_one best route)))
        (append_assoc seen (route ∷ []) routes)
        (IsBest-after_all (seen ++ (route ∷ [])) routes (after_one best route)
          (IsBest-after_one seen best route h))

-- A lookup of a unicast address, in a table in use whose prefixes are valid, ends and returns the next hop of the
-- first route with the longest prefix among those that contain the address and have not expired, and none if there
-- is no such route.
pub lookup-IsBest :
    (r : Routes) (a : Address) (t : Instant)
    → is_unicast a ≡ true
    → ((i : ℕ) (x : Route) → get_elem? (Partial.as_slice r.storage) i ≡ some x → Fits x.net)
    → (best : Option Route) × (lookup r a t ≡ returns (next_hop_of best))
      × IsBest a t (Partial.as_slice r.storage) best
unfolding lookup
lookup-IsBest r a t u fits =
    let routes = Partial.as_slice r.storage in
    (
      after_all a t routes none,
      rw (u, lookup_from_lem a t routes none fits) refl,
      IsBest-after_all a t [] routes none (λ i x e. cc),
    )
