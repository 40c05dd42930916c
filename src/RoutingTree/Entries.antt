-- ===== src/RoutingTree/Entries.antt =====
-- The entries of routes: which are there and which have a topic, and what the operations on them
-- keep.
use rbus.Base.{
  ℕ, ◌≡◌, ◌⊎◌, refl, ap, ◌||◌, Bool, true, false, Option, none, some, List, [], ◌∷◌, ◌++◌,
  if◌then◌else◌, Bool-cases, inl, inr, arith, ◌==◌,
}
use rbus.RoutingTree.{TopicPath}
use rbus.RoutingTree.Operations.{Route, has_path, get_route, get_or_add, add_topic, drop_route}

-- The tree has an entry for the route.
unfoldable pub is_listed : List Route → ℕ → Bool
is_listed [] s = false
is_listed (e ∷ routes) s = e.id == s || is_listed routes s

abbrev pub is_some_route : Option Route → Bool
is_some_route none = false
is_some_route (some e) = true

is_listed-append :
    (routes : List Route) (e : Route) (s : ℕ)
    → is_listed (routes ++ e ∷ []) s ≡ (is_listed routes s || e.id == s)
unfolding is_listed
is_listed-append [] e s = ground arith
is_listed-append (d ∷ routes) e s = rw (is_listed-append routes e s) (ground arith)

pub get_route-is_listed :
    (routes : List Route) (r s : ℕ)
    → (r == s) ≡ true
    → is_listed routes s ≡ is_some_route (get_route routes r)
unfolding is_listed get_route
get_route-is_listed [] r s h = refl
get_route-is_listed (e ∷ routes) r s h = elim (Bool-cases (e.id == r)) [
  | inl k ↦ rw k (ground arith)
  | inr k ↦ rw (k, get_route-is_listed routes r s h) (ground arith)
]

listed_or_added :
    (routes : List Route) (r s : ℕ) (o : Option Route)
    → ((r == s) ≡ true → is_listed routes s ≡ is_some_route o)
    → is_listed
        (elim o [ none ↦ routes ++ record { id = r; topics = [] } ∷ [] | some e ↦ routes ])
        s
      ≡ (is_listed routes s || r == s)
listed_or_added routes r s none h = is_listed-append routes (record { id = r; topics = [] }) s
listed_or_added routes r s (some e) h = elim (Bool-cases (r == s)) [
  | inl k ↦ ground (arith, h k)
  | inr k ↦ ground arith
]

pub is_listed-get_or_add :
    (routes : List Route) (r s : ℕ)
    → is_listed (get_or_add routes r) s ≡ (is_listed routes s || r == s)
unfolding get_or_add
is_listed-get_or_add routes r s =
    listed_or_added routes r s (get_route routes r) (get_route-is_listed routes r s)

chosen_id : (b : Bool) (d e : Route) → e.id ≡ d.id → (if b then d else e).id ≡ d.id
chosen_id true d e h = refl
chosen_id false d e h = h

pub is_listed-add_topic :
    (routes : List Route) (r s : ℕ) (p : TopicPath)
    → is_listed (add_topic routes r p) s ≡ is_listed routes s
unfolding is_listed add_topic
is_listed-add_topic [] r s p = refl
is_listed-add_topic (e ∷ routes) r s p = elim (Bool-cases (e.id == r)) [
  | inl k ↦
      rw k (ap (λ i. (i == s) || is_listed routes s) (chosen_id (has_path e.topics p) e _ refl))
  | inr k ↦ rw (k, is_listed-add_topic routes r s p) refl
]

pub is_listed-drop_route :
    (routes : List Route) (r s : ℕ)
    → (r == s) ≡ false
    → is_listed routes s ≡ true
    → is_listed (drop_route routes r) s ≡ true
unfolding is_listed drop_route
is_listed-drop_route [] r s n h = h
is_listed-drop_route (e ∷ routes) r s n h = elim (Bool-cases (e.id == r)) [
  | inl k ↦ rw k (ground (arith, h, n))
  | inr k ↦ rw k (elim (Bool-cases (e.id == s)) [
    | inl l ↦ ground arith
    | inr l ↦ let ih = is_listed-drop_route routes r s n (ground (arith, h)) in ground (arith, ih)
  ])
]

abbrev pub holds_topic : List TopicPath → Bool
holds_topic [] = false
holds_topic (p ∷ paths) = true

-- The route is there, and has a topic.
abbrev pub has_topic : Option Route → Bool
has_topic none = false
has_topic (some e) = holds_topic e.topics

get_route-append :
    (routes : List Route) (e : Route) (s : ℕ)
    → has_topic (get_route routes s) ≡ true
    → has_topic (get_route (routes ++ e ∷ []) s) ≡ true
unfolding get_route
get_route-append [] e s h = cc
get_route-append (d ∷ routes) e s h = elim (Bool-cases (d.id == s)) [
  | inl k ↦ let h' = rw k at h in rw k h'
  | inr k ↦ let h' = rw k at h in rw k (get_route-append routes e s h')
]

pub get_route-get_or_add :
    (routes : List Route) (r s : ℕ)
    → has_topic (get_route routes s) ≡ true
    → has_topic (get_route (get_or_add routes r) s) ≡ true
unfolding get_or_add
get_route-get_or_add routes r s h = go (get_route routes r)
  where
    go :
        (o : Option Route)
        → has_topic (
            get_route
              (elim o [ none ↦ routes ++ record { id = r; topics = [] } ∷ [] | some e ↦ routes ])
              s)
          ≡ true
    go none = get_route-append routes (record { id = r; topics = [] }) s h
    go (some e) = h

added_to :
    (r : ℕ) (paths : List TopicPath) (p : TopicPath)
    → has_topic (
        some (
          if has_path paths p
          then record { id = r; topics = paths }
          else record { id = r; topics = paths ++ p ∷ [] }))
      ≡ true
added_to r [] p = refl
added_to r (q ∷ paths) p = elim (Bool-cases (has_path (q ∷ paths) p)) [
  | inl e ↦ rw e refl
  | inr e ↦ rw e refl
]

-- An entry with a topic in the place of another one.
at_head :
    (e d : Route) (routes : List Route) (s : ℕ)
    → d.id ≡ e.id
    → has_topic (some d) ≡ true
    → ((e.id == s) ≡ true) ⊎ (has_topic (get_route (e ∷ routes) s) ≡ true)
    → has_topic (get_route (d ∷ routes) s) ≡ true
unfolding get_route
at_head e d routes s i t h = elim (Bool-cases (e.id == s)) [
  | inl l ↦ rw (i, l) t
  | inr l ↦ elim h [ inl m ↦ cc | inr m ↦ let m' = rw l at m in rw (i, l) m' ]
]

pub get_route-add_topic :
    (routes : List Route) (r s : ℕ) (p : TopicPath)
    → (is_listed routes r ≡ true) × ((r == s) ≡ true) ⊎ (has_topic (get_route routes s) ≡ true)
    → has_topic (get_route (add_topic routes r p) s) ≡ true
unfolding get_route add_topic is_listed
get_route-add_topic [] r s p (inl (l, m)) = cc
get_route-add_topic [] r s p (inr h) = cc
get_route-add_topic (e ∷ routes) r s p h = elim (Bool-cases (e.id == r)) [
  | inl k ↦ rw k (
      at_head e _ routes s (chosen_id (has_path e.topics p) e _ refl) (added_to e.id e.topics p)
        (elim h [ inl m ↦ let m' = m.1 in inl (ground arith) | inr m ↦ inr m ]))
  | inr k ↦ elim (Bool-cases (e.id == s)) [
    | inl l ↦
        rw (k, l)
          (elim h [ inl m ↦ let m' = m.1 in absurd (ground (arith, m', k, l)) | inr m ↦ rw l at m ])
    | inr l ↦
        rw (k, l)
          (get_route-add_topic routes r s p (elim h [
            | inl m ↦ let m' = m.0 in inl (ground (arith, m'), m.1)
            | inr m ↦ let m' = rw l at m in inr m'
          ]))
  ]
]

pub get_route-drop_route :
    (routes : List Route) (r s : ℕ)
    → (r == s) ≡ false
    → get_route (drop_route routes r) s ≡ get_route routes s
unfolding get_route drop_route
get_route-drop_route [] r s n = refl
get_route-drop_route (e ∷ routes) r s n = elim (Bool-cases (e.id == r)) [
  | inl k ↦ let k' : (e.id == s) ≡ false = ground arith in rw (k, k') refl
  | inr k ↦ elim (Bool-cases (e.id == s)) [
    | inl l ↦ rw (k, l) refl
    | inr l ↦ rw (k, l) (get_route-drop_route routes r s n)
  ]
]
