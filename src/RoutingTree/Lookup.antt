-- ===== src/RoutingTree/Lookup.antt =====
-- The routes of a tree as a map from paths of names, and what the walk along the tokens finds.
use rbus.Base.{
  ℕ, ◌≡◌, refl, Option, Bool, true, false, not, List, [], ◌∷◌, if◌then◌else◌, Bool-cases, inl, inr,
}
use rbus.Base.Names.{Name, same, eq_of_same, same_refl}
use rbus.RoutingTree.{
  Topics, nil, topic, TopicPath, match_child, passes, find_child, walk, resolved, entries, is_nil,
}
use rbus.RoutingTree.Operations.{routes_of}

abbrev pub here_or_below : TopicPath → List ℕ → List ℕ → List ℕ
here_or_below [] here below = here
here_or_below (m ∷ ms) here below = below

-- The routes at a path, by the exact names of its topics; none where a topic is missing.
unfoldable pub routes_at : Topics → TopicPath → List ℕ
routes_at nil q = []
routes_at (topic n table routes routes2 children next) [] = []
routes_at (topic n table routes routes2 children next) (m ∷ ms) =
    let below = routes_at children ms in
    let behind = routes_at next (m ∷ ms) in
    if same n m then here_or_below ms (entries routes) below else behind

-- The walk along the tokens finds a topic.
unfoldable pub has : Topics → List Name → Bool
has level [] = true
has nil (t ∷ ts) = false
has (topic n table routes routes2 children next) (t ∷ ts) =
    let below = has children ts in
    let behind = has next (t ∷ ts) in if passes (match_child n t) then behind else below

-- A name that the search passes is not the name of the topic that it finds.
pub passes-same :
    (m n t : Name)
    → passes (match_child m t) ≡ true
    → passes (match_child n t) ≡ false
    → same m n ≡ false
passes-same m n t h k = elim (Bool-cases (same m n)) [
  | inl e ↦ let e' = eq_of_same m n e in cc
  | inr e ↦ e
]

abbrev pub starts_with : Name → TopicPath → Bool
starts_with n [] = false
starts_with n (m ∷ ms) = same n m

pub resolved-starts_with :
    (n t : Name) (level : Topics) (ts : List Name)
    → passes (match_child n t) ≡ true
    → starts_with n (resolved level (t ∷ ts)) ≡ false
unfolding resolved
resolved-starts_with n t nil ts h = refl
resolved-starts_with n t (topic m table routes routes2 children next) ts h =
    elim (Bool-cases (passes (match_child m t))) [
      | inl e ↦ rw e (resolved-starts_with n t next ts h)
      | inr e ↦ rw e (passes-same n m t h e)
    ]

pub routes_at-behind :
    (n : Name) (table : Bool) (routes routes2 : Option (List ℕ)) (children next : Topics)
    (q : TopicPath)
    → starts_with n q ≡ false
    → routes_at (topic n table routes routes2 children next) q ≡ routes_at next q
unfolding routes_at
routes_at-behind n table routes routes2 children nil [] h = refl
routes_at-behind n table routes routes2 children (topic _ _ _ _ _ _) [] h = refl
routes_at-behind n table routes routes2 children next (m ∷ ms) h = rw h refl

pub here_or_below-resolved :
    (level : Topics) (u : Name) (us : List Name) (here below : List ℕ)
    → has level (u ∷ us) ≡ true
    → here_or_below (resolved level (u ∷ us)) here below ≡ below
unfolding resolved has
here_or_below-resolved nil u us here below h = cc
here_or_below-resolved (topic n table routes routes2 children next) u us here below h =
    elim (Bool-cases (passes (match_child n u))) [
      | inl e ↦ let h' = rw e at h in rw e (here_or_below-resolved next u us here below h')
      | inr e ↦ rw e refl
    ]

pub has-is_nil :
    (level : Topics) (t : Name) (ts : List Name)
    → has level (t ∷ ts) ≡ not (is_nil (walk level (t ∷ ts)))
unfolding has walk find_child
has-is_nil nil t [] = refl
has-is_nil nil t (u ∷ us) = has-is_nil nil u us
has-is_nil (topic n table routes routes2 children next) t [] =
    elim (Bool-cases (passes (match_child n t))) [
      | inl e ↦ rw e (has-is_nil next t [])
      | inr e ↦ rw e refl
    ]
has-is_nil (topic n table routes routes2 children next) t (u ∷ us) =
    elim (Bool-cases (passes (match_child n t))) [
      | inl e ↦ rw e (has-is_nil next t (u ∷ us))
      | inr e ↦ rw e (has-is_nil children u us)
    ]

-- What the walk finds is what the map of paths has at the path that the tokens resolve to.
pub routes_at-resolved :
    (level : Topics) (t : Name) (ts : List Name)
    → has level (t ∷ ts) ≡ true
    → routes_at level (resolved level (t ∷ ts)) ≡ entries (routes_of (walk level (t ∷ ts)))
unfolding resolved has routes_at walk find_child
routes_at-resolved nil t ts h = cc
routes_at-resolved (topic n table routes routes2 children next) t [] h =
    elim (Bool-cases (passes (match_child n t))) [
      | inl e ↦
          let h' = rw e at h in
          rw
            (
              e,
              routes_at-behind n table routes routes2 children next (resolved next (t ∷ []))
                  (resolved-starts_with n t next [] e),
            )
            (routes_at-resolved next t [] h')
      | inr e ↦ rw (e, same_refl n) refl
    ]
routes_at-resolved (topic n table routes routes2 children next) t (u ∷ us) h =
    elim (Bool-cases (passes (match_child n t))) [
      | inl e ↦
          let h' = rw e at h in
          rw
            (
              e,
              routes_at-behind n table routes routes2 children next (resolved next (t ∷ u ∷ us))
                  (resolved-starts_with n t next (u ∷ us) e),
            )
            (routes_at-resolved next t (u ∷ us) h')
      | inr e ↦
          let h' = rw e at h in
          rw
            (
              e,
              same_refl n,
              here_or_below-resolved children u us (entries routes)
                  (routes_at children (resolved children (u ∷ us))) h',
            )
            (routes_at-resolved children u us h')
    ]
