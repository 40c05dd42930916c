-- ===== src/RoutingTree/Covering.antt =====
-- routeList2 of a topic and the routes below it.
use rbus.Base.{
  ℕ, ◌≡◌, refl, ◌∙◌, sym, Bool, true, false, ◌||◌, Option, List, [], ◌∷◌, ◌++◌, Bool-cases, inl,
  inr, arith, ◌==◌,
}
use rbus.Base.Names.{Name}
use rbus.RoutingTree.{
  Topics, nil, topic, match_child, passes, walk, find_child, entries, contains, add_once,
  create_topics, assign,
}
use rbus.RoutingTree.Operations.{routes_of}
use rbus.RoutingTree.Lookup.{has}
use rbus.RoutingTree.Adding.{after_match-elim}

-- The route listens to a topic of the level or below it.
unfoldable pub listens : Topics → ℕ → Bool
listens nil s = false
listens (topic n table routes routes2 children next) s =
    contains (entries routes) s || (listens children s || listens next s)

-- No route is there twice.
abbrev pub Once : List ℕ → Type 0
Once [] = Unit
Once (s ∷ routes) = (contains routes s ≡ false) × Once routes

-- The lists of a topic hold no route twice, and its routeList2 holds the routes that listen below.
unfoldable pub IsExact : Topics → Type 0
IsExact nil = Unit
IsExact (topic n table routes routes2 children next) =
    (Once (entries routes) × Once (entries routes2))
    × ((s : ℕ) → contains (entries routes2) s ≡ listens children s)
    × IsExact children
    × IsExact next

pub contains-append :
    (routes : List ℕ) (r s : ℕ) → contains (routes ++ r ∷ []) s ≡ (contains routes s || r == s)
contains-append [] r s = ground arith
contains-append (x ∷ routes) r s = rw (contains-append routes r s) (ground arith)

Once-append :
    (routes : List ℕ) (r : ℕ) → contains routes r ≡ false → Once routes → Once (routes ++ r ∷ [])
Once-append [] r h o = (refl, tt)
Once-append (x ∷ routes) r h o =
    (rw (contains-append routes r x) (ground (arith, o.0)), Once-append routes r (ground arith) o.1)

contains_refl :
    (routes : List ℕ) (r s : ℕ)
    → contains routes r ≡ true
    → (r == s) ≡ true
    → contains routes s ≡ true
contains_refl routes r s h e = let e' : r ≡ s = ground arith in rw e' at h

pub contains-add_once :
    (list : Option (List ℕ)) (r s : ℕ)
    → contains (entries (add_once list r)) s ≡ (contains (entries list) s || r == s)
contains-add_once list r s = elim (Bool-cases (contains (entries list) r)) [
  | inl e ↦ rw e (ground (arith, contains_refl (entries list) r s e))
  | inr e ↦ rw e (contains-append (entries list) r s)
]

Once-add_once :
    (list : Option (List ℕ)) (r : ℕ) → Once (entries list) → Once (entries (add_once list r))
Once-add_once list r o = elim (Bool-cases (contains (entries list) r)) [
  | inl e ↦ rw e o
  | inr e ↦ rw e (Once-append (entries list) r e o)
]

pub listens-create_topics :
    (level : Topics) (ts : List Name) (s : ℕ)
    → listens (create_topics level ts).level s ≡ listens level s
unfolding create_topics listens
listens-create_topics nil [] s = refl
listens-create_topics (topic n table routes routes2 children next) [] s = refl
listens-create_topics nil (t ∷ ts) s = rw (listens-create_topics nil ts s) refl
listens-create_topics (topic n table routes routes2 children next) (t ∷ ts) s =
    after_match-elim
      (λ c. listens c.level s ≡ listens (topic n table routes routes2 children next) s)
      (match_child n t) _ _ _ refl (λ e. rw (listens-create_topics children ts s) refl)
      (λ e. rw (listens-create_topics next (t ∷ ts) s) refl)

pub create_topics-IsExact :
    (level : Topics) (ts : List Name) → IsExact level → IsExact (create_topics level ts).level
unfolding create_topics IsExact listens
create_topics-IsExact nil [] h = tt
create_topics-IsExact (topic n table routes routes2 children next) [] h = h
create_topics-IsExact nil (t ∷ ts) h =
    ((tt, tt), (λ s. sym (listens-create_topics nil ts s)), create_topics-IsExact nil ts tt, tt)
create_topics-IsExact (topic n table routes routes2 children next) (t ∷ ts) h =
    after_match-elim (λ c. IsExact c.level) (match_child n t) _ _ _ h
      (λ e. (
        h.0,
        (λ s. h.1 s ∙ sym (listens-create_topics children ts s)),
        create_topics-IsExact children ts h.2,
        h.3,
      ))
      (λ e. (h.0, h.1, h.2, create_topics-IsExact next (t ∷ ts) h.3))

pub listens-assign :
    (level : Topics) (t : Name) (ts : List Name) (r s : ℕ)
    → has level (t ∷ ts) ≡ true
    → listens (assign level (t ∷ ts) r) s ≡ (listens level s || r == s)
unfolding has assign listens
listens-assign nil t ts r s h = cc
listens-assign (topic n table routes routes2 children next) t [] r s h =
    elim (Bool-cases (passes (match_child n t))) [
      | inl e ↦ let h' = rw e at h in rw (e, listens-assign next t [] r s h') (ground arith)
      | inr e ↦ rw (e, contains-append (entries routes) r s) (ground arith)
    ]
listens-assign (topic n table routes routes2 children next) t (u ∷ us) r s h =
    elim (Bool-cases (passes (match_child n t))) [
      | inl e ↦ let h' = rw e at h in rw (e, listens-assign next t (u ∷ us) r s h') (ground arith)
      | inr e ↦ let h' = rw e at h in rw (e, listens-assign children u us r s h') (ground arith)
    ]

-- The route does not listen to the topic yet that the walk finds.
pub assign-IsExact :
    (level : Topics) (t : Name) (ts : List Name) (r : ℕ)
    → has level (t ∷ ts) ≡ true
    → contains (entries (routes_of (walk level (t ∷ ts)))) r ≡ false
    → IsExact level
    → IsExact (assign level (t ∷ ts) r)
unfolding has assign walk find_child IsExact
assign-IsExact nil t ts r h k x = tt
assign-IsExact (topic n table routes routes2 children next) t [] r h k x =
    elim (Bool-cases (passes (match_child n t))) [
      | inl e ↦
          let h' = rw e at h in
          let k' = rw e at k in rw e (x.0, x.1, x.2, assign-IsExact next t [] r h' k' x.3)
      | inr e ↦
          let k' = rw e at k in
          rw e ((Once-append (entries routes) r k' x.0.0, x.0.1), x.1, x.2, x.3)
    ]
assign-IsExact (topic n table routes routes2 children next) t (u ∷ us) r h k x =
    elim (Bool-cases (passes (match_child n t))) [
      | inl e ↦
          let h' = rw e at h in
          let k' = rw e at k in rw e (x.0, x.1, x.2, assign-IsExact next t (u ∷ us) r h' k' x.3)
      | inr e ↦
          let h' = rw e at h in
          let k' = rw e at k in
          rw e (
            (x.0.0, Once-add_once routes2 r x.0.1),
            (λ s.
                rw (contains-add_once routes2 r s, x.1 s, listens-assign children u us r s h')
                  refl),
            assign-IsExact children u us r h' k' x.2,
            x.3,
          )
    ]
