-- ===== src/RoutingTree/Removal.antt =====
-- removeRouteFromTopicTree of src/rtmessage/rtRoutingTree.c: what a removed route leaves.
use rbus.Base.{
  ℕ, ◌≡◌, refl, true, false, not, ◌&&◌, Option, none, some, List, [], ◌∷◌, Bool-cases, inl, inr,
  arith, ◌==◌,
}
use rbus.RoutingTree.{
  Topics, nil, topic, entries, contains, remove_entry, remove_from, is_nil, is_unused, prune,
}
use rbus.RoutingTree.Covering.{listens, Once, IsExact}

contains-remove_entry :
    (routes : List ℕ) (r s : ℕ)
    → Once routes
    → contains (remove_entry routes r) s ≡ (contains routes s && not (r == s))
contains-remove_entry [] r s o = refl
contains-remove_entry (x ∷ routes) r s o = elim (Bool-cases (x == r)) [
  | inl e ↦
      let h : x ≡ r = ground arith in
      let o' = o.0 in
      rw e (elim (Bool-cases (r == s)) [
        | inl d ↦ let h' : x ≡ s = ground arith in let o'' = rw h' at o' in rw o'' (ground arith)
        | inr d ↦ ground arith
      ])
  | inr e ↦ rw (e, contains-remove_entry routes r s o.1) (ground arith)
]

remove_entry-Once : (routes : List ℕ) (r : ℕ) → Once routes → Once (remove_entry routes r)
remove_entry-Once [] r o = tt
remove_entry-Once (x ∷ routes) r o = elim (Bool-cases (x == r)) [
  | inl e ↦ rw e o.1
  | inr e ↦ rw e (
    rw (contains-remove_entry routes r x o.1) (ground (arith, o.0)),
    remove_entry-Once routes r o.1,
  )
]

contains-remove_from :
    (list : Option (List ℕ)) (r s : ℕ)
    → Once (entries list)
    → contains (entries (remove_from list r)) s ≡ (contains (entries list) s && not (r == s))
contains-remove_from none r s o = refl
contains-remove_from (some routes) r s o = contains-remove_entry routes r s o

remove_from-Once :
    (list : Option (List ℕ)) (r : ℕ) → Once (entries list) → Once (entries (remove_from list r))
remove_from-Once none r o = tt
remove_from-Once (some routes) r o = remove_entry-Once routes r o

unused-contains :
    (list : Option (List ℕ)) (s : ℕ) → is_unused list ≡ true → contains (entries list) s ≡ false
unused-contains none s h = refl
unused-contains (some []) s h = refl
unused-contains (some (x ∷ routes)) s h = cc

is_nil-listens : (level : Topics) (s : ℕ) → is_nil level ≡ true → listens level s ≡ false
unfolding listens
is_nil-listens nil s h = refl
is_nil-listens (topic n table routes routes2 children next) s h = cc

pub listens-prune :
    (level : Topics) (r s : ℕ)
    → IsExact level
    → listens (prune level r) s ≡ (listens level s && not (r == s))
unfolding prune listens IsExact
listens-prune nil r s x = refl
listens-prune (topic n table routes routes2 children next) r s x =
    let below = listens-prune children r s x.2 in
    let behind = listens-prune next r s x.3 in
    let here = contains-remove_from routes r s x.0.0 in
    elim (Bool-cases (is_nil (prune children r) && is_unused (remove_from routes r))) [
      | inl e ↦
          let k = is_nil-listens (prune children r) s (ground arith) in
          let k' = unused-contains (remove_from routes r) s (ground arith) in
          rw e (ground (arith, below, behind, here, k, k'))
      | inr e ↦ rw e (ground (arith, below, behind, here))
    ]

pub prune-IsExact : (level : Topics) (r : ℕ) → IsExact level → IsExact (prune level r)
unfolding prune IsExact
prune-IsExact nil r x = tt
prune-IsExact (topic n table routes routes2 children next) r x =
    elim (Bool-cases (is_nil (prune children r) && is_unused (remove_from routes r))) [
      | inl e ↦ rw e (prune-IsExact next r x.3)
      | inr e ↦ rw e (
        (remove_from-Once routes r x.0.0, remove_from-Once routes2 r x.0.1),
        (λ s.
            rw (contains-remove_from routes2 r s x.0.1, x.1 s, listens-prune children r s x.2)
              refl),
        prune-IsExact children r x.2,
        prune-IsExact next r x.3,
      )
    ]
