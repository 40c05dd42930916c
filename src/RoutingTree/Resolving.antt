-- ===== src/RoutingTree/Resolving.antt =====
-- rtRoutingTree_ResolvePartialPath in the trees that the router daemon reaches.
use rbus.Base.{
  ℕ, ◌≡◌, refl, sym, ◌∙◌, Bool, true, false, Option, none, some, List, [], ◌∷◌, length, Bool-cases,
  inl, inr, arith, ◌==◌,
}
use rbus.Base.Names.{Name, same}
use rbus.RoutingTree.{
  Topics, nil, topic, TopicPath, walk, find_child, children_of, match_child, passes, contains,
  create_topics, resolved,
}
use rbus.RoutingTree.Tokens.{tokenize}
use rbus.RoutingTree.Operations.{
  Route, RoutingTree, get_route, get_or_add, add_tokens, remove_route, advisory,
}
use rbus.RoutingTree.Removing.{first_topic, first_topics, front, routes2_of, resolve_partial_path}
use rbus.RoutingTree.Covering.{listens, IsExact, listens-create_topics, listens-assign}
use rbus.RoutingTree.Adding.{has-create_topics}
use rbus.RoutingTree.Registration.{add_tokens-elim}
use rbus.RoutingTree.Removal.{listens-prune}
use rbus.RoutingTree.Reach.{
  Step, registers, aliases, removes, removes_topic, Reached, empty_tree, followed,
  add_topic_route-Leaves, Reached-IsSound, walk-IsExact,
}
use rbus.RoutingTree.Sound.{remove_route-elim}
use rbus.RoutingTree.Entries.{
  is_listed-get_or_add, holds_topic, has_topic, get_route-get_or_add, get_route-add_topic,
  get_route-drop_route,
}

-- Every route that listens has a topic.
abbrev HasTopics : RoutingTree → Type 0
HasTopics rt = (s : ℕ) → listens rt.level s ≡ true → has_topic (get_route rt.routes s) ≡ true

add_tokens-HasTopics :
    (rt : RoutingTree) (t : Name) (ts : List Name) (r : ℕ) (err_on_dup reserved : Bool)
    → HasTopics rt
    → HasTopics (add_tokens rt (t ∷ ts) r err_on_dup reserved).1
add_tokens-HasTopics rt t ts r err_on_dup reserved x =
    let w = create_topics rt.level (t ∷ ts) in
    let same = listens-create_topics rt.level (t ∷ ts) in
    add_tokens-elim (λ added. HasTopics added.1) rt t ts r err_on_dup reserved
      (λ e n s h. get_route-get_or_add rt.routes r s (x s (sym (same s) ∙ h)))
      (λ f d s h.
        let l = listens-assign w.level t ts r s (has-create_topics rt.level (t ∷ ts) f) in
        get_route-add_topic (get_or_add rt.routes r) r s (resolved w.level (t ∷ ts))
          (elim (Bool-cases (r == s)) [
            | inl e ↦ inl (rw (is_listed-get_or_add rt.routes r r) (ground arith), e)
            | inr e ↦
                let y : listens w.level s ≡ true = ground (arith, l, h, e) in
                inr (get_route-get_or_add rt.routes r s (x s (sym (same s) ∙ y)))
          ]))

remove_route-HasTopics :
    (rt : RoutingTree) (r : ℕ) → IsExact rt.level → HasTopics rt → HasTopics (remove_route rt r)
remove_route-HasTopics rt r y x =
    remove_route-elim HasTopics rt r (λ l. x)
      (λ s h.
        let p = listens-prune rt.level r s y in
        rw (get_route-drop_route rt.routes r s (ground (arith, p, h))) (x s (ground (arith, p, h))))

Step-HasTopics :
    (rt rt' : RoutingTree) → Step true rt rt' → IsExact rt.level → HasTopics rt → HasTopics rt'
Step-HasTopics rt rt' (registers _ _ path r e n h) y x =
    let p =
      add_topic_route-Leaves HasTopics rt path r false x
        (λ t ts q. add_tokens-HasTopics rt t ts r false (same path advisory) x) in
    rw h at p
Step-HasTopics rt rt' (aliases _ _ path r e n h) y x =
    let p =
      add_topic_route-Leaves HasTopics rt path r true x
        (λ t ts q. add_tokens-HasTopics rt t ts r true (same path advisory) x) in
    rw h at p
Step-HasTopics rt rt' (removes _ r) y x = remove_route-HasTopics rt r y x
Step-HasTopics rt rt' (removes_topic _ _ path n h) y x = cc

Reached-HasTopics : (rt : RoutingTree) → Reached true rt → HasTopics rt
unfolding listens
Reached-HasTopics rt empty_tree = λ s h. cc
Reached-HasTopics rt (followed rt₀ _ x k) =
    Step-HasTopics rt₀ rt k (Reached-IsSound rt₀ x).0 (Reached-HasTopics rt₀ x)

find_child-listens :
    (level : Topics) (t : Name) (s : ℕ)
    → listens (find_child level t) s ≡ true
    → listens level s ≡ true
unfolding find_child listens
find_child-listens nil t s h = h
find_child-listens (topic n table routes routes2 children next) t s h =
    elim (Bool-cases (passes (match_child n t))) [
      | inl e ↦ let h' = rw e at h in let y = find_child-listens next t s h' in ground (arith, y)
      | inr e ↦ rw e at h
    ]

children_of-listens :
    (level : Topics) (s : ℕ) → listens (children_of level) s ≡ true → listens level s ≡ true
unfolding listens
children_of-listens nil s h = h
children_of-listens (topic n table routes routes2 children next) s h = ground (arith, h)

-- A route below the topic that a walk finds listens in the tree.
walk-below_listens :
    (level : Topics) (ts : List Name) (s : ℕ)
    → listens (children_of (walk level ts)) s ≡ true
    → listens level s ≡ true
unfolding walk listens
walk-below_listens level [] s h = cc
walk-below_listens level (t ∷ []) s h =
    find_child-listens level t s (children_of-listens (find_child level t) s h)
walk-below_listens level (t ∷ u ∷ us) s h = find_child-listens level t s (
    children_of-listens (find_child level t) s
      (walk-below_listens (children_of (find_child level t)) (u ∷ us) s h))

routes2_of-listens :
    (level : Topics) (s : ℕ)
    → IsExact level
    → contains (routes2_of level) s ≡ listens (children_of level) s
unfolding IsExact listens
routes2_of-listens nil s x = refl
routes2_of-listens (topic n table routes routes2 children next) s x = x.1 s

first_topics_total :
    (routes : List Route) (list : List ℕ)
    → ((s : ℕ) → contains list s ≡ true → has_topic (get_route routes s) ≡ true)
    → (paths : List TopicPath) × (first_topics routes list ≡ some paths)
      × (length paths ≡ length list)
unfolding first_topics
first_topics_total routes [] h = ([], refl, refl)
first_topics_total routes (s ∷ list) h =
    let (paths, e, l) = first_topics_total routes list (λ s' h'. h s' (ground (arith, h'))) in
    let (p, e') = found (get_route routes s) (h s (ground arith)) in
    (p ∷ paths, rw (e', e) refl, rw l refl)
  where
    front_found :
        (paths : List TopicPath)
        → holds_topic paths ≡ true
        → (p : TopicPath) × (front paths ≡ some p)
    front_found [] h = cc
    front_found (p ∷ paths) h = (p, refl)

    found : (o : Option Route) → has_topic o ≡ true → (p : TopicPath) × (first_topic o ≡ some p)
    found none h = cc
    found (some e) h = front_found e.topics h

-- Take a tree that an orderly run of the daemon leads to: no topic is removed by
-- rtRoutingTree_RemoveTopic, no route is added to a topic that lists it, by a registration or as an
-- alias of the advisory's topic, and the tokens of every path that is added fit their arrays. There
-- resolving a path whose tokens fit their arrays meets no route that has been freed and none
-- without a topic: it gives one topic for each route in the routeList2 of the topic that the walk
-- finds.
pub resolve_partial_path_total :
    (rt : RoutingTree) (path : List ℕ) (ts : List Name)
    → Reached true rt
    → tokenize path ≡ some ts
    → (paths : List TopicPath) × (resolve_partial_path rt path ≡ some paths)
      × (length paths ≡ length (routes2_of (walk rt.level ts)))
unfolding resolve_partial_path
resolve_partial_path_total rt path ts x e = rw e (
    first_topics_total rt.routes (routes2_of (walk rt.level ts)) (λ s h. Reached-HasTopics rt x s (
      walk-below_listens rt.level ts s (
        sym (
          routes2_of-listens (walk rt.level ts) s
            (walk-IsExact rt.level ts (Reached-IsSound rt x).0))
        ∙ h))))
