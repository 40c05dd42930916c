-- ===== src/RoutingTree/Registration.antt =====
-- The outcomes of rtRoutingTree_AddTopicRoute.
use rbus.Base.{
  if-elim, ℕ, ◌≡◌, refl, ap, ◌∙◌, sym, Bool, true, false, not, ◌&&◌, List, [], ◌∷◌, ◌++◌,
  if◌then◌else◌,
}
use rbus.Base.Names.{Name, same_refl}
use rbus.Error.{RtError, ok, duplicate_entry, protocol_error}
use rbus.RoutingTree.{Topics, nil, topic, TopicPath, walk, resolved, entries, create_topics, assign}
use rbus.RoutingTree.Operations.{
  same_path, routes_of, is_some, RoutingTree, get_or_add, add_topic, add_tokens,
}
use rbus.RoutingTree.Lookup.{routes_at, has, routes_at-resolved}
use rbus.RoutingTree.Adding.{
  Appends, routes_at-create_topics, has-create_topics, routes_at-assign, resolved-assign,
  has-assign, same_path-resolved,
}

abbrev pub is_ok : RtError → Bool
is_ok ok = true
is_ok _ = false

same_path_refl : (p : TopicPath) → same_path p p ≡ true
unfolding same_path
same_path_refl [] = refl
same_path_refl (n ∷ p) = rw (same_refl n, same_path_refl p) refl

routes_at-empty : (level : Topics) → routes_at level [] ≡ []
unfolding routes_at
routes_at-empty nil = refl
routes_at-empty (topic n table routes routes2 children next) = refl

appends :
    (level : Topics) (t : Name) (ts : List Name) (r : ℕ) (q : TopicPath)
    → has level (t ∷ ts) ≡ true
    → Appends level (assign level (t ∷ ts) r) (resolved level (t ∷ ts)) r q
appends level t ts r [] h =
    rw
      (
        same_path-resolved level t ts h,
        routes_at-empty level,
        routes_at-empty (assign level (t ∷ ts) r),
      )
      refl
appends level t ts r (m ∷ ms) h = routes_at-assign level t ts r m ms h

assigned :
    (rt : RoutingTree) (t : Name) (ts : List Name) (r : ℕ) (q : TopicPath)
    → (create_topics rt.level (t ∷ ts)).failed ≡ false
    → Appends rt.level
        (assign (create_topics rt.level (t ∷ ts)).level (t ∷ ts) r)
        (resolved (assign (create_topics rt.level (t ∷ ts)).level (t ∷ ts) r) (t ∷ ts))
        r
        q
assigned rt t ts r q h =
    let w = create_topics rt.level (t ∷ ts) in
    let k = has-create_topics rt.level (t ∷ ts) h in
    rw (resolved-assign w.level (t ∷ ts) r (t ∷ ts), ← routes_at-create_topics rt.level (t ∷ ts) q)
      (appends w.level t ts r q k)

-- The guard of the duplicate error.
abbrev pub is_duplicate : RoutingTree → List Name → Bool → Bool → Bool
is_duplicate rt ts err_on_dup reserved =
    let w = create_topics rt.level ts in
    err_on_dup && (not w.created && (is_some (routes_of (walk w.level ts)) && not reserved))

-- What holds of the two ways to refuse an addition, and of an accepted one, holds of its outcome.
pub add_tokens-elim :
    (P : RtError × RoutingTree → Type 0) (rt : RoutingTree) (t : Name) (ts : List Name) (r : ℕ)
    (err_on_dup reserved : Bool)
    → ((e : RtError)
        → is_ok e ≡ false
        → P (
          e,
          record {
            level = (create_topics rt.level (t ∷ ts)).level;
            routes = get_or_add rt.routes r;
          },
        ))
    → ((create_topics rt.level (t ∷ ts)).failed ≡ false
        → is_duplicate rt (t ∷ ts) err_on_dup reserved ≡ false
        → P (
          ok,
          record {
            level = assign (create_topics rt.level (t ∷ ts)).level (t ∷ ts) r;
            routes =
                add_topic
                  (get_or_add rt.routes r)
                  r
                  (resolved (create_topics rt.level (t ∷ ts)).level (t ∷ ts));
          },
        ))
    → P (add_tokens rt (t ∷ ts) r err_on_dup reserved)
unfolding add_tokens
add_tokens-elim P rt t ts r err_on_dup reserved refused accepted =
    if-elim P _ _ _ (λ e. refused protocol_error refl)
      (λ e. if-elim P _ _ _ (λ d. refused duplicate_entry refl) (λ d. accepted e d))

-- An addition of a route r for at least one token changes no route of any path, if it is refused. If
-- it is accepted, the path that the tokens lead to has r behind the routes that it had, and no other
-- path changes.
pub routes_at-add_tokens :
    (rt : RoutingTree) (t : Name) (ts : List Name) (r : ℕ) (err_on_dup reserved : Bool)
    (q : TopicPath)
    → let added = add_tokens rt (t ∷ ts) r err_on_dup reserved in
      routes_at added.1.level q ≡ (
        if is_ok added.0 && same_path (resolved added.1.level (t ∷ ts)) q
        then routes_at rt.level q ++ r ∷ []
        else routes_at rt.level q)
routes_at-add_tokens rt t ts r err_on_dup reserved q =
    add_tokens-elim
      (λ added. routes_at added.1.level q ≡ (
        if is_ok added.0 && same_path (resolved added.1.level (t ∷ ts)) q
        then routes_at rt.level q ++ r ∷ []
        else routes_at rt.level q))
      rt t ts r err_on_dup reserved (λ e n. rw n (routes_at-create_topics rt.level (t ∷ ts) q))
      (λ e d. assigned rt t ts r q e)

-- After an accepted addition of a route r the walk along the same tokens finds r, behind the routes
-- that the path of the topic that it finds had before.
pub walk-add_tokens :
    (rt : RoutingTree) (t : Name) (ts : List Name) (r : ℕ) (err_on_dup reserved : Bool)
    → let added = add_tokens rt (t ∷ ts) r err_on_dup reserved in
      added.0 ≡ ok
      → entries (routes_of (walk added.1.level (t ∷ ts)))
        ≡ routes_at rt.level (resolved added.1.level (t ∷ ts)) ++ r ∷ []
walk-add_tokens rt t ts r err_on_dup reserved =
    add_tokens-elim
      (λ added.
        added.0 ≡ ok
        → entries (routes_of (walk added.1.level (t ∷ ts)))
          ≡ routes_at rt.level (resolved added.1.level (t ∷ ts)) ++ r ∷ [])
      rt t ts r err_on_dup reserved (λ e n h. let x : true ≡ false = sym (ap is_ok h) ∙ n in cc)
      (λ e d h.
        let w = create_topics rt.level (t ∷ ts) in
        let tree = assign w.level (t ∷ ts) r in
        let k = has-create_topics rt.level (t ∷ ts) e in
        let k' = has-assign w.level (t ∷ ts) r (t ∷ ts) ∙ k in
        let a = assigned rt t ts r (resolved tree (t ∷ ts)) e in
        sym (routes_at-resolved tree t ts k') ∙ (rw (same_path_refl (resolved tree (t ∷ ts))) at a))
