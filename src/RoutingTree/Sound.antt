-- ===== src/RoutingTree/Sound.antt =====
-- What every operation of the daemon on the tree keeps.
use rbus.Base.{
  ℕ, ◌≡◌, refl, ◌∙◌, sym, Bool, true, false, not, ◌&&◌, Option, none, some, List, [], ◌∷◌,
  Bool-cases, inl, inr, arith, ◌==◌,
}
use rbus.Base.Names.{Name}
use rbus.RoutingTree.{
  Topics, nil, topic, walk, find_child, entries, contains, prune, create_topics, resolved,
  match_child,
}
use rbus.RoutingTree.Operations.{
  Route, RoutingTree, routes_of, is_some, get_route, get_or_add, add_tokens, drop_route,
  remove_route,
}
use rbus.RoutingTree.Adding.{has-create_topics, after_match-elim, match_child_refl}
use rbus.RoutingTree.Registration.{add_tokens-elim, is_duplicate}
use rbus.RoutingTree.Covering.{
  listens, IsExact, listens-create_topics, create_topics-IsExact, listens-assign, assign-IsExact,
}
use rbus.RoutingTree.Removal.{listens-prune, prune-IsExact}
use rbus.RoutingTree.Entries.{
  is_listed, is_some_route, get_route-is_listed, is_listed-get_or_add, is_listed-add_topic,
  is_listed-drop_route,
}

-- Each topic's lists are exact, and every route that listens has an entry.
abbrev pub IsSound : RoutingTree → Type 0
IsSound rt = IsExact rt.level × ((s : ℕ) → listens rt.level s ≡ true → is_listed rt.routes s ≡ true)

-- The topic that the last step creates has no routes.
walk-created :
    (level : Topics) (t : Name) (ts : List Name)
    → (create_topics level (t ∷ ts)).failed ≡ false
    → (create_topics level (t ∷ ts)).created ≡ true
    → routes_of (walk (create_topics level (t ∷ ts)).level (t ∷ ts)) ≡ none
unfolding create_topics walk find_child
walk-created nil t [] f h = rw (match_child_refl t) refl
walk-created nil t (u ∷ us) f h = rw (match_child_refl t) (walk-created nil u us f refl)
walk-created (topic n table routes routes2 children next) t [] f h =
    after_match-elim
      (λ c. c.failed ≡ false → c.created ≡ true → routes_of (walk c.level (t ∷ [])) ≡ none)
      (match_child n t) _ _ _ (λ f h. cc) (λ e f h. cc) (λ e f h. rw e (walk-created next t [] f h))
      f h
walk-created (topic n table routes routes2 children next) t (u ∷ us) f h =
    after_match-elim
      (λ c. c.failed ≡ false → c.created ≡ true → routes_of (walk c.level (t ∷ u ∷ us)) ≡ none)
      (match_child n t) _ _ _ (λ f h. cc) (λ e f h. rw e (walk-created children u us f h))
      (λ e f h. rw e (walk-created next t (u ∷ us) f h)) f h

-- A route that the walk does not find at its end is not there behind the creation of topics.
pub walk-absent :
    (level : Topics) (t : Name) (ts : List Name) (r : ℕ)
    → (create_topics level (t ∷ ts)).failed ≡ false
    → contains (entries (routes_of (walk level (t ∷ ts)))) r ≡ false
    → contains (entries (routes_of (walk (create_topics level (t ∷ ts)).level (t ∷ ts)))) r ≡ false
unfolding create_topics walk find_child
walk-absent nil t [] r f h = rw (match_child_refl t) refl
walk-absent nil t (u ∷ us) r f h = rw (match_child_refl t) (walk-absent nil u us r f h)
walk-absent (topic n table routes routes2 children next) t [] r f h =
    after_match-elim
      (λ c. c.failed ≡ false → contains (entries (routes_of (walk c.level (t ∷ [])))) r ≡ false)
      (match_child n t) _ _ _ (λ f. cc) (λ e f. let h' = rw e at h in rw e h')
      (λ e f. let h' = rw e at h in rw e (walk-absent next t [] r f h')) f
walk-absent (topic n table routes routes2 children next) t (u ∷ us) r f h =
    after_match-elim
      (λ c. c.failed ≡ false → contains (entries (routes_of (walk c.level (t ∷ u ∷ us)))) r ≡ false)
      (match_child n t) _ _ _ (λ f. cc)
      (λ e f. let h' = rw e at h in rw e (walk-absent children u us r f h'))
      (λ e f. let h' = rw e at h in rw e (walk-absent next t (u ∷ us) r f h')) f

none-entries :
    (list : Option (List ℕ)) (s : ℕ) → is_some list ≡ false → contains (entries list) s ≡ false
none-entries none s h = refl
none-entries (some routes) s h = cc

-- The topic of an alias that is not a duplicate has no routes.
pub alias-fresh :
    (rt : RoutingTree) (t : Name) (ts : List Name) (r : ℕ)
    → (create_topics rt.level (t ∷ ts)).failed ≡ false
    → is_duplicate rt (t ∷ ts) true false ≡ false
    → contains (entries (routes_of (walk (create_topics rt.level (t ∷ ts)).level (t ∷ ts)))) r
      ≡ false
alias-fresh rt t ts r f d = elim (Bool-cases (create_topics rt.level (t ∷ ts)).created) [
  | inl e ↦ rw (walk-created rt.level t ts f e) refl
  | inr e ↦
      none-entries (routes_of (walk (create_topics rt.level (t ∷ ts)).level (t ∷ ts))) r
        (ground (arith, d))
]

pub add_tokens-IsSound :
    (rt : RoutingTree) (t : Name) (ts : List Name) (r : ℕ) (err_on_dup reserved : Bool)
    → ((create_topics rt.level (t ∷ ts)).failed ≡ false
        → is_duplicate rt (t ∷ ts) err_on_dup reserved ≡ false
        → contains (entries (routes_of (walk (create_topics rt.level (t ∷ ts)).level (t ∷ ts)))) r
          ≡ false)
    → IsSound rt
    → IsSound (add_tokens rt (t ∷ ts) r err_on_dup reserved).1
add_tokens-IsSound rt t ts r err_on_dup reserved fresh x =
    let w = create_topics rt.level (t ∷ ts) in
    let exact = create_topics-IsExact rt.level (t ∷ ts) x.0 in
    let same = listens-create_topics rt.level (t ∷ ts) in
    add_tokens-elim (λ added. IsSound added.1) rt t ts r err_on_dup reserved
      (λ e n. (
        exact,
        (λ s h.
            let h' = x.1 s (sym (same s) ∙ h) in
            rw (is_listed-get_or_add rt.routes r s) (ground (arith, h'))),
      ))
      (λ f d.
        let k = has-create_topics rt.level (t ∷ ts) f in
        (
          assign-IsExact w.level t ts r k (fresh f d) exact,
          (λ s h.
              let l = listens-assign w.level t ts r s k in
              rw
                (
                  is_listed-add_topic (get_or_add rt.routes r) r s (resolved w.level (t ∷ ts)),
                  is_listed-get_or_add rt.routes r s,
                )
                (elim (Bool-cases (listens rt.level s)) [
                  | inl y ↦ let h' = x.1 s y in ground (arith, h')
                  | inr y ↦ let y' = same s ∙ y in ground (arith, l, h, y')
                ])),
        ))

pub remove_route-elim :
    (P : RoutingTree → Type 0) (rt : RoutingTree) (r : ℕ)
    → (((s : ℕ) → (r == s) ≡ true → is_listed rt.routes s ≡ false) → P rt)
    → P (record { level = prune rt.level r; routes = drop_route rt.routes r })
    → P (remove_route rt r)
unfolding remove_route
remove_route-elim P rt r h k = go (get_route rt.routes r) (get_route-is_listed rt.routes r)
  where
    go :
        (o : Option Route)
        → ((s : ℕ) → (r == s) ≡ true → is_listed rt.routes s ≡ is_some_route o)
        → P (elim o [
          | none ↦ rt
          | some e ↦ record { level = prune rt.level r; routes = drop_route rt.routes r }
        ])
    go none l = h l
    go (some e) l = k

pub listens-remove_route :
    (rt : RoutingTree) (r s : ℕ)
    → IsSound rt
    → listens (remove_route rt r).level s ≡ (listens rt.level s && not (r == s))
listens-remove_route rt r s x =
    remove_route-elim (λ rt'. listens rt'.level s ≡ (listens rt.level s && not (r == s))) rt r
      (λ l. elim (Bool-cases (listens rt.level s)) [
        | inl y ↦ let h = x.1 s y in let l' = l s in ground (arith, h, l')
        | inr y ↦ ground arith
      ])
      (listens-prune rt.level r s x.0)

pub remove_route-IsSound : (rt : RoutingTree) (r : ℕ) → IsSound rt → IsSound (remove_route rt r)
remove_route-IsSound rt r x =
    remove_route-elim IsSound rt r (λ l. x)
      (
        prune-IsExact rt.level r x.0,
        (λ s h.
            let p = listens-prune rt.level r s x.0 in
            is_listed-drop_route rt.routes r s (ground (arith, p, h))
              (x.1 s (ground (arith, p, h)))),
      )
