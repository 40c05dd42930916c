-- ===== src/RoutingTree/Reach.antt =====
-- The trees that the router daemon (src/rtmessage/rtrouted.c) reaches.
use rbus.Base.{
  ℕ, ◌≡◌, refl, Bool, true, false, not, ◌&&◌, Option, none, some, List, [], ◌∷◌, if◌then◌else◌,
  Bool-cases, inl, inr, ◌==◌, ◌>>=◌, ◌⊎◌,
}
use rbus.Base.Names.{Name, same}
use rbus.Error.{RtError, invalid_expression}
use rbus.RoutingTree.{
  Topics, nil, topic, walk, find_child, children_of, entries, contains, create_topics, match_child,
  passes,
}
use rbus.RoutingTree.Tokens.{is_valid, tokenize, ends_with_dot}
use rbus.RoutingTree.Operations.{
  RoutingTree, empty, advisory, add_tokens, add_topic_route, listening, get_topic_routes,
  remove_route, routes_of,
}
use rbus.RoutingTree.Removing.{remove_topic}
use rbus.RoutingTree.Registration.{is_duplicate}
use rbus.RoutingTree.Covering.{listens, IsExact}
use rbus.RoutingTree.Sound.{
  IsSound, walk-absent, alias-fresh, add_tokens-IsSound, remove_route-IsSound, listens-remove_route,
}

-- rtRouted_AddRoute, rtRouted_AddAlias and rtRouted_ClearRoute, as far as they change the tree.
abbrev pub add_route : RoutingTree → List ℕ → ℕ → Option (RtError × RoutingTree)
add_route rt path r = add_topic_route rt path r false

abbrev pub add_alias : RoutingTree → List ℕ → ℕ → Option (RtError × RoutingTree)
add_alias rt path r = add_topic_route rt path r true

abbrev pub clear_route : RoutingTree → ℕ → RoutingTree
clear_route rt r = remove_route rt r

abbrev on_topic : RoutingTree → ℕ → Option (List Name) → Bool
on_topic rt r none = false
on_topic rt r (some ts) = contains (entries (routes_of (walk rt.level ts))) r

-- The topic that the path leads to lists the route.
abbrev pub is_on : RoutingTree → List ℕ → ℕ → Bool
is_on rt path r = on_topic rt r (tokenize path)

-- What the daemon does with the tree: it registers routes, its own ones too, and adds aliases; it
-- clears a route; and it removes the topic of an alias. In an orderly run no topic is removed, and no
-- route is added to a topic that lists it, where duplicates are not refused: these are all additions
-- but those of an alias to another topic than the advisory's. The tokens of a path that overflow their
-- arrays end a run.
pub data Step (orderly : Bool) : RoutingTree → RoutingTree → Type 0 where
  registers :
      (rt rt' : RoutingTree) (path : List ℕ) (r : ℕ) (e : RtError)
      → (orderly ≡ true → is_on rt path r ≡ false)
      → add_route rt path r ≡ some (e, rt')
      → Step orderly rt rt'
  aliases :
      (rt rt' : RoutingTree) (path : List ℕ) (r : ℕ) (e : RtError)
      → (orderly ≡ true → same path advisory ≡ true → is_on rt path r ≡ false)
      → add_alias rt path r ≡ some (e, rt')
      → Step orderly rt rt'
  removes : (rt : RoutingTree) (r : ℕ) → Step orderly rt (clear_route rt r)
  removes_topic :
      (rt rt' : RoutingTree) (path : List ℕ)
      → orderly ≡ false
      → remove_topic rt path ≡ some rt'
      → Step orderly rt rt'

pub data Reached (orderly : Bool) : RoutingTree → Type 0 where
  empty_tree : Reached orderly empty
  followed : (rt rt' : RoutingTree) → Reached orderly rt → Step orderly rt rt' → Reached orderly rt'

-- What holds of the tree that an addition leaves, if it leaves one.
abbrev pub Leaves : (RoutingTree → Type 0) → Option (RtError × RoutingTree) → Type 0
Leaves P none = Unit
Leaves P (some (e, rt)) = P rt

pub add_topic_route-Leaves :
    (P : RoutingTree → Type 0) (rt : RoutingTree) (path : List ℕ) (r : ℕ) (err_on_dup : Bool)
    → P rt
    → ((t : Name) (ts : List Name)
        → tokenize path ≡ some (t ∷ ts)
        → P (add_tokens rt (t ∷ ts) r err_on_dup (same path advisory)).1)
    → Leaves P (add_topic_route rt path r err_on_dup)
unfolding add_topic_route add_tokens
add_topic_route-Leaves P rt path r err_on_dup x y = added (is_valid path) (tokenize path) refl
  where
    added :
        (valid : Bool) (ts : Option (List Name))
        → tokenize path ≡ ts
        → Leaves P (
            if valid
            then ts >>= (λ ts'. some (add_tokens rt ts' r err_on_dup (same path advisory)))
            else some (invalid_expression, rt))
    added false ts e = x
    added true none e = tt
    added true (some []) e = x
    added true (some (t ∷ ts)) e = y t ts e

-- A topic that does not list a route does not list it behind the creation of topics.
is_on-create_topics :
    (rt : RoutingTree) (path : List ℕ) (t : Name) (ts : List Name) (r : ℕ)
    → tokenize path ≡ some (t ∷ ts)
    → is_on rt path r ≡ false
    → (create_topics rt.level (t ∷ ts)).failed ≡ false
    → contains (entries (routes_of (walk (create_topics rt.level (t ∷ ts)).level (t ∷ ts)))) r
      ≡ false
is_on-create_topics rt path t ts r e h f = walk-absent rt.level t ts r f (rw e at h)

-- An addition where the duplicates are either refused or not there.
added-IsSound :
    (rt rt' : RoutingTree) (path : List ℕ) (r : ℕ) (err_on_dup : Bool) (e : RtError)
    → (is_on rt path r ≡ false) ⊎ ((err_on_dup ≡ true) × (same path advisory ≡ false))
    → add_topic_route rt path r err_on_dup ≡ some (e, rt')
    → IsSound rt
    → IsSound rt'
added-IsSound rt rt' path r err_on_dup e c h x =
    let p =
      add_topic_route-Leaves IsSound rt path r err_on_dup x (λ t ts q.
        add_tokens-IsSound rt t ts r err_on_dup (same path advisory) (fresh c t ts q) x) in
    rw h at p
  where
    fresh :
        (is_on rt path r ≡ false) ⊎ ((err_on_dup ≡ true) × (same path advisory ≡ false))
        → (t : Name) (ts : List Name) → tokenize path ≡ some (t ∷ ts)
        → (create_topics rt.level (t ∷ ts)).failed ≡ false
        → is_duplicate rt (t ∷ ts) err_on_dup (same path advisory) ≡ false
        → contains (entries (routes_of (walk (create_topics rt.level (t ∷ ts)).level (t ∷ ts)))) r
          ≡ false
    fresh (inl n) t ts q f d = is_on-create_topics rt path t ts r q n f
    fresh (inr (b, n)) t ts q f d = alias-fresh rt t ts r f (rw (b, n) at d)

Step-IsSound : (rt rt' : RoutingTree) → Step true rt rt' → IsSound rt → IsSound rt'
Step-IsSound rt rt' (registers _ _ path r e n h) x =
    added-IsSound rt rt' path r false e (inl (n refl)) h x
Step-IsSound rt rt' (aliases _ _ path r e n h) x =
    added-IsSound rt rt' path r true e
      (elim (Bool-cases (same path advisory)) [ inl y ↦ inl (n refl y) | inr y ↦ inr (refl, y) ]) h
      x
Step-IsSound rt rt' (removes _ r) x = remove_route-IsSound rt r x
Step-IsSound rt rt' (removes_topic _ _ path n h) x = cc

pub Reached-IsSound : (rt : RoutingTree) → Reached true rt → IsSound rt
unfolding IsExact listens
Reached-IsSound rt empty_tree = (tt, λ s h. cc)
Reached-IsSound rt (followed rt' _ h k) = Step-IsSound rt' rt k (Reached-IsSound rt' h)

find_child-IsExact : (level : Topics) (t : Name) → IsExact level → IsExact (find_child level t)
unfolding find_child IsExact
find_child-IsExact nil t x = x
find_child-IsExact (topic n table routes routes2 children next) t x =
    elim (Bool-cases (passes (match_child n t))) [
      | inl e ↦ rw e (find_child-IsExact next t x.3)
      | inr e ↦ rw e x
    ]

children_of-IsExact : (level : Topics) → IsExact level → IsExact (children_of level)
unfolding IsExact
children_of-IsExact nil x = x
children_of-IsExact (topic n table routes routes2 children next) x = x.2

pub walk-IsExact : (level : Topics) (ts : List Name) → IsExact level → IsExact (walk level ts)
unfolding walk IsExact
walk-IsExact level [] x = tt
walk-IsExact level (t ∷ []) x = find_child-IsExact level t x
walk-IsExact level (t ∷ u ∷ us) x =
    walk-IsExact (children_of (find_child level t)) (u ∷ us)
      (children_of-IsExact (find_child level t) (find_child-IsExact level t x))

pub listening-listens :
    (level : Topics) (s : ℕ)
    → IsExact level
    → contains (entries (listening true level)) s ≡ listens (children_of level) s
unfolding listening IsExact listens
listening-listens nil s x = refl
listening-listens (topic n table routes routes2 children next) s x = x.1 s

-- Take a tree that an orderly run of the daemon leads to: no topic is removed by
-- rtRoutingTree_RemoveTopic, no route is added to a topic that lists it, by a registration or as an
-- alias of the advisory's topic, and the tokens of every path that is added fit their arrays. There
-- a query for a partial path (one that ends in a dot), whose tokens fit their arrays, gives the
-- list of exactly the routes that listen to a topic below the one that the walk finds.
pub get_topic_routes-listens :
    (rt : RoutingTree) (path : List ℕ) (ts : List Name) (s : ℕ)
    → Reached true rt
    → tokenize path ≡ some ts
    → ends_with_dot path ≡ true
    → (get_topic_routes rt path ≡ some (listening true (walk rt.level ts)))
      × (contains (entries (listening true (walk rt.level ts))) s
          ≡ listens (children_of (walk rt.level ts)) s)
unfolding get_topic_routes
get_topic_routes-listens rt path ts s h e d = (
  rw (e, d) refl,
  listening-listens (walk rt.level ts) s (walk-IsExact rt.level ts (Reached-IsSound rt h).0),
)

-- Take a tree that an orderly run of the daemon leads to: no topic is removed by
-- rtRoutingTree_RemoveTopic, no route is added to a topic that lists it, by a registration or as an
-- alias of the advisory's topic, and the tokens of every path that is added fit their arrays. There
-- the removal of a route takes it from every topic that it listens to, and every other route
-- listens as before; the tree that is left is again such a tree.
pub remove_route-listens :
    (rt : RoutingTree) (r s : ℕ)
    → Reached true rt
    → (listens (clear_route rt r).level s ≡ (listens rt.level s && not (r == s)))
      × Reached true (clear_route rt r)
remove_route-listens rt r s h = (
  listens-remove_route rt r s (Reached-IsSound rt h),
  followed rt (clear_route rt r) h (removes rt r),
)
