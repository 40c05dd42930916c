-- ===== src/RoutingTree/Removing.antt =====
-- rtRoutingTree_RemoveTopic and rtRoutingTree_ResolvePartialPath of src/rtmessage/rtRoutingTree.c.
-- `none` is a fault: a topic lists a route that has been freed, or a route has no topic.
use rbus.Base.{ℕ, Option, none, some, List, [], ◌∷◌, ◌++◌, ◌==◌, if◌then◌else◌, ◌>>=◌}
use rbus.Base.Names.{Name}
use rbus.RoutingTree.{
  Topics, nil, topic, TopicPath, Match, exact, other, match_child, passes, walk, entries,
}
use rbus.RoutingTree.Tokens.{tokenize}
use rbus.RoutingTree.Operations.{Route, RoutingTree, same_path, get_route}

-- rtList_RemoveItemByCompare on the topics of a route.
unfoldable pub drop_topic : List TopicPath → TopicPath → List TopicPath
drop_topic [] p = []
drop_topic (q ∷ paths) p =
    let rest = drop_topic paths p in if same_path q p then paths else q ∷ rest

abbrev keep_route : Route → List TopicPath → List Route → List Route
keep_route e [] routes = routes
keep_route e (q ∷ paths) routes = record e { topics = q ∷ paths } ∷ routes

-- A route that is left without topics is freed.
unfoldable pub detach_route : List Route → ℕ → TopicPath → Option (List Route)
detach_route [] r p = none
detach_route (e ∷ routes) r p =
    let rest = detach_route routes r p in
    if e.id == r
    then some (keep_route e (drop_topic e.topics p) routes)
    else (do routes' ← rest; some (e ∷ routes'))

-- The loop over the routeList of a topic.
unfoldable pub detach_routes : List Route → List ℕ → TopicPath → Option (List Route)
detach_routes routes [] p = some routes
detach_routes routes (r ∷ rs) p = do routes' ← detach_route routes r p; detach_routes routes' rs p

-- removeTopicFromRoutes, for a list of topics below the path.
unfoldable pub detach_topics : List Route → Topics → TopicPath → Option (List Route)
detach_topics routes nil p = some routes
detach_topics routes (topic n table routes' routes2 children next) p = do
  a ← detach_routes routes (entries routes') (p ++ n ∷ [])
  b ← detach_topics a children (p ++ n ∷ [])
  detach_topics b next p

-- getChildByName with `remove`, on an exact match only.
abbrev after_last :
    Match
    → Option (Topics × List Route)
    → Option (Topics × List Route)
    → Option (Topics × List Route)
    → Option (Topics × List Route)
after_last exact removed kept rest = removed
after_last other removed kept rest = rest
after_last _ removed kept rest = kept

-- The walk of rtRoutingTree_RemoveTopic on the topics below a path.
unfoldable pub cut : Topics → List Name → TopicPath → List Route → Option (Topics × List Route)
cut level [] p routes = some (level, routes)
cut nil (t ∷ ts) p routes = some (nil, routes)
cut (topic n table rs rs2 children next) (t ∷ []) p routes =
    let rest = do
      (next', routes') ← cut next (t ∷ []) p routes
      some (topic n table rs rs2 children next', routes')
    in let removed = do
      routes' ← detach_topics routes (topic n table rs rs2 children nil) p
      some (next, routes')
      in after_last (match_child n t) removed (some (topic n table rs rs2 children next, routes))
        rest
cut (topic n table rs rs2 children next) (t ∷ u ∷ us) p routes =
    let rest = do
      (next', routes') ← cut next (t ∷ u ∷ us) p routes
      some (topic n table rs rs2 children next', routes')
    in let below = do
      (children', routes') ← cut children (u ∷ us) (p ++ n ∷ []) routes
      some (topic n table rs rs2 children' next, routes')
      in if passes (match_child n t) then rest else below

-- rtRoutingTree_RemoveTopic
unfoldable pub remove_topic : RoutingTree → List ℕ → Option RoutingTree
remove_topic rt path = do
  ts ← tokenize path
  (level', routes') ← cut rt.level ts [] rt.routes
  some (record { level = level'; routes = routes' })

abbrev pub front : List TopicPath → Option TopicPath
front [] = none
front (p ∷ paths) = some p

abbrev pub first_topic : Option Route → Option TopicPath
first_topic none = none
first_topic (some e) = front e.topics

-- The first topic of each route.
unfoldable pub first_topics : List Route → List ℕ → Option (List TopicPath)
first_topics routes [] = some []
first_topics routes (r ∷ rs) = do
  p ← first_topic (get_route routes r)
  paths ← first_topics routes rs
  some (p ∷ paths)

abbrev pub routes2_of : Topics → List ℕ
routes2_of nil = []
routes2_of (topic n table routes routes2 children next) = entries routes2

-- rtRoutingTree_ResolvePartialPath: what it adds to `topics`.
unfoldable pub resolve_partial_path : RoutingTree → List ℕ → Option (List TopicPath)
resolve_partial_path rt path = do
  ts ← tokenize path
  first_topics rt.routes (routes2_of (walk rt.level ts))
