-- ===== src/RoutingTree/Operations.antt =====
-- The functions of src/rtmessage/rtRoutingTree.h. `none` is a fault: the tokens overflow their
-- arrays, or a route is used that has been freed.
use rbus.Base.{
  ℕ, Bool, true, false, not, ◌&&◌, Option, none, some, List, [], ◌∷◌, ◌++◌, ◌==◌, if◌then◌else◌,
  ◌>>=◌,
}
use rbus.Base.Names.{Name, same}
use rbus.Error.{RtError, ok, invalid_expression, duplicate_entry, protocol_error}
use rbus.RoutingTree.{
  Topics, nil, topic, TopicPath, find_child, walk, create_topics, assign, resolved, prune,
}
use rbus.RoutingTree.Tokens.{is_valid, tokenize, ends_with_dot}

-- rtTreeRoute
pub record Route : Type 0 where
  pub id : ℕ
  pub topics : List TopicPath

pub record RoutingTree : Type 0 where
  pub level : Topics
  pub routes : List Route

-- rtRoutingTree_Create
abbrev pub empty : RoutingTree
empty = record { level = nil; routes = [] }

unfoldable pub same_path : TopicPath → TopicPath → Bool
same_path [] [] = true
same_path [] (u ∷ us) = false
same_path (t ∷ ts) [] = false
same_path (t ∷ ts) (u ∷ us) = same t u && same_path ts us

-- getTreeRoute
unfoldable pub get_route : List Route → ℕ → Option Route
get_route [] r = none
get_route (e ∷ routes) r = let rest = get_route routes r in if e.id == r then some e else rest

-- A route that is not there yet is added without topics.
unfoldable pub get_or_add : List Route → ℕ → List Route
get_or_add routes r = elim (get_route routes r) [
  | none ↦ routes ++ record { id = r; topics = [] } ∷ []
  | some e ↦ routes
]

abbrev pub has_path : List TopicPath → TopicPath → Bool
has_path [] p = false
has_path (q ∷ paths) p = let rest = has_path paths p in if same_path q p then true else rest

-- addPointerToListOnce on the topics of a route.
unfoldable pub add_topic : List Route → ℕ → TopicPath → List Route
add_topic [] r p = []
add_topic (e ∷ routes) r p =
    let rest = add_topic routes r p in
    if e.id == r
    then (if has_path e.topics p then e else record e { topics = e.topics ++ p ∷ [] }) ∷ routes
    else e ∷ rest

-- The text "_RTROUTED.ADVISORY".
abbrev pub advisory : List ℕ
advisory =
    95 ∷ 82 ∷ 84 ∷ 82 ∷ 79 ∷ 85 ∷ 84 ∷ 69 ∷ 68 ∷ 46 ∷ 65 ∷ 68 ∷ 86 ∷ 73 ∷ 83 ∷ 79 ∷ 82 ∷ 89 ∷ []

abbrev pub routes_of : Topics → Option (List ℕ)
routes_of nil = none
routes_of (topic n table routes routes2 children next) = routes

abbrev pub is_some : Option (List ℕ) → Bool
is_some none = false
is_some (some routes) = true

-- rtRoutingTree_AddTopicRoute from the tokens on; `reserved` says that the path is the advisory's.
unfoldable pub add_tokens : RoutingTree → List Name → ℕ → Bool → Bool → RtError × RoutingTree
add_tokens rt [] r err_on_dup reserved = (ok, rt)
add_tokens rt (t ∷ ts) r err_on_dup reserved =
    let routes = get_or_add rt.routes r in
    let w = create_topics rt.level (t ∷ ts) in
    if w.failed
    then (protocol_error, record { level = w.level; routes = routes })
    else if err_on_dup
        && (not w.created && (is_some (routes_of (walk w.level (t ∷ ts))) && not reserved))
    then (duplicate_entry, record { level = w.level; routes = routes })
    else (
      ok,
      record {
        level = assign w.level (t ∷ ts) r;
        routes = add_topic routes r (resolved w.level (t ∷ ts));
      },
    )

-- rtRoutingTree_AddTopicRoute
unfoldable pub add_topic_route : RoutingTree → List ℕ → ℕ → Bool → Option (RtError × RoutingTree)
add_topic_route rt path r err_on_dup =
    let added = do ts ← tokenize path; some (add_tokens rt ts r err_on_dup (same path advisory))
    in if is_valid path then added else some (invalid_expression, rt)

abbrev curly : Name
curly = 123 ∷ 105 ∷ 125 ∷ []

-- What stands behind the walk of rtRoutingTree_GetTopicRoutes.
unfoldable pub listening : Bool → Topics → Option (List ℕ)
listening partial nil = none
listening partial (topic n table routes routes2 children next) =
    if partial then routes2 else if table then routes_of (find_child children curly) else routes

-- rtRoutingTree_GetTopicRoutes, without ENABLE_ROUTE2_QUICK_GET_OPTIMIZATION, which no build sets.
unfoldable pub get_topic_routes : RoutingTree → List ℕ → Option (Option (List ℕ))
get_topic_routes rt path = do
  ts ← tokenize path
  some (listening (ends_with_dot path) (walk rt.level ts))

topics_of : Option Route → Option (List TopicPath)
topics_of none = none
topics_of (some e) = some e.topics

-- rtRoutingTree_GetRouteTopics
unfoldable pub get_route_topics : RoutingTree → ℕ → Option (List TopicPath)
unfolding topics_of
get_route_topics rt r = topics_of (get_route rt.routes r)

unfoldable pub drop_route : List Route → ℕ → List Route
drop_route [] r = []
drop_route (e ∷ routes) r = let rest = drop_route routes r in if e.id == r then routes else e ∷ rest

-- rtRoutingTree_RemoveRoute
unfoldable pub remove_route : RoutingTree → ℕ → RoutingTree
remove_route rt r = elim (get_route rt.routes r) [
  | none ↦ rt
  | some e ↦ record { level = prune rt.level r; routes = drop_route rt.routes r }
]
