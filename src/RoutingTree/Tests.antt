-- ===== src/RoutingTree/Tests.antt =====
-- Runs of the tree on small topics, and the theorems at concrete inputs.
use rbus.Base.{
  ℕ, ◌≡◌, refl, true, false, not, ◌&&◌, ◌||◌, ◌<◌, ◌>>=◌, arith, none, some, List, [], ◌∷◌, ◌++◌,
  leb, if◌then◌else◌, length, ◌==◌,
}
use rbus.Base.Names.{Name, same}
use rbus.Error.{ok, duplicate_entry, protocol_error}
use rbus.RoutingTree.{
  TopicPath, walk, resolved, match_child, find_child, create_topics, assign, prune,
}
use rbus.RoutingTree.Tokens.{is_valid, tokens, tokenize, ends_with_dot, count_tokens, tokens_from}
use rbus.RoutingTree.Tokens.Bounds.{tokenize_bounds, doubled, dots}
use rbus.RoutingTree.Tokens.Join.{tokenize-join, join}
use rbus.RoutingTree.Operations.{
  RoutingTree, empty, add_tokens, add_topic_route, get_topic_routes, remove_route, listening,
  same_path, get_route, drop_route, add_topic, get_or_add,
}
use rbus.RoutingTree.Removing.{
  remove_topic, resolve_partial_path, cut, detach_topics, detach_routes, detach_route, drop_topic,
  first_topics,
}
use rbus.RoutingTree.Lookup.{routes_at}
use rbus.RoutingTree.Registration.{routes_at-add_tokens}
use rbus.RoutingTree.Covering.{listens}
use rbus.RoutingTree.Resolving.{resolve_partial_path_total}
use rbus.RoutingTree.Reach.{
  Reached, empty_tree, followed, registers, get_topic_routes-listens, remove_route-listens,
}

-- "A", "B" and "{i}"
abbrev a : Name
a = 65 ∷ []

abbrev b : Name
b = 66 ∷ []

abbrev row : Name
row = 123 ∷ 105 ∷ 125 ∷ []

-- "A.{i}", "A.1", "A." and "A.B"
abbrev table : List ℕ
table = 65 ∷ 46 ∷ row

abbrev instance_path : List ℕ
instance_path = 65 ∷ 46 ∷ 49 ∷ []

abbrev partial_path : List ℕ
partial_path = 65 ∷ 46 ∷ []

abbrev property_path : List ℕ
property_path = 65 ∷ 46 ∷ 66 ∷ []

-- The route 7 listens to "A.{i}".
abbrev one_route : RoutingTree
one_route = (add_tokens empty (a ∷ row ∷ []) 7 false false).1

one_route-Reached : Reached true one_route
unfolding same match_child find_child walk create_topics assign resolved prune is_valid count_tokens
    tokenize tokens tokens_from add_tokens add_topic_route get_topic_routes listening remove_route
    get_route drop_route listens routes_at same_path cut detach_topics detach_routes detach_route
    drop_topic remove_topic resolve_partial_path first_topics add_topic get_or_add
one_route-Reached =
    followed empty one_route empty_tree (registers empty one_route table 7 ok (λ h. refl) refl)

-- Rows are found by the table's name, and by an instance; a sibling of a table is refused.
table_test : get_topic_routes one_route a ≡ some (some (7 ∷ []))
unfolding same match_child find_child walk create_topics assign resolved prune is_valid count_tokens
    tokenize tokens tokens_from add_tokens add_topic_route get_topic_routes listening remove_route
    get_route drop_route listens routes_at same_path cut detach_topics detach_routes detach_route
    drop_topic remove_topic resolve_partial_path first_topics add_topic get_or_add
table_test = refl

instance_test : get_topic_routes one_route instance_path ≡ some (some (7 ∷ []))
unfolding same match_child find_child walk create_topics assign resolved prune is_valid count_tokens
    tokenize tokens tokens_from add_tokens add_topic_route get_topic_routes listening remove_route
    get_route drop_route listens routes_at same_path cut detach_topics detach_routes detach_route
    drop_topic remove_topic resolve_partial_path first_topics add_topic get_or_add
instance_test = refl

sibling_test : (add_tokens one_route (a ∷ b ∷ []) 8 true false).0 ≡ protocol_error
unfolding same match_child find_child walk create_topics assign resolved prune is_valid count_tokens
    tokenize tokens tokens_from add_tokens add_topic_route get_topic_routes listening remove_route
    get_route drop_route listens routes_at same_path cut detach_topics detach_routes detach_route
    drop_topic remove_topic resolve_partial_path first_topics add_topic get_or_add
sibling_test = refl

duplicate_test : (add_tokens one_route (a ∷ row ∷ []) 8 true false).0 ≡ duplicate_entry
unfolding same match_child find_child walk create_topics assign resolved prune is_valid count_tokens
    tokenize tokens tokens_from add_tokens add_topic_route get_topic_routes listening remove_route
    get_route drop_route listens routes_at same_path cut detach_topics detach_routes detach_route
    drop_topic remove_topic resolve_partial_path first_topics add_topic get_or_add
duplicate_test = refl

-- Route 7 listens to "A" and route 8 to "A.B". Without route 7 the topic "A" keeps an empty list,
-- and its registration is a duplicate, though no route listens to it.
abbrev two_routes : RoutingTree
two_routes = (add_tokens (add_tokens empty (a ∷ []) 7 false false).1 (a ∷ b ∷ []) 8 false false).1

empty_list_test :
    (listens (remove_route two_routes 7).level 7 ≡ false)
    × ((add_tokens (remove_route two_routes 7) (a ∷ []) 9 true false).0 ≡ duplicate_entry)
unfolding same match_child find_child walk create_topics assign resolved prune is_valid count_tokens
    tokenize tokens tokens_from add_tokens add_topic_route get_topic_routes listening remove_route
    get_route drop_route listens routes_at same_path cut detach_topics detach_routes detach_route
    drop_topic remove_topic resolve_partial_path first_topics add_topic get_or_add
empty_list_test = (refl, refl)

-- Without the topic "A.B", the topic "A" still lists route 8 for the topics below it, which has been
-- freed; the partial path "A." resolves to a fault.
resolve_test : resolve_partial_path two_routes partial_path ≡ some ((a ∷ b ∷ []) ∷ [])
unfolding same match_child find_child walk create_topics assign resolved prune is_valid count_tokens
    tokenize tokens tokens_from add_tokens add_topic_route get_topic_routes listening remove_route
    get_route drop_route listens routes_at same_path cut detach_topics detach_routes detach_route
    drop_topic remove_topic resolve_partial_path first_topics add_topic get_or_add
resolve_test = refl

stale_route_test :
    (remove_topic two_routes property_path >>= (λ rt. get_topic_routes rt partial_path))
    ≡ some (some (8 ∷ []))
unfolding same match_child find_child walk create_topics assign resolved prune is_valid count_tokens
    tokenize tokens tokens_from add_tokens add_topic_route get_topic_routes listening remove_route
    get_route drop_route listens routes_at same_path cut detach_topics detach_routes detach_route
    drop_topic remove_topic resolve_partial_path first_topics add_topic get_or_add
stale_route_test = refl

resolve_fault_test :
    (remove_topic two_routes property_path >>= (λ rt. resolve_partial_path rt partial_path)) ≡ none
unfolding same match_child find_child walk create_topics assign resolved prune is_valid count_tokens
    tokenize tokens tokens_from add_tokens add_topic_route get_topic_routes listening remove_route
    get_route drop_route listens routes_at same_path cut detach_topics detach_routes detach_route
    drop_topic remove_topic resolve_partial_path first_topics add_topic get_or_add
resolve_fault_test = refl

-- A route that is added to a topic twice listens after its removal.
twice_test :
    listens
      (remove_route
        (add_tokens (add_tokens empty (a ∷ []) 7 false false).1 (a ∷ []) 7 false false).1
        7).level
      7
    ≡ true
unfolding same match_child find_child walk create_topics assign resolved prune is_valid count_tokens
    tokenize tokens tokens_from add_tokens add_topic_route get_topic_routes listening remove_route
    get_route drop_route listens routes_at same_path cut detach_topics detach_routes detach_route
    drop_topic remove_topic resolve_partial_path first_topics add_topic get_or_add
twice_test = refl

tokenize_bounds_example :
    (is_valid table ≡ (not (doubled table) && leb (dots table) 32 && leb (length table) 512))
    × (is_valid table ≡ true
        → 0 < length table
        → ends_with_dot table ≡ false
        → tokenize table
          ≡ (if leb 32 (dots table) || leb 512 (length table) then none else some (tokens table)))
unfolding same match_child find_child walk create_topics assign resolved prune is_valid count_tokens
    tokenize tokens tokens_from add_tokens add_topic_route get_topic_routes listening remove_route
    get_route drop_route listens routes_at same_path cut detach_topics detach_routes detach_route
    drop_topic remove_topic resolve_partial_path first_topics add_topic get_or_add
tokenize_bounds_example = tokenize_bounds table

tokenize-join_example : tokenize (join a (row ∷ b ∷ [])) ≡ some (a ∷ row ∷ b ∷ [])
unfolding same match_child find_child walk create_topics assign resolved prune is_valid count_tokens
    tokenize tokens tokens_from add_tokens add_topic_route get_topic_routes listening remove_route
    get_route drop_route listens routes_at same_path cut detach_topics detach_routes detach_route
    drop_topic remove_topic resolve_partial_path first_topics add_topic get_or_add
tokenize-join_example =
    tokenize-join a (row ∷ b ∷ []) (ground arith, tt)
      ((ground arith, (ground arith, (ground arith, tt))), ((ground arith, tt), tt)) refl
      (omega arith) (omega arith)

routes_at-add_tokens_example :
    routes_at two_routes.level (a ∷ b ∷ []) ≡ (if true && true then [] ++ 8 ∷ [] else [])
unfolding same match_child find_child walk create_topics assign resolved prune is_valid count_tokens
    tokenize tokens tokens_from add_tokens add_topic_route get_topic_routes listening remove_route
    get_route drop_route listens routes_at same_path cut detach_topics detach_routes detach_route
    drop_topic remove_topic resolve_partial_path first_topics add_topic get_or_add
routes_at-add_tokens_example =
    routes_at-add_tokens (add_tokens empty (a ∷ []) 7 false false).1 a (b ∷ []) 8 false false
      (a ∷ b ∷ [])

resolve_partial_path_total_example :
    (paths : List TopicPath) × (resolve_partial_path one_route partial_path ≡ some paths)
    × (length paths ≡ 1)
unfolding same match_child find_child walk create_topics assign resolved prune is_valid count_tokens
    tokenize tokens tokens_from add_tokens add_topic_route get_topic_routes listening remove_route
    get_route drop_route listens routes_at same_path cut detach_topics detach_routes detach_route
    drop_topic remove_topic resolve_partial_path first_topics add_topic get_or_add
resolve_partial_path_total_example =
    resolve_partial_path_total one_route partial_path (a ∷ []) one_route-Reached refl

get_topic_routes-listens_example :
    (get_topic_routes one_route partial_path ≡ some (some (7 ∷ []))) × (true ≡ true)
unfolding same match_child find_child walk create_topics assign resolved prune is_valid count_tokens
    tokenize tokens tokens_from add_tokens add_topic_route get_topic_routes listening remove_route
    get_route drop_route listens routes_at same_path cut detach_topics detach_routes detach_route
    drop_topic remove_topic resolve_partial_path first_topics add_topic get_or_add
get_topic_routes-listens_example =
    get_topic_routes-listens one_route partial_path (a ∷ []) 7 one_route-Reached refl refl

remove_route-listens_example :
    (listens (remove_route one_route 7).level 7 ≡ (true && not (7 == 7)))
    × Reached true (remove_route one_route 7)
unfolding same match_child find_child walk create_topics assign resolved prune is_valid count_tokens
    tokenize tokens tokens_from add_tokens add_topic_route get_topic_routes listening remove_route
    get_route drop_route listens routes_at same_path cut detach_topics detach_routes detach_route
    drop_topic remove_topic resolve_partial_path first_topics add_topic get_or_add
remove_route-listens_example = remove_route-listens one_route 7 7 one_route-Reached
