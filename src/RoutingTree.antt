-- ===== src/RoutingTree.antt =====
-- src/rtmessage/rtRoutingTree.c: which routes listen to which topics. A topic is a node with its
-- first child and its next sibling; a list that may be NULL is an Option. A route is a number, in
-- place of the address of its rtTreeRoute, and a topic in a route's list is its path, in place of
-- its address. The root's isTable is never read, and not modelled.
pub mod Tokens
pub mod Lookup
pub mod Adding
pub mod Registration
pub mod Covering
pub mod Removal
pub mod Sound
pub mod Reach
pub mod Operations
pub mod Removing
pub mod Entries
pub mod Resolving
mod Tests
use rbus.Base.{
  ℕ, zero, suc, ◌+◌, ◌≤◌, Bool, true, false, not, ◌||◌, ◌&&◌, Option, none, some, List, [], ◌∷◌,
  ◌++◌, ltb, leb, ◌==◌, if◌then◌else◌, ◌>>=◌,
}
use rbus.Base.Names.{Name, same}
use rbus.Error.{RtError, ok, invalid_expression, duplicate_entry, protocol_error}
use Tokens.{dot, is_valid, tokenize}

abbrev pub TopicPath : Type 0
TopicPath = List Name

-- rtTreeTopic: name, isTable, routeList, routeList2, childList, and the sibling behind it.
pub data Topics : Type 0 where
  nil : Topics
  topic : Name → Bool → Option (List ℕ) → Option (List ℕ) → Topics → Topics → Topics

-- The tests of getChildByName on a child's name and the name that is looked for.
pub data Match : Type 0 where
  exact instance_of conflict other : Match

-- `name[0]`, the NUL for an empty name.
abbrev pub first_char : Name → ℕ
first_char [] = 0
first_char (c ∷ cs) = c

abbrev pub is_brace : Name → Bool
is_brace name = first_char name == 123

-- A digit, '[' or '*' at the start.
abbrev pub is_instance : Name → Bool
is_instance name =
    leb 48 (first_char name) && leb (first_char name) 57
    || first_char name == 91
    || first_char name == 42

unfoldable pub match_child : Name → Name → Match
match_child child name =
    if same child name
    then exact
    else if is_brace child && is_instance name
    then instance_of
    else if is_brace child || is_brace name
    then conflict
    else other

abbrev pub passes : Match → Bool
passes exact = false
passes instance_of = false
passes conflict = false
passes other = true

-- getChildByName with neither `create` nor `remove`: the level from the child on that it returns.
unfoldable pub find_child : Topics → Name → Topics
find_child nil name = nil
find_child (topic n table routes routes2 children next) name =
    let rest = find_child next name in
    if passes (match_child n name) then rest else topic n table routes routes2 children next

abbrev pub children_of : Topics → Topics
children_of nil = nil
children_of (topic n table routes routes2 children next) = children

-- The walk along the tokens.
unfoldable pub walk : Topics → List Name → Topics
walk level [] = nil
walk level (t ∷ []) = find_child level t
walk level (t ∷ u ∷ ts) = walk (children_of (find_child level t)) (u ∷ ts)

abbrev pub is_nil : Topics → Bool
is_nil nil = true
is_nil _ = false

-- What the creating walk of rtRoutingTree_AddTopicRoute leaves: `created` is isCreated of its last
-- step, and `failed` stops it.
pub record Created : Type 0 where
  pub level : Topics
  pub created : Bool
  pub failed : Bool

-- createTreeTopic sets isTable of the parent where a name with a brace is created.
unfoldable pub adds_table : Topics → List Name → Bool
adds_table children [] = false
adds_table children (u ∷ us) = is_nil (find_child children u) && is_brace u

abbrev pub after_match : Match → Topics → Created → Created → Created
after_match conflict level here over = record { level = level; created = false; failed = true }
after_match other level here over = over
after_match _ level here over = here

unfoldable pub create_topics : Topics → List Name → Created
unfolding adds_table
create_topics level [] = record { level = level; created = false; failed = false }
create_topics nil (t ∷ ts) =
    let below = create_topics nil ts in
    record {
      level = topic t (adds_table nil ts) none none below.level nil;
      created = true;
      failed = below.failed;
    }
create_topics (topic n table routes routes2 children next) (t ∷ ts) =
    let below = create_topics children ts in
    let behind = create_topics next (t ∷ ts) in
    after_match (match_child n t) (topic n table routes routes2 children next)
      (record below {
        level = topic n (table || adds_table children ts) routes routes2 below.level next;
      })
      (record behind { level = topic n table routes routes2 children behind.level })

abbrev pub entries : Option (List ℕ) → List ℕ
entries none = []
entries (some routes) = routes

abbrev pub contains : List ℕ → ℕ → Bool
contains [] r = false
contains (s ∷ routes) r = s == r || contains routes r

-- addPointerToListOnce, with the creation of the list.
abbrev pub add_once : Option (List ℕ) → ℕ → Option (List ℕ)
add_once list r = some (if contains (entries list) r then entries list else entries list ++ r ∷ [])

-- The route goes to the end of the last topic's routeList, and once into routeList2 of each topic
-- above it but the root (optimizeTopicsBackpropagate).
unfoldable pub assign : Topics → List Name → ℕ → Topics
assign level [] r = level
assign nil (t ∷ ts) r = nil
assign (topic n table routes routes2 children next) (t ∷ []) r =
    let rest = assign next (t ∷ []) r in
    if passes (match_child n t)
    then topic n table routes routes2 children rest
    else topic n table (some (entries routes ++ r ∷ [])) routes2 children next
assign (topic n table routes routes2 children next) (t ∷ u ∷ us) r =
    let rest = assign next (t ∷ u ∷ us) r in
    let below = assign children (u ∷ us) r in
    if passes (match_child n t)
    then topic n table routes routes2 children rest
    else topic n table routes (add_once routes2 r) below next

-- The path of the topic that a walk leads to.
unfoldable pub resolved : Topics → List Name → TopicPath
resolved level [] = []
resolved nil (t ∷ ts) = []
resolved (topic n table routes routes2 children next) (t ∷ ts) =
    let rest = resolved next (t ∷ ts) in
    let below = resolved children ts in if passes (match_child n t) then rest else n ∷ below

-- rtList_RemoveItemByCompare: the first entry only.
abbrev pub remove_entry : List ℕ → ℕ → List ℕ
remove_entry [] r = []
remove_entry (s ∷ routes) r = if s == r then routes else s ∷ remove_entry routes r

abbrev pub remove_from : Option (List ℕ) → ℕ → Option (List ℕ)
remove_from none r = none
remove_from (some routes) r = some (remove_entry routes r)

abbrev pub is_unused : Option (List ℕ) → Bool
is_unused none = true
is_unused (some []) = true
is_unused (some (s ∷ routes)) = false

-- removeRouteFromTopicTree: depth first, and topics that are left without children and routes go.
unfoldable pub prune : Topics → ℕ → Topics
prune nil r = nil
prune (topic n table routes routes2 children next) r =
    let children' = prune children r in
    let next' = prune next r in
    let routes' = remove_from routes r in
    if is_nil children' && is_unused routes'
    then next'
    else topic n table routes' (remove_from routes2 r) children' next'
