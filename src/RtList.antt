-- ===== src/RtList.antt =====
-- src/rtmessage/rtList.c. The items stand in a memory with a function for each of their fields, and an
-- item is its address there. A data pointer is a number, 0 for NULL and 1 for rtListReuseData.
-- Allocation succeeds, at addresses from `used` on. The data that a destroyer was called for is kept in
-- `destroyed`.
pub mod Links
pub mod Contents
pub mod Taking
pub mod Adding
pub mod Removing
pub mod Walking
pub mod Runs
pub mod Refinement
pub mod Inserting
pub mod Behind
pub mod Emptying
mod Tests
use rbus.Base.{
  ℕ, zero, suc, ◌+◌, ◌-◌, Bool, true, false, not, ◌&&◌, Option, none, some, List, [], ◌∷◌, ◌++◌,
  ◌==◌, if◌then◌else◌,
}

-- _rtList, with the memory of its items, _rtListItem.
pub record RtList : Type 0 where
  pub front : Option ℕ
  pub back : Option ℕ
  pub free : Option ℕ
  pub size : ℕ
  pub data_of : ℕ → ℕ
  pub next : ℕ → Option ℕ
  pub prev : ℕ → Option ℕ
  pub used : ℕ
  pub destroyed : List ℕ

abbrev pub reuse_data : ℕ
reuse_data = 1

-- The assignment to a field of an item, and to one behind a pointer that is tested first.
abbrev pub update {ℓ} : {A : Type ℓ} → (ℕ → A) → ℕ → A → ℕ → A
update f a v x = if x == a then v else f x

abbrev pub update_at {ℓ} : {A : Type ℓ} → (ℕ → A) → Option ℕ → A → ℕ → A
update_at f none v x = f x
update_at f (some a) v x = update f a v x

-- rtList_Create
abbrev pub create : RtList
create = record {
  front = none;
  back = none;
  free = none;
  size = 0;
  data_of = λ x. 0;
  next = λ x. none;
  prev = λ x. none;
  used = 0;
  destroyed = [];
}

-- rtList_GetFreeItem
abbrev pub take_free : RtList → Option ℕ → ℕ × RtList
take_free list (some item) = (item, record list { free = list.next item })
take_free list none =
    (list.used, record list { used = list.used + 1; data_of = update list.data_of list.used 0 })

unfoldable pub get_free_item : RtList → ℕ × RtList
get_free_item list = take_free list list.free

-- rtList_SetFreeItem
unfoldable pub set_free_item : RtList → ℕ → RtList
set_free_item list item = record list {
  prev = update (update_at list.prev list.free (some item)) item none;
  next = update list.next item list.free;
  free = some item;
}

abbrev pub put_data : (ℕ → ℕ) → ℕ → ℕ → ℕ → ℕ
put_data data_of item value = if value == reuse_data then data_of else update data_of item value

-- The pointer, or the item where it is NULL.
abbrev pub or_item : Option ℕ → ℕ → Option ℕ
or_item none item = some item
or_item (some a) item = some a

abbrev pub points_to : Option ℕ → ℕ → Bool
points_to none item = false
points_to (some a) item = a == item

-- The list with the new item.
unfoldable pub push_front : RtList → ℕ → ℕ × RtList
push_front list value =
    let (item, l) = get_free_item list in
    (
      item,
      record l {
        data_of = put_data l.data_of item value;
        prev = update_at (update l.prev item none) l.front (some item);
        next = update l.next item l.front;
        front = some item;
        back = or_item l.back item;
        size = l.size + 1;
      },
    )

unfoldable pub push_back : RtList → ℕ → ℕ × RtList
push_back list value =
    let (item, l) = get_free_item list in
    (
      item,
      record l {
        data_of = put_data l.data_of item value;
        next = update_at (update l.next item none) l.back (some item);
        prev = update l.prev item l.back;
        back = some item;
        front = or_item l.front item;
        size = l.size + 1;
      },
    )

-- rtList_InsertBefore and rtList_InsertAfter, in two parts. `item->prev->next = item` faults where the pointer is NULL.
abbrev pub link_behind : RtList → ℕ → Option ℕ → Option RtList
link_behind list item none = none
link_behind list item (some a) = some (record list { next = update list.next a (some item) })

unfoldable pub insert_taken_before : RtList → ℕ → ℕ → ℕ → Option (ℕ × RtList)
insert_taken_before l item value at =
    let l' = record l {
      data_of = put_data l.data_of item value;
      next = update l.next item (some at);
      prev = update (update l.prev item (l.prev at)) at (some item);
      size = l.size + 1;
    } in
    if points_to l.front at
    then some (item, record l' { front = some item })
    else elim (link_behind l' item (l'.prev item)) [ none ↦ none | some l'' ↦ some (item, l'') ]

unfoldable pub insert_before : RtList → ℕ → ℕ → Option (ℕ × RtList)
insert_before list value at =
    let (item, l) = get_free_item list in insert_taken_before l item value at

-- `item->next->prev = item`
abbrev pub link_ahead : RtList → ℕ → Option ℕ → Option RtList
link_ahead list item none = none
link_ahead list item (some a) = some (record list { prev = update list.prev a (some item) })

unfoldable pub insert_taken_after : RtList → ℕ → ℕ → ℕ → Option (ℕ × RtList)
insert_taken_after l item value at =
    let l' = record l {
      data_of = put_data l.data_of item value;
      next = update (update l.next item (l.next at)) at (some item);
      prev = update l.prev item (some at);
      size = l.size + 1;
    } in
    if points_to l.back at
    then some (item, record l' { back = some item })
    else elim (link_ahead l' item (l'.next item)) [ none ↦ none | some l'' ↦ some (item, l'') ]

unfoldable pub insert_after : RtList → ℕ → ℕ → Option (ℕ × RtList)
insert_after list value at =
    let (item, l) = get_free_item list in insert_taken_after l item value at

-- The call of a destroyer, if there is one, for data that is not NULL.
abbrev pub destroy_data : RtList → ℕ → Bool → RtList
destroy_data list item has_destroyer =
    if has_destroyer && not (list.data_of item == 0)
    then record list {
      destroyed = list.destroyed ++ list.data_of item ∷ [];
      data_of = update list.data_of item 0;
    }
    else list

-- rtList_RemoveItem up to the destroyer. The item is one of the list, so the size is not 0 behind it.
unfoldable pub unlink : RtList → ℕ → RtList
unlink list item =
    let next = update_at list.next (list.prev item) (list.next item) in
    let prev = update_at list.prev (next item) (list.prev item) in
    record list {
      next = next;
      prev = prev;
      front = if points_to list.front item then next item else list.front;
      back = if points_to list.back item then prev item else list.back;
    }

unfoldable pub remove_item : RtList → ℕ → Bool → RtList
remove_item list item has_destroyer =
    let l = set_free_item (destroy_data (unlink list item) item has_destroyer) item in
    record l { size = l.size - 1 }

-- The first item from a pointer on that passes a test, with fuel for the walk; the result has what was
-- found, and is `none` without fuel.
unfoldable pub search_item : (ℕ → Bool) → RtList → ℕ → Option ℕ → Option (Option ℕ)
search_item test list fuel none = some none
search_item test list zero (some a) = none
search_item test list (suc fuel) (some a) =
    let rest = search_item test list fuel (list.next a) in
    if test (list.data_of a) then some (some a) else rest

-- rtList_RemoveItemWithData and rtList_RemoveItemByCompare: the test is the equality of the data, or
-- the comparison, and the result says whether an item has been removed.
unfoldable pub remove_first : (ℕ → Bool) → RtList → Bool → Option (Bool × RtList)
remove_first test list has_destroyer = elim (search_item test list list.size list.front) [
  | none ↦ none
  | some found ↦ elim found [
    | none ↦ some (false, list)
    | some item ↦ some (true, remove_item list item has_destroyer)
  ]
]

abbrev pub data_at : RtList → Option ℕ → ℕ
data_at list none = 0
data_at list (some item) = list.data_of item

-- rtList_Find: the data, or 0 for NULL.
unfoldable pub find : (ℕ → Bool) → RtList → Option ℕ
find test list = elim (search_item test list list.size list.front) [
  | none ↦ none
  | some found ↦ some (data_at list found)
]

-- rtList_RemoveAllItems, for the items from a pointer on.
unfoldable pub free_items : RtList → ℕ → Option ℕ → Bool → Option RtList
free_items list fuel none has_destroyer = some list
free_items list zero (some item) has_destroyer = none
free_items list (suc fuel) (some item) has_destroyer =
    free_items (set_free_item (destroy_data list item has_destroyer) item) fuel (list.next item)
      has_destroyer

unfoldable pub remove_all_items : RtList → Bool → Option RtList
remove_all_items list has_destroyer = elim (free_items list list.size list.front has_destroyer) [
  | none ↦ none
  | some l ↦ some (record l { size = 0; front = none; back = none })
]
