-- ===== src/RtList/Runs.antt =====
-- Series of calls on a list from rtList_Create on, by a caller that keeps the items in their order.
use rbus.Base.{ℕ, zero, suc, ◌≡◌, Bool, false, Option, none, some, List, [], ◌∷◌, ◌++◌, ◌==◌, ◌>>=◌}
use rbus.RtList.{
  RtList, reuse_data, push_front, push_back, insert_before, insert_after, remove_item,
  remove_all_items,
}
use rbus.RtList.Contents.{Represents, contents}

-- A call, with the position of the item that it is given. There is no call where there is no item.
pub data Call : Type 0 where
  pushes_front pushes_back : ℕ → Call
  inserts_before inserts_after : ℕ → ℕ → Call
  removes : ℕ → Bool → Call
  removes_all : Bool → Call

-- The entries in front of a position, the one there and those behind it.
abbrev pub Split : Type 0
Split = List ℕ × ℕ × List ℕ

abbrev pub put_front : ℕ → Option Split → Option Split
put_front a none = none
put_front a (some (before, at, after)) = some (a ∷ before, at, after)

unfoldable pub split_at : ℕ → List ℕ → Option Split
split_at n [] = none
split_at zero (a ∷ l) = some ([], a, l)
split_at (suc n) (a ∷ l) = put_front a (split_at n l)

abbrev pub State : Type 0
State = RtList × List ℕ

-- The item of an insertion, between those in front of it and those behind it.
abbrev pub between : List ℕ → List ℕ → Option (ℕ × RtList) → Option State
between before after none = none
between before after (some (item, list)) = some (list, before ++ item ∷ after)

abbrev pub insert_before_at : State → ℕ → Option Split → Option State
insert_before_at s value none = some s
insert_before_at (list, l) value (some (before, at, after)) =
    between before (at ∷ after) (insert_before list value at)

abbrev pub insert_after_at : State → ℕ → Option Split → Option State
insert_after_at s value none = some s
insert_after_at (list, l) value (some (before, at, after)) =
    between (before ++ at ∷ []) after (insert_after list value at)

abbrev pub remove_item_at : State → Bool → Option Split → Option State
remove_item_at s has_destroyer none = some s
remove_item_at (list, l) has_destroyer (some (before, at, after)) =
    some (remove_item list at has_destroyer, before ++ after)

abbrev pub emptied : Option RtList → Option State
emptied none = none
emptied (some list) = some (list, [])

-- The call on the list, and the items that the caller then has.
unfoldable pub perform : Call → State → Option State
perform (pushes_front value) (list, l) =
    some ((push_front list value).1, (push_front list value).0 ∷ l)
perform (pushes_back value) (list, l) =
    some ((push_back list value).1, l ++ (push_back list value).0 ∷ [])
perform (inserts_before n value) (list, l) = insert_before_at (list, l) value (split_at n l)
perform (inserts_after n value) (list, l) = insert_after_at (list, l) value (split_at n l)
perform (removes n has_destroyer) (list, l) = remove_item_at (list, l) has_destroyer (split_at n l)
perform (removes_all has_destroyer) (list, l) = emptied (remove_all_items list has_destroyer)

unfoldable pub run : State → List Call → Option State
run s [] = some s
run s (c ∷ calls) = perform c s >>= λ s'. run s' calls

-- The same on a list of data.
abbrev pub put_before : List ℕ → ℕ → Option Split → List ℕ
put_before vs value none = vs
put_before vs value (some (before, v, after)) = before ++ value ∷ v ∷ after

abbrev pub put_behind : List ℕ → ℕ → Option Split → List ℕ
put_behind vs value none = vs
put_behind vs value (some (before, v, after)) = (before ++ v ∷ []) ++ value ∷ after

abbrev pub drop_at : List ℕ → Option Split → List ℕ
drop_at vs none = vs
drop_at vs (some (before, v, after)) = before ++ after

unfoldable pub ideal : Call → List ℕ → List ℕ
ideal (pushes_front value) vs = value ∷ vs
ideal (pushes_back value) vs = vs ++ value ∷ []
ideal (inserts_before n value) vs = put_before vs value (split_at n vs)
ideal (inserts_after n value) vs = put_behind vs value (split_at n vs)
ideal (removes n has_destroyer) vs = drop_at vs (split_at n vs)
ideal (removes_all has_destroyer) vs = []

abbrev pub ideal_run : List ℕ → List Call → List ℕ
ideal_run vs [] = vs
ideal_run vs (c ∷ calls) = ideal_run (ideal c vs) calls

-- The data of a new item is not rtListReuseData.
abbrev pub IsFresh : Call → Type 0
IsFresh (pushes_front value) = (value == reuse_data) ≡ false
IsFresh (pushes_back value) = (value == reuse_data) ≡ false
IsFresh (inserts_before n value) = (value == reuse_data) ≡ false
IsFresh (inserts_after n value) = (value == reuse_data) ≡ false
IsFresh _ = Unit

-- The list stands for the items of the caller, and they have the data.
abbrev pub Holds : State → List ℕ → Type 0
Holds (list, l) vs = (free : List ℕ) × Represents list l free × (contents list l ≡ vs)
