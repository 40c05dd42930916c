-- ===== src/Vector.antt =====
-- src/rtmessage/rtVector.c: a growing array of pointers to items. A slot is `some` item, or `none`
-- for NULL and for memory that was never set. `items` is `none` while `data` is NULL. The Boolean
-- argument of `push_back` says whether its allocation succeeds. Access outside the array, and use
-- of a slot without an item, are the fault `none`.
pub mod Contents
pub mod Removal
mod Tests
use rbus.Base.{
  ℕ, zero, suc, ◌+◌, ◌-◌, Bool, true, false, Option, none, some, List, [], ◌∷◌, ◌++◌, length, set,
  take, drop, replicate, ltb, leb, if◌then◌else◌, ◌>>=◌,
}
use rbus.Error.{RtError, ok, failed, no_mem}

abbrev pub block_size : ℕ
block_size = 16

pub record Vector {ℓ} (A : Type ℓ) : Type ℓ where
  pub items : Option (List (Option A))
  pub capacity : ℕ
  pub count : ℕ

module _ {ℓ} {A : Type ℓ} where
  abbrev pub create : Vector A
  create = record { items = none; capacity = 0; count = 0 }

  -- `realloc` keeps the slots.
  pub resized : Bool → List (Option A) → Option (List (Option A))
  resized true slots = some (slots ++ replicate block_size none)
  resized false slots = none

  pub allocated : Bool → Option (List (Option A))
  allocated true = some (replicate block_size none)
  allocated false = none

  -- The first part of rtVector_PushBack. The capacity grows even if the allocation fails.
  grow_items : Bool → Vector A → Option (List (Option A)) → Vector A
  unfolding resized allocated
  grow_items success v none = record v { items = allocated success; capacity = block_size }
  grow_items success v (some slots) =
      if leb v.capacity (v.count + 1)
      then record v { items = resized success slots; capacity = v.capacity + block_size }
      else v

  unfoldable pub grow : Bool → Vector A → Vector A
  unfolding grow_items
  grow success v = grow_items success v v.items

  -- `v->data[v->count++] = item`
  store : Vector A → A → Option (List (Option A)) → Option (RtError × Vector A)
  store v item none = some (no_mem, v)
  store v item (some slots) =
      if ltb v.count (length slots)
      then some (ok, record v { items = some (set slots v.count (some item)); count = v.count + 1 })
      else none

  -- rtVector_PushBack
  unfoldable pub push_back : Bool → Vector A → A → Option (RtError × Vector A)
  unfolding store
  push_back success v item = let g = grow success v in store g item g.items

  -- The search of the first `n` slots, from index `i`.
  pub find_index : (A → Bool) → ℕ → ℕ → List (Option A) → Option (Option ℕ)
  find_index found i zero slots = some none
  find_index found i (suc n) [] = none
  find_index found i (suc n) (none ∷ slots) = none
  find_index found i (suc n) (some a ∷ slots) =
      let rest = find_index found (i + 1) n slots in if found a then some (some i) else rest

  -- `n` rounds of `v->data[i] = v->data[i+1]; i++`, from the first slot on.
  pub shift_down : ℕ → List (Option A) → Option (List (Option A))
  shift_down zero slots = some slots
  shift_down (suc n) (x ∷ y ∷ slots) = do rest ← shift_down n (y ∷ slots); some (y ∷ rest)
  shift_down (suc n) _ = none

  -- What follows the search: RT_FAIL, or the shift, and NULL in the slots from the old count on.
  remove_at : Vector A → List (Option A) → Option ℕ → Option (RtError × Vector A)
  remove_at v slots none = some (failed, v)
  remove_at v slots (some i) = do
    shifted ← shift_down (v.count - i) (drop i slots)
    some (
      ok,
      record v {
        items =
            some (take v.count (take i slots ++ shifted) ++ replicate (v.capacity - v.count) none);
        count = v.count - 1;
      },
    )

  remove_items : (A → Bool) → Vector A → Option (List (Option A)) → Option (RtError × Vector A)
  unfolding remove_at
  remove_items found v none = if ltb 0 v.count then none else some (failed, v)
  remove_items found v (some slots) = do i ← find_index found 0 v.count slots; remove_at v slots i

  -- rtVector_RemoveItem and rtVector_RemoveItemByCompare: `found` is the test of an item, by its
  -- address or by the compare function.
  pub remove_item : (A → Bool) → Vector A → Option (RtError × Vector A)
  unfolding remove_items
  remove_item found v = remove_items found v v.items

  slot_at : List (Option A) → ℕ → Option (Option A)
  slot_at [] i = none
  slot_at (x ∷ slots) zero = some x
  slot_at (x ∷ slots) (suc i) = slot_at slots i

  item_at : Option (List (Option A)) → ℕ → Option (Option A)
  unfolding slot_at
  item_at none i = none
  item_at (some slots) i = slot_at slots i

  -- rtVector_At
  pub at : Vector A → ℕ → Option (Option A)
  unfolding item_at
  at v i = if leb v.count i then some none else item_at v.items i

  -- rtVector_Size
  unfoldable pub size : Vector A → ℕ
  size v = v.count

  -- The search of rtVector_Find: it gives the item.
  pub find_slot : (A → Bool) → ℕ → List (Option A) → Option (Option A)
  find_slot found zero slots = some none
  find_slot found (suc n) [] = none
  find_slot found (suc n) (none ∷ slots) = none
  find_slot found (suc n) (some a ∷ slots) =
      let rest = find_slot found n slots in if found a then some (some a) else rest

  find_items : (A → Bool) → Vector A → Option (List (Option A)) → Option (Option A)
  find_items found v none = if ltb 0 v.count then none else some none
  find_items found v (some slots) = find_slot found v.count slots

  pub find : (A → Bool) → Vector A → Option (Option A)
  unfolding find_items
  find found v = find_items found v v.items
