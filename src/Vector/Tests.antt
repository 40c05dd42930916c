-- ===== src/Vector/Tests.antt =====
-- rtVector.c on concrete vectors.
use rbus.Base.{
  ℕ, ◌≡◌, refl, true, false, none, some, [], ◌∷◌, ◌++◌, ◌==◌, if◌then◌else◌, replicate, arith, Bool,
}
use rbus.Error.{ok, failed, no_mem}
use rbus.Vector.{Vector, push_back, remove_item, grow}
use rbus.Vector.Contents.{Contains, slots_of, filled}
use rbus.Vector.Removal.{any, remove_first, remove_item-Contains}

-- Two items in the first block.
abbrev two : Vector ℕ
two = record { items = some (slots_of (5 ∷ 6 ∷ []) ++ replicate 14 none); capacity = 16; count = 2 }

two-Contains : Contains two (5 ∷ 6 ∷ [])
two-Contains = filled (record {
  tail = replicate 14 none;
  items_lem = refl;
  counted = refl;
  sized = refl;
  room = omega arith;
})

abbrev is_five : ℕ → Bool
is_five n = n == 5

remove_item-Contains_example :
    (v' : Vector ℕ) × (remove_item is_five two
      ≡ some ((if any is_five (5 ∷ 6 ∷ []) then ok else failed), v'))
    × Contains v' (remove_first is_five (5 ∷ 6 ∷ []))
remove_item-Contains_example = remove_item-Contains is_five two (5 ∷ 6 ∷ []) two-Contains

-- Two blocks, with 31 items.
abbrev nearly_full : Vector ℕ
nearly_full = record {
  items = some (slots_of (replicate 31 5) ++ none ∷ []);
  capacity = 32;
  count = 31;
}

-- When a realloc fails, the next push allocates one block only and writes behind it.
abbrev lost : Vector ℕ
lost = record { items = none; capacity = 48; count = 31 }

push_back_fails : push_back false nearly_full 7 ≡ some (no_mem, lost)
unfolding push_back grow
push_back_fails = refl

push_back_behind_block : push_back true lost 7 ≡ none
unfolding push_back grow
push_back_behind_block = refl
