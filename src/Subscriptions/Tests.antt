-- ===== src/Subscriptions/Tests.antt =====
-- The theorem at concrete names.
use rbus.Base.{◌≡◌, ◌↔◌, refl, true, false, [], ◌∷◌}
use rbus.Base.Names.{Name}
use rbus.Subscriptions.{compare_event_name_to_elem_name}
use rbus.Subscriptions.Wildcards.{Matches, compare_event_name_to_elem_name-Matches}

-- `T.*.S` and `T.{i}.S`
abbrev event : Name
event = 84 ∷ 46 ∷ 42 ∷ 46 ∷ 83 ∷ []

abbrev elem : Name
elem = 84 ∷ 46 ∷ 123 ∷ 105 ∷ 125 ∷ 46 ∷ 83 ∷ []

-- A row number in the name of the event does not stand for "{i}".
row_number : compare_event_name_to_elem_name (84 ∷ 46 ∷ 49 ∷ 46 ∷ 83 ∷ []) elem ≡ false
unfolding compare_event_name_to_elem_name
row_number = refl

compare_event_name_to_elem_name-Matches_example :
    (compare_event_name_to_elem_name event elem ≡ true) ↔ Matches event elem
compare_event_name_to_elem_name-Matches_example = compare_event_name_to_elem_name-Matches event elem
