-- ===== src/Subscriptions.antt =====
-- src/rbus/rbus_subscriptions.c: the comparison of the name of an event with that of an element. Its
-- result, which is only tested against 0, is a Boolean.
pub mod Wildcards
mod Tests
use rbus.Base.{ℕ, Bool, true, false, ◌&&◌, Option, none, some, List, [], ◌∷◌, ◌==◌, if◌then◌else◌}
use rbus.Base.Names.{Name}

-- The text behind "{i}" at the start of a text.
abbrev pub skip_row : Name → Option Name
skip_row (a ∷ b ∷ c ∷ elem) = if (a == 123) && ((b == 105) && (c == 125)) then some elem else none
skip_row _ = none

-- _compareEventNameToElemName is 0.
unfoldable pub compare_event_name_to_elem_name : Name → Name → Bool
compare_event_name_to_elem_name [] [] = true
compare_event_name_to_elem_name [] (d ∷ elem) = false
compare_event_name_to_elem_name (c ∷ event) [] = false
compare_event_name_to_elem_name (c ∷ event) (d ∷ elem) =
    let rest = compare_event_name_to_elem_name event elem in
    let row : Bool = elim (skip_row (d ∷ elem)) [
      | none ↦ false
      | some elem' ↦ compare_event_name_to_elem_name event elem'
    ] in
    if c == d then rest else if c == 42 then row else false
