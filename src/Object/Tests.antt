-- ===== src/Object/Tests.antt =====
-- rbus_object.c on concrete properties.
use rbus.Base.{ℕ, ◌≡◌, some, List, [], ◌∷◌, ◌++◌, if◌then◌else◌}
use rbus.Base.Names.{Name, same}
use rbus.Object.{Property, get_property, get_value, set_value}
use rbus.Object.Lookup.{get_value-set_value}
use rbus.Object.Distinct.{names, is_there, names-set_value}

abbrev a : Name
a = 65 ∷ []

abbrev b : Name
b = 66 ∷ []

abbrev two : List (Property ℕ)
two = record { name = a; value = some 1 } ∷ record { name = b; value = some 2 } ∷ []

get_value-set_value_example :
    get_value (set_value two b 9) (some b) ≡ (if same b b then some 9 else get_value two (some b))
get_value-set_value_example = get_value-set_value two b 9 b

names-set_value_example :
    names (set_value two b 9)
    ≡ (if is_there (get_property two b) then names two else names two ++ b ∷ [])
names-set_value_example = names-set_value two b 9
