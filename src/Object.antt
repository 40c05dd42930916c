-- ===== src/Object.antt =====
-- src/rbus/rbus_object.c and src/rbus/rbus_property.c: the list of named properties of an object.
-- A property and those that its `next` leads to are a list. A name is a C string that is not NULL,
-- without its NUL. The values are opaque here: `none` is a NULL value. Reference counts are not
-- modelled.
pub mod Lookup
pub mod Distinct
mod Tests
use rbus.Base.Names.{Name, same}
use rbus.Base.{
  ℕ, suc, Bool, true, false, ◌&&◌, Option, none, some, List, [], ◌∷◌, ◌++◌, ◌==◌, if◌then◌else◌,
  length,
}

pub record Property {ℓ} (V : Type ℓ) : Type ℓ where
  pub name : Name
  pub value : Option V

module _ {ℓ} {V : Type ℓ} where
  -- rbusProperty_Append, where `properties` may be NULL too.
  abbrev pub append : List (Property V) → List (Property V) → List (Property V)
  append properties back = properties ++ back

  -- rbusProperty_Count
  abbrev pub count : List (Property V) → ℕ
  count properties = length properties

  -- rbusObject_GetProperty
  unfoldable pub get_property : List (Property V) → Name → Option (Property V)
  get_property [] name = none
  get_property (p ∷ properties) name =
      let rest = get_property properties name in if same p.name name then some p else rest

  -- rbusObject_SetProperty with the property `new`, which `more` follows: the first property of that
  -- name is taken out, and what stood behind it is appended to the new ones.
  unfoldable pub set_property :
      List (Property V) → Property V → List (Property V) → List (Property V)
  set_property [] new more = new ∷ more
  set_property (p ∷ properties) new more =
      let rest = set_property properties new more in
      if same p.name new.name then append (new ∷ more) properties else p ∷ rest

  value_of : Option (Property V) → Option V
  value_of none = none
  value_of (some p) = p.value

  first_property : List (Property V) → Option (Property V)
  first_property [] = none
  first_property (p ∷ properties) = some p

  -- rbusObject_GetPropertyValue: no name asks for the first property.
  unfoldable pub get_value : List (Property V) → Option Name → Option V
  unfolding value_of first_property
  get_value properties none = value_of (first_property properties)
  get_value properties (some name) = value_of (get_property properties name)

  -- rbusProperty_SetValue on the property that the search finds.
  unfoldable pub update : List (Property V) → Name → V → List (Property V)
  update [] name v = []
  update (p ∷ properties) name v =
      let rest = update properties name v in
      if same p.name name then record p { value = some v } ∷ properties else p ∷ rest

  -- rbusObject_SetPropertyValue
  unfoldable pub set_value : List (Property V) → Name → V → List (Property V)
  set_value properties name v = elim (get_property properties name) [
    | none ↦ append properties (record { name = name; value = some v } ∷ [])
    | some _ ↦ update properties name v
  ]
