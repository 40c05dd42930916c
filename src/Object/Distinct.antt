-- ===== src/Object/Distinct.antt =====
-- The names of an object's properties, and their order.
use rbus.Base.{
  ◌≡◌, refl, ap, Bool, true, false, Option, none, some, List, [], ◌∷◌, ◌++◌, if◌then◌else◌,
  Bool-cases, inl, inr, ◌∙◌,
}
use rbus.Base.Names.{Name, same}
use rbus.Object.{Property, get_property, set_value, update}

module _ {ℓ} {V : Type ℓ} where
  abbrev pub names : List (Property V) → List Name
  names [] = []
  names (p ∷ properties) = p.name ∷ names properties

  names-append : (xs ys : List (Property V)) → names (xs ++ ys) ≡ names xs ++ names ys
  names-append [] ys = refl
  names-append (p ∷ xs) ys = rw (names-append xs ys)

  names-update :
      (properties : List (Property V)) (key : Name) (v : V)
      → names (update properties key v) ≡ names properties
  unfolding update
  names-update [] key v = refl
  names-update (p ∷ properties) key v = elim (Bool-cases (same p.name key)) [
    | inl b ↦ rw b
    | inr b ↦ rw b (ap (λ l. p.name ∷ l) (names-update properties key v))
  ]

  abbrev pub is_there : Option (Property V) → Bool
  is_there none = false
  is_there (some p) = true

  names-set_value_at :
      (properties : List (Property V)) (key : Name) (v : V) (found : Option (Property V))
      → get_property properties key ≡ found
      → names (set_value properties key v)
        ≡ (if is_there found then names properties else names properties ++ key ∷ [])
  unfolding set_value
  names-set_value_at properties key v none e =
      let p : Property V = record { name = key; value = some v } in
      let set : set_value properties key v ≡ properties ++ p ∷ [] = rw (set_value, e) in
      ap names set ∙ names-append properties (p ∷ [])
  names-set_value_at properties key v (some p) e =
      let set : set_value properties key v ≡ update properties key v = rw (set_value, e) in
      ap names set ∙ names-update properties key v

  -- Setting a value keeps the names and their order, and adds the name at the end exactly if no
  -- property is found under it.
  pub names-set_value :
      (properties : List (Property V)) (key : Name) (v : V)
      → names (set_value properties key v) ≡ (
          if is_there (get_property properties key)
          then names properties
          else names properties ++ key ∷ [])
  names-set_value properties key v =
      names-set_value_at properties key v (get_property properties key) refl
