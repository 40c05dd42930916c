-- ===== src/Object/Lookup.antt =====
-- rbusObject_GetProperty and the values, after rbusObject_SetProperty and after the setting of a
-- value.
use rbus.Base.{
  ◌≡◌, refl, ap, ◌∙◌, Bool, true, false, Option, none, some, List, [], ◌∷◌, ◌++◌, if◌then◌else◌,
  Bool-cases, inl, inr,
}
use rbus.Base.Names.{Name, same, eq_of_same, same-same}
use rbus.Object.{Property, get_property, set_property, get_value, set_value, update, value_of}

module _ {ℓ} {V : Type ℓ} where
  -- A different property in front does not matter.
  swap_lem :
      (p q : Property V) (name : Name) (rest : Option (Property V))
      → same q.name p.name ≡ false
      → (if same q.name name then some q else (if same p.name name then some p else rest))
        ≡ (if same p.name name then some p else (if same q.name name then some q else rest))
  swap_lem p q name rest h = elim (Bool-cases (same q.name name)) [
    | inl b ↦ elim (Bool-cases (same p.name name)) [
      | inl c ↦ absurd (let d = same-same q.name p.name name b c in cc)
      | inr c ↦ rw (b, c)
    ]
    | inr b ↦ rw b
  ]

  twice :
      (t : Bool) (p q : Property V) (rest : Option (Property V))
      → (if t then some p else rest) ≡ (if t then some p else (if t then some q else rest))
  twice true p q rest = refl
  twice false p q rest = refl

  get_property-append :
      (properties : List (Property V)) (p : Property V) (name : Name)
      → get_property properties p.name ≡ none
      → get_property (properties ++ p ∷ []) name
        ≡ (if same p.name name then some p else get_property properties name)
  unfolding get_property
  get_property-append [] p name h = refl
  get_property-append (q ∷ properties) p name h = elim (Bool-cases (same q.name p.name)) [
    | inl b ↦ absurd (let h' : some q ≡ none = rw b at h in cc)
    | inr b ↦
        let h' : get_property properties p.name ≡ none = rw b at h in
        rw (get_property-append properties p name h') (swap_lem p q name _ b)
  ]

  -- Setting a property of its own makes it the one found under its name, and leaves what is found
  -- under any other name.
  pub get_property-set_property :
      (properties : List (Property V)) (new : Property V) (name : Name)
      → get_property (set_property properties new []) name
        ≡ (if same new.name name then some new else get_property properties name)
  unfolding get_property set_property
  get_property-set_property [] new name = refl
  get_property-set_property (p ∷ properties) new name = elim (Bool-cases (same p.name new.name)) [
    | inl b ↦
        let k = ap (λ n. same n name) (eq_of_same p.name new.name b) in
        rw (b, k) (twice (same new.name name) new p _)
    | inr b ↦ rw (b, get_property-set_property properties new name) (swap_lem new p name _ b)
  ]

  value_of_twice :
      (t : Bool) (q p : Property V) (rest : Option (Property V))
      → value_of (if t then some q else rest)
        ≡ (if t then q.value else value_of (if t then some p else rest))
  unfolding value_of
  value_of_twice true q p rest = refl
  value_of_twice false q p rest = refl

  value_of_if :
      (t : Bool) (q : Property V) (rest : Option (Property V))
      → value_of (if t then some q else rest) ≡ (if t then q.value else value_of rest)
  unfolding value_of
  value_of_if true q rest = refl
  value_of_if false q rest = refl

  get_property-update :
      (properties : List (Property V)) (key : Name) (v : V) (name : Name) {p : Property V}
      → get_property properties key ≡ some p
      → value_of (get_property (update properties key v) name)
        ≡ (if same key name then some v else value_of (get_property properties name))
  unfolding get_property update value_of
  get_property-update [] key v name h = cc
  get_property-update (p ∷ properties) key v name h = elim (Bool-cases (same p.name key)) [
    | inl b ↦
        let k = ap (λ n. same n name) (eq_of_same p.name key b) in
        rw (b, k) (value_of_twice (same key name) _ p _)
    | inr b ↦
        let h' = rw b at h in
        let i = get_property-update properties key v name h' in
        elim (Bool-cases (same p.name name)) [
          | inl c ↦ elim (Bool-cases (same key name)) [
            | inl d ↦ absurd (let e = same-same p.name key name c d in cc)
            | inr d ↦ rw (b, c, d)
          ]
          | inr c ↦ rw (b, c) i
        ]
  ]

  get_value-set_value_at :
      (properties : List (Property V)) (key : Name) (v : V) (name : Name)
      (found : Option (Property V))
      → get_property properties key ≡ found
      → get_value (set_value properties key v) (some name)
        ≡ (if same key name then some v else get_value properties (some name))
  unfolding get_value set_value value_of
  get_value-set_value_at properties key v name none e =
      let p : Property V = record { name = key; value = some v } in
      let set : set_value properties key v ≡ properties ++ p ∷ [] = rw (set_value, e) in
      ap (λ l. value_of (get_property l name)) set
      ∙ ap value_of (get_property-append properties p name e)
      ∙ value_of_if (same key name) p (get_property properties name)
  get_value-set_value_at properties key v name (some p) e =
      let set : set_value properties key v ≡ update properties key v = rw (set_value, e) in
      ap (λ l. value_of (get_property l name)) set ∙ get_property-update properties key v name e

  -- Setting the value of a name makes it the one found under that name, whether or not there was a
  -- property of that name, and leaves the values of all other names.
  pub get_value-set_value :
      (properties : List (Property V)) (key : Name) (v : V) (name : Name)
      → get_value (set_value properties key v) (some name)
        ≡ (if same key name then some v else get_value properties (some name))
  get_value-set_value properties key v name =
      get_value-set_value_at properties key v name (get_property properties key) refl
