-- ===== src/Subscriptions/Wildcards.antt =====
-- The names of elements that the name of an event stands for.
use mathlib.Core.Path.{subst}
use rbus.Base.{
  ℕ, ◌≡◌, ◌↔◌, refl, sym, true, false, Option, none, some, [], ◌∷◌, ◌==◌, Bool-cases, inl, inr,
  arith,
}
use rbus.Base.Names.{Name}
use rbus.Subscriptions.{skip_row, compare_event_name_to_elem_name}

-- The names are the same but for asterisks in the name of the event, which stand for "{i}".
pub data Matches : Name → Name → Type 0 where
  matched : Matches [] []
  character : (c : ℕ) {event elem : Name} → Matches event elem → Matches (c ∷ event) (c ∷ elem)
  wildcard :
      {event elem : Name} → Matches event elem → Matches (42 ∷ event) (123 ∷ 105 ∷ 125 ∷ elem)

-- A row that is skipped is written "{i}".
skip_row-some : (l elem : Name) → skip_row l ≡ some elem → l ≡ 123 ∷ 105 ∷ 125 ∷ elem
skip_row-some [] elem e = cc
skip_row-some (a ∷ []) elem e = cc
skip_row-some (a ∷ b ∷ []) elem e = cc
skip_row-some (a ∷ b ∷ c ∷ l) elem e = ground arith

-- An asterisk in front of a row.
behind_row :
    (event l : Name) (o : Option Name)
    → skip_row l ≡ o
    → ((elem : Name) → compare_event_name_to_elem_name event elem ≡ true → Matches event elem)
    → elim o [ none ↦ false | some elem ↦ compare_event_name_to_elem_name event elem ] ≡ true
    → Matches (42 ∷ event) l
behind_row event l none e ih k = cc
behind_row event l (some elem) e ih k =
    subst (λ (x : Name). Matches (42 ∷ event) x) (sym (skip_row-some l elem e))
      (wildcard (ih elem k))

compare_sound :
    (event elem : Name) → compare_event_name_to_elem_name event elem ≡ true → Matches event elem
unfolding compare_event_name_to_elem_name
compare_sound [] [] h = matched
compare_sound [] (d ∷ elem) h = cc
compare_sound (c ∷ event) [] h = cc
compare_sound (c ∷ event) (d ∷ elem) h = elim (Bool-cases (c == d)) [
  | inl t ↦
      let e : c ≡ d = ground arith in
      subst (λ (x : ℕ). Matches (c ∷ event) (x ∷ elem)) e
        (character c (compare_sound event elem (rw t at h)))
  | inr t ↦ elim (Bool-cases (c == 42)) [
    | inl t' ↦
        let e : 42 ≡ c = ground arith in
        subst (λ (x : ℕ). Matches (x ∷ event) (d ∷ elem)) e
          (behind_row event (d ∷ elem) (skip_row (d ∷ elem)) refl (λ x. compare_sound event x)
            (rw (t, t') at h))
    | inr t' ↦ let h' = rw (t, t') at h in cc
  ]
]

compare_complete :
    {event elem : Name} → Matches event elem → compare_event_name_to_elem_name event elem ≡ true
unfolding compare_event_name_to_elem_name
compare_complete matched = refl
compare_complete (character c m) =
    let t : (c == c) ≡ true = ground arith in rw t (compare_complete m)
compare_complete (wildcard m) = compare_complete m

-- The names of an event and of an element are taken as the same exactly if they are, but for asterisks
-- in the name of the event in place of "{i}" in the name of the element.
pub compare_event_name_to_elem_name-Matches :
    (event elem : Name) → (compare_event_name_to_elem_name event elem ≡ true) ↔ Matches event elem
compare_event_name_to_elem_name-Matches event elem = (compare_sound event elem, compare_complete)
