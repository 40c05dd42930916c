-- ===== src/Vector/Removal.antt =====
-- rtVector_RemoveItem and rtVector_Find against the list of items.
use rbus.Base.{
  ℕ, suc, ◌+◌, ◌-◌, ◌<◌, ◌≡◌, refl, ap, ◌∙◌, Bool, true, false, Option, none, some, List, [], ◌∷◌,
  ◌++◌, length, take, drop, replicate, if◌then◌else◌, ◌>>=◌, append_assoc, length-append,
  length-replicate, arith, Bool-cases, inl, inr,
}
use rbus.Error.{ok, failed}
use rbus.Vector.{
  Vector, find_index, shift_down, remove_item, remove_items, remove_at, find, find_items, find_slot,
}
use rbus.Vector.Contents.{slots_of, Filled, Contains, unallocated, filled}

module _ {ℓ} {A : Type ℓ} where
  abbrev pub any : (A → Bool) → List A → Bool
  any found [] = false
  any found (x ∷ xs) = if found x then true else any found xs

  abbrev pub remove_first : (A → Bool) → List A → List A
  remove_first found [] = []
  remove_first found (x ∷ xs) = if found x then xs else x ∷ remove_first found xs

  -- The search: none of the items, or the first one that is found.
  data Search (found : A → Bool) (xs : List A) : Type ℓ where
    missing :
        any found xs ≡ false
        → remove_first found xs ≡ xs
        → ((i : ℕ) (tail : List (Option A))
            → find_index found i (length xs) (slots_of xs ++ tail) ≡ some none)
        → Search found xs
    hit :
        (pre post : List A) (a : A)
        → xs ≡ pre ++ a ∷ post
        → any found xs ≡ true
        → remove_first found xs ≡ pre ++ post
        → ((i : ℕ) (tail : List (Option A))
            → find_index found i (length xs) (slots_of xs ++ tail) ≡ some (some (i + length pre)))
        → Search found xs

  search_lem : (found : A → Bool) (xs : List A) → Search found xs
  unfolding find_index
  search_lem found [] = missing refl refl (λ i tail. refl)
  search_lem found (x ∷ xs) = elim (Bool-cases (found x)) [
    | inl f ↦
        hit [] xs x refl (rw f) (rw f) (λ i tail. rw f (ap (λ k. some (some k)) (omega arith)))
    | inr f ↦ elim (search_lem found xs) [
      | missing n r s ↦
          missing (rw f n) (rw f (ap (λ l. x ∷ l) r)) (λ i tail. rw f (s (i + 1) tail))
      | hit pre post a e y r s ↦
          hit (x ∷ pre) post a (ap (λ l. x ∷ l) e) (rw f y) (rw f (ap (λ l. x ∷ l) r))
            (λ i tail. rw f (s (i + 1) tail ∙ ap (λ k. some (some k)) (omega arith)))
    ]
  ]

  take_before :
      (pre ys : List A) (tail : List (Option A))
      → take (length pre) (slots_of (pre ++ ys) ++ tail) ≡ slots_of pre
  take_before [] ys tail = refl
  take_before (x ∷ pre) ys tail = rw (take_before pre ys tail)

  drop_before :
      (pre ys : List A) (tail : List (Option A))
      → drop (length pre) (slots_of (pre ++ ys) ++ tail) ≡ slots_of ys ++ tail
  drop_before [] ys tail = refl
  drop_before (x ∷ pre) ys tail = drop_before pre ys tail

  take_kept :
      (pre post : List A) (t : Option A) (tail : List (Option A))
      → take (suc (length pre + length post)) (slots_of pre ++ (slots_of post ++ t ∷ tail))
        ≡ slots_of (pre ++ post) ++ t ∷ []
  take_kept [] [] t tail = refl
  take_kept [] (p ∷ post) t tail =
      let e : length {A = A} [] + suc (length post) ≡ suc (length {A = A} [] + length post) =
        omega arith in
      rw (e, take_kept [] post t tail)
  take_kept (x ∷ pre) post t tail =
      let e : suc (length pre) + length post ≡ suc (length pre + length post) = omega arith in
      rw (e, take_kept pre post t tail)

  shift_down_lem :
      (x : Option A) (post : List A) (t : Option A) (rest : List (Option A))
      → shift_down (suc (length post)) (x ∷ (slots_of post ++ t ∷ rest))
        ≡ some (slots_of post ++ t ∷ t ∷ rest)
  unfolding shift_down
  shift_down_lem x [] t rest = refl
  shift_down_lem x (p ∷ post) t rest = rw (shift_down_lem (some p) post t rest)

  remove_at_lem :
      (v : Vector A) (pre post : List A) (a : A) (t : Option A) (rest : List (Option A))
      → v.count ≡ length pre + suc (length post)
      → v.capacity ≡ v.count + suc (length rest)
      → (v' : Vector A) × (remove_at v (slots_of (pre ++ a ∷ post) ++ t ∷ rest) (some (length pre))
          ≡ some (ok, v'))
        × Filled v' (pre ++ post)
  unfolding remove_at
  remove_at_lem v pre post a t rest c s =
      let n : v.count - length pre ≡ suc (length post) = omega arith in
      let k : length pre + suc (length post) ≡ suc (length pre + length post) = omega arith in
      let unset = replicate (v.capacity - v.count) none in
      (
        record v {
          items = some ((slots_of (pre ++ post) ++ t ∷ []) ++ unset);
          count = v.count - 1;
        },
        rw (
          n,
          drop_before pre (a ∷ post) (t ∷ rest),
          shift_down_lem (some a) post t rest,
          take_before pre (a ∷ post) (t ∷ rest),
          c,
          k,
          take_kept pre post t (t ∷ rest),
        ),
        record {
          tail = t ∷ unset;
          items_lem = ap some (append_assoc (slots_of (pre ++ post)) (t ∷ []) unset);
          counted = omega (arith, length-append pre post);
          sized = omega (
            arith,
            length-append pre post,
            length-replicate {A = Option A} (v.capacity - v.count) none,
          );
          room = omega arith;
        },
      )

  remove_item_at :
      (found : A → Bool) (v : Vector A) (slots : List (Option A)) (i : Option ℕ)
      → v.items ≡ some slots
      → find_index found 0 v.count slots ≡ some i
      → remove_item found v ≡ remove_at v slots i
  unfolding remove_item remove_items
  remove_item_at found v slots i e h =
      ap (remove_items found v) e ∙ ap (λ o. o >>= λ i. remove_at v slots i) h

  hit_lem :
      (v : Vector A) (pre post : List A) (a : A) (tail : List (Option A))
      → v.count ≡ length (pre ++ a ∷ post)
      → v.capacity ≡ length (pre ++ a ∷ post) + length tail
      → 0 < length tail
      → (v' : Vector A) × (remove_at v (slots_of (pre ++ a ∷ post) ++ tail) (some (0 + length pre))
          ≡ some (ok, v'))
        × Filled v' (pre ++ post)
  hit_lem v pre post a [] c s r = absurd (omega arith)
  hit_lem v pre post a (t ∷ rest) c s r =
      let n : 0 + length pre ≡ length pre = omega arith in
      let h = length-append pre (a ∷ post) in
      rw n (remove_at_lem v pre post a t rest (omega (arith, h)) (omega arith))

  -- Removal from a vector that holds a list of items takes out the first that is found, keeps the order of the others, and fails
  -- exactly if there is none: it never reads or writes outside the array.
  pub remove_item-Contains :
      (found : A → Bool) (v : Vector A) (xs : List A)
      → Contains v xs
      → (v' : Vector A) × (remove_item found v ≡ some ((if any found xs then ok else failed), v'))
        × Contains v' (remove_first found xs)
  unfolding remove_item remove_items remove_at
  remove_item-Contains found v xs (unallocated e n) = (v, rw (e, n), rw n (unallocated e refl))
  remove_item-Contains found v xs (filled f) = elim (search_lem found xs) [
    | missing n r s ↦
        let look = ap (λ k. find_index found 0 k (slots_of xs ++ f.tail)) f.counted ∙ s 0 f.tail in
        (v, rw n (remove_item_at found v _ none f.items_lem look), rw r (filled f))
    | hit pre post a e y r s ↦
        let (v', q, g) =
          hit_lem v pre post a f.tail (f.counted ∙ ap length e)
            (f.sized ∙ ap (λ l. length l + length f.tail) e) f.room in
        let look = ap (λ k. find_index found 0 k (slots_of xs ++ f.tail)) f.counted ∙ s 0 f.tail in
        let slots = ap (λ l. slots_of l ++ f.tail) e in
        (
          v',
          rw y (
              remove_item_at found v _ (some (0 + length pre)) f.items_lem look
              ∙ ap (λ l. remove_at v l (some (0 + length pre))) slots
              ∙ q),
          rw r (filled g),
        )
  ]

  abbrev pub first : (A → Bool) → List A → Option A
  first found [] = none
  first found (x ∷ xs) = if found x then some x else first found xs

  find_slot_lem :
      (found : A → Bool) (xs : List A) (tail : List (Option A))
      → find_slot found (length xs) (slots_of xs ++ tail) ≡ some (first found xs)
  unfolding find_slot
  find_slot_lem found [] tail = refl
  find_slot_lem found (x ∷ xs) tail = elim (Bool-cases (found x)) [
    | inl f ↦ rw f
    | inr f ↦ rw f (find_slot_lem found xs tail)
  ]

  -- The search of a vector that holds a list of items gives the first that is found, and NULL exactly if there is none.
  pub find-Contains :
      (found : A → Bool) (v : Vector A) (xs : List A)
      → Contains v xs
      → find found v ≡ some (first found xs)
  unfolding find find_items
  find-Contains found v xs (unallocated e n) = rw (e, n)
  find-Contains found v xs (filled f) =
      ap (find_items found v) f.items_lem
      ∙ ap (λ k. find_slot found k (slots_of xs ++ f.tail)) f.counted
      ∙ find_slot_lem found xs f.tail
