-- ===== src/Vector/Contents.antt =====
-- A vector as the list of its items, while allocations succeed.
use rbus.Base.{
  ℕ, zero, suc, ◌+◌, ◌≤◌, ◌<◌, ◌≡◌, refl, ap, sym, true, false, Option, none, some, List, [], ◌∷◌,
  ◌++◌, length, set, replicate, ltb, leb, append_assoc, length-append, arith, Bool-cases, inl, inr,
}
use rbus.Error.{ok}
use rbus.Vector.{
  Vector, create, grow, grow_items, push_back, store, at, item_at, slot_at, allocated, resized,
}

module _ {ℓ} {A : Type ℓ} where
  abbrev pub slots_of : List A → List (Option A)
  slots_of [] = []
  slots_of (a ∷ as') = some a ∷ slots_of as'

  -- An array with room for one more item than it holds.
  pub record Filled (v : Vector A) (xs : List A) : Type ℓ where
    pub tail : List (Option A)
    pub items_lem : v.items ≡ some (slots_of xs ++ tail)
    pub counted : v.count ≡ length xs
    pub sized : v.capacity ≡ length xs + length tail
    pub room : 0 < length tail

  pub data Contains (v : Vector A) (xs : List A) : Type ℓ where
    unallocated : v ≡ create → xs ≡ [] → Contains v xs
    filled : Filled v xs → Contains v xs

  pub length-slots_of : (xs : List A) → length (slots_of xs) ≡ length xs
  length-slots_of [] = refl
  length-slots_of (x ∷ xs) = ap suc (length-slots_of xs)

  set-slots_of :
      (xs : List A) (t : Option A) (tail : List (Option A)) (a : A)
      → set (slots_of xs ++ t ∷ tail) (length xs) (some a) ≡ slots_of (xs ++ a ∷ []) ++ tail
  set-slots_of [] t tail a = refl
  set-slots_of (x ∷ xs) t tail a = rw (set-slots_of xs t tail a)

  store_lem :
      (v : Vector A) (xs : List A) (t : Option A) (tail : List (Option A)) (a : A)
      → v.items ≡ some (slots_of xs ++ t ∷ tail)
      → v.count ≡ length xs
      → v.capacity ≡ length xs + suc (length tail)
      → 0 < length tail
      → (v' : Vector A) × (store v a v.items ≡ some (ok, v')) × Filled v' (xs ++ a ∷ [])
  unfolding store
  store_lem v xs t tail a e c s r =
      let inside : ltb v.count (length (slots_of xs ++ t ∷ tail)) ≡ true =
        ground (arith, length-append (slots_of xs) (t ∷ tail), length-slots_of xs) in
      (
        record v { items = some (slots_of (xs ++ a ∷ []) ++ tail); count = v.count + 1 },
        rw (e, inside, c, set-slots_of xs t tail a),
        record {
          tail = tail;
          items_lem = refl;
          counted = omega (arith, length-append xs (a ∷ []));
          sized = omega (arith, length-append xs (a ∷ []));
          room = r;
        },
      )

  -- Two free slots at least.
  abbrev Roomy : Vector A → List A → Type ℓ
  Roomy g xs =
      (t : Option A) × (tail : List (Option A)) × (g.items ≡ some (slots_of xs ++ t ∷ tail))
      × (g.count ≡ length xs)
      × (g.capacity ≡ length xs + suc (length tail))
      × (0 < length tail)

  grown_at :
      (v : Vector A) (xs : List A) (tail : List (Option A))
      → v.items ≡ some (slots_of xs ++ tail)
      → v.count ≡ length xs
      → v.capacity ≡ length xs + length tail
      → 0 < length tail
      → Roomy (grow true v) xs
  unfolding grow grow_items resized
  grown_at v xs [] e c s r = absurd (omega arith)
  grown_at v xs (t ∷ []) e c s r =
      let full : leb v.capacity (v.count + 1) ≡ true = ground arith in
      (
        t,
        replicate 16 none,
        rw (e, full, append_assoc (slots_of xs) (t ∷ []) (replicate 16 none)),
        rw (e, full) c,
        rw (e, full) (omega arith),
        omega arith,
      )
  grown_at v xs (t ∷ u ∷ tail) e c s r =
      let wide : leb v.capacity (v.count + 1) ≡ false = ground arith in
      (t, u ∷ tail, rw (e, wide), rw (e, wide) c, rw (e, wide) s, omega arith)

  grown_lem : (v : Vector A) (xs : List A) → Contains v xs → Roomy (grow true v) xs
  unfolding grow grow_items allocated resized
  grown_lem v xs (unallocated e n) =
      (none, replicate 15 none, rw (e, n), rw (e, n), rw (e, n), omega arith)
  grown_lem v xs (filled f) = grown_at v xs f.tail f.items_lem f.counted f.sized f.room

  -- Where its allocation succeeds, pushing an item to a vector that holds a list of items succeeds
  -- without any access outside the array, and appends the item.
  pub push_back-Contains :
      (v : Vector A) (xs : List A) (a : A)
      → Contains v xs
      → (v' : Vector A) × (push_back true v a ≡ some (ok, v')) × Contains v' (xs ++ a ∷ [])
  unfolding push_back
  push_back-Contains v xs a c =
      let (t, tail, e, n, s, r) = grown_lem v xs c in
      let (v', p, f) = store_lem (grow true v) xs t tail a e n s r in (v', p, filled f)

  abbrev pub item_of : List A → ℕ → Option A
  item_of [] i = none
  item_of (x ∷ xs) zero = some x
  item_of (x ∷ xs) (suc i) = item_of xs i

  slot_at-slots_of :
      (xs : List A) (tail : List (Option A)) (i : ℕ)
      → i < length xs
      → slot_at (slots_of xs ++ tail) i ≡ some (item_of xs i)
  unfolding slot_at
  slot_at-slots_of [] tail i h = absurd (omega arith)
  slot_at-slots_of (x ∷ xs) tail zero h = refl
  slot_at-slots_of (x ∷ xs) tail (suc i) h = slot_at-slots_of xs tail i (omega arith)

  item_of_beyond : (xs : List A) (i : ℕ) → length xs ≤ i → item_of xs i ≡ none
  item_of_beyond [] i h = refl
  item_of_beyond (x ∷ xs) zero h = absurd (omega arith)
  item_of_beyond (x ∷ xs) (suc i) h = item_of_beyond xs i (omega arith)

  -- Of a vector that holds a list of items, the item at an index is that of the list, and NULL at any index that is not below the size:
  -- the array is never read outside the items.
  pub at-Contains :
      (v : Vector A) (xs : List A) (i : ℕ) → Contains v xs → at v i ≡ some (item_of xs i)
  unfolding at item_at
  at-Contains v xs i (unallocated e n) = ground (arith, e, n)
  at-Contains v xs i (filled f) = elim (Bool-cases (leb v.count i)) [
    | inl beyond ↦ rw beyond (ap some (sym (item_of_beyond xs i (ground (arith, f.counted)))))
    | inr inside ↦
        rw (inside, f.items_lem) (slot_at-slots_of xs f.tail i (ground (arith, f.counted)))
  ]
