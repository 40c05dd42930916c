-- ===== src/HashMap/Mapping.antt =====
-- A hash map as a map from keys to values.
use rbus.Base.{
  ℕ, ◌-◌, ◌<◌, ◌≤◌, ◌≡◌, refl, sym, ◌∙◌, Bool, true, false, Option, none, some, List, [], ◌∷◌,
  append-nil, if◌then◌else◌, length, Bool-cases, Option-cases, inl, inr, arith,
}
use rbus.Base.Names.{Name, same, eq_of_same}
use rbus.HashMap.{
  HashMap, create, init_size, update_at, overwrite, remove_first, empty_buckets, push, make_room,
  find, set_in, set, get, remove_in, remove,
}
use rbus.HashMap.Buckets.{
  values, front, tail, replaced, find-values, values-overwrite, values-remove_first,
  length-update_at, bucket_at-values_at, length-empty_buckets, values_at-empty_buckets,
}
use rbus.HashMap.Changing.{
  IsSound, get-slot, make_room_lem, give_room-IsSound, slot-update_at, update_at-Placed,
}
use rbus.HashMap.Resizing.{InRange, slot, push-Placed, length-push, slot-push}

abbrev pub has_value {ℓ} : {A : Type ℓ} → Option A → Bool
has_value none = false
has_value (some v) = true

module _ {ℓ} {V : Type ℓ} (hash : ℕ → Name → ℕ) where
  length-replaced : (v : V) (vs : List V) → length (replaced v vs) ≡ length vs
  length-replaced v [] = refl
  length-replaced v (w ∷ ws) = refl

  front-replaced : (v old : V) (vs : List V) → front vs ≡ some old → front (replaced v vs) ≡ some v
  front-replaced v old [] h = cc
  front-replaced v old (w ∷ ws) h = refl

  -- What rtHashMap_Set does to a sound map.
  abbrev pub Sets : HashMap V → Name → V → HashMap V → Type ℓ
  Sets m k v m' =
      IsSound hash m'
      × ((k' : Name) → get hash m' k' ≡ (if same k k' then some v else get hash m k'))

  overwrites :
      (m : HashMap V) (k : Name) (v old : V)
      → InRange hash
      → IsSound hash m
      → front (slot hash m.buckets k) ≡ some old
      → Sets m k v (set_in hash m k v (some old))
  unfolding set_in
  overwrites m k v old r x e =
      let s =
        slot-update_at hash m.buckets k (λ b. overwrite b k v) (replaced v)
          (λ b. values-overwrite b k v) r x.0 in
      let p =
        update_at-Placed hash m.buckets k (λ b. overwrite b k v) (replaced v)
          (λ b. values-overwrite b k v) r x.0 refl x.1 in
      let n : 0 < length (update_at m.buckets (hash (length m.buckets) k) (λ b. overwrite b k v)) =
        rw (length-update_at m.buckets (hash (length m.buckets) k) (λ b. overwrite b k v)) x.0 in
      (
        (
          n,
          p,
          λ k'. rw (s k') (elim (Bool-cases (same k k')) [
            | inl t ↦ rw (t, length-replaced v (slot hash m.buckets k')) (x.2 k')
            | inr t ↦ rw t (x.2 k')
          ]),
        ),
        λ k'.
            rw (get-slot hash (set_in hash m k v (some old)) k' r n, s k', get-slot hash m k' r x.0)
              (elim (Bool-cases (same k k')) [
                | inl t ↦
                    let d = eq_of_same k k' t in
                    let e' = rw d at e in rw t (front-replaced v old (slot hash m.buckets k') e')
                | inr t ↦ rw t refl
              ]),
      )

  adds :
      (m : HashMap V) (k : Name) (v : V)
      → InRange hash
      → IsSound hash m
      → front (slot hash m.buckets k) ≡ none
      → Sets m k v (set_in hash m k v none)
  unfolding set_in values
  adds m k v r x e =
      let (n, p, a) = make_room_lem hash m r x in
      let m' = make_room hash m in
      let s = λ (k' : Name). slot-push hash m'.buckets k v k' r n in
      let n' : 0 < length (push hash m'.buckets (k, v)) =
        rw (length-push hash m'.buckets (k, v)) n in
      let z = front-nil (slot hash m.buckets k) e in
      (
        (
          n',
          push-Placed hash m'.buckets k v r n p,
          λ k'.
              rw (s k', a k')
                (elim (Bool-cases (same k k')) [
                  | inl t ↦
                      let d = eq_of_same k k' t in let z' = rw d at z in rw (t, z') (omega arith)
                  | inr t ↦ rw (t, append-nil (slot hash m.buckets k')) (x.2 k')
                ]),
        ),
        λ k'.
            rw
              (get-slot hash (set_in hash m k v none) k' r n', s k', a k', get-slot hash m k' r x.0)
              (elim (Bool-cases (same k k')) [
                | inl t ↦ let d = eq_of_same k k' t in let z' = rw d at z in rw (t, z') refl
                | inr t ↦ rw (t, append-nil (slot hash m.buckets k')) refl
              ]),
      )
    where
      front-nil : (vs : List V) → front vs ≡ none → vs ≡ []
      front-nil [] h = refl
      front-nil (v ∷ vs) h = cc

  -- Where the hash is in range and the map is sound (it has buckets, every key is in the bucket of its
  -- hash, and none is there twice), setting a value succeeds and leaves a sound map in which the key
  -- has the value and every other key the value that it had, whether the map grows or not.
  pub set-IsSound :
      (m : HashMap V) (k : Name) (v : V)
      → InRange hash
      → IsSound hash m
      → (m' : HashMap V) × (set hash m k v ≡ some m') × Sets m k v m'
  unfolding set
  set-IsSound m k v r x =
      let (b, e, h) =
        bucket_at-values_at m.buckets (hash (length m.buckets) k) (r (length m.buckets) k x.0) in
      let f : front (slot hash m.buckets k) ≡ find b k = rw (← h k) (sym (find-values b k)) in
      elim (Option-cases (find b k)) [
        | inl o ↦ (set_in hash m k v none, rw (e, o) refl, adds m k v r x (f ∙ o))
        | inr (old, o) ↦
            (set_in hash m k v (some old), rw (e, o) refl, overwrites m k v old r x (f ∙ o))
      ]

  -- What rtHashMap_Remove does to a sound map.
  abbrev pub Removes : HashMap V → Name → HashMap V → Type ℓ
  Removes m k m' =
      IsSound hash m' × ((k' : Name) → get hash m' k' ≡ (if same k k' then none else get hash m k'))

  removed :
      (m : HashMap V) (k : Name) (old : V)
      → InRange hash
      → IsSound hash m
      → Removes m k (remove_in hash m k (some old)).1
  unfolding remove_in
  removed m k old r x =
      let s =
        slot-update_at hash m.buckets k (λ b. remove_first b k) tail (λ b. values-remove_first b k)
          r x.0 in
      let p =
        update_at-Placed hash m.buckets k (λ b. remove_first b k) tail
          (λ b. values-remove_first b k) r x.0 refl x.1 in
      let bs = update_at m.buckets (hash (length m.buckets) k) (λ b. remove_first b k) in
      let n : 0 < length bs =
        rw (length-update_at m.buckets (hash (length m.buckets) k) (λ b. remove_first b k)) x.0 in
      let u : (k' : Name) → length (slot hash bs k') ≤ 1 = λ k'.
        rw (s k') (elim (Bool-cases (same k k')) [
          | inl t ↦ rw t (length-tail (slot hash m.buckets k') (x.2 k'))
          | inr t ↦ rw t (x.2 k')
        ]) in
      let y = give_room-IsSound hash (record { buckets = bs; size = m.size - 1 }) r (n, p, u) in
      (
        y.0,
        λ k'.
            rw
              (
                get-slot hash (remove_in hash m k (some old)).1 k' r y.0.0,
                y.1 k',
                s k',
                get-slot hash m k' r x.0,
              )
              (elim (Bool-cases (same k k')) [
                | inl t ↦ rw t (front-tail (slot hash m.buckets k') (x.2 k'))
                | inr t ↦ rw t refl
              ]),
      )
    where
      front-tail : (vs : List V) → length vs ≤ 1 → front (tail vs) ≡ none
      front-tail [] h = refl
      front-tail (v ∷ []) h = refl
      front-tail (v ∷ w ∷ vs) h = absurd (omega arith)

      length-tail : (vs : List V) → length vs ≤ 1 → length (tail vs) ≤ 1
      length-tail [] h = h
      length-tail (v ∷ vs) h = omega arith

  -- Where the hash is in range and the map is sound (it has buckets, every key is in the bucket of its
  -- hash, and none is there twice), removing a key succeeds, says whether the key had a value, and
  -- leaves a sound map in which the key has none and every other key the value that it had, whether
  -- the map shrinks or not.
  pub remove-IsSound :
      (m : HashMap V) (k : Name)
      → InRange hash
      → IsSound hash m
      → (m' : HashMap V) × (remove hash m k ≡ some (has_value (get hash m k), m')) × Removes m k m'
  unfolding remove remove_in
  remove-IsSound m k r x =
      let (b, e, h) =
        bucket_at-values_at m.buckets (hash (length m.buckets) k) (r (length m.buckets) k x.0) in
      let g : get hash m k ≡ find b k =
        get-slot hash m k r x.0 ∙ rw (← h k) (sym (find-values b k)) in
      let none_left : get hash m k ≡ none
          → (k' : Name) → get hash m k' ≡ (if same k k' then none else get hash m k') =
        λ q k'. elim (Bool-cases (same k k')) [
          | inl t ↦ let d = eq_of_same k k' t in let q' = rw d at q in rw (t, q') refl
          | inr t ↦ rw t refl
        ] in
      elim (Option-cases (find b k)) [
        | inl o ↦ (m, rw (e, o, g ∙ o) refl, (x, none_left (g ∙ o)))
        | inr (old, o) ↦
            ((remove_in hash m k (some old)).1, rw (e, o, g ∙ o) refl, removed m k old r x)
      ]

  -- The new map is sound, and has no value for any key, where the hash is in range.
  pub create-IsSound :
      InRange hash
      → IsSound hash (create {V = V}) × ((k : Name) → get hash (create {V = V}) k ≡ none)
  create-IsSound r =
      let l = length-empty_buckets V init_size in
      let n : 0 < length (empty_buckets {V = V} init_size) = rw l (omega arith) in
      let z = λ (i : ℕ) (k : Name). values_at-empty_buckets {V = V} init_size i k in
      (
        (
          n,
          (λ i k h. z i k),
          λ k. rw (z (hash (length (empty_buckets {V = V} init_size)) k) k) (omega arith),
        ),
        λ k.
            get-slot hash create k r n
            ∙ (rw (z (hash (length (empty_buckets {V = V} init_size)) k) k) refl),
      )
