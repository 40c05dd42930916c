-- ===== src/HashMap/Changing.antt =====
-- Sound hash maps, and what growth, shrinking and the change of one bucket keep.
use rbus.Base.{
  ℕ, ◌+◌, ◌*◌, ◌/◌, ◌<◌, ◌≤◌, ◌≡◌, refl, true, false, ◌&&◌, List, [], if◌then◌else◌, length, ltb,
  ◌==◌, Bool-cases, inl, inr, arith,
}
use rbus.Base.Names.{Name, same, eq_of_same}
use rbus.HashMap.{HashMap, init_size, update_at, make_room, give_room, get}
use rbus.HashMap.Buckets.{
  values, values_at, front, find-values, values_at-update_at, length-update_at, bucket_at-values_at,
}
use rbus.HashMap.Resizing.{InRange, slot, Placed, resize_lem}

module _ {ℓ} {V : Type ℓ} (hash : ℕ → Name → ℕ) where
  -- There are buckets, every key is in its own one, and none is there twice.
  abbrev pub IsSound : HashMap V → Type ℓ
  IsSound m =
      (0 < length m.buckets)
      × Placed hash m.buckets
      × ((k : Name) → length (slot hash m.buckets k) ≤ 1)

  -- The same values for all keys.
  abbrev pub Agree : HashMap V → HashMap V → Type ℓ
  Agree m m' = (k : Name) → slot hash m'.buckets k ≡ slot hash m.buckets k

  pub get-slot :
      (m : HashMap V) (k : Name)
      → InRange hash
      → 0 < length m.buckets
      → get hash m k ≡ front (slot hash m.buckets k)
  unfolding get
  get-slot m k r n =
      let (b, e, h) =
        bucket_at-values_at m.buckets (hash (length m.buckets) k) (r (length m.buckets) k n) in
      rw (e, find-values b k, h k) refl

  pub make_room_lem :
      (m : HashMap V)
      → InRange hash
      → IsSound m
      → (0 < length (make_room hash m).buckets)
        × Placed hash (make_room hash m).buckets
        × Agree m (make_room hash m)
  unfolding make_room
  make_room_lem m r x = elim (Bool-cases (ltb (3 * length m.buckets) (4 * (m.size + 1)))) [
    | inl e ↦
        let (l, p, a) = resize_lem hash m true r (let x' = x.0 in omega arith) x.1 in
        let x' = x.0 in rw e (rw l (omega arith), p, a)
    | inr e ↦ rw e (x.0, x.1, λ k. refl)
  ]

  pub give_room-IsSound :
      (m : HashMap V)
      → InRange hash
      → IsSound m
      → IsSound (give_room hash m) × Agree m (give_room hash m)
  unfolding give_room
  give_room-IsSound m r x =
      elim (Bool-cases
        (ltb init_size (length m.buckets) && ltb (2 * (m.size / length m.buckets)) 3)) [
          | inl e ↦
              let l' : 16 < length m.buckets = ground (arith, e) in
              let (l, p, a) = resize_lem hash m false r (omega arith) x.1 in
              rw e ((rw l (omega arith), p, λ k. rw (a k) (x.2 k)), a)
          | inr e ↦ rw e (x, λ k. refl)
        ]

  -- An operation on the nodes of one bucket, which only concerns the values of a key.
  module _ (bs : List (List (Name × V))) (k : Name) (f : List (Name × V) → List (Name × V))
      (g : List V → List V)
      (h : (b : List (Name × V)) (k' : Name)
        → values (f b) k' ≡ (if same k k' then g (values b k') else values b k'))
      (r : InRange hash) (n : 0 < length bs) where
    slot-changed :
        (i : ℕ) (k' : Name)
        → values_at (update_at bs (hash (length bs) k) f) i k' ≡ (
            if hash (length bs) k == i
            then (if same k k' then g (values_at bs i k') else values_at bs i k')
            else values_at bs i k')
    slot-changed i k' =
        values_at-update_at bs (hash (length bs) k) f i k' (λ vs. if same k k' then g vs else vs)
          (λ b. h b k') (r (length bs) k n)

    pub slot-update_at :
        (k' : Name)
        → slot hash (update_at bs (hash (length bs) k) f) k'
          ≡ (if same k k' then g (slot hash bs k') else slot hash bs k')
    slot-update_at k' =
        rw (length-update_at bs (hash (length bs) k) f, slot-changed (hash (length bs) k') k')
          (elim (Bool-cases (same k k')) [
            | inl e ↦
                let d = eq_of_same k k' e in
                let t : (hash (length bs) k == hash (length bs) k') ≡ true = rw d (ground arith) in
                rw (e, t) refl
            | inr e ↦ rw e (elim (Bool-cases (hash (length bs) k == hash (length bs) k')) [
              | inl t ↦ rw t refl
              | inr t ↦ rw t refl
            ])
          ])

    pub update_at-Placed :
        g [] ≡ [] → Placed hash bs → Placed hash (update_at bs (hash (length bs) k) f)
    update_at-Placed z p i k' d =
        let d' : (hash (length bs) k' == i) ≡ false =
          rw (length-update_at bs (hash (length bs) k) f) at d in
        rw (slot-changed i k', p i k' d')
          (elim (Bool-cases (hash (length bs) k == i)) [
            | inl e ↦
                rw e (elim (Bool-cases (same k k')) [ inl t ↦ rw (t, z) refl | inr t ↦ rw t refl ])
            | inr e ↦ rw e refl
          ])
