-- ===== src/HashMap/Buckets.antt =====
-- The values that the buckets of a hash map have for a key, in the order of the nodes.
use rbus.Base.{
  ℕ, zero, suc, ◌<◌, ◌≡◌, refl, true, false, Option, none, some, List, [], ◌∷◌, ◌++◌, append-nil,
  if◌then◌else◌, length, ◌==◌, Bool-cases, inl, inr, arith,
}
use rbus.Base.Names.{Name, same, eq_of_same}
use rbus.HashMap.{bucket_at, update_at, find, overwrite, remove_first, empty_buckets}

other_key : (k₀ k k' : Name) → same k₀ k ≡ false → same k k' ≡ true → same k₀ k' ≡ false
other_key k₀ k k' n h = let e = eq_of_same k k' h in rw e at n

pub length-empty_buckets {ℓ} : (V : Type ℓ) (n : ℕ) → length (empty_buckets {V = V} n) ≡ n
unfolding empty_buckets
length-empty_buckets V zero = refl
length-empty_buckets V (suc n) = rw (length-empty_buckets V n) (omega arith)

module _ {ℓ} {V : Type ℓ} where
  unfoldable pub values : List (Name × V) → Name → List V
  values [] k = []
  values ((k', v) ∷ es) k = let rest = values es k in if same k' k then v ∷ rest else rest

  abbrev pub front : List V → Option V
  front [] = none
  front (v ∷ vs) = some v

  abbrev pub tail : List V → List V
  tail [] = []
  tail (v ∷ vs) = vs

  abbrev pub replaced : V → List V → List V
  replaced v [] = []
  replaced v (w ∷ ws) = v ∷ ws

  -- The values in the bucket of an index.
  unfoldable pub values_at : List (List (Name × V)) → ℕ → Name → List V
  values_at [] i k = []
  values_at (b ∷ bs) zero k = values b k
  values_at (b ∷ bs) (suc i) k = values_at bs i k

  unfoldable pub all_values : List (List (Name × V)) → Name → List V
  all_values [] k = []
  all_values (b ∷ bs) k = values b k ++ all_values bs k

  pub find-values : (b : List (Name × V)) (k : Name) → find b k ≡ front (values b k)
  unfolding find values
  find-values [] k = refl
  find-values ((k', v) ∷ es) k = elim (Bool-cases (same k' k)) [
    | inl e ↦ rw e refl
    | inr e ↦ rw e (find-values es k)
  ]

  pub values-append :
      (a b : List (Name × V)) (k : Name) → values (a ++ b) k ≡ values a k ++ values b k
  unfolding values
  values-append [] b k = refl
  values-append ((k', v) ∷ a) b k = elim (Bool-cases (same k' k)) [
    | inl e ↦ rw (e, values-append a b k) refl
    | inr e ↦ rw (e, values-append a b k) refl
  ]

  pub values-overwrite :
      (b : List (Name × V)) (k : Name) (v : V) (k' : Name)
      → values (overwrite b k v) k' ≡ (if same k k' then replaced v (values b k') else values b k')
  unfolding values overwrite
  values-overwrite [] k v k' = elim (Bool-cases (same k k')) [
    | inl e ↦ rw e refl
    | inr e ↦ rw e refl
  ]
  values-overwrite ((k₀, v₀) ∷ es) k v k' = elim (Bool-cases (same k₀ k)) [
    | inl e ↦
        let d = eq_of_same k₀ k e in
        rw (e, d) (elim (Bool-cases (same k k')) [ inl h ↦ rw h refl | inr h ↦ rw h refl ])
    | inr e ↦
        rw (e, values-overwrite es k v k')
          (elim (Bool-cases (same k k')) [
            | inl h ↦ rw (h, other_key k₀ k k' e h) refl
            | inr h ↦ rw h refl
          ])
  ]

  pub values-remove_first :
      (b : List (Name × V)) (k k' : Name)
      → values (remove_first b k) k' ≡ (if same k k' then tail (values b k') else values b k')
  unfolding values remove_first
  values-remove_first [] k k' = elim (Bool-cases (same k k')) [
    | inl e ↦ rw e refl
    | inr e ↦ rw e refl
  ]
  values-remove_first ((k₀, v₀) ∷ es) k k' = elim (Bool-cases (same k₀ k)) [
    | inl e ↦
        let d = eq_of_same k₀ k e in
        rw (e, d) (elim (Bool-cases (same k k')) [ inl h ↦ rw h refl | inr h ↦ rw h refl ])
    | inr e ↦
        rw (e, values-remove_first es k k')
          (elim (Bool-cases (same k k')) [
            | inl h ↦ rw (h, other_key k₀ k k' e h) refl
            | inr h ↦ rw h refl
          ])
  ]

  pub values_at-update_at :
      (bs : List (List (Name × V))) (i : ℕ) (f : List (Name × V) → List (Name × V)) (j : ℕ)
      (k : Name) (g : List V → List V)
      → ((b : List (Name × V)) → values (f b) k ≡ g (values b k))
      → i < length bs
      → values_at (update_at bs i f) j k
        ≡ (if i == j then g (values_at bs j k) else values_at bs j k)
  unfolding values_at update_at
  values_at-update_at [] i f j k g h z = absurd (omega arith)
  values_at-update_at (b ∷ bs) zero f zero k g h z = h b
  values_at-update_at (b ∷ bs) zero f (suc j) k g h z =
      let e : (0 == suc j) ≡ false = ground arith in rw e refl
  values_at-update_at (b ∷ bs) (suc i) f zero k g h z =
      let e : (suc i == 0) ≡ false = ground arith in rw e refl
  values_at-update_at (b ∷ bs) (suc i) f (suc j) k g h z =
      let e : (suc i == suc j) ≡ (i == j) = ground arith in
      rw e (values_at-update_at bs i f j k g h (omega arith))

  pub length-update_at :
      (bs : List (List (Name × V))) (i : ℕ) (f : List (Name × V) → List (Name × V))
      → length (update_at bs i f) ≡ length bs
  unfolding update_at
  length-update_at [] i f = refl
  length-update_at (b ∷ bs) zero f = refl
  length-update_at (b ∷ bs) (suc i) f = rw (length-update_at bs i f) refl

  pub values_at-empty_buckets : (n i : ℕ) (k : Name) → values_at (empty_buckets {V = V} n) i k ≡ []
  unfolding values_at empty_buckets values
  values_at-empty_buckets zero i k = refl
  values_at-empty_buckets (suc n) zero k = refl
  values_at-empty_buckets (suc n) (suc i) k = values_at-empty_buckets n i k

  -- A key that one bucket alone has.
  all_values-nil :
      (bs : List (List (Name × V))) (k : Name)
      → ((i : ℕ) → values_at bs i k ≡ [])
      → all_values bs k ≡ []
  unfolding values_at all_values
  all_values-nil [] k h = refl
  all_values-nil (b ∷ bs) k h = rw (h 0, all_values-nil bs k (λ i. h (suc i))) refl

  pub all_values-values_at :
      (bs : List (List (Name × V))) (j : ℕ) (k : Name)
      → ((i : ℕ) → (j == i) ≡ false → values_at bs i k ≡ [])
      → all_values bs k ≡ values_at bs j k
  unfolding values_at all_values
  all_values-values_at [] j k h = refl
  all_values-values_at (b ∷ bs) zero k h =
      rw (all_values-nil bs k (λ i. h (suc i) (ground arith))) (append-nil (values b k))
  all_values-values_at (b ∷ bs) (suc j) k h =
      rw (h 0 (ground arith)) (all_values-values_at bs j k (λ i n. h (suc i) (ground (arith, n))))

  pub bucket_at-values_at :
      (bs : List (List (Name × V))) (i : ℕ)
      → i < length bs
      → (b : List (Name × V)) × (bucket_at bs i ≡ some b)
        × ((k : Name) → values b k ≡ values_at bs i k)
  unfolding bucket_at values_at
  bucket_at-values_at [] i h = absurd (omega arith)
  bucket_at-values_at (b ∷ bs) zero h = (b, refl, λ k. refl)
  bucket_at-values_at (b ∷ bs) (suc i) h = bucket_at-values_at bs i (omega arith)
