-- ===== src/HashMap/Resizing.antt =====
-- rtHashMap_Resize: a map has the same values before and after.
use rbus.Base.{
  ℕ, ◌*◌, ◌/◌, ◌<◌, ◌≡◌, refl, sym, ◌∙◌, Bool, true, false, List, [], ◌∷◌, ◌++◌, append_assoc,
  append-nil, if◌then◌else◌, length, ◌==◌, Bool-cases, inl, inr, arith,
}
use rbus.Base.Names.{Name, same, eq_of_same}
use rbus.HashMap.{HashMap, empty_buckets, push, push_all, push_buckets, resize}
use rbus.HashMap.Buckets.{
  values, values_at, all_values, values-append, values_at-update_at, length-update_at,
  length-empty_buckets, values_at-empty_buckets, all_values-values_at,
}

-- The hash of a key is the index of a bucket.
abbrev pub InRange : (ℕ → Name → ℕ) → Type 0
InRange hash = (n : ℕ) (k : Name) → 0 < n → hash n k < n

module _ {ℓ} {V : Type ℓ} (hash : ℕ → Name → ℕ) where
  -- The values for a key, in its bucket.
  abbrev pub slot : List (List (Name × V)) → Name → List V
  slot bs k = values_at bs (hash (length bs) k) k

  -- No key is in a bucket that is not its own.
  abbrev pub Placed : List (List (Name × V)) → Type ℓ
  Placed bs = (i : ℕ) (k : Name) → (hash (length bs) k == i) ≡ false → values_at bs i k ≡ []

  pub length-push :
      (bs : List (List (Name × V))) (e : Name × V) → length (push hash bs e) ≡ length bs
  unfolding push
  length-push bs (k, v) = length-update_at bs (hash (length bs) k) _

  values_at-push :
      (bs : List (List (Name × V))) (k : Name) (v : V) (i : ℕ) (k' : Name)
      → InRange hash
      → 0 < length bs
      → values_at (push hash bs (k, v)) i k' ≡ (
          if hash (length bs) k == i
          then values_at bs i k' ++ values ((k, v) ∷ []) k'
          else values_at bs i k')
  unfolding push
  values_at-push bs k v i k' r n =
      values_at-update_at bs (hash (length bs) k) _ i k' (λ vs. vs ++ values ((k, v) ∷ []) k')
        (λ b. values-append b ((k, v) ∷ []) k') (r (length bs) k n)

  -- A key with another hash is another key.
  values-other :
      (n : ℕ) (k : Name) (v : V) (k' : Name) (i : ℕ)
      → (hash n k == i) ≡ true
      → (hash n k' == i) ≡ false
      → values ((k, v) ∷ []) k' ≡ []
  unfolding values
  values-other n k v k' i h h' = elim (Bool-cases (same k k')) [
    | inl e ↦ let d = eq_of_same k k' e in let h'' = rw d at h in cc
    | inr e ↦ rw e refl
  ]

  pub push-Placed :
      (bs : List (List (Name × V))) (k : Name) (v : V)
      → InRange hash
      → 0 < length bs
      → Placed bs
      → Placed (push hash bs (k, v))
  push-Placed bs k v r n p i k' h =
      let h' : (hash (length bs) k' == i) ≡ false = rw (length-push bs (k, v)) at h in
      rw (values_at-push bs k v i k' r n, p i k' h')
        (elim (Bool-cases (hash (length bs) k == i)) [
          | inl e ↦ rw (e, values-other (length bs) k v k' i e h') refl
          | inr e ↦ rw e refl
        ])

  pub slot-push :
      (bs : List (List (Name × V))) (k : Name) (v : V) (k' : Name)
      → InRange hash
      → 0 < length bs
      → slot (push hash bs (k, v)) k' ≡ slot bs k' ++ values ((k, v) ∷ []) k'
  slot-push bs k v k' r n =
      rw (length-push bs (k, v), values_at-push bs k v (hash (length bs) k') k' r n)
        (elim (Bool-cases (hash (length bs) k == hash (length bs) k')) [
          | inl e ↦ rw e refl
          | inr e ↦
              let o =
                values-other (length bs) k v k' (hash (length bs) k) (ground arith)
                  (ground (arith, e)) in
              rw (e, o) (sym (append-nil (slot bs k')))
        ])

  length-push_all :
      (bs : List (List (Name × V))) (es : List (Name × V))
      → length (push_all hash bs es) ≡ length bs
  unfolding push_all
  length-push_all bs [] = refl
  length-push_all bs (e ∷ es) = length-push_all (push hash bs e) es ∙ length-push bs e

  length-push_buckets :
      (bs bss : List (List (Name × V))) → length (push_buckets hash bs bss) ≡ length bs
  unfolding push_buckets
  length-push_buckets bs [] = refl
  length-push_buckets bs (b ∷ bss) =
      length-push_buckets (push_all hash bs b) bss ∙ length-push_all bs b

  values-cons :
      (k : Name) (v : V) (es : List (Name × V)) (k' : Name)
      → values ((k, v) ∷ es) k' ≡ values ((k, v) ∷ []) k' ++ values es k'
  values-cons k v es k' = values-append ((k, v) ∷ []) es k'

  slot-push_all :
      (bs : List (List (Name × V))) (es : List (Name × V)) (k : Name)
      → InRange hash
      → 0 < length bs
      → slot (push_all hash bs es) k ≡ slot bs k ++ values es k
  unfolding push_all values
  slot-push_all bs [] k r n = sym (append-nil (slot bs k))
  slot-push_all bs ((k', v) ∷ es) k r n =
      let n' : 0 < length (push hash bs (k', v)) = rw (length-push bs (k', v)) n in
      rw
        (
          slot-push_all (push hash bs (k', v)) es k r n',
          slot-push bs k' v k r n,
          values-cons k' v es k,
        )
        (append_assoc (slot bs k) (values ((k', v) ∷ []) k) (values es k))

  push_all-Placed :
      (bs : List (List (Name × V))) (es : List (Name × V))
      → InRange hash
      → 0 < length bs
      → Placed bs
      → Placed (push_all hash bs es)
  unfolding push_all
  push_all-Placed bs [] r n p = p
  push_all-Placed bs ((k, v) ∷ es) r n p =
      push_all-Placed (push hash bs (k, v)) es r (rw (length-push bs (k, v)) n)
        (push-Placed bs k v r n p)

  slot-push_buckets :
      (bs bss : List (List (Name × V))) (k : Name)
      → InRange hash
      → 0 < length bs
      → slot (push_buckets hash bs bss) k ≡ slot bs k ++ all_values bss k
  unfolding push_buckets all_values
  slot-push_buckets bs [] k r n = sym (append-nil (slot bs k))
  slot-push_buckets bs (b ∷ bss) k r n =
      rw
        (
          slot-push_buckets (push_all hash bs b) bss k r (rw (length-push_all bs b) n),
          slot-push_all bs b k r n,
        )
        (append_assoc (slot bs k) (values b k) (all_values bss k))

  push_buckets-Placed :
      (bs bss : List (List (Name × V)))
      → InRange hash
      → 0 < length bs
      → Placed bs
      → Placed (push_buckets hash bs bss)
  unfolding push_buckets
  push_buckets-Placed bs [] r n p = p
  push_buckets-Placed bs (b ∷ bss) r n p =
      push_buckets-Placed (push_all hash bs b) bss r (rw (length-push_all bs b) n)
        (push_all-Placed bs b r n p)

  -- Where buckets are left, every key has the values that it had, in its bucket.
  pub resize_lem :
      (m : HashMap V) (grow : Bool)
      → InRange hash
      → 0 < (if grow then length m.buckets * 2 else length m.buckets / 2)
      → Placed m.buckets
      → (length (resize hash m grow).buckets
          ≡ (if grow then length m.buckets * 2 else length m.buckets / 2))
        × Placed (resize hash m grow).buckets
        × ((k : Name) → slot (resize hash m grow).buckets k ≡ slot m.buckets k)
  unfolding resize
  resize_lem m grow r n p =
      let next = if grow then length m.buckets * 2 else length m.buckets / 2 in
      let e = length-empty_buckets V next in
      let n' : 0 < length (empty_buckets {V = V} next) = rw e n in
      (
        length-push_buckets (empty_buckets next) m.buckets ∙ e,
        push_buckets-Placed (empty_buckets next) m.buckets r n'
            (λ i k h. values_at-empty_buckets next i k),
        (λ k.
            rw
              (
                slot-push_buckets (empty_buckets next) m.buckets k r n',
                values_at-empty_buckets {V = V} next (hash (length (empty_buckets {V = V} next)) k)
                    k,
              )
              (all_values-values_at m.buckets (hash (length m.buckets) k) k (λ i h. p i k h))),
      )
