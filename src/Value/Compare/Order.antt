-- ===== src/Value/Compare/Order.antt =====
-- What order rbusValue_Compare puts values in.
use rbus.Base.{ℕ, ◌≡◌, ◌↔◌, refl, ap, false, some, List, [], ◌∷◌, arith, inl, inr, Bool-cases}
use rbus.Base.Bytes.{c_string}
use rbus.Base.Int.{ℤ, pos, negsuc}
use rbus.Outcome.{Outcome, done}
use rbus.Value.{Value, datetime, string}
use rbus.Value.Dates.{DateTime, to_bytes, of_bytes-to_bytes, Fits}
use rbus.Value.Compare.{
  Sign, less, equal, greater, Machine, compare_bytes, compare, compare_values, compare_datetime,
  compare_time, differ, to_tm,
}

abbrev pub flip : Sign → Sign
flip less = greater
flip equal = equal
flip greater = less

compare_bytes_refl : (p : List ℕ) → compare_bytes p p ≡ equal
unfolding compare_bytes
compare_bytes_refl [] = refl
compare_bytes_refl (a ∷ p) = ground (arith, compare_bytes_refl p)

eq_of_compare_bytes : (p q : List ℕ) → compare_bytes p q ≡ equal → p ≡ q
unfolding compare_bytes
eq_of_compare_bytes [] [] h = refl
eq_of_compare_bytes [] (b ∷ q) h = cc
eq_of_compare_bytes (a ∷ p) [] h = cc
eq_of_compare_bytes (a ∷ p) (b ∷ q) h = ground (arith, eq_of_compare_bytes p q)

compare_bytes-flip : (p q : List ℕ) → compare_bytes q p ≡ flip (compare_bytes p q)
unfolding compare_bytes
compare_bytes-flip [] [] = refl
compare_bytes-flip [] (b ∷ q) = refl
compare_bytes-flip (a ∷ p) [] = refl
compare_bytes-flip (a ∷ p) (b ∷ q) = ground (arith, compare_bytes-flip p q)

compare_bytes_trans :
    (p q r : List ℕ)
    → compare_bytes p q ≡ less
    → compare_bytes q r ≡ less
    → compare_bytes p r ≡ less
unfolding compare_bytes
compare_bytes_trans [] [] r h k = cc
compare_bytes_trans [] (b ∷ q) [] h k = cc
compare_bytes_trans [] (b ∷ q) (c ∷ r) h k = refl
compare_bytes_trans (a ∷ p) [] r h k = cc
compare_bytes_trans (a ∷ p) (b ∷ q) [] h k = cc
compare_bytes_trans (a ∷ p) (b ∷ q) (c ∷ r) h k = ground (arith, compare_bytes_trans p q r)

module _ (m : Machine) where
  abbrev order : Value → Value → Outcome Sign
  order v w = compare m (some v) (some w)

  -- Two strings compare as equal exactly if their bytes up to the NUL are the same. Exchanging
  -- them exchanges the sign, and "less" is transitive: strings are totally ordered.
  pub compare_string_order :
      (s t u : List ℕ)
      → (order (string s) (string t) ≡ done equal ↔ c_string s ≡ c_string t)
        × ((c : Sign)
            → order (string s) (string t) ≡ done c
            → order (string t) (string s) ≡ done (flip c))
        × (order (string s) (string t) ≡ done less
            → order (string t) (string u) ≡ done less
            → order (string s) (string u) ≡ done less)
  unfolding compare compare_values
  compare_string_order s t u = (
    (
      λ h. eq_of_compare_bytes (c_string s) (c_string t) (ground arith),
      λ e. rw e (rw (compare_bytes_refl (c_string t))),
    ),
    λ c h. ground (arith, compare_bytes-flip (c_string s) (c_string t)),
    λ h k. ground (arith, compare_bytes_trans (c_string s) (c_string t) (c_string u)),
  )

  eq_of_differ : (a b : DateTime) → Fits a → Fits b → differ a b ≡ false → a ≡ b
  unfolding differ
  eq_of_differ a b fa fb h =
      let e : to_bytes a ≡ to_bytes b =
        eq_of_compare_bytes (to_bytes a) (to_bytes b) (ground arith) in
      ground (arith, of_bytes-to_bytes a fa, of_bytes-to_bytes b fb, e)

  compare_time_refl : (t : ℤ) → compare_time m t t ≡ equal
  unfolding compare_time
  compare_time_refl (pos n) = ground arith
  compare_time_refl (negsuc n) = ground arith

  -- Any two dates whose numbers fit 32 bits compare as equal, different ones too: whatever the
  -- machine's mktime gives.
  pub compare_datetime_equal :
      (a b : DateTime)
      → Fits a
      → Fits b
      → compare m (some (datetime a)) (some (datetime b)) ≡ done equal
  unfolding compare compare_values compare_datetime
  compare_datetime_equal a b fa fb = elim (Bool-cases (differ a b)) [
    | inl d ↦ rw d
    | inr same ↦
        rw (same, eq_of_differ a b fa fb same) (ap done (compare_time_refl (m.mktime (to_tm b))))
  ]
