-- ===== src/Filter/Meaning.antt =====
-- rbusFilter_Apply on integers, against the meaning of the operators.
use rbus.Base.{
  ℕ, zero, suc, ◌<◌, ◌≡◌, refl, ap, Bool, true, false, not, ◌&&◌, ◌||◌, Option, none, some, arith,
  if◌then◌else◌,
}
use rbus.Base.Int.{ℤ, pos, negsuc, ltb_ℤ}
use rbus.Outcome.{done}
use rbus.Value.{Value, number}
use rbus.Value.Kinds.{Kind}
use rbus.Value.Compare.{Machine, Sign, less, greater, equal}
use rbus.Value.Compare.Numbers.{IsInteger, IsExact, integer, eq_ℤ, sign_of, compare_number_order}
use rbus.Filter.{Filter, null, relation, logic, apply, holds, combine}

-- The relation of a value and a bound that a number of rbusFilter_RelationOperator_t stands for: >, >=,
-- <, <=, = and its negation.
abbrev pub relates : ℕ → ℤ → ℤ → Bool
relates zero a b = ltb_ℤ b a
relates (suc zero) a b = not (ltb_ℤ a b)
relates (suc (suc zero)) a b = ltb_ℤ a b
relates (suc (suc (suc zero))) a b = not (ltb_ℤ b a)
relates (suc (suc (suc (suc zero)))) a b = eq_ℤ a b
relates (suc (suc (suc (suc (suc op))))) a b = not (eq_ℤ a b)

abbrev pub bound_of : Option Value → ℤ
bound_of (some (number l o)) = integer l o
bound_of _ = pos 0

-- Whether an integer satisfies a filter: the numbers of rbusFilter_LogicOperator_t are those of "and",
-- "or" and "not".
unfoldable pub satisfies : Filter → ℤ → Bool
satisfies null a = false
satisfies (relation op own) a = relates op a (bound_of own)
satisfies (logic zero l r) a = satisfies l a && satisfies r a
satisfies (logic (suc zero) l r) a = satisfies l a || satisfies r a
satisfies (logic (suc (suc op)) l r) a = not (satisfies l a)

abbrev pub IsBound : Option Value → Type 0
IsBound (some (number l o)) = IsInteger l × IsExact (integer l o)
IsBound _ = ⊥

-- Operators of the enums, integers as bounds, and no NULL but the unused side of a NOT.
abbrev pub IsNumeric : Filter → Type 0
IsNumeric null = ⊥
IsNumeric (relation op own) = op < 6 × IsBound own
IsNumeric (logic zero l r) = IsNumeric l × IsNumeric r
IsNumeric (logic (suc zero) l r) = IsNumeric l × IsNumeric r
IsNumeric (logic (suc (suc zero)) l r) = IsNumeric l
IsNumeric (logic (suc (suc (suc op))) l r) = ⊥

-- The six operators, from whether the value is less and whether it is greater.
holds-cases :
    (p q : Bool)
    → (p && q) ≡ false
    → let s : Sign = if p then less else if q then greater else equal in
      (holds 0 s ≡ q)
      × (holds 1 s ≡ not p)
      × (holds 2 s ≡ p)
      × (holds 3 s ≡ not q)
      × (holds 4 s ≡ not (p || q))
      × (holds 5 s ≡ not (not (p || q)))
unfolding holds
holds-cases true true h = cc
holds-cases true false h = (refl, refl, refl, refl, refl, refl)
holds-cases false true h = (refl, refl, refl, refl, refl, refl)
holds-cases false false h = (refl, refl, refl, refl, refl, refl)

ltb_ℤ-asym : (a b : ℤ) → (ltb_ℤ a b && ltb_ℤ b a) ≡ false
ltb_ℤ-asym (pos a) (pos b) = ground arith
ltb_ℤ-asym (pos a) (negsuc b) = refl
ltb_ℤ-asym (negsuc a) (pos b) = refl
ltb_ℤ-asym (negsuc a) (negsuc b) = ground arith

eq_ℤ-ltb_ℤ : (a b : ℤ) → eq_ℤ a b ≡ not (ltb_ℤ a b || ltb_ℤ b a)
eq_ℤ-ltb_ℤ (pos a) (pos b) = ground arith
eq_ℤ-ltb_ℤ (pos a) (negsuc b) = refl
eq_ℤ-ltb_ℤ (negsuc a) (pos b) = refl
eq_ℤ-ltb_ℤ (negsuc a) (negsuc b) = ground arith

holds-relates : (op : ℕ) (a b : ℤ) → op < 6 → holds op (sign_of a b) ≡ relates op a b
holds-relates zero a b h = (holds-cases (ltb_ℤ a b) (ltb_ℤ b a) (ltb_ℤ-asym a b)).0
holds-relates (suc zero) a b h = (holds-cases (ltb_ℤ a b) (ltb_ℤ b a) (ltb_ℤ-asym a b)).1
holds-relates (suc (suc zero)) a b h = (holds-cases (ltb_ℤ a b) (ltb_ℤ b a) (ltb_ℤ-asym a b)).2
holds-relates (suc (suc (suc zero))) a b h =
    (holds-cases (ltb_ℤ a b) (ltb_ℤ b a) (ltb_ℤ-asym a b)).3
holds-relates (suc (suc (suc (suc zero)))) a b h =
    rw (eq_ℤ-ltb_ℤ a b) (holds-cases (ltb_ℤ a b) (ltb_ℤ b a) (ltb_ℤ-asym a b)).4
holds-relates (suc (suc (suc (suc (suc zero))))) a b h =
    rw (eq_ℤ-ltb_ℤ a b) (holds-cases (ltb_ℤ a b) (ltb_ℤ b a) (ltb_ℤ-asym a b)).5
holds-relates (suc (suc (suc (suc (suc (suc op)))))) a b h = absurd (omega (arith, h))

module _ (m : Machine)
    (eq : (a b : ℤ) → IsExact a → IsExact b → m.real_eq (m.of_int a) (m.of_int b) ≡ eq_ℤ a b)
    (lt : (a b : ℤ) → IsExact a → IsExact b → m.real_lt (m.of_int a) (m.of_int b) ≡ ltb_ℤ a b) where
  -- Applied to a number of an integer type, a filter that compares with integers gives what its
  -- operators mean: >, >=, <, <=, = and its negation for the integers that the numbers stand for, in
  -- the order of the enum, and "and", "or" and "not". The filter has operators of the enums and no
  -- NULL side but the unused one of a NOT. All numbers are up to 2^53 in size, on a machine whose
  -- doubles compare correctly where they hold integers exactly.
  pub apply-satisfies :
      (f : Filter) (k : Kind) (n : ℕ)
      → IsNumeric f
      → IsInteger k
      → IsExact (integer k n)
      → apply m f (some (number k n)) ≡ done (satisfies f (integer k n))
  unfolding apply satisfies combine
  apply-satisfies null k n p hk ek = absurd p
  apply-satisfies (relation op none) k n p hk ek = absurd p.1
  apply-satisfies (relation op (some (number l o))) k n p hk ek =
      rw (compare_number_order m eq lt k l n o hk p.1.0 ek p.1.1)
        (ap done (holds-relates op (integer k n) (integer l o) p.0))
  apply-satisfies (relation op (some v)) k n p hk ek = absurd p.1
  apply-satisfies (logic zero l r) k n p hk ek =
      rw (apply-satisfies l k n p.0 hk ek, apply-satisfies r k n p.1 hk ek) refl
  apply-satisfies (logic (suc zero) l r) k n p hk ek =
      rw (apply-satisfies l k n p.0 hk ek, apply-satisfies r k n p.1 hk ek) refl
  apply-satisfies (logic (suc (suc zero)) l r) k n p hk ek = rw (apply-satisfies l k n p hk ek) refl
  apply-satisfies (logic (suc (suc (suc op))) l r) k n p hk ek = absurd p
