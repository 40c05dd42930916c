-- ===== src/Value/Compare/Numbers.antt =====
-- rbusValue_Compare of numbers, by rbusValue_CoerceNumericToDouble.
use rbus.Base.{ℕ, ◌^◌, ◌<◌, ◌≤◌, ◌≡◌, refl, Bool, false, some, ◌==◌, if◌then◌else◌, arith, ap}
use rbus.Base.Int.{ℤ, pos, negsuc, ltb_ℤ, signed}
use rbus.Outcome.{done}
use rbus.Value.{number}
use rbus.Value.Kinds.{
  Kind, boolean, char, byte, int8, uint8, int16, uint16, int32, uint32, int64, uint64, single,
  double,
}
use rbus.Value.Compare.{
  Sign, less, equal, greater, Machine, compare, compare_values, coerce, compare_real,
}

abbrev pub IsInteger : Kind → Type 0
IsInteger single = ⊥
IsInteger double = ⊥
IsInteger k = Unit

-- The width of the signed types.
abbrev sign_width : Kind → ℕ
sign_width char = 8
sign_width int8 = 8
sign_width int16 = 16
sign_width int32 = 32
sign_width int64 = 64
sign_width k = 0

-- The integer that a bit pattern stands for.
abbrev pub integer : Kind → ℕ → ℤ
integer k n = if sign_width k == 0 then pos n else signed (sign_width k) n

-- Integers that a double holds exactly.
abbrev pub IsExact : ℤ → Type 0
IsExact (pos n) = n ≤ 2 ^ 53
IsExact (negsuc n) = n < 2 ^ 53

abbrev pub eq_ℤ : ℤ → ℤ → Bool
eq_ℤ (pos a) (pos b) = a == b
eq_ℤ (negsuc a) (negsuc b) = a == b
eq_ℤ _ _ = false

abbrev pub sign_of : ℤ → ℤ → Sign
sign_of a b = if ltb_ℤ a b then less else if ltb_ℤ b a then greater else equal

coerce_lem : (m : Machine) (k : Kind) (n : ℕ) → IsInteger k → coerce m k n ≡ m.of_int (integer k n)
unfolding coerce
coerce_lem m boolean n h = refl
coerce_lem m char n h = refl
coerce_lem m byte n h = refl
coerce_lem m int8 n h = refl
coerce_lem m uint8 n h = refl
coerce_lem m int16 n h = refl
coerce_lem m uint16 n h = refl
coerce_lem m int32 n h = refl
coerce_lem m uint32 n h = refl
coerce_lem m int64 n h = refl
coerce_lem m uint64 n h = refl
coerce_lem m single n h = absurd h
coerce_lem m double n h = absurd h

sign_of_lem :
    (a b : ℤ) → (if eq_ℤ a b then equal else if ltb_ℤ a b then less else greater) ≡ sign_of a b
sign_of_lem (pos a) (pos b) = ground arith
sign_of_lem (pos a) (negsuc b) = refl
sign_of_lem (negsuc a) (pos b) = refl
sign_of_lem (negsuc a) (negsuc b) = ground arith

-- Numbers of any integer types, of the same or of different ones, compare as the integers that they
-- stand for, so that numbers of different types can be equal. It holds on a machine whose doubles compare correctly where they hold integers exactly: up to
-- 2^53 in size, which both numbers have to be. A char is signed.
pub compare_number_order :
    (m : Machine)
    → ((a b : ℤ) → IsExact a → IsExact b → m.real_eq (m.of_int a) (m.of_int b) ≡ eq_ℤ a b)
    → ((a b : ℤ) → IsExact a → IsExact b → m.real_lt (m.of_int a) (m.of_int b) ≡ ltb_ℤ a b)
    → (k l : Kind) (n o : ℕ) → IsInteger k
    → IsInteger l
    → IsExact (integer k n)
    → IsExact (integer l o)
    → compare m (some (number k n)) (some (number l o)) ≡ done (sign_of (integer k n) (integer l o))
unfolding compare compare_values compare_real
compare_number_order m eq lt k l n o hk hl ek el =
    rw (coerce_lem m k n hk, coerce_lem m l o hl, eq _ _ ek el, lt _ _ ek el)
      (ap done (sign_of_lem (integer k n) (integer l o)))
