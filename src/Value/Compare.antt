-- ===== src/Value/Compare.antt =====
-- rbusValue_Compare of src/rbus/rbus_value.c, up to the sign of its result. Floating point and
-- mktime are the machine's: a parameter. The test `v1 == v2` is of two pointers; two NULLs pass it,
-- and any other two values are taken to be separate objects.
pub mod Order
pub mod Numbers
use rbus.Base.{
  ℕ, zero, suc, ◌+◌, ◌-◌, ◌%◌, ◌^◌, Bool, true, false, not, ◌&&◌, Option, none, some, List, [], ◌∷◌,
  length, take, leb, ltb, ◌==◌, if◌then◌else◌,
}
use rbus.Base.Bytes.{c_string}
use rbus.Base.Int.{ℤ, pos, negsuc, ltb_ℤ, signed}
use rbus.Outcome.{Outcome, done, refused, fault, ◌>>=◌}
use rbus.Value.Kinds.{
  Kind, boolean, char, byte, int8, uint8, int16, uint16, int32, uint32, int64, uint64, single,
  double, width, code, code_string, code_bytes, code_datetime,
}
use rbus.Value.Dates.{DateTime, to_bytes}
use rbus.Value.{Value, number, datetime, string, bytes}

-- The sign of an `int` result.
pub data Sign : Type 0 where
  less equal greater : Sign

pub record Machine : Type 1 where
  pub Real : Type 0
  pub of_int : ℤ → Real
  pub of_single : ℕ → Real
  pub of_double : ℕ → Real
  pub real_eq : Real → Real → Bool
  pub real_lt : Real → Real → Bool
  -- The nine numbers of a `struct tm`.
  pub mktime : List ℕ → ℤ

abbrev pub int32_mod : ℕ
int32_mod = 2 ^ 32

-- `strcmp`, and `memcmp` over as many bytes as both arrays have.
unfoldable pub compare_bytes : List ℕ → List ℕ → Sign
compare_bytes [] [] = equal
compare_bytes [] (b ∷ bs) = less
compare_bytes (a ∷ as') [] = greater
compare_bytes (a ∷ as') (b ∷ bs) =
    if ltb a b then less else if ltb b a then greater else compare_bytes as' bs

-- `memcmp(p, q, length of p)`: `fault` where the result rests on what stands behind `q`.
unfoldable pub compare_memory : List ℕ → List ℕ → Outcome Sign
compare_memory [] q = done equal
compare_memory (a ∷ p) [] = fault
compare_memory (a ∷ p) (b ∷ q) =
    if ltb a b then done less else if ltb b a then done greater else compare_memory p q

add32 : ℕ → ℕ → ℕ
add32 a b = (a + b) % int32_mod

neg32 : ℕ → ℕ
neg32 a = (int32_mod - a) % int32_mod

-- The offset of the time zone, added.
shift : Bool → ℕ → ℕ → ℕ
shift is_west n offset = add32 n (if is_west then neg32 offset else offset)

raise_minutes : ℕ → ℕ
raise_minutes n = if leb (2 ^ 31) n then add32 n 60 else n

lower_minutes : ℕ → ℕ
lower_minutes n = if leb 60 n && ltb n (2 ^ 31) then n - 60 else n

-- The `struct tm` that is handed to mktime.
pub to_tm : DateTime → List ℕ
unfolding add32 neg32 shift raise_minutes lower_minutes
to_tm t =
    t.sec
    ∷ lower_minutes (raise_minutes (shift t.is_west t.min t.tzmin))
    ∷ shift t.is_west t.hour t.tzhour
    ∷ t.mday
    ∷ t.mon
    ∷ t.year
    ∷ t.wday
    ∷ t.yday
    ∷ t.isdst
    ∷ []

-- `memcmp` of the two structures: not 0.
pub differ : DateTime → DateTime → Bool
differ a b = elim (compare_bytes (to_bytes a) (to_bytes b)) [ equal ↦ false | _ ↦ true ]

unfoldable pub value_code : Value → ℕ
value_code (number k n) = code k
value_code (datetime t) = code_datetime
value_code (string s) = code_string
value_code (bytes p) = code_bytes

-- The end of the bytes case: equal so far, so the lengths decide.
by_length : Sign → List ℕ → List ℕ → Sign
by_length less p q = less
by_length greater p q = greater
by_length equal p q =
    if ltb (length p) (length q) then less else if ltb (length q) (length p) then greater else equal

module _ (m : Machine) where
  open m use {Real, of_int, of_single, of_double, real_eq, real_lt, mktime}

  -- rbusValue_CoerceNumericToDouble, with a char that is signed.
  unfoldable pub coerce : Kind → ℕ → Real
  coerce boolean n = of_int (pos n)
  coerce char n = of_int (signed 8 n)
  coerce byte n = of_int (pos n)
  coerce int8 n = of_int (signed 8 n)
  coerce uint8 n = of_int (pos n)
  coerce int16 n = of_int (signed 16 n)
  coerce uint16 n = of_int (pos n)
  coerce int32 n = of_int (signed 32 n)
  coerce uint32 n = of_int (pos n)
  coerce int64 n = of_int (signed 64 n)
  coerce uint64 n = of_int (pos n)
  coerce single n = of_single n
  coerce double n = of_double n

  unfoldable pub compare_real : Real → Real → Sign
  compare_real a b = if real_eq a b then equal else if real_lt a b then less else greater

  -- `difftime` of the two times, and its sign.
  pub compare_time : ℤ → ℤ → Sign
  compare_time a b = if ltb_ℤ a b then less else if ltb_ℤ b a then greater else equal

  pub compare_datetime : DateTime → DateTime → Sign
  unfolding compare_time
  compare_datetime a b =
      if differ a b then equal else compare_time (mktime (to_tm a)) (mktime (to_tm b))

  compare_codes : ℕ → ℕ → Sign
  compare_codes a b = if ltb a b then less else greater

  -- Two values that are there.
  pub compare_values : Value → Value → Outcome Sign
  unfolding coerce compare_real compare_codes by_length compare_datetime value_code
  compare_values (number k n) (number l o) = done (compare_real (coerce k n) (coerce l o))
  compare_values (datetime a) (datetime b) = done (compare_datetime a b)
  compare_values (string s) (string t) = done (compare_bytes (c_string s) (c_string t))
  compare_values (bytes p) (bytes q) = do c ← compare_memory p q; done (by_length c p q)
  compare_values v w = done (compare_codes (value_code v) (value_code w))

  unfoldable pub compare : Option Value → Option Value → Outcome Sign
  compare none none = done equal
  compare none (some w) = done less
  compare (some v) none = done less
  compare (some v) (some w) = compare_values v w
