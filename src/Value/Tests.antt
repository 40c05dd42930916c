-- ===== src/Value/Tests.antt =====
-- rbus_value.c on concrete values.
use rbus.Base.{
  ℕ, ◌%◌, ◌^◌, ◌≡◌, refl, false, ◌&&◌, not, some, List, [], ◌∷◌, ◌++◌, length, replicate, take,
  arith,
}
use rbus.Base.Bytes.{le_bytes}
use rbus.Base.Int.{ℤ, pos, ltb_ℤ, negsuc, signed}
use rbus.Outcome.{done}
use rbus.Buffer.{Buffer, create, write, write_type_length_value}
use rbus.Buffer.Contents.{Holds, create-Holds, write-Holds}
use rbus.Value.{Value, string, bytes, datetime, encode, decode, wire, number}
use rbus.Value.Dates.{DateTime}
use rbus.Value.RoundTrip.{behind, decode-encode_value, encode-bytes_cut}
use rbus.Value.Total.{Advances, decode-Advances}
use rbus.Value.Compare.{Machine, compare, equal}
use rbus.Value.Compare.Order.{compare_datetime_equal}
use rbus.Value.Compare.Numbers.{IsExact, eq_ℤ, sign_of, integer, compare_number_order}
use rbus.Value.Kinds.{int8, uint32}

abbrev earlier : Buffer
earlier = record (write create (some (1 ∷ 2 ∷ 3 ∷ []))) { pos_read = 3 }

earlier-Holds : Holds earlier (1 ∷ 2 ∷ 3 ∷ [])
earlier-Holds =
    let h = write-Holds create (1 ∷ 2 ∷ 3 ∷ []) create-Holds in
    record {
      tail = h.tail;
      cells_lem = h.cells_lem;
      written = h.written;
      allocated = h.allocated;
      blocks = h.blocks;
      grown = h.grown;
      inner = h.inner;
    }

abbrev hi : Value
hi = string (72 ∷ 105 ∷ 0 ∷ [])

decode-encode_value_example : decode (encode hi earlier) ≡ done (hi, behind hi (encode hi earlier))
unfolding encode write create le_bytes write_type_length_value
decode-encode_value_example =
    decode-encode_value hi earlier (omega arith) earlier-Holds refl (omega arith)

abbrev long : List ℕ
long = replicate 65540 1

encode-bytes_cut_example :
    Holds (encode (bytes long) create) ([] ++ wire (bytes (take (length long % 2 ^ 16) long)))
encode-bytes_cut_example = encode-bytes_cut long create create-Holds

decode-Advances_example : Advances 4 (encode hi earlier) (decode (encode hi earlier))
decode-Advances_example = decode-Advances (encode hi earlier)

-- A machine whose real numbers are the integers.
abbrev machine : Machine
machine = record {
  Real = ℤ;
  of_int = λ n. n;
  of_single = pos;
  of_double = pos;
  real_eq = λ a b. not (ltb_ℤ a b) && not (ltb_ℤ b a);
  real_lt = ltb_ℤ;
  mktime = λ _. pos 0;
}

abbrev a : List ℕ
a = 65 ∷ 0 ∷ []

abbrev b : List ℕ
b = 65 ∷ 66 ∷ 0 ∷ []

abbrev day : ℕ → DateTime
day n = record {
  sec = 1;
  min = 2;
  hour = 3;
  mday = n;
  mon = 5;
  year = 120;
  wday = 1;
  yday = 150;
  isdst = 0;
  tzhour = 1;
  tzmin = 30;
  is_west = false;
}

compare_datetime_equal_example :
    compare machine (some (datetime (day 4))) (some (datetime (day 9))) ≡ done equal
compare_datetime_equal_example =
    compare_datetime_equal machine (day 4) (day 9) (omega arith) (omega arith)

machine_eq :
    (x y : ℤ)
    → IsExact x
    → IsExact y
    → machine.real_eq (machine.of_int x) (machine.of_int y) ≡ eq_ℤ x y
machine_eq (pos x) (pos y) h k = ground arith
machine_eq (pos x) (negsuc y) h k = refl
machine_eq (negsuc x) (pos y) h k = refl
machine_eq (negsuc x) (negsuc y) h k = ground arith

compare_number_order_example :
    compare machine (some (number int8 0xFF)) (some (number uint32 7))
    ≡ done (sign_of (integer int8 0xFF) (integer uint32 7))
unfolding signed
compare_number_order_example =
    compare_number_order machine machine_eq (λ x y h k. refl) int8 uint32 0xFF 7 tt tt (omega arith)
      (omega arith)
