-- ===== src/Filter/Tests.antt =====
-- rbus_filter.c on concrete filters.
use rbus.Base.{not, false, ◌&&◌, ◌+◌, ◌≤◌, ◌≡◌, ◌≢◌, refl, some, [], ◌∷◌, arith, ◌↔◌}
use rbus.Base.Int.{ℤ, pos, negsuc, ltb_ℤ}
use rbus.Base.Bytes.{le_bytes}
use rbus.Value as V
use rbus.Outcome.{done, exhausted}
use rbus.Buffer.{Buffer, create, write, write_type_length_value, reserve}
use rbus.Buffer.Contents.{create-Holds}
use rbus.Value.{number, string, write_number}
use rbus.Value.Kinds.{uint32}
use rbus.Value.Compare.{Machine, equal}
use rbus.Filter.{
  Filter, relation, logic, null, apply, encode, decode, op_and, op_not, op_or, less_than,
  greater_than, not_equals, compare_filters,
}
use rbus.Filter.Meaning.{satisfies, apply-satisfies}
use rbus.Value.Compare.Numbers.{integer, eq_ℤ, IsExact}
use rbus.Filter.Wire.{Decodes, decode-encode_filter}
use rbus.Filter.Decode.{IsWhole, decode-IsWhole, decode_filter_total}
use rbus.Filter.Compare.{Matches, compare_filters_equal}

abbrev machine : Machine
machine = record {
  Real = ℤ;
  of_int = λ n. n;
  of_single = pos;
  of_double = pos;
  real_eq = λ a b. not (ltb_ℤ a b) && not (ltb_ℤ b a);
  real_lt = ltb_ℤ;
  mktime = λ _. pos 0;
}

abbrev above_ten : Filter
above_ten = relation greater_than (some (number uint32 10))

abbrev not_a : Filter
not_a = relation not_equals (some (string (65 ∷ 0 ∷ [])))

abbrev not_above : Filter
not_above = logic op_not above_ten null

abbrev both : Filter
both = logic op_and above_ten not_a

decode-encode_filter_example : Decodes 2 both (encode both create) [] []
unfolding create encode write_number write write_type_length_value reserve le_bytes V.encode
decode-encode_filter_example =
    decode-encode_filter both 2 create (omega arith) (omega arith) create-Holds refl (omega arith)

decode-IsWhole_example : IsWhole both
decode-IsWhole_example =
    decode-IsWhole 2 (encode both create) both decode-encode_filter_example.0
      decode-encode_filter_example.1

abbrev one_byte : Buffer
one_byte = record {
  len_alloc = 64;
  pos_write = 1;
  pos_read = 0;
  cells = some 9 ∷ [];
  on_heap = false;
}

decode_filter_total_example :
    (decode 65 one_byte ≢ exhausted)
    × ((f : Filter) (b : Buffer)
        → decode 65 one_byte ≡ done (f, b)
        → (0 + 8 ≤ b.pos_read) × (b.pos_read ≤ 64))
decode_filter_total_example = decode_filter_total 65 one_byte (omega arith) (omega arith)

compare_filters_equal_example :
    compare_filters machine both not_above ≡ done equal ↔ Matches machine both not_above
compare_filters_equal_example = compare_filters_equal machine both not_above

machine_eq :
    (a b : ℤ)
    → IsExact a
    → IsExact b
    → machine.real_eq (machine.of_int a) (machine.of_int b) ≡ eq_ℤ a b
machine_eq (pos a) (pos b) h k = ground arith
machine_eq (pos a) (negsuc b) h k = refl
machine_eq (negsuc a) (pos b) h k = refl
machine_eq (negsuc a) (negsuc b) h k = ground arith

-- x > 10, or not x < 7
abbrev outside : Filter
outside = logic op_or above_ten (logic op_not (relation less_than (some (number uint32 7))) null)

apply-satisfies_example :
    apply machine outside (some (number uint32 7)) ≡ done (satisfies outside (integer uint32 7))
apply-satisfies_example =
    apply-satisfies machine machine_eq (λ a b h k. refl) outside uint32 7
      ((omega arith, (tt, omega arith)), (omega arith, (tt, omega arith))) tt (omega arith)
