-- ===== src/Filter.antt =====
-- src/rbus/rbus_filter.c: filters over a value, as a tree. `null` is a NULL rbusFilter_t. Operators
-- are the numbers of their enums, since decoding accepts any number. Reference counts are not
-- modelled: trees are values.
pub mod Apply
pub mod Meaning
pub mod Wire
pub mod Decode
pub mod Compare
mod Tests
use rbus.Base.{
  ℕ, zero, suc, Bool, true, false, not, ◌&&◌, ◌||◌, Option, none, some, List, [], ◌∷◌, ltb, ◌==◌,
  if◌then◌else◌,
}
use rbus.Outcome.{Outcome, done, refused, fault, exhausted, ◌>>=◌}
use rbus.Buffer.{Buffer}
use rbus.Value.{Value, write_number, read_field}
use rbus.Value as V
use rbus.Value.Kinds.{uint32, code}
use rbus.Value.Compare.{Sign, less, equal, greater, Machine, compare}

-- rbusFilter_RelationOperator_t
abbrev pub greater_than : ℕ
greater_than = 0

abbrev pub greater_than_or_equal : ℕ
greater_than_or_equal = 1

abbrev pub less_than : ℕ
less_than = 2

abbrev pub less_than_or_equal : ℕ
less_than_or_equal = 3

abbrev pub equals : ℕ
equals = 4

abbrev pub not_equals : ℕ
not_equals = 5

-- rbusFilter_LogicOperator_t
abbrev pub op_and : ℕ
op_and = 0

abbrev pub op_or : ℕ
op_or = 1

abbrev pub op_not : ℕ
op_not = 2

-- rbusFilter_ExpressionType_t
abbrev pub type_relation : ℕ
type_relation = 0

abbrev pub type_logic : ℕ
type_logic = 1

pub data Filter : Type 0 where
  null : Filter
  relation : ℕ → Option Value → Filter
  logic : ℕ → Filter → Filter → Filter

is_less : Sign → Bool
is_less c = elim c [ less ↦ true | _ ↦ false ]

is_greater : Sign → Bool
is_greater c = elim c [ greater ↦ true | _ ↦ false ]

-- The switch of rbusFilter_RelationApply.
holds : ℕ → Sign → Bool
unfolding is_less is_greater
holds op c =
    if op == greater_than
    then is_greater c
    else if op == greater_than_or_equal
    then not (is_less c)
    else if op == less_than
    then is_less c
    else if op == less_than_or_equal
    then not (is_greater c)
    else if op == equals
    then not (is_less c || is_greater c)
    else if op == not_equals
    then is_less c || is_greater c
    else false

-- The operators of rbusFilter_LogicApply.
combine : ℕ → Bool → Bool → Bool
combine op left right =
    if op == op_and
    then left && right
    else if op == op_or
    then left || right
    else if op == op_not
    then not left
    else false

module _ (m : Machine) where
  -- rbusFilter_Apply: the right side is not looked at under NOT.
  pub apply : Filter → Option Value → Outcome Bool
  unfolding holds combine
  apply null value = done false
  apply (relation op own) value = do c ← compare m value own; done (holds op c)
  apply (logic op left right) value =
      let right_side = apply right value in
      do
        l ← apply left value
        r ← (if op == op_not then done false else right_side)
        done (combine op l r)

encode_value : Option Value → Buffer → Buffer
encode_value none buff = buff
encode_value (some v) buff = V.encode v buff

-- rbusFilter_Encode
pub encode : Filter → Buffer → Buffer
unfolding encode_value
encode null buff = buff
encode (relation op value) buff =
    encode_value value (write_number (write_number buff uint32 type_relation) uint32 op)
encode (logic op left right) buff =
    encode right (encode left (write_number (write_number buff uint32 type_logic) uint32 op))

-- A uint32 with its type and length, checked.
pub decode_uint32 : Buffer → Outcome (ℕ × Buffer)
decode_uint32 buff = do
  (type, b1) ← read_field 2 buff
  (len, b2) ← read_field 2 b1
  if type == code uint32 && len == 4 then read_field 4 b2 else refused

decode_relation : Buffer → Outcome (Filter × Buffer)
unfolding decode_uint32
decode_relation buff = do
  (op, b1) ← decode_uint32 buff
  (value, b2) ← V.decode b1
  done (relation op (some value), b2)

-- `next` decodes one side.
decode_logic : (Buffer → Outcome (Filter × Buffer)) → Buffer → Outcome (Filter × Buffer)
unfolding decode_uint32
decode_logic next buff = do
  (op, b1) ← decode_uint32 buff
  (left, b2) ← next b1
  (right, b3) ← next b2
  done (logic op left right, b3)

-- Any other type leaves the result unset, and returns success: `fault`.
decode_as : (Buffer → Outcome (Filter × Buffer)) → ℕ → Buffer → Outcome (Filter × Buffer)
unfolding decode_relation decode_logic
decode_as next type buff =
    if type == type_relation
    then decode_relation buff
    else if type == type_logic
    then decode_logic next buff
    else fault

-- rbusFilter_Decode
pub decode : ℕ → Buffer → Outcome (Filter × Buffer)
unfolding decode_uint32 decode_as
decode zero buff = exhausted
decode (suc fuel) buff = do (type, b1) ← decode_uint32 buff; decode_as (decode fuel) type b1

-- rbusFilter_Compare: 1 where the first operator or type is the smaller one.
by_number : ℕ → ℕ → Sign
by_number a b = if ltb a b then greater else less

-- `if (rc != 0) return rc;`
or_else : Sign → Outcome Sign → Outcome Sign
or_else equal rest = rest
or_else c rest = done c

module _ (m : Machine) where
  pub compare_filters : Filter → Filter → Outcome Sign
  unfolding by_number or_else
  compare_filters null null = done equal
  compare_filters null (relation op v) = done less
  compare_filters null (logic op l r) = done less
  compare_filters (relation op v) null = done greater
  compare_filters (logic op l r) null = done greater
  compare_filters (relation op v) (relation op' w) =
      if op == op' then compare m v w else done (by_number op op')
  compare_filters (logic op l r) (logic op' l' r') =
      let rest = (do c ← compare_filters l l'; or_else c (compare_filters r r')) in
      if op == op' then rest else done (by_number op op')
  compare_filters (relation op v) (logic op' l r) = done (by_number type_relation type_logic)
  compare_filters (logic op l r) (relation op' v) = done (by_number type_logic type_relation)
