-- ===== src/Filter/Decode.antt =====
-- What rbusFilter_Decode can return, on any bytes.
use rbus.Base.{ℕ, zero, suc, ◌+◌, ◌≤◌, ◌<◌, ◌≡◌, ◌≢◌, ◌&&◌, none, some, ◌==◌, arith}
use rbus.Outcome.{
  Outcome, done, exhausted, Ensures, Ensures-done, Ensures-fault, Ensures-exhausted, Ensures-if,
  Ensures-bind,
}
use rbus.Buffer.{Buffer}
use rbus.Value as V
use rbus.Value.{read_field}
use rbus.Value.Kinds.{uint32, code}
use rbus.Value.Total.{
  Advances, read_field-Advances, decode-Advances, Advances-bind, Advances-if, Advances-done,
  Advances-refused, Advances-fault, weaken, Advances-bind_eq,
}
use rbus.Filter.{
  Filter, null, relation, logic, decode, decode_uint32, type_relation, type_logic, decode_relation,
  decode_logic,
}

-- No part of the filter is NULL.
abbrev pub IsWhole : Filter → Type 0
IsWhole null = ⊥
IsWhole (relation op none) = ⊥
IsWhole (relation op (some v)) = Unit
IsWhole (logic op l r) = IsWhole l × IsWhole r

abbrev Whole : Filter × Buffer → Type 0
Whole x = IsWhole x.0

whole : (fuel : ℕ) (buff : Buffer) → Ensures Whole (decode fuel buff)
unfolding decode decode_relation decode_logic
whole zero buff = Ensures-exhausted
whole (suc fuel) buff = Ensures-bind (decode_uint32 buff) _ λ x _.
    Ensures-if (x.0 == type_relation) _ _
      (Ensures-bind (decode_uint32 x.1) _
        λ o _. Ensures-bind (V.decode o.1) _ λ v _. Ensures-done _ tt)
      (Ensures-if (x.0 == type_logic) _ _
        (Ensures-bind (decode_uint32 x.1) _ λ o _. Ensures-bind (decode fuel o.1) _ λ l el.
          Ensures-bind (decode fuel l.1) _
            λ r er. Ensures-done _ ((whole fuel o.1).result l el, (whole fuel l.1).result r er))
        Ensures-fault)

-- A decoded filter has no NULL part: each NOT in it has a right side. The documented form of a
-- NOT, whose right side is NULL, is therefore never what decoding returns.
pub decode-IsWhole :
    (fuel : ℕ) (buff : Buffer) (f : Filter) (b : Buffer)
    → decode fuel buff ≡ done (f, b)
    → IsWhole f
decode-IsWhole fuel buff f b e = (whole fuel buff).result (f, b) e

decode_uint32-Advances : (buff : Buffer) → Advances 8 buff (decode_uint32 buff)
unfolding decode_uint32
decode_uint32-Advances buff = Advances-bind 2 6 buff _ _ (read_field-Advances 2 buff) λ type b.
    Advances-bind 2 4 b _ _ (read_field-Advances 2 b) λ n b'.
      Advances-if (type == code uint32 && n == 4) 4 b' _ _ (read_field-Advances 4 b')
        (Advances-refused 4 b')

relation-Advances : (buff : Buffer) → Advances 0 buff (decode_relation buff)
unfolding decode_relation
relation-Advances buff = weaken _ buff _ (
    Advances-bind 8 4 buff _ _ (decode_uint32-Advances buff) λ op b.
      Advances-bind 4 0 b _ _ (decode-Advances b) λ v b'. Advances-done (relation op (some v)) b')

-- Reading at `buff` has work left for at most `fuel` levels.
abbrev Enough : ℕ → Buffer → Type 0
Enough fuel buff = (buff.len_alloc < buff.pos_read + fuel) × (buff.pos_read ≤ buff.len_alloc)

logic-Advances :
    (fuel : ℕ) (next : Buffer → Outcome (Filter × Buffer)) (buff : Buffer)
    → ((b : Buffer) → Enough fuel b → Advances 8 b (next b))
    → Enough fuel buff
    → Advances 0 buff (decode_logic next buff)
unfolding decode_logic
logic-Advances fuel next buff step h = weaken _ buff _ (
    Advances-bind_eq 8 16 buff _ _ (decode_uint32-Advances buff) λ op b e.
      let p = (decode_uint32-Advances buff).moved op b e in
      let eb : Enough fuel b = (omega arith, p.2 h.1) in
      Advances-bind_eq 8 8 b (next b) _ (step b eb) λ l b' e'.
        let q = (step b eb).moved l b' e' in
        Advances-bind 8 0 b' (next b') _ (step b' (omega arith, q.2 (p.2 h.1)))
          (λ r b''. Advances-done (logic op l r) b''))

fuelled : (fuel : ℕ) (buff : Buffer) → Enough fuel buff → Advances 8 buff (decode fuel buff)
unfolding decode
fuelled zero buff h = absurd (omega arith)
fuelled (suc fuel) buff h =
    Advances-bind_eq 8 0 buff (decode_uint32 buff) _ (decode_uint32-Advances buff) λ type b e.
      let p = (decode_uint32-Advances buff).moved type b e in
      Advances-if (type == type_relation) 0 b _ _ (relation-Advances b) (
        Advances-if (type == type_logic) 0 b _ _
          (logic-Advances fuel (decode fuel) b (fuelled fuel) (omega arith, p.2 h.1))
          (Advances-fault 0 b))

-- Decoding ends on any bytes: fuel above the number of bytes between the read position and the end
-- of the allocated memory is enough, and what is decoded moves the position by 8 bytes or more,
-- within that memory.
pub decode_filter_total :
    (fuel : ℕ) (buff : Buffer)
    → buff.pos_read ≤ buff.len_alloc
    → buff.len_alloc < buff.pos_read + fuel
    → (decode fuel buff ≢ exhausted)
      × ((f : Filter) (b : Buffer)
          → decode fuel buff ≡ done (f, b)
          → (buff.pos_read + 8 ≤ b.pos_read) × (b.pos_read ≤ buff.len_alloc))
decode_filter_total fuel buff inside h =
    let a = fuelled fuel buff (h, inside) in
    (a.fuelled, λ f b e. let p = a.moved f b e in let q = p.2 inside in (p.0, rw p.1 at q))
