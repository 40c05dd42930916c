-- ===== src/Filter/Wire.antt =====
-- rbusFilter_Encode and rbusFilter_Decode.
use rbus.Base.{
  ℕ, zero, suc, ◌+◌, ◌^◌, ◌<◌, ◌≡◌, refl, ◌∙◌, none, some, List, [], ◌++◌, append_assoc, append-nil,
  length, length-append, arith,
}
use Prim.Native.Nat.{max}
use rbus.Base.Bytes.{le_bytes, length-le_bytes}
use rbus.Outcome.{done}
use rbus.Buffer.{Buffer}
use rbus.Buffer.Contents.{Holds}
use rbus.Buffer.Reading.{At, advance}
use rbus.Value as V
use rbus.Value.{Value, number, write_number, read_field}
use rbus.Value.Kinds.{uint32, code}
use rbus.Value.RoundTrip as R
use rbus.Filter.{
  Filter, null, relation, logic, encode, decode, decode_uint32, type_relation, type_logic,
  decode_relation, decode_logic, encode_value,
}

-- A number with its type and length.
abbrev tlv : ℕ → List ℕ
tlv n = V.wire (number uint32 n)

abbrev pub wire : Filter → List ℕ
wire null = []
wire (relation op none) = tlv type_relation ++ tlv op
wire (relation op (some v)) = tlv type_relation ++ (tlv op ++ V.wire v)
wire (logic op l r) = tlv type_logic ++ (tlv op ++ (wire l ++ wire r))

-- No NULL anywhere, the right side of a NOT included.
abbrev pub IsComplete : Filter → Type 0
IsComplete null = ⊥
IsComplete (relation op none) = ⊥
IsComplete (relation op (some v)) = (op < 2 ^ 32) × V.IsValid v
IsComplete (logic op l r) = (op < 2 ^ 32) × IsComplete l × IsComplete r

abbrev pub depth : Filter → ℕ
depth null = 0
depth (relation op v) = 0
depth (logic op l r) = suc (max (depth l) (depth r))

-- Encoding a complete filter appends its wire form.
pub encode-Holds :
    (f : Filter) (buff : Buffer) {bs : List ℕ}
    → IsComplete f
    → Holds buff bs
    → Holds (encode f buff) (bs ++ wire f)
unfolding encode
encode-Holds null buff c h = absurd c
encode-Holds (relation op none) buff c h = absurd c
encode-Holds (relation op (some v)) buff {bs} c h =
    let h1 = R.write_number-Holds uint32 type_relation buff (omega arith) h in
    let h2 = R.write_number-Holds uint32 op _ c.0 h1 in
    let h3 = R.encode-Holds v _ c.1 h2 in
    rw
      (
        append_assoc (bs ++ tlv type_relation) (tlv op) (V.wire v),
        append_assoc bs (tlv type_relation) (tlv op ++ V.wire v),
      )
      at h3
encode-Holds (logic op l r) buff {bs} c h =
    let h1 = R.write_number-Holds uint32 type_logic buff (omega arith) h in
    let h2 = R.write_number-Holds uint32 op _ c.0 h1 in
    let h3 = encode-Holds l _ c.1 h2 in
    let h4 = encode-Holds r _ c.2 h3 in
    let e : (((bs ++ tlv type_logic) ++ tlv op) ++ wire l) ++ wire r ≡ bs ++ wire (logic op l r) =
      append_assoc ((bs ++ tlv type_logic) ++ tlv op) (wire l) (wire r)
      ∙ append_assoc (bs ++ tlv type_logic) (tlv op) (wire l ++ wire r)
      ∙ append_assoc bs (tlv type_logic) (tlv op ++ (wire l ++ wire r)) in
    rw e at h4

abbrev behind_uint32 : Buffer → Buffer
behind_uint32 buff = advance (advance (advance buff 2) 2) 4

length-tlv : (n : ℕ) → length (tlv n) ≡ 8
length-tlv n = omega (
  arith,
  length-append (le_bytes 2 (code uint32)) (le_bytes 2 4 ++ le_bytes 4 n),
  length-append (le_bytes 2 4) (le_bytes 4 n),
  length-le_bytes 2 (code uint32),
  length-le_bytes 2 4,
  length-le_bytes 4 n,
)

decode_uint32-At :
    (n : ℕ) (buff : Buffer) (pre rest : List ℕ)
    → n < 2 ^ 32
    → At buff pre (tlv n ++ rest)
    → length pre + 8 < buff.len_alloc
    → (decode_uint32 buff ≡ done (n, behind_uint32 buff))
      × At (behind_uint32 buff) (pre ++ tlv n) rest
unfolding decode_uint32
decode_uint32-At n buff pre rest fits a room =
    let c = le_bytes 2 (code uint32) in
    let l = le_bytes 2 4 in
    let w = le_bytes 4 n in
    let a0 : At buff pre (c ++ (l ++ (w ++ rest))) =
      rw (append_assoc c (l ++ w) rest, append_assoc l w rest) at a in
    let (e1, a1) = R.read_field-At 2 (code uint32) buff pre _ a0 (omega arith) (omega arith) in
    let lp : length (pre ++ c) ≡ length pre + 2 =
      omega (arith, length-append pre c, length-le_bytes 2 (code uint32)) in
    let (e2, a2) =
      R.read_field-At 2 4 (advance buff 2) (pre ++ c) _ a1 (omega arith) (omega arith) in
    let lq : length ((pre ++ c) ++ l) ≡ length pre + 4 =
      omega (arith, length-append (pre ++ c) l, length-le_bytes 2 4) in
    let (e3, a3) =
      R.read_field-At 4 n (advance (advance buff 2) 2) ((pre ++ c) ++ l) _ a2 (omega arith)
        (omega arith) in
    let assoc : ((pre ++ c) ++ l) ++ w ≡ pre ++ tlv n =
      append_assoc (pre ++ c) l w ∙ append_assoc pre c (l ++ w) in
    (rw (e1, e2, e3), rw assoc at a3)

-- Decoding at `buff`, with the bytes of `f` between `pre` and `rest`, gives `f`.
abbrev pub Decodes : ℕ → Filter → Buffer → List ℕ → List ℕ → Type 0
Decodes fuel f buff pre rest =
    (buff' : Buffer) × (decode fuel buff ≡ done (f, buff'))
    × At buff' (pre ++ wire f) rest
    × (buff'.len_alloc ≡ buff.len_alloc)

decode_relation-wire :
    (fuel op : ℕ) (v : Value) (buff : Buffer) (pre rest : List ℕ)
    → op < 2 ^ 32
    → V.IsValid v
    → At buff pre (wire (relation op (some v)) ++ rest)
    → length pre + length (wire (relation op (some v))) < buff.len_alloc
    → Decodes (suc fuel) (relation op (some v)) buff pre rest
unfolding decode decode_relation
decode_relation-wire fuel op v buff pre rest c h a room =
    let t = tlv type_relation in
    let o = tlv op in
    let size : length (t ++ (o ++ V.wire v)) ≡ 16 + length (V.wire v) = omega (
      arith,
      length-append t (o ++ V.wire v),
      length-append o (V.wire v),
      length-tlv type_relation,
      length-tlv op,
    ) in
    let a0 : At buff pre (t ++ (o ++ (V.wire v ++ rest))) =
      rw (append_assoc t (o ++ V.wire v) rest, append_assoc o (V.wire v) rest) at a in
    let (e1, a1) = decode_uint32-At type_relation buff pre _ (omega arith) a0 (omega arith) in
    let lp : length (pre ++ t) ≡ length pre + 8 =
      omega (arith, length-append pre t, length-tlv type_relation) in
    let (e2, a2) = decode_uint32-At op (behind_uint32 buff) (pre ++ t) _ c a1 (omega arith) in
    let lq : length ((pre ++ t) ++ o) ≡ length pre + 16 =
      omega (arith, length-append (pre ++ t) o, length-tlv op) in
    let (e3, a3) =
      R.decode-wire v (behind_uint32 (behind_uint32 buff)) ((pre ++ t) ++ o) rest h a2
        (omega arith) in
    let assoc : ((pre ++ t) ++ o) ++ V.wire v ≡ pre ++ (t ++ (o ++ V.wire v)) =
      append_assoc (pre ++ t) o (V.wire v) ∙ append_assoc pre t (o ++ V.wire v) in
    (R.behind v (behind_uint32 (behind_uint32 buff)), rw (e1, e2, e3), rw assoc at a3, refl)

-- Where the bytes of a complete filter stand at the read position, and do not reach the end of the
-- allocated memory, decoding gives the filter back, if the fuel is above its depth.
pub decode-wire :
    (f : Filter) (fuel : ℕ) (buff : Buffer) (pre rest : List ℕ)
    → IsComplete f
    → depth f < fuel
    → At buff pre (wire f ++ rest)
    → length pre + length (wire f) < buff.len_alloc
    → Decodes fuel f buff pre rest
unfolding decode decode_logic
decode-wire null fuel buff pre rest c d a room = absurd c
decode-wire (relation op none) fuel buff pre rest c d a room = absurd c
decode-wire f zero buff pre rest c d a room = absurd (omega arith)
decode-wire (relation op (some v)) (suc fuel) buff pre rest c d a room =
    decode_relation-wire fuel op v buff pre rest c.0 c.1 a room
decode-wire (logic op x y) (suc fuel) buff pre rest c d a room =
    let t = tlv type_logic in
    let o = tlv op in
    let size : length (t ++ (o ++ (wire x ++ wire y))) ≡ 16 + (length (wire x) + length (wire y)) =
      omega (
        arith,
        length-append t (o ++ (wire x ++ wire y)),
        length-append o (wire x ++ wire y),
        length-append (wire x) (wire y),
        length-tlv type_logic,
        length-tlv op,
      ) in
    let a0 : At buff pre (t ++ (o ++ (wire x ++ (wire y ++ rest)))) =
      rw
        (
          append_assoc t (o ++ (wire x ++ wire y)) rest,
          append_assoc o (wire x ++ wire y) rest,
          append_assoc (wire x) (wire y) rest,
        )
        at a in
    let (e1, a1) = decode_uint32-At type_logic buff pre _ (omega arith) a0 (omega arith) in
    let lp : length (pre ++ t) ≡ length pre + 8 =
      omega (arith, length-append pre t, length-tlv type_logic) in
    let (e2, a2) = decode_uint32-At op (behind_uint32 buff) (pre ++ t) _ c.0 a1 (omega arith) in
    let lq : length ((pre ++ t) ++ o) ≡ length pre + 16 =
      omega (arith, length-append (pre ++ t) o, length-tlv op) in
    let (b3, e3, a3, s3) =
      decode-wire x fuel (behind_uint32 (behind_uint32 buff)) ((pre ++ t) ++ o) (wire y ++ rest) c.1
        (omega arith) a2 (omega arith) in
    let lr : length (((pre ++ t) ++ o) ++ wire x) ≡ length pre + 16 + length (wire x) =
      omega (arith, length-append ((pre ++ t) ++ o) (wire x)) in
    let (b4, e4, a4, s4) =
      decode-wire y fuel b3 (((pre ++ t) ++ o) ++ wire x) rest c.2 (omega arith) a3
        (omega (arith, s3)) in
    let assoc : (((pre ++ t) ++ o) ++ wire x) ++ wire y ≡ pre ++ (t ++ (o ++ (wire x ++ wire y))) =
      append_assoc ((pre ++ t) ++ o) (wire x) (wire y)
      ∙ append_assoc (pre ++ t) o (wire x ++ wire y)
      ∙ append_assoc pre t (o ++ (wire x ++ wire y)) in
    (b4, rw (e1, e2, e3, e4), rw assoc at a4, s4 ∙ s3)

pos_read-encode : (f : Filter) (buff : Buffer) → (encode f buff).pos_read ≡ buff.pos_read
unfolding encode encode_value
pos_read-encode null buff = refl
pos_read-encode (relation op none) buff = simp R.pos_read-write_number
pos_read-encode (relation op (some v)) buff = simp (R.pos_read-write_number, R.pos_read-encode)
pos_read-encode (logic op l r) buff =
    simp (pos_read-encode l, pos_read-encode r, R.pos_read-write_number)

-- A complete filter encoded behind what a buffer holds, and decoded from there with fuel above its
-- depth, is the same filter, unless it fills the allocated memory to its last byte.
pub decode-encode_filter :
    (f : Filter) (fuel : ℕ) (buff : Buffer) {bs : List ℕ}
    → IsComplete f
    → depth f < fuel
    → Holds buff bs
    → buff.pos_read ≡ length bs
    → length bs + length (wire f) < (encode f buff).len_alloc
    → Decodes fuel f (encode f buff) bs []
decode-encode_filter f fuel buff {bs} c d held here room =
    let held' : Holds (encode f buff) (bs ++ (wire f ++ [])) =
      rw append-nil (encode-Holds f buff c held) in
    decode-wire f fuel (encode f buff) bs [] c d
      (record { holds = held'; here = pos_read-encode f buff ∙ here }) room
