-- ===== src/Value/RoundTrip.antt =====
-- rbusValue_Encode and rbusValue_Decode together.
use rbus.Base.{
  ℕ, ◌+◌, ◌%◌, ◌^◌, ◌≤◌, ◌<◌, ◌≡◌, refl, ◌∙◌, true, some, List, [], ◌++◌, append_assoc, append-nil,
  length, take, leb, ◌==◌, length-append, take-length, arith, lt→ltb, length-take,
}
use rbus.Base.Bytes.{strlen, le_bytes, length-le_bytes}
use rbus.Outcome.{done}
use rbus.Buffer.{Buffer, write_type_length_value}
use rbus.Buffer.Contents.{Holds, write_type_length_value-Holds, pos_read-write}
use rbus.Buffer.Reading.{
  At, At-advance, advance, read_number-At, read_lem, window_lem, bytes_of-cells_of,
}
use rbus.Value.Kinds.{
  Kind, code, width, kind_of, kind_of-code, code_string, code_bytes, code_datetime,
}
use rbus.Value.Dates.{DateTime, to_bytes, size, length-to_bytes, of_bytes-to_bytes, Fits}
use rbus.Value.{
  Value, number, datetime, string, bytes, encode, decode, decode_as, decode_string, decode_bytes,
  decode_number, decode_datetime, read_field, take_bytes, write_number, wire, wire_code, payload,
  IsValid, wire_len,
}

write_tlv_lem :
    (buff : Buffer) (type len : ℕ) (value : List ℕ) {bs : List ℕ}
    → Holds buff bs
    → type < 2 ^ 16
    → len < 2 ^ 16
    → length value ≡ len
    → Holds
        (write_type_length_value buff type len (some value))
        (bs ++ (le_bytes 2 type ++ (le_bytes 2 len ++ value)))
write_tlv_lem buff type len value h t l e =
    let e0 : type % 2 ^ 16 ≡ type = omega arith in
    let e1 : len % 2 ^ 16 ≡ len = omega arith in
    let e2 : take len value ≡ value = rw (← e) (take-length value) in
    rw (e0, e1, e2) at (write_type_length_value-Holds buff type len value h)

code_bound : (k : Kind) → (code k < 0x50D) × (width k ≤ 8)
code_bound Kind.boolean = omega arith
code_bound _ = omega arith

pub length-payload : (v : Value) → length (payload v) ≡ wire_len v
length-payload (number k n) = length-le_bytes (width k) n
length-payload (datetime t) = length-to_bytes t
length-payload (string s) = refl
length-payload (bytes p) = refl

code_fits : (v : Value) → IsValid v → (wire_code v < 2 ^ 16) × (wire_len v < 2 ^ 16)
code_fits (number k n) h = omega (arith, code_bound k)
code_fits (datetime t) h = omega arith
code_fits (string s) h = (omega arith, h.1)
code_fits (bytes p) h = (omega arith, h)

-- Encoding a valid value appends its wire form.
pub encode-Holds :
    (v : Value) (buff : Buffer) {bs : List ℕ}
    → IsValid v
    → Holds buff bs
    → Holds (encode v buff) (bs ++ wire v)
unfolding encode
encode-Holds (number k n) buff v h =
    let (c, l) = code_fits (number k n) v in
    write_tlv_lem buff (code k) (width k) (le_bytes (width k) n) h c l (length-le_bytes (width k) n)
encode-Holds (datetime t) buff v h =
    write_tlv_lem buff code_datetime size (to_bytes t) h (omega arith) (omega arith)
      (length-to_bytes t)
encode-Holds (string s) buff v h =
    write_tlv_lem buff code_string (length s) s h (omega arith) v.1 refl
encode-Holds (bytes p) buff v h = write_tlv_lem buff code_bytes (length p) p h (omega arith) v refl

pub write_number-Holds :
    (k : Kind) (n : ℕ) (buff : Buffer) {bs : List ℕ}
    → n < 256 ^ width k
    → Holds buff bs
    → Holds (write_number buff k n) (bs ++ wire (number k n))
unfolding encode
write_number-Holds k n buff fits h = encode-Holds (number k n) buff fits h

pub read_field-At :
    (w n : ℕ) (buff : Buffer) (pre rest : List ℕ)
    → At buff pre (le_bytes w n ++ rest)
    → length pre + w < buff.len_alloc
    → n < 256 ^ w
    → (read_field w buff ≡ done (n, advance buff w))
      × At (advance buff w) (pre ++ le_bytes w n) rest
unfolding read_field
read_field-At w n buff pre rest a room fits =
    let (e, a') = read_number-At w n buff pre rest a room fits in (rw e, a')

take_bytes-At :
    (p : List ℕ) (buff : Buffer) (pre rest : List ℕ)
    → At buff pre (p ++ rest)
    → length pre + length p ≤ buff.len_alloc
    → take_bytes (length p) buff ≡ done (p, advance buff (length p))
unfolding take_bytes
take_bytes-At p buff pre rest a room =
    let e : leb (length pre + length p) buff.len_alloc ≡ true = ground arith in
    rw (a.here, a.holds.cells_lem, window_lem pre p rest a.holds.tail, bytes_of-cells_of p, e)

decode_as_number :
    (type len : ℕ) (buff : Buffer)
    → type < 0x50D
    → decode_as type len buff ≡ decode_number (kind_of type) buff
unfolding decode_as
decode_as_number type len buff h = ground arith

decode_datetime-wire :
    (t : DateTime) (buff : Buffer) (pre rest : List ℕ)
    → Fits t
    → At buff pre (to_bytes t ++ rest)
    → length pre + size < buff.len_alloc
    → decode_datetime buff ≡ done (datetime t, advance buff size)
unfolding decode_datetime
decode_datetime-wire t buff pre rest v a room =
    let r = rw (length-to_bytes t) at (read_lem buff pre (to_bytes t) rest a.holds a.here) in
    rw (r, lt→ltb _ _ room, bytes_of-cells_of, of_bytes-to_bytes t v)

decode_as-wire :
    (v : Value) (buff : Buffer) (pre rest : List ℕ)
    → IsValid v
    → At buff pre (payload v ++ rest)
    → length pre + wire_len v < buff.len_alloc
    → decode_as (wire_code v) (wire_len v) buff ≡ done (v, advance buff (wire_len v))
unfolding decode_as decode_number decode_string decode_bytes
decode_as-wire (number k n) buff pre rest v a room =
    let (e, _) = read_field-At (width k) n buff pre rest a room v in
    rw (decode_as_number (code k) (width k) buff (code_bound k).0, kind_of-code k, e)
decode_as-wire (datetime t) buff pre rest v a room = decode_datetime-wire t buff pre rest v a room
decode_as-wire (string s) buff pre rest v a room =
    let e : (strlen s + 1 == length s) ≡ true = ground arith in
    rw (take_bytes-At s buff pre rest a (omega arith), e)
decode_as-wire (bytes p) buff pre rest v a room = rw (take_bytes-At p buff pre rest a (omega arith))

-- The buffer once a value has been read.
abbrev pub behind : Value → Buffer → Buffer
behind v buff = advance (advance (advance buff 2) 2) (wire_len v)

-- Where the bytes that encoding appends stand at the read position, and do not reach the end of
-- the allocated memory, decoding gives the value back, of whatever type it is, and leaves the
-- position behind those bytes.
pub decode-wire :
    (v : Value) (buff : Buffer) (pre rest : List ℕ)
    → IsValid v
    → At buff pre (wire v ++ rest)
    → length pre + length (wire v) < buff.len_alloc
    → (decode buff ≡ done (v, behind v buff)) × At (behind v buff) (pre ++ wire v) rest
unfolding decode
decode-wire v buff pre rest h a room =
    let c = le_bytes 2 (wire_code v) in
    let l = le_bytes 2 (wire_len v) in
    let (cf, lf) = code_fits v h in
    let size_lem : length (wire v) ≡ 4 + wire_len v = omega (
      arith,
      length-append c (l ++ payload v),
      length-append l (payload v),
      length-le_bytes 2 (wire_code v),
      length-le_bytes 2 (wire_len v),
      length-payload v,
    ) in
    let a0 : At buff pre (c ++ (l ++ (payload v ++ rest))) =
      rw (append_assoc c (l ++ payload v) rest, append_assoc l (payload v) rest) at a in
    let (e1, a1) = read_field-At 2 (wire_code v) buff pre _ a0 (omega arith) (omega arith) in
    let lp : length (pre ++ c) ≡ length pre + 2 =
      omega (arith, length-append pre c, length-le_bytes 2 (wire_code v)) in
    let (e2, a2) =
      read_field-At 2 (wire_len v) (advance buff 2) (pre ++ c) _ a1 (omega arith) (omega arith) in
    let lq : length ((pre ++ c) ++ l) ≡ length pre + 4 =
      omega (arith, length-append (pre ++ c) l, length-le_bytes 2 (wire_len v)) in
    let e3 =
      decode_as-wire v (advance (advance buff 2) 2) ((pre ++ c) ++ l) rest h a2 (omega arith) in
    let a3 = At-advance (advance (advance buff 2) 2) ((pre ++ c) ++ l) (payload v) rest a2 in
    let assoc : ((pre ++ c) ++ l) ++ payload v ≡ pre ++ wire v =
      append_assoc (pre ++ c) l (payload v) ∙ append_assoc pre c (l ++ payload v) in
    (rw (e1, e2, e3), rw (length-payload v, assoc) at a3)

pub pos_read-write_number :
    (buff : Buffer) (k : Kind) (n : ℕ) → (write_number buff k n).pos_read ≡ buff.pos_read
unfolding write_number write_type_length_value
pos_read-write_number buff k n = simp pos_read-write

pub pos_read-encode : (v : Value) (buff : Buffer) → (encode v buff).pos_read ≡ buff.pos_read
unfolding encode write_type_length_value
pos_read-encode (number k n) buff = simp pos_read-write
pos_read-encode (datetime t) buff = simp pos_read-write
pos_read-encode (string s) buff = simp pos_read-write
pos_read-encode (bytes p) buff = simp pos_read-write

-- A valid value encoded behind what a buffer holds, and decoded from there, is the same value, and
-- the position is then behind it, unless the value fills the allocated memory to its last byte.
pub decode-encode_value :
    (v : Value) (buff : Buffer) {bs : List ℕ}
    → IsValid v
    → Holds buff bs
    → buff.pos_read ≡ length bs
    → length bs + length (wire v) < (encode v buff).len_alloc
    → decode (encode v buff) ≡ done (v, behind v (encode v buff))
decode-encode_value v buff {bs} h held here room =
    let held' : Holds (encode v buff) (bs ++ (wire v ++ [])) =
      rw append-nil (encode-Holds v buff h held) in
    let a : At (encode v buff) bs (wire v ++ []) = record {
      holds = held';
      here = pos_read-encode v buff ∙ here;
    } in
    (decode-wire v (encode v buff) bs [] h a room).0

-- Bytes of 64 KiB and more are cut: what is appended is the wire form of as many of them as their
-- length modulo 2^16 says.
pub encode-bytes_cut :
    (p : List ℕ) (buff : Buffer) {bs : List ℕ}
    → Holds buff bs
    → Holds (encode (bytes p) buff) (bs ++ wire (bytes (take (length p % 2 ^ 16) p)))
unfolding encode
encode-bytes_cut p buff h =
    let n = length p % 2 ^ 16 in
    let e : length (take n p) ≡ n = omega (arith, length-take n p) in
    rw e (write_type_length_value-Holds buff code_bytes (length p) p h)
