-- ===== src/Value.antt =====
-- src/rbus/rbus_value.c: values and their encoding as type, length and bytes. Numbers, `float` and
-- `double` among them, are bit patterns. The buffer inside a string or bytes value is the list of
-- the bytes written to it: a string's ends in its NUL. Properties and objects are not encoded.
pub mod Kinds
pub mod Dates
pub mod RoundTrip
pub mod Total
pub mod Compare
mod Tests
use rbus.Base.{
  ℕ, ◌+◌, ◌%◌, ◌^◌, ◌<◌, ◌≡◌, Bool, Option, none, some, List, [], ◌∷◌, ◌++◌, length, take, drop,
  leb, ◌==◌, if◌then◌else◌,
}
use rbus.Base.Bytes.{All, strlen, le_bytes}
use rbus.Outcome.{Outcome, done, refused, fault, ◌>>=◌}
use rbus.Buffer.{Buffer, read, read_number, bytes_of, write_type_length_value}
use Kinds.{Kind, code, width, kind_of, code_string, code_bytes, code_datetime}
use Dates.{DateTime, to_bytes, of_bytes, size, Fits}

pub data Value : Type 0 where
  number : Kind → ℕ → Value
  datetime : DateTime → Value
  string : List ℕ → Value
  bytes : List ℕ → Value

-- The typed writers of rbus_buffer.c, one for each kind of number.
unfoldable pub write_number : Buffer → Kind → ℕ → Buffer
write_number buff k n =
    write_type_length_value buff (code k) (width k) (some (le_bytes (width k) n))

-- `len` is an `int` here and a uint16_t in the call.
unfoldable pub write_string : Buffer → List ℕ → ℕ → Buffer
write_string buff s len = write_type_length_value buff code_string len (some s)

unfoldable pub write_bytes : Buffer → List ℕ → ℕ → Buffer
write_bytes buff p len = write_type_length_value buff code_bytes len (some p)

unfoldable pub write_datetime : Buffer → DateTime → Buffer
write_datetime buff t = write_type_length_value buff code_datetime size (some (to_bytes t))

-- rbusValue_Encode. Its assertion about a string, that the first NUL is its last byte, is part of
-- `IsValid`.
unfoldable pub encode : Value → Buffer → Buffer
unfolding write_number write_string write_bytes write_datetime
encode (number k n) buff = write_number buff k n
encode (datetime t) buff = write_datetime buff t
encode (string s) buff = write_string buff s (length s)
encode (bytes p) buff = write_bytes buff p (length p)

known : Option ℕ → Buffer → Outcome (ℕ × Buffer)
known none buff = fault
known (some n) buff = done (n, buff)

-- A read of a number whose value the caller goes on with.
field_of : Option (Option ℕ × Buffer) → Outcome (ℕ × Buffer)
unfolding known
field_of none = refused
field_of (some (n, buff)) = known n buff

unfoldable pub read_field : ℕ → Buffer → Outcome (ℕ × Buffer)
unfolding field_of
read_field w buff = field_of (read_number w buff)

known_bytes : Option (List ℕ) → Outcome (List ℕ)
known_bytes none = fault
known_bytes (some bs) = done bs

-- The bytes at the read position, which strings and byte arrays are taken from in place. The check
-- allows the end of the memory, unlike that of rbusBuffer_Read.
unfoldable pub take_bytes : ℕ → Buffer → Outcome (List ℕ × Buffer)
unfolding known_bytes
take_bytes len buff =
    if leb (buff.pos_read + len) buff.len_alloc
    then (do
      bs ← known_bytes (bytes_of (take len (drop buff.pos_read buff.cells)))
      done (bs, record buff { pos_read = buff.pos_read + len }))
    else refused

-- The assertion wants the first NUL at the end.
decode_string : ℕ → Buffer → Outcome (Value × Buffer)
decode_string len buff = do
  (s, buff') ← take_bytes len buff
  if strlen s + 1 == len then done (string s, buff') else fault

decode_bytes : ℕ → Buffer → Outcome (Value × Buffer)
decode_bytes len buff = do (p, buff') ← take_bytes len buff; done (bytes p, buff')

-- `default: assert(false)`
decode_number : Option Kind → Buffer → Outcome (Value × Buffer)
decode_number none buff = fault
decode_number (some k) buff = do (n, buff') ← read_field (width k) buff; done (number k n, buff')

read_bytes : Option (List (Option ℕ) × Buffer) → Outcome (List ℕ × Buffer)
unfolding known_bytes
read_bytes none = refused
read_bytes (some (cells, buff)) = do bs ← known_bytes (bytes_of cells); done (bs, buff)

datetime_of : Option DateTime → Buffer → Outcome (Value × Buffer)
datetime_of none buff = fault
datetime_of (some t) buff = done (datetime t, buff)

decode_datetime : Buffer → Outcome (Value × Buffer)
unfolding read_bytes datetime_of
decode_datetime buff = do (bs, buff') ← read_bytes (read buff size); datetime_of (of_bytes bs) buff'

-- The switch of rbusValue_Decode.
decode_as : ℕ → ℕ → Buffer → Outcome (Value × Buffer)
decode_as type len buff =
    if type == code_string
    then decode_string len buff
    else if type == code_bytes
    then decode_bytes len buff
    else if type == code_datetime
    then decode_datetime buff
    else decode_number (kind_of type) buff

-- rbusValue_Decode: the value and the buffer behind it; a negative code is `refused`.
pub decode : Buffer → Outcome (Value × Buffer)
unfolding decode_string decode_bytes decode_datetime decode_number
decode buff = do (type, b1) ← read_field 2 buff; (len, b2) ← read_field 2 b1; decode_as type len b2

-- The bytes that stand for a value.
abbrev pub wire_code : Value → ℕ
wire_code (number k n) = code k
wire_code (datetime t) = code_datetime
wire_code (string s) = code_string
wire_code (bytes p) = code_bytes

abbrev pub payload : Value → List ℕ
payload (number k n) = le_bytes (width k) n
payload (datetime t) = to_bytes t
payload (string s) = s
payload (bytes p) = p

abbrev pub wire_len : Value → ℕ
wire_len (number k n) = width k
wire_len (datetime t) = size
wire_len (string s) = length s
wire_len (bytes p) = length p

abbrev pub wire : Value → List ℕ
wire v = le_bytes 2 (wire_code v) ++ (le_bytes 2 (wire_len v) ++ payload v)

-- A number fits its type, a string ends in its first NUL, and the length fits 16 bits.
abbrev pub IsValid : Value → Type 0
IsValid (number k n) = n < 256 ^ width k
IsValid (datetime t) = Fits t
IsValid (string s) = (strlen s + 1 ≡ length s) × (length s < 2 ^ 16)
IsValid (bytes p) = length p < 2 ^ 16
