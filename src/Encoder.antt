-- ===== src/Encoder.antt =====
-- src/rtmessage/rtEncoder.c: numbers and strings in network byte order. A writer's `uint8_t** itr`
-- is the list of the bytes written so far; a reader's is the list of the bytes still ahead. An
-- access outside an array, which the code does not guard, is the fault `none`.
pub mod RoundTrip
use rbus.Base.{
  ℕ, zero, suc, ◌+◌, ◌*◌, ◌%◌, ◌^◌, Option, none, some, List, [], ◌∷◌, ◌++◌, length, leb,
  if◌then◌else◌, ◌>>=◌,
}
use rbus.Base.Bytes.{be16, be32, strlen, overlay}

-- The first `n` elements and the rest; a fault if there are fewer.
abbrev pub split? {ℓ} : {A : Type ℓ} → ℕ → List A → Option (List A × List A)
split? zero xs = some ([], xs)
split? (suc n) [] = none
split? (suc n) (x ∷ xs) = do (front, rest) ← split? n xs; some (x ∷ front, rest)

-- `memcpy(s, *itr, len); *itr += len;`
pub copy_out : ℕ → List ℕ → List ℕ → Option (List ℕ × List ℕ)
copy_out len s itr = do
  (bytes, rest) ← split? len itr
  if leb len (length s) then some (overlay bytes s, rest) else none

unfoldable pub encode_uint16 : List ℕ → ℕ → List ℕ
encode_uint16 itr n = itr ++ be16 n

unfoldable pub decode_uint16 : List ℕ → Option (ℕ × List ℕ)
decode_uint16 (a ∷ b ∷ itr) = some (a * 256 + b, itr)
decode_uint16 _ = none

unfoldable pub encode_uint32 : List ℕ → ℕ → List ℕ
encode_uint32 itr n = itr ++ be32 n

unfoldable pub decode_uint32 : List ℕ → Option (ℕ × List ℕ)
decode_uint32 (a ∷ b ∷ c ∷ d ∷ itr) = some (((a * 256 + b) * 256 + c) * 256 + d, itr)
decode_uint32 _ = none

-- The length comes from `n`, or from `strlen` where `n` is NULL.
abbrev string_len : List ℕ → Option ℕ → ℕ
string_len s (some n) = n
string_len s none = strlen s % 2 ^ 32

unfoldable pub encode_string : List ℕ → List ℕ → Option ℕ → Option (List ℕ)
unfolding encode_uint32
encode_string itr s n = do
  let len = string_len s n
  (bytes, _) ← split? len s
  some (encode_uint32 itr len ++ bytes)

unfoldable pub decode_str : List ℕ → List ℕ → ℕ → Option (List ℕ × List ℕ)
unfolding copy_out
decode_str itr s len = copy_out len s itr

-- Returns the array, `*n` and the reader.
unfoldable pub decode_string : List ℕ → List ℕ → Option (List ℕ × ℕ × List ℕ)
unfolding copy_out decode_uint32
decode_string itr s = do (len, p) ← decode_uint32 itr; (s', q) ← copy_out len s p; some (s', len, q)
