-- ===== src/Base64.antt =====
-- src/rtmessage/rtBase64.c: bytes as text of four characters for each three bytes. The Boolean
-- argument says whether the allocation succeeds. A read outside an array or outside the table is
-- the fault `none`, or `fault` in the steps of decoding, where a character that is not in the
-- alphabet is `refused`.
pub mod Bounds
pub mod RoundTrip
mod Tests
use rbus.Base.{
  ℕ, zero, suc, ◌+◌, ◌-◌, ◌*◌, ◌/◌, ◌%◌, ◌^◌, Bool, ◌&&◌, Option, none, some, List, [], ◌∷◌, ◌++◌,
  length, ltb, leb, ◌==◌, if◌then◌else◌, ◌>>=◌,
}
use Prim.Native.Nat.{bit_and, bit_or}
use rbus.Outcome.{Outcome, done, refused, fault, exhausted}
use rbus.Outcome.{◌>>=◌ as ◌>>=o◌}
use rbus.Error.{RtError, ok, failed}

-- RBUS_BINARY_DATA_SIZE_LIMIT, RBUS_BASE64_DATA_SIZE_LIMIT
abbrev pub binary_limit : ℕ
binary_limit = 1026

abbrev pub text_limit : ℕ
text_limit = 1368

abbrev pub equals_sign : ℕ
equals_sign = 61

-- base64_lookup_table: the 26 capitals, the 26 small letters, the digits, `+` and `/`.
unfoldable pub symbol : ℕ → Option ℕ
symbol n =
    if ltb n 26
    then some (65 + n)
    else if ltb n 52
    then some (97 + (n - 26))
    else if ltb n 62
    then some (48 + (n - 52))
    else if n == 62
    then some 43
    else if n == 63
    then some 47
    else none

unfoldable pub decode_char : ℕ → Outcome ℕ
decode_char c =
    if leb 65 c && leb c 90
    then done (c - 65)
    else if leb 97 c && leb c 122
    then done (26 + c - 97)
    else if leb 48 c && leb c 57
    then done (52 + c - 48)
    else if c == 43
    then done 62
    else if c == 47
    then done 63
    else refused

-- What the functions return, `*out` (`none` for NULL and for not set) and `*out_size` (`none` for
-- not set).
pub record Result : Type 0 where
  pub status : RtError
  pub out : Option (List ℕ)
  pub out_size : Option ℕ

abbrev first_index : ℕ → ℕ
first_index a = a / 4

abbrev second_index : ℕ → ℕ → ℕ
second_index a b = bit_or (bit_and a 3 * 2 ^ 4) (b / 16)

abbrev third_index : ℕ → ℕ → ℕ
third_index b c = bit_or (bit_and b 15 * 2 ^ 2) (c / 64)

-- The loop over the full groups, and the switch on what is left.
unfoldable pub encode_groups : List ℕ → Option (List ℕ)
encode_groups [] = some []
encode_groups (a ∷ []) = do
  p ← symbol (first_index a)
  q ← symbol (bit_and a 3 * 2 ^ 4)
  some (p ∷ q ∷ equals_sign ∷ equals_sign ∷ [])
encode_groups (a ∷ b ∷ []) = do
  p ← symbol (first_index a)
  q ← symbol (second_index a b)
  r ← symbol (bit_and b 15 * 2 ^ 2)
  some (p ∷ q ∷ r ∷ equals_sign ∷ [])
encode_groups (a ∷ b ∷ c ∷ rest) = do
  p ← symbol (first_index a)
  q ← symbol (second_index a b)
  r ← symbol (third_index b c)
  s ← symbol (bit_and c 63)
  text ← encode_groups rest
  some (p ∷ q ∷ r ∷ s ∷ text)

-- The memory that rtBase64_encode asks for.
abbrev pub encoded_size : ℕ → ℕ
encoded_size n = if n % 3 == 0 then n * 4 / 3 + 1 else n * 4 / 3 + 1 + 4

-- rtBase64_encode: the text ends in a NUL.
unfoldable pub encode : Bool → List ℕ → Option Result
encode success bytes =
    let size = encoded_size (length bytes) in
    let written = do
      text ← encode_groups bytes
      some (record { status = ok; out = some (text ++ 0 ∷ []); out_size = some size })
    in if ltb binary_limit (length bytes)
      then some (record { status = failed; out = none; out_size = none })
      else if success
      then written
      else some (record { status = failed; out = none; out_size = some size })

-- The last two characters, `in[in_size - 2]` and `in[in_size - 1]`.
abbrev pub last_two : List ℕ → Option (ℕ × ℕ)
last_two [] = none
last_two (x ∷ []) = none
last_two (x ∷ y ∷ []) = some (x, y)
last_two (x ∷ y ∷ z ∷ text) = last_two (y ∷ z ∷ text)

-- num_padding_bytes
abbrev pub padding : ℕ × ℕ → ℕ
padding (x, y) = if x == equals_sign then 2 else if y == equals_sign then 1 else 0

-- The three bytes of four characters' numbers.
abbrev pub first_byte : ℕ → ℕ → ℕ
first_byte w x = bit_or (w * 2 ^ 2) (x / 16) % 256

abbrev pub second_byte : ℕ → ℕ → ℕ
second_byte x y = bit_or (x * 2 ^ 4) (y / 4) % 256

abbrev pub third_byte : ℕ → ℕ → ℕ
third_byte y z = bit_or (y * 2 ^ 6) (bit_and z 63) % 256

-- `n` rounds of the loop: the bytes written, and the characters ahead.
unfoldable pub decode_groups : ℕ → List ℕ → Outcome (List ℕ × List ℕ)
decode_groups zero text = done ([], text)
decode_groups (suc n) (p ∷ q ∷ r ∷ s ∷ text) = decode_char p >>=o λ w. decode_char q >>=o λ x.
    decode_char r >>=o λ y. decode_char s >>=o λ z. decode_groups n text >>=o λ (bytes, rest).
    done (first_byte w x ∷ second_byte x y ∷ third_byte y z ∷ bytes, rest)
decode_groups (suc n) _ = fault

-- The last group, where there is padding.
unfoldable pub decode_last : ℕ → List ℕ → Outcome (List ℕ)
decode_last (suc (suc zero)) (p ∷ q ∷ _) =
    decode_char p >>=o λ w. decode_char q >>=o λ x. done (first_byte w x ∷ [])
decode_last (suc zero) (p ∷ q ∷ r ∷ _) = decode_char p >>=o λ w.
    decode_char q >>=o λ x. decode_char r >>=o λ y. done (first_byte w x ∷ second_byte x y ∷ [])
decode_last zero _ = done []
decode_last _ _ = fault

-- The text without its last group, if that is padded, has `n / 4` groups.
unfoldable pub decode_text : ℕ → List ℕ → Outcome (List ℕ)
decode_text pad text =
    let n = length text - (if pad == 0 then 0 else 4) in
    decode_groups (n / 4) text >>=o λ (bytes, rest).
    decode_last pad rest >>=o λ last. done (bytes ++ last)

-- A character outside the alphabet gives RT_ERROR and NULL.
finish : ℕ → Outcome (List ℕ) → Option Result
finish size (done bytes) = some (record { status = ok; out = some bytes; out_size = some size })
finish size refused = some (record { status = failed; out = none; out_size = some size })
finish size fault = none
finish size exhausted = none

-- What follows the two guards.
decode_padded : Bool → List ℕ → Option (ℕ × ℕ) → Option Result
unfolding finish
decode_padded success text none = none
decode_padded success text (some last) =
    let size = length text * 3 / 4 - padding last in
    let written = finish size (decode_text (padding last) text) in
    if success then written else some (record { status = failed; out = none; out_size = some size })

-- rtBase64_decode
unfoldable pub decode : Bool → List ℕ → Option Result
unfolding decode_padded
decode success text =
    if ltb text_limit (length text)
    then some (record { status = failed; out = none; out_size = none })
    else if length text % 4 == 0
    then decode_padded success text (last_two text)
    else some (record { status = failed; out = none; out_size = none })
