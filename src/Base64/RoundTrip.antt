-- ===== src/Base64/RoundTrip.antt =====
-- rtBase64_encode and rtBase64_decode together.
use rbus.Base.{
  ℕ, zero, suc, ◌+◌, ◌-◌, ◌*◌, ◌/◌, ◌%◌, ◌^◌, ◌≤◌, ◌<◌, ◌≡◌, ◌≢◌, refl, ap, true, false, some, List,
  [], ◌∷◌, ◌++◌, length, ltb, ◌==◌, if◌then◌else◌, arith,
}
use rbus.Base.Bytes.{All}
use rbus.Base.Bits.{bit_or-shifted, bit_and_three, bit_and_fifteen, bit_and_sixty_three}
use Prim.Native.Nat.{bit_and}
use rbus.Outcome.{done}
use rbus.Error.{ok}
use rbus.Base64.{
  symbol, decode_char, encode_groups, encode, encoded_size, last_two, padding, decode_groups,
  decode_last, decode_text, decode_padded, decode, equals_sign, second_index, third_index,
  first_byte, second_byte, third_byte, finish,
}

abbrev pub IsByte : ℕ → Type 0
IsByte b = b < 256

abbrev char_of : ℕ → ℕ
char_of n =
    if ltb n 26
    then 65 + n
    else if ltb n 52
    then 97 + (n - 26)
    else if ltb n 62
    then 48 + (n - 52)
    else if n == 62
    then 43
    else 47

-- A number below 64 has a character of its own.
symbol_lem :
    (n : ℕ) → n < 64 → (c : ℕ) × (symbol n ≡ some c) × (decode_char c ≡ done n) × (c ≢ equals_sign)
unfolding symbol decode_char
symbol_lem n h = (char_of n, ground arith, ground arith, ground arith)

second_index_lem : (a b : ℕ) → b < 256 → second_index a b ≡ a % 4 * 16 + b / 16
second_index_lem a b h = rw (bit_and_three a) (bit_or-shifted 4 (a % 4) (b / 16) (omega arith))

third_index_lem : (b c : ℕ) → c < 256 → third_index b c ≡ b % 16 * 4 + c / 64
third_index_lem b c h = rw (bit_and_fifteen b) (bit_or-shifted 2 (b % 16) (c / 64) (omega arith))

first_byte_lem : (w x : ℕ) → x < 64 → first_byte w x ≡ (w * 4 + x / 16) % 256
first_byte_lem w x h = ap (λ n. n % 256) (bit_or-shifted 2 w (x / 16) (omega arith))

second_byte_lem : (x y : ℕ) → y < 64 → second_byte x y ≡ (x * 16 + y / 4) % 256
second_byte_lem x y h = ap (λ n. n % 256) (bit_or-shifted 4 x (y / 4) (omega arith))

third_byte_lem : (y z : ℕ) → third_byte y z ≡ (y * 64 + z % 64) % 256
third_byte_lem y z =
    rw (bit_and_sixty_three z) (ap (λ n. n % 256) (bit_or-shifted 6 y (z % 64) (omega arith)))

-- How the text of some bytes is read.
record Coded (bytes text : List ℕ) : Type 0 where
  pub front : List ℕ
  pub rest : List ℕ
  pub last : List ℕ
  pub encoded : encode_groups bytes ≡ some text
  pub groups : decode_groups (length bytes / 3) text ≡ done (front, rest)
  pub ending : decode_last ((3 - length bytes % 3) % 3) rest ≡ done last
  pub whole : front ++ last ≡ bytes
  pub size : length text ≡ (length bytes + 2) / 3 * 4
  pub final :
      0 < length bytes
      → (p : ℕ × ℕ) × (last_two text ≡ some p) × (padding p ≡ (3 - length bytes % 3) % 3)

Coded-empty : Coded [] []
unfolding encode_groups decode_groups decode_last
Coded-empty = record {
  front = [];
  rest = [];
  last = [];
  encoded = refl;
  groups = refl;
  ending = refl;
  whole = refl;
  size = refl;
  final = λ h. absurd (omega arith);
}

Coded-one : (a : ℕ) → a < 256 → (text : List ℕ) × Coded (a ∷ []) text
unfolding encode_groups decode_groups decode_last
Coded-one a h =
    let (p, ep, dp, np) = symbol_lem (a / 4) (omega arith) in
    let n : bit_and a 3 * 2 ^ 4 ≡ a % 4 * 16 = omega (arith, bit_and_three a) in
    let (q, eq, dq, nq) = symbol_lem (a % 4 * 16) (omega arith) in
    (
      p ∷ q ∷ equals_sign ∷ equals_sign ∷ [],
      record {
        front = [];
        rest = p ∷ q ∷ equals_sign ∷ equals_sign ∷ [];
        last = a ∷ [];
        encoded = rw (ep, n, eq);
        groups = refl;
        ending =
            rw (dp, dq)
              (ap (λ b. done (b ∷ []))
                (omega (arith, first_byte_lem (a / 4) (a % 4 * 16) (omega arith))));
        whole = refl;
        size = refl;
        final = λ h. ((equals_sign, equals_sign), refl, refl);
      },
    )

Coded-two : (a b : ℕ) → a < 256 → b < 256 → (text : List ℕ) × Coded (a ∷ b ∷ []) text
unfolding encode_groups decode_groups decode_last
Coded-two a b h k =
    let (p, ep, dp, np) = symbol_lem (a / 4) (omega arith) in
    let (q, eq, dq, nq) = symbol_lem (a % 4 * 16 + b / 16) (omega arith) in
    let n : bit_and b 15 * 2 ^ 2 ≡ b % 16 * 4 = omega (arith, bit_and_fifteen b) in
    let (r, er, dr, nr) = symbol_lem (b % 16 * 4) (omega arith) in
    let x : first_byte (a / 4) (a % 4 * 16 + b / 16) ≡ a =
      omega (arith, first_byte_lem (a / 4) (a % 4 * 16 + b / 16) (omega arith)) in
    let y : second_byte (a % 4 * 16 + b / 16) (b % 16 * 4) ≡ b =
      omega (arith, second_byte_lem (a % 4 * 16 + b / 16) (b % 16 * 4) (omega arith)) in
    (
      p ∷ q ∷ r ∷ equals_sign ∷ [],
      record {
        front = [];
        rest = p ∷ q ∷ r ∷ equals_sign ∷ [];
        last = a ∷ b ∷ [];
        encoded = rw (ep, second_index_lem a b k, eq, n, er);
        groups = refl;
        ending = rw (dp, dq, dr, x, y);
        whole = refl;
        size = refl;
        final = λ h. ((r, equals_sign), refl, ground arith);
      },
    )

last_two-cons :
    (c : ℕ) (text : List ℕ) (p : ℕ × ℕ) → last_two text ≡ some p → last_two (c ∷ text) ≡ some p
last_two-cons c [] p h = cc
last_two-cons c (x ∷ []) p h = cc
last_two-cons c (x ∷ y ∷ text) p h = h

encode_groups-cons :
    (a b c : ℕ) (bytes : List ℕ) {p q r s : ℕ} {text : List ℕ}
    → b < 256
    → c < 256
    → symbol (a / 4) ≡ some p
    → symbol (a % 4 * 16 + b / 16) ≡ some q
    → symbol (b % 16 * 4 + c / 64) ≡ some r
    → symbol (c % 64) ≡ some s
    → encode_groups bytes ≡ some text
    → encode_groups (a ∷ b ∷ c ∷ bytes) ≡ some (p ∷ q ∷ r ∷ s ∷ text)
unfolding encode_groups
encode_groups-cons a b c bytes k l ep eq er es et =
    rw (ep, second_index_lem a b k, eq, third_index_lem b c l, er, bit_and_sixty_three c, es, et)

final-more :
    (r s n : ℕ) (text : List ℕ)
    → r ≢ equals_sign
    → s ≢ equals_sign
    → length text ≡ (n + 2) / 3 * 4
    → (0 < n → (p : ℕ × ℕ) × (last_two text ≡ some p) × (padding p ≡ (3 - n % 3) % 3))
    → (p : ℕ × ℕ) × (last_two (r ∷ s ∷ text) ≡ some p) × (padding p ≡ (3 - n % 3) % 3)
final-more r s zero [] nr ns e f = ((r, s), refl, ground arith)
final-more r s zero (x ∷ text) nr ns e f = absurd (omega arith)
final-more r s (suc n) text nr ns e f =
    let (p, g, h) = f (omega arith) in
    (p, last_two-cons r (s ∷ text) p (last_two-cons s text p g), h)

-- Three more bytes in front.
Coded-more :
    (a b c : ℕ) (bytes : List ℕ)
    → a < 256
    → b < 256
    → c < 256
    → (text : List ℕ) × Coded bytes text
    → (text : List ℕ) × Coded (a ∷ b ∷ c ∷ bytes) text
unfolding decode_groups
Coded-more a b c bytes h k l (text, t) =
    let (p, ep, dp, np) = symbol_lem (a / 4) (omega arith) in
    let (q, eq, dq, nq) = symbol_lem (a % 4 * 16 + b / 16) (omega arith) in
    let (r, er, dr, nr) = symbol_lem (b % 16 * 4 + c / 64) (omega arith) in
    let (s, es, ds, ns) = symbol_lem (c % 64) (omega arith) in
    let x : first_byte (a / 4) (a % 4 * 16 + b / 16) ≡ a =
      omega (arith, first_byte_lem (a / 4) (a % 4 * 16 + b / 16) (omega arith)) in
    let y : second_byte (a % 4 * 16 + b / 16) (b % 16 * 4 + c / 64) ≡ b =
      omega (arith, second_byte_lem (a % 4 * 16 + b / 16) (b % 16 * 4 + c / 64) (omega arith)) in
    let z : third_byte (b % 16 * 4 + c / 64) (c % 64) ≡ c =
      omega (arith, third_byte_lem (b % 16 * 4 + c / 64) (c % 64)) in
    let three : length (a ∷ b ∷ c ∷ bytes) / 3 ≡ suc (length bytes / 3) = omega arith in
    let left : (3 - length (a ∷ b ∷ c ∷ bytes) % 3) % 3 ≡ (3 - length bytes % 3) % 3 =
      omega arith in
    (
      p ∷ q ∷ r ∷ s ∷ text,
      record {
        front = a ∷ b ∷ c ∷ t.front;
        rest = t.rest;
        last = t.last;
        encoded = encode_groups-cons a b c bytes k l ep eq er es t.encoded;
        groups = rw (three, dp, dq, dr, ds, t.groups, x, y, z);
        ending = rw left t.ending;
        whole = ap (λ l. a ∷ b ∷ c ∷ l) t.whole;
        size = omega (arith, t.size);
        final = λ _. rw left (final-more r s (length bytes) text nr ns t.size t.final);
      },
    )

coded : (bytes : List ℕ) → All IsByte bytes → (text : List ℕ) × Coded bytes text
coded [] h = ([], Coded-empty)
coded (a ∷ []) h = Coded-one a h.0
coded (a ∷ b ∷ []) h = Coded-two a b h.0 h.1.0
coded (a ∷ b ∷ c ∷ bytes) h = Coded-more a b c bytes h.0 h.1.0 h.1.1.0 (coded bytes h.1.1.1)

encode_lem :
    (bytes text : List ℕ)
    → length bytes ≤ 1026
    → encode_groups bytes ≡ some text
    → encode true bytes
      ≡ some (record {
        status = ok;
        out = some (text ++ 0 ∷ []);
        out_size = some (encoded_size (length bytes));
      })
unfolding encode
encode_lem bytes text limit e = let g : ltb 1026 (length bytes) ≡ false = ground arith in rw (g, e)

decode_text_lem :
    (bytes text : List ℕ) (pad : ℕ)
    → Coded bytes text
    → pad ≡ (3 - length bytes % 3) % 3
    → decode_text pad text ≡ done bytes
unfolding decode_text
decode_text_lem bytes text pad t k =
    let n : (length text - (if pad == 0 then 0 else 4)) / 4 ≡ length bytes / 3 =
      ground (arith, t.size, k) in
    rw (n, t.groups, k, t.ending, t.whole)

decode_lem :
    (bytes text : List ℕ) (p : ℕ × ℕ)
    → Coded bytes text
    → length bytes ≤ 1026
    → last_two text ≡ some p
    → padding p ≡ (3 - length bytes % 3) % 3
    → decode true text
      ≡ some (record { status = ok; out = some bytes; out_size = some (length bytes) })
unfolding decode decode_padded finish
decode_lem bytes text p t limit e k =
    let g : ltb 1368 (length text) ≡ false = ground (arith, t.size) in
    let h : (length text % 4 == 0) ≡ true = ground (arith, t.size) in
    let size : length text * 3 / 4 - padding p ≡ length bytes = omega (arith, t.size, k) in
    rw (g, h, e, decode_text_lem bytes text (padding p) t k, size)

-- Between 1 and 1026 bytes are encoded, into text that with its NUL fits the memory asked for, and
-- decoding that text without the NUL gives the bytes back, with their number.
pub decode-encode_base64 :
    (bytes : List ℕ)
    → All IsByte bytes
    → 0 < length bytes
    → length bytes ≤ 1026
    → (text : List ℕ) × (encode true bytes
        ≡ some (record {
          status = ok;
          out = some (text ++ 0 ∷ []);
          out_size = some (encoded_size (length bytes));
        }))
      × (length text + 1 ≤ encoded_size (length bytes))
      × (decode true text
          ≡ some (record { status = ok; out = some bytes; out_size = some (length bytes) }))
decode-encode_base64 bytes all some_ limit =
    let (text, t) = coded bytes all in
    let (p, e, k) = t.final some_ in
    (
      text,
      encode_lem bytes text limit t.encoded,
      ground (arith, t.size),
      decode_lem bytes text p t limit e k,
    )
