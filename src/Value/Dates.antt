-- ===== src/Value/Dates.antt =====
-- rbusDateTime_t of include/rbus_value.h: eleven 32-bit numbers, one bool and three bytes of
-- padding. A number is its bit pattern.
use rbus.Base.{
  ℕ, zero, suc, ◌*◌, ◌^◌, ◌<◌, ◌≡◌, refl, Bool, false, not, Option, none, some, List, [], ◌∷◌, ◌++◌,
  append_assoc, length, take, drop, if◌then◌else◌, ◌==◌, length-append, arith,
}
use rbus.Base.Bytes.{All, le_bytes, of_le_bytes, length-le_bytes, of_le_bytes-le_bytes}

pub record DateTime : Type 0 where
  pub sec : ℕ
  pub min : ℕ
  pub hour : ℕ
  pub mday : ℕ
  pub mon : ℕ
  pub year : ℕ
  pub wday : ℕ
  pub yday : ℕ
  pub isdst : ℕ
  pub tzhour : ℕ
  pub tzmin : ℕ
  pub is_west : Bool

abbrev pub size : ℕ
size = 48

-- The numbers in the order of the structure.
abbrev pub words_of : DateTime → List ℕ
words_of t =
    t.sec ∷ t.min ∷ t.hour ∷ t.mday ∷ t.mon ∷ t.year ∷ t.wday ∷ t.yday ∷ t.isdst ∷ t.tzhour
    ∷ t.tzmin ∷ []

abbrev of_words : List ℕ → Bool → Option DateTime
of_words (sec ∷ min ∷ hour ∷ mday ∷ mon ∷ year ∷ wday ∷ yday ∷ isdst ∷ tzhour ∷ tzmin ∷ [])
      is_west =
    some (record {
      sec = sec;
      min = min;
      hour = hour;
      mday = mday;
      mon = mon;
      year = year;
      wday = wday;
      yday = yday;
      isdst = isdst;
      tzhour = tzhour;
      tzmin = tzmin;
      is_west = is_west;
    })
of_words _ is_west = none

pub encode_words : List ℕ → List ℕ
encode_words [] = []
encode_words (w ∷ ws) = le_bytes 4 w ++ encode_words ws

pub decode_words : ℕ → List ℕ → List ℕ
decode_words zero bytes = []
decode_words (suc n) bytes = of_le_bytes (take 4 bytes) ∷ decode_words n (drop 4 bytes)

bool_byte : Bool → ℕ
bool_byte b = if b then 1 else 0

-- The structure that rbusBuffer_WriteDateTimeTLV fills and writes.
unfoldable pub to_bytes : DateTime → List ℕ
unfolding bool_byte
to_bytes t = encode_words (words_of t) ++ (bool_byte t.is_west ∷ 0 ∷ 0 ∷ 0 ∷ [])

flag_of : List ℕ → Bool
flag_of [] = false
flag_of (b ∷ _) = not (b == 0)

-- What rbusBuffer_ReadDateTime takes out of the bytes it has read.
unfoldable pub of_bytes : List ℕ → Option DateTime
unfolding flag_of
of_bytes bytes = of_words (decode_words 11 bytes) (flag_of (drop 44 bytes))

abbrev pub Fits : DateTime → Type 0
Fits t = All (λ w. w < 2 ^ 32) (words_of t)

module _ {ℓ} {A : Type ℓ} where
  take_at : (xs ys : List A) (n : ℕ) → length xs ≡ n → take n (xs ++ ys) ≡ xs
  take_at [] ys n e = rw (← e)
  take_at (x ∷ xs) ys zero e = absurd (omega arith)
  take_at (x ∷ xs) ys (suc n) e = rw (take_at xs ys n (omega arith))

  drop_at : (xs ys : List A) (n : ℕ) → length xs ≡ n → drop n (xs ++ ys) ≡ ys
  drop_at [] ys n e = rw (← e)
  drop_at (x ∷ xs) ys zero e = absurd (omega arith)
  drop_at (x ∷ xs) ys (suc n) e = drop_at xs ys n (omega arith)

decode_words-encode_words :
    (ws rest : List ℕ)
    → All (λ w. w < 2 ^ 32) ws
    → decode_words (length ws) (encode_words ws ++ rest) ≡ ws
unfolding decode_words encode_words
decode_words-encode_words [] rest h = refl
decode_words-encode_words (w ∷ ws) rest h =
    let l = length-le_bytes 4 w in
    rw (
      append_assoc,
      take_at (le_bytes 4 w) (encode_words ws ++ rest) 4 l,
      drop_at (le_bytes 4 w) (encode_words ws ++ rest) 4 l,
      of_le_bytes-le_bytes 4 w h.0,
      decode_words-encode_words ws rest h.1,
    )

length-encode_words : (ws : List ℕ) → length (encode_words ws) ≡ 4 * length ws
unfolding encode_words
length-encode_words [] = omega arith
length-encode_words (w ∷ ws) = omega (
  arith,
  length-append (le_bytes 4 w) (encode_words ws),
  length-le_bytes 4 w,
  length-encode_words ws,
)

pub length-to_bytes : (t : DateTime) → length (to_bytes t) ≡ size
unfolding to_bytes
length-to_bytes t = omega (
  arith,
  length-append (encode_words (words_of t)) (bool_byte t.is_west ∷ 0 ∷ 0 ∷ 0 ∷ []),
  length-encode_words (words_of t),
)

-- A date whose numbers fit 32 bits is read back from its bytes.
pub of_bytes-to_bytes : (t : DateTime) → Fits t → of_bytes (to_bytes t) ≡ some t
unfolding to_bytes of_bytes
of_bytes-to_bytes t h =
    rw
      (
        decode_words-encode_words (words_of t) _ h,
        drop_at (encode_words (words_of t)) _ 44 (length-encode_words (words_of t)),
      )
      (ground arith)
