-- ===== src/Encoder/RoundTrip.antt =====
-- The writers and the readers of rtEncoder.c together.
use rbus.Base.{
  ℕ, zero, suc, ◌%◌, ◌^◌, ◌≤◌, ◌<◌, ◌≡◌, refl, ap, none, some, List, [], ◌∷◌, ◌++◌, length, arith,
  drop,
}
use rbus.Base.Bytes.{be16, be32, strlen, c_string, overlay}
use rbus.Encoder.{split?, decode_uint16, decode_uint32, encode_string, decode_str}

pub split?-append {ℓ} :
    {A : Type ℓ} (xs ys : List A) → split? (length xs) (xs ++ ys) ≡ some (xs, ys)
split?-append [] ys = refl
split?-append (x ∷ xs) ys = rw (split?-append xs ys)

pub split?-strlen : (s : List ℕ) → split? (strlen s) s ≡ some (c_string s, drop (strlen s) s)
split?-strlen [] = refl
split?-strlen (zero ∷ s) = refl
split?-strlen (suc c ∷ s) = rw (split?-strlen s)

pub decode_uint16-be16 :
    (n : ℕ) (p : List ℕ) → n < 2 ^ 16 → decode_uint16 (be16 n ++ p) ≡ some (n, p)
unfolding decode_uint16 be16
decode_uint16-be16 n p h = ap (λ k. some (k, p)) (omega arith)

pub decode_uint32-be32 :
    (n : ℕ) (p : List ℕ) → n < 2 ^ 32 → decode_uint32 (be32 n ++ p) ≡ some (n, p)
unfolding decode_uint32 be32
decode_uint32-be32 n p h = ap (λ k. some (k, p)) (omega arith)

pub decode_str-append :
    (bytes p s : List ℕ)
    → length bytes ≤ length s
    → decode_str (bytes ++ p) s (length bytes) ≡ some (overlay bytes s, p)
unfolding decode_str
decode_str-append bytes p s h = rw (split?-append bytes p) (ground arith)

-- A string shorter than 2^32 is written as its length and its bytes.
pub encode_string-none :
    (itr s : List ℕ)
    → strlen s < 2 ^ 32
    → encode_string itr s none ≡ some ((itr ++ be32 (strlen s)) ++ c_string s)
unfolding encode_string
encode_string-none itr s h =
    let e : strlen s % 2 ^ 32 ≡ strlen s = omega arith in rw (e, split?-strlen s)
