-- ===== src/Base64/Tests.antt =====
-- rtBase64.c on concrete texts.
use rbus.Base.{ℕ, ◌+◌, ◌≤◌, ◌≡◌, refl, true, some, List, [], ◌∷◌, ◌++◌, length, arith}
use rbus.Error.{ok}
use rbus.Base64.{encode, encode_groups, symbol, encoded_size, decode, Result}
use rbus.Base64.RoundTrip.{decode-encode_base64}
use rbus.Base64.Bounds.{decode-IsSized, IsSized}

abbrev word : List ℕ
word = 77 ∷ 97 ∷ 110 ∷ 33 ∷ []

decode-encode_base64_example :
    (text : List ℕ) × (encode true word
      ≡ some (record {
        status = ok;
        out = some (text ++ 0 ∷ []);
        out_size = some (encoded_size (length word));
      }))
    × (length text + 1 ≤ encoded_size (length word))
    × (decode true text
        ≡ some (record { status = ok; out = some word; out_size = some (length word) }))
decode-encode_base64_example = decode-encode_base64 word (omega arith) (omega arith) (omega arith)

decode-IsSized_example : (r : Result) × (decode true (84 ∷ 87 ∷ 70 ∷ 61 ∷ []) ≡ some r) × IsSized r
decode-IsSized_example = decode-IsSized true (84 ∷ 87 ∷ 70 ∷ 61 ∷ []) (omega arith)

-- "Man" is "TWFu".
man : encode_groups (77 ∷ 97 ∷ 110 ∷ []) ≡ some (84 ∷ 87 ∷ 70 ∷ 117 ∷ [])
unfolding encode_groups symbol
man = refl
