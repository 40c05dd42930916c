-- ===== src/Header/Tests.antt =====
-- rtMessageHeader.c on concrete headers.
use rbus.Base.{
  ℕ, ◌<◌, ◌≡◌, ◌≢◌, refl, none, some, List, [], ◌∷◌, ◌++◌, length, replicate, length-replicate,
  arith,
}
use rbus.Base.Bytes.{c_string}
use rbus.Error.{ok, failed}
use rbus.Encoder.{decode_uint16}
use rbus.Header.{Header, init, cleared_topic, encode, decode}
use rbus.Header.RoundTrip.{IsValid, received, decode-encode, wire, decode-wire}
use rbus.Header.Reject.{decode_total, decode_ok-fits}

-- Topic "A.B", reply topic "C".
abbrev sample : Header
sample = record {
  version = 2;
  header_length = 0;
  sequence_number = 70000;
  flags = 1;
  control_data = 4;
  payload_length = 12;
  topic_length = 0;
  topic = 65 ∷ 46 ∷ 66 ∷ 0 ∷ 9 ∷ [];
  reply_topic_length = 0;
  reply_topic = 67 ∷ 0 ∷ [];
}

sample-IsValid : IsValid sample
sample-IsValid = omega arith

decode-encode_example :
    (sent : Header) × (bytes : List ℕ) × (encode sample ≡ some (sent, bytes))
    × (length bytes ≡ sent.header_length)
    × (decode init (bytes ++ 7 ∷ []) ≡ some (ok, received sample))
    × (c_string (received sample).topic ≡ 65 ∷ 46 ∷ 66 ∷ [])
    × (c_string (received sample).reply_topic ≡ 67 ∷ [])
decode-encode_example = decode-encode sample (7 ∷ []) sample-IsValid

length-cleared_topic : length cleared_topic ≡ 256
unfolding cleared_topic
length-cleared_topic = refl

decode_total_example : decode init (replicate 542 0xAA) ≢ none
decode_total_example =
    decode_total init (replicate 542 0xAA) (omega (arith, length-cleared_topic))
      (omega (arith, length-cleared_topic)) (omega (arith, length-replicate {A = ℕ} 542 0xAA))

decode_ok-fits_example :
    ((received sample).topic_length < length cleared_topic)
    × ((received sample).reply_topic_length < length cleared_topic)
decode_ok-fits_example = decode_ok-fits init (wire sample []) (decode-wire sample [] sample-IsValid)

bad_marker : decode init (1 ∷ 2 ∷ []) ≡ some (failed, init)
unfolding decode decode_uint16
bad_marker = refl
