-- ===== src/Header/RoundTrip.antt =====
-- rtMessageHeader_Encode and rtMessageHeader_Decode together.
use rbus.Base.{
  refl, length-append, append-nil, lt→leb_false, ℕ, ◌+◌, ◌%◌, ◌^◌, ◌<◌, ◌≤◌, ◌≡◌, some, List, [],
  ◌++◌, append_assoc, arith, length,
}
use rbus.Base.Bytes.{c_string-overlay, NonZero-c_string, strlen, c_string, be16, be32, overlay}
use rbus.Error.{ok}
use rbus.Encoder.{encode_uint16, encode_uint32}
use rbus.Encoder.RoundTrip.{
  decode_uint16-be16, decode_uint32-be32, decode_str-append, encode_string-none,
}
use rbus.Header.{
  store_topic, store_reply_topic, cleared_topic, decode, decode_topic, Header, init, encode,
  decode_numbers, decode_reply_topic, decode_trailer, header_marker, header_version,
  max_topic_length, size_without_strings,
}

-- The numbers fit their types, and each topic ends in a NUL within its array.
pub record IsValid (h : Header) : Type 0 where
  pub sequence_fits : h.sequence_number < 2 ^ 32
  pub flags_fit : h.flags < 2 ^ 32
  pub control_fits : h.control_data < 2 ^ 32
  pub payload_fits : h.payload_length < 2 ^ 32
  pub topic_ends : strlen h.topic < max_topic_length
  pub reply_ends : strlen h.reply_topic < max_topic_length

abbrev pub encoded_length : Header → ℕ
encoded_length h = size_without_strings + strlen h.topic + strlen h.reply_topic

-- The bytes on the wire, written out.
abbrev pub wire : Header → List ℕ → List ℕ
wire h rest =
    be16 header_marker
    ++ (be16 header_version
        ++ (be16 (encoded_length h)
            ++ (be32 h.sequence_number
                ++ (be32 h.flags
                    ++ (be32 h.control_data
                        ++ (be32 h.payload_length
                            ++ (be32 (strlen h.topic)
                                ++ (c_string h.topic
                                    ++ (be32 (strlen h.reply_topic)
                                        ++ (c_string h.reply_topic
                                            ++ (be16 header_marker ++ rest)))))))))))

pub encode-eq-wire :
    (h : Header)
    → IsValid h
    → encode h ≡ some (record h { header_length = encoded_length h }, wire h [])
unfolding encode encode_uint16 encode_uint32
encode-eq-wire h v =
    let e : encoded_length h % 2 ^ 16 ≡ encoded_length h = omega arith in
    rw
      (
        e,
        encode_string-none _ h.topic (omega arith),
        encode_string-none _ h.reply_topic (omega arith),
      )
      (simp (append_assoc, append-nil))

-- What a fresh header holds once the bytes of `h` are decoded into it.
abbrev pub received : Header → Header
received h = record h {
  version = header_version;
  header_length = encoded_length h;
  topic_length = strlen h.topic;
  topic = overlay (c_string h.topic) init.topic;
  reply_topic_length = strlen h.reply_topic;
  reply_topic = overlay (c_string h.reply_topic) init.reply_topic;
}

numbers_wire :
    (h g : Header) (p : List ℕ)
    → IsValid h
    → decode_numbers g (
        be16 header_version
        ++ (be16 (encoded_length h)
            ++ (be32 h.sequence_number
                ++ (be32 h.flags ++ (be32 h.control_data ++ (be32 h.payload_length ++ p))))))
      ≡ some (
        record g {
          version = header_version;
          header_length = encoded_length h;
          sequence_number = h.sequence_number;
          flags = h.flags;
          control_data = h.control_data;
          payload_length = h.payload_length;
        },
        p,
      )
unfolding decode_numbers
numbers_wire h g p v = rw (
  decode_uint16-be16 header_version _ (omega arith),
  decode_uint16-be16 (encoded_length h) _ (omega arith),
  decode_uint32-be32 h.sequence_number _ v.sequence_fits,
  decode_uint32-be32 h.flags _ v.flags_fit,
  decode_uint32-be32 h.control_data _ v.control_fits,
  decode_uint32-be32 h.payload_length _ v.payload_fits,
)

reply_wire :
    (g : Header) (s p : List ℕ)
    → length s < length g.reply_topic
    → length g.reply_topic ≤ 2 ^ 32
    → decode_reply_topic g (be32 (length s) ++ (s ++ (be16 header_marker ++ p)))
      ≡ some (ok, record g { reply_topic_length = length s; reply_topic = overlay s g.reply_topic })
unfolding decode_reply_topic store_reply_topic decode_trailer
reply_wire g s p h fits = rw (
  decode_uint32-be32 (length s) _ (omega arith),
  lt→leb_false h,
  decode_str-append s (be16 header_marker ++ p) g.reply_topic (omega arith),
  decode_uint16-be16 header_marker p (omega arith),
)

length-cleared_topic : length cleared_topic ≡ max_topic_length
unfolding cleared_topic
length-cleared_topic = refl

-- Between the two topics.
abbrev half_received : Header → Header
half_received h = record h {
  version = header_version;
  header_length = encoded_length h;
  topic_length = strlen h.topic;
  topic = overlay (c_string h.topic) cleared_topic;
  reply_topic_length = 0;
  reply_topic = cleared_topic;
}

pub decode-wire :
    (h : Header) (rest : List ℕ) → IsValid h → decode init (wire h rest) ≡ some (ok, received h)
unfolding decode decode_topic store_topic
decode-wire h rest v =
    let e : length cleared_topic ≡ max_topic_length = length-cleared_topic in
    rw
      (
        decode_uint16-be16 header_marker _ (omega arith),
        numbers_wire h init _ v,
        decode_uint32-be32 (strlen h.topic) _ (omega (arith, v.topic_ends)),
        lt→leb_false {a = strlen h.topic} {b = length cleared_topic} (omega (arith, v.topic_ends)),
        decode_str-append (c_string h.topic) _ init.topic (omega (arith, v.topic_ends)),
      )
      (reply_wire (half_received h) (c_string h.reply_topic) rest (omega (arith, v.reply_ends))
        (omega arith))

wire-append : (h : Header) (rest : List ℕ) → wire h [] ++ rest ≡ wire h rest
wire-append h rest = simp (append_assoc, append-nil)

length-wire : (h : Header) → length (wire h []) ≡ encoded_length h
unfolding be16 be32
length-wire h = simp length-append (omega arith)

c_string-topic :
    (s : List ℕ)
    → strlen s < max_topic_length
    → c_string (overlay (c_string s) init.topic) ≡ c_string s
unfolding cleared_topic
c_string-topic s h = c_string-overlay (c_string s) max_topic_length (NonZero-c_string s) h

-- Encoding a valid header never faults and sets its length to the number of bytes written.
-- Decoding those bytes into a fresh header, whatever follows them, succeeds: it gives the numbers
-- of the header, and the two topics as the same C strings.
pub decode-encode :
    (h : Header) (rest : List ℕ)
    → IsValid h
    → (sent : Header) × (bytes : List ℕ) × (encode h ≡ some (sent, bytes))
      × (length bytes ≡ sent.header_length)
      × (decode init (bytes ++ rest) ≡ some (ok, received h))
      × (c_string (received h).topic ≡ c_string h.topic)
      × (c_string (received h).reply_topic ≡ c_string h.reply_topic)
decode-encode h rest v = (
  record h { header_length = encoded_length h },
  wire h [],
  encode-eq-wire h v,
  length-wire h,
  rw (wire-append h rest) (decode-wire h rest v),
  c_string-topic h.topic v.topic_ends,
  c_string-topic h.reply_topic v.reply_ends,
)
