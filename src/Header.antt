-- ===== src/Header.antt =====
-- src/rtmessage/rtMessageHeader.c: the header in front of each message, as it is built without
-- MSG_ROUNDTRIP_TIME (the default of CMakeLists.txt). `topic` and `reply_topic` are the 256 bytes
-- of their arrays.
pub mod RoundTrip
pub mod Reject
pub mod Flags
mod Tests
use Prim.Native.Nat.{bit_and, bit_or}
use rbus.Base.{
  ℕ, ◌+◌, ◌%◌, ◌^◌, Option, none, some, List, [], ◌∷◌, leb, if◌then◌else◌, replicate, ◌>>=◌, length,
  ◌==◌, Bool, true, false,
}
use rbus.Base.Bytes.{strlen}
use rbus.Error.{RtError, ok, failed}
use rbus.Encoder.{
  encode_uint16, encode_uint32, encode_string, decode_uint16, decode_uint32, decode_str,
}

abbrev pub max_topic_length : ℕ
max_topic_length = 256

abbrev pub header_version : ℕ
header_version = 2

abbrev pub header_marker : ℕ
header_marker = 0xAAAA

-- 28 bytes of numbers and two markers of 2 bytes.
abbrev pub size_without_strings : ℕ
size_without_strings = 32

pub record Header : Type 0 where
  pub version : ℕ
  pub header_length : ℕ
  pub sequence_number : ℕ
  pub flags : ℕ
  pub control_data : ℕ
  pub payload_length : ℕ
  pub topic_length : ℕ
  pub topic : List ℕ
  pub reply_topic_length : ℕ
  pub reply_topic : List ℕ

-- `memset(hdr->topic, 0, RTMSG_HEADER_MAX_TOPIC_LENGTH)`
unfoldable pub cleared_topic : List ℕ
cleared_topic = replicate max_topic_length 0

-- rtMessageHeader_Init, which writes every field.
abbrev pub init : Header
init = record {
  version = header_version;
  header_length = 0;
  sequence_number = 0;
  flags = 0;
  control_data = 0;
  payload_length = 0;
  topic_length = 0;
  topic = cleared_topic;
  reply_topic_length = 0;
  reply_topic = cleared_topic;
}

-- The header with its length set, and the bytes written to `buff`.
pub encode : Header → Option (Header × List ℕ)
encode hdr = do
  let len = (size_without_strings + strlen hdr.topic + strlen hdr.reply_topic) % 2 ^ 16
  let p0 = encode_uint16 [] header_marker
  let p1 = encode_uint16 p0 header_version
  let p2 = encode_uint16 p1 len
  let p3 = encode_uint32 p2 hdr.sequence_number
  let p4 = encode_uint32 p3 hdr.flags
  let p5 = encode_uint32 p4 hdr.control_data
  let p6 = encode_uint32 p5 hdr.payload_length
  p7 ← encode_string p6 hdr.topic none
  p8 ← encode_string p7 hdr.reply_topic none
  some (record hdr { header_length = len }, encode_uint16 p8 header_marker)

-- The six numbers behind the first marker.
decode_numbers : Header → List ℕ → Option (Header × List ℕ)
decode_numbers hdr p = do
  (version, p1) ← decode_uint16 p
  (header_length, p2) ← decode_uint16 p1
  (sequence_number, p3) ← decode_uint32 p2
  (flags, p4) ← decode_uint32 p3
  (control_data, p5) ← decode_uint32 p4
  (payload_length, p6) ← decode_uint32 p5
  some (
    record hdr {
      version = version;
      header_length = header_length;
      sequence_number = sequence_number;
      flags = flags;
      control_data = control_data;
      payload_length = payload_length;
    },
    p6,
  )

decode_trailer : Header → List ℕ → Option (RtError × Header)
decode_trailer hdr p = do
  (marker, _) ← decode_uint16 p
  some (if marker == header_marker then ok else failed, hdr)

-- `hdr->reply_topic_length = n`, the check against the array, and the copy.
store_reply_topic : Header → ℕ → List ℕ → Option (RtError × Header)
store_reply_topic hdr n p =
    let copied = do
      (bytes, p') ← decode_str p hdr.reply_topic n
      decode_trailer (record hdr { reply_topic_length = n; reply_topic = bytes }) p'
    in if leb (length hdr.reply_topic) n
      then some (failed, record hdr { reply_topic_length = n })
      else copied

decode_reply_topic : Header → List ℕ → Option (RtError × Header)
decode_reply_topic hdr p = do (n, p') ← decode_uint32 p; store_reply_topic hdr n p'

store_topic : Header → ℕ → List ℕ → Option (RtError × Header)
store_topic hdr n p =
    let copied = do
      (bytes, p') ← decode_str p hdr.topic n
      decode_reply_topic (record hdr { topic_length = n; topic = bytes }) p'
    in if leb (length hdr.topic) n then some (failed, record hdr { topic_length = n }) else copied

decode_topic : Header → List ℕ → Option (RtError × Header)
decode_topic hdr p = do (n, p') ← decode_uint32 p; store_topic hdr n p'

-- What stands in `hdr` before the call stays where decoding does not write.
pub decode : Header → List ℕ → Option (RtError × Header)
unfolding decode_numbers decode_topic store_topic decode_reply_topic store_reply_topic
    decode_trailer
decode hdr buff = do
  (marker, p) ← decode_uint16 buff
  let rest = do (hdr', p') ← decode_numbers hdr p; decode_topic hdr' p'
  if marker == header_marker then rest else some (failed, hdr)

abbrev pub flag_request : ℕ
flag_request = 1

pub set_is_request : Header → Header
set_is_request hdr = record hdr { flags = bit_or hdr.flags flag_request }

pub is_request : Header → Bool
is_request hdr = bit_and hdr.flags flag_request == flag_request
