-- ===== src/Header/Reject.antt =====
-- What rtMessageHeader_Decode does with bytes that no sender of this library wrote.
use rbus.Base.{
  >>=-eq-some, ℕ, zero, suc, ◌+◌, ◌*◌, ◌≤◌, ◌<◌, ◌≡◌, ◌≢◌, refl, none, some, List, [], ◌∷◌, leb,
  arith, length, inl, inr, Bool-cases, ◌==◌,
}
use rbus.Base.Bytes.{overlay}
use rbus.Error.{RtError, ok}
use rbus.Encoder.{split?, decode_uint16, decode_uint32, decode_str}
use rbus.Header.{
  store_topic, store_reply_topic, Header, decode, decode_numbers, decode_topic, decode_reply_topic,
  decode_trailer, header_marker, max_topic_length,
}

u16_total :
    (p : List ℕ)
    → 2 ≤ length p
    → (n : ℕ) × (q : List ℕ) × (decode_uint16 p ≡ some (n, q)) × (length p ≡ 2 + length q)
unfolding decode_uint16
u16_total [] h = absurd (omega arith)
u16_total (a ∷ []) h = absurd (omega arith)
u16_total (a ∷ b ∷ q) h = (a * 256 + b, q, refl, omega arith)

u32_total :
    (p : List ℕ)
    → 4 ≤ length p
    → (n : ℕ) × (q : List ℕ) × (decode_uint32 p ≡ some (n, q)) × (length p ≡ 4 + length q)
unfolding decode_uint32
u32_total [] h = absurd (omega arith)
u32_total (a ∷ []) h = absurd (omega arith)
u32_total (a ∷ b ∷ []) h = absurd (omega arith)
u32_total (a ∷ b ∷ c ∷ []) h = absurd (omega arith)
u32_total (a ∷ b ∷ c ∷ d ∷ q) h = (((a * 256 + b) * 256 + c) * 256 + d, q, refl, omega arith)

split?_total :
    (n : ℕ) (p : List ℕ)
    → n ≤ length p
    → (bytes : List ℕ) × (q : List ℕ) × (split? n p ≡ some (bytes, q)) × (length p ≡ n + length q)
split?_total zero p h = ([], p, refl, omega arith)
split?_total (suc n) [] h = absurd (omega arith)
split?_total (suc n) (x ∷ p) h =
    let (bytes, q, e, l) = split?_total n p (omega arith) in (x ∷ bytes, q, rw e, omega arith)

str_total :
    (n : ℕ) (s p : List ℕ)
    → n ≤ length p
    → n ≤ length s
    → (bytes : List ℕ) × (q : List ℕ) × (decode_str p s n ≡ some (bytes, q))
      × (length p ≡ n + length q)
unfolding decode_str
str_total n s p h k =
    let (bytes, q, e, l) = split?_total n p h in (overlay bytes s, q, rw e (ground arith), l)

trailer_total : (h : Header) (p : List ℕ) → 2 ≤ length p → decode_trailer h p ≢ none
unfolding decode_trailer
trailer_total h p k = let (n, q, e, _) = u16_total p k in rw e (λ c. cc)

store_reply_total :
    (h : Header) (n : ℕ) (p : List ℕ)
    → length h.reply_topic ≤ max_topic_length
    → 2 + 255 ≤ length p
    → store_reply_topic h n p ≢ none
unfolding store_reply_topic
store_reply_total h n p s k = elim (Bool-cases (leb (length h.reply_topic) n)) [
  | inl big ↦ rw big (λ c. cc)
  | inr fits ↦
      let (bytes, q, e, l) = str_total n h.reply_topic p (ground arith) (ground arith) in
      rw (fits, e) (trailer_total _ q (ground arith))
]

store_total :
    (h : Header) (n : ℕ) (p : List ℕ)
    → length h.topic ≤ max_topic_length
    → length h.reply_topic ≤ max_topic_length
    → 2 + 255 + 4 + 255 ≤ length p
    → store_topic h n p ≢ none
unfolding store_topic decode_reply_topic
store_total h n p s s' k = elim (Bool-cases (leb (length h.topic) n)) [
  | inl big ↦ rw big (λ c. cc)
  | inr fits ↦
      let (bytes, q, e, l) = str_total n h.topic p (ground arith) (ground arith) in
      let (m, q', e', l') = u32_total q (ground arith) in
      rw (fits, e, e') (store_reply_total _ m q' s' (ground arith))
]

numbers_total :
    (h : Header) (p : List ℕ)
    → 20 ≤ length p
    → (g : Header) × (q : List ℕ) × (decode_numbers h p ≡ some (g, q))
      × (length p ≡ 20 + length q)
      × (g.topic ≡ h.topic)
      × (g.reply_topic ≡ h.reply_topic)
unfolding decode_numbers
numbers_total h p k =
    let (n1, p1, e1, l1) = u16_total p (omega arith) in
    let (n2, p2, e2, l2) = u16_total p1 (omega arith) in
    let (n3, p3, e3, l3) = u32_total p2 (omega arith) in
    let (n4, p4, e4, l4) = u32_total p3 (omega arith) in
    let (n5, p5, e5, l5) = u32_total p4 (omega arith) in
    let (n6, p6, e6, l6) = u32_total p5 (omega arith) in
    (
      record h {
        version = n1;
        header_length = n2;
        sequence_number = n3;
        flags = n4;
        control_data = n5;
        payload_length = n6;
      },
      p6,
      rw (e1, e2, e3, e4, e5, e6),
      omega arith,
      refl,
      refl,
    )

-- On any bytes, as many as the longest header has, decoding neither reads behind the buffer nor
-- writes outside the header: the arrays hold 256 bytes each, and longer lengths are refused.
pub decode_total :
    (h : Header) (buff : List ℕ)
    → length h.topic ≤ max_topic_length
    → length h.reply_topic ≤ max_topic_length
    → 32 + 255 + 255 ≤ length buff
    → decode h buff ≢ none
unfolding decode decode_topic
decode_total h buff s s' k =
    let (marker, p, e, l) = u16_total buff (omega arith) in
    let (g, p', e', l', t, t') = numbers_total h p (omega arith) in
    let (n, q, e'', l'') = u32_total p' (omega arith) in
    elim (Bool-cases (marker == header_marker)) [
      | inl good ↦ rw (e, good, e', e'') (store_total g n q (rw t s) (rw t' s') (omega arith))
      | inr bad ↦ rw (e, bad) (λ c. cc)
    ]

trailer_keeps :
    (h : Header) (p : List ℕ) {e : RtError} {r : Header} → decode_trailer h p ≡ some (e, r) → r ≡ h
unfolding decode_trailer
trailer_keeps h p eq = let (x, found, rest) = >>=-eq-some (decode_uint16 p) _ eq in ground arith

store_reply_ok :
    (h : Header) (n : ℕ) (p : List ℕ) {r : Header}
    → store_reply_topic h n p ≡ some (ok, r)
    → (r.reply_topic_length < length h.reply_topic) × (r.topic_length ≡ h.topic_length)
unfolding store_reply_topic
store_reply_ok h n p eq = elim (Bool-cases (leb (length h.reply_topic) n)) [
  | inl big ↦ ground arith
  | inr fits ↦
      let (x, found, rest) = >>=-eq-some (decode_str p h.reply_topic n) _ (rw fits at eq) in
      let e = trailer_keeps _ x.1 rest in rw e (ground arith)
]

store_ok :
    (h : Header) (n : ℕ) (p : List ℕ) {r : Header}
    → store_topic h n p ≡ some (ok, r)
    → (r.topic_length < length h.topic) × (r.reply_topic_length < length h.reply_topic)
unfolding store_topic decode_reply_topic
store_ok h n p eq = elim (Bool-cases (leb (length h.topic) n)) [
  | inl big ↦ ground arith
  | inr fits ↦
      let (x, found, rest) = >>=-eq-some (decode_str p h.topic n) _ (rw fits at eq) in
      let (y, found', rest') = >>=-eq-some (decode_uint32 x.1) _ rest in
      ground (arith, store_reply_ok _ y.0 y.1 rest')
]

numbers_keep :
    (h : Header) (p : List ℕ) {g : Header} {q : List ℕ}
    → decode_numbers h p ≡ some (g, q)
    → (g.topic ≡ h.topic) × (g.reply_topic ≡ h.reply_topic)
unfolding decode_numbers
numbers_keep h p eq =
    let (a, _, r1) = >>=-eq-some (decode_uint16 p) _ eq in
    let (b, _, r2) = >>=-eq-some (decode_uint16 a.1) _ r1 in
    let (c, _, r3) = >>=-eq-some (decode_uint32 b.1) _ r2 in
    let (d, _, r4) = >>=-eq-some (decode_uint32 c.1) _ r3 in
    let (e, _, r5) = >>=-eq-some (decode_uint32 d.1) _ r4 in
    let (f, _, r6) = >>=-eq-some (decode_uint32 e.1) _ r5 in ground arith

-- A header that decoding accepts states topic lengths that leave room for a NUL in their arrays,
-- whatever the bytes are and whatever the header held before.
pub decode_ok-fits :
    (h : Header) (buff : List ℕ) {r : Header}
    → decode h buff ≡ some (ok, r)
    → (r.topic_length < length h.topic) × (r.reply_topic_length < length h.reply_topic)
unfolding decode decode_topic
decode_ok-fits h buff eq =
    let (m, _, rest) = >>=-eq-some (decode_uint16 buff) _ eq in
    elim (Bool-cases (m.0 == header_marker)) [
      | inl good ↦
          let (x, found, rest') = >>=-eq-some (decode_numbers h m.1) _ (rw good at rest) in
          let (y, found', rest'') = >>=-eq-some (decode_uint32 x.1) _ rest' in
          let (t, t') = numbers_keep h m.1 found in rw (← t, ← t') (store_ok x.0 y.0 y.1 rest'')
      | inr bad ↦ ground arith
    ]
