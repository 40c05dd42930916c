-- ===== src/Base64/Bounds.antt =====
-- rtBase64_decode on any text.
use rbus.Base.{
  ℕ, zero, suc, ◌+◌, ◌-◌, ◌*◌, ◌/◌, ◌%◌, ◌≤◌, ◌<◌, ◌≡◌, refl, Bool, true, false, none, some, List,
  [], ◌∷◌, ◌++◌, length, length-append, ltb, leb, ◌==◌, if◌then◌else◌, arith, Bool-cases, inl, inr,
  ◌&&◌,
}
use rbus.Outcome.{Outcome, done, refused}
use rbus.Outcome.{◌>>=◌ as ◌>>=o◌}
use rbus.Error.{ok, failed}
use rbus.Base64.{
  decode_char, last_two, padding, decode_groups, decode_last, decode_text, decode_padded, decode,
  Result, finish,
}

-- The outcome is a result with `P`, or a refusal.
data Fills {ℓ} {A : Type ℓ} (P : A → Type 0) (o : Outcome A) : Type ℓ where
  gives : (a : A) → o ≡ done a → P a → Fills P o
  refuses : o ≡ refused → Fills P o

Fills-bind {ℓ κ} :
    {A : Type ℓ} {B : Type κ} {P : A → Type 0} {Q : B → Type 0} (o : Outcome A) (f : A → Outcome B)
    → Fills P o
    → ((a : A) → P a → Fills Q (f a))
    → Fills Q (o >>=o f)
Fills-bind o f (refuses e) h = refuses (rw e)
Fills-bind {Q = Q} o f (gives a e p) h = rw e (h a p)

abbrev Trivial : ℕ → Type 0
Trivial n = Unit

Fills-digit :
    (t : Bool) (n : ℕ) (o : Outcome ℕ) → Fills Trivial o → Fills Trivial (if t then done n else o)
Fills-digit true n o h = gives n refl tt
Fills-digit false n o h = h

decode_char-Fills : (c : ℕ) → Fills Trivial (decode_char c)
unfolding decode_char
decode_char-Fills c = Fills-digit (leb 65 c && leb c 90) (c - 65) _ (
    Fills-digit (leb 97 c && leb c 122) (26 + c - 97) _ (
      Fills-digit (leb 48 c && leb c 57) (52 + c - 48) _
        (Fills-digit (c == 43) 62 _ (Fills-digit (c == 47) 63 _ (refuses refl)))))

abbrev Groups : ℕ → ℕ → List ℕ × List ℕ → Type 0
Groups n size x = (length x.0 ≡ n * 3) × (length x.1 + n * 4 ≡ size)

decode_groups-Fills :
    (n : ℕ) (text : List ℕ)
    → n * 4 ≤ length text
    → Fills (Groups n (length text)) (decode_groups n text)
unfolding decode_groups
decode_groups-Fills zero text h = gives ([], text) refl (refl, omega arith)
decode_groups-Fills (suc n) [] h = absurd (omega arith)
decode_groups-Fills (suc n) (p ∷ []) h = absurd (omega arith)
decode_groups-Fills (suc n) (p ∷ q ∷ []) h = absurd (omega arith)
decode_groups-Fills (suc n) (p ∷ q ∷ r ∷ []) h = absurd (omega arith)
decode_groups-Fills (suc n) (p ∷ q ∷ r ∷ s ∷ text) h =
    Fills-bind (decode_char p) _ (decode_char-Fills p) λ w _.
      Fills-bind (decode_char q) _ (decode_char-Fills q) λ x _.
        Fills-bind (decode_char r) _ (decode_char-Fills r) λ y _.
          Fills-bind (decode_char s) _ (decode_char-Fills s) λ z _.
            Fills-bind (decode_groups n text) _ (decode_groups-Fills n text (omega arith))
              λ b g. gives _ refl (omega (arith, g.0), omega (arith, g.1))

decode_last-Fills :
    (pad : ℕ) (rest : List ℕ)
    → pad ≤ 2
    → (0 < pad → 4 ≤ length rest)
    → Fills (λ l. length l ≡ (if pad == 0 then 0 else 3 - pad)) (decode_last pad rest)
unfolding decode_last
decode_last-Fills zero rest h k = gives [] refl refl
decode_last-Fills (suc zero) (p ∷ q ∷ r ∷ rest) h k =
    Fills-bind (decode_char p) _ (decode_char-Fills p) λ w _.
      Fills-bind (decode_char q) _ (decode_char-Fills q)
        λ x _. Fills-bind (decode_char r) _ (decode_char-Fills r) λ y _. gives _ refl refl
decode_last-Fills (suc (suc zero)) (p ∷ q ∷ rest) h k =
    Fills-bind (decode_char p) _ (decode_char-Fills p)
      λ w _. Fills-bind (decode_char q) _ (decode_char-Fills q) λ x _. gives _ refl refl
decode_last-Fills (suc n) [] h k = absurd (let l = k (omega arith) in omega arith)
decode_last-Fills (suc n) (p ∷ []) h k = absurd (let l = k (omega arith) in omega arith)
decode_last-Fills (suc zero) (p ∷ q ∷ []) h k = absurd (let l = k (omega arith) in omega arith)
decode_last-Fills (suc (suc (suc n))) (p ∷ q ∷ rest) h k = absurd (omega arith)

decode_text-Fills :
    (pad : ℕ) (text : List ℕ)
    → pad ≤ 2
    → 0 < length text
    → length text % 4 ≡ 0
    → Fills (λ bytes. length bytes ≡ length text * 3 / 4 - pad) (decode_text pad text)
unfolding decode_text
decode_text-Fills pad text h some_ full =
    let n = (length text - (if pad == 0 then 0 else 4)) / 4 in
    let room : n * 4 ≤ length text = ground arith in
    Fills-bind (decode_groups n text) _ (decode_groups-Fills n text room) λ x g.
      let behind : 0 < pad → 4 ≤ length x.1 = λ i. ground (arith, g.1) in
      Fills-bind (decode_last pad x.1) _ (decode_last-Fills pad x.1 h behind)
        λ l e. gives (x.0 ++ l) refl (ground (arith, g.0, e, length-append x.0 l))

last_two-some : (text : List ℕ) → 1 < length text → (p : ℕ × ℕ) × (last_two text ≡ some p)
last_two-some [] h = absurd (omega arith)
last_two-some (x ∷ []) h = absurd (omega arith)
last_two-some (x ∷ y ∷ []) h = ((x, y), refl)
last_two-some (x ∷ y ∷ z ∷ text) h = last_two-some (y ∷ z ∷ text) (omega arith)

-- The bytes that `r` hands out are as many as it says.
abbrev pub IsSized : Result → Type 0
IsSized r = (bytes : List ℕ) → r.out ≡ some bytes → r.out_size ≡ some (length bytes)

finish_lem :
    (size : ℕ) (o : Outcome (List ℕ))
    → Fills (λ bytes. length bytes ≡ size) o
    → (r : Result) × (finish size o ≡ some r) × IsSized r
unfolding finish
finish_lem size o (gives bytes e n) = (
  record { status = ok; out = some bytes; out_size = some size },
  rw e,
  λ bs h. ground (arith, n),
)
finish_lem size o (refuses e) =
    (record { status = failed; out = none; out_size = some size }, rw e, λ bs h. cc)

decode_padded_lem :
    (success : Bool) (text : List ℕ)
    → 0 < length text
    → length text % 4 ≡ 0
    → (r : Result) × (decode_padded success text (last_two text) ≡ some r) × IsSized r
unfolding decode_padded
decode_padded_lem false text h full =
    let (p, e) = last_two-some text (omega arith) in
    let size = length text * 3 / 4 - padding p in
    (record { status = failed; out = none; out_size = some size }, rw e, λ bs h. cc)
decode_padded_lem true text h full =
    let (p, e) = last_two-some text (omega arith) in
    let small : padding p ≤ 2 = ground arith in
    let size = length text * 3 / 4 - padding p in
    let (r, f, i) = finish_lem size _ (decode_text-Fills (padding p) text small h full) in
    (r, rw e f, i)

-- Decoding any text but the empty one ends without an access outside the text or the memory asked
-- for: what is written, where decoding succeeds, is exactly as many bytes as that.
pub decode-IsSized :
    (success : Bool) (text : List ℕ)
    → 0 < length text
    → (r : Result) × (decode success text ≡ some r) × IsSized r
unfolding decode
decode-IsSized success text h = elim (Bool-cases (ltb 1368 (length text))) [
  | inl long ↦ (record { status = failed; out = none; out_size = none }, rw long, λ bs h. cc)
  | inr short ↦ elim (Bool-cases (length text % 4 == 0)) [
    | inl full ↦
        let (r, e, i) = decode_padded_lem success text h (ground arith) in
        (r, rw (short, full) e, i)
    | inr odd ↦
        (record { status = failed; out = none; out_size = none }, rw (short, odd), λ bs h. cc)
  ]
]

-- With the empty text decoding reads in front of it.
pub decode_empty : (success : Bool) → decode success [] ≡ none
unfolding decode decode_padded
decode_empty success = refl
