-- ===== src/Value/Total.antt =====
-- rbusValue_Decode on any buffer: fuel, and the read position.
use rbus.Base.{
  ℕ, ◌+◌, ◌≤◌, ◌≡◌, ◌≢◌, Bool, true, false, Option, none, some, ◌==◌, if◌then◌else◌, arith,
}
use rbus.Outcome.{Outcome, done, refused, fault, exhausted, ◌>>=◌, >>=-eq-done, >>=-ne-exhausted}
use rbus.Buffer.{Buffer, read, read_number}
use rbus.Value.Kinds.{Kind, width, kind_of, code_string, code_bytes, code_datetime}
use rbus.Value.{
  decode, decode_as, decode_string, decode_bytes, decode_number, decode_datetime, read_field,
  take_bytes, datetime_of, read_bytes, number, datetime, string, bytes,
}
use rbus.Value.Dates.{DateTime, size, of_bytes}
use rbus.Base.Bytes.{strlen}

-- `o` succeeds only by moving from `buff` `n` bytes ahead, and needs no fuel.
pub record Advances {A : Type 0} (n : ℕ) (buff : Buffer) (o : Outcome (A × Buffer)) : Type 0 where
  pub fuelled : o ≢ exhausted
  pub moved :
      (a : A) (b : Buffer)
      → o ≡ done (a, b)
      → (buff.pos_read + n ≤ b.pos_read)
        × (b.len_alloc ≡ buff.len_alloc)
        × (buff.pos_read ≤ buff.len_alloc → b.pos_read ≤ b.len_alloc)

-- The second step may use what the first has given.
pub Advances-bind_eq :
    {A B : Type 0} (n k : ℕ) (buff : Buffer) (m : Outcome (A × Buffer))
    (f : A × Buffer → Outcome (B × Buffer))
    → Advances n buff m
    → ((a : A) (b : Buffer) → m ≡ done (a, b) → Advances k b (f (a, b)))
    → Advances (n + k) buff (m >>= f)
Advances-bind_eq n k buff m f am af = record {
  fuelled = >>=-ne-exhausted m f am.fuelled (λ x e. (af x.0 x.1 e).fuelled);
  moved = λ c b e.
      let (x, found, rest) = >>=-eq-done m f e in
      let p = am.moved x.0 x.1 found in
      let q = (af x.0 x.1 found).moved c b rest in (omega arith, omega arith, λ i. q.2 (p.2 i));
}

pub Advances-bind :
    {A B : Type 0} (n k : ℕ) (buff : Buffer) (m : Outcome (A × Buffer))
    (f : A × Buffer → Outcome (B × Buffer))
    → Advances n buff m
    → ((a : A) (b : Buffer) → Advances k b (f (a, b)))
    → Advances (n + k) buff (m >>= f)
Advances-bind n k buff m f am af = Advances-bind_eq n k buff m f am (λ a b _. af a b)

pub Advances-if :
    {A : Type 0} (t : Bool) (n : ℕ) (buff : Buffer) (o p : Outcome (A × Buffer))
    → Advances n buff o
    → Advances n buff p
    → Advances n buff (if t then o else p)
Advances-if true n buff o p x y = x
Advances-if false n buff o p x y = y

pub Advances-done : {A : Type 0} (a : A) (buff : Buffer) → Advances 0 buff (done (a, buff))
Advances-done a buff = record { fuelled = ground arith; moved = λ c b e. ground arith }

pub Advances-refused : {A : Type 0} (n : ℕ) (buff : Buffer) → Advances {A = A} n buff refused
Advances-refused n buff = record { fuelled = ground arith; moved = λ c b e. cc }

pub Advances-fault : {A : Type 0} (n : ℕ) (buff : Buffer) → Advances {A = A} n buff fault
Advances-fault n buff = record { fuelled = ground arith; moved = λ c b e. cc }

pub read_field-Advances : (w : ℕ) (buff : Buffer) → Advances w buff (read_field w buff)
unfolding read_field read_number read
read_field-Advances w buff = record { fuelled = ground arith; moved = λ a b e. ground arith }

take_bytes-Advances : (n : ℕ) (buff : Buffer) → Advances n buff (take_bytes n buff)
unfolding take_bytes
take_bytes-Advances n buff = record { fuelled = ground arith; moved = λ a b e. ground arith }

read_bytes-Advances : (n : ℕ) (buff : Buffer) → Advances n buff (read_bytes (read buff n))
unfolding read_bytes read
read_bytes-Advances n buff = record { fuelled = ground arith; moved = λ a b e. ground arith }

datetime_of-Advances : (t : Option DateTime) (buff : Buffer) → Advances 0 buff (datetime_of t buff)
unfolding datetime_of
datetime_of-Advances none buff = Advances-fault 0 buff
datetime_of-Advances (some t) buff = Advances-done (datetime t) buff

pub weaken :
    {A : Type 0} (n : ℕ) (buff : Buffer) (o : Outcome (A × Buffer))
    → Advances n buff o
    → Advances 0 buff o
weaken n buff o h = record {
  fuelled = h.fuelled;
  moved = λ a b e. let p = h.moved a b e in (omega arith, p.1, p.2);
}

decode_number-Advances : (k : Option Kind) (buff : Buffer) → Advances 0 buff (decode_number k buff)
unfolding decode_number
decode_number-Advances none buff = Advances-fault 0 buff
decode_number-Advances (some k) buff = weaken _ buff _ (
    Advances-bind (width k) 0 buff _ _ (read_field-Advances (width k) buff)
      (λ n b. Advances-done (number k n) b))

decode_as-Advances : (type n : ℕ) (buff : Buffer) → Advances 0 buff (decode_as type n buff)
unfolding decode_as decode_string decode_bytes decode_datetime
decode_as-Advances type n buff =
    Advances-if (type == code_string) 0 buff _ _
      (weaken _ buff _ (
        Advances-bind n 0 buff _ _ (take_bytes-Advances n buff) (λ s b.
          Advances-if (strlen s + 1 == n) 0 b _ _ (Advances-done (string s) b)
            (Advances-fault 0 b))))
      (Advances-if (type == code_bytes) 0 buff _ _
        (weaken _ buff _ (
          Advances-bind n 0 buff _ _ (take_bytes-Advances n buff)
            (λ p b. Advances-done (bytes p) b)))
        (Advances-if (type == code_datetime) 0 buff _ _
          (weaken _ buff _ (
            Advances-bind size 0 buff _ _ (read_bytes-Advances size buff)
              (λ bs b. datetime_of-Advances (of_bytes bs) b)))
          (decode_number-Advances (kind_of type) buff)))

-- Whatever the buffer holds, decoding a value ends, and a value that it gives took at least the
-- four bytes of its type and length.
pub decode-Advances : (buff : Buffer) → Advances 4 buff (decode buff)
unfolding decode
decode-Advances buff =
    Advances-bind 2 2 buff _ _ (read_field-Advances 2 buff) λ type b.
      Advances-bind 2 0 b _ _ (read_field-Advances 2 b) λ n b'. decode_as-Advances type n b'
