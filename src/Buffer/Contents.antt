-- ===== src/Buffer/Contents.antt =====
-- rbusBuffer_Reserve, rbusBuffer_Write and the TLV writer: the bytes that a buffer holds.
use rbus.Base.{
  ap₂, ℕ, suc, ◌+◌, ◌-◌, ◌*◌, ◌/◌, ◌%◌, ◌^◌, ◌≤◌, ◌<◌, ◌≡◌, refl, ap, sym, ◌∙◌, true, false, Option,
  none, some, List, [], ◌∷◌, ◌++◌, ltb, length, take, drop, append_assoc, length-append,
  length-replicate, arith, Bool-cases, inl, inr, length-drop,
}
use rbus.Base.Bytes.{le_bytes}
use rbus.Buffer.{
  cells_of, Buffer, block_size, create, destroy_asserts, fresh, moved_cells, reserve, splice, write,
  write_type_length_value,
}

-- The first `pos_write` cells hold `bytes`, the others are allocated, and only a buffer that has
-- grown points to the heap.
pub record Holds (buff : Buffer) (bytes : List ℕ) : Type 0 where
  pub tail : List (Option ℕ)
  pub cells_lem : buff.cells ≡ cells_of bytes ++ tail
  pub written : buff.pos_write ≡ length bytes
  pub allocated : buff.len_alloc ≡ length bytes + length tail
  pub blocks : buff.len_alloc % block_size ≡ 0
  pub grown : buff.on_heap ≡ true → block_size < buff.len_alloc
  pub inner : buff.on_heap ≡ false → buff.len_alloc ≡ block_size

module _ {ℓ} {A : Type ℓ} where
  pub take-append : (xs ys : List A) → take (length xs) (xs ++ ys) ≡ xs
  take-append [] ys = refl
  take-append (x ∷ xs) ys = rw (take-append xs ys)

  pub drop-append : (xs ys : List A) (n : ℕ) → drop (length xs + n) (xs ++ ys) ≡ drop n ys
  drop-append [] ys n = ap (λ k. drop k ys) (omega arith)
  drop-append (x ∷ xs) ys n =
      let e : suc (length xs) + n ≡ suc (length xs + n) = omega arith in rw e (drop-append xs ys n)

pub length-cells_of : (bytes : List ℕ) → length (cells_of bytes) ≡ length bytes
length-cells_of [] = refl
length-cells_of (b ∷ bytes) = ap suc (length-cells_of bytes)

pub cells_of-append : (xs ys : List ℕ) → cells_of (xs ++ ys) ≡ cells_of xs ++ cells_of ys
cells_of-append [] ys = refl
cells_of-append (x ∷ xs) ys = rw (cells_of-append xs ys)

pub take-cells_of :
    (bytes : List ℕ) (tail : List (Option ℕ))
    → take (length bytes) (cells_of bytes ++ tail) ≡ cells_of bytes
take-cells_of bytes tail = rw (← length-cells_of bytes) (take-append (cells_of bytes) tail)

pub drop-cells_of :
    (bytes : List ℕ) (tail : List (Option ℕ)) (n : ℕ)
    → drop (length bytes + n) (cells_of bytes ++ tail) ≡ drop n tail
drop-cells_of bytes tail n = rw (← length-cells_of bytes) (drop-append (cells_of bytes) tail n)

length-fresh : (n : ℕ) → length (fresh n) ≡ n
unfolding fresh
length-fresh n = length-replicate n none

pub create-Holds : Holds create []
unfolding create
create-Holds = record {
  tail = create.cells;
  cells_lem = refl;
  written = refl;
  allocated = refl;
  blocks = refl;
  grown = λ h. cc;
  inner = λ h. refl;
}

-- What the new memory holds.
moved_cells_lem :
    (buff : Buffer) (n : ℕ) {bytes : List ℕ}
    → Holds buff bytes
    → buff.len_alloc ≤ n
    → (tail : List (Option ℕ)) × (moved_cells buff n ≡ cells_of bytes ++ tail)
      × (n ≡ length bytes + length tail)
unfolding moved_cells
moved_cells_lem buff n {bytes} h k = elim (Bool-cases buff.on_heap) [
  | inl heap ↦
      let room = fresh (n - buff.len_alloc) in
      (
        h.tail ++ room,
        rw heap (ap (λ c. c ++ room) h.cells_lem ∙ append_assoc (cells_of bytes) h.tail room),
        omega (arith, length-append h.tail room, length-fresh (n - buff.len_alloc), h.allocated),
      )
  | inr block ↦
      let room = fresh (n - buff.pos_write) in
      (
        room,
        rw block
            (ap (λ c. c ++ room) (ap₂ take h.written h.cells_lem ∙ take-cells_of bytes h.tail)),
        omega (arith, length-fresh (n - buff.pos_write), h.written, h.allocated),
      )
]

-- Growth keeps what has been written, and makes room for `len` more bytes.
pub reserve-Holds :
    (buff : Buffer) (len : ℕ) {bytes : List ℕ}
    → Holds buff bytes
    → Holds (reserve buff len) bytes
      × (buff.pos_write + len ≤ (reserve buff len).len_alloc)
      × ((reserve buff len).pos_write ≡ buff.pos_write)
unfolding reserve
reserve-Holds buff len {bytes} h = elim (Bool-cases (ltb buff.len_alloc (buff.pos_write + len))) [
  | inl more ↦
      let n = ((buff.pos_write + len) / block_size + 1) * block_size in
      let k : buff.len_alloc ≤ n = ground arith in
      let (tail, e, size) = moved_cells_lem buff n h k in
      rw more (
        record {
          tail = tail;
          cells_lem = e;
          written = h.written;
          allocated = size;
          blocks = omega arith;
          grown = λ _. ground arith;
          inner = λ c. cc;
        },
        omega arith,
        refl,
      )
  | inr room ↦ rw room (h, ground arith, refl)
]

splice_lem :
    (bytes new : List ℕ) (tail : List (Option ℕ))
    → splice (cells_of bytes ++ tail) (length bytes) new
      ≡ cells_of (bytes ++ new) ++ drop (length new) tail
splice_lem bytes new tail =
    rw (take-cells_of, drop-cells_of, cells_of-append)
      (sym (append_assoc (cells_of bytes) (cells_of new) (drop (length new) tail)))

-- Writing appends: a buffer that held some bytes holds those and the new ones, whether or not its
-- memory grows for them.
pub write-Holds :
    (buff : Buffer) (new : List ℕ) {bytes : List ℕ}
    → Holds buff bytes
    → Holds (write buff (some new)) (bytes ++ new)
unfolding write
write-Holds buff new {bytes} h =
    let (g, room, pos) = reserve-Holds buff (length new) h in
    record {
      tail = drop (length new) g.tail;
      cells_lem = ap₂ (λ c n. splice c n new) g.cells_lem g.written ∙ splice_lem bytes new g.tail;
      written = omega (arith, g.written, length-append bytes new);
      allocated =
          omega (
            arith,
            g.allocated,
            g.written,
            length-append bytes new,
            length-drop (length new) g.tail,
          );
      blocks = g.blocks;
      grown = g.grown;
      inner = g.inner;
    }

pub pos_read-write :
    (buff : Buffer) (new : List ℕ) → (write buff (some new)).pos_read ≡ buff.pos_read
unfolding write reserve
pos_read-write buff new = ground arith

-- The assertion of rbusBuffer_Destroy holds of every buffer that writes have filled.
pub Holds-destroy_asserts :
    (buff : Buffer) {bytes : List ℕ} → Holds buff bytes → destroy_asserts buff ≡ true
unfolding destroy_asserts
Holds-destroy_asserts buff h = ground (arith, h.grown)

-- A type, a length and a value are appended as two little-endian 16-bit numbers and the bytes.
-- The length is taken modulo 2^16, and no more bytes than that are written.
pub write_type_length_value-Holds :
    (buff : Buffer) (type len : ℕ) (value : List ℕ) {bytes : List ℕ}
    → Holds buff bytes
    → Holds (write_type_length_value buff type len (some value)) (
        bytes
        ++ (le_bytes 2 (type % 2 ^ 16) ++ (le_bytes 2 (len % 2 ^ 16) ++ take (len % 2 ^ 16) value)))
unfolding write_type_length_value
write_type_length_value-Holds buff type len value {bytes} h =
    let h1 = write-Holds buff (le_bytes 2 (type % 2 ^ 16)) h in
    let h2 = write-Holds _ (le_bytes 2 (len % 2 ^ 16)) h1 in
    let h3 = write-Holds _ (take (len % 2 ^ 16) value) h2 in simp (← append_assoc) h3
