-- ===== src/Buffer.antt =====
-- src/rbus/rbus_buffer.c: a growing byte buffer with a write and a read position. Memory that no
-- one has written yet holds `none` in a cell. Allocations succeed (rt_malloc and rt_realloc stop
-- the process if they fail), and positions stay below the range of `int`.
pub mod Contents
pub mod Reading
mod Tests
use rbus.Base.{
  ℕ, ◌+◌, ◌-◌, ◌*◌, ◌/◌, ◌%◌, ◌^◌, Bool, true, false, Option, none, some, List, [], ◌∷◌, ◌++◌, ltb,
  if◌then◌else◌, length, take, drop, replicate, ◌>>=◌,
}
use rbus.Base.Bytes.{le_bytes, of_le_bytes}

abbrev pub block_size : ℕ
block_size = 64

-- `on_heap`: `data` does not point to the block inside the structure.
pub record Buffer : Type 0 where
  pub len_alloc : ℕ
  pub pos_write : ℕ
  pub pos_read : ℕ
  pub cells : List (Option ℕ)
  pub on_heap : Bool

-- Memory fresh from the allocator.
pub fresh : ℕ → List (Option ℕ)
fresh n = replicate n none

unfoldable pub create : Buffer
unfolding fresh
create = record {
  len_alloc = block_size;
  pos_write = 0;
  pos_read = 0;
  cells = fresh block_size;
  on_heap = false;
}

-- The assertion of rbusBuffer_Destroy, before the memory is released.
unfoldable pub destroy_asserts : Buffer → Bool
destroy_asserts buff = if buff.on_heap then ltb block_size buff.len_alloc else true

-- A realloc keeps the cells; the first malloc copies what has been written.
pub moved_cells : Buffer → ℕ → List (Option ℕ)
unfolding fresh
moved_cells buff n =
    if buff.on_heap
    then buff.cells ++ fresh (n - buff.len_alloc)
    else take buff.pos_write buff.cells ++ fresh (n - buff.pos_write)

unfoldable pub reserve : Buffer → ℕ → Buffer
unfolding moved_cells
reserve buff len =
    let pos_next = buff.pos_write + len in
    let n = (pos_next / block_size + 1) * block_size in
    if ltb buff.len_alloc pos_next
    then record buff { len_alloc = n; cells = moved_cells buff n; on_heap = true }
    else buff

abbrev pub cells_of : List ℕ → List (Option ℕ)
cells_of [] = []
cells_of (b ∷ bs) = some b ∷ cells_of bs

-- `memcpy(buff->data + at, bytes, length of bytes)`
abbrev pub splice : List (Option ℕ) → ℕ → List ℕ → List (Option ℕ)
splice cells at bytes = take at cells ++ (cells_of bytes ++ drop (at + length bytes) cells)

-- `none` is a NULL pointer.
unfoldable pub write : Buffer → Option (List ℕ) → Buffer
unfolding reserve
write buff none = buff
write buff (some bytes) =
    let buff' = reserve buff (length bytes) in
    record buff' {
      cells = splice buff'.cells buff'.pos_write bytes;
      pos_write = buff'.pos_write + length bytes;
    }

-- The first `length` bytes that a pointer gives.
abbrev pub first_bytes : ℕ → Option (List ℕ) → Option (List ℕ)
first_bytes n none = none
first_bytes n (some bytes) = some (take n bytes)

-- `type` and `len` are passed as uint16_t.
unfoldable pub write_type_length_value : Buffer → ℕ → ℕ → Option (List ℕ) → Buffer
write_type_length_value buff type len value =
    let b1 = write buff (some (le_bytes 2 (type % 2 ^ 16))) in
    let b2 = write b1 (some (le_bytes 2 (len % 2 ^ 16))) in
    write b2 (first_bytes (len % 2 ^ 16) value)

-- rbusBuffer_Read: -1 (`none`) changes nothing.
unfoldable pub read : Buffer → ℕ → Option (List (Option ℕ) × Buffer)
read buff len =
    if ltb (buff.pos_read + len) buff.len_alloc
    then some
        (take len (drop buff.pos_read buff.cells), record buff { pos_read = buff.pos_read + len })
    else none

-- The bytes in cells that have all been written.
unfoldable pub bytes_of : List (Option ℕ) → Option (List ℕ)
bytes_of [] = some []
bytes_of (none ∷ cells) = none
bytes_of (some b ∷ cells) = do bs ← bytes_of cells; some (b ∷ bs)

-- rbusBuffer_ReadBoolean to rbusBuffer_ReadDouble: a number of `w` bytes, `none` where it comes
-- from memory that was never written.
unfoldable pub read_number : ℕ → Buffer → Option (Option ℕ × Buffer)
read_number w buff = do
  (cells, buff') ← read buff w
  some ((do bs ← bytes_of cells; some (of_le_bytes bs)), buff')
