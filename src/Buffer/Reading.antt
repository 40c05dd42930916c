-- ===== src/Buffer/Reading.antt =====
-- rbusBuffer_Read and the typed readers, on what a buffer holds.
use rbus.Base.{
  ℕ, ◌+◌, ◌*◌, ◌/◌, ◌^◌, ◌<◌, ◌≡◌, refl, ◌∙◌, Option, none, some, List, [], ◌∷◌, ◌++◌, ltb,
  if◌then◌else◌, ◌==◌, length, take, drop, append_assoc, append-nil, arith, lt→ltb, length-append,
}
use rbus.Base.Bytes.{le_bytes, length-le_bytes, of_le_bytes-le_bytes}
use rbus.Buffer.{Buffer, create, reserve, write, read, read_number, bytes_of, cells_of}
use rbus.Buffer.Contents.{
  Holds, create-Holds, write-Holds, cells_of-append, take-cells_of, drop-cells_of, pos_read-write,
}

pub bytes_of-cells_of : (bytes : List ℕ) → bytes_of (cells_of bytes) ≡ some bytes
unfolding bytes_of
bytes_of-cells_of [] = refl
bytes_of-cells_of (b ∷ bytes) = rw (bytes_of-cells_of bytes)

-- The cells of a part in the middle.
pub window_lem :
    (pre mid post : List ℕ) (tail : List (Option ℕ))
    → take (length mid) (drop (length pre) (cells_of (pre ++ (mid ++ post)) ++ tail)) ≡ cells_of mid
window_lem pre mid post tail =
    let e : length pre ≡ length pre + 0 = omega arith in
    rw (
      e, cells_of-append, append_assoc, drop-cells_of, cells_of-append, append_assoc, take-cells_of,
    )

abbrev pub advance : Buffer → ℕ → Buffer
advance buff n = record buff { pos_read = buff.pos_read + n }

-- A read inside what has been written gives exactly the bytes that stand there and moves the
-- position behind them, unless it reaches the end of the allocated memory: then it fails.
pub read_lem :
    (buff : Buffer) (pre mid post : List ℕ)
    → Holds buff (pre ++ (mid ++ post))
    → buff.pos_read ≡ length pre
    → read buff (length mid) ≡ (
        if ltb (length pre + length mid) buff.len_alloc
        then some (cells_of mid, advance buff (length mid))
        else none)
unfolding read
read_lem buff pre mid post h e = rw (h.cells_lem, e, window_lem pre mid post h.tail)

-- A number of `w` bytes that was written is read back.
pub read_number_lem :
    (w n : ℕ) (buff : Buffer) (pre post : List ℕ)
    → Holds buff (pre ++ (le_bytes w n ++ post))
    → buff.pos_read ≡ length pre
    → length pre + w < buff.len_alloc
    → n < 256 ^ w
    → read_number w buff ≡ some (some n, advance buff w)
unfolding read_number
read_number_lem w n buff pre post h e room fits =
    let r = read_lem buff pre (le_bytes w n) post h e in
    let r' = rw (length-le_bytes w n) at r in
    rw (r', lt→ltb _ _ room, bytes_of-cells_of, of_le_bytes-le_bytes w n fits)

pos_read_create : create.pos_read ≡ 0
unfolding create
pos_read_create = refl

len_alloc_lem :
    (bytes : List ℕ)
    → (write create (some bytes)).len_alloc
      ≡ (if ltb 64 (length bytes) then (length bytes / 64 + 1) * 64 else 64)
unfolding write reserve create
len_alloc_lem bytes = ground arith

-- Bytes written to a new buffer in one call are read back in full, unless there are exactly 64 of
-- them: then the block is full, and a read that reaches its end is refused.
pub read-write-create :
    (bytes : List ℕ)
    → read (write create (some bytes)) (length bytes) ≡ (
        if length bytes == 64
        then none
        else some (cells_of bytes, advance (write create (some bytes)) (length bytes)))
read-write-create bytes =
    let b = write create (some bytes) in
    let h : Holds b bytes = write-Holds create bytes create-Holds in
    let h' : Holds b ([] ++ (bytes ++ [])) = rw append-nil h in
    let r = read_lem b [] bytes [] h' (pos_read-write create bytes ∙ pos_read_create) in
    rw r (ground (arith, len_alloc_lem bytes))

-- The read position stands between `pre` and `rest`.
pub record At (buff : Buffer) (pre rest : List ℕ) : Type 0 where
  pub holds : Holds buff (pre ++ rest)
  pub here : buff.pos_read ≡ length pre

Holds-advance :
    (buff : Buffer) (n : ℕ) {bytes : List ℕ} → Holds buff bytes → Holds (advance buff n) bytes
Holds-advance buff n h = record {
  tail = h.tail;
  cells_lem = h.cells_lem;
  written = h.written;
  allocated = h.allocated;
  blocks = h.blocks;
  grown = h.grown;
  inner = h.inner;
}

pub At-advance :
    (buff : Buffer) (pre mid rest : List ℕ)
    → At buff pre (mid ++ rest)
    → At (advance buff (length mid)) (pre ++ mid) rest
At-advance buff pre mid rest a = record {
  holds = Holds-advance buff (length mid) (rw (append_assoc pre mid rest) a.holds);
  here = omega (arith, a.here, length-append pre mid);
}

-- One number of a message: read, and the position behind it.
pub read_number-At :
    (w n : ℕ) (buff : Buffer) (pre rest : List ℕ)
    → At buff pre (le_bytes w n ++ rest)
    → length pre + w < buff.len_alloc
    → n < 256 ^ w
    → (read_number w buff ≡ some (some n, advance buff w))
      × At (advance buff w) (pre ++ le_bytes w n) rest
read_number-At w n buff pre rest a room fits = (
  read_number_lem w n buff pre rest a.holds a.here room fits,
  rw (length-le_bytes w n) at (At-advance buff pre (le_bytes w n) rest a),
)
