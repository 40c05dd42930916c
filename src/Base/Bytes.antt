-- ===== src/Base/Bytes.antt =====
-- Bytes as numbers below 256, the C string in an array of bytes, and the byte orders.
use Prim.Native.Nat.{◌+◌, ◌*◌, ◌^◌, ℕ, zero, suc, ◌/◌, ◌%◌, ◌<◌}
use mathlib.Core.Path.{◌≡◌, refl, ap}
use mathlib.Core.List.{List, [], ◌∷◌, ◌++◌}
use native.Mathlib.Nat.{pow-suc}
use native.Mathlib.Omega.{arith}
use rbus.Base.Lists.{length, drop, replicate}

-- Every element satisfies `P`.
abbrev pub All {ℓ κ} : {A : Type ℓ} → (A → Type κ) → List A → Type κ
All P [] = Unit
All P (x ∷ xs) = P x × All P xs

-- The bytes before the first NUL: the C string that an array holds.
abbrev pub c_string : List ℕ → List ℕ
c_string [] = []
c_string (zero ∷ cs) = []
c_string (suc c ∷ cs) = suc c ∷ c_string cs

-- `strlen`
abbrev pub strlen : List ℕ → ℕ
strlen cells = length (c_string cells)

-- `memcpy(cells, bytes, n)` over the front of an array: the cells behind stay.
abbrev pub overlay {ℓ} : {A : Type ℓ} → List A → List A → List A
overlay bytes cells = bytes ++ drop (length bytes) cells

abbrev pub NonZero : ℕ → Type 0
NonZero c = 0 < c

-- The octets of a number of `w` bytes, the low one first (`htole16`, `htole32`, `htole64`).
unfoldable pub le_bytes : ℕ → ℕ → List ℕ
le_bytes zero n = []
le_bytes (suc w) n = n % 256 ∷ le_bytes w (n / 256)

-- The number that such octets make up (`le16toh`, `le32toh`, `le64toh`).
unfoldable pub of_le_bytes : List ℕ → ℕ
of_le_bytes [] = 0
of_le_bytes (b ∷ bs) = b + 256 * of_le_bytes bs

-- The octets of a 16-bit and of a 32-bit number, the high one first (`htons`, `htonl`).
unfoldable pub be16 : ℕ → List ℕ
be16 n = (n / 256) % 256 ∷ n % 256 ∷ []

unfoldable pub be32 : ℕ → List ℕ
be32 n = (n / 16777216) % 256 ∷ (n / 65536) % 256 ∷ (n / 256) % 256 ∷ n % 256 ∷ []

pub NonZero-c_string : (cells : List ℕ) → All NonZero (c_string cells)
NonZero-c_string [] = tt
NonZero-c_string (zero ∷ cs) = tt
NonZero-c_string (suc c ∷ cs) = (omega arith, NonZero-c_string cs)

-- A NUL-terminated string is what the array holds, whatever stands behind the NUL.
pub c_string-append : (s rest : List ℕ) → All NonZero s → c_string (s ++ zero ∷ rest) ≡ s
c_string-append [] rest h = refl
c_string-append (zero ∷ s) rest h = absurd (omega arith)
c_string-append (suc c ∷ s) rest h = ap (λ t. suc c ∷ t) (c_string-append s rest h.1)

-- A string copied over the front of a cleared array that is longer is what the array then holds.
pub c_string-overlay :
    (s : List ℕ) (n : ℕ) → All NonZero s → length s < n → c_string (overlay s (replicate n 0)) ≡ s
c_string-overlay s zero nz h = absurd (omega arith)
c_string-overlay [] (suc n) nz h = refl
c_string-overlay (zero ∷ s) (suc n) nz h = absurd (omega (arith, nz.0))
c_string-overlay (suc c ∷ s) (suc n) nz h =
    ap (λ t. suc c ∷ t) (c_string-overlay s n nz.1 (omega arith))

pub length-le_bytes : (w n : ℕ) → length (le_bytes w n) ≡ w
unfolding le_bytes
length-le_bytes zero n = refl
length-le_bytes (suc w) n = ap suc (length-le_bytes w (n / 256))

-- A number that fits its width is read back from its octets.
pub of_le_bytes-le_bytes : (w n : ℕ) → n < 256 ^ w → of_le_bytes (le_bytes w n) ≡ n
unfolding le_bytes of_le_bytes
of_le_bytes-le_bytes zero n h = omega arith
of_le_bytes-le_bytes (suc w) n h =
    omega (arith, of_le_bytes-le_bytes w (n / 256) (omega (arith, pow-suc 256 w)))
