-- ===== src/Common/Bytes.antt =====
-- Machine words: `u32` and `u64` as big-endian bytes, and the wrap of 64-bit arithmetic.
use fissure.Common.{ℕ, ◌+◌, ◌*◌, ◌/◌, ◌%◌, ◌^◌, ◌<◌, ◌≡◌, List, [], ◌∷◌, ◌++◌, arith, get_or}

-- Sums and products of `u64` and `usize`, in a release build.
unfoldable pub wrap : ℕ → ℕ
wrap n = n % 2 ^ 64

pub wrap_lt : (n : ℕ) → n < 2 ^ 64 → wrap n ≡ n
unfolding wrap
wrap_lt n h = omega arith

abbrev pub IsByte : ℕ → Type 0
IsByte b = b < 256

abbrev pub IsU32 : ℕ → Type 0
IsU32 n = n < 2 ^ 32

-- `n as u8`, `n as u16` and `n as u32` keep the low bits.
abbrev pub as_u32 : ℕ → ℕ
as_u32 n = n % 2 ^ 32

-- `u32::to_be_bytes` of the low 32 bits.
unfoldable pub to_be_bytes : ℕ → List ℕ
to_be_bytes n = (n / 2 ^ 24 % 256) ∷ (n / 2 ^ 16 % 256) ∷ (n / 2 ^ 8 % 256) ∷ (n % 256) ∷ []

-- `u32::from_be_bytes` of an array of four bytes.
unfoldable pub from_be_bytes : ℕ → ℕ → ℕ → ℕ → ℕ
from_be_bytes a b c d = a * 2 ^ 24 + b * 2 ^ 16 + c * 2 ^ 8 + d

pub from_be_bytes-IsU32 :
    (a b c d : ℕ) → IsByte a → IsByte b → IsByte c → IsByte d → IsU32 (from_be_bytes a b c d)
unfolding from_be_bytes
from_be_bytes-IsU32 a b c d ha hb hc hd = omega arith

pub from_be_bytes-to_be_bytes :
    (n : ℕ)
    → from_be_bytes (n / 2 ^ 24 % 256) (n / 2 ^ 16 % 256) (n / 2 ^ 8 % 256) (n % 256) ≡ as_u32 n
unfolding from_be_bytes
from_be_bytes-to_be_bytes n = omega arith

pub as_u32_lt : (n : ℕ) → IsU32 n → as_u32 n ≡ n
as_u32_lt n h = omega arith

-- `u64::to_be_bytes` of the low 64 bits, and `u16::to_be_bytes` of the low 16 bits.
unfoldable pub u64_to_be_bytes : ℕ → List ℕ
unfolding to_be_bytes
u64_to_be_bytes n = to_be_bytes (n / 2 ^ 32) ++ to_be_bytes n

unfoldable pub u16_to_be_bytes : ℕ → List ℕ
u16_to_be_bytes n = (n / 2 ^ 8 % 256) ∷ (n % 256) ∷ []

-- `u16::from_be_bytes`
unfoldable pub u16_from_be_bytes : ℕ → ℕ → ℕ
u16_from_be_bytes a b = a * 2 ^ 8 + b

-- The number that the bytes from `at` on begin with, 0 for each byte past the end.
unfoldable pub be_u32 : List ℕ → ℕ → ℕ
unfolding from_be_bytes
be_u32 bytes at =
    from_be_bytes (get_or bytes at 0) (get_or bytes (at + 1) 0) (get_or bytes (at + 2) 0)
      (get_or bytes (at + 3) 0)

unfoldable pub be_u64 : List ℕ → ℕ → ℕ
unfolding be_u32
be_u64 bytes at = be_u32 bytes at * 2 ^ 32 + be_u32 bytes (at + 4)
