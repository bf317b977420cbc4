-- ===== src/Prelude/Bytes.antt =====
-- Bytes and little-endian words: Rust's `to_le_bytes` and `from_le_bytes`, and the casts between
-- `i8` and `u8`.
use Prim.Native.Nat.{ℕ, zero, suc, ◌+◌, ◌-◌, ◌*◌, ◌/◌, ◌%◌, ◌^◌, ◌<◌}
use mathlib.Core.Path.{◌≡◌, refl}
use mathlib.Core.List.{List, [], ◌∷◌, ◌++◌}
use native.Mathlib.Omega.{arith}
use native.Mathlib.Nat.{pow-suc}
use sooqa.Prelude.Tests.{ltb, if◌then◌else◌}
use sooqa.Prelude.Lists.{length, All}
use sooqa.Prelude.Int.{ℤ, pos, negsuc}

abbrev pub IsByte : ℕ → Type 0
IsByte b = b < 256

-- The lowest `w` bytes, lowest first.
abbrev pub to_le_bytes : ℕ → ℕ → List ℕ
to_le_bytes zero v = []
to_le_bytes (suc w) v = (v % 256) ∷ to_le_bytes w (v / 256)

-- The same, highest first.
abbrev pub to_be_bytes : ℕ → ℕ → List ℕ
to_be_bytes zero v = []
to_be_bytes (suc w) v = to_be_bytes w (v / 256) ++ (v % 256) ∷ []

-- The eight bytes of an `i64`, highest first.
abbrev pub i64_to_be_bytes : ℤ → List ℕ
i64_to_be_bytes (pos n) = to_be_bytes 8 n
i64_to_be_bytes (negsuc n) = to_be_bytes 8 (2 ^ 64 - 1 - n)

abbrev pub from_le_bytes : List ℕ → ℕ
from_le_bytes [] = 0
from_le_bytes (b ∷ bs) = b + 256 * from_le_bytes bs

-- `x as u8` for an `i8`, and `b as i8` for a `u8`.
abbrev pub i8_to_u8 : ℤ → ℕ
i8_to_u8 (pos n) = n % 256
i8_to_u8 (negsuc n) = 255 - n % 256

abbrev pub u8_to_i8 : ℕ → ℤ
u8_to_i8 b = if ltb b 128 then pos b else negsuc (255 - b)

abbrev pub IsI8 : ℤ → Type 0
IsI8 (pos n) = n < 128
IsI8 (negsuc n) = n < 128

pub length-to_le_bytes : (w v : ℕ) → length (to_le_bytes w v) ≡ w
length-to_le_bytes zero v = refl
length-to_le_bytes (suc w) v = omega (arith, length-to_le_bytes w (v / 256))

pub to_le_bytes-IsByte : (w v : ℕ) → All IsByte (to_le_bytes w v)
to_le_bytes-IsByte zero v = tt
to_le_bytes-IsByte (suc w) v = (omega arith, to_le_bytes-IsByte w (v / 256))

pub from_le_bytes-to_le_bytes : (w v : ℕ) → v < 256 ^ w → from_le_bytes (to_le_bytes w v) ≡ v
from_le_bytes-to_le_bytes zero v h = omega arith
from_le_bytes-to_le_bytes (suc w) v h =
    omega (arith, from_le_bytes-to_le_bytes w (v / 256) (omega (arith, pow-suc 256 w)))

pub to_le_bytes-from_le_bytes :
    (bs : List ℕ) → All IsByte bs → to_le_bytes (length bs) (from_le_bytes bs) ≡ bs
to_le_bytes-from_le_bytes [] h = refl
to_le_bytes-from_le_bytes (b ∷ bs) (hb, hbs) =
    let r : ℕ = from_le_bytes bs in
    let low : (b + 256 * r) % 256 ≡ b = omega arith in
    let high : (b + 256 * r) / 256 ≡ r = omega arith in
    rw (low, high) (rw (to_le_bytes-from_le_bytes bs hbs))

pub from_le_bytes-lt : (bs : List ℕ) → All IsByte bs → from_le_bytes bs < 256 ^ length bs
from_le_bytes-lt [] h = omega arith
from_le_bytes-lt (b ∷ bs) (hb, hbs) =
    omega (arith, from_le_bytes-lt bs hbs, pow-suc 256 (length bs))

pub u8_to_i8-i8_to_u8 : (x : ℤ) → IsI8 x → u8_to_i8 (i8_to_u8 x) ≡ x
u8_to_i8-i8_to_u8 (pos n) h = ground arith
u8_to_i8-i8_to_u8 (negsuc n) h = ground arith

pub i8_to_u8-u8_to_i8 : (b : ℕ) → IsByte b → i8_to_u8 (u8_to_i8 b) ≡ b
i8_to_u8-u8_to_i8 b h = ground arith

pub u8_to_i8-IsI8 : (b : ℕ) → IsByte b → IsI8 (u8_to_i8 b)
u8_to_i8-IsI8 b h = ground arith

pub i8_to_u8-IsByte : (x : ℤ) → IsByte (i8_to_u8 x)
i8_to_u8-IsByte (pos n) = omega arith
i8_to_u8-IsByte (negsuc n) = omega arith
