-- ===== src/Base/Bytes.antt =====
-- Byte strings as lists of numbers: fixed-width little-endian and big-endian integers.
use Prim.Native.Nat.{ℕ, zero, suc, ◌+◌, ◌-◌, ◌*◌, ◌/◌, ◌%◌, ◌^◌, ◌<◌, min}
use mathlib.Core.Path.{◌≡◌, refl, ap}
use mathlib.Core.List.{List, [], ◌∷◌}
use native.Mathlib.Omega.{arith}
use bandix_plus_lite.Base.Lists.{length, take, drop, All}

-- `v.to_le_bytes()` of an integer of `n` bytes.
abbrev pub to_le_bytes : ℕ → ℕ → List ℕ
to_le_bytes zero v = []
to_le_bytes (suc n) v = (v % 256) ∷ to_le_bytes n (v / 256)

-- `from_le_bytes`.
abbrev pub from_le_bytes : List ℕ → ℕ
from_le_bytes [] = 0
from_le_bytes (b ∷ bs) = b + 256 * from_le_bytes bs

-- `from_be_bytes`, or `from_be` of a native read, with what was read before.
abbrev pub from_be_acc : ℕ → List ℕ → ℕ
from_be_acc acc [] = acc
from_be_acc acc (b ∷ bs) = from_be_acc (acc * 256 + b) bs

-- `&data[offset..offset + n]`; callers check the bound.
abbrev pub slice : List ℕ → ℕ → ℕ → List ℕ
slice bytes offset n = take n (drop offset bytes)

-- Saturating and wrapping addition of u64.
abbrev pub saturating_add : ℕ → ℕ → ℕ
saturating_add a b = min (a + b) (2 ^ 64 - 1)

abbrev pub wrapping_add : ℕ → ℕ → ℕ
wrapping_add a b = (a + b) % 2 ^ 64

pub length-to_le_bytes : (n v : ℕ) → length (to_le_bytes n v) ≡ n
length-to_le_bytes zero v = refl
length-to_le_bytes (suc n) v = ap suc (length-to_le_bytes n (v / 256))

pub from-to_le_bytes : (n v : ℕ) → v < 256 ^ n → from_le_bytes (to_le_bytes n v) ≡ v
from-to_le_bytes zero v h = omega arith
from-to_le_bytes (suc n) v h = omega (arith, from-to_le_bytes n (v / 256) (omega arith))

pub to_le_bytes-All_byte : (n v : ℕ) → All (λ b. b < 256) (to_le_bytes n v)
to_le_bytes-All_byte zero v = tt
to_le_bytes-All_byte (suc n) v = (omega arith, to_le_bytes-All_byte n (v / 256))
