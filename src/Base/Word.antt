-- ===== src/Base/Word.antt =====
-- Go's fixed-width integers. A `uint64` is a number below 2 ^ 64; an `int64` (and an `int`) is its
-- two's-complement bit pattern, so that a conversion between the two is the identity. Every
-- operation keeps the wrap-around.
use Prim.Native.Nat.{ℕ, ◌+◌, ◌-◌, ◌*◌, ◌/◌, ◌%◌, ◌^◌, ◌<◌}
use mathlib.Core.Bool.{Bool, ◌||◌}
use reserve_os.Base.Tests.{ltb, leb, ◌==◌, if◌then◌else◌}

abbrev pub IsU32 : ℕ → Type 0
IsU32 v = v < 2 ^ 32

abbrev pub IsU64 : ℕ → Type 0
IsU64 v = v < 2 ^ 64

-- The `int64`s that are not negative.
abbrev pub IsNonneg : ℕ → Type 0
IsNonneg v = v < 2 ^ 63

abbrev pub max_u64 : ℕ
max_u64 = 2 ^ 64 - 1

abbrev pub add64 : ℕ → ℕ → ℕ
add64 a b = (a + b) % 2 ^ 64

abbrev pub sub64 : ℕ → ℕ → ℕ
sub64 a b = (a + 2 ^ 64 - b) % 2 ^ 64

abbrev pub mul64 : ℕ → ℕ → ℕ
mul64 a b = a * b % 2 ^ 64

-- `v < 0`
abbrev pub is_neg : ℕ → Bool
is_neg v = leb (2 ^ 63) v

-- `v <= 0`
abbrev pub nonpos : ℕ → Bool
nonpos v = v == 0 || leb (2 ^ 63) v

-- `a < b` and `a <= b` on `int64`
abbrev pub slt : ℕ → ℕ → Bool
slt a b = ltb (add64 a (2 ^ 63)) (add64 b (2 ^ 63))

abbrev pub sle : ℕ → ℕ → Bool
sle a b = leb (add64 a (2 ^ 63)) (add64 b (2 ^ 63))

-- `a / k` on `int64` for a positive `k`: the quotient is cut towards zero.
abbrev pub sdiv : ℕ → ℕ → ℕ
sdiv a k = if is_neg a then sub64 0 (sub64 0 a / k) else a / k
