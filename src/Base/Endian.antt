-- ===== src/Base/Endian.antt =====
-- Fixed-width numbers as bytes: `encoding/binary` in both orders, and `math/big` magnitudes.
use Prim.Native.Nat.{ℕ, zero, suc, ◌+◌, ◌*◌, ◌/◌, ◌%◌, ◌^◌, ◌≤◌, ◌<◌}
use mathlib.Core.Path.{◌≡◌, refl, ap}
use mathlib.Core.Logic.{inl, inr}
use mathlib.Core.List.{[], ◌∷◌, ◌++◌}
use native.Mathlib.Omega.{arith}
use native.Mathlib.Nat.{pow-suc}
use reserve_os.Base.Tests.{◌==◌, if◌then◌else◌, Bool-cases}
use reserve_os.Base.Lists.{length, length-append}
use reserve_os.Base.Text.{Bytes}

abbrev pub IsByte : ℕ → Type 0
IsByte x = x < 256

-- The low `k` bytes of a number, lowest first, and the number that such bytes stand for.
unfoldable pub le_bytes : ℕ → ℕ → Bytes
le_bytes zero n = []
le_bytes (suc k) n = (n % 256) ∷ le_bytes k (n / 256)

unfoldable pub le_value : Bytes → ℕ
le_value [] = 0
le_value (x ∷ xs) = x + 256 * le_value xs

-- The same, highest first.
unfoldable pub be_bytes : ℕ → ℕ → Bytes
be_bytes zero n = []
be_bytes (suc k) n = be_bytes k (n / 256) ++ ((n % 256) ∷ [])

unfoldable pub be_acc : ℕ → Bytes → ℕ
be_acc acc [] = acc
be_acc acc (x ∷ xs) = be_acc (acc * 256 + x) xs

unfoldable pub be_value : Bytes → ℕ
unfolding be_acc
be_value = be_acc 0

-- `(*big.Int).Bytes`: the magnitude with no leading zero byte. A number has fewer bytes than its
-- value, so the value is fuel enough.
unfoldable pub big_bytes_fuel : ℕ → ℕ → Bytes
big_bytes_fuel zero n = []
big_bytes_fuel (suc fuel) n =
    let upper = big_bytes_fuel fuel (n / 256) in if n == 0 then [] else upper ++ ((n % 256) ∷ [])

unfoldable pub big_bytes : ℕ → Bytes
unfolding big_bytes_fuel
big_bytes n = big_bytes_fuel n n

pub le_value-le_bytes : (k n : ℕ) → n < 256 ^ k → le_value (le_bytes k n) ≡ n
unfolding le_bytes le_value
le_value-le_bytes zero n h = omega arith
le_value-le_bytes (suc k) n h =
    omega (arith, pow-suc 256 k, le_value-le_bytes k (n / 256) (omega (arith, pow-suc 256 k)))

pub length-le_bytes : (k n : ℕ) → length (le_bytes k n) ≡ k
unfolding le_bytes
length-le_bytes zero n = refl
length-le_bytes (suc k) n = ap suc (length-le_bytes k (n / 256))

pub length-be_bytes : (k n : ℕ) → length (be_bytes k n) ≡ k
unfolding be_bytes
length-be_bytes zero n = refl
length-be_bytes (suc k) n =
    omega
      (arith, length-be_bytes k (n / 256), length-append (be_bytes k (n / 256)) ((n % 256) ∷ []))

pub be_acc-append : (acc : ℕ) (xs ys : Bytes) → be_acc acc (xs ++ ys) ≡ be_acc (be_acc acc xs) ys
unfolding be_acc
be_acc-append acc [] ys = refl
be_acc-append acc (x ∷ xs) ys = be_acc-append (acc * 256 + x) xs ys

pub be_value_last : (xs : Bytes) (x : ℕ) → be_value (xs ++ (x ∷ [])) ≡ be_value xs * 256 + x
unfolding be_value
be_value_last xs x = be_acc-append 0 xs (x ∷ [])

-- A number below 256 ^ k is read back from its `k` bytes.
pub be_value-be_bytes : (k n : ℕ) → n < 256 ^ k → be_value (be_bytes k n) ≡ n
unfolding be_bytes
be_value-be_bytes zero n h = unfold be_value in omega arith
be_value-be_bytes (suc k) n h = omega (
  arith,
  be_value_last (be_bytes k (n / 256)) (n % 256),
  be_value-be_bytes k (n / 256) (omega (arith, pow-suc 256 k)),
)

pub be_value-big_bytes_fuel : (fuel n : ℕ) → n ≤ fuel → be_value (big_bytes_fuel fuel n) ≡ n
unfolding big_bytes_fuel
be_value-big_bytes_fuel zero n h = unfold be_value in omega arith
be_value-big_bytes_fuel (suc fuel) n h = elim (Bool-cases (n == 0)) [
  | inl e ↦ rw e (unfold be_value in ground arith)
  | inr e ↦ rw e (
      ground (
        arith,
        be_value_last (big_bytes_fuel fuel (n / 256)) (n % 256),
        be_value-big_bytes_fuel fuel (n / 256),
      ))
]

pub be_value-big_bytes : (n : ℕ) → be_value (big_bytes n) ≡ n
unfolding big_bytes
be_value-big_bytes n = be_value-big_bytes_fuel n n (omega arith)
