-- ===== src/Decimal.antt =====
-- Decimal numerals: `itoaU` of core/node/sync.go and core/node/finality_gossip.go, which writes the
-- digits of a uint64 from the last to the first and reverses them. A uint64 has at most 20 digits.
use native.Mathlib.Nat.{pow-suc}
use mathlib.Core.List.{reverse-cons}
use reserve_os.Base.{
  ℕ, zero, suc, ◌+◌, ◌-◌, ◌*◌, ◌/◌, ◌%◌, ◌<◌, ◌^◌, ◌≡◌, refl, if◌then◌else◌, arith, [], ◌∷◌, ◌++◌,
  reverse, Bytes, codes, ◌==◌, Bool-cases, inl, inr, IsU64,
}

unfoldable pub digit_loop : ℕ → ℕ → Bytes
digit_loop zero v = []
digit_loop (suc n) v =
    let rest = digit_loop n (v / 10) in if v == 0 then [] else (48 + v % 10) ∷ rest

unfoldable pub itoa_u : ℕ → Bytes
itoa_u v = if v == 0 then codes "0" else reverse (digit_loop 20 v)

-- The value of a numeral, read from the left.
pub read_from : ℕ → Bytes → ℕ
read_from acc [] = acc
read_from acc (c ∷ cs) = read_from (acc * 10 + (c - 48)) cs

pub read : Bytes → ℕ
read = read_from 0

read_from-append :
    (acc : ℕ) (xs ys : Bytes) → read_from acc (xs ++ ys) ≡ read_from (read_from acc xs) ys
unfolding read_from
read_from-append acc [] ys = refl
read_from-append acc (x ∷ xs) ys = read_from-append (acc * 10 + (x - 48)) xs ys

read-digit_loop : (n v : ℕ) → v < 10 ^ n → read (reverse (digit_loop n v)) ≡ v
unfolding digit_loop read read_from
read-digit_loop zero v h = omega arith
read-digit_loop (suc n) v h = elim (Bool-cases (v == 0)) [
  | inl none_left ↦ rw none_left (ground arith)
  | inr more ↦
      let rest = read-digit_loop n (v / 10) (omega (arith, pow-suc 10 n)) in
      rw (more, reverse-cons, read_from-append) (omega (arith, rest))
]

-- The numeral that `itoaU` writes for a uint64 reads back as that number.
pub read-itoa_u : (v : ℕ) → IsU64 v → read (itoa_u v) ≡ v
unfolding itoa_u read read_from
read-itoa_u v w = elim (Bool-cases (v == 0)) [
  | inl zero_value ↦ rw zero_value (ground arith)
  | inr other ↦ rw other (read-digit_loop 20 v (omega arith))
]
