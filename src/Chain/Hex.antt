-- ===== src/Chain/Hex.antt =====
-- Hashes in hexadecimal, core/chain.
use reserve_os.Base.{
  ℕ, zero, suc, ◌+◌, ◌/◌, ◌%◌, ◌<◌, ◌≡◌, refl, ap, [], ◌∷◌, Bool, true, ◌&&◌, Option, none, some,
  arith, Bytes, length, All, IsByte, get_or, ok, ◌==◌, ==_iff, Bool-cases, inl, inr,
}
use reserve_os.Chain.{
  Hash, hash_string, from_hex, hex_byte, add_byte, hash_pairs, hash_from_hex, hex_digits,
}
use reserve_os.Chain.Header.{IsHash}

-- Each of the sixteen digits is read as its value, and none of them as an error.
abbrev digit_value : ℕ → ℕ
digit_value n = elim (from_hex (get_or hex_digits n 0)) [ none ↦ 16 | some v ↦ v ]

digits_agree : ℕ → Bool
digits_agree zero = true
digits_agree (suc k) = digits_agree k && digit_value k == k

digit_value-of_agree : (k n : ℕ) → n < k → digits_agree k ≡ true → digit_value n ≡ n
unfolding digits_agree
digit_value-of_agree zero n below agree = absurd (omega arith)
digit_value-of_agree (suc k) n below agree = elim (Bool-cases (n == k)) [
  | inl last ↦ let at = (==_iff n k).0 last in rw at ((==_iff (digit_value k) k).0 (ground arith))
  | inr before ↦ digit_value-of_agree k n (ground arith) (ground arith)
]

sixteen_agree : digits_agree 16 ≡ true
unfolding digits_agree from_hex
sixteen_agree = refl

read_digit : (o : Option ℕ) (n : ℕ) → n < 16 → elim o [ none ↦ 16 | some v ↦ v ] ≡ n → o ≡ some n
read_digit none n h e = absurd (omega arith)
read_digit (some v) n h e = ap some e

pub from_hex-digit : (n : ℕ) → n < 16 → from_hex (get_or hex_digits n 0) ≡ some n
from_hex-digit n h =
    read_digit (from_hex (get_or hex_digits n 0)) n h (digit_value-of_agree 16 n h sixteen_agree)

pub whole_byte : (b : ℕ) → b < 256 → hex_byte (some (b / 16)) (some (b % 16)) ≡ some b
unfolding hex_byte
whole_byte b h = ap some (omega arith)

hash_pairs-hash_string : (h : Bytes) → All IsByte h → hash_pairs (hash_string h) ≡ ok h
unfolding hash_pairs hash_string add_byte
hash_pairs-hash_string [] w = refl
hash_pairs-hash_string (b ∷ h) (hb, hs) = rw (hash_pairs-hash_string h hs) (
    rw (from_hex-digit (b / 16) (omega arith), from_hex-digit (b % 16) (omega arith))
      (rw (whole_byte b hb)))

pub length-hash_string : (h : Bytes) → length (hash_string h) ≡ length h + length h
unfolding hash_string
length-hash_string [] = omega arith
length-hash_string (b ∷ h) = omega (arith, length-hash_string h)

-- A hash of 32 bytes is read back from its 64 digits.
pub hash_from_hex-hash_string :
    (h : Hash) → IsHash h → All IsByte h → hash_from_hex (hash_string h) ≡ ok h
unfolding hash_from_hex
hash_from_hex-hash_string h len w =
    rw (is_64 (length (hash_string h)) (omega (arith, length-hash_string h)))
      (hash_pairs-hash_string h w)
  where
    is_64 : (n : ℕ) → n ≡ 64 → (n == 64) ≡ true
    is_64 n e = (==_iff n 64).1 e
