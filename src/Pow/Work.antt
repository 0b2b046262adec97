-- ===== src/Pow/Work.antt =====
-- Block work, core/consensus/pow/work.go.
use reserve_os.Base.{
  ℕ, zero, suc, ◌+◌, ◌*◌, ◌/◌, ◌%◌, ◌^◌, ◌≤◌, ◌<◌, min, ◌≡◌, refl, ap, ◌∙◌, arith, [], ◌∷◌, ◌++◌,
  Bytes, replicate, IsU64, max_u64, big_bytes, big_bytes_fuel, be_value, be_acc, append-nil,
  append_assoc,
}
use native.Mathlib.Nat.{pow-suc, mul-one}
use reserve_os.Pow.Target.{unpack_large}
use reserve_os.Pow.{top64, work64, cumulative}

-- Adding work saturates at the largest `uint64`.
pub cumulative_lem :
    (parent add : ℕ) → IsU64 parent → IsU64 add → cumulative parent add ≡ min (parent + add) max_u64
unfolding cumulative
cumulative_lem parent add hp ha = ground arith

be_value_three : (x y z : ℕ) → be_value (x ∷ y ∷ z ∷ []) ≡ x * 65536 + y * 256 + z
unfolding be_value be_acc
be_value_three x y z = omega arith

-- The top 64 bits of three bytes followed by any number of zero bytes are the three bytes.
top64-three :
    (x y z j : ℕ)
    → x < 128
    → y < 256
    → z < 256
    → top64 (x ∷ y ∷ z ∷ replicate j 0) ≡ (x * 65536 + y * 256 + z) * 2 ^ 40
unfolding top64 be_value be_acc
top64-three x y z zero hx hy hz = omega arith
top64-three x y z (suc zero) hx hy hz = omega arith
top64-three x y z (suc (suc (suc (suc (suc j))))) hx hy hz = ground arith
top64-three x y z _ hx hy hz = omega arith

big_bytes_fuel_irrelevant : (f g n : ℕ) → n ≤ f → n ≤ g → big_bytes_fuel f n ≡ big_bytes_fuel g n
unfolding big_bytes_fuel
big_bytes_fuel_irrelevant zero zero n hf hg = refl
big_bytes_fuel_irrelevant zero (suc g) n hf hg = ground arith
big_bytes_fuel_irrelevant (suc f) zero n hf hg = ground arith
big_bytes_fuel_irrelevant (suc f) (suc g) n hf hg =
    ground (arith, big_bytes_fuel_irrelevant f g (n / 256))

big_bytes_step : (n : ℕ) → 0 < n → big_bytes n ≡ big_bytes (n / 256) ++ ((n % 256) ∷ [])
unfolding big_bytes big_bytes_fuel
big_bytes_step zero h = elim h [ ]
big_bytes_step (suc n) h = ground (arith, big_bytes_fuel_irrelevant n (suc n / 256) (suc n / 256))

big_bytes_zero : big_bytes 0 ≡ []
unfolding big_bytes big_bytes_fuel
big_bytes_zero = refl

big_bytes-three :
    (m : ℕ) → 2 ^ 16 ≤ m → m < 2 ^ 24 → big_bytes m ≡ (m / 65536) ∷ (m / 256 % 256) ∷ (m % 256) ∷ []
big_bytes-three m lo hi =
    big_bytes_step m (omega arith)
    ∙ rw (big_bytes_step (m / 256) (omega arith)) (
        rw (big_bytes_step (m / 256 / 256) (omega arith))
          (rw (top m hi, big_bytes_zero) (rw (second m, third m hi))))
  where
    top : (m : ℕ) → m < 2 ^ 24 → m / 256 / 256 / 256 ≡ 0
    top m h = omega arith

    second : (m : ℕ) → m / 256 / 256 ≡ m / 65536
    second m = omega arith

    third : (m : ℕ) → m < 2 ^ 24 → m / 65536 % 256 ≡ m / 65536
    third m h = omega arith

replicate-last : (j x : ℕ) → replicate j x ++ (x ∷ []) ≡ x ∷ replicate j x
replicate-last zero x = refl
replicate-last (suc j) x = ap (λ (l : Bytes). x ∷ l) (replicate-last j x)

shift_mod : (m q p : ℕ) → p ≡ q * 256 → m * p % 256 ≡ 0
shift_mod m q p e = rw e (omega arith)

shift_div : (m q p : ℕ) → p ≡ q * 256 → m * p / 256 ≡ m * q
shift_div m q p e = rw e (omega arith)

pow-pos : (k : ℕ) → 0 < 256 ^ k
pow-pos zero = omega arith
pow-pos (suc k) = omega (arith, pow-suc 256 k, pow-pos k)

mul-pos : (m p : ℕ) → 0 < m → 0 < p → 0 < m * p
mul-pos m p hm hp = grind arith

big_bytes-shift : (j m : ℕ) → 0 < m → big_bytes (m * 256 ^ j) ≡ big_bytes m ++ replicate j 0
big_bytes-shift zero m h = rw (append-nil, mul-one)
big_bytes-shift (suc j) m h =
    big_bytes_step (m * 256 ^ suc j) (mul-pos m (256 ^ suc j) h (pow-pos (suc j)))
    ∙ rw
        (
          shift_mod m (256 ^ j) (256 ^ suc j) (pow-suc 256 j),
          shift_div m (256 ^ j) (256 ^ suc j) (pow-suc 256 j),
        )
        (rw (big_bytes-shift j m h)
          (append_assoc (big_bytes m) (replicate j 0) (0 ∷ []) ∙ rw (replicate-last j 0)))

-- For every mantissa of three full bytes, the work is the same under every exponent from 3 to 34:
-- the estimate sees the leading digits of a target and not its size.
pub work64_ignores_exponent :
    (k m : ℕ)
    → k ≤ 31
    → 2 ^ 16 ≤ m
    → m < 2 ^ 23
    → work64 ((k + 3) * 2 ^ 24 + m) ≡ max_u64 / (m * 2 ^ 40 + 1)
unfolding work64
work64_ignores_exponent k m hk lo hi =
    let top =
      top64-three (m / 65536) (m / 256 % 256) (m % 256) k (omega arith) (omega arith)
        (omega arith) in
    rw (unpack_large k m hk hi) (
      rw (big_bytes-shift k m (omega arith), big_bytes-three m lo (omega arith))
        (ground (arith, rw (digits m) at top, mul-pos m (256 ^ k) (omega arith) (pow-pos k))))
  where
    digits : (m : ℕ) → m / 65536 * 65536 + m / 256 % 256 * 256 + m % 256 ≡ m
    digits m = omega arith
