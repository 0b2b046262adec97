-- ===== src/Pow/Target.antt =====
-- Compact targets, core/consensus/pow/target.go: what packing and unpacking a target loses.
use reserve_os.Base.{
  true, replicate, ltb, be_acc, false, ℕ, zero, suc, ◌+◌, ◌-◌, ◌*◌, ◌/◌, ◌%◌, ◌^◌, ◌≤◌, ◌<◌, ◌≡◌,
  refl, arith, [], ◌∷◌, ◌++◌, Bytes, length, take, drop, Bool-cases, inl, inr, big_bytes,
  big_bytes_fuel, be_value, be_acc, be_acc-append, be_value-big_bytes, IsByte, All, All-append,
  length-append, leb, ◌==◌, ap, ◌∙◌,
}
use native.Mathlib.Nat.{pow-suc, zero-add}
use native.Mathlib.Numerals.{towards_suc}
use reserve_os.Pow.{
  hash_to_big, compact_to_big, raw_mantissa, pack_compact, big_to_compact, leading_zeros_to_target,
  meets_target,
}

be_value_cons : (x : ℕ) (xs : Bytes) → be_value (x ∷ xs) ≡ be_acc (0 * 256 + x) xs
unfolding be_acc be_value
be_value_cons x xs = refl

regroup :
    (acc x p q v w : ℕ)
    → q ≡ 256 * p
    → w ≡ (0 * 256 + x) * p + v
    → (acc * 256 + x) * p + v ≡ acc * q + w
regroup acc x p q v w hq hw = rw (hq, hw) (omega arith)

-- Reading on adds the value of what follows, shifted.
pub be_acc-eq : (acc : ℕ) (xs : Bytes) → be_acc acc xs ≡ acc * 256 ^ length xs + be_value xs
unfolding be_acc be_value
be_acc-eq acc [] = omega arith
be_acc-eq acc (x ∷ xs) =
    be_acc-eq (acc * 256 + x) xs
    ∙ regroup acc x (256 ^ length xs) (256 ^ suc (length xs)) (be_value xs) (be_value (x ∷ xs))
        (omega (arith, pow-suc 256 (length xs))) (be_value_cons x xs ∙ be_acc-eq (0 * 256 + x) xs)

pub be_value-append :
    (xs ys : Bytes) → be_value (xs ++ ys) ≡ be_value xs * 256 ^ length ys + be_value ys
unfolding be_value
be_value-append xs ys = be_acc-append 0 xs ys ∙ be_acc-eq (be_acc 0 xs) ys

pub take-drop : (n : ℕ) (xs : Bytes) → take n xs ++ drop n xs ≡ xs
take-drop zero xs = refl
take-drop (suc n) [] = refl
take-drop (suc n) (x ∷ xs) = ap (λ (l : Bytes). x ∷ l) (take-drop n xs)

-- The first bytes, moved back to their place, are no more than the whole.
pub be_value-take-le :
    (n : ℕ) (xs : Bytes) → be_value (take n xs) * 256 ^ length (drop n xs) ≤ be_value xs
be_value-take-le n xs =
    omega (arith, ap be_value (take-drop n xs), be_value-append (take n xs) (drop n xs))

be_value-lt : (xs : Bytes) → All IsByte xs → be_value xs < 256 ^ length xs
be_value-lt [] h = unfold be_value be_acc in omega arith
be_value-lt (x ∷ xs) h = rw (be_value_cons x xs ∙ be_acc-eq (0 * 256 + x) xs) (
    below x (256 ^ length xs) (256 ^ suc (length xs)) (be_value xs) h.0 (be_value-lt xs h.1)
      (omega (arith, pow-suc 256 (length xs))))
  where
    below : (x p q v : ℕ) → x < 256 → v < p → q ≡ 256 * p → (0 * 256 + x) * p + v < q
    below x p q v hx hv hq = grind arith

big_bytes_fuel-IsByte : (fuel n : ℕ) → All IsByte (big_bytes_fuel fuel n)
unfolding big_bytes_fuel
big_bytes_fuel-IsByte zero n = tt
big_bytes_fuel-IsByte (suc fuel) n = elim (Bool-cases (n == 0)) [
  | inl e ↦ rw e tt
  | inr e ↦ rw e (
      All-append IsByte (big_bytes_fuel fuel (n / 256)) ((n % 256) ∷ [])
        (big_bytes_fuel-IsByte fuel (n / 256)) (omega arith))
]

big_bytes-IsByte : (n : ℕ) → All IsByte (big_bytes n)
unfolding big_bytes
big_bytes-IsByte n = big_bytes_fuel-IsByte n n

big_bytes_fuel-le : (fuel n k : ℕ) → n < 256 ^ k → length (big_bytes_fuel fuel n) ≤ k
unfolding big_bytes_fuel
big_bytes_fuel-le zero n k h = omega arith
big_bytes_fuel-le (suc fuel) n zero h = ground arith
big_bytes_fuel-le (suc fuel) n (suc k) h = ground (
  arith,
  pow-suc 256 k,
  big_bytes_fuel-le fuel (n / 256) k,
  length-append (big_bytes_fuel fuel (n / 256)) ((n % 256) ∷ []),
)

pub length-big_bytes-le : (n k : ℕ) → n < 256 ^ k → length (big_bytes n) ≤ k
unfolding big_bytes
length-big_bytes-le n k h = big_bytes_fuel-le n n k h

pow-256 : (k : ℕ) → 2 ^ (8 * k) ≡ 256 ^ k
pow-256 zero = refl
pow-256 (suc k) = rw (eight k) (simp towards_suc (omega (arith, pow-256 k, pow-suc 256 k)))
  where
    eight : (k : ℕ) → 8 * suc k ≡ 8 * k + 8
    eight k = omega arith

exponent_of : (e m : ℕ) → m < 2 ^ 23 → (e * 2 ^ 24 + m) / 2 ^ 24 ≡ e
exponent_of e m h = omega arith

mantissa_of : (e m : ℕ) → m < 2 ^ 23 → (e * 2 ^ 24 + m) % 2 ^ 23 ≡ m
mantissa_of e m h = omega arith

shift_of : (k : ℕ) → suc k ≤ 31 → 8 * (suc k + 3 - 3) % 256 ≡ 8 * suc k
shift_of k h = omega arith

-- What an exponent and a mantissa unpack to, below and above three bytes.
unpack_small : (e m : ℕ) → e ≤ 3 → m < 2 ^ 23 → compact_to_big (e * 2 ^ 24 + m) ≤ m
unfolding compact_to_big
unpack_small e m he hm = rw (exponent_of e m hm, mantissa_of e m hm) (ground arith)

pub unpack_large :
    (k m : ℕ) → k ≤ 31 → m < 2 ^ 23 → compact_to_big ((k + 3) * 2 ^ 24 + m) ≡ m * 256 ^ k
unfolding compact_to_big
unpack_large zero m hk hm = ground arith
unpack_large (suc k) m hk hm =
    rw (exponent_of (suc k + 3) m hm, mantissa_of (suc k + 3) m hm)
      (rw (shift_of k hk) (ground (arith, pow-256 (suc k))))

-- A leading byte of 128 or more costs one more byte of exponent and the lowest byte of the three.
pack_compact-high :
    (k v : ℕ)
    → k ≤ 30
    → 2 ^ 23 ≤ v
    → v < 2 ^ 24
    → pack_compact (k + 3) v ≡ (suc k + 3) * 2 ^ 24 + v / 256
unfolding pack_compact
pack_compact-high k v hk lo hi = ground arith

pack_compact-low : (k v : ℕ) → k ≤ 30 → v < 2 ^ 23 → pack_compact (k + 3) v ≡ (k + 3) * 2 ^ 24 + v
unfolding pack_compact
pack_compact-low k v hk h = ground arith

mul_mono : (a b p : ℕ) → a ≤ b → a * p ≤ b * p
mul_mono a b p h = grind arith

-- The two roundings, with `p` for 256 ^ k and `q` for 256 ^ (k + 1).
high_bounds : (v p q : ℕ) → q ≡ 256 * p → (v / 256 * q ≤ v * p) × (v * p + p ≤ v / 256 * q + q)
high_bounds v p q e = rw e (
    omega (
      arith,
      mul_mono (v / 256 * 256) v p (omega arith),
      mul_mono (v + 1) (v / 256 * 256 + 256) p (omega arith),
    ))

pack_large :
    (k v : ℕ)
    → k ≤ 30
    → v < 2 ^ 24
    → (compact_to_big (pack_compact (k + 3) v) ≤ v * 256 ^ k)
      × (v * 256 ^ k + 256 ^ k ≤ compact_to_big (pack_compact (k + 3) v) + 256 ^ suc k)
pack_large k v hk hv = elim (Bool-cases (leb (2 ^ 23) v)) [
  | inl e ↦
      rw
        (
          pack_compact-high k v hk (ground arith) hv,
          unpack_large (suc k) (v / 256) (omega arith) (omega arith),
        )
        (high_bounds v (256 ^ k) (256 ^ suc k) (omega (arith, pow-suc 256 k)))
  | inr e ↦
      rw (pack_compact-low k v hk (ground arith), unpack_large k v (omega arith) (ground arith))
        (omega (arith, pow-suc 256 k))
]

-- The leading three bytes of a longer number, and the rest.
leading_three :
    (b : Bytes)
    → All IsByte b
    → 4 ≤ length b
    → (be_value (take 3 b) < 2 ^ 24)
      × (be_value (take 3 b) * 256 ^ (length b - 3) ≤ be_value b)
      × (be_value b < be_value (take 3 b) * 256 ^ (length b - 3) + 256 ^ (length b - 3))
leading_three [] h n = absurd (omega arith)
leading_three (x ∷ []) h n = absurd (omega arith)
leading_three (x ∷ y ∷ []) h n = absurd (omega arith)
leading_three (x ∷ y ∷ z ∷ r) (hx, (hy, (hz, hr))) n = rw (rest_length r) (
    omega (
      arith,
      be_value-append (x ∷ y ∷ z ∷ []) r,
      be_value-lt r hr,
      be_value-lt (x ∷ y ∷ z ∷ []) (hx, (hy, (hz, tt))),
    ))
  where
    rest_length : (r : Bytes) → suc (suc (suc (length r))) - 3 ≡ length r
    rest_length r = omega arith

big_to_compact-large :
    (t : ℕ)
    → 4 ≤ length (big_bytes t)
    → big_to_compact t ≡ pack_compact (length (big_bytes t)) (be_value (take 3 (big_bytes t)))
unfolding big_to_compact raw_mantissa
big_to_compact-large zero h = unfold big_bytes big_bytes_fuel in absurd (omega arith)
big_to_compact-large (suc t) h = ground arith

pack_bounds :
    (len v t : ℕ)
    → 4 ≤ len
    → len ≤ 32
    → v < 2 ^ 24
    → v * 256 ^ (len - 3) ≤ t
    → t < v * 256 ^ (len - 3) + 256 ^ (len - 3)
    → (compact_to_big (pack_compact len v) ≤ t)
      × (t < compact_to_big (pack_compact len v) + 256 ^ (len - 2))
pack_bounds len v t lo hi hv below above =
    let bounds = pack_large (len - 3) v (omega arith) hv in
    let same : len - 3 + 3 ≡ len = omega arith in
    let next : suc (len - 3) ≡ len - 2 = omega arith in
    let bounds' = rw (same, next) at bounds in omega (arith, bounds')

-- For a target of 4 to 32 bytes, packing and unpacking rounds down, by less than the place value
-- of its second byte: mining never gets easier by it.
pub compact_to_big-big_to_compact :
    (t : ℕ)
    → t < 2 ^ 256
    → 4 ≤ length (big_bytes t)
    → (compact_to_big (big_to_compact t) ≤ t)
      × (t < compact_to_big (big_to_compact t) + 256 ^ (length (big_bytes t) - 2))
compact_to_big-big_to_compact t h n =
    let (top, lower, upper) = leading_three (big_bytes t) (big_bytes-IsByte t) n in
    rw (big_to_compact-large t n) (
      pack_bounds (length (big_bytes t)) (be_value (take 3 (big_bytes t))) t n
        (length-big_bytes-le t 32 h) top (rw (be_value-big_bytes t) at lower)
        (rw (be_value-big_bytes t) at upper))

small_length : (t : ℕ) → t < 2 ^ 24 → length (big_bytes t) ≤ 3
small_length t h = length-big_bytes-le t 3 h

big_to_compact-small :
    (t : ℕ) → 0 < t → t < 2 ^ 24 → big_to_compact t ≡ length (big_bytes t) * 2 ^ 24 + t / 256
unfolding big_to_compact raw_mantissa pack_compact
big_to_compact-small t pos h = ground (arith, small_length t h, be_value-big_bytes t)

-- A target of at most three bytes does not survive packing: the mantissa is shifted the wrong way,
-- and the target that is read back is 256 times smaller, or smaller still.
pub compact_to_big-big_to_compact_small :
    (t : ℕ) → 0 < t → t < 2 ^ 24 → compact_to_big (big_to_compact t) * 256 ≤ t
compact_to_big-big_to_compact_small t pos h =
    rw (big_to_compact-small t pos h) (
      omega (arith, unpack_small (length (big_bytes t)) (t / 256) (small_length t h) (omega arith)))

pow_mono : (k d : ℕ) → 2 ^ k ≤ 2 ^ (d + k)
pow_mono k zero = rw zero-add (omega arith)
pow_mono k (suc d) = rw (step d k) (omega (arith, pow-suc 2 (d + k), pow_mono k d))
  where
    step : (d k : ℕ) → suc d + k ≡ suc (d + k)
    step d k = omega arith

pow-two_bounds : (k : ℕ) → 1 ≤ k → k ≤ 7 → (2 ≤ 2 ^ k) × (2 ^ k ≤ 128)
pow-two_bounds k lo hi =
    (rw (lower k lo) at (pow_mono 1 (k - 1)), rw (upper k hi) at (pow_mono k (7 - k)))
  where
    lower : (k : ℕ) → 1 ≤ k → k - 1 + 1 ≡ k
    lower k h = omega arith

    upper : (k : ℕ) → k ≤ 7 → 7 - k + k ≡ 7
    upper k h = omega arith

-- A genesis file may ask for up to 255 leading zero bits. From 249 on no hash whatever meets the packed
-- target, although the target before it is packed is met by exactly the hashes below 2 ^ (256 - bits),
-- those that have the leading zero bits, the hash of zeros among them.
pub genesis_unmineable :
    (lz : ℕ) (hash : Bytes)
    → 249 ≤ lz
    → lz ≤ 255
    → (meets_target hash (big_to_compact (leading_zeros_to_target lz)) ≡ false)
      × (leb (hash_to_big hash) (leading_zeros_to_target lz)
          ≡ ltb (hash_to_big hash) (2 ^ (256 - lz)))
      × (leb (hash_to_big (replicate 32 0)) (leading_zeros_to_target lz) ≡ true)
unfolding meets_target leading_zeros_to_target
genesis_unmineable lz hash lo hi =
    let (few, many) = pow-two_bounds (256 - lz) (omega arith) (omega arith) in
    let packed =
      compact_to_big-big_to_compact_small (2 ^ (256 - lz) - 1) (omega arith) (omega arith) in
    let zeros : hash_to_big (replicate 32 0) ≡ 0 = unfold hash_to_big be_value be_acc in refl in
    (ground (arith, packed), ground arith, rw zeros (ground arith))
