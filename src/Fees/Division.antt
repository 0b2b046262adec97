-- ===== src/Fees/Division.antt =====
-- `SplitFees` of core/economics/fees/fees.go.
use reserve_os.Base.{
  ℕ, ◌+◌, ◌-◌, ◌*◌, ◌/◌, ◌%◌, ◌^◌, ◌<◌, ◌≡◌, if◌then◌else◌, arith, IsNonneg, sub64, bytes_eq,
}
use reserve_os.Fees.{Mode, Split, Params, percent, split_fees, mode_defense, mode_containment}

abbrev pub parts_sum : Split → ℕ
parts_sum s = s.to_validators + s.to_participation + s.to_treasury + s.to_defense_pool

percent-lt : (total k : ℕ) → percent total k < 2 ^ 64
unfolding percent
percent-lt total k = ground arith

percent-eq : (total k : ℕ) → total * k < 2 ^ 63 → percent total k ≡ total * k / 100
unfolding percent
percent-eq total k h = ground arith

-- What the subtractions leave makes the parts up to the total again.
remainder_three :
    (t v pop tr : ℕ)
    → t < 2 ^ 64
    → v < 2 ^ 64
    → pop < 2 ^ 64
    → tr < 2 ^ 64
    → (v + pop + tr + sub64 (sub64 (sub64 t v) pop) tr) % 2 ^ 64 ≡ t
remainder_three t v pop tr ht hv hp hr = omega arith

remainder_two :
    (t v pop : ℕ)
    → t < 2 ^ 64
    → v < 2 ^ 64
    → pop < 2 ^ 64
    → (v + pop + sub64 (sub64 t v) pop + 0) % 2 ^ 64 ≡ t
remainder_two t v pop ht hv hp = omega arith

-- For every positive total the four parts add up to it modulo 2 ^ 64, also where the products
-- wrap around.
split_fees_wraps :
    (total : ℕ) (p : Params)
    → 0 < total
    → IsNonneg total
    → parts_sum (split_fees total p) % 2 ^ 64 ≡ total
unfolding split_fees
split_fees_wraps total p pos h = ground (
  arith,
  remainder_three total (percent total 35) (percent total 15) (percent total 20),
  remainder_three total (percent total 25) (percent total 10) (percent total 15),
  remainder_two total (percent total 50) (percent total 20),
  percent-lt total 35,
  percent-lt total 15,
  percent-lt total 20,
  percent-lt total 25,
  percent-lt total 10,
  percent-lt total 50,
)

-- The percentages of the policy for the validators, the participants and, where there is a defense
-- pool, the treasury.
abbrev pub of_mode : Mode → ℕ → ℕ → ℕ → ℕ
of_mode mode defense containment normal =
    if bytes_eq mode mode_defense
    then defense
    else if bytes_eq mode mode_containment
    then containment
    else normal

-- Below 2 ^ 63 / 50 no product wraps: the shares of the validators and the participants are 35 and 15
-- percent in DEFENSE mode, 25 and 10 in CONTAINMENT mode and 50 and 20 in every other, rounded down.
-- The treasury has 20 and 15 percent in the first two, rounded down, and what is left otherwise; the
-- defense pool has what is left in the first two, and nothing otherwise.
pub split_fees_exact :
    (total : ℕ) (p : Params)
    → total * 50 < 2 ^ 63
    → let s = split_fees total p in
      let left = total - s.to_validators - s.to_participation in
      (s.to_validators ≡ total * of_mode p.mode 35 25 50 / 100)
      × (s.to_participation ≡ total * of_mode p.mode 15 10 20 / 100)
      × (s.to_treasury ≡ of_mode p.mode (total * 20 / 100) (total * 15 / 100) left)
      × (s.to_defense_pool ≡ of_mode p.mode (left - total * 20 / 100) (left - total * 15 / 100) 0)
      × (parts_sum s ≡ total)
unfolding split_fees
split_fees_exact total p h = ground (
  arith,
  percent-eq total 35,
  percent-eq total 15,
  percent-eq total 20,
  percent-eq total 25,
  percent-eq total 10,
  percent-eq total 50,
)
