-- ===== src/Fees/Estimate.antt =====
-- `EstimateFee` of core/economics/fees/fees.go.
use reserve_os.Base.{
  ℕ, ◌+◌, ◌*◌, ◌^◌, ◌≤◌, ◌<◌, max, ◌≡◌, Bool, true, false, if◌then◌else◌, arith, IsNonneg, sle, slt,
  bytes_eq,
}
use reserve_os.Fees.{Mode, Params, mode_defense, mode_containment, unit_fee, mode_fee, estimate_fee}

-- The estimate is never below the minimum fee, whatever overflows on the way.
base_fee_min-le-estimate_fee :
    (size : ℕ) (is_otap : Bool) (p : Params)
    → sle p.base_fee_min (estimate_fee size is_otap p) ≡ true
unfolding estimate_fee
base_fee_min-le-estimate_fee size is_otap p = ground arith

-- The factors of the policy, as numbers.
abbrev pub mode_factor : Mode → ℕ
mode_factor mode =
    if bytes_eq mode mode_defense then 2 else if bytes_eq mode mode_containment then 4 else 1

abbrev pub otap_factor : Bool → ℕ → ℕ
otap_factor is_otap multiplier = if is_otap then max 1 multiplier else 1

-- A product that fits holds its first factor, where the second is not 0.
factor_fits : (u k : ℕ) → 1 ≤ k → u ≤ u * k
factor_fits u k pos = grind arith

mode_factor_pos : (mode : Mode) → 1 ≤ mode_factor mode
mode_factor_pos mode = ground arith

otap_factor_pos : (is_otap : Bool) (m : ℕ) → 1 ≤ otap_factor is_otap m
otap_factor_pos true m = ground arith
otap_factor_pos false m = omega arith

unit_fee-eq :
    (size : ℕ) (is_otap : Bool) (p : Params)
    → IsNonneg size
    → IsNonneg p.otap_multiplier
    → (p.base_fee_min + p.per_byte * size) * otap_factor is_otap p.otap_multiplier < 2 ^ 63
    → unit_fee size is_otap p
      ≡ (p.base_fee_min + p.per_byte * size) * otap_factor is_otap p.otap_multiplier
unfolding unit_fee
unit_fee-eq size true p hs hm hf =
    let below =
      factor_fits (p.base_fee_min + p.per_byte * size) (max 1 p.otap_multiplier)
        (otap_factor_pos true p.otap_multiplier) in
    ground arith
unit_fee-eq size false p hs hm hf = ground arith

mode_fee-eq :
    (mode : Mode) (fee : ℕ)
    → fee * mode_factor mode < 2 ^ 64
    → mode_fee mode fee ≡ fee * mode_factor mode
unfolding mode_fee
mode_fee-eq mode fee h = ground arith

at_least_base : (base fee : ℕ) → base ≤ fee → fee < 2 ^ 63 → slt fee base ≡ false
at_least_base base fee h b = ground arith

-- Where the size and the OTAP multiplier are not negative and the product of the base, the OTAP factor
-- of the transaction and the factor of the mode fits an `int64`, nothing wraps and the estimate is that
-- product. The OTAP factor is the multiplier, at least 1, for a transaction with OTAP outputs and 1 for
-- another; that of the mode is 2 for DEFENSE, 4 for CONTAINMENT and 1 for any other.
pub estimate_fee-eq :
    (size : ℕ) (is_otap : Bool) (p : Params)
    → IsNonneg size
    → IsNonneg p.otap_multiplier
    → (p.base_fee_min + p.per_byte * size)
        * otap_factor is_otap p.otap_multiplier
        * mode_factor p.mode
      < 2 ^ 63
    → estimate_fee size is_otap p
      ≡ (p.base_fee_min + p.per_byte * size)
        * otap_factor is_otap p.otap_multiplier
        * mode_factor p.mode
unfolding estimate_fee
estimate_fee-eq size is_otap p hs hm hf =
    let u = p.base_fee_min + p.per_byte * size in
    let w = u * otap_factor is_otap p.otap_multiplier in
    let uw =
      factor_fits u (otap_factor is_otap p.otap_multiplier)
        (otap_factor_pos is_otap p.otap_multiplier) in
    let wf = factor_fits w (mode_factor p.mode) (mode_factor_pos p.mode) in
    rw (unit_fee-eq size is_otap p hs hm (omega arith), mode_fee-eq p.mode w (omega arith))
      (rw (at_least_base p.base_fee_min (w * mode_factor p.mode) (omega arith) hf))
