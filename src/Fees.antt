-- ===== src/Fees.antt =====
-- The fee policy, core/economics/fees/fees.go: the estimate that a transaction has to pay, the
-- size that it is computed from, and the division of collected fees between four pools.
-- Amounts and sizes are `int64` bit patterns (`Base/Word.antt`).
pub mod Estimate
pub mod Division
use reserve_os.Base.{
  ℕ, ◌+◌, Bool, ◌&&◌, if◌then◌else◌, Bytes, codes, bytes_eq, add64, sub64, mul64, is_neg, nonpos,
  slt, sdiv,
}

-- `type Mode string`
abbrev pub Mode : Type 0
Mode = Bytes

abbrev pub mode_normal : Mode
mode_normal = codes "NORMAL"

abbrev pub mode_defense : Mode
mode_defense = codes "DEFENSE"

abbrev pub mode_containment : Mode
mode_containment = codes "CONTAINMENT"

pub record Params : Type 0 where
  pub gas_asset : Bytes
  pub base_fee_min : ℕ
  pub per_byte : ℕ
  pub otap_multiplier : ℕ
  pub mode : Mode

pub record Split : Type 0 where
  pub to_validators : ℕ
  pub to_participation : ℕ
  pub to_treasury : ℕ
  pub to_defense_pool : ℕ

-- The estimate before the mode multiplier.
unfoldable pub unit_fee : ℕ → Bool → Params → ℕ
unit_fee tx_bytes is_otap p =
    let units = if is_neg tx_bytes then 0 else tx_bytes in
    let fee = add64 p.base_fee_min (mul64 p.per_byte units) in
    if is_otap && slt 1 p.otap_multiplier then mul64 fee p.otap_multiplier else fee

-- `switch p.Mode`: DEFENSE doubles and CONTAINMENT quadruples.
unfoldable pub mode_fee : Mode → ℕ → ℕ
mode_fee mode fee =
    if bytes_eq mode mode_defense
    then mul64 fee 2
    else if bytes_eq mode mode_containment
    then mul64 fee 4
    else fee

unfoldable pub estimate_fee : ℕ → Bool → Params → ℕ
estimate_fee tx_bytes is_otap p =
    let fee = mode_fee p.mode (unit_fee tx_bytes is_otap p) in
    if slt fee p.base_fee_min then p.base_fee_min else fee

-- `total * k / 100`
unfoldable pub percent : ℕ → ℕ → ℕ
percent total k = sdiv (mul64 total k) 100

abbrev pub defense_split : ℕ → Split
defense_split total =
    let v = percent total 35 in
    let pop = percent total 15 in
    let tr = percent total 20 in
    record {
      to_validators = v;
      to_participation = pop;
      to_treasury = tr;
      to_defense_pool = sub64 (sub64 (sub64 total v) pop) tr;
    }

abbrev pub containment_split : ℕ → Split
containment_split total =
    let v = percent total 25 in
    let pop = percent total 10 in
    let tr = percent total 15 in
    record {
      to_validators = v;
      to_participation = pop;
      to_treasury = tr;
      to_defense_pool = sub64 (sub64 (sub64 total v) pop) tr;
    }

abbrev pub normal_split : ℕ → Split
normal_split total =
    let v = percent total 50 in
    let pop = percent total 20 in
    record {
      to_validators = v;
      to_participation = pop;
      to_treasury = sub64 (sub64 total v) pop;
      to_defense_pool = 0;
    }

abbrev pub no_split : Split
no_split = record { to_validators = 0; to_participation = 0; to_treasury = 0; to_defense_pool = 0 }

unfoldable pub split_fees : ℕ → Params → Split
split_fees total p =
    if nonpos total
    then no_split
    else if bytes_eq p.mode mode_defense
    then defense_split total
    else if bytes_eq p.mode mode_containment
    then containment_split total
    else normal_split total

-- The hash of the transaction id is computed and dropped.
unfoldable pub tx_size_hint : Bytes → ℕ → ℕ
tx_size_hint txid outputs = let n = if is_neg outputs then 0 else outputs in add64 180 (mul64 80 n)
