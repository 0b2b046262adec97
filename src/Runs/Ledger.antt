-- ===== src/Runs/Ledger.antt =====
-- Runs of block validation, the simulations and the fee policy.
use reserve_os.Base.{
  ◌>>◌, ◌≡◌, ◌≢◌, ◌↔◌, ◌≤◌, ◌+◌, ◌-◌, ◌*◌, ◌^◌, ◌%◌, refl, true, false, arith, List, [], ◌∷◌, Bytes,
  codes, ok, err, panic, bytes_eq, length, add64, le_bytes, All, ap, get_or, sym,
}
use mathlib.Core.Option.{some-injective}
use reserve_os.Chain.{
  Tx, tx_id, signing_bytes, canonical_tx_bytes, put_bytes, put_output, put_outputs, put_claim,
  hash_string, hex_byte, from_hex, size_hint, outputs_hint,
}
use reserve_os.Crypto.{sig_verify, parse_pub, parse_sig, sized, hex_decode, add_decoded}
use reserve_os.Fees.{
  percent, estimate_fee, unit_fee, mode_fee, tx_size_hint, split_fees, Params, mode_defense,
}
use reserve_os.Fees.Division.{split_fees_exact, parts_sum}
use reserve_os.Fees.Estimate.{estimate_fee-eq, otap_factor, mode_factor}
use reserve_os.Node.Basic.{
  validate_limits, validate_block_basic, coinbase_rules, coinbase_first, one_output, no_coinbase,
  rules_from_index, all_tx_rules, tx_rules, fee_floor, has_otap_output, claim_rules,
  coinbase_covers, out_total, out_total_from, sum_fees, sum_fees_from,
}
use reserve_os.Node.Basic.Coinbase.{fees-le-block_reward}
use reserve_os.Node.Basic.Limits.{Within, validate_limits_iff}
use reserve_os.Node.Sim.{
  Sim, sim_tx, sim_txs, apply_block_to_sim, sim_pay, sim_transfer, sim_claim, credit_outputs,
  credit_output, credit_coinbase, tip_run, filter_txs_by_sim_state, otap_bucket,
}
use reserve_os.Node.Sim.Agree.{tip_run-agrees}
use reserve_os.Node.Sim.Filter.{kept, filter_txs_replay}
use reserve_os.Node.Sim.Nonces.{nonce-sim_txs, no_replay, sent}
use reserve_os.Node.Sim.Supply.{total, minted, burnt, IsCovered, IsCounted, supply_conserved}
use reserve_os.Node.Sim.Theft.{theft, sim_tx_moves_negative}
use reserve_os.Runs.Data.{
  toy, config, alice, bob, output, payment, coinbase, payments, block, accounts,
}

block-accepted : validate_block_basic config toy block ≡ ok tt
unfolding validate_block_basic coinbase_rules coinbase_first one_output no_coinbase rules_from_index
    all_tx_rules tx_rules fee_floor estimate_fee unit_fee mode_fee tx_size_hint tx_id signing_bytes
    canonical_tx_bytes put_bytes put_output put_outputs put_claim le_bytes hash_string
    has_otap_output sig_verify parse_pub parse_sig sized hex_decode add_decoded hex_byte from_hex
    claim_rules coinbase_covers out_total out_total_from sum_fees sum_fees_from
block-accepted = refl

tip_run-agrees_example :
    kept (tip_run config block.txs accounts) ≡ kept (sim_txs block.txs accounts)
tip_run-agrees_example = tip_run-agrees config toy block accounts block-accepted

fees-le-block_reward_example : 20 + sum_fees block.txs ≤ 50
fees-le-block_reward_example =
    fees-le-block_reward config toy refl block (omega arith)
      (unfold sum_fees sum_fees_from in omega arith) block-accepted

validate_limits_iff_example : (validate_limits config block ≡ ok tt) ↔ (
    Within 100 3
    × Within 100000 (size_hint block)
    × All (λ tx. Within 10 (length tx.outputs)) block.txs)
validate_limits_iff_example =
    validate_limits_iff config block (omega arith) (omega arith) (omega arith) (omega arith)
      (unfold size_hint outputs_hint in omega arith) (omega arith, (omega arith, (omega arith, tt)))

-- The state after the block's transactions.
abbrev after_block : Sim
after_block = elim (sim_txs block.txs accounts) [ ok s ↦ s | err e ↦ accounts | panic ↦ accounts ]

block-runs : sim_txs block.txs accounts ≡ ok after_block
unfolding sim_txs sim_tx sim_pay sim_transfer sim_claim credit_outputs credit_output credit_coinbase
    out_total out_total_from
block-runs = refl

abbrev everyone : List Bytes
everyone = alice ∷ bob ∷ otap_bucket (codes "K") ∷ codes "miner" ∷ []

coinbase-IsCovered : IsCovered everyone coinbase
coinbase-IsCovered = record { coinbase = λ e. (refl, tt); claim = λ c e. cc; payer = λ e n. cc }

payment-IsCovered : IsCovered everyone (get_or payments 0 coinbase)
unfolding IsCounted
payment-IsCovered = record {
  coinbase = λ e. cc;
  claim = λ c e. cc;
  payer = λ e n. (refl, (λ b. refl, (λ b. refl, tt)));
}

claim-IsCovered : IsCovered everyone (get_or payments 1 coinbase)
claim-IsCovered = record {
  coinbase = λ e. cc;
  claim = λ c e. let same = some-injective _ _ e in rw (sym same) (refl, refl);
  payer = λ e n. cc;
}

supply_conserved_example :
    add64 (add64 (total everyone after_block.bal) (sum_fees block.txs)) (burnt block.txs)
    ≡ add64 (total everyone accounts.bal) (minted block.txs)
supply_conserved_example =
    supply_conserved everyone block.txs accounts after_block
      (coinbase-IsCovered, (payment-IsCovered, (claim-IsCovered, tt))) block-runs

nonce-sim_txs_example :
    after_block.nonce alice ≡ (accounts.nonce alice + sent alice block.txs) % 2 ^ 64
nonce-sim_txs_example = nonce-sim_txs block.txs accounts after_block alice (omega arith) block-runs

-- Alice's payment, Bob's claim, and the payment again.
abbrev after_payment : Sim
after_payment = elim (sim_tx (get_or payments 0 coinbase) accounts) [
  | ok s ↦ s
  | err e ↦ accounts
  | panic ↦ accounts
]

abbrev after_both : Sim
after_both = elim (sim_txs payments accounts) [ ok s ↦ s | err e ↦ accounts | panic ↦ accounts ]

payment-runs : sim_tx (get_or payments 0 coinbase) accounts ≡ ok after_payment
unfolding sim_tx sim_pay sim_transfer sim_claim credit_outputs credit_output out_total
    out_total_from
payment-runs = refl

claim-runs : sim_txs (get_or payments 1 coinbase ∷ []) after_payment ≡ ok after_both
unfolding sim_txs sim_tx sim_pay sim_transfer sim_claim credit_outputs credit_output out_total
    out_total_from
claim-runs = refl

no_replay_example : sim_tx (get_or payments 0 coinbase) after_both ≡ err (codes "bad_nonce")
no_replay_example =
    no_replay (get_or payments 0 coinbase) (get_or payments 1 coinbase ∷ []) accounts after_payment
      after_both refl payment-runs claim-runs (omega arith)

abbrev filtered : List Tx
filtered = filter_txs_by_sim_state (λ before txs. txs) toy.hash256 payments accounts

filter_txs_replay_example :
    (last : Sim) × (sim_txs filtered accounts ≡ ok last)
    × (apply_block_to_sim config toy (record { header = block.header; txs = filtered }) accounts ≡ (
        validate_limits config (record { header = block.header; txs = filtered })
        >> (validate_block_basic config toy (record { header = block.header; txs = filtered })
            >> ok last)))
filter_txs_replay_example =
    filter_txs_replay (λ before txs. txs) toy.hash256 payments accounts config toy block.header

alice-ne-bob : alice ≢ bob
alice-ne-bob e = let apart : true ≡ false = ap (bytes_eq alice) e in cc

sim_tx_moves_negative_example :
    (t : Sim) × (sim_tx
        (theft (payment alice 1 10 []) (output [] 0) (output [] 0) alice bob 7)
        accounts
      ≡ ok t)
    × (t.bal bob ≡ accounts.bal bob - 7)
    × (t.bal alice ≡ accounts.bal alice - 10 + 7)
sim_tx_moves_negative_example =
    sim_tx_moves_negative (payment alice 1 10 []) (output [] 0) (output [] 0) alice bob 7 accounts
      refl refl alice-ne-bob refl (omega arith) (omega arith) (omega arith) (omega arith)

abbrev defense : Params
defense = record {
  gas_asset = codes "USDR";
  base_fee_min = 100;
  per_byte = 2;
  otap_multiplier = 3;
  mode = mode_defense;
}

estimate_fee-eq_example :
    estimate_fee 250 true defense ≡ 600 * otap_factor true 3 * mode_factor mode_defense
estimate_fee-eq_example = estimate_fee-eq 250 true defense (omega arith) (omega arith) (omega arith)

split_fees_exact_example :
    ((split_fees 1001 defense).to_validators ≡ 350)
    × ((split_fees 1001 defense).to_participation ≡ 150)
    × ((split_fees 1001 defense).to_treasury ≡ 200)
    × ((split_fees 1001 defense).to_defense_pool ≡ 301)
    × (parts_sum (split_fees 1001 defense) ≡ 1001)
unfolding split_fees percent
split_fees_exact_example = split_fees_exact 1001 defense (omega arith)
