-- ===== src/Node/Basic.antt =====
-- Block rules that need no state: `ValidateLimits` (core/node/limits_validate.go) and
-- `ValidateBlockBasic` (core/node/block_validate.go).
pub mod Limits
pub mod Coinbase
pub mod Claims
use reserve_os.Base.{
  ℕ, ◌+◌, ◌<◌, Bool, true, false, not, ◌&&◌, ◌||◌, if◌then◌else◌, List, [], ◌∷◌, Option, none, some,
  Bytes, codes, bytes_eq, is_empty, length, ltb, ◌==◌, add64, slt, Outcome, ok, err, panic, ◌>>=◌,
  ◌>>◌, fail_if,
}
use reserve_os.Chain.{TxOut, OtapClaim, Tx, Block, size_hint, signing_bytes, tx_id}
use reserve_os.Crypto.{Primitives, sig_verify}
use reserve_os.Fees.{Params, estimate_fee, tx_size_hint}
use reserve_os.Node.{Config, FeesConfig}

abbrev pub coinbase_type : Bytes
coinbase_type = codes "coinbase"

abbrev pub claim_type : Bytes
claim_type = codes "otap_claim"

abbrev pub transfer_type : Bytes
transfer_type = codes "transfer"

-- `max > 0 && n > max`
abbrev pub exceeds : ℕ → ℕ → Bool
exceeds limit n = slt 0 limit && slt limit n

unfoldable pub outputs_within : ℕ → List Tx → Outcome (Unit {0})
outputs_within limit [] = ok tt
outputs_within limit (tx ∷ txs) = do
  fail_if (exceeds limit (length tx.outputs)) (codes "tx_too_many_outputs")
  outputs_within limit txs

unfoldable pub validate_limits : Config → Block → Outcome (Unit {0})
unfolding outputs_within
validate_limits cfg b = do
  fail_if (exceeds cfg.limits.max_block_txs (length b.txs)) (codes "too_many_txs")
  fail_if (exceeds cfg.limits.max_block_bytes (size_hint b)) (codes "block_too_large")
  outputs_within cfg.limits.max_tx_outputs b.txs

unfoldable pub sum_fees_from : ℕ → List Tx → ℕ
sum_fees_from s [] = s
sum_fees_from s (tx ∷ txs) =
    sum_fees_from (if bytes_eq tx.type coinbase_type then s else add64 s tx.fee) txs

unfoldable pub sum_fees : List Tx → ℕ
unfolding sum_fees_from
sum_fees = sum_fees_from 0

-- `outTotal += o.Amount`
unfoldable pub out_total_from : ℕ → List TxOut → ℕ
out_total_from s [] = s
out_total_from s (o ∷ os) = out_total_from (add64 s o.amount) os

unfoldable pub out_total : List TxOut → ℕ
unfolding out_total_from
out_total = out_total_from 0

-- The scan stops at the first OTAP output.
unfoldable pub has_otap_output : List TxOut → Bool
has_otap_output [] = false
has_otap_output (o ∷ os) = (not (is_empty o.p) && not (is_empty o.r)) || has_otap_output os

unfoldable pub no_coinbase : Bytes → List Tx → Outcome (Unit {0})
no_coinbase message [] = ok tt
no_coinbase message (tx ∷ txs) = do
  fail_if (bytes_eq tx.type coinbase_type) message
  no_coinbase message txs

unfoldable pub one_output : ℕ → List TxOut → Outcome (Unit {0})
one_output reward (o ∷ []) = fail_if (not (o.amount == reward)) (codes "bad coinbase amount")
one_output reward _ = err (codes "coinbase must have exactly 1 output")

unfoldable pub coinbase_first : ℕ → Tx → List Tx → Outcome (Unit {0})
coinbase_first block_reward cb txs = do
  fail_if (not (bytes_eq cb.type coinbase_type)) (codes "coinbase must be first")
  no_coinbase (codes "multiple coinbase") txs
  one_output block_reward cb.outputs

-- The first block of `ValidateBlockBasic`.
unfoldable pub coinbase_rules : Config → List Tx → Outcome (Unit {0})
coinbase_rules cfg [] = fail_if cfg.issuance.enabled (codes "missing coinbase")
coinbase_rules cfg (cb ∷ txs) =
    if cfg.issuance.enabled
    then coinbase_first cfg.issuance.block_reward cb txs
    else no_coinbase (codes "coinbase disabled") (cb ∷ txs)

-- The last block of `ValidateBlockBasic` and of `ValidateBlockStateTip`.
unfoldable pub coinbase_covers : Config → List Tx → Outcome (Unit {0})
coinbase_covers cfg [] = ok tt
coinbase_covers cfg (cb ∷ txs) =
    fail_if
      (bytes_eq cb.type coinbase_type
        && slt (out_total cb.outputs) (add64 cfg.issuance.reward (sum_fees (cb ∷ txs))))
      (codes "coinbase_missing_fees")

abbrev pub fee_params : FeesConfig → Params
fee_params f = record {
  gas_asset = f.gas_asset;
  base_fee_min = f.base_fee_min;
  per_byte = f.per_byte;
  otap_multiplier = f.otap_multiplier;
  mode = f.mode;
}

-- `if tx.Type == "" { tx.Type = "transfer" }`, on the loop's copy.
abbrev pub with_type : Tx → Tx
with_type tx = if is_empty tx.type then record tx { type = transfer_type } else tx

module _ (cfg : Config) (prim : Primitives) where
  -- The least fee that the policy asks of a transaction.
  unfoldable pub fee_floor : Tx → ℕ
  fee_floor tx =
      estimate_fee (tx_size_hint (tx_id prim.hash256 tx) (length tx.outputs))
        (has_otap_output tx.outputs) (fee_params cfg.fees)

  -- A claim's own signature; the claim is a nil pointer where the transaction has none.
  unfoldable pub claim_rules : Tx → Option OtapClaim → Outcome (Unit {0})
  claim_rules tx none = err (codes "bad otap_claim")
  claim_rules tx (some c) = do
    fail_if (is_empty c.p || is_empty c.to) (codes "bad otap_claim")
    fail_if (not (bytes_eq c.to tx.from)) (codes "claim_to must equal from")
    fail_if (is_empty c.claim_sig_hex) (codes "missing claim_sig")
    elim (prim.point_set_bytes (prim.must_hex32 c.p)) [
      | none ↦ err (codes "bad claim P")
      | some point ↦
          fail_if (not (prim.schnorr_verify point (signing_bytes tx) c.claim_sig_hex))
            (codes "bad claim signature")
    ]

  -- The body of the loop, on the copy whose type is filled in.
  unfoldable pub tx_rules : Tx → Outcome (Unit {0})
  tx_rules tx = do
    fail_if (bytes_eq tx.type coinbase_type) (codes "coinbase forbidden in non-first position")
    fail_if (slt tx.fee (fee_floor tx)) (codes "tx fee below policy")
    fail_if (is_empty tx.from || is_empty tx.pub_key || is_empty tx.sig_hex)
        (codes "missing tx signature")
    fail_if (not (bytes_eq tx.from tx.pub_key)) (codes "from/pub mismatch")
    fail_if (not (sig_verify prim.ed25519_verify tx.pub_key tx.sig_hex (signing_bytes tx)))
        (codes "bad tx signature")
    if bytes_eq tx.type claim_type then claim_rules tx tx.otap_claim else ok tt

  unfoldable pub all_tx_rules : List Tx → Outcome (Unit {0})
  all_tx_rules [] = ok tt
  all_tx_rules (tx ∷ txs) = do tx_rules (with_type tx); all_tx_rules txs

  -- With issuance the loop skips index 0.
  unfoldable pub rules_from_index : List Tx → Outcome (Unit {0})
  rules_from_index [] = ok tt
  rules_from_index (cb ∷ txs) =
      if cfg.issuance.enabled then all_tx_rules txs else all_tx_rules (cb ∷ txs)

  unfoldable pub validate_block_basic : Block → Outcome (Unit {0})
  validate_block_basic b = do
    coinbase_rules cfg b.txs
    rules_from_index b.txs
    coinbase_covers cfg b.txs
