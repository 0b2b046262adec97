-- ===== src/Node/Basic/Limits.antt =====
-- `ValidateLimits` (core/node/limits_validate.go) against the bounds it stands for.
use reserve_os.Base.{
  ℕ, ◌≡◌, ◌≤◌, ◌↔◌, ◌⊎◌, ◌^◌, refl, Bool, false, arith, List, [], ◌∷◌, Outcome, ok, fail_if, ◌>>◌,
  length, All, IsNonneg, IsU64,
}
use reserve_os.Chain.{Tx, Block, size_hint}
use reserve_os.Node.{Config}
use reserve_os.Node.Basic.{exceeds, outputs_within, validate_limits}

-- A limit of zero, or a negative one, bounds nothing.
pub Within : ℕ → ℕ → Type 0
Within limit n = (n ≤ limit) ⊎ (limit ≡ 0) ⊎ (2 ^ 63 ≤ limit)

exceeds_iff : (limit n : ℕ) → IsU64 limit → IsNonneg n → (exceeds limit n ≡ false) ↔ Within limit n
unfolding Within
exceeds_iff limit n u w = (λ e. ground arith, λ h. ground arith)

-- A test that does not fail, and then the rest.
fail_if-then :
    (b : Bool) (m : List ℕ) (k : Outcome (Unit {0}))
    → ((fail_if b m >> k) ≡ ok tt) ↔ ((b ≡ false) × (k ≡ ok tt))
fail_if-then b m k = ground arith

outputs_within_iff :
    (limit : ℕ) (txs : List Tx)
    → IsU64 limit
    → All (λ tx. IsNonneg (length tx.outputs)) txs
    → (outputs_within limit txs ≡ ok tt) ↔ All (λ tx. Within limit (length tx.outputs)) txs
unfolding outputs_within
outputs_within_iff limit [] u w = (λ _. tt, λ _. refl)
outputs_within_iff limit (tx ∷ txs) u (w, ws) =
    let here = exceeds_iff limit (length tx.outputs) u w in
    let later = outputs_within_iff limit txs u ws in
    let split = fail_if-then (exceeds limit (length tx.outputs)) _ (outputs_within limit txs) in
    (λ e. (here.0 (split.0 e).0, later.0 (split.0 e).1), λ h. split.1 (here.1 h.0, later.1 h.1))

-- `ValidateLimits` accepts a block exactly when the number of its transactions, its size hint and
-- the number of outputs of each transaction stand within the configured limits, where a limit that
-- is not positive bounds nothing; the three sizes are taken to be in the range of an int.
pub validate_limits_iff :
    (cfg : Config) (b : Block)
    → IsU64 cfg.limits.max_block_txs
    → IsU64 cfg.limits.max_block_bytes
    → IsU64 cfg.limits.max_tx_outputs
    → IsNonneg (length b.txs)
    → IsNonneg (size_hint b)
    → All (λ tx. IsNonneg (length tx.outputs)) b.txs
    → (validate_limits cfg b ≡ ok tt) ↔ (
        Within cfg.limits.max_block_txs (length b.txs)
        × Within cfg.limits.max_block_bytes (size_hint b)
        × All (λ tx. Within cfg.limits.max_tx_outputs (length tx.outputs)) b.txs)
unfolding validate_limits
validate_limits_iff cfg b ut ub uo nt nb ns =
    let count = exceeds_iff cfg.limits.max_block_txs (length b.txs) ut nt in
    let size = exceeds_iff cfg.limits.max_block_bytes (size_hint b) ub nb in
    let outs = outputs_within_iff cfg.limits.max_tx_outputs b.txs uo ns in
    let first = fail_if-then (exceeds cfg.limits.max_block_txs (length b.txs)) _ (
      fail_if (exceeds cfg.limits.max_block_bytes (size_hint b)) _
      >> outputs_within cfg.limits.max_tx_outputs b.txs) in
    let second =
      fail_if-then (exceeds cfg.limits.max_block_bytes (size_hint b)) _
        (outputs_within cfg.limits.max_tx_outputs b.txs) in
    (
      λ e. (
        count.0 (first.0 e).0,
        size.0 (second.0 (first.0 e).1).0,
        outs.0 (second.0 (first.0 e).1).1,
      ),
      λ h. first.1 (count.1 h.0, second.1 (size.1 h.1, outs.1 h.2)),
    )
