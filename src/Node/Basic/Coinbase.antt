-- ===== src/Node/Basic/Coinbase.antt =====
-- The coinbase rules of `ValidateBlockBasic` (core/node/block_validate.go): its first and its last block.
use reserve_os.Base.{ℕ, ◌≡◌, ◌+◌, ◌≤◌, true, arith, List, [], ◌∷◌, ok, IsNonneg}
use reserve_os.Chain.{Tx, TxOut, Block}
use reserve_os.Crypto.{Primitives}
use reserve_os.Node.{Config}
use reserve_os.Node.Basic.{
  one_output, coinbase_first, coinbase_rules, coinbase_covers, out_total, out_total_from, sum_fees,
  validate_block_basic,
}

one_output-total :
    (reward : ℕ) (os : List TxOut)
    → IsNonneg reward
    → one_output reward os ≡ ok tt
    → out_total os ≡ reward
unfolding one_output out_total out_total_from
one_output-total reward [] w e = cc
one_output-total reward (o ∷ []) w e = ground arith
one_output-total reward (o ∷ (p ∷ os)) w e = cc

module _ (cfg : Config) (prim : Primitives) (on : cfg.issuance.enabled ≡ true) where
  covered :
      (txs : List Tx)
      → IsNonneg cfg.issuance.block_reward
      → IsNonneg (cfg.issuance.reward + sum_fees txs)
      → coinbase_rules cfg txs ≡ ok tt
      → coinbase_covers cfg txs ≡ ok tt
      → cfg.issuance.reward + sum_fees txs ≤ cfg.issuance.block_reward
  unfolding coinbase_rules coinbase_covers coinbase_first
  covered [] w v c r = ground arith
  covered (cb ∷ txs) w v c r =
      let total : one_output cfg.issuance.block_reward cb.outputs ≡ ok tt
          → out_total cb.outputs ≡ cfg.issuance.block_reward =
        one_output-total _ cb.outputs w in
      ground arith

  -- With issuance on, the declared fees of a block that `ValidateBlockBasic` accepts and the reward
  -- that it reads for the coverage test add up to at most the block reward that the coinbase must
  -- pay out to the unit, as long as neither number leaves the range of an int64.
  pub fees-le-block_reward :
      (b : Block)
      → IsNonneg cfg.issuance.block_reward
      → IsNonneg (cfg.issuance.reward + sum_fees b.txs)
      → validate_block_basic cfg prim b ≡ ok tt
      → cfg.issuance.reward + sum_fees b.txs ≤ cfg.issuance.block_reward
  unfolding validate_block_basic
  fees-le-block_reward b w v e = covered b.txs w v (ground arith) (ground arith)
