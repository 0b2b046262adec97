-- ===== src/Node/Sim/Filter.antt =====
-- Block assembly, `FilterTxsBySimState` of core/node/block_assemble.go.
use reserve_os.Base.{
  ◌≡◌, refl, sym, ◌∙◌, Bool, true, false, if◌then◌else◌, List, [], ◌∷◌, Option, none, some, Bytes,
  Outcome, ok, err, panic, ◌>>◌, >>=-same, Option-cases, inl, inr,
}
use reserve_os.Chain.{OtapClaim, Tx, Block, BlockHeader}
use reserve_os.Crypto.{Primitives}
use reserve_os.Node.{Config}
use reserve_os.Node.Basic.{validate_limits, validate_block_basic}
use reserve_os.Node.Sim.{
  Sim, sim_claim, sim_transfer, sim_pay, sim_tx, sim_txs, filter_claim, filter_transfer, filter_pay,
  filter_step, filter_keep, filter_loop, filter_txs_by_sim_state, claim_of, tx_before,
  apply_block_to_sim,
}

abbrev pub kept : Outcome Sim → Option Sim
kept (ok s) = some s
kept (err e) = none
kept panic = none

pub kept-if :
    (b : Bool) (x y : Outcome Sim) → kept (if b then x else y) ≡ (if b then kept x else kept y)
kept-if true x y = refl
kept-if false x y = refl

filter_pay-eq :
    (tx : Tx) (c : Option OtapClaim) (s : Sim) → filter_pay tx c s ≡ kept (sim_pay tx c s)
unfolding filter_pay sim_pay filter_claim sim_claim filter_transfer sim_transfer
filter_pay-eq tx (some c) s = sym (kept-if _ _ _)
filter_pay-eq tx none s = sym (kept-if _ _ _)

-- The filter keeps a transaction, and with which effect, exactly when block validation accepts it.
pub filter_step-eq : (tx : Tx) (s : Sim) → filter_step tx s ≡ kept (sim_tx tx s)
unfolding filter_step sim_tx
filter_step-eq tx s = rw (kept-if, kept-if) (rw (filter_pay-eq tx (claim_of tx) s))

kept-eq-some : (o : Outcome Sim) (s : Sim) → kept o ≡ some s → o ≡ ok s
kept-eq-some (ok t) s e = cc
kept-eq-some (err m) s e = cc
kept-eq-some panic s e = cc

filter_loop_replays :
    (txs : List Tx) (s : Sim) → sim_txs (filter_loop txs s).0 s ≡ ok (filter_loop txs s).1
unfolding filter_loop sim_txs filter_keep
filter_loop_replays [] s = refl
filter_loop_replays (tx ∷ txs) s = elim (Option-cases (filter_step tx s)) [
  | inl e ↦ rw (e, filter_keep) (filter_loop_replays txs s)
  | inr (s', e) ↦
      rw (e, filter_keep)
        (rw (kept-eq-some (sim_tx tx s) s' (sym (filter_step-eq tx s) ∙ e))
          (filter_loop_replays txs s'))
]

-- Whatever the sort does, the transactions that the filter leaves replay one after the other from the
-- state that it started in, with no error. A block of exactly these transactions is therefore accepted by
-- `applyBlockToSim` on that state wherever `ValidateLimits` and `ValidateBlockBasic`, its first two
-- steps, accept it, and refused with their error otherwise.
pub filter_txs_replay :
    (sort : (Tx → Tx → Bool) → List Tx → List Tx) (hash256 : Bytes → Bytes) (txs : List Tx)
    (s : Sim) (cfg : Config) (prim : Primitives) (header : BlockHeader)
    → let kept_txs = filter_txs_by_sim_state sort hash256 txs s in
      let b : Block = record { header = header; txs = kept_txs } in
      (last : Sim) × (sim_txs kept_txs s ≡ ok last)
      × (apply_block_to_sim cfg prim b s
          ≡ (validate_limits cfg b >> (validate_block_basic cfg prim b >> ok last)))
unfolding filter_txs_by_sim_state apply_block_to_sim
filter_txs_replay sort hash256 txs s cfg prim header =
    let replay = filter_loop_replays (sort (tx_before hash256) txs) s in
    (
      (filter_loop (sort (tx_before hash256) txs) s).1,
      replay,
      >>=-same (validate_limits cfg _) _ _
          λ u. >>=-same (validate_block_basic cfg prim _) _ _ λ v. replay,
    )
