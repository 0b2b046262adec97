-- ===== src/Node/Sim.antt =====
-- Balances and nonces in memory: the simulations of core/node/block_validate.go,
-- core/node/block_validate_fork.go and core/node/block_assemble.go. A Go map, with what is read
-- where a key is missing, is a function; that a read is kept in the map changes no later read.
pub mod Agree
pub mod Filter
pub mod Nonces
pub mod Supply
pub mod Theft
use reserve_os.Base.{
  ℕ, ◌+◌, Bool, true, false, not, ◌&&◌, ◌||◌, if◌then◌else◌, List, [], ◌∷◌, ◌++◌, Option, none,
  some, Bytes, codes, bytes_eq, is_empty, ◌==◌, add64, sub64, slt, ltb, Outcome, ok, err, panic,
  ◌>>=◌, ◌>>◌, fail_if,
}
use reserve_os.Chain.{TxOut, OtapClaim, Tx, Block, tx_id}
use reserve_os.Crypto.{Primitives}
use reserve_os.Node.{Config}
use reserve_os.Node.Basic.{
  coinbase_type, claim_type, validate_limits, validate_block_basic, out_total, coinbase_covers,
  with_type,
}

pub record Sim : Type 0 where
  pub bal : Bytes → ℕ
  pub nonce : Bytes → ℕ

abbrev pub update : (Bytes → ℕ) → Bytes → ℕ → Bytes → ℕ
update f k v j = if bytes_eq k j then v else f j

abbrev pub set_bal : Bytes → ℕ → Sim → Sim
set_bal id v s = record s { bal = update s.bal id v }

abbrev pub set_nonce : Bytes → ℕ → Sim → Sim
set_nonce id v s = record s { nonce = update s.nonce id v }

-- `setBal(id, getBal(id)+amount)`
abbrev pub credit : Bytes → ℕ → Sim → Sim
credit id amount s = set_bal id (add64 (s.bal id) amount) s

-- `"otap:" + P`
abbrev pub otap_bucket : Bytes → Bytes
otap_bucket p = codes "otap:" ++ p

unfoldable pub credit_output : TxOut → Sim → Sim
credit_output o s =
    if not (is_empty o.address)
    then credit o.address o.amount s
    else if not (is_empty o.p)
    then credit (otap_bucket o.p) o.amount s
    else s

unfoldable pub credit_outputs : List TxOut → Sim → Sim
credit_outputs [] s = s
credit_outputs (o ∷ os) s = credit_outputs os (credit_output o s)

-- A coinbase credits the address of each output, empty or not.
unfoldable pub credit_coinbase : List TxOut → Sim → Sim
credit_coinbase [] s = s
credit_coinbase (o ∷ os) s = credit_coinbase os (credit o.address o.amount s)

-- `tx.Type == "otap_claim" && tx.OTAPClaim != nil`
abbrev pub claim_of : Tx → Option OtapClaim
claim_of tx = if bytes_eq tx.type claim_type then tx.otap_claim else none

-- `applyBlockToSim`, a claim and a transfer. `bb-need` was read before; the credit reads anew.
unfoldable pub sim_claim : Tx → OtapClaim → Sim → Outcome Sim
sim_claim tx c s =
    let bucket = otap_bucket c.p in
    let need = add64 c.amount tx.fee in
    let bb = s.bal bucket in
    if slt bb need
    then err (codes "insufficient_otap_bucket")
    else ok (set_nonce tx.from tx.nonce (credit c.to c.amount (set_bal bucket (sub64 bb need) s)))

unfoldable pub sim_transfer : Tx → Sim → Outcome Sim
sim_transfer tx s =
    let need = add64 (out_total tx.outputs) tx.fee in
    let bal = s.bal tx.from in
    if slt bal need
    then err (codes "insufficient_funds")
    else ok (
        credit_outputs tx.outputs (set_nonce tx.from tx.nonce (set_bal tx.from (sub64 bal need) s)))

unfoldable pub sim_pay : Tx → Option OtapClaim → Sim → Outcome Sim
sim_pay tx (some c) s = sim_claim tx c s
sim_pay tx none s = sim_transfer tx s

-- The body of the loop of `applyBlockToSim`.
unfoldable pub sim_tx : Tx → Sim → Outcome Sim
sim_tx tx s =
    if bytes_eq tx.type coinbase_type
    then ok (credit_coinbase tx.outputs s)
    else if not (tx.nonce == add64 (s.nonce tx.from) 1)
    then err (codes "bad_nonce")
    else sim_pay tx (claim_of tx) s

unfoldable pub sim_txs : List Tx → Sim → Outcome Sim
sim_txs [] s = ok s
sim_txs (tx ∷ txs) s = sim_tx tx s >>= sim_txs txs

unfoldable pub apply_block_to_sim : Config → Primitives → Block → Sim → Outcome Sim
apply_block_to_sim cfg prim b s = do
  validate_limits cfg b
  validate_block_basic cfg prim b
  sim_txs b.txs s

-- `ValidateBlockStateTip`: its loop reads the claim's pointer without a test for nil.
unfoldable pub tip_claim : Tx → Option OtapClaim → Sim → Outcome Sim
tip_claim tx none s = panic
tip_claim tx (some c) s =
    let bucket = otap_bucket c.p in
    let b_bal = s.bal bucket in
    let need = add64 c.amount tx.fee in
    if slt b_bal need
    then err (codes "insufficient otap bucket")
    else ok (credit c.to c.amount (set_bal bucket (sub64 b_bal need) s))

unfoldable pub tip_transfer : Tx → Sim → Outcome Sim
tip_transfer tx s =
    let need = add64 (out_total tx.outputs) tx.fee in
    let from_bal = s.bal tx.from in
    if slt from_bal need
    then err (codes "insufficient funds")
    else ok (credit_outputs tx.outputs (set_bal tx.from (sub64 from_bal need) s))

unfoldable pub tip_tx : Tx → Sim → Outcome Sim
tip_tx tx s =
    if not (tx.nonce == add64 (s.nonce tx.from) 1)
    then err (codes "bad nonce in block")
    else let s' = set_nonce tx.from tx.nonce s in
      if bytes_eq tx.type claim_type then tip_claim tx tx.otap_claim s' else tip_transfer tx s'

unfoldable pub tip_txs : List Tx → Sim → Outcome Sim
tip_txs [] s = ok s
tip_txs (tx ∷ txs) s = tip_tx (with_type tx) s >>= tip_txs txs

-- `b.Txs[0].Outputs[0]`, with an index out of range where either is missing.
unfoldable pub tip_coinbase : List TxOut → Sim → Outcome Sim
tip_coinbase [] s = panic
tip_coinbase (o ∷ _) s = ok (credit o.address o.amount s)

unfoldable pub tip_run : Config → List Tx → Sim → Outcome Sim
tip_run cfg [] s = if cfg.issuance.enabled then panic else ok s
tip_run cfg (cb ∷ txs) s =
    if cfg.issuance.enabled then tip_coinbase cb.outputs s >>= tip_txs txs else tip_txs (cb ∷ txs) s

unfoldable pub validate_block_state_tip : Config → Block → Sim → Outcome (Unit {0})
validate_block_state_tip cfg b s = do _ ← tip_run cfg b.txs s; coinbase_covers cfg b.txs

-- `FilterTxsBySimState`: each transaction is kept with its effect, or skipped with none.
unfoldable pub filter_claim : Tx → OtapClaim → Sim → Option Sim
filter_claim tx c s =
    let bucket = otap_bucket c.p in
    let bb = s.bal bucket in
    let need = add64 c.amount tx.fee in
    if slt bb need
    then none
    else some (set_nonce tx.from tx.nonce (credit c.to c.amount (set_bal bucket (sub64 bb need) s)))

unfoldable pub filter_transfer : Tx → Sim → Option Sim
filter_transfer tx s =
    let bal = s.bal tx.from in
    let need = add64 (out_total tx.outputs) tx.fee in
    if slt bal need
    then none
    else some (
        credit_outputs tx.outputs (set_nonce tx.from tx.nonce (set_bal tx.from (sub64 bal need) s)))

unfoldable pub filter_pay : Tx → Option OtapClaim → Sim → Option Sim
filter_pay tx (some c) s = filter_claim tx c s
filter_pay tx none s = filter_transfer tx s

unfoldable pub filter_step : Tx → Sim → Option Sim
filter_step tx s =
    if bytes_eq tx.type coinbase_type
    then some (credit_coinbase tx.outputs s)
    else if not (tx.nonce == add64 (s.nonce tx.from) 1)
    then none
    else filter_pay tx (claim_of tx) s

-- Keep the transaction and go on from its effect, or go on from the same state.
unfoldable pub filter_keep : Option Sim → Tx → (Sim → List Tx × Sim) → Sim → List Tx × Sim
filter_keep none tx rest s = rest s
filter_keep (some s') tx rest s = let (out, last) = rest s' in (tx ∷ out, last)

unfoldable pub filter_loop : List Tx → Sim → List Tx × Sim
filter_loop [] s = ([], s)
filter_loop (tx ∷ txs) s = filter_keep (filter_step tx s) tx (filter_loop txs) s

-- `txs[i].Fee > txs[j].Fee`, and by id where the fees are equal (`<` on strings is by bytes).
unfoldable pub bytes_lt : Bytes → Bytes → Bool
bytes_lt _ [] = false
bytes_lt [] (y ∷ ys) = true
bytes_lt (x ∷ xs) (y ∷ ys) = ltb x y || (x == y && bytes_lt xs ys)

unfoldable pub tx_before : (Bytes → Bytes) → Tx → Tx → Bool
tx_before hash256 t u =
    if not (t.fee == u.fee) then slt u.fee t.fee else bytes_lt (tx_id hash256 t) (tx_id hash256 u)

-- `sort.Slice` is any arrangement `sort` of the list by that order.
unfoldable pub filter_txs_by_sim_state :
    ((Tx → Tx → Bool) → List Tx → List Tx) → (Bytes → Bytes) → List Tx → Sim → List Tx
filter_txs_by_sim_state sort hash256 txs s = (filter_loop (sort (tx_before hash256) txs) s).0
