-- ===== src/Node/Sim/Agree.antt =====
-- The two simulations of a block, core/node/block_validate.go and core/node/block_validate_fork.go.
use reserve_os.Base.{
  ℕ, ◌≡◌, refl, ◌∙◌, Bool, true, false, arith, List, [], ◌∷◌, Option, none, some, Bytes, Outcome,
  fail_if, ok, err, panic, ◌>>=◌, ◌>>◌, Bool-cases, inl, inr, ap, bytes_eq, is_empty, is_empty→eq,
}
use mathlib.Core.Option.{some-injective}
use reserve_os.Chain.{OtapClaim, Tx, TxOut, Block}
use reserve_os.Crypto.{Primitives}
use reserve_os.Node.{Config}
use reserve_os.Node.Basic.{
  coinbase_type, claim_type, with_type, transfer_type, claim_rules, tx_rules, all_tx_rules,
  rules_from_index, coinbase_rules, coinbase_covers, validate_block_basic, one_output,
  coinbase_first,
}
use reserve_os.Node.Sim.{
  Sim, set_nonce, sim_claim, sim_transfer, sim_pay, sim_tx, tip_claim, tip_transfer, tip_tx,
  credit_output, credit_outputs, tip_txs, sim_txs, tip_run, tip_coinbase, credit_coinbase,
}
use reserve_os.Node.Sim.Filter.{kept, kept-if}

-- Crediting outputs and setting a nonce do not see each other.
credit_output-set_nonce :
    (o : TxOut) (id : Bytes) (v : ℕ) (s : Sim)
    → credit_output o (set_nonce id v s) ≡ set_nonce id v (credit_output o s)
unfolding credit_output
credit_output-set_nonce o id v s = elim (Bool-cases (is_empty o.address)) [
  | inr named ↦ rw named
  | inl unnamed ↦ elim (Bool-cases (is_empty o.p)) [
    | inr bucket ↦ rw (unnamed, bucket)
    | inl neither ↦ rw (unnamed, neither)
  ]
]

credit_outputs-set_nonce :
    (os : List TxOut) (id : Bytes) (v : ℕ) (s : Sim)
    → credit_outputs os (set_nonce id v s) ≡ set_nonce id v (credit_outputs os s)
unfolding credit_outputs
credit_outputs-set_nonce [] id v s = refl
credit_outputs-set_nonce (o ∷ os) id v s =
    ap (credit_outputs os) (credit_output-set_nonce o id v s)
    ∙ credit_outputs-set_nonce os id v (credit_output o s)

-- A claim and a transfer end in the same state, whether the nonce is set before or after.
tip_claim-eq :
    (tx : Tx) (o : Option OtapClaim) (c : OtapClaim) (s : Sim)
    → o ≡ some c
    → kept (tip_claim tx o (set_nonce tx.from tx.nonce s)) ≡ kept (sim_pay tx o s)
unfolding tip_claim sim_claim sim_pay
tip_claim-eq tx none c s e = cc
tip_claim-eq tx (some d) c s e = rw (kept-if, kept-if)

tip_transfer-eq :
    (tx : Tx) (s : Sim)
    → kept (tip_transfer tx (set_nonce tx.from tx.nonce s)) ≡ kept (sim_pay tx none s)
unfolding tip_transfer sim_transfer sim_pay
tip_transfer-eq tx s = rw (kept-if, kept-if) (rw credit_outputs-set_nonce)

-- The transactions on which the two loops agree: no coinbase, and a claim where the type says so.
pub record IsPlain (tx : Tx) : Type 0 where
  pub not_coinbase : bytes_eq tx.type coinbase_type ≡ false
  pub has_claim : bytes_eq tx.type claim_type ≡ true → (c : OtapClaim) × (tx.otap_claim ≡ some c)

tip_tx-eq-sim_tx : (tx : Tx) (s : Sim) → IsPlain tx → kept (tip_tx tx s) ≡ kept (sim_tx tx s)
unfolding tip_tx sim_tx
tip_tx-eq-sim_tx tx s plain = elim (Bool-cases (bytes_eq tx.type claim_type)) [
  | inl claims ↦
      let (c, e) = plain.has_claim claims in
      rw (plain.not_coinbase, claims) (simp kept-if (rw (tip_claim-eq tx tx.otap_claim c s e)))
  | inr pays ↦ rw (plain.not_coinbase, pays) (simp kept-if (rw (tip_transfer-eq tx s)))
]

-- Filling in a missing type changes nothing that the simulation reads.
sim_pay-with_type :
    (tx : Tx) (t : Bytes) (c : Option OtapClaim) (s : Sim)
    → sim_pay (record tx { type = t }) c s ≡ sim_pay tx c s
unfolding sim_pay sim_claim sim_transfer
sim_pay-with_type tx t (some c) s = refl
sim_pay-with_type tx t none s = refl

sim_tx-retyped :
    (tx : Tx) (t : Bytes) (s : Sim)
    → bytes_eq t coinbase_type ≡ bytes_eq tx.type coinbase_type
    → bytes_eq t claim_type ≡ bytes_eq tx.type claim_type
    → sim_tx (record tx { type = t }) s ≡ sim_tx tx s
unfolding sim_tx
sim_tx-retyped tx t s same_coinbase same_claim =
    rw (same_coinbase, same_claim) (rw sim_pay-with_type)

sim_tx-with_type : (tx : Tx) (s : Sim) → sim_tx (with_type tx) s ≡ sim_tx tx s
sim_tx-with_type tx s = elim (Bool-cases (is_empty tx.type)) [
  | inr typed ↦ rw typed
  | inl untyped ↦ rw untyped (
      sim_tx-retyped tx transfer_type s (rw (is_empty→eq tx.type untyped))
        (rw (is_empty→eq tx.type untyped)))
]

fail_if-ok : (b : Bool) (m : Bytes) → fail_if b m ≡ ok tt → b ≡ false
fail_if-ok true m e = cc
fail_if-ok false m e = refl

>>-eq-ok : (m k : Outcome (Unit {0})) → (m >> k) ≡ ok tt → (m ≡ ok tt) × (k ≡ ok tt)
>>-eq-ok (ok _) k e = (refl, e)
>>-eq-ok (err x) k e = cc
>>-eq-ok panic k e = cc

tip_then-eq :
    (m n : Outcome Sim) (f g : Sim → Outcome Sim)
    → kept m ≡ kept n
    → ((s : Sim) → kept (f s) ≡ kept (g s))
    → kept (m >>= f) ≡ kept (n >>= g)
tip_then-eq (ok s) (ok t) f g e h = h s ∙ ap (λ u. kept (g u)) (some-injective s t e)
tip_then-eq (ok s) (err _) f g e h = cc
tip_then-eq (ok s) panic f g e h = cc
tip_then-eq (err _) (ok t) f g e h = cc
tip_then-eq panic (ok t) f g e h = cc
tip_then-eq (err _) (err _) f g e h = refl
tip_then-eq (err _) panic f g e h = refl
tip_then-eq panic (err _) f g e h = refl
tip_then-eq panic panic f g e h = refl

module _ (cfg : Config) (prim : Primitives) where
  claim_rules-some :
      (tx : Tx) (o : Option OtapClaim)
      → claim_rules cfg prim tx o ≡ ok tt
      → (c : OtapClaim) × (o ≡ some c)
  unfolding claim_rules
  claim_rules-some tx none e = cc
  claim_rules-some tx (some c) e = (c, refl)

  tx_rules-IsPlain : (tx : Tx) → tx_rules cfg prim tx ≡ ok tt → IsPlain tx
  unfolding tx_rules
  tx_rules-IsPlain tx e = record {
    not_coinbase = ground arith;
    has_claim = λ claims. claim_rules-some tx tx.otap_claim (ground arith);
  }

  tip_txs-eq-sim_txs :
      (txs : List Tx) (s : Sim)
      → all_tx_rules cfg prim txs ≡ ok tt
      → kept (tip_txs txs s) ≡ kept (sim_txs txs s)
  unfolding all_tx_rules tip_txs sim_txs
  tip_txs-eq-sim_txs [] s e = refl
  tip_txs-eq-sim_txs (tx ∷ txs) s e =
      let (now, later) = >>-eq-ok _ _ e in
      tip_then-eq (tip_tx (with_type tx) s) (sim_tx tx s) (tip_txs txs) (sim_txs txs)
        (tip_tx-eq-sim_tx (with_type tx) s (tx_rules-IsPlain (with_type tx) now)
          ∙ ap kept (sim_tx-with_type tx s))
        (λ t. tip_txs-eq-sim_txs txs t later)

  one_output-single :
      (reward : ℕ) (os : List TxOut) → one_output reward os ≡ ok tt → (o : TxOut) × (os ≡ o ∷ [])
  unfolding one_output
  one_output-single reward [] e = cc
  one_output-single reward (o ∷ []) e = (o, refl)
  one_output-single reward (o ∷ (p ∷ os)) e = cc

  tip_coinbase-eq :
      (cb : Tx) (os : List TxOut) (reward : ℕ) (s : Sim)
      → one_output reward os ≡ ok tt
      → tip_coinbase os s ≡ ok (credit_coinbase os s)
  unfolding tip_coinbase credit_coinbase one_output
  tip_coinbase-eq cb [] reward s e = cc
  tip_coinbase-eq cb (o ∷ []) reward s e = refl
  tip_coinbase-eq cb (o ∷ (p ∷ os)) reward s e = cc

  sim_tx-coinbase :
      (cb : Tx) (s : Sim)
      → bytes_eq cb.type coinbase_type ≡ true
      → sim_tx cb s ≡ ok (credit_coinbase cb.outputs s)
  unfolding sim_tx
  sim_tx-coinbase cb s e = rw e

  coinbase_first-eq :
      (cb : Tx) (txs : List Tx)
      → coinbase_first cfg.issuance.block_reward cb txs ≡ ok tt
      → (bytes_eq cb.type coinbase_type ≡ true)
        × (one_output cfg.issuance.block_reward cb.outputs ≡ ok tt)
  unfolding coinbase_first
  coinbase_first-eq cb txs e = ground arith

  run-eq :
      (txs : List Tx) (s : Sim)
      → coinbase_rules cfg txs ≡ ok tt
      → rules_from_index cfg prim txs ≡ ok tt
      → kept (tip_run cfg txs s) ≡ kept (sim_txs txs s)
  unfolding coinbase_rules rules_from_index tip_run sim_txs
  run-eq [] s c r = rw (fail_if-ok _ _ c)
  run-eq (cb ∷ txs) s c r = elim (Bool-cases cfg.issuance.enabled) [
    | inr off ↦ rw off (tip_txs-eq-sim_txs (cb ∷ txs) s (ground arith))
    | inl on ↦
        let (first, single) = coinbase_first-eq cb txs (ground arith) in
        rw (on, tip_coinbase-eq cb cb.outputs _ s single, sim_tx-coinbase cb s first)
          (tip_txs-eq-sim_txs txs (credit_coinbase cb.outputs s) (ground arith))
  ]

  -- Once a block passes `ValidateBlockBasic`, the run of `ValidateBlockStateTip` and that of
  -- `applyBlockToSim` over its transactions either both fail or both end in the same balances and
  -- nonces.
  pub tip_run-agrees :
      (b : Block) (s : Sim)
      → validate_block_basic cfg prim b ≡ ok tt
      → kept (tip_run cfg b.txs s) ≡ kept (sim_txs b.txs s)
  unfolding validate_block_basic
  tip_run-agrees b s e =
      let (rules, rest) =
        >>-eq-ok (coinbase_rules cfg b.txs)
          (rules_from_index cfg prim b.txs >> coinbase_covers cfg b.txs) e in
      run-eq b.txs s rules
        (>>-eq-ok (rules_from_index cfg prim b.txs) (coinbase_covers cfg b.txs) rest).0
