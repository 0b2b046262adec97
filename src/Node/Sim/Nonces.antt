-- ===== src/Node/Sim/Nonces.antt =====
-- Nonces over a run of a block's transactions (`applyBlockToSim`).
use reserve_os.Base.{
  ℕ, ◌≡◌, ◌+◌, ◌<◌, ◌≤◌, ◌-◌, ◌^◌, ◌%◌, refl, sym, ◌∙◌, ap, false, if◌then◌else◌, arith, List, [],
  ◌∷◌, Option, none, some, Bytes, ok, err, >>=-eq-ok, if-ok, Bool-cases, inl, inr, bytes_eq,
  bytes_eq→eq, bytes_eq_self, add64, codes, length, IsU64,
}
use reserve_os.Chain.{OtapClaim, Tx, TxOut}
use reserve_os.Node.Basic.{coinbase_type}
use reserve_os.Node.Sim.{
  Sim, credit, update, credit_output, credit_outputs, credit_coinbase, claim_of, sim_claim,
  sim_transfer, sim_pay, sim_tx, sim_txs,
}

nonce-credit_output : (o : TxOut) (s : Sim) → (credit_output o s).nonce ≡ s.nonce
unfolding credit_output
nonce-credit_output o s = ground arith

nonce-credit_outputs : (os : List TxOut) (s : Sim) → (credit_outputs os s).nonce ≡ s.nonce
unfolding credit_outputs
nonce-credit_outputs [] s = refl
nonce-credit_outputs (o ∷ os) s =
    nonce-credit_outputs os (credit_output o s) ∙ nonce-credit_output o s

nonce-credit_coinbase : (os : List TxOut) (s : Sim) → (credit_coinbase os s).nonce ≡ s.nonce
unfolding credit_coinbase
nonce-credit_coinbase [] s = refl
nonce-credit_coinbase (o ∷ os) s = nonce-credit_coinbase os (credit o.address o.amount s)

nonce-sim_pay :
    (tx : Tx) (o : Option OtapClaim) (s t : Sim)
    → sim_pay tx o s ≡ ok t
    → t.nonce ≡ update s.nonce tx.from tx.nonce
unfolding sim_pay sim_claim sim_transfer
nonce-sim_pay tx (some c) s t e = rw (sym (if-ok _ _ _ t e))
nonce-sim_pay tx none s t e = rw (sym (if-ok _ _ _ t e)) (nonce-credit_outputs tx.outputs _)

-- How many of the transactions count up an account's nonce.
pub sent : Bytes → List Tx → ℕ
sent id [] = 0
sent id (tx ∷ txs) =
    if bytes_eq tx.type coinbase_type
    then sent id txs
    else if bytes_eq tx.from id
    then 1 + sent id txs
    else sent id txs

nonce-sim_tx :
    (tx : Tx) (s t : Sim) (id : Bytes)
    → IsU64 (s.nonce id)
    → sim_tx tx s ≡ ok t
    → t.nonce id ≡ (s.nonce id + sent id (tx ∷ [])) % 2 ^ 64
unfolding sim_tx sent
nonce-sim_tx tx s t id w e = elim (Bool-cases (bytes_eq tx.type coinbase_type)) [
  | inl mints ↦
      let paid : t ≡ credit_coinbase tx.outputs s = ground arith in
      rw (mints, paid, nonce-credit_coinbase tx.outputs s) (omega arith)
  | inr pays ↦
      let spent : sim_pay tx (claim_of tx) s ≡ ok t = ground arith in
      let next : tx.nonce ≡ add64 (s.nonce tx.from) 1 = ground arith in
      rw (pays, nonce-sim_pay tx (claim_of tx) s t spent)
        (elim (Bool-cases (bytes_eq tx.from id)) [
          | inl own ↦ rw own (next ∙ ap (λ j. add64 (s.nonce j) 1) (bytes_eq→eq tx.from id own))
          | inr other ↦ rw other (omega arith)
        ])
]

sent-cons :
    (id : Bytes) (tx : Tx) (txs : List Tx) → sent id (tx ∷ txs) ≡ sent id (tx ∷ []) + sent id txs
unfolding sent
sent-cons id tx txs = ground arith

-- After a run an account's nonce has gone up by the number of its transactions, modulo 2 ^ 64.
pub nonce-sim_txs :
    (txs : List Tx) (s t : Sim) (id : Bytes)
    → IsU64 (s.nonce id)
    → sim_txs txs s ≡ ok t
    → t.nonce id ≡ (s.nonce id + sent id txs) % 2 ^ 64
unfolding sim_txs sent
nonce-sim_txs [] s t id w e = rw (sym (if-ok false [] s t e)) (omega arith)
nonce-sim_txs (tx ∷ txs) s t id w e =
    let (u, now, later) = >>=-eq-ok (sim_tx tx s) (sim_txs txs) e in
    let first = nonce-sim_tx tx s u id w now in
    let rest = nonce-sim_txs txs u t id (omega (arith, first)) later in
    omega (arith, first, rest, sent-cons id tx txs)

sent-le : (id : Bytes) (txs : List Tx) → sent id txs ≤ length txs
unfolding sent
sent-le id [] = omega arith
sent-le id (tx ∷ txs) = ground (arith, sent-le id txs)

-- A transaction that was applied, and that is no coinbase, is refused ever after: whatever run of
-- fewer than 2 ^ 64 - 1 transactions comes between, applying it again gives `bad_nonce`.
pub no_replay :
    (tx : Tx) (txs : List Tx) (s t u : Sim)
    → bytes_eq tx.type coinbase_type ≡ false
    → sim_tx tx s ≡ ok t
    → sim_txs txs t ≡ ok u
    → length txs < 2 ^ 64 - 1
    → sim_tx tx u ≡ err (codes "bad_nonce")
unfolding sim_tx
no_replay tx txs s t u plain now later short =
    let spent : sim_pay tx (claim_of tx) s ≡ ok t = ground arith in
    let next : tx.nonce ≡ add64 (s.nonce tx.from) 1 = ground arith in
    let at : t.nonce tx.from ≡ tx.nonce =
      rw (nonce-sim_pay tx (claim_of tx) s t spent, bytes_eq_self tx.from) in
    let after = nonce-sim_txs txs t u tx.from (omega arith) later in
    let few = sent-le tx.from txs in rw plain (ground arith)
