-- ===== src/State/Refines.antt =====
-- `applyBlockTxs` (core/node/state_apply.go) carries out in the database what `applyBlockToSim`
-- (core/node/block_validate_fork.go) computes in memory.
use reserve_os.Base.{
  ℕ, ◌≡◌, ◌+◌, refl, sym, true, false, arith, List, [], ◌∷◌, Option, none, some, Bytes, bytes_eq,
  bytes_eq→eq, Bool-cases, inl, inr, is_empty, is_empty→eq, add64, IsU64, All, ok, >>=-eq-ok, if-ok,
  Option-cases,
}
use reserve_os.Chain.{TxOut, OtapClaim, Tx, Block}
use reserve_os.Node.Basic.{coinbase_type, with_type}
use reserve_os.Node.Sim.{
  Sim, credit, credit_output, credit_outputs, credit_coinbase, claim_of, sim_pay, sim_tx, sim_txs,
}
use reserve_os.State.{
  Kv, GetPut, apply_claim, apply_debit, apply_pay, put_tx, apply_tx, apply_txs, apply_block_txs,
  put_block_fee_sum,
}
use reserve_os.State.Store.{Represents, IsWritable, ignoring_other}
use reserve_os.State.Apply.{
  HasRoom, gain, weaken, apply_outputs-Represents, pay_transfer-Represents, pay_claim-Represents,
}

-- What a claim moves out of its bucket, besides the fee.
unfoldable pub claimed : Option OtapClaim → ℕ
claimed none = 0
claimed (some c) = c.amount

unfoldable pub spend : Tx → ℕ
spend tx = gain tx.outputs + tx.fee + claimed (claim_of tx)

unfoldable pub spends : List Tx → ℕ
spends [] = 0
spends (tx ∷ txs) = spend tx + spends txs

-- A coinbase has no sender and addresses its outputs; every other transaction has a sender.
pub record IsApplicable (tx : Tx) : Type 0 where
  pub coinbase :
      bytes_eq tx.type coinbase_type ≡ true
      → (is_empty tx.from ≡ true) × All (λ o. is_empty o.address ≡ false) tx.outputs
  pub sender : bytes_eq tx.type coinbase_type ≡ false → is_empty tx.from ≡ false

credit_coinbase-eq :
    (os : List TxOut) (s : Sim)
    → All (λ o. is_empty o.address ≡ false) os
    → credit_coinbase os s ≡ credit_outputs os s
unfolding credit_coinbase credit_outputs credit_output
credit_coinbase-eq [] s a = refl
credit_coinbase-eq (o ∷ os) s (named, rest) =
    rw named (credit_coinbase-eq os (credit o.address o.amount s) rest)

coinbase-no_claim : (tx : Tx) → bytes_eq tx.type coinbase_type ≡ true → claim_of tx ≡ none
coinbase-no_claim tx e = rw (bytes_eq→eq tx.type coinbase_type e)

claim_of-with_type : (tx : Tx) → claim_of (with_type tx) ≡ claim_of tx
claim_of-with_type tx = elim (Bool-cases (is_empty tx.type)) [
  | inr typed ↦ rw typed
  | inl untyped ↦ rw untyped (rw (is_empty→eq tx.type untyped))
]

module _ (kv : Kv) (law : GetPut kv) (writes : IsWritable kv) where
  apply_pay-retyped :
      (tx : Tx) (k : Bytes) (o : Option OtapClaim) (db : kv.Db)
      → apply_pay kv (record tx { type = k }) o db ≡ apply_pay kv tx o db
  unfolding apply_pay apply_claim apply_debit
  apply_pay-retyped tx k (some c) db = refl
  apply_pay-retyped tx k none db = refl

  apply_pay-with_type :
      (tx : Tx) (o : Option OtapClaim) (db : kv.Db)
      → apply_pay kv (with_type tx) o db ≡ apply_pay kv tx o db
  apply_pay-with_type tx o db = elim (Bool-cases (is_empty tx.type)) [
    | inr typed ↦ rw typed
    | inl untyped ↦ rw untyped (apply_pay-retyped tx _ o db)
  ]

  pay-sim_pay :
      (tx : Tx) (o : Option OtapClaim) (n : ℕ) (db : kv.Db) (s t : Sim)
      → is_empty tx.from ≡ false
      → IsU64 tx.nonce
      → Represents kv db s
      → HasRoom (gain tx.outputs + tx.fee + claimed o + n) s
      → sim_pay tx o s ≡ ok t
      → (next : kv.Db) × (apply_pay kv tx o db ≡ ok next) × Represents kv next t × HasRoom n t
  unfolding sim_pay claimed apply_pay
  pay-sim_pay tx (some c) n db s t named w r room e =
      pay_claim-Represents kv law writes tx c n db s t w r (weaken _ _ s (omega arith) room) e
  pay-sim_pay tx none n db s t named w r room e =
      pay_transfer-Represents kv law writes tx n db s t named w r (weaken _ _ s (omega arith) room)
        e

  pay-coinbase :
      (tx : Tx) (n : ℕ) (db : kv.Db) (s : Sim)
      → is_empty tx.from ≡ true
      → All (λ o. is_empty o.address ≡ false) tx.outputs
      → Represents kv db s
      → HasRoom (gain tx.outputs + n) s
      → (next : kv.Db) × (apply_pay kv tx none db ≡ ok next)
        × Represents kv next (credit_coinbase tx.outputs s)
        × HasRoom n (credit_coinbase tx.outputs s)
  unfolding apply_pay apply_debit
  pay-coinbase tx n db s nobody named r room =
      rw (nobody, credit_coinbase-eq tx.outputs s named)
        (apply_outputs-Represents kv law writes tx.outputs n db s r room)

  pay-sim_tx :
      (tx : Tx) (n : ℕ) (db : kv.Db) (s t : Sim)
      → IsApplicable tx
      → Represents kv db s
      → HasRoom (spend tx + n) s
      → sim_tx tx s ≡ ok t
      → (next : kv.Db) × (apply_pay kv tx (claim_of tx) db ≡ ok next)
        × Represents kv next t
        × HasRoom n t
  unfolding sim_tx spend
  pay-sim_tx tx n db s t a r room e = elim (Bool-cases (bytes_eq tx.type coinbase_type)) [
    | inl mints ↦
        let (nobody, named) = a.coinbase mints in
        let paid : t ≡ credit_coinbase tx.outputs s = ground arith in
        let left : HasRoom (gain tx.outputs + n) s = weaken _ _ s (omega arith) room in
        rw (coinbase-no_claim tx mints) (rw paid (pay-coinbase tx n db s nobody named r left))
    | inr pays ↦
        let spent : sim_pay tx (claim_of tx) s ≡ ok t = ground arith in
        let next : tx.nonce ≡ add64 (s.nonce tx.from) 1 = ground arith in
        pay-sim_pay tx (claim_of tx) n db s t (a.sender pays) (omega (arith, next)) r room spent
  ]

  module _ (marshal : Tx → Option Bytes) (hash256 : Bytes → Bytes) where
    put_tx-Represents :
        (tx : Tx) (db : kv.Db) (s : Sim)
        → Represents kv db s
        → Represents kv (put_tx kv marshal hash256 tx db) s
    unfolding put_tx
    put_tx-Represents tx db s r = elim (Option-cases (marshal tx)) [
      | inl failed ↦ rw (failed, put_tx) r
      | inr (b, stored) ↦
          rw (stored, put_tx) (ignoring_other kv law writes db _ b s r (λ id. refl) (λ id. refl))
    ]

    apply_tx-Represents :
        (tx : Tx) (n : ℕ) (db : kv.Db) (s t : Sim)
        → IsApplicable tx
        → Represents kv db s
        → HasRoom (spend tx + n) s
        → sim_tx tx s ≡ ok t
        → (next : kv.Db) × (apply_tx kv marshal hash256 tx db ≡ ok next)
          × Represents kv next t
          × HasRoom n t
    unfolding apply_tx
    apply_tx-Represents tx n db s t a r room e =
        rw (claim_of-with_type tx, apply_pay-with_type)
          (pay-sim_tx tx n (put_tx kv marshal hash256 tx db) s t a (put_tx-Represents tx db s r)
            room e)

    apply_txs-Represents :
        (txs : List Tx) (db : kv.Db) (s t : Sim)
        → All IsApplicable txs
        → Represents kv db s
        → HasRoom (spends txs) s
        → sim_txs txs s ≡ ok t
        → (next : kv.Db) × (apply_txs kv marshal hash256 txs db ≡ ok next) × Represents kv next t
    unfolding apply_txs sim_txs spends
    apply_txs-Represents [] db s t a r room e = (db, refl, rw (sym (if-ok false [] s t e)) r)
    apply_txs-Represents (tx ∷ txs) db s t (now, later) r room e =
        let (u, first, rest) = >>=-eq-ok (sim_tx tx s) (sim_txs txs) e in
        let (mid, applied, r', left) =
          apply_tx-Represents tx (spends txs) db s u now r room first in
        let (next, done, r2) = apply_txs-Represents txs mid u t later r' left rest in
        (next, rw applied done, r2)

    -- Where the database holds the balances and nonces of the simulation and its writes succeed, and
    -- `applyBlockToSim` runs the transactions of a block without an error, `applyBlockTxs` succeeds and
    -- leaves exactly the simulation's balances and nonces. Transactions other than a coinbase have a
    -- sender, a coinbase has none and addresses its outputs, and all that the block moves, on top of any
    -- one balance, is below 2 ^ 63.
    pub apply_block_txs-refines :
        (b : Block) (db : kv.Db) (s t : Sim)
        → All IsApplicable b.txs
        → Represents kv db s
        → HasRoom (spends b.txs) s
        → sim_txs b.txs s ≡ ok t
        → (next : kv.Db) × (apply_block_txs kv marshal hash256 b db ≡ ok next)
          × Represents kv next t
    unfolding apply_block_txs put_block_fee_sum
    apply_block_txs-refines b db s t a r room e =
        let (mid, applied, r') = apply_txs-Represents b.txs db s t a r room e in
        (
          put_block_fee_sum kv mid b.header.height 0,
          rw applied,
          ignoring_other kv law writes mid _ _ t r' (λ id. refl) (λ id. refl),
        )
