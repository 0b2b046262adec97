-- ===== src/Node/Sim/Supply.antt =====
-- What a run of a block's transactions (`applyBlockToSim`) does to the sum of all balances.
use reserve_os.Base.{
  Bool, ℕ, ◌≡◌, ◌<◌, ◌^◌, refl, sym, ap, true, false, not, ◌&&◌, if◌then◌else◌, arith, List, [],
  ◌∷◌, Option, none, some, Bytes, ok, >>=-eq-ok, if-ok, Bool-cases, inl, inr, bytes_eq, bytes_eq→eq,
  is_empty, count, add64, sub64, All,
}
use reserve_os.Chain.{OtapClaim, Tx, TxOut}
use reserve_os.Node.Basic.{coinbase_type, out_total, out_total_from, sum_fees, sum_fees_from}
use reserve_os.Node.Sim.{
  Sim, set_bal, set_nonce, credit, otap_bucket, update, credit_output, credit_outputs,
  credit_coinbase, claim_of, sim_claim, sim_transfer, sim_pay, sim_tx, sim_txs,
}

-- The sum of the balances of a list of accounts.
pub total : List Bytes → (Bytes → ℕ) → ℕ
total [] bal = 0
total (j ∷ ids) bal = add64 (bal j) (total ids bal)

total-lt : (ids : List Bytes) (bal : Bytes → ℕ) → total ids bal < 2 ^ 64
unfolding total
total-lt [] bal = ground arith
total-lt (j ∷ ids) bal = ground arith

total-update_absent :
    (ids : List Bytes) (id : Bytes) (v : ℕ) (bal : Bytes → ℕ)
    → count id ids ≡ 0
    → total ids (update bal id v) ≡ total ids bal
unfolding total
total-update_absent [] id v bal e = refl
total-update_absent (j ∷ ids) id v bal e = elim (Bool-cases (bytes_eq id j)) [
  | inl here ↦ ground arith
  | inr there ↦ rw there (rw (total-update_absent ids id v bal (ground arith)))
]

-- Where the account stands once in the list, its new balance takes the place of the old one.
total-update :
    (ids : List Bytes) (id : Bytes) (v : ℕ) (bal : Bytes → ℕ)
    → count id ids ≡ 1
    → add64 (total ids (update bal id v)) (bal id) ≡ add64 (total ids bal) v
unfolding total
total-update [] id v bal e = ground arith
total-update (j ∷ ids) id v bal e = elim (Bool-cases (bytes_eq id j)) [
  | inl here ↦
      let absent = total-update_absent ids id v bal (ground arith) in
      rw (here, absent) (rw (sym (bytes_eq→eq id j here)) (omega arith))
  | inr there ↦
      let rest = total-update ids id v bal (ground arith) in rw there (omega (arith, rest))
]

-- The account that an output credits, where it names one.
abbrev pub destination : TxOut → Bytes
destination o = if not (is_empty o.address) then o.address else otap_bucket o.p

-- An output with neither an address nor a one-time key credits nobody.
abbrev pub is_burnt : TxOut → Bool
is_burnt o = is_empty o.address && is_empty o.p

-- The amounts of the outputs that credit nobody, on top of `a`.
unfoldable pub burnt_from : ℕ → List TxOut → ℕ
burnt_from a [] = a
burnt_from a (o ∷ os) = burnt_from (if is_burnt o then add64 a o.amount else a) os

abbrev pub burnt_of : Tx → Option OtapClaim → ℕ
burnt_of tx (some c) = 0
burnt_of tx none = burnt_from 0 tx.outputs

-- What the transfers of a list pay to nobody.
unfoldable pub burnt : List Tx → ℕ
burnt [] = 0
burnt (tx ∷ txs) =
    if bytes_eq tx.type coinbase_type
    then burnt txs
    else add64 (burnt_of tx (claim_of tx)) (burnt txs)

-- What the coinbases of a list pay out.
unfoldable pub minted : List Tx → ℕ
minted [] = 0
minted (tx ∷ txs) =
    if bytes_eq tx.type coinbase_type then add64 (out_total tx.outputs) (minted txs) else minted txs

module _ (ids : List Bytes) where
  total-credit :
      (id : Bytes) (a : ℕ) (s : Sim)
      → count id ids ≡ 1
      → total ids (credit id a s).bal ≡ add64 (total ids s.bal) a
  total-credit id a s e =
      omega
        (arith, total-update ids id (add64 (s.bal id) a) s.bal e, total-lt ids (credit id a s).bal)

  total-debit :
      (id : Bytes) (a : ℕ) (s : Sim)
      → count id ids ≡ 1
      → a < 2 ^ 64
      → add64 (total ids (set_bal id (sub64 (s.bal id) a) s).bal) a ≡ total ids s.bal
  total-debit id a s e w =
      omega (arith, total-update ids id (sub64 (s.bal id) a) s.bal e, total-lt ids s.bal)

  -- Where the output credits an account, that account stands once in the list.
  unfoldable pub IsCounted : TxOut → Type 0
  IsCounted o = is_burnt o ≡ false → count (destination o) ids ≡ 1

  credit_output_burnt : (o : TxOut) (s : Sim) → is_burnt o ≡ true → credit_output o s ≡ s
  unfolding credit_output
  credit_output_burnt o s e = ground arith

  total-credit_output :
      (o : TxOut) (s : Sim)
      → is_burnt o ≡ false
      → IsCounted o
      → total ids (credit_output o s).bal ≡ add64 (total ids s.bal) o.amount
  unfolding credit_output IsCounted
  total-credit_output o s lands counted =
      let once = counted lands in
      elim (Bool-cases (is_empty o.address)) [
        | inr address ↦ rw address (total-credit o.address o.amount s (ground arith))
        | inl unnamed ↦
            let bucket : is_empty o.p ≡ false = ground arith in
            rw (unnamed, bucket) (total-credit (otap_bucket o.p) o.amount s (ground arith))
      ]

  total-credit_outputs :
      (os : List TxOut) (a b : ℕ) (s : Sim)
      → All IsCounted os
      → add64 (add64 (total ids (credit_outputs os s).bal) a) (burnt_from b os)
        ≡ add64 (add64 (total ids s.bal) b) (out_total_from a os)
  unfolding credit_outputs out_total_from burnt_from
  total-credit_outputs [] a b s d = omega arith
  total-credit_outputs (o ∷ os) a b s (d, ds) = elim (Bool-cases (is_burnt o)) [
    | inl lost ↦
        let same = ap (λ u. total ids u.bal) (credit_output_burnt o s lost) in
        rw lost (
          omega (
            arith,
            total-credit_outputs os (add64 a o.amount) (add64 b o.amount) (credit_output o s) ds,
            same,
          ))
    | inr lands ↦ rw lands (
        omega (
          arith,
          total-credit_outputs os (add64 a o.amount) b (credit_output o s) ds,
          total-credit_output o s lands d,
        ))
  ]

  total-credit_coinbase :
      (os : List TxOut) (a : ℕ) (s : Sim)
      → All (λ o. count o.address ids ≡ 1) os
      → add64 (total ids (credit_coinbase os s).bal) a
        ≡ add64 (total ids s.bal) (out_total_from a os)
  unfolding credit_coinbase out_total_from
  total-credit_coinbase [] a s d = refl
  total-credit_coinbase (o ∷ os) a s (d, ds) = omega (
    arith,
    total-credit_coinbase os (add64 a o.amount) (credit o.address o.amount s) ds,
    total-credit o.address o.amount s d,
  )

  -- Every account that the transaction debits or credits stands once in the list.
  pub record IsCovered (tx : Tx) : Type 0 where
    pub coinbase :
        bytes_eq tx.type coinbase_type ≡ true → All (λ o. count o.address ids ≡ 1) tx.outputs
    pub claim :
        (c : OtapClaim)
        → claim_of tx ≡ some c
        → (count (otap_bucket c.p) ids ≡ 1) × (count c.to ids ≡ 1)
    pub payer :
        bytes_eq tx.type coinbase_type ≡ false
        → claim_of tx ≡ none
        → (count tx.from ids ≡ 1) × All IsCounted tx.outputs

  total-sim_claim :
      (tx : Tx) (c : OtapClaim) (s t : Sim)
      → count (otap_bucket c.p) ids ≡ 1
      → count c.to ids ≡ 1
      → sim_claim tx c s ≡ ok t
      → add64 (total ids t.bal) tx.fee ≡ total ids s.bal
  unfolding sim_claim
  total-sim_claim tx c s t from to e =
      let need = add64 c.amount tx.fee in
      let bucket = otap_bucket c.p in
      let paid = set_bal bucket (sub64 (s.bal bucket) need) s in
      rw (sym (if-ok _ _ _ t e)) (
        omega (
          arith,
          total-credit c.to c.amount paid to,
          total-debit bucket need s from (ground arith),
        ))

  total-sim_transfer :
      (tx : Tx) (s t : Sim)
      → count tx.from ids ≡ 1
      → All IsCounted tx.outputs
      → sim_transfer tx s ≡ ok t
      → add64 (add64 (total ids t.bal) tx.fee) (burnt_from 0 tx.outputs) ≡ total ids s.bal
  unfolding sim_transfer out_total
  total-sim_transfer tx s t from to e =
      let need = add64 (out_total tx.outputs) tx.fee in
      let paid = set_nonce tx.from tx.nonce (set_bal tx.from (sub64 (s.bal tx.from) need) s) in
      rw (sym (if-ok _ _ _ t e)) (
        omega (
          arith,
          total-credit_outputs tx.outputs 0 0 paid to,
          total-debit tx.from need s from (ground arith),
        ))

  total-sim_pay :
      (tx : Tx) (o : Option OtapClaim) (s t : Sim)
      → claim_of tx ≡ o
      → bytes_eq tx.type coinbase_type ≡ false
      → IsCovered tx
      → sim_pay tx o s ≡ ok t
      → add64 (add64 (total ids t.bal) tx.fee) (burnt_of tx o) ≡ total ids s.bal
  unfolding sim_pay
  total-sim_pay tx (some c) s t o plain covered e =
      let (from, to) = covered.claim c o in omega (arith, total-sim_claim tx c s t from to e)
  total-sim_pay tx none s t o plain covered e =
      let (from, to) = covered.payer plain o in total-sim_transfer tx s t from to e

  total-sim_tx_coinbase :
      (tx : Tx) (s t : Sim)
      → bytes_eq tx.type coinbase_type ≡ true
      → IsCovered tx
      → sim_tx tx s ≡ ok t
      → total ids t.bal ≡ add64 (total ids s.bal) (out_total tx.outputs)
  unfolding sim_tx out_total
  total-sim_tx_coinbase tx s t c covered e =
      let paid : t ≡ credit_coinbase tx.outputs s = ground arith in
      rw paid (
        omega (
          arith,
          total-credit_coinbase tx.outputs 0 s (covered.coinbase c),
          total-lt ids (credit_coinbase tx.outputs s).bal,
        ))

  total-sim_tx_pays :
      (tx : Tx) (s t : Sim)
      → bytes_eq tx.type coinbase_type ≡ false
      → IsCovered tx
      → sim_tx tx s ≡ ok t
      → add64 (add64 (total ids t.bal) tx.fee) (burnt_of tx (claim_of tx)) ≡ total ids s.bal
  unfolding sim_tx
  total-sim_tx_pays tx s t p covered e =
      total-sim_pay tx (claim_of tx) s t refl p covered (ground arith)

  total-run :
      (txs : List Tx) (f : ℕ) (s t : Sim)
      → All IsCovered txs
      → sim_txs txs s ≡ ok t
      → add64 (add64 (total ids t.bal) (sum_fees_from f txs)) (burnt txs)
        ≡ add64 (add64 (total ids s.bal) f) (minted txs)
  unfolding sim_txs sum_fees_from minted burnt
  total-run [] f s t c e = rw (if-ok false [] s t e) (omega arith)
  total-run (tx ∷ txs) f s t (c, cs) e =
      let (u, now, later) = >>=-eq-ok (sim_tx tx s) (sim_txs txs) e in
      elim (Bool-cases (bytes_eq tx.type coinbase_type)) [
        | inl mints ↦
            rw mints (
              omega (arith, total-run txs f u t cs later, total-sim_tx_coinbase tx s u mints c now))
        | inr pays ↦ rw pays (
            omega (
              arith,
              total-run txs (add64 f tx.fee) u t cs later,
              total-sim_tx_pays tx s u pays c now,
            ))
      ]

  -- Over any list of accounts that holds each account which the transactions debit or credit exactly
  -- once, a run of the transactions by `applyBlockToSim` conserves the sum of the balances modulo 2 ^ 64:
  -- what is left, the fees and what transfers pay to outputs with neither an address nor a one-time key,
  -- which credit nobody, make up what there was and what the coinbases paid out.
  pub supply_conserved :
      (txs : List Tx) (s t : Sim)
      → All IsCovered txs
      → sim_txs txs s ≡ ok t
      → add64 (add64 (total ids t.bal) (sum_fees txs)) (burnt txs)
        ≡ add64 (total ids s.bal) (minted txs)
  unfolding sum_fees
  supply_conserved txs s t c e = omega (arith, total-run txs 0 s t c e)
