-- ===== src/State/Apply.antt =====
-- One payment of `applyBlockTxs` (core/node/state_apply.go), against the simulation of the same payment
-- in `applyBlockToSim` (core/node/block_validate_fork.go).
use reserve_os.Base.{
  ℕ, ◌≡◌, ◌<◌, ◌≤◌, ◌^◌, ◌+◌, refl, sym, Bool, true, false, if◌then◌else◌, arith, List, [], ◌∷◌,
  none, Bytes, bytes_eq, Bool-cases, inl, inr, is_empty, add64, sub64, slt, IsU64, ok, err, ◌>>=◌,
  if-ok,
}
use reserve_os.Chain.{TxOut, OtapClaim, Tx}
use reserve_os.Node.Basic.{out_total, out_total_from}
use reserve_os.Node.Sim.{
  Sim, set_bal, credit, update, otap_bucket, credit_output, credit_outputs, credit_coinbase,
  claim_of, sim_claim, sim_transfer, sim_pay, sim_tx, sim_txs,
}
use reserve_os.Node.Sim
use reserve_os.State.{
  Kv, GetPut, adjust, ignoring, set_nonce, apply_output, apply_outputs, apply_claim, apply_debit,
  apply_pay,
}
use reserve_os.State.Store.{Represents, IsWritable, adjust-Represents, ignoring_nonce-Represents}

not-err : (b : Bool) (m : Bytes) (s t : Sim) → (if b then err m else ok s) ≡ ok t → b ≡ false
not-err true m s t e = cc
not-err false m s t e = refl

-- Every balance can grow by `n` and stay an int64.
unfoldable pub HasRoom : ℕ → Sim → Type 0
HasRoom n s = (id : Bytes) → s.bal id + n < 2 ^ 63

-- What the outputs of a transaction add up to, exactly.
unfoldable pub gain : List TxOut → ℕ
gain [] = 0
gain (o ∷ os) = o.amount + gain os

pub weaken : (n m : ℕ) (s : Sim) → n ≤ m → HasRoom m s → HasRoom n s
unfolding HasRoom
weaken n m s le room id = let r = room id in omega arith

credit-HasRoom : (id : Bytes) (a n : ℕ) (s : Sim) → HasRoom (a + n) s → HasRoom n (credit id a s)
unfolding HasRoom
credit-HasRoom id a n s room j = elim (Bool-cases (bytes_eq id j)) [
  | inl here ↦ let r = room id in rw here (ground arith)
  | inr there ↦ let r = room j in rw there (omega arith)
]

debit-HasRoom :
    (id : Bytes) (v n : ℕ) (s : Sim) → v ≤ s.bal id → HasRoom n s → HasRoom n (set_bal id v s)
unfolding HasRoom
debit-HasRoom id v n s below room j = elim (Bool-cases (bytes_eq id j)) [
  | inl here ↦ let r = room id in rw here (omega arith)
  | inr there ↦ let r = room j in rw there (omega arith)
]

out_total-gain :
    (a : ℕ) (os : List TxOut) → a + gain os < 2 ^ 64 → out_total_from a os ≡ a + gain os
unfolding gain out_total_from
out_total-gain a [] w = omega arith
out_total-gain a (o ∷ os) w =
    let exact : add64 a o.amount ≡ a + o.amount = omega arith in
    rw exact (omega (arith, out_total-gain (a + o.amount) os (omega arith)))

module _ (kv : Kv) (law : GetPut kv) (writes : IsWritable kv) where
  credit-Represents :
      (id : Bytes) (a n : ℕ) (db : kv.Db) (s : Sim)
      → Represents kv db s
      → HasRoom (a + n) s
      → (next : kv.Db) × (adjust kv id a db ≡ ok next) × Represents kv next (credit id a s)
  unfolding HasRoom
  credit-Represents id a n db s r room =
      let here = room id in adjust-Represents kv law writes db id a s r (ground arith)

  apply_output-Represents :
      (o : TxOut) (n : ℕ) (db : kv.Db) (s : Sim)
      → Represents kv db s
      → HasRoom (o.amount + n) s
      → (next : kv.Db) × (apply_output kv o db ≡ ok next) × Represents kv next (credit_output o s)
  unfolding apply_output credit_output
  apply_output-Represents o n db s r room = elim (Bool-cases (is_empty o.address)) [
    | inr named ↦ rw named (credit-Represents o.address o.amount n db s r room)
    | inl unnamed ↦ elim (Bool-cases (is_empty o.p)) [
      | inr bucket ↦
          rw (unnamed, bucket) (credit-Represents (otap_bucket o.p) o.amount n db s r room)
      | inl neither ↦ rw (unnamed, neither) (db, refl, r)
    ]
  ]

  credit_output-HasRoom :
      (o : TxOut) (n : ℕ) (s : Sim) → HasRoom (o.amount + n) s → HasRoom n (credit_output o s)
  unfolding credit_output HasRoom
  credit_output-HasRoom o n s room = elim (Bool-cases (is_empty o.address)) [
    | inr named ↦ rw named (credit-HasRoom o.address o.amount n s room)
    | inl unnamed ↦ elim (Bool-cases (is_empty o.p)) [
      | inr bucket ↦ rw (unnamed, bucket) (credit-HasRoom (otap_bucket o.p) o.amount n s room)
      | inl neither ↦ rw (unnamed, neither) (λ j. let r = room j in omega arith)
    ]
  ]

  pub apply_outputs-Represents :
      (os : List TxOut) (n : ℕ) (db : kv.Db) (s : Sim)
      → Represents kv db s
      → HasRoom (gain os + n) s
      → (next : kv.Db) × (apply_outputs kv os db ≡ ok next)
        × Represents kv next (credit_outputs os s)
        × HasRoom n (credit_outputs os s)
  unfolding apply_outputs credit_outputs gain
  apply_outputs-Represents [] n db s r room = (db, refl, r, weaken n (0 + n) s (omega arith) room)
  apply_outputs-Represents (o ∷ os) n db s r room =
      let split = weaken (o.amount + (gain os + n)) _ s (omega arith) room in
      let (mid, now, r') = apply_output-Represents o (gain os + n) db s r split in
      let rest =
        apply_outputs-Represents os n mid (credit_output o s) r'
          (credit_output-HasRoom o (gain os + n) s split) in
      (rest.0, rw now rest.1, rest.2, rest.3)

  -- A debit that the simulation found covered.
  pay-Represents :
      (id : Bytes) (need : ℕ) (db : kv.Db) (s : Sim)
      → Represents kv db s
      → need ≤ s.bal id
      → s.bal id < 2 ^ 63
      → (next : kv.Db) × (adjust kv id (sub64 0 need) db ≡ ok next)
        × Represents kv next (set_bal id (sub64 (s.bal id) need) s)
  pay-Represents id need db s r covered small =
      let same : add64 (s.bal id) (sub64 0 need) ≡ sub64 (s.bal id) need = omega arith in
      rw (sym same) (adjust-Represents kv law writes db id (sub64 0 need) s r (omega arith))

  debit-Represents :
      (id : Bytes) (nonce need n : ℕ) (db : kv.Db) (s : Sim)
      → IsU64 nonce
      → need < 2 ^ 63
      → slt (s.bal id) need ≡ false
      → Represents kv db s
      → HasRoom n s
      → (next : kv.Db) × ((adjust kv id (sub64 0 need) db >>= λ x.
            ok (ignoring x (set_nonce kv x id nonce)))
          ≡ ok next)
        × Represents kv next (Sim.set_nonce id nonce (set_bal id (sub64 (s.bal id) need) s))
        × HasRoom n (set_bal id (sub64 (s.bal id) need) s)
  debit-Represents id nonce need n db s w small funded r room =
      let here : s.bal id + n < 2 ^ 63 = unfold HasRoom in room id in
      let covered : need ≤ s.bal id = ground arith in
      let (paid, debited, r') = pay-Represents id need db s r covered (omega (arith, here)) in
      let left = set_bal id (sub64 (s.bal id) need) s in
      (
        ignoring paid (set_nonce kv paid id nonce),
        rw debited,
        ignoring_nonce-Represents kv law writes paid id nonce left w r',
        debit-HasRoom id (sub64 (s.bal id) need) n s (omega (arith, here)) room,
      )

  same-room :
      (n : ℕ) (id : Bytes) (v : ℕ) (s : Sim) → HasRoom n s → HasRoom n (Sim.set_nonce id v s)
  unfolding HasRoom
  same-room n id v s room j = room j

  pub pay_transfer-Represents :
      (tx : Tx) (n : ℕ) (db : kv.Db) (s t : Sim)
      → is_empty tx.from ≡ false
      → IsU64 tx.nonce
      → Represents kv db s
      → HasRoom (gain tx.outputs + (tx.fee + n)) s
      → sim_transfer tx s ≡ ok t
      → (next : kv.Db) × (apply_pay kv tx none db ≡ ok next) × Represents kv next t × HasRoom n t
  unfolding apply_pay apply_debit sim_transfer
  pay_transfer-Represents tx n db s t named w r room e =
      let here : s.bal tx.from + (gain tx.outputs + (tx.fee + n)) < 2 ^ 63 =
        unfold HasRoom in room tx.from in
      let spent : out_total tx.outputs ≡ gain tx.outputs =
        unfold out_total in omega (arith, out_total-gain 0 tx.outputs (omega (arith, here))) in
      let need = add64 (out_total tx.outputs) tx.fee in
      let (mid, debited, r', left) =
        debit-Represents tx.from tx.nonce need (gain tx.outputs + n) db s w
          (omega (arith, here, spent)) (not-err _ _ _ _ e) r (weaken _ _ s (omega arith) room) in
      let (next, credited, r2, left2) =
        apply_outputs-Represents tx.outputs n mid _ r' (same-room _ tx.from tx.nonce _ left) in
      (
        next,
        rw named (rw debited credited),
        rw (sym (if-ok _ _ _ t e)) r2,
        rw (sym (if-ok _ _ _ t e)) left2,
      )

  pub pay_claim-Represents :
      (tx : Tx) (c : OtapClaim) (n : ℕ) (db : kv.Db) (s t : Sim)
      → IsU64 tx.nonce
      → Represents kv db s
      → HasRoom (c.amount + (tx.fee + n)) s
      → sim_claim tx c s ≡ ok t
      → (next : kv.Db) × (apply_claim kv tx c db ≡ ok next) × Represents kv next t × HasRoom n t
  unfolding apply_claim sim_claim
  pay_claim-Represents tx c n db s t w r room e =
      let bucket = otap_bucket c.p in
      let need = add64 c.amount tx.fee in
      let here : s.bal bucket + (c.amount + (tx.fee + n)) < 2 ^ 63 =
        unfold HasRoom in room bucket in
      let funded = not-err _ _ _ _ e in
      let covered : need ≤ s.bal bucket = ground arith in
      let counted = ignoring_nonce-Represents kv law writes db tx.from tx.nonce s w r in
      let (mid, debited, r') =
        pay-Represents bucket need _ (Sim.set_nonce tx.from tx.nonce s) counted covered
          (omega (arith, here)) in
      let paid = set_bal bucket (sub64 (s.bal bucket) need) (Sim.set_nonce tx.from tx.nonce s) in
      let left : HasRoom (c.amount + n) paid =
        debit-HasRoom bucket _ (c.amount + n) (Sim.set_nonce tx.from tx.nonce s)
          (omega (arith, here))
          (same-room _ tx.from tx.nonce s (weaken _ _ s (omega arith) room)) in
      let (next, credited, r2) = credit-Represents c.to c.amount n mid paid r' left in
      (
        next,
        rw debited credited,
        rw (sym (if-ok _ _ _ t e)) r2,
        rw (sym (if-ok _ _ _ t e)) (credit-HasRoom c.to c.amount n paid left),
      )
