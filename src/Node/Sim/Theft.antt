-- ===== src/Node/Sim/Theft.antt =====
-- An output with a negative amount: no rule of core/node/block_validate.go or of
-- core/node/block_validate_fork.go looks at the sign of an output's amount.
use reserve_os.Base.{
  ℕ, ◌≡◌, ◌≢◌, ◌+◌, ◌-◌, ◌<◌, ◌≤◌, ◌^◌, sym, true, false, arith, [], ◌∷◌, Bytes, ok, bytes_eq_ne,
  bytes_eq_self, is_empty, ◌==◌, add64, sub64, slt,
}
use reserve_os.Chain.{Tx, TxOut}
use reserve_os.Node.Basic.{transfer_type, out_total, out_total_from}
use reserve_os.Node.Sim.{
  Sim, set_bal, set_nonce, credit, credit_output, credit_outputs, sim_transfer, sim_pay, sim_tx,
}

-- A transfer whose outputs give an amount to one account and its negation to another.
abbrev pub theft : Tx → TxOut → TxOut → Bytes → Bytes → ℕ → Tx
theft tx o v thief victim amount = record tx {
  type = transfer_type;
  from = thief;
  outputs =
      record o { address = thief; amount = amount }
      ∷ record v { address = victim; amount = sub64 0 amount }
      ∷ [];
}

theft-total :
    (tx : Tx) (o v : TxOut) (thief victim : Bytes) (amount : ℕ)
    → amount < 2 ^ 63
    → out_total (theft tx o v thief victim amount).outputs ≡ 0
unfolding out_total out_total_from
theft-total tx o v thief victim amount w = omega arith

-- The state that the transfer ends in.
abbrev after_theft : Tx → Bytes → Bytes → ℕ → Sim → Sim
after_theft tx thief victim amount s = credit victim (sub64 0 amount) (
    credit thief amount
      (set_nonce thief tx.nonce (set_bal thief (sub64 (s.bal thief) (add64 0 tx.fee)) s)))

sim_transfer-theft :
    (tx : Tx) (o v : TxOut) (thief victim : Bytes) (amount : ℕ) (s : Sim)
    → is_empty thief ≡ false
    → is_empty victim ≡ false
    → amount < 2 ^ 63
    → tx.fee ≤ s.bal thief
    → s.bal thief < 2 ^ 63
    → sim_transfer (theft tx o v thief victim amount) s ≡ ok (after_theft tx thief victim amount s)
unfolding sim_transfer credit_outputs credit_output
sim_transfer-theft tx o v thief victim amount s named there w paid room =
    let funded : slt (s.bal thief) (add64 0 tx.fee) ≡ false = ground arith in
    rw (theft-total tx o v thief victim amount w) (rw (funded, named, there))

-- A transfer that credits the sender with an amount and another account with its negation passes
-- the simulation for no more than its fee: the other account loses the amount and the sender gains it.
pub sim_tx_moves_negative :
    (tx : Tx) (o v : TxOut) (thief victim : Bytes) (amount : ℕ) (s : Sim)
    → is_empty thief ≡ false
    → is_empty victim ≡ false
    → thief ≢ victim
    → tx.nonce ≡ add64 (s.nonce thief) 1
    → tx.fee ≤ s.bal thief
    → s.bal thief + amount < 2 ^ 63
    → amount ≤ s.bal victim
    → s.bal victim < 2 ^ 63
    → (t : Sim) × (sim_tx (theft tx o v thief victim amount) s ≡ ok t)
      × (t.bal victim ≡ s.bal victim - amount)
      × (t.bal thief ≡ s.bal thief - tx.fee + amount)
unfolding sim_tx sim_pay
sim_tx_moves_negative tx o v thief victim amount s named there apart next paid room enough small =
    let run =
      sim_transfer-theft tx o v thief victim amount s named there (omega arith) paid
        (omega arith) in
    let now : (tx.nonce == add64 (s.nonce thief) 1) ≡ true = ground arith in
    (
      after_theft tx thief victim amount s,
      rw now run,
      rw (bytes_eq_self victim, bytes_eq_ne thief victim apart) (omega arith),
      rw (bytes_eq_ne victim thief (λ e. apart (sym e)), bytes_eq_self thief) (omega arith),
    )
