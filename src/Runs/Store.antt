-- ===== src/Runs/Store.antt =====
-- Runs of the state database on a database of functions.
use reserve_os.Base.{
  ◌≡◌, ◌≤◌, refl, sym, ap, Bool, true, false, arith, Option, none, some, Bytes, Outcome, ok, err,
  panic, bytes_eq, Bool-cases, inl, inr, if◌then◌else◌, be_bytes, All,
}
use reserve_os.Node.Sim.{
  Sim, set_bal, sim_txs, sim_tx, sim_pay, sim_transfer, sim_claim, credit_outputs, credit_output,
  credit_coinbase,
}
use reserve_os.Node.Basic.{out_total, out_total_from}
use reserve_os.Runs.Data.{toy, alice, bob, block}
use reserve_os.State.{Kv, GetPut, key_bal, get_balance, get_nonce, read_uint64, apply_block_txs}
use reserve_os.State.Apply.{HasRoom, gain}
use reserve_os.State.Refines.{IsApplicable, spends, spend, claimed, apply_block_txs-refines}
use reserve_os.State.Store.{Represents, IsWritable, put_balance-Represents}

abbrev pub store : (Bytes → Option Bytes) → Bytes → Bytes → Bytes → Option Bytes
store db k v j = if bytes_eq k j then some v else db j

abbrev pub functions : Kv
functions = record {
  Db = Bytes → Option Bytes;
  get = λ db k. ok (db k);
  put = λ db k v. ok (store db k v);
}

unfoldable pub the_value :
    (db : Bytes → Option Bytes) → Outcome (Bytes → Option Bytes) → Bytes → Option Bytes
the_value db (ok f) = f
the_value db (err e) = db
the_value db panic = db

pub functions-GetPut : GetPut functions
unfolding GetPut
functions-GetPut db next k v j e =
    let same : store db k v ≡ next = unfold the_value in ap (the_value db) e in
    rw (sym same) (elim (Bool-cases (bytes_eq k j)) [ inl here ↦ rw here | inr there ↦ rw there ])

pub functions-IsWritable : IsWritable functions
unfolding IsWritable
functions-IsWritable db k v = (store db k v, refl)

abbrev nobody : Sim
nobody = record { bal = λ id. 0; nonce = λ id. 0 }

nobody-Represents : Represents functions (λ k. none) nobody
nobody-Represents = record {
  balance = λ id. (false, unfold get_balance read_uint64 in refl);
  nonce = λ id. (false, unfold get_nonce read_uint64 in refl);
}

-- A database with the balances of two accounts.
abbrev pub ledger : Sim
ledger = set_bal alice 100 (set_bal bob 7 nobody)

abbrev with_bob : Bytes → Option Bytes
with_bob = store (λ k. none) (key_bal bob) (be_bytes 8 7)

abbrev pub database : Bytes → Option Bytes
database = store with_bob (key_bal alice) (be_bytes 8 100)

pub database-Represents : Represents functions database ledger
database-Represents =
    put_balance-Represents functions functions-GetPut functions-IsWritable with_bob database alice
      100 (set_bal bob 7 nobody) (omega arith)
      (put_balance-Represents functions functions-GetPut functions-IsWritable (λ k. none) with_bob
        bob 7 nobody (omega arith) nobody-Represents refl)
      refl

abbrev after_run : Sim
after_run = elim (sim_txs block.txs ledger) [ ok s ↦ s | err e ↦ ledger | panic ↦ ledger ]

run-ok : sim_txs block.txs ledger ≡ ok after_run
unfolding sim_txs sim_tx sim_pay sim_transfer sim_claim credit_outputs credit_output credit_coinbase
    out_total out_total_from
run-ok = refl

pub either-le : (a b : Bool) → (if a then 100 else if b then 7 else 0) ≤ 100
either-le true b = omega arith
either-le false true = omega arith
either-le false false = omega arith

block-spends : spends block.txs ≡ 100
unfolding spends spend gain claimed
block-spends = refl

ledger-HasRoom : HasRoom (spends block.txs) ledger
unfolding HasRoom
ledger-HasRoom id = omega (arith, either-le (bytes_eq alice id) (bytes_eq bob id), block-spends)

block-IsApplicable : All IsApplicable block.txs
block-IsApplicable = (
  record { coinbase = λ e. (refl, (refl, tt)); sender = λ e. cc },
  (
    record { coinbase = λ e. cc; sender = λ e. refl },
    (record { coinbase = λ e. cc; sender = λ e. refl }, tt),
  ),
)

apply_block_txs-refines_example :
    (next : Bytes → Option Bytes) × (apply_block_txs functions
        (λ tx. none)
        toy.hash256
        block
        database
      ≡ ok next)
    × Represents functions next after_run
apply_block_txs-refines_example =
    apply_block_txs-refines functions functions-GetPut functions-IsWritable (λ tx. none) toy.hash256
      block database ledger after_run block-IsApplicable database-Represents ledger-HasRoom run-ok
