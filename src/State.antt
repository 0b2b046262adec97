-- ===== src/State.antt =====
-- Balances and nonces in the database: core/state/state.go, with `applyBlockTxs` of
-- core/node/state_apply.go and the records that it writes (internal/reservestorage/txindex.go and
-- internal/reservestorage/fees_block.go). The database (goleveldb) is a parameter.
pub mod Store
pub mod Apply
pub mod Refines
use reserve_os.Base.{
  ℕ, Bool, true, false, not, if◌then◌else◌, List, [], ◌∷◌, ◌++◌, Option, none, some, Bytes, codes,
  bytes_eq, is_empty, leb, length, take, add64, sub64, is_neg, be_bytes, be_value, Outcome, ok, err,
  panic, ◌>>=◌, ◌≡◌,
}
use reserve_os.Chain.{TxOut, OtapClaim, Tx, Block, tx_id}
use reserve_os.Decimal.{itoa_u}
use reserve_os.Node.Basic.{with_type, out_total}
use reserve_os.Node.Sim.{claim_of, otap_bucket}

-- A key-value database. A read gives `none` for `ErrNotFound`; a write gives the new database.
pub record Kv : Type 1 where
  pub Db : Type 0
  pub get : Db → Bytes → Outcome (Option Bytes)
  pub put : Db → Bytes → Bytes → Outcome Db

-- What a write that succeeds does to every later read.
unfoldable pub GetPut : Kv → Type 0
GetPut kv =
    (db next : kv.Db) (k v j : Bytes)
    → kv.put db k v ≡ ok next
    → kv.get next j ≡ (if bytes_eq k j then ok (some v) else kv.get db j)

-- What an iterator gives: the keys and values of a prefix in the order of the keys, the error that it
-- ends with, and deletion, of many keys in one batch or of one.
pub record Scan (kv : Kv) : Type 0 where
  pub entries : kv.Db → Bytes → List (Bytes × Bytes)
  pub fault : kv.Db → Bytes → Option Bytes
  pub delete_all : kv.Db → List Bytes → Outcome kv.Db
  pub delete : kv.Db → Bytes → Outcome kv.Db

-- `if err := it.Error(); err != nil { return err }`
abbrev pub or_fault : {A : Type 0} → Option Bytes → A → Outcome A
or_fault none a = ok a
or_fault (some e) a = err e

-- `_ = f(db)`: an error is dropped, and the database is as before.
abbrev pub ignoring : {D : Type 0} → D → Outcome D → D
ignoring db (ok next) = next
ignoring db (err e) = db
ignoring db panic = db

abbrev pub key_bal : Bytes → Bytes
key_bal id = codes "bal:" ++ id

abbrev pub key_nonce : Bytes → Bytes
key_nonce id = codes "nonce:" ++ id

abbrev pub key_tx : Bytes → Bytes
key_tx txid = codes "tx:" ++ txid

abbrev pub key_block_fees : ℕ → Bytes
key_block_fees height = codes "fees:block:" ++ itoa_u height

-- `binary.BigEndian.Uint64` reads the first eight bytes and panics where there are fewer.
unfoldable pub uint64_be : Bytes → Outcome ℕ
uint64_be b = if leb 8 (length b) then ok (be_value (take 8 b)) else panic

-- The value with the flag for a key that was found.
unfoldable pub read_uint64 : Option Bytes → Outcome (ℕ × Bool)
read_uint64 none = ok (0, false)
read_uint64 (some b) = uint64_be b >>= λ v. ok (v, true)

module _ (kv : Kv) where
  unfoldable pub get_balance : kv.Db → Bytes → Outcome (ℕ × Bool)
  get_balance db id = kv.get db (key_bal id) >>= read_uint64

  unfoldable pub set_balance : kv.Db → Bytes → ℕ → Outcome kv.Db
  set_balance db id value = kv.put db (key_bal id) (be_bytes 8 (if is_neg value then 0 else value))

  -- The balance that is returned beside the database.
  unfoldable pub add_balance : kv.Db → Bytes → ℕ → Outcome (kv.Db × ℕ)
  add_balance db id delta = get_balance db id >>= λ cur.
      let sum = add64 cur.0 delta in
      if is_neg sum
      then err (codes "insufficient funds")
      else (set_balance db id sum >>= λ next. ok (next, sum))

  unfoldable pub get_nonce : kv.Db → Bytes → Outcome (ℕ × Bool)
  get_nonce db id = kv.get db (key_nonce id) >>= read_uint64

  unfoldable pub set_nonce : kv.Db → Bytes → ℕ → Outcome kv.Db
  set_nonce db id nonce = kv.put db (key_nonce id) (be_bytes 8 nonce)

  -- `AddBalance` where only the error is looked at.
  unfoldable pub adjust : Bytes → ℕ → kv.Db → Outcome kv.Db
  adjust id delta db = add_balance db id delta >>= λ r. ok r.0

  unfoldable pub put_block_fee_sum : kv.Db → ℕ → ℕ → kv.Db
  put_block_fee_sum db height sum = ignoring db (kv.put db (key_block_fees height) (be_bytes 8 sum))

  unfoldable pub apply_output : TxOut → kv.Db → Outcome kv.Db
  apply_output o db =
      if not (is_empty o.address)
      then adjust o.address o.amount db
      else if not (is_empty o.p)
      then adjust (otap_bucket o.p) o.amount db
      else ok db

  unfoldable pub apply_outputs : List TxOut → kv.Db → Outcome kv.Db
  apply_outputs [] db = ok db
  apply_outputs (o ∷ os) db = apply_output o db >>= apply_outputs os

  unfoldable pub apply_claim : Tx → OtapClaim → kv.Db → Outcome kv.Db
  apply_claim tx c db =
      adjust (otap_bucket c.p) (sub64 0 (add64 c.amount tx.fee))
        (ignoring db (set_nonce db tx.from tx.nonce))
      >>= adjust c.to c.amount

  -- The debit, where there is a sender.
  unfoldable pub apply_debit : Tx → kv.Db → Outcome kv.Db
  apply_debit tx db =
      if not (is_empty tx.from)
      then (adjust tx.from (sub64 0 (add64 (out_total tx.outputs) tx.fee)) db >>= λ next.
          ok (ignoring next (set_nonce next tx.from tx.nonce)))
      else ok db

  unfoldable pub apply_pay : Tx → Option OtapClaim → kv.Db → Outcome kv.Db
  apply_pay tx (some c) db = apply_claim tx c db
  apply_pay tx none db = apply_debit tx db >>= apply_outputs tx.outputs

  -- `PutTx`; the value is the JSON of the transaction, none where `json.Marshal` fails.
  module _ (marshal : Tx → Option Bytes) (hash256 : Bytes → Bytes) where
    unfoldable pub put_tx : Tx → kv.Db → kv.Db
    put_tx tx db = elim (marshal tx) [
      | none ↦ db
      | some b ↦ ignoring db (kv.put db (key_tx (tx_id hash256 tx)) b)
    ]

    unfoldable pub apply_tx : Tx → kv.Db → Outcome kv.Db
    apply_tx tx db = apply_pay (with_type tx) (claim_of (with_type tx)) (put_tx tx db)

    unfoldable pub apply_txs : List Tx → kv.Db → Outcome kv.Db
    apply_txs [] db = ok db
    apply_txs (tx ∷ txs) db = apply_tx tx db >>= apply_txs txs

    -- The sum of the fees is declared and never added to.
    unfoldable pub apply_block_txs : Block → kv.Db → Outcome kv.Db
    apply_block_txs b db =
        apply_txs b.txs db >>= λ next. ok (put_block_fee_sum next b.header.height 0)
