-- ===== src/State/Store.antt =====
-- Reads after writes of core/state/state.go.
use reserve_os.Base.{
  ℕ, ◌≡◌, refl, sym, ◌∙◌, ap, Bool, true, false, arith, [], ◌∷◌, Bytes, bytes_eq, Bool-cases, inl,
  inr, leb, length, take, add64, is_neg, IsU64, IsNonneg, be_bytes, be_value-be_bytes,
  length-be_bytes, ok,
}
use reserve_os.Node.Sim.{Sim, set_bal}
use reserve_os.Node.Sim
use reserve_os.State.{
  Kv, GetPut, key_bal, key_nonce, uint64_be, read_uint64, get_balance, set_balance, add_balance,
  get_nonce, set_nonce, adjust, ignoring,
}

pub take_all : (s : Bytes) → take (length s) s ≡ s
take_all [] = refl
take_all (x ∷ s) = ap (λ r. x ∷ r) (take_all s)

-- What `PutUint64` writes, `Uint64` reads.
pub uint64_be-be_bytes : (v : ℕ) → IsU64 v → uint64_be (be_bytes 8 v) ≡ ok v
unfolding uint64_be
uint64_be-be_bytes v w =
    let len = length-be_bytes 8 v in
    let whole = ap (λ n. take n (be_bytes 8 v)) (sym len) ∙ take_all (be_bytes 8 v) in
    let long : leb 8 (length (be_bytes 8 v)) ≡ true = rw len in
    rw (long, whole) (ap ok (be_value-be_bytes 8 v (omega arith)))

-- The balances and nonces that a database holds.
pub record Represents (kv : Kv) (db : kv.Db) (s : Sim) : Type 0 where
  pub balance : (id : Bytes) → (found : Bool) × (get_balance kv db id ≡ ok (s.bal id, found))
  pub nonce : (id : Bytes) → (found : Bool) × (get_nonce kv db id ≡ ok (s.nonce id, found))

-- A database whose writes succeed.
unfoldable pub IsWritable : Kv → Type 0
IsWritable kv = (db : kv.Db) (k v : Bytes) → (next : kv.Db) × (kv.put db k v ≡ ok next)

module _ (kv : Kv) (law : GetPut kv) (writes : IsWritable kv) where
  -- A write to a key of neither kind changes nothing that is represented.
  pub put_other :
      (db next : kv.Db) (k v : Bytes) (s : Sim)
      → Represents kv db s
      → ((id : Bytes) → bytes_eq k (key_bal id) ≡ false)
      → ((id : Bytes) → bytes_eq k (key_nonce id) ≡ false)
      → kv.put db k v ≡ ok next
      → Represents kv next s
  unfolding get_balance get_nonce GetPut
  put_other db next k v s r bals nonces e = record {
    balance = λ id. rw (law db next k v (key_bal id) e, bals id) (r.balance id);
    nonce = λ id. rw (law db next k v (key_nonce id) e, nonces id) (r.nonce id);
  }

  pub put_balance-Represents :
      (db next : kv.Db) (id : Bytes) (v : ℕ) (s : Sim)
      → IsU64 v
      → Represents kv db s
      → kv.put db (key_bal id) (be_bytes 8 v) ≡ ok next
      → Represents kv next (set_bal id v s)
  unfolding get_balance get_nonce read_uint64 GetPut
  put_balance-Represents db next id v s w r e = record {
    balance = λ j. elim (Bool-cases (bytes_eq id j)) [
      | inl here ↦ (true, rw (law db next _ _ (key_bal j) e, here) (rw (uint64_be-be_bytes v w)))
      | inr there ↦ rw (law db next _ _ (key_bal j) e, there) (r.balance j)
    ];
    nonce = λ j. rw (law db next _ _ (key_nonce j) e) (r.nonce j);
  }

  put_nonce-Represents :
      (db next : kv.Db) (id : Bytes) (v : ℕ) (s : Sim)
      → IsU64 v
      → Represents kv db s
      → kv.put db (key_nonce id) (be_bytes 8 v) ≡ ok next
      → Represents kv next (Sim.set_nonce id v s)
  unfolding get_balance get_nonce read_uint64 GetPut
  put_nonce-Represents db next id v s w r e = record {
    balance = λ j. rw (law db next _ _ (key_bal j) e) (r.balance j);
    nonce = λ j. elim (Bool-cases (bytes_eq id j)) [
      | inl here ↦ (true, rw (law db next _ _ (key_nonce j) e, here) (rw (uint64_be-be_bytes v w)))
      | inr there ↦ rw (law db next _ _ (key_nonce j) e, there) (r.nonce j)
    ];
  }

  set_balance-eq :
      (db : kv.Db) (id : Bytes) (v : ℕ)
      → IsNonneg v
      → set_balance kv db id v ≡ kv.put db (key_bal id) (be_bytes 8 v)
  unfolding set_balance
  set_balance-eq db id v w = let fits : is_neg v ≡ false = ground arith in rw (fits, set_balance)

  -- Where the database holds the balances and nonces of a state and its writes succeed, `AddBalance`
  -- whose sum is not negative succeeds, and the database then holds the state with that one balance
  -- changed.
  pub adjust-Represents :
      (db : kv.Db) (id : Bytes) (delta : ℕ) (s : Sim)
      → Represents kv db s
      → IsNonneg (add64 (s.bal id) delta)
      → (next : kv.Db) × (adjust kv id delta db ≡ ok next)
        × Represents kv next (set_bal id (add64 (s.bal id) delta) s)
  unfolding adjust add_balance IsWritable
  adjust-Represents db id delta s r w =
      let (found, read) = r.balance id in
      let sum = add64 (s.bal id) delta in
      let (next, e) = writes db (key_bal id) (be_bytes 8 sum) in
      let fits : is_neg sum ≡ false = ground arith in
      let stored = set_balance-eq db id sum w ∙ e in
      (
        next,
        rw read (rw fits (rw stored)),
        put_balance-Represents db next id sum s (omega arith) r e,
      )

  pub ignoring_nonce-Represents :
      (db : kv.Db) (id : Bytes) (v : ℕ) (s : Sim)
      → IsU64 v
      → Represents kv db s
      → Represents kv (ignoring db (set_nonce kv db id v)) (Sim.set_nonce id v s)
  unfolding set_nonce IsWritable
  ignoring_nonce-Represents db id v s w r =
      let (next, e) = writes db (key_nonce id) (be_bytes 8 v) in
      rw e (put_nonce-Represents db next id v s w r e)

  pub ignoring_other :
      (db : kv.Db) (k v : Bytes) (s : Sim)
      → Represents kv db s
      → ((id : Bytes) → bytes_eq k (key_bal id) ≡ false)
      → ((id : Bytes) → bytes_eq k (key_nonce id) ≡ false)
      → Represents kv (ignoring db (kv.put db k v)) s
  unfolding IsWritable
  ignoring_other db k v s r bals nonces =
      let (next, e) = writes db k v in rw e (put_other db next k v s r bals nonces e)
