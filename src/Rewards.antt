-- ===== src/Rewards.antt =====
-- The rewards for participation: core/economics/pop/pop.go, with the fee pools
-- (internal/reservestorage/fees.go), the participants (pop.go) and the scores (pop_scores.go) that it
-- reads. Iteration over the keys of a prefix (goleveldb) and encoding/json are parameters. A panic of
-- `Uint64` on a value of fewer than eight bytes is kept; a read error counts as a missing key.
pub mod Shares
pub mod Payments
pub mod Epoch
use reserve_os.Base.{
  ℕ, ◌+◌, ◌%◌, Bool, true, false, not, ◌||◌, if◌then◌else◌, List, [], ◌∷◌, ◌++◌, map, Option, none,
  some, Bytes, codes, bytes_eq, ltb, leb, ◌==◌, add64, sub64, mul64, sdiv, slt, nonpos, be_bytes,
  Outcome, ok, err, panic, ◌>>=◌,
}
use reserve_os.State.{or_fault, Kv, Scan, ignoring, read_uint64, add_balance}

pub record PopParams : Type 0 where
  pub epoch_blocks : ℕ
  pub min_payout : ℕ

abbrev pub default_pop_params : PopParams
default_pop_params = record { epoch_blocks = 50; min_payout = 100 }

pub record Participant : Type 0 where
  pub id : Bytes
  pub weight : ℕ
  pub added_at : ℕ

pub record ParticipantJson : Type 0 where
  pub marshal : Participant → Outcome Bytes
  pub unmarshal : Bytes → Outcome Participant

abbrev pub key_participant : Bytes → Bytes
key_participant id = codes "pop:participant:" ++ id

abbrev pub key_score : Bytes → Bytes
key_score id = codes "pop:score:" ++ id

abbrev pub pop_account : Bytes → Bytes
pop_account id = codes "pop:" ++ id

abbrev pub pool_validators : Bytes
pool_validators = codes "fees:pool:validators"

abbrev pub pool_participation : Bytes
pool_participation = codes "fees:pool:participation"

abbrev pub pool_treasury : Bytes
pool_treasury = codes "fees:pool:treasury"

abbrev pub pool_defense : Bytes
pool_defense = codes "fees:pool:defense"

-- The key that `SetFeePool` writes.
unfoldable pub pool_key : Bytes → Option Bytes
pool_key name =
    if bytes_eq name (codes "validators")
    then some pool_validators
    else if bytes_eq name (codes "participation")
    then some pool_participation
    else if bytes_eq name (codes "treasury")
    then some pool_treasury
    else if bytes_eq name (codes "defense")
    then some pool_defense
    else none

-- `_ = f(db)` where `f` can panic.
abbrev pub attempt : {D : Type 0} → D → Outcome D → Outcome D
attempt db (ok next) = ok next
attempt db (err e) = ok db
attempt db panic = panic

-- An error of the read is a missing key.
abbrev pub or_missing : Outcome (Option Bytes) → Outcome (ℕ × Bool)
or_missing (ok v) = read_uint64 v
or_missing (err e) = ok (0, false)
or_missing panic = panic

-- A pool's entry of the map that `GetFeePools` gives, where its key is there.
abbrev pub pool_entry : Bytes → ℕ × Bool → List (Bytes × ℕ) → List (Bytes × ℕ)
pool_entry name (v, found) pools = if found then (name, v) ∷ pools else pools

-- `pools[name]`
abbrev pub pool_of : Bytes → List (Bytes × ℕ) → ℕ
pool_of name [] = 0
pool_of name ((key, v) ∷ pools) = if bytes_eq name key then v else pool_of name pools

-- What a distribution leaves: the database, the amount that it returns, and its error.
pub record Distribution (kv : Kv) : Type 0 where
  pub db : kv.Db
  pub paid : ℕ
  pub failure : Option Bytes

-- The payments under way.
pub record Paying (kv : Kv) : Type 0 where
  pub db : kv.Db
  pub remaining : ℕ
  pub failure : Option Bytes

-- The amount to take from a pool that holds `cur`: all of it for 0 and for more than there is.
abbrev pub drained_of : ℕ → ℕ → ℕ
drained_of cur amount = if amount == 0 || ltb cur amount then cur else amount

-- The weight that counts: the score, and the participant's own weight where there is none.
abbrev pub effective : ℕ → ℕ → ℕ
effective score own = if nonpos score then own else score

unfoldable pub total_of : List (Participant × ℕ) → ℕ → ℕ
total_of [] total = total
total_of ((p, w) ∷ pairs) total = total_of pairs (add64 total w)

-- `i == len(parts)-1`
abbrev pub is_last : List (Participant × ℕ) → Bool
is_last [] = true
is_last (x ∷ xs) = false

module _ (kv : Kv) where
  unfoldable pub get_u64 : kv.Db → Bytes → Outcome (ℕ × Bool)
  get_u64 db key = or_missing (kv.get db key)

  unfoldable pub add_u64 : kv.Db → Bytes → ℕ → Outcome kv.Db
  add_u64 db key add = get_u64 db key >>= λ cur. kv.put db key (be_bytes 8 (add64 cur.0 add))

  unfoldable pub add_pool : Bytes → ℕ → kv.Db → Outcome kv.Db
  add_pool key amount db = if ltb 0 amount then attempt db (add_u64 db key amount) else ok db

  unfoldable pub add_fee_pools : kv.Db → ℕ → ℕ → ℕ → ℕ → Outcome kv.Db
  add_fee_pools db v pop tr defense = do
    after_v ← add_pool pool_validators v db
    after_pop ← add_pool pool_participation pop after_v
    after_tr ← add_pool pool_treasury tr after_pop
    add_pool pool_defense defense after_tr

  unfoldable pub get_fee_pools : kv.Db → Outcome (List (Bytes × ℕ))
  get_fee_pools db = do
    v ← get_u64 db pool_validators
    pop ← get_u64 db pool_participation
    tr ← get_u64 db pool_treasury
    defense ← get_u64 db pool_defense
    ok (
        pool_entry (codes "validators") v (
          pool_entry (codes "participation") pop
            (pool_entry (codes "treasury") tr (pool_entry (codes "defense") defense []))))

  unfoldable pub set_fee_pool : kv.Db → Bytes → ℕ → Outcome kv.Db
  set_fee_pool db name value = elim (pool_key name) [
    | none ↦ ok db
    | some key ↦ kv.put db key (be_bytes 8 value)
  ]

  -- The database, what was drained and what remains.
  unfoldable pub drain_fee_pool : kv.Db → Bytes → ℕ → Outcome (kv.Db × (ℕ × ℕ))
  drain_fee_pool db name amount = get_fee_pools db >>= λ pools.
      let cur = pool_of name pools in
      if cur == 0
      then ok (db, (0, 0))
      else (set_fee_pool db name (sub64 cur (drained_of cur amount)) >>= λ next.
          ok (next, (drained_of cur amount, sub64 cur (drained_of cur amount))))

  -- A score that cannot be read is 0.
  unfoldable pub get_score : kv.Db → Bytes → Outcome (ℕ × Bool)
  get_score db id = get_u64 db (key_score id)

  unfoldable pub add_score : kv.Db → Bytes → ℕ → Outcome kv.Db
  add_score db id delta =
      get_score db id >>= λ cur. kv.put db (key_score id) (be_bytes 8 (add64 cur.0 delta))

  unfoldable pub weight_of : kv.Db → Participant → Outcome ℕ
  weight_of db p =
      if nonpos p.weight then ok 0 else (get_score db p.id >>= λ sc. ok (effective sc.0 p.weight))

  unfoldable pub weights_of : kv.Db → List Participant → Outcome (List (Participant × ℕ))
  weights_of db [] = ok []
  weights_of db (p ∷ ps) = do w ← weight_of db p; rest ← weights_of db ps; ok ((p, w) ∷ rest)

  -- `AddBalance` after `remaining -= share`.
  abbrev pub paid_to : kv.Db → ℕ → Outcome (kv.Db × ℕ) → Outcome (Paying kv)
  paid_to db left (ok (next, sum)) = ok (record { db = next; remaining = left; failure = none })
  paid_to db left (err m) = ok (record { db = db; remaining = left; failure = some m })
  paid_to db left panic = panic

  unfoldable pub pay_one : ℕ → ℕ → Bool → Participant → ℕ → kv.Db → ℕ → Outcome (Paying kv)
  pay_one drain total last p w db remaining =
      let share = if last then remaining else sdiv (mul64 drain w) total in
      if nonpos p.weight || nonpos share
      then ok (record { db = db; remaining = remaining; failure = none })
      else paid_to db (sub64 remaining share) (add_balance kv db (pop_account p.id) share)

  unfoldable pub pay_all : ℕ → ℕ → List (Participant × ℕ) → kv.Db → ℕ → Outcome (Paying kv)
  pay_all drain total [] db remaining =
      ok (record { db = db; remaining = remaining; failure = none })
  pay_all drain total ((p, w) ∷ pairs) db remaining =
      pay_one drain total (is_last pairs) p w db remaining >>= λ st. elim (st.failure) [
        | some m ↦ ok st
        | none ↦ pay_all drain total pairs st.db st.remaining
      ]

  -- `_ = SetFeePool(db, "participation", drain)`, with nothing paid.
  unfoldable pub put_back : kv.Db → ℕ → Outcome (Distribution kv)
  put_back db drain = ok (record {
    db = ignoring db (set_fee_pool db (codes "participation") drain);
    paid = 0;
    failure = none;
  })

  module _ (json : ParticipantJson) where
    unfoldable pub put_participant : kv.Db → Participant → Outcome kv.Db
    put_participant db p = json.marshal p >>= λ b. kv.put db (key_participant p.id) b

    unfoldable pub get_participant : kv.Db → Bytes → Outcome (Option Participant)
    get_participant db id = kv.get db (key_participant id) >>= λ v. elim v [
      | none ↦ ok none
      | some b ↦ json.unmarshal b >>= λ p. ok (some p)
    ]

  module _ (scan : Scan kv) where
    unfoldable pub reset_scores : kv.Db → Outcome kv.Db
    reset_scores db = scan.delete_all db (map (λ e. e.0) (scan.entries db (codes "pop:score:")))

    abbrev pub finished : ℕ → Paying kv → Distribution kv
    finished drain st = elim (st.failure) [
      | some m ↦ record { db = st.db; paid = sub64 drain st.remaining; failure = some m }
      | none ↦ record { db = ignoring st.db (reset_scores st.db); paid = drain; failure = none }
    ]

    module _ (json : ParticipantJson) where
      -- The loop, with the number of participants that it has.
      unfoldable pub collect : ℕ → ℕ → List (Bytes × Bytes) → Outcome (List Participant)
      collect limit n [] = ok []
      collect limit n ((k, v) ∷ es) = json.unmarshal v >>= λ p. elim (leb limit (n + 1)) [
        | true ↦ ok (p ∷ [])
        | false ↦ collect limit (n + 1) es >>= λ rest. ok (p ∷ rest)
      ]

      unfoldable pub list_participants : kv.Db → ℕ → Outcome (List Participant)
      list_participants db limit =
          collect (if nonpos limit || slt 5000 limit then 5000 else limit) 0
            (scan.entries db (codes "pop:participant:"))
          >>= or_fault (scan.fault db (codes "pop:participant:"))

      unfoldable pub share_out : kv.Db → ℕ → List (Participant × ℕ) → Outcome (Distribution kv)
      share_out db drain pairs =
          if nonpos (total_of pairs 0)
          then put_back db drain
          else (pay_all drain (total_of pairs 0) pairs db drain >>= λ st. ok (finished drain st))

      abbrev pub with_participants :
          kv.Db → ℕ → Outcome (List Participant) → Outcome (Distribution kv)
      with_participants db drain (ok []) = put_back db drain
      with_participants db drain (ok (p ∷ ps)) = weights_of db (p ∷ ps) >>= share_out db drain
      with_participants db drain (err m) = ok (record { db = db; paid = 0; failure = some m })
      with_participants db drain panic = panic

      -- The second `DrainFeePool` of the branch with too little drops what it gives.
      abbrev pub too_little : kv.Db → ℕ → Outcome (Distribution kv)
      too_little db drain =
          attempt db (drain_fee_pool db (codes "participation") 0 >>= λ r. ok r.0) >>= λ next.
          put_back next drain

      abbrev pub after_drain : ℕ → kv.Db → Outcome (kv.Db × (ℕ × ℕ)) → Outcome (Distribution kv)
      after_drain min_payout db (ok (next, (drain, rest))) =
          if ltb drain min_payout
          then too_little next drain
          else with_participants next drain (list_participants next 5000)
      after_drain min_payout db (err m) = ok (record { db = db; paid = 0; failure = some m })
      after_drain min_payout db panic = panic

      unfoldable pub distribute_if_epoch : kv.Db → ℕ → PopParams → Outcome (Distribution kv)
      distribute_if_epoch db height given =
          let params = if given.epoch_blocks == 0 then default_pop_params else given in
          if height == 0 || not (height % params.epoch_blocks == 0)
          then ok (record { db = db; paid = 0; failure = none })
          else after_drain params.min_payout db (drain_fee_pool db (codes "participation") 0)
