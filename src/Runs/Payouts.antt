-- ===== src/Runs/Payouts.antt =====
-- A run of the rewards for participation, on a database of functions.
use reserve_os.Base.{
  ◌≡◌, refl, true, arith, [], ◌∷◌, List, ℕ, Option, none, Bytes, codes, be_bytes, ok, err, be_acc,
  be_value, bytes_eq,
}
use reserve_os.State.{Scan, ignoring, read_uint64, uint64_be}
use reserve_os.State.Store.{Represents, put_other}
use reserve_os.Rewards.{
  Participant, ParticipantJson, default_pop_params, pool_participation, pop_account, get_u64,
  get_fee_pools, collect, list_participants, weight_of, weights_of, get_score, reset_scores,
  distribute_if_epoch,
}
use reserve_os.Rewards.Shares.{pays, amounts, credit_all, weight_sum, last_counts, HasSpace}
use reserve_os.Rewards.Epoch.{distribute_if_epoch-pays}
use reserve_os.Runs.Data.{alice, bob}
use reserve_os.Runs.Store.{
  functions, functions-GetPut, functions-IsWritable, store, database, database-Represents, ledger,
  either-le,
}

abbrev first : Participant
first = record { id = alice; weight = 3; added_at = 1 }

abbrev second : Participant
second = record { id = bob; weight = 1; added_at = 2 }

abbrev scan : Scan functions
scan = record {
  entries = λ db prefix. ([], []) ∷ ([], 2 ∷ []) ∷ [];
  fault = λ db prefix. none;
  delete_all = λ db ks. ok db;
  delete = λ db k. ok db;
}

abbrev one_byte : Bytes → Participant
one_byte [] = first
one_byte (x ∷ b) = second

abbrev json : ParticipantJson
json = record { marshal = λ p. err []; unmarshal = λ b. ok (one_byte b) }

abbrev pooled : Bytes → Option Bytes
pooled = store database pool_participation (be_bytes 8 101)

pooled-Represents : Represents functions pooled ledger
pooled-Represents =
    put_other functions functions-GetPut functions-IsWritable database pooled pool_participation
      (be_bytes 8 101) ledger database-Represents (λ id. refl) (λ id. refl) refl

abbrev drained : Bytes → Option Bytes
drained = store pooled pool_participation (be_bytes 8 0)

abbrev weighed : List (Participant × ℕ)
weighed = (first, 3) ∷ (second, 1) ∷ []

pooled-pools : get_fee_pools functions pooled ≡ ok ((codes "participation", 101) ∷ [])
unfolding get_fee_pools get_u64 read_uint64 uint64_be be_bytes be_value be_acc
pooled-pools = refl

both-listed : list_participants functions scan json drained 5000 ≡ ok (first ∷ second ∷ [])
unfolding list_participants collect
both-listed = refl

both-weighed : weights_of functions drained (first ∷ second ∷ []) ≡ ok weighed
unfolding weights_of weight_of get_score get_u64 read_uint64 uint64_be be_bytes be_value be_acc
both-weighed = refl

ledger-HasSpace : HasSpace ledger 101
unfolding HasSpace
ledger-HasSpace id = omega (arith, either-le (bytes_eq alice id) (bytes_eq bob id))

weighed-sum : weight_sum weighed ≡ 4
unfolding weight_sum
weighed-sum = refl

weighed-last : last_counts weighed ≡ true
unfolding last_counts
weighed-last = refl

-- Three quarters, rounded down, and the rest.
weighed-pays : pays 101 4 weighed 101 ≡ (pop_account alice, 75) ∷ (pop_account bob, 26) ∷ []
unfolding pays
weighed-pays = refl

distribute_if_epoch-pays_example :
    (next : Bytes → Option Bytes) × (distribute_if_epoch functions scan json pooled 100
        default_pop_params
      ≡ ok (record {
        db = ignoring next (reset_scores functions scan next);
        paid = 101;
        failure = none;
      }))
    × Represents functions next (credit_all (pays 101 (weight_sum weighed) weighed 101) ledger)
    × (amounts (pays 101 (weight_sum weighed) weighed 101) ≡ 101)
distribute_if_epoch-pays_example =
    distribute_if_epoch-pays functions functions-GetPut functions-IsWritable scan json pooled
      drained 100 default_pop_params ((codes "participation", 101) ∷ []) 101 first (second ∷ [])
      weighed ledger refl refl refl pooled-pools refl (omega arith) (omega arith) refl both-listed
      both-weighed pooled-Represents ledger-HasSpace (omega arith, (omega arith, tt))
      (omega (arith, weighed-sum)) (omega (arith, weighed-sum)) weighed-last
