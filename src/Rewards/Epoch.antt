-- ===== src/Rewards/Epoch.antt =====
-- The distribution at the end of an epoch: `DistributeIfEpoch` of core/economics/pop/pop.go.
use reserve_os.Base.{
  ℕ, ◌+◌, ◌%◌, ◌^◌, ◌≤◌, ◌<◌, ◌≡◌, ◌∙◌, refl, true, false, List, [], ◌∷◌, none, arith, Bytes, ltb,
  ◌==◌, add64, sub64, be_bytes, nonpos, IsNonneg, codes, ok,
}
use reserve_os.Node.Sim.{Sim}
use reserve_os.State.{Scan, Kv, GetPut, ignoring}
use reserve_os.State.Store.{Represents, IsWritable, put_other}
use reserve_os.Rewards.{
  Participant, PopParams, ParticipantJson, total_of, weights_of, list_participants, drain_fee_pool,
  share_out, pay_all, finished, Paying, reset_scores, distribute_if_epoch, get_fee_pools, pool_of,
  pool_participation, set_fee_pool, pool_key,
}
use reserve_os.Rewards.Shares.{
  pays, amounts, credit_all, weight_sum, last_counts, HasSpace, FitWeights, amounts-pays,
}
use reserve_os.Rewards.Payments.{pay_all-Represents}

total_of-eq :
    (pairs : List (Participant × ℕ)) (t : ℕ)
    → t + weight_sum pairs < 2 ^ 63
    → total_of pairs t ≡ t + weight_sum pairs
unfolding total_of weight_sum
total_of-eq [] t h = omega arith
total_of-eq ((p, w) ∷ pairs) t h =
    let exact : add64 t w ≡ t + w = omega arith in
    let rest = total_of-eq pairs (t + w) (omega arith) in rw exact (omega (arith, rest))

drain-all :
    (kv : Kv) (db mid : kv.Db) (pools : List (Bytes × ℕ)) (d : ℕ)
    → get_fee_pools kv db ≡ ok pools
    → pool_of (codes "participation") pools ≡ d
    → 0 < d
    → IsNonneg d
    → kv.put db pool_participation (be_bytes 8 0) ≡ ok mid
    → drain_fee_pool kv db (codes "participation") 0 ≡ ok (mid, (d, 0))
unfolding drain_fee_pool set_fee_pool pool_key
drain-all kv db mid pools d got is pos fits put =
    let some_left : (d == 0) ≡ false = ground arith in
    let nothing : sub64 d d ≡ 0 = omega arith in rw (got, is, some_left, nothing, put) refl

module _ (kv : Kv) (law : GetPut kv) (writes : IsWritable kv) (scan : Scan kv)
    (json : ParticipantJson) where
  share_out-eq :
      (mid : kv.Db) (d t : ℕ) (pairs : List (Participant × ℕ)) (st : Paying kv)
      → total_of pairs 0 ≡ t
      → nonpos t ≡ false
      → pay_all kv d t pairs mid d ≡ ok st
      → share_out kv scan json mid d pairs ≡ ok (finished kv scan d st)
  unfolding share_out
  share_out-eq mid d t pairs st total counts paid = rw (total, counts, paid) refl

  share_out-pays :
      (mid : kv.Db) (d : ℕ) (pairs : List (Participant × ℕ)) (s : Sim)
      → Represents kv mid s
      → HasSpace s d
      → FitWeights d pairs
      → 0 < weight_sum pairs
      → weight_sum pairs < 2 ^ 63
      → (next : kv.Db) × (share_out kv scan json mid d pairs
          ≡ ok
              (record { db = ignoring next (reset_scores kv scan next); paid = d; failure = none }))
        × Represents kv next (credit_all (pays d (weight_sum pairs) pairs d) s)
  share_out-pays mid d pairs s rep space fits pos small =
      let total : total_of pairs 0 ≡ weight_sum pairs =
        total_of-eq pairs 0 (omega arith) ∙ omega arith in
      let counts : nonpos (weight_sum pairs) ≡ false = ground arith in
      let (next, left, paid, held) =
        pay_all-Represents kv law writes d (weight_sum pairs) pairs d mid s rep space pos fits
          (omega arith) in
      (next, share_out-eq mid d (weight_sum pairs) pairs _ total counts paid, held)

  -- At an epoch's end, where the participation pool holds at least the smallest payout, the weights add
  -- up to a positive int64, the product of the pool and each weight and the sum of the pool and each
  -- balance fit an int64, and the last participant's weight is positive: the distribution
  -- ends without an error and reports the whole pool as paid, each participant's account is credited
  -- with its share, and the credits add up to the pool exactly. The scores are reset on the database
  -- that holds these balances.
  pub distribute_if_epoch-pays :
      (db mid : kv.Db) (height : ℕ) (params : PopParams) (pools : List (Bytes × ℕ)) (d : ℕ)
      (p : Participant) (ps : List Participant) (pairs : List (Participant × ℕ)) (s : Sim)
      → (params.epoch_blocks == 0) ≡ false
      → (height == 0) ≡ false
      → (height % params.epoch_blocks == 0) ≡ true
      → get_fee_pools kv db ≡ ok pools
      → pool_of (codes "participation") pools ≡ d
      → 0 < d
      → params.min_payout ≤ d
      → kv.put db pool_participation (be_bytes 8 0) ≡ ok mid
      → list_participants kv scan json mid 5000 ≡ ok (p ∷ ps)
      → weights_of kv mid (p ∷ ps) ≡ ok pairs
      → Represents kv db s
      → HasSpace s d
      → FitWeights d pairs
      → 0 < weight_sum pairs
      → weight_sum pairs < 2 ^ 63
      → last_counts pairs ≡ true
      → (next : kv.Db) × (distribute_if_epoch kv scan json db height params
          ≡ ok
              (record { db = ignoring next (reset_scores kv scan next); paid = d; failure = none }))
        × Represents kv next (credit_all (pays d (weight_sum pairs) pairs d) s)
        × (amounts (pays d (weight_sum pairs) pairs d) ≡ d)
  unfolding distribute_if_epoch
  distribute_if_epoch-pays db mid height params pools d p ps pairs s epoch high ends got is pos
        least put listed weighed rep space fits heavy small last =
      let small_pool : s.bal [] + d < 2 ^ 63 = unfold HasSpace in space [] in
      let after =
        put_other kv law writes db mid pool_participation (be_bytes 8 0) s rep (λ id. refl)
          (λ id. refl) put in
      let (next, shared, held) = share_out-pays mid d pairs s after space fits heavy small in
      let drained = drain-all kv db mid pools d got is pos (omega arith) put in
      let enough : ltb d params.min_payout ≡ false = ground arith in
      (
        next,
        rw (epoch, high, ends, drained, enough, listed, weighed) shared,
        held,
        amounts-pays d (weight_sum pairs) pairs d heavy (omega arith) last,
      )
