-- ===== src/Finality/Registry.antt =====
-- `tryFinalizeHeight` (core/node/node.go) over the registry: its inner loop adds every active weight
-- to the total once for each vote that it counts.
use native.Mathlib.Nat.{
  add-mul, mul_assoc, mul-le-mul_right, mul-le-mul_left, mul-lt-mul_of_pos_left,
  le-mul_of_pos_right, one-mul, zero-mul, mul-zero,
}
use reserve_os.Base.{
  ℕ, zero, suc, ◌≡◌, ◌+◌, ◌*◌, ◌≤◌, ◌<◌, ◌^◌, refl, ◌∙◌, ap, false, not, ◌&&◌, if◌then◌else◌, arith,
  List, [], ◌∷◌, Bytes, bytes_eq, bytes_eq_comm, Bool-cases, inl, inr, count, map, ◌==◌, All,
}
use reserve_os.Crypto.{Primitives}
use reserve_os.Finality.{
  Registered, Validator, VoteRecord, signs, add_registered, registry_vote, count_vote, count_votes,
  other_vote, votes_suffice, reached_threshold,
}

-- What the validators that are not slashed weigh together.
unfoldable pub unslashed_power : List Registered → ℕ
unslashed_power [] = 0
unslashed_power (v ∷ vs) = (if v.slashed then 0 else v.weight) + unslashed_power vs

pos_of_lt-mul : (a p n : ℕ) → a < p * n → 0 < n
pos_of_lt-mul a p zero h = absurd (omega (arith, mul-zero p))
pos_of_lt-mul a p (suc n) h = omega arith

-- The sums of `m` votes fall short of the threshold.
sums_short :
    (m power most num den total signed : ℕ)
    → total ≡ m * power
    → signed ≤ m * most
    → most * den < power * num
    → m * (power * num) < 2 ^ 63
    → (not (total == 0) && reached_threshold signed total num den) ≡ false
unfolding reached_threshold
sums_short m power most num den total signed t s less fits = elim (Bool-cases (total == 0)) [
  | inl none_voted ↦ rw none_voted
  | inr voted ↦
      let some_vote : 0 < m = elim (Bool-cases (m == 0)) [
        | inl nobody ↦
            let zero_votes : m ≡ 0 = ground arith in
            absurd (ground (arith, ap (λ n. n * power) zero_votes, zero-mul power))
        | inr somebody ↦ ground arith
      ] in
      let all = ap (λ n. n * num) t ∙ mul_assoc m power num in
      let part = mul-le-mul_right den s in
      let cut = mul_assoc m most den in
      let below = mul-lt-mul_of_pos_left {n = power * num} less some_vote in
      ground (arith, all, part, cut, below)
]

module _ (prim : Primitives) (chain_id : Bytes) (height : ℕ) (hash_hex : Bytes) where
  -- How many votes are for the hash on this chain.
  unfoldable pub votes_for : List VoteRecord → ℕ
  votes_for [] = 0
  votes_for (vr ∷ votes) =
      (if other_vote prim chain_id height hash_hex vr then 0 else 1) + votes_for votes

  abbrev weight_of : Registered → ℕ
  weight_of v = if v.slashed then 0 else v.weight

  add_registered-total :
      (vr : VoteRecord) (v : Registered) (sums : ℕ × ℕ)
      → sums.0 + weight_of v < 2 ^ 63
      → (add_registered prim chain_id height hash_hex vr v sums).0 ≡ sums.0 + weight_of v
  unfolding add_registered
  add_registered-total vr v sums fits = elim (Bool-cases v.slashed) [
    | inl out ↦ rw out (omega arith)
    | inr active ↦ rw active (ground arith)
  ]

  add_registered-signed :
      (vr : VoteRecord) (v : Registered) (sums : ℕ × ℕ) (most : ℕ)
      → weight_of v ≤ most
      → sums.1 + most < 2 ^ 63
      → (add_registered prim chain_id height hash_hex vr v sums).1 ≤ sums.1 + most
  unfolding add_registered
  add_registered-signed vr v sums most small fits = elim (Bool-cases v.slashed) [
    | inl out ↦ rw out (omega arith)
    | inr active ↦ elim (Bool-cases (signs prim chain_id height hash_hex v.pubkey_hex vr)) [
      | inl valid ↦ rw (active, valid) (ground arith)
      | inr invalid ↦ rw (active, invalid) (ground arith)
    ]
  ]

  add_registered-other :
      (vr : VoteRecord) (v : Registered) (sums : ℕ × ℕ)
      → bytes_eq vr.pubkey_hex v.pubkey_hex ≡ false
      → (add_registered prim chain_id height hash_hex vr v sums).1 ≡ sums.1
  unfolding add_registered signs
  add_registered-other vr v sums other =
      let apart = bytes_eq_comm vr.pubkey_hex v.pubkey_hex in ground (arith, apart)

  registry_vote-total :
      (vr : VoteRecord) (vals : List Registered) (sums : ℕ × ℕ)
      → sums.0 + unslashed_power vals < 2 ^ 63
      → (registry_vote prim chain_id height hash_hex vr vals sums).0 ≡ sums.0 + unslashed_power vals
  unfolding registry_vote unslashed_power
  registry_vote-total vr [] sums fits = omega arith
  registry_vote-total vr (v ∷ vals) sums fits =
      let now = add_registered-total vr v sums (omega arith) in
      omega (
        arith,
        now,
        registry_vote-total vr vals (add_registered prim chain_id height hash_hex vr v sums)
            (omega (arith, now)),
      )

  registry_vote-other :
      (vr : VoteRecord) (vals : List Registered) (sums : ℕ × ℕ)
      → count vr.pubkey_hex (map (λ v. v.pubkey_hex) vals) ≡ 0
      → (registry_vote prim chain_id height hash_hex vr vals sums).1 ≡ sums.1
  unfolding registry_vote
  registry_vote-other vr [] sums e = refl
  registry_vote-other vr (v ∷ vals) sums e =
      elim (Bool-cases (bytes_eq vr.pubkey_hex v.pubkey_hex)) [
        | inl here ↦ ground arith
        | inr there ↦
            registry_vote-other vr vals (add_registered prim chain_id height hash_hex vr v sums)
              (ground arith)
            ∙ add_registered-other vr v sums there
      ]

  -- A vote signs for one validator at most.
  registry_vote-signed :
      (vr : VoteRecord) (vals : List Registered) (sums : ℕ × ℕ) (most : ℕ)
      → All (λ v. weight_of v ≤ most) vals
      → count vr.pubkey_hex (map (λ v. v.pubkey_hex) vals) ≤ 1
      → sums.1 + most < 2 ^ 63
      → (registry_vote prim chain_id height hash_hex vr vals sums).1 ≤ sums.1 + most
  unfolding registry_vote
  registry_vote-signed vr [] sums most small e fits = omega arith
  registry_vote-signed vr (v ∷ vals) sums most (now, later) e fits =
      elim (Bool-cases (bytes_eq vr.pubkey_hex v.pubkey_hex)) [
        | inl here ↦ omega (
          arith,
          registry_vote-other vr vals (add_registered prim chain_id height hash_hex vr v sums)
              (ground arith),
          add_registered-signed vr v sums most now fits,
        )
        | inr there ↦
            let same = add_registered-other vr v sums there in
            omega (
              arith,
              registry_vote-signed vr vals (add_registered prim chain_id height hash_hex vr v sums)
                  most later (ground arith) (omega (arith, same)),
              same,
            )
      ]

  module _ (v : Registered) (vs : List Registered) (validators : List Validator) where
    abbrev run : List VoteRecord → ℕ × ℕ → ℕ × ℕ
    run = count_votes prim chain_id height hash_hex (v ∷ vs) validators

    after : VoteRecord → ℕ × ℕ → ℕ × ℕ
    after vr sums =
        if other_vote prim chain_id height hash_hex vr
        then sums
        else count_vote prim chain_id height hash_hex (v ∷ vs) validators vr sums

    abbrev counted : VoteRecord → ℕ
    counted vr = if other_vote prim chain_id height hash_hex vr then 0 else 1

    after-total :
        (vr : VoteRecord) (sums : ℕ × ℕ)
        → sums.0 + counted vr * unslashed_power (v ∷ vs) < 2 ^ 63
        → (after vr sums).0 ≡ sums.0 + counted vr * unslashed_power (v ∷ vs)
    unfolding after count_vote
    after-total vr sums fits = elim (Bool-cases (other_vote prim chain_id height hash_hex vr)) [
      | inl other ↦ rw other (omega (arith, zero-mul (unslashed_power (v ∷ vs))))
      | inr counts ↦
          let once = one-mul (unslashed_power (v ∷ vs)) in
          rw counts
            (omega (arith, once, registry_vote-total vr (v ∷ vs) sums (ground (arith, once))))
    ]

    after-signed :
        (vr : VoteRecord) (sums : ℕ × ℕ) (most : ℕ)
        → All (λ u. weight_of u ≤ most) (v ∷ vs)
        → count vr.pubkey_hex (map (λ u. u.pubkey_hex) (v ∷ vs)) ≤ 1
        → sums.1 + counted vr * most < 2 ^ 63
        → (after vr sums).1 ≤ sums.1 + counted vr * most
    unfolding after count_vote
    after-signed vr sums most small e fits =
        elim (Bool-cases (other_vote prim chain_id height hash_hex vr)) [
          | inl other ↦ rw other (omega (arith, zero-mul most))
          | inr counts ↦
              let once = one-mul most in
              rw counts (
                omega (
                  arith,
                  once,
                  registry_vote-signed vr (v ∷ vs) sums most small e (ground (arith, once)),
                ))
        ]

    count_votes-total :
        (votes : List VoteRecord) (sums : ℕ × ℕ)
        → sums.0 + votes_for votes * unslashed_power (v ∷ vs) < 2 ^ 63
        → (run votes sums).0 ≡ sums.0 + votes_for votes * unslashed_power (v ∷ vs)
    unfolding count_votes votes_for after
    count_votes-total [] sums fits = omega (arith, zero-mul (unslashed_power (v ∷ vs)))
    count_votes-total (vr ∷ votes) sums fits =
        let split = add-mul (counted vr) (votes_for votes) (unslashed_power (v ∷ vs)) in
        let now = after-total vr sums (omega (arith, split)) in
        omega
          (arith, split, now, count_votes-total votes (after vr sums) (omega (arith, split, now)))

    count_votes-signed :
        (votes : List VoteRecord) (sums : ℕ × ℕ) (most : ℕ)
        → All (λ u. weight_of u ≤ most) (v ∷ vs)
        → ((k : Bytes) → count k (map (λ u. u.pubkey_hex) (v ∷ vs)) ≤ 1)
        → sums.1 + votes_for votes * most < 2 ^ 63
        → (run votes sums).1 ≤ sums.1 + votes_for votes * most
    unfolding count_votes votes_for after
    count_votes-signed [] sums most small once fits = omega (arith, zero-mul most)
    count_votes-signed (vr ∷ votes) sums most small once fits =
        let split = add-mul (counted vr) (votes_for votes) most in
        let now = after-signed vr sums most small (once vr.pubkey_hex) (omega (arith, split)) in
        omega (
          arith,
          split,
          now,
          count_votes-signed votes (after vr sums) most small once (omega (arith, split, now)),
        )

    -- With a registry whose keys are distinct and in which no validator alone meets the threshold,
    -- `tryFinalizeHeight` finalizes nothing, whichever votes are stored: the total has every active
    -- weight once per counted vote. The sums are taken not to overflow.
    pub registry_threshold_unreachable :
        (votes : List VoteRecord) (num den most : ℕ)
        → All (λ u. weight_of u ≤ most) (v ∷ vs)
        → ((k : Bytes) → count k (map (λ u. u.pubkey_hex) (v ∷ vs)) ≤ 1)
        → most ≤ unslashed_power (v ∷ vs)
        → most * den < unslashed_power (v ∷ vs) * num
        → votes_for votes * (unslashed_power (v ∷ vs) * num) < 2 ^ 63
        → votes_suffice prim chain_id height hash_hex num den (v ∷ vs) validators votes ≡ false
    unfolding votes_suffice
    registry_threshold_unreachable votes num den most small once below less fits =
        let some_num : 0 < num = pos_of_lt-mul _ _ num less in
        let scale =
          mul-le-mul_left (votes_for votes)
            (le-mul_of_pos_right (unslashed_power (v ∷ vs)) some_num) in
        let room = mul-le-mul_left (votes_for votes) below in
        sums_short (votes_for votes) (unslashed_power (v ∷ vs)) most num den _ _
          (omega (arith, count_votes-total votes (0, 0) (omega (arith, scale))))
          (omega
            (arith, count_votes-signed votes (0, 0) most small once (omega (arith, scale, room))))
          less fits
