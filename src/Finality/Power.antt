-- ===== src/Finality/Power.antt =====
-- Voting power as plain sums, and what the wrapped sums of `TryFinalizeHeight`
-- (core/node/finality_weighted.go) make of them.
use reserve_os.Base.{
  ℕ, ◌≡◌, ◌+◌, ◌≤◌, ◌<◌, ◌^◌, refl, ap, true, false, if◌then◌else◌, arith, List, [], ◌∷◌, Bytes,
  bytes_eq, bytes_eq→eq, bytes_eq_self, Bool-cases, inl, inr, add64, nonpos, IsNonneg, count, map,
}
use reserve_os.Finality.{
  Registered, VoteRecord, weigh, skipped, weight_by_pub, total_active_from, tally, tally_keys,
  contains,
}

-- What the registry's active validators weigh together.
unfoldable pub active_power : List Registered → ℕ
active_power [] = 0
active_power (v ∷ vs) = (if skipped v then 0 else v.weight) + active_power vs

-- What the voters weigh together, and those who vote for a hash.
pub vote_power : (Bytes → ℕ) → List VoteRecord → ℕ
vote_power w [] = 0
vote_power w (vr ∷ vrs) = w vr.pubkey_hex + vote_power w vrs

pub power_for : (Bytes → ℕ) → Bytes → List VoteRecord → ℕ
power_for w h [] = 0
power_for w h (vr ∷ vrs) =
    (if bytes_eq vr.block_hash h then w vr.pubkey_hex else 0) + power_for w h vrs

-- Two hashes share no vote.
pub power_for-disjoint :
    (w : Bytes → ℕ) (h k : Bytes) (vrs : List VoteRecord)
    → bytes_eq h k ≡ false
    → power_for w h vrs + power_for w k vrs ≤ vote_power w vrs
unfolding power_for vote_power
power_for-disjoint w h k [] e = omega arith
power_for-disjoint w h k (vr ∷ vrs) e =
    let rest = power_for-disjoint w h k vrs e in
    elim (Bool-cases (bytes_eq vr.block_hash h)) [
      | inl here ↦
          let away : bytes_eq vr.block_hash k ≡ false = rw (bytes_eq→eq vr.block_hash h here) e in
          rw (here, away) (omega (arith, rest))
      | inr there ↦ rw there (ground (arith, rest))
    ]

pub power_for-le :
    (w : Bytes → ℕ) (h : Bytes) (vrs : List VoteRecord) → power_for w h vrs ≤ vote_power w vrs
unfolding power_for vote_power
power_for-le w h [] = omega arith
power_for-le w h (vr ∷ vrs) = ground (arith, power_for-le w h vrs)

-- Each key votes at most once.
unfoldable pub IsOneVoteEach : List VoteRecord → Type 0
IsOneVoteEach vrs = (k : Bytes) → count k (map (λ vr. vr.pubkey_hex) vrs) ≤ 1

-- A new weight for a key adds at most that weight, as the key votes at most once.
vote_power-weigh_absent :
    (w : Bytes → ℕ) (k : Bytes) (v : ℕ) (vrs : List VoteRecord)
    → count k (map (λ vr. vr.pubkey_hex) vrs) ≡ 0
    → vote_power (weigh w k v) vrs ≡ vote_power w vrs
unfolding vote_power
vote_power-weigh_absent w k v [] e = refl
vote_power-weigh_absent w k v (vr ∷ vrs) e = elim (Bool-cases (bytes_eq k vr.pubkey_hex)) [
  | inl here ↦ ground arith
  | inr there ↦ rw there (omega (arith, vote_power-weigh_absent w k v vrs (ground arith)))
]

vote_power-weigh :
    (w : Bytes → ℕ) (k : Bytes) (v : ℕ) (vrs : List VoteRecord)
    → count k (map (λ vr. vr.pubkey_hex) vrs) ≤ 1
    → vote_power (weigh w k v) vrs ≤ vote_power w vrs + v
unfolding vote_power
vote_power-weigh w k v [] e = omega arith
vote_power-weigh w k v (vr ∷ vrs) e = elim (Bool-cases (bytes_eq k vr.pubkey_hex)) [
  | inl here ↦ rw here (omega (arith, vote_power-weigh_absent w k v vrs (ground arith)))
  | inr there ↦ rw there (omega (arith, vote_power-weigh w k v vrs (ground arith)))
]

vote_power_none : (vrs : List VoteRecord) → vote_power (λ _. 0) vrs ≡ 0
unfolding vote_power
vote_power_none [] = refl
vote_power_none (vr ∷ vrs) = omega (arith, vote_power_none vrs)

vote_power-weight_by_pub :
    (w : Bytes → ℕ) (vals : List Registered) (vrs : List VoteRecord)
    → IsOneVoteEach vrs
    → vote_power (weight_by_pub w vals) vrs ≤ vote_power w vrs + active_power vals
unfolding weight_by_pub active_power IsOneVoteEach
vote_power-weight_by_pub w [] vrs once = omega arith
vote_power-weight_by_pub w (v ∷ vals) vrs once = elim (Bool-cases (skipped v)) [
  | inl skip ↦ rw skip (omega (arith, vote_power-weight_by_pub w vals vrs once))
  | inr active ↦ rw active (
      omega (
        arith,
        vote_power-weight_by_pub (weigh w v.pubkey_hex v.weight) vals vrs once,
        vote_power-weigh w v.pubkey_hex v.weight vrs (once v.pubkey_hex),
      ))
]

-- The voters weigh no more together than the active validators.
pub vote_power-le-active_power :
    (vals : List Registered) (vrs : List VoteRecord)
    → IsOneVoteEach vrs
    → vote_power (weight_by_pub (λ _. 0) vals) vrs ≤ active_power vals
vote_power-le-active_power vals vrs once =
    omega (arith, vote_power-weight_by_pub (λ _. 0) vals vrs once, vote_power_none vrs)

pub total_active_from-eq :
    (t : ℕ) (vals : List Registered)
    → t + active_power vals < 2 ^ 63
    → total_active_from t vals ≡ t + active_power vals
unfolding total_active_from active_power
total_active_from-eq t [] h = omega arith
total_active_from-eq t (v ∷ vals) h = elim (Bool-cases (skipped v)) [
  | inl skip ↦ rw skip (omega (arith, total_active_from-eq t vals (ground arith)))
  | inr active ↦
      let fits : t + (v.weight + active_power vals) < 2 ^ 63 = ground arith in
      let exact : add64 t v.weight ≡ t + v.weight = omega arith in
      rw (active, exact) (omega (arith, total_active_from-eq (t + v.weight) vals (omega arith)))
]

tally-vote :
    (w f : Bytes → ℕ) (h : Bytes) (vr : VoteRecord)
    → f h + (if bytes_eq vr.block_hash h then w vr.pubkey_hex else 0) < 2 ^ 63
    → (if nonpos (w vr.pubkey_hex)
          then f
          else weigh f vr.block_hash (add64 (f vr.block_hash) (w vr.pubkey_hex)))
        h
      ≡ f h + (if bytes_eq vr.block_hash h then w vr.pubkey_hex else 0)
tally-vote w f h vr fits = elim (Bool-cases (bytes_eq vr.block_hash h)) [
  | inr other ↦ rw other (ground arith)
  | inl here ↦ let at = ap f (bytes_eq→eq vr.block_hash h here) in rw here (ground (arith, at))
]

-- The tally of a hash is the power of those who vote for it.
pub tally-eq :
    (w f : Bytes → ℕ) (h : Bytes) (vrs : List VoteRecord)
    → f h + power_for w h vrs < 2 ^ 63
    → tally w f vrs h ≡ f h + power_for w h vrs
unfolding tally power_for
tally-eq w f h [] e = omega arith
tally-eq w f h (vr ∷ vrs) e =
    let now = tally-vote w f h vr (omega arith) in
    let later =
      tally-eq w
        (if nonpos (w vr.pubkey_hex)
          then f
          else weigh f vr.block_hash (add64 (f vr.block_hash) (w vr.pubkey_hex)))
        h vrs (omega (arith, now)) in
    omega (arith, now, later)

-- A hash that some power votes for is a key of the tally.
pub tally_keys-contains :
    (w : Bytes → ℕ) (h : Bytes) (vrs : List VoteRecord)
    → 0 < power_for w h vrs
    → IsNonneg (power_for w h vrs)
    → contains h (tally_keys w vrs) ≡ true
unfolding power_for tally_keys contains
tally_keys-contains w h [] p n = ground arith
tally_keys-contains w h (vr ∷ vrs) p n =
    let rest = tally_keys-contains w h vrs in
    elim (Bool-cases (bytes_eq vr.block_hash h)) [
      | inl here ↦
          let at = bytes_eq→eq vr.block_hash h here in rw at (ground (arith, rest, bytes_eq_self h))
      | inr there ↦ ground (arith, rest)
    ]
