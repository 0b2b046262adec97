-- ===== src/Finality/Quorum.antt =====
-- `TryFinalizeHeight` (core/node/finality_weighted.go) against the two-thirds rule it states.
use mathlib.Core.Option.{some-injective}
use reserve_os.Base.{
  ℕ, ◌≡◌, ◌*◌, ◌≤◌, ◌<◌, ◌^◌, ◌↔◌, ◌⊎◌, refl, sym, ◌∙◌, ap, Bool, true, false, ◌||◌, if◌then◌else◌,
  arith, List, [], ◌∷◌, Bytes, none, some, bytes_eq, bytes_eq→eq, Bool-cases, inl, inr, mul64, slt,
  nonpos, IsNonneg,
}
use reserve_os.Finality.{
  Registered, VoteRecord, weight_by_pub, total_active_from, tally, tally_keys, contains, heavier,
  best_from, choose,
}
use reserve_os.Finality.Power.{
  active_power, power_for, power_for-disjoint, power_for-le, IsOneVoteEach,
  vote_power-le-active_power, total_active_from-eq, tally-eq, tally_keys-contains,
}

module _ (f : Bytes → ℕ) (small : (k : Bytes) → IsNonneg (f k)) where
  heavier-ge :
      (best : Bytes × ℕ) (k : Bytes)
      → IsNonneg best.1
      → (best.1 ≤ (heavier f best k).1)
        × (f k ≤ (heavier f best k).1)
        × IsNonneg (heavier f best k).1
  unfolding heavier
  heavier-ge best k n = let m = small k in (ground arith, ground arith, ground arith)

  heavier-entry :
      (best : Bytes × ℕ) (k : Bytes) → (heavier f best k ≡ best) ⊎ (heavier f best k ≡ (k, f k))
  unfolding heavier
  heavier-entry best k = elim (Bool-cases (slt best.1 (f k))) [
    | inl lower ↦ inr (rw lower)
    | inr higher ↦ inl (rw higher)
  ]

  -- The range ends with an entry at least as heavy as every one it visits.
  best_from-ge :
      (best : Bytes × ℕ) (ks : List Bytes) → IsNonneg best.1 → best.1 ≤ (best_from f best ks).1
  unfolding best_from
  best_from-ge best [] n = omega arith
  best_from-ge best (k ∷ ks) n =
      let (up, _, m) = heavier-ge best k n in
      omega (arith, up, best_from-ge (heavier f best k) ks m)

  best_from-small :
      (best : Bytes × ℕ) (ks : List Bytes) → IsNonneg best.1 → IsNonneg (best_from f best ks).1
  unfolding best_from
  best_from-small best [] n = n
  best_from-small best (k ∷ ks) n = best_from-small (heavier f best k) ks (heavier-ge best k n).2

  best_from-all :
      (best : Bytes × ℕ) (ks : List Bytes) (h : Bytes)
      → IsNonneg best.1
      → contains h ks ≡ true
      → f h ≤ (best_from f best ks).1
  unfolding best_from contains
  best_from-all best [] h n e = cc
  best_from-all best (k ∷ ks) h n e =
      let (_, up, m) = heavier-ge best k n in
      elim (Bool-cases (bytes_eq h k)) [
        | inl here ↦
            let at = ap f (bytes_eq→eq h k here) in
            omega (arith, at, up, best_from-ge (heavier f best k) ks m)
        | inr there ↦ best_from-all (heavier f best k) ks h m (ground arith)
      ]

  -- Its hash has the weight that the tally gives it, or nothing was heavier than the start.
  best_from-entry :
      (best : Bytes × ℕ) (ks : List Bytes)
      → (best_from f best ks ≡ best) ⊎ ((best_from f best ks).1 ≡ f (best_from f best ks).0)
  unfolding best_from
  best_from-entry best [] = inl refl
  best_from-entry best (k ∷ ks) = elim (best_from-entry (heavier f best k) ks) [
    | inr entry ↦ inr entry
    | inl start ↦ elim (heavier-entry best k) [
      | inl kept ↦ inl (start ∙ kept)
      | inr moved ↦
          let last = start ∙ moved in inr (ap (λ p. p.1) last ∙ sym (ap (λ p. f p.0) last))
    ]
  ]

-- A hash has a quorum when its voters weigh two thirds of the active validators or more.
pub IsQuorum : List VoteRecord → List Registered → Bytes → Type 0
IsQuorum votes vals h =
    (0 < active_power vals)
    × (2 * active_power vals ≤ 3 * power_for (weight_by_pub (λ _. 0) vals) h votes)

chosen : (b : Bool) (x h : Bytes) → (if b then none else some x) ≡ some h → (b ≡ false) × (x ≡ h)
chosen true x h e = cc
chosen false x h e = (refl, some-injective x h e)

taken : (b : Bool) (x h : Bytes) → b ≡ false → x ≡ h → (if b then none else some x) ≡ some h
taken b x h e at = rw (e, at)

module _ (order : List Bytes → List Bytes) (votes : List VoteRecord) (vals : List Registered)
    (keeps : (ks : List Bytes) (k : Bytes) → contains k (order ks) ≡ contains k ks)
    (once : IsOneVoteEach votes) (fits : 3 * active_power vals < 2 ^ 63) where
  abbrev weights : Bytes → ℕ
  weights = weight_by_pub (λ _. 0) vals

  abbrev tallied : Bytes → ℕ
  tallied = tally weights (λ _. 0) votes

  abbrev winner : Bytes × ℕ
  winner = best_from tallied ([], 0) (order (tally_keys weights votes))

  power-le : (k : Bytes) → power_for weights k votes ≤ active_power vals
  power-le k =
      omega (arith, power_for-le weights k votes, vote_power-le-active_power vals votes once)

  tallied-eq : (k : Bytes) → tallied k ≡ power_for weights k votes
  tallied-eq k =
      omega (arith, power-le k, tally-eq weights (λ _. 0) k votes (omega (arith, power-le k)))

  tallied-small : (k : Bytes) → IsNonneg (tallied k)
  tallied-small k = omega (arith, tallied-eq k, power-le k)

  total-eq : total_active_from 0 vals ≡ active_power vals
  total-eq = omega (arith, total_active_from-eq 0 vals (omega arith))

  -- The winner's weight is the power for its hash, or zero.
  winner-power : (winner ≡ ([], 0)) ⊎ (winner.1 ≡ power_for weights winner.0 votes)
  winner-power =
      elim (best_from-entry tallied tallied-small ([], 0) (order (tally_keys weights votes))) [
        | inl start ↦ inl start
        | inr entry ↦ inr (entry ∙ tallied-eq winner.0)
      ]

  winner-le : winner.1 ≤ active_power vals
  winner-le = elim winner-power [
    | inl start ↦ omega (arith, ap (λ p. p.1) start)
    | inr entry ↦ omega (arith, entry, power-le winner.0)
  ]

  winner-ge : (h : Bytes) → 0 < power_for weights h votes → power_for weights h votes ≤ winner.1
  winner-ge h p = omega (
    arith,
    tallied-eq h,
    best_from-all tallied tallied-small ([], 0) (order (tally_keys weights votes)) h (omega arith)
        (keeps (tally_keys weights votes) h
          ∙ tally_keys-contains weights h votes p (omega (arith, power-le h))),
  )

  refuses : Bool
  refuses =
      nonpos (total_active_from 0 vals)
      || slt (mul64 winner.1 3) (mul64 (total_active_from 0 vals) 2)

  refuses_iff :
      (refuses ≡ false) ↔ ((0 < active_power vals) × (2 * active_power vals ≤ 3 * winner.1))
  unfolding refuses
  refuses_iff =
      let top = winner-le in
      let tot = total-eq in
      (λ e. (ground (arith, tot), ground (arith, tot, top)), λ e. ground (arith, tot, top))

  winner-is : (h : Bytes) → IsQuorum votes vals h → winner.0 ≡ h
  unfolding IsQuorum
  winner-is h (some_power, most) = elim (Bool-cases (bytes_eq winner.0 h)) [
    | inl same ↦ bytes_eq→eq winner.0 h same
    | inr other ↦
        let top = winner-ge h (omega arith) in
        let apart = power_for-disjoint weights winner.0 h votes other in
        let all = vote_power-le-active_power vals votes once in
        absurd (elim winner-power [
          | inl start ↦ omega (arith, ap (λ p. p.1) start, top)
          | inr entry ↦ omega (arith, entry, apart, all, top)
        ])
  ]

  refuses-IsQuorum : (h : Bytes) → IsQuorum votes vals h → refuses ≡ false
  unfolding IsQuorum
  refuses-IsQuorum h (some_power, most) =
      refuses_iff.1 (some_power, omega (arith, winner-ge h (omega arith)))

  winner-IsQuorum : (h : Bytes) → refuses ≡ false → winner.0 ≡ h → IsQuorum votes vals h
  unfolding IsQuorum
  winner-IsQuorum h e at =
      let (some_power, most) = refuses_iff.0 e in
      elim winner-power [
        | inl start ↦ absurd (omega (arith, ap (λ p. p.1) start))
        | inr entry ↦ (some_power, rw (sym at) (omega (arith, entry)))
      ]

-- Where every key votes at most once and three times the active power does not overflow, then in
-- whatever order the tally is visited, `TryFinalizeHeight` settles on a hash exactly when the votes
-- for that hash carry two thirds of the active weight or more.
pub choose_iff :
    (order : List Bytes → List Bytes) (votes : List VoteRecord) (vals : List Registered) (h : Bytes)
    → ((ks : List Bytes) (k : Bytes) → contains k (order ks) ≡ contains k ks)
    → IsOneVoteEach votes
    → 3 * active_power vals < 2 ^ 63
    → (choose order votes vals ≡ some h) ↔ IsQuorum votes vals h
unfolding choose refuses
choose_iff order votes vals h keeps once fits = (
  λ e.
      let (passed, at) = chosen (refuses order votes vals keeps once fits) _ h e in
      winner-IsQuorum order votes vals keeps once fits h passed at,
  λ q.
      taken (refuses order votes vals keeps once fits) _ h
        (refuses-IsQuorum order votes vals keeps once fits h q)
        (winner-is order votes vals keeps once fits h q),
)
