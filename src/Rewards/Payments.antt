-- ===== src/Rewards/Payments.antt =====
-- The payments of `DistributeIfEpoch` of core/economics/pop/pop.go.
use reserve_os.Base.{
  ℕ, ◌-◌, ◌*◌, ◌^◌, ◌≤◌, ◌<◌, ◌≡◌, refl, ap, ◌∙◌, Bool, true, false, if◌then◌else◌, List, [], ◌∷◌,
  none, arith, Bytes, Bool-cases, inl, inr, ◌==◌, sub64, mul64, sdiv, nonpos, Outcome, ok,
  >>=-eq-ok,
}
use reserve_os.Node.Sim.{Sim, credit}
use reserve_os.State.{Kv, GetPut, add_balance, adjust}
use reserve_os.State.Store.{Represents, IsWritable, adjust-Represents}
use reserve_os.Rewards.{Participant, Paying, pop_account, is_last, pay_one, pay_all, paid_to}
use reserve_os.Rewards.Shares.{
  share_of, pays, credit_all, weight_sum, HasSpace, FitWeights, share_of_fits, others_covered,
}

credit_if : ℕ → Bytes → Sim → Sim
credit_if share id s = if share == 0 then s else credit id share s

credit_all-if :
    (share : ℕ) (id : Bytes) (rest : List (Bytes × ℕ)) (s : Sim)
    → credit_all (if share == 0 then rest else (id, share) ∷ rest) s
      ≡ credit_all rest (credit_if share id s)
unfolding credit_if
credit_all-if share id rest s = elim (Bool-cases (share == 0)) [
  | inl e ↦ rw e refl
  | inr e ↦ rw e (unfold credit_all in refl)
]

HasSpace-credit :
    (s : Sim) (id : Bytes) (r share : ℕ)
    → share ≤ r
    → HasSpace s r
    → HasSpace (credit_if share id s) (r - share)
unfolding HasSpace credit_if
HasSpace-credit s id r share below space j =
    let here = space id in let there = space j in ground arith

-- The share that the code computes, where no product overflows.
code_share :
    (d t r w : ℕ) (last : Bool) (p : Participant)
    → d * w < 2 ^ 63
    → nonpos p.weight ≡ false
    → (if last then r else sdiv (mul64 d w) t) ≡ share_of d t last p w r
code_share d t r w true p fits counts = rw counts refl
code_share d t r w false p fits counts =
    let exact : mul64 d w ≡ d * w = omega arith in rw (counts, exact) (ground arith)

nonpos_zero : (v : ℕ) → v < 2 ^ 63 → nonpos v ≡ (v == 0)
nonpos_zero v h = ground arith

-- `pay_one` with the share given.
abbrev settle : (kv : Kv) → Bytes → kv.Db → ℕ → ℕ → Outcome (Paying kv)
settle kv id db r share =
    if nonpos share
    then ok (record { db = db; remaining = r; failure = none })
    else paid_to kv db (sub64 r share) (add_balance kv db id share)

pay_one-eq :
    (kv : Kv) (d t r w : ℕ) (last : Bool) (p : Participant) (db : kv.Db)
    → d * w < 2 ^ 63
    → pay_one kv d t last p w db r ≡ settle kv (pop_account p.id) db r (share_of d t last p w r)
unfolding pay_one
pay_one-eq kv d t r w last p db fits = elim (Bool-cases (nonpos p.weight)) [
  | inl skip ↦ rw skip refl
  | inr counts ↦ rw (counts, code_share d t r w last p fits counts, counts) refl
]

module _ (kv : Kv) (law : GetPut kv) (writes : IsWritable kv) where
  settle-Represents :
      (id : Bytes) (db : kv.Db) (s : Sim) (r share : ℕ)
      → Represents kv db s
      → HasSpace s r
      → share ≤ r
      → (next : kv.Db) × (settle kv id db r share
          ≡ ok (record { db = next; remaining = r - share; failure = none }))
        × Represents kv next (credit_if share id s)
  unfolding adjust HasSpace
  settle-Represents id db s r share rep space below = elim (Bool-cases (share == 0)) [
    | inl e ↦
        let zero_share : share ≡ 0 = ground arith in
        (
          db,
          rw (zero_share)
              (ap (λ m. ok (record { db = db; remaining = m; failure = none })) (omega arith)),
          unfold credit_if in rw e rep,
        )
    | inr e ↦
        let room = space id in
        let (next, found, held) =
          adjust-Represents kv law writes db id share s rep (ground arith) in
        let (mid, added, left) = >>=-eq-ok (add_balance kv db id share) _ found in
        let positive : nonpos share ≡ false = ground arith in
        let exact : sub64 r share ≡ r - share = omega arith in
        let same : mid.0 ≡ next = cc in
        (next, rw (positive, added, exact, same) refl, unfold credit_if in rw e held)
  ]

  pub pay_all-Represents :
      (d t : ℕ) (pairs : List (Participant × ℕ)) (r : ℕ) (db : kv.Db) (s : Sim)
      → Represents kv db s
      → HasSpace s r
      → 0 < t
      → FitWeights d pairs
      → d * weight_sum pairs ≤ r * t
      → (next : kv.Db) × (left : ℕ) × (pay_all kv d t pairs db r
          ≡ ok (record { db = next; remaining = left; failure = none }))
        × Represents kv next (credit_all (pays d t pairs r) s)
  unfolding pay_all pays credit_all weight_sum
  pay_all-Represents d t [] r db s rep space pos fits covered = (db, r, refl, rep)
  pay_all-Represents d t ((p, w) ∷ pairs) r db s rep space pos (fit, fits) covered =
      let share = share_of d t (is_last pairs) p w r in
      let below = share_of_fits d t r w (weight_sum pairs) (is_last pairs) p pos covered in
      let (mid, settled, held) =
        settle-Represents (pop_account p.id) db s r share rep space below in
      let one = pay_one-eq kv d t r w (is_last pairs) p db fit ∙ settled in
      let (next, left, rest, last) =
        pay_all-Represents d t pairs (r - share) mid (credit_if share (pop_account p.id) s) held
          (HasSpace-credit s (pop_account p.id) r share below space) pos fits
          (others_covered d t r w p pairs pos covered) in
      (
        next,
        left,
        rw (one) rest,
        rw (credit_all-if share (pop_account p.id) (pays d t pairs (r - share)) s) last,
      )
