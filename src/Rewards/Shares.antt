-- ===== src/Rewards/Shares.antt =====
-- The shares of core/economics/pop/pop.go, in numbers that do not wrap.
use native.Mathlib.Nat.{div-mul-le_self, le_of_mul-le-mul_right, add-mul, mul-add, sub-add_cancel}
use reserve_os.Base.{
  ℕ, ◌+◌, ◌-◌, ◌*◌, ◌/◌, ◌^◌, ◌≤◌, ◌<◌, ◌≡◌, refl, Bool, true, false, not, if◌then◌else◌, List, [],
  ◌∷◌, arith, Bytes, Bool-cases, inl, inr, ◌==◌, nonpos, All,
}
use reserve_os.Node.Sim.{Sim, credit}
use reserve_os.Rewards.{Participant, pop_account, is_last}

-- The share of a participant, in numbers that do not wrap: the part of the drained amount that its
-- weight has in the total, rounded down, and for the last one what remains.
abbrev pub share_of : ℕ → ℕ → Bool → Participant → ℕ → ℕ → ℕ
share_of drain total last p w remaining =
    if nonpos p.weight then 0 else if last then remaining else drain * w / total

-- The accounts that are paid, with their amounts.
unfoldable pub pays : ℕ → ℕ → List (Participant × ℕ) → ℕ → List (Bytes × ℕ)
pays drain total [] remaining = []
pays drain total ((p, w) ∷ pairs) remaining =
    let share = share_of drain total (is_last pairs) p w remaining in
    let rest = pays drain total pairs (remaining - share) in
    if share == 0 then rest else (pop_account p.id, share) ∷ rest

unfoldable pub amounts : List (Bytes × ℕ) → ℕ
amounts [] = 0
amounts ((id, a) ∷ ps) = a + amounts ps

unfoldable pub credit_all : List (Bytes × ℕ) → Sim → Sim
credit_all [] s = s
credit_all ((id, a) ∷ ps) s = credit_all ps (credit id a s)

unfoldable pub weight_sum : List (Participant × ℕ) → ℕ
weight_sum [] = 0
weight_sum ((p, w) ∷ pairs) = w + weight_sum pairs

-- Whether the last participant has a positive weight.
unfoldable pub last_counts : List (Participant × ℕ) → Bool
last_counts [] = false
last_counts ((p, w) ∷ []) = not (nonpos p.weight)
last_counts (x ∷ y ∷ pairs) = last_counts (y ∷ pairs)

-- No balance overflows by the amount.
unfoldable pub HasSpace : Sim → ℕ → Type 0
HasSpace s r = (id : Bytes) → s.bal id + r < 2 ^ 63

-- No product of the drained amount and a weight overflows.
abbrev pub FitWeights : ℕ → List (Participant × ℕ) → Type 0
FitWeights drain pairs = All (λ x. drain * x.1 < 2 ^ 63) pairs

-- What remains covers the share, and afterwards the shares of the others.
share_fits :
    (d t r w others : ℕ)
    → 0 < t
    → d * (w + others) ≤ r * t
    → (d * w / t ≤ r) × (d * others ≤ (r - d * w / t) * t)
share_fits d t r w others pos h =
    let s = d * w / t in
    let down : s * t ≤ d * w = div-mul-le_self (d * w) t in
    let split = mul-add d w others in
    let below : s ≤ r = le_of_mul-le-mul_right (omega arith) pos in
    let again = add-mul (r - s) s t in
    let whole : (r - s + s) * t ≡ r * t = rw (sub-add_cancel below) in (below, omega arith)

pub share_of_fits :
    (d t r w others : ℕ) (last : Bool) (p : Participant)
    → 0 < t
    → d * (w + others) ≤ r * t
    → share_of d t last p w r ≤ r
share_of_fits d t r w others last p pos h =
    let (below, rest) = share_fits d t r w others pos h in ground arith

pub others_covered :
    (d t r w : ℕ) (p : Participant) (pairs : List (Participant × ℕ))
    → 0 < t
    → d * (w + weight_sum pairs) ≤ r * t
    → d * weight_sum pairs ≤ (r - share_of d t (is_last pairs) p w r) * t
others_covered d t r w p [] pos h = unfold weight_sum in omega arith
others_covered d t r w p (x ∷ pairs) pos h =
    let (below, rest) = share_fits d t r w (weight_sum (x ∷ pairs)) pos h in
    let split = mul-add d w (weight_sum (x ∷ pairs)) in ground arith

-- A sum with a share that is left out where it is 0.
amounts-if :
    (share : ℕ) (id : Bytes) (rest : List (Bytes × ℕ))
    → amounts (if share == 0 then rest else (id, share) ∷ rest) ≡ share + amounts rest
amounts-if share id rest = elim (Bool-cases (share == 0)) [
  | inl e ↦ rw e (ground arith)
  | inr e ↦ rw e (unfold amounts in refl)
]

-- Where the last participant counts and the drained amount covers the shares, the amounts paid add
-- up to what remains.
pub amounts-pays :
    (d t : ℕ) (pairs : List (Participant × ℕ)) (r : ℕ)
    → 0 < t
    → d * weight_sum pairs ≤ r * t
    → last_counts pairs ≡ true
    → amounts (pays d t pairs r) ≡ r
unfolding pays weight_sum last_counts
amounts-pays d t [] r pos h e = cc
amounts-pays d t ((p, w) ∷ []) r pos h e =
    let counts : nonpos p.weight ≡ false = ground arith in
    let whole : share_of d t true p w r ≡ r = rw counts in
    let none_left : amounts (pays d t [] (r - share_of d t true p w r)) ≡ 0 =
      unfold amounts in refl in
    omega (arith, amounts-if (share_of d t true p w r) (pop_account p.id) [], none_left)
amounts-pays d t ((p, w) ∷ x ∷ pairs) r pos h e =
    let share = share_of d t false p w r in
    let below = share_of_fits d t r w (weight_sum (x ∷ pairs)) false p pos h in
    let rest =
      amounts-pays d t (x ∷ pairs) (r - share) pos (others_covered d t r w p (x ∷ pairs) pos h) e in
    omega
      (arith, amounts-if share (pop_account p.id) (pays d t (x ∷ pairs) (r - share)), rest, below)
