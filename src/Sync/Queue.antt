-- ===== src/Sync/Queue.antt =====
-- How often a hash stands in the queues of `syncManager` (core/node/sync_manager.go), with the workers
-- that hold a hash between `popPending` and `addInFlight` of `startSyncManager`.
use reserve_os.Base.{
  ℕ, ◌≡◌, ◌+◌, ◌≤◌, refl, ap, ◌∙◌, Bool, false, not, ◌&&◌, ◌||◌, if◌then◌else◌, arith, List, [],
  ◌∷◌, ◌++◌, Bytes, bytes_eq, bytes_eq→eq, is_empty, count, Bool-cases, inl, inr,
}
use reserve_os.Sync.{keys, has, put_key, delete_key, is_late, enqueue, late, in_time}

pub count-append : (k : Bytes) (xs ys : List Bytes) → count k (xs ++ ys) ≡ count k xs + count k ys
count-append k [] ys = omega arith
count-append k (x ∷ xs) ys = ground (arith, count-append k xs ys)

pub has-false : (h : Bytes) (ks : List Bytes) → has h ks ≡ false → count h ks ≡ 0
unfolding has
has-false h [] e = refl
has-false h (k ∷ ks) e = ground (arith, has-false h ks)

abbrev pub one_if : Bool → ℕ
one_if b = if b then 1 else 0

has-append : (k : Bytes) (xs ys : List Bytes) → has k (xs ++ ys) ≡ (has k xs || has k ys)
unfolding has
has-append k [] ys = refl
has-append k (x ∷ xs) ys = ground (arith, has-append k xs ys)

has-one : (k h : Bytes) → has k (h ∷ []) ≡ bytes_eq k h
unfolding has
has-one k h = ground arith

-- One hash after the loop of `setHeaders`: added at most once, and only where it was in neither queue.
pub count-enqueue :
    (k : Bytes) (flying pending hs : List Bytes)
    → count k (enqueue flying pending hs)
      ≤ count k pending + one_if (has k hs && not (has k pending || has k flying))
unfolding enqueue has
count-enqueue k flying pending [] = ground arith
count-enqueue k flying pending (h ∷ hs) =
    elim (Bool-cases (is_empty h || (has h pending || has h flying))) [
      | inl skip ↦ rw skip (ground (arith, count-enqueue k flying pending hs))
      | inr fresh ↦
          let joined = count-append k pending (h ∷ []) in
          let listed = has-append k pending (h ∷ []) ∙ ap (λ b. has k pending || b) (has-one k h) in
          let rest = count-enqueue k flying (pending ++ (h ∷ [])) hs in
          rw fresh (elim (Bool-cases (bytes_eq k h)) [
            | inl same ↦
                let at = bytes_eq→eq k h same in
                let p : has k pending ≡ false = ap (λ j. has j pending) at ∙ ground arith in
                let f : has k flying ≡ false = ap (λ j. has j flying) at ∙ ground arith in
                ground (arith, joined, listed, rest, p, f)
            | inr other ↦ ground (arith, joined, listed, rest)
          ])
    ]

pub count-keys-delete_key :
    (k h : Bytes) (l : List (Bytes × ℕ)) → count k (keys (delete_key h l)) ≤ count k (keys l)
unfolding keys delete_key
count-keys-delete_key k h [] = omega arith
count-keys-delete_key k h ((j, u) ∷ l) = ground (arith, count-keys-delete_key k h l)

-- A key is put where it stands or at the end.
pub count-keys-put_key :
    (k h : Bytes) (t : ℕ) (l : List (Bytes × ℕ))
    → count k (keys (put_key h t l))
      ≡ count k (keys l) + one_if (bytes_eq k h && not (has h (keys l)))
unfolding keys put_key has
count-keys-put_key k h t [] = ground arith
count-keys-put_key k h t ((j, u) ∷ l) = elim (Bool-cases (bytes_eq h j)) [
  | inl here ↦ rw here (ground arith)
  | inr there ↦ rw there (ground (arith, count-keys-put_key k h t l))
]

pub count-late :
    (k : Bytes) (now timeout : ℕ) (l : List (Bytes × ℕ))
    → count k (late now timeout l) + count k (keys (in_time now timeout l)) ≡ count k (keys l)
unfolding late in_time keys
count-late k now timeout [] = refl
count-late k now timeout ((h, t) ∷ l) =
    let rest = count-late k now timeout l in
    elim (Bool-cases (is_late now timeout t)) [
      | inl gone ↦ rw gone (ground (arith, rest))
      | inr stays ↦ rw stays (ground (arith, rest))
    ]
