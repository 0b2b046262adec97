-- ===== src/Replay/Pick.antt =====
-- The choice of a snapshot by its name: `pickSnapshotForHeight` of core/node/block_validate_fork.go.
use mathlib.Core.List.{reverse-cons}
use reserve_os.Base.{
  ℕ, zero, suc, ◌-◌, ◌/◌, ◌^◌, ◌≤◌, ◌≡◌, refl, sym, ap, ◌∙◌, Bool, true, false, ◌&&◌, ◌||◌,
  if◌then◌else◌, List, [], ◌∷◌, ◌++◌, reverse, map, some, arith, Bytes, codes, bytes_eq_self,
  is_empty, ltb, leb, ◌==◌, Bool-cases, inl, inr, ◌⊎◌, length, length-append, take-append,
  drop-append, All, IsU64,
}
use reserve_os.Decimal.{digit_loop, itoa_u, read-itoa_u}
use reserve_os.Snapshots.{has_suffix, json_name}
use reserve_os.Snapshots.Maps.{has_prefix-append, trim_prefix-append}
use reserve_os.Replay.{
  base_from, base_name, trim_suffix, all_digits, parse_uint, parse_snapshot_height, pick_step,
  pick_from, pick_snapshot_for_height,
}

has_suffix-append : (s suffix : Bytes) → has_suffix (s ++ suffix) suffix ≡ true
unfolding has_suffix
has_suffix-append s suffix =
    let whole = length-append s suffix in
    let long : leb (length suffix) (length (s ++ suffix)) ≡ true = ground arith in
    let front : length (s ++ suffix) - length suffix ≡ length s = omega arith in
    rw (long, front, drop-append (length s) s suffix refl) (bytes_eq_self suffix)

trim_suffix-append : (s suffix : Bytes) → trim_suffix (s ++ suffix) suffix ≡ s
unfolding trim_suffix
trim_suffix-append s suffix =
    let whole = length-append s suffix in
    let front : length (s ++ suffix) - length suffix ≡ length s = omega arith in
    rw (has_suffix-append s suffix, front) (take-append (length s) s suffix refl)

all_digits-append : (a b : Bytes) → all_digits (a ++ b) ≡ (all_digits a && all_digits b)
unfolding all_digits
all_digits-append [] b = refl
all_digits-append (c ∷ a) b = ground (arith, all_digits-append a b)

all_digits-digit_loop : (n v : ℕ) → all_digits (reverse (digit_loop n v)) ≡ true
unfolding digit_loop all_digits
all_digits-digit_loop zero v = refl
all_digits-digit_loop (suc n) v = elim (Bool-cases (v == 0)) [
  | inl e ↦ rw e refl
  | inr e ↦
      let rest = all_digits-digit_loop n (v / 10) in
      rw (e, reverse-cons, all_digits-append) (ground arith)
]

all_digits-itoa_u : (v : ℕ) → all_digits (itoa_u v) ≡ true
unfolding itoa_u
all_digits-itoa_u v = elim (Bool-cases (v == 0)) [
  | inl e ↦ rw e (unfold all_digits in refl)
  | inr e ↦ rw e (all_digits-digit_loop 20 v)
]

nonempty_last : (s : Bytes) (c : ℕ) → is_empty (s ++ (c ∷ [])) ≡ false
nonempty_last [] c = refl
nonempty_last (x ∷ s) c = refl

is_empty-digit_loop :
    (n v : ℕ) → (v == 0) ≡ false → is_empty (reverse (digit_loop (suc n) v)) ≡ false
unfolding digit_loop
is_empty-digit_loop n v e = rw (e, reverse-cons) (nonempty_last _ _)

is_empty-itoa_u : (v : ℕ) → is_empty (itoa_u v) ≡ false
unfolding itoa_u
is_empty-itoa_u v = elim (Bool-cases (v == 0)) [
  | inl e ↦ rw e refl
  | inr e ↦ rw e (is_empty-digit_loop 19 v e)
]

parse_uint-itoa_u : (v : ℕ) → IsU64 v → parse_uint (itoa_u v) ≡ some v
unfolding parse_uint
parse_uint-itoa_u v w =
    let fits : ltb v (2 ^ 64) ≡ true = ground arith in
    rw (is_empty-itoa_u v, all_digits-itoa_u v, read-itoa_u v w, fits) refl

-- The height is read back from the name that `WriteSnapshot` gives its file.
parse_snapshot_height-json_name : (h : ℕ) → IsU64 h → parse_snapshot_height (json_name h) ≡ some h
unfolding parse_snapshot_height
parse_snapshot_height-json_name h w =
    rw
      (
        has_prefix-append (codes "state_") (itoa_u h ++ codes ".json.gz"),
        trim_prefix-append (codes "state_") (itoa_u h ++ codes ".json.gz"),
        trim_suffix-append (itoa_u h) (codes ".json.gz"),
      )
      (parse_uint-itoa_u h w)

base_from-digits :
    (cur d rest : Bytes) → all_digits d ≡ true → base_from cur (d ++ rest) ≡ base_from cur rest
unfolding base_from all_digits
base_from-digits cur [] rest h = refl
base_from-digits cur (c ∷ d) rest h =
    let tail_digits : all_digits d ≡ true = ground arith in
    let plain : (c == 47 || c == 92) ≡ false = ground arith in
    rw plain (base_from-digits cur d rest tail_digits)

base_from-json_name : (cur : Bytes) (h : ℕ) → base_from cur (json_name h) ≡ cur
unfolding base_from
base_from-json_name cur h = base_from-digits cur (itoa_u h) (codes ".json.gz") (all_digits-itoa_u h)

base_from-path : (cur dir : Bytes) (h : ℕ) → base_from cur (dir ++ (47 ∷ json_name h)) ≡ json_name h
unfolding base_from
base_from-path cur [] h = base_from-json_name (json_name h) h
base_from-path cur (c ∷ dir) h = elim (Bool-cases (c == 47 || c == 92)) [
  | inl e ↦ rw e (base_from-path (dir ++ (47 ∷ json_name h)) dir h)
  | inr e ↦ rw e (base_from-path cur dir h)
]

-- A snapshot's path in a directory.
abbrev pub path_of : Bytes → ℕ → Bytes
path_of dir h = dir ++ (47 ∷ json_name h)

unfoldable pub listed : ℕ → List ℕ → Bool
listed h [] = false
listed h (j ∷ hs) = j == h || listed h hs

-- No height of the list is at most the target and above the height chosen.
unfoldable pub IsHighest : ℕ → ℕ → List ℕ → Type 0
IsHighest target h hs = All (λ j. (leb j target && ltb h j) ≡ false) hs

parsed :
    (dir : Bytes) (h : ℕ) → IsU64 h → parse_snapshot_height (base_name (path_of dir h)) ≡ some h
unfolding base_name
parsed dir h w = rw (base_from-path (path_of dir h) dir h) (parse_snapshot_height-json_name h w)

-- What the loop ends with: the path it started with where no height fits, or the path of the highest
-- height that does.
unfoldable pub Picked : Bytes → ℕ → Bytes × ℕ → List ℕ → Bytes × ℕ → Type 0
Picked dir target start hs end =
    (end ≡ start × All (λ j. (leb j target && leb start.1 j) ≡ false) hs)
    ⊎ ((end.0 ≡ path_of dir end.1)
        × (end.1 ≤ target)
        × (start.1 ≤ end.1)
        × (listed end.1 hs ≡ true)
        × IsHighest target end.1 hs)

weaken :
    (target h k : ℕ) (hs : List ℕ)
    → k ≡ h
    → All (λ j. (leb j target && leb h j) ≡ false) hs
    → IsHighest target k hs
unfolding IsHighest
weaken target h k [] e all = tt
weaken target h k (j ∷ hs) e (a, all) = (ground arith, weaken target h k hs e all)

Picked-taken :
    (dir : Bytes) (target h : ℕ) (start end : Bytes × ℕ) (hs : List ℕ)
    → (leb h target && leb start.1 h) ≡ true
    → Picked dir target (path_of dir h, h) hs end
    → Picked dir target start (h ∷ hs) end
unfolding Picked listed IsHighest
Picked-taken dir target h start end hs taken (inl (same, others)) =
    let here : end.1 ≡ h = ap (λ e. e.1) same in
    inr (
      ap (λ e. e.0) same ∙ ap (path_of dir) (sym here),
      ground arith,
      ground arith,
      ground arith,
      (ground arith, weaken target h (end.1) hs here others),
    )
Picked-taken dir target h start end hs taken (inr (path, low, above, there, highest)) =
    inr (path, low, ground arith, ground arith, (ground arith, highest))

Picked-left :
    (dir : Bytes) (target h : ℕ) (start end : Bytes × ℕ) (hs : List ℕ)
    → (leb h target && leb start.1 h) ≡ false
    → Picked dir target start hs end
    → Picked dir target start (h ∷ hs) end
unfolding Picked listed IsHighest
Picked-left dir target h start end hs left (inl (same, others)) = inl (same, (left, others))
Picked-left dir target h start end hs left (inr (path, low, above, there, highest)) =
    inr (path, low, above, ground arith, (ground arith, highest))

pick_from-step :
    (dir : Bytes) (target h : ℕ) (start : Bytes × ℕ) (hs : List ℕ)
    → IsU64 h
    → pick_from target start (map (path_of dir) (h ∷ hs))
      ≡ pick_from target
          (if leb h target && leb start.1 h then (path_of dir h, h) else start)
          (map (path_of dir) hs)
unfolding pick_from pick_step
pick_from-step dir target h start hs fit =
    ap (λ o. pick_from target (pick_step target start (path_of dir h) o) (map (path_of dir) hs))
      (parsed dir h fit)

pick_from-Picked :
    (dir : Bytes) (target : ℕ) (start : Bytes × ℕ) (hs : List ℕ)
    → All (λ j. IsU64 j) hs
    → Picked dir target start hs (pick_from target start (map (path_of dir) hs))
pick_from-Picked dir target start [] fits = unfold Picked pick_from in inl (refl, tt)
pick_from-Picked dir target start (h ∷ hs) (fit, fits) =
    let next = pick_from-step dir target h start hs fit in
    elim (Bool-cases (leb h target && leb start.1 h)) [
      | inl taken ↦
          rw (next, taken)
            (Picked-taken dir target h start _ hs taken
              (pick_from-Picked dir target (path_of dir h, h) hs fits))
      | inr left ↦
          rw (next, left)
            (Picked-left dir target h start _ hs left (pick_from-Picked dir target start hs fits))
    ]

-- Among snapshots named as `WriteSnapshot` names them the one is chosen that stands highest at or below
-- the target, and none exactly where all stand above it.
pub pick_snapshot_for_height_lem :
    (dir : Bytes) (target : ℕ) (hs : List ℕ)
    → All (λ j. IsU64 j) hs
    → (end : Bytes × ℕ) × (pick_snapshot_for_height (map (path_of dir) hs) target ≡ end.0)
      × Picked dir target ([], 0) hs end
unfolding pick_snapshot_for_height
pick_snapshot_for_height_lem dir target hs fits =
    (_, refl, pick_from-Picked dir target ([], 0) hs fits)
