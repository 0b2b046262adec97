-- ===== src/Snapshots/Maps.antt =====
-- The maps of a snapshot: what the loops of core/state/snapshot_bin.go read.
use reserve_os.Base.{
  sym, inl, inr, Bool-cases, ℕ, ◌≡◌, refl, ap, ◌∙◌, Bool, true, false, if◌then◌else◌, List, [], ◌∷◌,
  ◌++◌, Option, none, some, arith, Bytes, bytes_eq, bytes_eq_self, ◌==◌, ◌||◌, map, Option-cases,
  leb, length, All, take-append, drop-append, length-append, be_value,
}
use reserve_os.Snapshots.{GoMap, put_entry, has_prefix, trim_prefix, export_from}

abbrev pub or_else {ℓ} : {A : Type ℓ} → Option A → Option A → Option A
or_else (some a) o = some a
or_else none o = o

pub or_else-none {ℓ} : {A : Type ℓ} (o : Option A) → or_else o none ≡ o
or_else-none none = refl
or_else-none (some a) = refl

-- The last entry of a key.
unfoldable pub lookup {ℓ} : {A : Type ℓ} → Bytes → List (Bytes × A) → Option A
lookup k [] = none
lookup k ((j, v) ∷ es) = or_else (lookup k es) (if bytes_eq j k then some v else none)

-- A stored entry: its key has the prefix and its value is eight bytes.
pub record IsEntry (prefix : Bytes) (e : Bytes × Bytes) : Type 0 where
  pub id : Bytes
  pub key : e.0 ≡ prefix ++ id
  pub eight : length e.1 ≡ 8

abbrev pub value_of : Option Bytes → Option ℕ
value_of none = none
value_of (some b) = some (be_value b)

pub bytes_eq-append : (prefix a b : Bytes) → bytes_eq (prefix ++ a) (prefix ++ b) ≡ bytes_eq a b
bytes_eq-append [] a b = refl
bytes_eq-append (x ∷ prefix) a b = ground (arith, bytes_eq-append prefix a b)

pub has_prefix-append : (prefix id : Bytes) → has_prefix (prefix ++ id) prefix ≡ true
unfolding has_prefix
has_prefix-append prefix id =
    let long : leb (length prefix) (length (prefix ++ id)) ≡ true =
      ground (arith, length-append prefix id) in
    let front = take-append (length prefix) prefix id refl in
    rw (long, front) (bytes_eq_self prefix)

pub trim_prefix-append : (prefix id : Bytes) → trim_prefix (prefix ++ id) prefix ≡ id
unfolding trim_prefix
trim_prefix-append prefix id =
    rw (has_prefix-append prefix id) (drop-append (length prefix) prefix id refl)

merge :
    (o : Option Bytes) (hit : Bool) (v : Bytes) (m : Option ℕ)
    → or_else (value_of o) (if hit then some (be_value v) else m)
      ≡ or_else (value_of (or_else o (if hit then some v else none))) m
merge (some w) hit v m = refl
merge none true v m = refl
merge none false v m = refl

-- The map of the loop has the value of each key's last entry.
pub export_from-eq :
    (prefix : Bytes) (es : List (Bytes × Bytes)) (m : GoMap) (id : Bytes)
    → All (IsEntry prefix) es
    → export_from prefix es m id ≡ or_else (value_of (lookup (prefix ++ id) es)) (m id)
unfolding export_from lookup
export_from-eq prefix [] m id all = refl
export_from-eq prefix ((k, v) ∷ es) m id (e, all) =
    let eight : (length v == 8) ≡ true = ground (arith, e.eight) in
    let trimmed : trim_prefix k prefix ≡ e.id =
      ap (λ t. trim_prefix t prefix) e.key ∙ trim_prefix-append prefix e.id in
    let same : bytes_eq k (prefix ++ id) ≡ bytes_eq e.id id =
      ap (λ t. bytes_eq t (prefix ++ id)) e.key ∙ bytes_eq-append prefix e.id id in
    rw (eight, trimmed, same)
      (export_from-eq prefix es (put_entry m e.id (be_value v)) id all
        ∙ merge (lookup (prefix ++ id) es) (bytes_eq e.id id) v (m id))

-- The last entry of a key is among the entries.
pub lookup-All {κ} :
    (P : Bytes × Bytes → Type κ) (k : Bytes) (es : List (Bytes × Bytes)) (b : Bytes)
    → All P es
    → lookup k es ≡ some b
    → (j : Bytes) × P (j, b)
unfolding lookup
lookup-All P k [] b all e = cc
lookup-All P k ((j, v) ∷ es) b (h, all) e = elim (Option-cases (lookup k es)) [
  | inl missing ↦ elim (Bool-cases (bytes_eq j k)) [
    | inl hit ↦ let same : v ≡ b = cc in (j, rw (sym same) h)
    | inr miss ↦ absurd cc
  ]
  | inr (w, found) ↦ let same : w ≡ b = cc in lookup-All P k es b all (found ∙ ap some same)
]

unfoldable pub has_key : Bytes → List Bytes → Bool
has_key k [] = false
has_key k (j ∷ ks) = bytes_eq j k || has_key k ks

pub has_key-append :
    (k : Bytes) (js ks : List Bytes) → has_key k (js ++ ks) ≡ (has_key k js || has_key k ks)
unfolding has_key
has_key-append k [] ks = refl
has_key-append k (j ∷ js) ks = ground (arith, has_key-append k js ks)

-- A key that is not among the keys has no entry.
pub lookup-none :
    (k : Bytes) (es : List (Bytes × Bytes))
    → has_key k (map (λ e. e.0) es) ≡ false
    → lookup k es ≡ none
unfolding lookup has_key
lookup-none k [] h = refl
lookup-none k ((j, v) ∷ es) h = ground (arith, lookup-none k es)
