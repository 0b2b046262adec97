-- ===== src/Runs/Restoring.antt =====
-- A run of an export and a restore, on databases that are lists of entries.
use reserve_os.Base.{
  ℕ, ◌≡◌, refl, sym, ap, ◌∙◌, Bool, true, false, not, if◌then◌else◌, List, [], ◌∷◌, ◌++◌, Option,
  none, some, arith, Bytes, codes, bytes_eq, bytes_eq→eq, Bool-cases, inl, inr, be_bytes, be_value,
  be_acc, ok,
}
use reserve_os.State.{Kv, Scan, GetPut, get_balance, get_nonce, key_bal, key_nonce}
use reserve_os.State.Store.{IsWritable}
use reserve_os.Snapshots.{
  GoMap, has_prefix, trim_prefix, export_from, export_state_maps, restore_snapshot,
}
use reserve_os.Snapshots.Maps.{or_else-none, or_else, lookup, has_key}
use reserve_os.Snapshots.Restore.{IsScan, IsOrder}
use reserve_os.Snapshots.Reads.{clamp, keep, WellStored}
use reserve_os.Snapshots.RoundTrip.{restore_snapshot-export_state_maps}
use reserve_os.Runs.Data.{alice, bob}

abbrev Entries : Type 0
Entries = List (Bytes × Bytes)

abbrev lists : Kv
lists = record {
  Db = Entries;
  get = λ db k. ok (lookup k db);
  put = λ db k v. ok (db ++ ((k, v) ∷ []));
}

abbrev select : (Bytes → Bool) → Entries → Entries
select p [] = []
select p ((k, v) ∷ db) = let rest = select p db in if p k then (k, v) ∷ rest else rest

lookup_last :
    (db : Entries) (k v j : Bytes)
    → lookup j (db ++ ((k, v) ∷ [])) ≡ (if bytes_eq k j then some v else lookup j db)
unfolding lookup
lookup_last [] k v j = refl
lookup_last ((i, w) ∷ db) k v j = elim (Bool-cases (bytes_eq k j)) [
  | inl here ↦ rw (lookup_last db k v j, here) refl
  | inr there ↦ rw (lookup_last db k v j, there) refl
]

select_step :
    (pj pk hit : Bool) (v : Bytes) (o : Option Bytes)
    → (hit ≡ true → pj ≡ pk)
    → (if pj
        then or_else (if pk then o else none) (if hit then some v else none)
        else if pk
        then o
        else none)
      ≡ (if pk then or_else o (if hit then some v else none) else none)
select_step true true hit v o h = refl
select_step true false true v o h = let same = h refl in absurd cc
select_step true false false v o h = refl
select_step false true true v o h = let same = h refl in absurd cc
select_step false true false v o h = sym (or_else-none o)
select_step false false hit v o h = refl

lookup-if :
    (b : Bool) (k j v : Bytes) (db : Entries)
    → lookup k (if b then (j, v) ∷ db else db)
      ≡ (if b then or_else (lookup k db) (if bytes_eq j k then some v else none) else lookup k db)
unfolding lookup
lookup-if true k j v db = refl
lookup-if false k j v db = refl

lookup-select :
    (p : Bytes → Bool) (k : Bytes) (db : Entries)
    → lookup k (select p db) ≡ (if p k then lookup k db else none)
unfolding lookup
lookup-select p k [] = ground arith
lookup-select p k ((j, v) ∷ db) =
    lookup-if (p j) k j v (select p db)
    ∙ rw (lookup-select p k db)
        (select_step (p j) (p k) (bytes_eq j k) v (lookup k db) (λ e. ap p (bytes_eq→eq j k e)))

abbrev lists_scan : Scan lists
lists_scan = record {
  entries = λ db prefix. select (λ k. has_prefix k prefix) db;
  fault = λ db prefix. none;
  delete_all = λ db ks. ok (select (λ k. not (has_key k ks)) db);
  delete = λ db k. ok (select (λ j. not (bytes_eq j k)) db);
}

if_not :
    (b : Bool) (o : Option Bytes) → ok (if not b then o else none) ≡ (if b then ok none else ok o)
if_not true o = refl
if_not false o = refl

lists-IsScan : IsScan lists lists_scan
lists-IsScan = record {
  entries_lem =
      λ db prefix k h. ap ok (sym (rw (lookup-select (λ j. has_prefix j prefix) k db, h) refl));
  delete_all_lem = λ db ks. (
    _,
    refl,
    λ j. ap ok (lookup-select (λ k. not (has_key k ks)) j db) ∙ if_not (has_key j ks) (lookup j db),
  );
}

ok_if :
    (b : Bool) (v : Bytes) (o : Option Bytes)
    → ok (if b then some v else o) ≡ (if b then ok (some v) else ok o)
ok_if true v o = refl
ok_if false v o = refl

lists-GetPut : GetPut lists
unfolding GetPut
lists-GetPut db next k v j e =
    let same : db ++ ((k, v) ∷ []) ≡ next = cc in
    rw (sym same) (ap ok (lookup_last db k v j) ∙ ok_if (bytes_eq k j) v (lookup j db))

lists-IsWritable : IsWritable lists
unfolding IsWritable
lists-IsWritable db k v = (_, refl)

abbrev saved : Entries
saved =
    (key_bal alice, be_bytes 8 100)
    ∷ (key_nonce alice, be_bytes 8 3)
    ∷ (key_bal bob, be_bytes 8 7)
    ∷ []

abbrev other : Entries
other = (key_bal bob, be_bytes 8 55) ∷ (key_nonce bob, be_bytes 8 9) ∷ []

abbrev balances : GoMap
balances k = if bytes_eq bob k then some 7 else if bytes_eq alice k then some 100 else none

abbrev nonces : GoMap
nonces k = if bytes_eq alice k then some 3 else none

-- The maps are visited in another order.
abbrev balance_order : List (Bytes × ℕ)
balance_order = (bob, 7) ∷ (alice, 100) ∷ []

abbrev nonce_order : List (Bytes × ℕ)
nonce_order = (alice, 3) ∷ []

saved-balances : WellStored lists lists_scan clamp saved (codes "bal:")
unfolding WellStored has_prefix be_bytes be_value be_acc
saved-balances = (
  (record { id = alice; key = refl; eight = refl }, record { eight = refl; kept = refl }),
  ((record { id = bob; key = refl; eight = refl }, record { eight = refl; kept = refl }), tt),
)

saved-nonces : WellStored lists lists_scan keep saved (codes "nonce:")
unfolding WellStored has_prefix be_bytes be_value be_acc
saved-nonces =
    ((record { id = alice; key = refl; eight = refl }, record { eight = refl; kept = refl }), tt)

saved-exported : export_state_maps lists lists_scan saved ≡ ok (balances, nonces)
unfolding export_state_maps export_from has_prefix trim_prefix be_bytes be_value be_acc
saved-exported = refl

orders :
    (k : Bytes)
    → or_else
        (if bytes_eq alice k then some 100 else none)
        (if bytes_eq bob k then some 7 else none)
      ≡ balances k
orders k = elim (Bool-cases (bytes_eq bob k)) [
  | inl is_bob ↦ let same = bytes_eq→eq bob k is_bob in rw (sym same) refl
  | inr no_bob ↦ rw no_bob (or_else-none (if bytes_eq alice k then some 100 else none))
]

balance_order-IsOrder : IsOrder balances balance_order
unfolding IsOrder lookup
balance_order-IsOrder k = orders k

nonce_order-IsOrder : IsOrder nonces nonce_order
unfolding IsOrder lookup
nonce_order-IsOrder k = refl

restore_snapshot-export_state_maps_example :
    (next : Entries) × (restore_snapshot lists lists_scan other balance_order nonce_order ≡ ok next)
    × ((id : Bytes) → get_balance lists next id ≡ get_balance lists saved id)
    × ((id : Bytes) → get_nonce lists next id ≡ get_nonce lists saved id)
restore_snapshot-export_state_maps_example =
    restore_snapshot-export_state_maps lists lists-GetPut lists-IsWritable lists_scan lists-IsScan
      saved other balances nonces balance_order nonce_order saved-balances saved-nonces
      saved-exported balance_order-IsOrder nonce_order-IsOrder (omega arith, (omega arith, tt))
      (omega arith, tt)
