-- ===== src/Snapshots.antt =====
-- Snapshots of the state: core/state/snapshot.go, snapshot_bin.go and snapshot_auto.go, `ResetState` of
-- core/state/state.go and internal/reservestorage/state_import.go. The files, gzip, JSON and gob are
-- parameters. A Go map is a function; the order in which it is visited is a list, given as an argument.
pub mod Maps
pub mod Restore
pub mod Reads
pub mod RoundTrip
use reserve_os.Base.{
  ℕ, ◌-◌, Bool, true, false, not, ◌&&◌, ◌||◌, if◌then◌else◌, List, [], ◌∷◌, ◌++◌, map, Option, none,
  some, Bytes, codes, bytes_eq, ◌==◌, length, take, drop, be_bytes, be_value, leb, Outcome, ok, err,
  panic, ◌>>=◌,
}
use reserve_os.Decimal.{itoa_u}
use reserve_os.State.{or_fault, Kv, Scan, ignoring, key_bal, key_nonce, set_balance, set_nonce}

abbrev pub GoMap : Type 0
GoMap = Bytes → Option ℕ

abbrev pub no_entries : GoMap
no_entries k = none

abbrev pub put_entry : GoMap → Bytes → ℕ → GoMap
put_entry m k v j = if bytes_eq k j then some v else m j

pub record Snapshot : Type 0 where
  pub version : ℕ
  pub height : ℕ
  pub tip_hash : Bytes
  pub created_unix : ℕ
  pub balances : GoMap
  pub nonces : GoMap

-- `strings.HasPrefix`, `HasSuffix` and `TrimPrefix`
unfoldable pub has_prefix : Bytes → Bytes → Bool
has_prefix s prefix = leb (length prefix) (length s) && bytes_eq (take (length prefix) s) prefix

unfoldable pub has_suffix : Bytes → Bytes → Bool
has_suffix s suffix =
    leb (length suffix) (length s) && bytes_eq (drop (length s - length suffix) s) suffix

unfoldable pub trim_prefix : Bytes → Bytes → Bytes
unfolding has_prefix
trim_prefix s prefix = if has_prefix s prefix then drop (length prefix) s else s

-- One loop of `ExportStateMaps`: values of another length than eight are left out.
unfoldable pub export_from : Bytes → List (Bytes × Bytes) → GoMap → GoMap
export_from prefix [] m = m
export_from prefix ((k, v) ∷ es) m =
    export_from prefix es
      (if length v == 8 then put_entry m (trim_prefix k prefix) (be_value v) else m)

-- `_ = f(db, k, v)` for each entry of a map, in the order in which it is visited.
unfoldable pub put_all : {D : Type 0} → (D → Bytes → ℕ → Outcome D) → List (Bytes × ℕ) → D → D
put_all f [] db = db
put_all f ((k, v) ∷ es) db = put_all f es (ignoring db (f db k v))

-- The files that `ListSnapshots` gives.
unfoldable pub is_snapshot_name : Bytes → Bool
is_snapshot_name name =
    has_prefix name (codes "state_")
    && (has_suffix name (codes ".json.gz") || has_suffix name (codes ".gob.gz"))

unfoldable pub snapshot_names : List (Bytes × Bool) → List Bytes
snapshot_names [] = []
snapshot_names ((name, is_dir) ∷ ents) =
    let rest = snapshot_names ents in
    if is_dir then rest else if is_snapshot_name name then name ∷ rest else rest

-- `filepath.Join(dir, …)` and `sort.Strings` are the arguments.
unfoldable pub list_snapshots :
    (Bytes → Bytes)
    → (List Bytes → List Bytes)
    → Outcome (List (Bytes × Bool))
    → Outcome (List Bytes)
list_snapshots join sort ents = ents >>= λ es. ok (sort (map join (snapshot_names es)))

-- The names of the files that are written.
abbrev pub json_name : ℕ → Bytes
json_name height = codes "state_" ++ (itoa_u height ++ codes ".json.gz")

abbrev pub bin_name : ℕ → Bytes
bin_name height = codes "state_" ++ (itoa_u height ++ codes ".gob.gz")

unfoldable pub read_snapshot_auto :
    (Bytes → Outcome Snapshot) → (Bytes → Outcome Snapshot) → Bytes → Outcome Snapshot
read_snapshot_auto read_bin read_json path =
    if has_suffix path (codes ".gob.gz") then read_bin path else read_json path

module _ (kv : Kv) (scan : Scan kv) where
  unfoldable pub export_state_maps : kv.Db → Outcome (GoMap × GoMap)
  export_state_maps db = do
    bal ←
        or_fault (scan.fault db (codes "bal:"))
          (export_from (codes "bal:") (scan.entries db (codes "bal:")) no_entries)
    non ←
        or_fault (scan.fault db (codes "nonce:"))
          (export_from (codes "nonce:") (scan.entries db (codes "nonce:")) no_entries)
    ok (bal, non)

  -- The snapshot of `WriteSnapshotBin`, before it is encoded.
  unfoldable pub bin_snapshot : kv.Db → ℕ → Bytes → ℕ → Outcome Snapshot
  bin_snapshot db height tip_hash now = export_state_maps db >>= λ maps. ok (record {
    version = 2;
    height = height;
    tip_hash = tip_hash;
    created_unix = now;
    balances = maps.0;
    nonces = maps.1;
  })

  -- The snapshot of `WriteSnapshot`, which does not look at the iterator's error.
  unfoldable pub json_snapshot : kv.Db → ℕ → Bytes → ℕ → Snapshot
  json_snapshot db height tip_hash now = record {
    version = 1;
    height = height;
    tip_hash = tip_hash;
    created_unix = now;
    balances = export_from (codes "bal:") (scan.entries db (codes "bal:")) no_entries;
    nonces = export_from (codes "nonce:") (scan.entries db (codes "nonce:")) no_entries;
  }

  abbrev pub keys_of : kv.Db → Bytes → List Bytes
  keys_of db prefix = map (λ e. e.0) (scan.entries db prefix)

  unfoldable pub reset_state : kv.Db → Outcome kv.Db
  reset_state db = scan.delete_all db (keys_of db (codes "bal:") ++ keys_of db (codes "nonce:"))

  -- The orders are those in which the maps of the snapshot are visited.
  unfoldable pub restore_snapshot : kv.Db → List (Bytes × ℕ) → List (Bytes × ℕ) → Outcome kv.Db
  restore_snapshot db bal_order nonce_order = reset_state db >>= λ next.
      ok (put_all (set_nonce kv) nonce_order (put_all (set_balance kv) bal_order next))

  unfoldable pub delete_each : List Bytes → kv.Db → kv.Db
  delete_each [] db = db
  delete_each (k ∷ ks) db = delete_each ks (ignoring db (scan.delete db k))

  -- One prefix of `WipeStatePrefixes`. The iterator reads the database as it was at its start.
  unfoldable pub wipe_prefix : Bytes → kv.Db → Outcome kv.Db
  wipe_prefix prefix db = or_fault (scan.fault db prefix) (delete_each (keys_of db prefix) db)

  unfoldable pub wipe_state_prefixes : kv.Db → Outcome kv.Db
  wipe_state_prefixes db = wipe_prefix (codes "bal:") db >>= wipe_prefix (codes "nonce:")

module _ (kv : Kv) where
  abbrev pub put_value : (Bytes → Bytes) → kv.Db → Bytes → ℕ → Outcome kv.Db
  put_value key db k v = kv.put db (key k) (be_bytes 8 v)

  -- Unlike `RestoreSnapshot` it writes a negative balance as it is.
  unfoldable pub import_state_maps : kv.Db → List (Bytes × ℕ) → List (Bytes × ℕ) → kv.Db
  import_state_maps db bal_order nonce_order =
      put_all (put_value key_nonce) nonce_order (put_all (put_value key_bal) bal_order db)
