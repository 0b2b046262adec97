-- ===== src/Snapshots/Restore.antt =====
-- Reads after the writes of a whole map: the loops of `RestoreSnapshot` in core/state/snapshot.go.
use reserve_os.Base.{
  ℕ, ◌≡◌, refl, ◌∙◌, Bool, true, false, if◌then◌else◌, List, [], ◌∷◌, Option, none, some, Bytes,
  bytes_eq, All, IsU64, Outcome, ok, err, panic,
}
use reserve_os.State.{Kv, Scan, ignoring}
use reserve_os.Snapshots.{GoMap, has_prefix, put_all}
use reserve_os.Snapshots.Maps.{or_else, lookup, has_key}

-- The iterator gives what the database holds under a prefix, and a batch of deletions succeeds and
-- removes its keys.
pub record IsScan (kv : Kv) (scan : Scan kv) : Type 0 where
  pub entries_lem :
      (db : kv.Db) (prefix k : Bytes)
      → has_prefix k prefix ≡ true
      → kv.get db k ≡ ok (lookup k (scan.entries db prefix))
  pub delete_all_lem :
      (db : kv.Db) (ks : List Bytes)
      → (next : kv.Db) × (scan.delete_all db ks ≡ ok next)
        × ((j : Bytes) → kv.get next j ≡ (if has_key j ks then ok none else kv.get db j))

-- An order in which a map is visited: the last entry of each key, of which there is one, is the map's.
unfoldable pub IsOrder : GoMap → List (Bytes × ℕ) → Type 0
IsOrder m order = (k : Bytes) → lookup k order ≡ m k

-- What is read where the entry was written, or else as before.
abbrev pub written : (ℕ → ℕ) → Option ℕ → Outcome (ℕ × Bool) → Outcome (ℕ × Bool)
written value (some v) r = ok (value v, true)
written value none r = r

merge_write :
    (value : ℕ → ℕ) (o : Option ℕ) (hit : Bool) (v : ℕ) (r : Outcome (ℕ × Bool))
    → written value o (if hit then ok (value v, true) else r)
      ≡ written value (or_else o (if hit then some v else none)) r
merge_write value (some w) hit v r = refl
merge_write value none true v r = refl
merge_write value none false v r = refl

module _ {D : Type 0} (read : D → Bytes → Outcome (ℕ × Bool))
    (write : D → Bytes → ℕ → Outcome D) where
  -- A write succeeds, and later reads give its value for its key and what was there for the others.
  unfoldable pub Writes : (ℕ → ℕ) → Type 0
  Writes value =
      (db : D) (id : Bytes) (v : ℕ)
      → IsU64 v
      → (next : D) × (write db id v ≡ ok next)
        × ((j : Bytes) → read next j ≡ (if bytes_eq id j then ok (value v, true) else read db j))

  -- A write that succeeds leaves the reads as they are.
  unfoldable pub Leaves : Type 0
  Leaves =
      (db next : D) (id : Bytes) (v : ℕ)
      → write db id v ≡ ok next
      → (j : Bytes) → read next j ≡ read db j

  pub read-put_all :
      (value : ℕ → ℕ)
      → Writes value
      → (order : List (Bytes × ℕ)) (db : D) (j : Bytes) → All (λ e. IsU64 e.1) order
      → read (put_all write order db) j ≡ written value (lookup j order) (read db j)
  unfolding put_all lookup Writes
  read-put_all value h [] db j u = refl
  read-put_all value h ((k, v) ∷ es) db j (u, us) =
      let (next, done, reads) = h db k v u in
      rw done (
        read-put_all value h es next j us
        ∙ rw (reads j) (merge_write value (lookup j es) (bytes_eq k j) v (read db j)))

  ignoring-Leaves :
      (db : D) (id : Bytes) (v : ℕ) (done : Outcome D)
      → Leaves
      → write db id v ≡ done
      → (j : Bytes) → read (ignoring db done) j ≡ read db j
  unfolding Leaves
  ignoring-Leaves db id v (ok next) h e j = h db next id v e j
  ignoring-Leaves db id v (err m) h e j = refl
  ignoring-Leaves db id v panic h e j = refl

  pub read-put_all_other :
      (order : List (Bytes × ℕ)) (db : D) (j : Bytes)
      → Leaves
      → read (put_all write order db) j ≡ read db j
  unfolding put_all
  read-put_all_other [] db j h = refl
  read-put_all_other ((k, v) ∷ es) db j h =
      read-put_all_other es (ignoring db (write db k v)) j h
      ∙ ignoring-Leaves db k v (write db k v) h refl j
