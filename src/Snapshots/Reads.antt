-- ===== src/Snapshots/Reads.antt =====
-- What is read of the balances and nonces before an export, after `ResetState` and after each write of
-- `RestoreSnapshot` (core/state/state.go, snapshot.go and snapshot_bin.go).
use reserve_os.Base.{
  ℕ, ◌≡◌, refl, sym, ap, ◌∙◌, Bool, true, false, if◌then◌else◌, List, [], ◌∷◌, ◌++◌, map, Option,
  none, some, arith, Bytes, codes, bytes_eq, Bool-cases, inl, inr, ◌||◌, leb, length, take, All,
  append-nil, is_neg, be_bytes, be_value, Outcome, ok, ◌>>=◌,
}
use reserve_os.State.{
  Kv, Scan, GetPut, or_fault, key_bal, key_nonce, uint64_be, read_uint64, get_balance, set_balance,
  get_nonce, set_nonce,
}
use reserve_os.State.Store.{IsWritable, uint64_be-be_bytes, take_all}
use reserve_os.Snapshots.{GoMap, no_entries, export_from, export_state_maps, reset_state}
use reserve_os.Snapshots.Maps.{
  or_else-none, lookup, IsEntry, value_of, has_prefix-append, export_from-eq, lookup-All, has_key,
  has_key-append, lookup-none,
}
use reserve_os.Snapshots.Restore.{IsScan, written, Writes, Leaves}

abbrev pub clamp : ℕ → ℕ
clamp v = if is_neg v then 0 else v

-- Eight bytes with a value that `f` keeps.
pub record IsStored (f : ℕ → ℕ) (b : Bytes) : Type 0 where
  pub eight : length b ≡ 8
  pub kept : f (be_value b) ≡ be_value b

abbrev pub keep : ℕ → ℕ
keep v = v

read_uint64-stored :
    (f : ℕ → ℕ) (o : Option Bytes)
    → ((b : Bytes) → o ≡ some b → IsStored f b)
    → read_uint64 o ≡ written f (value_of o) (ok (0, false))
unfolding read_uint64 uint64_be
read_uint64-stored f none h = refl
read_uint64-stored f (some b) h =
    let st = h b refl in
    let long : leb 8 (length b) ≡ true = ground (arith, st.eight) in
    let whole : take 8 b ≡ b = ap (λ n. take n b) (sym (st.eight)) ∙ take_all b in
    rw (long, whole, st.kept) refl

-- The entries of a prefix, with the numbers that `f` keeps.
unfoldable pub WellStored : (kv : Kv) → Scan kv → (ℕ → ℕ) → kv.Db → Bytes → Type 0
WellStored kv scan f db prefix =
    All (λ e. IsEntry prefix e × IsStored f e.1) (scan.entries db prefix)

either_way : (b : Bool) (o : Outcome (Option Bytes)) → (if b || true then ok none else o) ≡ ok none
either_way true o = refl
either_way false o = refl

abbrev none_read : Outcome (Option Bytes)
none_read = ok none

same_way : (b : Bool) → (if b then none_read else none_read) ≡ none_read
same_way true = refl
same_way false = refl

All-first {ℓ} : {A : Type ℓ} (P Q : A → Type 0) (xs : List A) → All (λ x. P x × Q x) xs → All P xs
All-first P Q [] h = tt
All-first P Q (x ∷ xs) ((p, q), h) = (p, All-first P Q xs h)

abbrev both : Outcome GoMap → Outcome GoMap → Outcome (GoMap × GoMap)
both x y = do a ← x; b ← y; ok (a, b)

exported_pair :
    (f g : Option Bytes) (m n bal non : GoMap)
    → both (or_fault f m) (or_fault g n) ≡ ok (bal, non)
    → (m ≡ bal) × (n ≡ non)
exported_pair none none m n bal non e = (cc, cc)
exported_pair none (some x) m n bal non e = absurd cc
exported_pair (some x) g m n bal non e = absurd cc

module _ (kv : Kv) (law : GetPut kv) (writes : IsWritable kv) where
  pub Writes-set_balance : Writes (get_balance kv) (set_balance kv) clamp
  unfolding Writes set_balance get_balance read_uint64 GetPut IsWritable
  Writes-set_balance db id v u =
      let (next, done) = writes db (key_bal id) (be_bytes 8 (clamp v)) in
      (
        next,
        done,
        λ j. elim (Bool-cases (bytes_eq id j)) [
          | inl here ↦
              rw
                (
                  law db next _ _ (key_bal j) done,
                  here,
                  uint64_be-be_bytes (clamp v) (ground arith),
                )
                refl
          | inr there ↦ rw (law db next _ _ (key_bal j) done, there) refl
        ],
      )

  pub Writes-set_nonce : Writes (get_nonce kv) (set_nonce kv) keep
  unfolding Writes set_nonce get_nonce read_uint64 GetPut IsWritable
  Writes-set_nonce db id v u =
      let (next, done) = writes db (key_nonce id) (be_bytes 8 v) in
      (
        next,
        done,
        λ j. elim (Bool-cases (bytes_eq id j)) [
          | inl here ↦ rw (law db next _ _ (key_nonce j) done, here, uint64_be-be_bytes v u) refl
          | inr there ↦ rw (law db next _ _ (key_nonce j) done, there) refl
        ],
      )

  pub Leaves-set_balance : Leaves (get_nonce kv) (set_balance kv)
  unfolding Leaves set_balance get_nonce GetPut
  Leaves-set_balance db next id v done j = rw (law db next _ _ (key_nonce j) done) refl

  pub Leaves-set_nonce : Leaves (get_balance kv) (set_nonce kv)
  unfolding Leaves set_nonce get_balance GetPut
  Leaves-set_nonce db next id v done j = rw (law db next _ _ (key_bal j) done) refl

  module _ (scan : Scan kv) (is_scan : IsScan kv scan) where
    -- What is stored under a prefix, as it is read and as it is exported.
    pub read-lookup :
        (f : ℕ → ℕ) (db : kv.Db) (prefix id : Bytes)
        → WellStored kv scan f db prefix
        → (kv.get db (prefix ++ id) >>= read_uint64)
          ≡ written f (export_from prefix (scan.entries db prefix) no_entries id) (ok (0, false))
    unfolding WellStored
    read-lookup f db prefix id all =
        let es = scan.entries db prefix in
        let found = is_scan.entries_lem db prefix (prefix ++ id) (has_prefix-append prefix id) in
        let stored : (b : Bytes) → lookup (prefix ++ id) es ≡ some b → IsStored f b =
          λ b e. (lookup-All _ (prefix ++ id) es b all e).1.1 in
        let exported = export_from-eq prefix es no_entries id (All-first _ _ es all) in
        rw found (
          read_uint64-stored f (lookup (prefix ++ id) es) stored
          ∙ ap (λ o. written f o (ok (0, false)))
              (sym (exported ∙ or_else-none (value_of (lookup (prefix ++ id) es)))))

    deleted :
        (db : kv.Db) (prefix id : Bytes) (ks js : List Bytes)
        → (if has_key (prefix ++ id) (ks ++ (map (λ e. e.0) (scan.entries db prefix) ++ js))
            then ok none
            else kv.get db (prefix ++ id))
          ≡ ok none
    deleted db prefix id ks js =
        let k = prefix ++ id in
        let es = scan.entries db prefix in
        let own = map (λ e. e.0) es in
        let found = is_scan.entries_lem db prefix k (has_prefix-append prefix id) in
        let split = has_key-append k ks (own ++ js) in
        let split' = has_key-append k own js in
        elim (Bool-cases (has_key k own)) [
          | inl here ↦ rw (split, split', here) (either_way (has_key k ks) _)
          | inr absent ↦
              rw (found, lookup-none k es absent) (same_way (has_key k (ks ++ (own ++ js))))
        ]

    pub reset_state_lem :
        (db : kv.Db)
        → (next : kv.Db) × (reset_state kv scan db ≡ ok next)
          × ((id : Bytes) → get_balance kv next id ≡ ok (0, false))
          × ((id : Bytes) → get_nonce kv next id ≡ ok (0, false))
    unfolding reset_state get_balance get_nonce read_uint64
    reset_state_lem db =
        let bals = map (λ e. e.0) (scan.entries db (codes "bal:")) in
        let nonces = map (λ e. e.0) (scan.entries db (codes "nonce:")) in
        let (next, done, reads) = is_scan.delete_all_lem db (bals ++ nonces) in
        (
          next,
          done,
          λ id. rw (reads (key_bal id) ∙ deleted db (codes "bal:") id [] nonces) refl,
          λ id.
              rw
                (reads (key_nonce id)
                  ∙ (ap
                        (λ xs.
                          if has_key (key_nonce id) (bals ++ xs)
                          then ok none
                          else kv.get db (key_nonce id))
                        (sym (append-nil nonces))
                      ∙ deleted db (codes "nonce:") id bals []))
                refl,
        )

    -- What the two exports give.
    pub exported :
        (db : kv.Db) (bal non : GoMap)
        → export_state_maps kv scan db ≡ ok (bal, non)
        → (export_from (codes "bal:") (scan.entries db (codes "bal:")) no_entries ≡ bal)
          × (export_from (codes "nonce:") (scan.entries db (codes "nonce:")) no_entries ≡ non)
    unfolding export_state_maps
    exported db bal non e =
        exported_pair (scan.fault db (codes "bal:")) (scan.fault db (codes "nonce:")) _ _ bal non e
