-- ===== src/Snapshots/RoundTrip.antt =====
-- `RestoreSnapshot` of core/state/snapshot.go after `ExportStateMaps` of core/state/snapshot_bin.go.
use reserve_os.Base.{
  ℕ, ◌≡◌, refl, sym, ap, ◌∙◌, false, List, ◌++◌, Bytes, codes, All, IsU64, ok, ◌>>=◌,
}
use reserve_os.State.{Kv, Scan, GetPut, read_uint64, get_balance, set_balance, get_nonce, set_nonce}
use reserve_os.State.Store.{IsWritable}
use reserve_os.Snapshots.{
  GoMap, no_entries, export_from, put_all, export_state_maps, restore_snapshot,
}
use reserve_os.Snapshots.Restore.{IsScan, IsOrder, written, read-put_all, read-put_all_other}
use reserve_os.Snapshots.Reads.{
  clamp, keep, WellStored, Writes-set_balance, Writes-set_nonce, Leaves-set_balance,
  Leaves-set_nonce, read-lookup, reset_state_lem, exported,
}

module _ (kv : Kv) (law : GetPut kv) (writes : IsWritable kv) (scan : Scan kv)
    (is_scan : IsScan kv scan) where
  restored_balance :
      (db mid next : kv.Db) (bal : GoMap) (bs ns : List (Bytes × ℕ)) (id : Bytes)
      → next ≡ put_all (set_nonce kv) ns (put_all (set_balance kv) bs mid)
      → ((j : Bytes) → get_balance kv mid j ≡ ok (0, false))
      → WellStored kv scan clamp db (codes "bal:")
      → export_from (codes "bal:") (scan.entries db (codes "bal:")) no_entries ≡ bal
      → IsOrder bal bs
      → All (λ e. IsU64 e.1) bs
      → get_balance kv next id ≡ get_balance kv db id
  unfolding IsOrder get_balance
  restored_balance db mid next bal bs ns id same empty stored out order fits =
      let put = put_all (set_balance kv) bs mid in
      let later =
        read-put_all_other (get_balance kv) (set_nonce kv) ns put id
          (Leaves-set_nonce kv law writes) in
      let own =
        read-put_all (get_balance kv) (set_balance kv) clamp (Writes-set_balance kv law writes) bs
          mid id fits in
      let before : (kv.get db (codes "bal:" ++ id) >>= read_uint64) ≡ _ =
        read-lookup kv law writes scan is_scan clamp db (codes "bal:") id stored in
      ap (λ d. get_balance kv d id) same
      ∙ (later
          ∙ (own
              ∙ (rw (order id, empty id) refl
                  ∙ (ap (λ m. written clamp (m id) (ok (0, false))) (sym out) ∙ sym before))))

  restored_nonce :
      (db mid next : kv.Db) (non : GoMap) (bs ns : List (Bytes × ℕ)) (id : Bytes)
      → next ≡ put_all (set_nonce kv) ns (put_all (set_balance kv) bs mid)
      → ((j : Bytes) → get_nonce kv mid j ≡ ok (0, false))
      → WellStored kv scan keep db (codes "nonce:")
      → export_from (codes "nonce:") (scan.entries db (codes "nonce:")) no_entries ≡ non
      → IsOrder non ns
      → All (λ e. IsU64 e.1) ns
      → get_nonce kv next id ≡ get_nonce kv db id
  unfolding IsOrder get_nonce
  restored_nonce db mid next non bs ns id same empty stored out order fits =
      let put = put_all (set_balance kv) bs mid in
      let own =
        read-put_all (get_nonce kv) (set_nonce kv) keep (Writes-set_nonce kv law writes) ns put id
          fits in
      let later =
        read-put_all_other (get_nonce kv) (set_balance kv) bs mid id
          (Leaves-set_balance kv law writes) in
      let before : (kv.get db (codes "nonce:" ++ id) >>= read_uint64) ≡ _ =
        read-lookup kv law writes scan is_scan keep db (codes "nonce:") id stored in
      ap (λ d. get_nonce kv d id) same
      ∙ (own
          ∙ (rw (order id, later, empty id) refl
              ∙ (ap (λ m. written keep (m id) (ok (0, false))) (sym out) ∙ sym before)))

  -- On a database whose writes succeed and whose balances are not negative, each of eight bytes as each
  -- nonce, the maps that the export gives, restored onto any other database in whatever order the
  -- maps are visited, give there for every account the balance and the nonce of the first, with
  -- whether it is found.
  pub restore_snapshot-export_state_maps :
      (db other : kv.Db) (bal non : GoMap) (bs ns : List (Bytes × ℕ))
      → WellStored kv scan clamp db (codes "bal:")
      → WellStored kv scan keep db (codes "nonce:")
      → export_state_maps kv scan db ≡ ok (bal, non)
      → IsOrder bal bs
      → IsOrder non ns
      → All (λ e. IsU64 e.1) bs
      → All (λ e. IsU64 e.1) ns
      → (next : kv.Db) × (restore_snapshot kv scan other bs ns ≡ ok next)
        × ((id : Bytes) → get_balance kv next id ≡ get_balance kv db id)
        × ((id : Bytes) → get_nonce kv next id ≡ get_nonce kv db id)
  unfolding restore_snapshot
  restore_snapshot-export_state_maps db other bal non bs ns bals nonces e border norder bfits
        nfits =
      let (mid, done, no_bal, no_nonce) = reset_state_lem kv law writes scan is_scan other in
      let (bout, nout) = exported kv law writes scan is_scan db bal non e in
      (
        put_all (set_nonce kv) ns (put_all (set_balance kv) bs mid),
        rw done refl,
        λ id. restored_balance db mid _ bal bs ns id refl no_bal bals bout border bfits,
        λ id. restored_nonce db mid _ non bs ns id refl no_nonce nonces nout norder nfits,
      )
