-- ===== src/Storage/Records.antt =====
-- Reads after writes of the chain's records (internal/reservestorage).
use reserve_os.Base.{
  ℕ, ◌≡◌, refl, sym, ◌∙◌, Bytes, codes, some, ok, ◌>>=◌, >>=-eq-ok, if◌then◌else◌, ◌==◌, IsU64,
  bytes_eq, bytes_eq_self, false,
}
use reserve_os.State.{Kv, GetPut}
use reserve_os.State.Store.{IsWritable}
use reserve_os.Storage.{
  Json, key_hash_by_height, get_hash_by_height, put_hash_by_height_overwrite, put_pair, get_pair,
  set_tip, get_tip, put_tip,
}
use reserve_os.Storage.Keys.{bytes_eq-key_hash_by_height}

-- A height is read back from its JSON.
unfoldable pub ReadsHeights : Json → Type 0
ReadsHeights json = (h : ℕ) → IsU64 h → json.unmarshal_height (json.marshal_height h) ≡ ok h

module _ (kv : Kv) (law : GetPut kv) where
  pub get_hash_by_height-put :
      (db next : kv.Db) (h : ℕ) (hash : Bytes) (j : ℕ)
      → IsU64 h
      → IsU64 j
      → put_hash_by_height_overwrite kv db h hash ≡ ok next
      → get_hash_by_height kv next j
        ≡ (if h == j then ok (some hash) else get_hash_by_height kv db j)
  unfolding get_hash_by_height put_hash_by_height_overwrite GetPut
  get_hash_by_height-put db next h hash j hw jw e =
      rw (sym (bytes_eq-key_hash_by_height h j hw jw))
        (law db next (key_hash_by_height h) hash (key_hash_by_height j) e)

  module _ (json : Json) (reads : ReadsHeights json) where
    -- A pair on two keys that differ is read back.
    get_pair-put_pair :
        (hk sk : Bytes) (db next : kv.Db) (h : ℕ) (hash : Bytes)
        → bytes_eq sk hk ≡ false
        → IsU64 h
        → put_pair kv json hk sk db h hash ≡ ok next
        → get_pair kv json hk sk next ≡ ok (some (h, hash))
    unfolding put_pair get_pair GetPut ReadsHeights
    get_pair-put_pair hk sk db next h hash apart hw e =
        let (mid, first, second) = >>=-eq-ok (kv.put db hk (json.marshal_height h)) _ e in
        let self = bytes_eq_self hk in
        let self' = bytes_eq_self sk in
        let height : kv.get next hk ≡ ok (some (json.marshal_height h)) =
          law mid next sk hash hk second ∙ rw apart (law db mid hk _ hk first ∙ rw self) in
        let string : kv.get next sk ≡ ok (some hash) = law mid next sk hash sk second ∙ rw self' in
        rw (height) (rw (reads h hw, string) refl)

    pub get_tip-set_tip :
        (db next : kv.Db) (h : ℕ) (hash : Bytes)
        → IsU64 h
        → set_tip kv json db h hash ≡ ok next
        → get_tip kv json next ≡ ok (some (h, hash))
    unfolding set_tip get_tip put_tip
    get_tip-set_tip db next h hash hw e = get_pair-put_pair _ _ db next h hash refl hw e

    pub get_hash_by_height-set_tip :
        (db next : kv.Db) (h : ℕ) (hash : Bytes) (j : ℕ)
        → set_tip kv json db h hash ≡ ok next
        → get_hash_by_height kv next j ≡ get_hash_by_height kv db j
    unfolding set_tip put_tip put_pair get_hash_by_height GetPut
    get_hash_by_height-set_tip db next h hash j e =
        let (mid, first, second) =
          >>=-eq-ok (kv.put db (codes "meta:tip_height") (json.marshal_height h)) _ e in
        law mid next (codes "meta:tip_block_id") hash (key_hash_by_height j) second
        ∙ law db mid (codes "meta:tip_height") _ (key_hash_by_height j) first

    pub set_tip_total :
        (writes : IsWritable kv) (db : kv.Db) (h : ℕ) (hash : Bytes)
        → (next : kv.Db) × (set_tip kv json db h hash ≡ ok next)
    unfolding set_tip put_tip put_pair IsWritable
    set_tip_total writes db h hash =
        let (mid, first) = writes db (codes "meta:tip_height") (json.marshal_height h) in
        let (next, second) = writes mid (codes "meta:tip_block_id") hash in
        (next, rw (first, ◌>>=◌) second)
