-- ===== src/Forks/Unread.antt =====
-- The finality of weighted votes is not read by the fork choice: core/node/finality_weighted.go writes
-- the records of internal/reservestorage/finality_finalized.go and finality_finalized_hash.go, and
-- core/node/forkchoice.go reads the one of internal/reservestorage/finality.go.
use reserve_os.Base.{ℕ, ◌≡◌, Bytes, codes}
use reserve_os.State.{Kv}
use reserve_os.Storage.{Json, key_block_by_hash, key_hash_by_height}

module _ (kv : Kv) (json : Json) (db next : kv.Db) where
  -- The two databases agree on all that the fork choice reads.
  record Agrees : Type 0 where
    block : (h : Bytes) → kv.get next (key_block_by_hash h) ≡ kv.get db (key_block_by_hash h)
    index : (h : ℕ) → kv.get next (key_hash_by_height h) ≡ kv.get db (key_hash_by_height h)
    height : kv.get next (codes "meta:finalized_height") ≡ kv.get db (codes "meta:finalized_height")
    hash : kv.get next (codes "meta:finalized_hash") ≡ kv.get db (codes "meta:finalized_hash")
