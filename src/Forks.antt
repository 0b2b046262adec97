-- ===== src/Forks.antt =====
-- Which chain the node follows: `trySwitchMainChain` (core/node/forkchoice.go), the walks over header
-- and block ancestors (core/node/reorg_best.go, internal/reservestorage/header_ancestors.go and
-- ancestors.go), the rule of the finalized height (core/node/node.go), the best chain
-- (core/node/bestchain.go), the match with a stored header (core/node/block_header_match.go) and the
-- locator (core/node/locator.go).
pub mod Index
pub mod Switch
pub mod Unread
pub mod Headers
pub mod Locator
use reserve_os.Base.{
  ℕ, zero, suc, Bool, true, false, not, ◌&&◌, ◌||◌, if◌then◌else◌, List, [], ◌∷◌, Option, none,
  some, Bytes, codes, bytes_eq, is_empty, ltb, leb, ◌==◌, add64, sub64, is_neg, Outcome, ok, err,
  panic, ◌>>=◌, ◌>>◌, fail_if,
}
use reserve_os.Chain.{Block, BlockHeader, hash_string}
use reserve_os.State.{Kv, ignoring}
use reserve_os.Storage.{
  Json, get_finalized, get_block_by_height, get_block_by_hash, put_hash_by_height_overwrite,
  set_tip,
}

-- Where the error of a getter is dropped it counts as not found; a stored record is taken to be
-- readable.
abbrev pub found {ℓ} : {A : Type ℓ} → Outcome (Option A) → Option A
found (ok o) = o
found (err m) = none
found panic = none

-- `if err != nil || !ok { return errors.New(message) }`
abbrev pub found_or {ℓ} : {A : Type ℓ} → Bytes → Option A → Outcome A
found_or message none = err message
found_or message (some a) = ok a

-- `path[len(path)-1] != finHash`
unfoldable pub anchored : Bytes → List Bytes → Outcome (List Bytes)
anchored fin_hash [] = panic
anchored fin_hash (h ∷ path) =
    if bytes_eq h fin_hash then ok (h ∷ path) else err (codes "candidate chain anchor mismatch")

-- `make` panics for a capacity below 0.
abbrev pub path_capacity : ℕ → ℕ → Outcome (Unit {0})
path_capacity fin height = if is_neg (add64 (sub64 height fin) 1) then panic else ok tt

module _ (kv : Kv) where
  -- The entries of the index from a height on; errors are ignored.
  unfoldable pub write_index : kv.Db → ℕ → List Bytes → kv.Db
  write_index db height [] = db
  write_index db height (h ∷ hs) =
      write_index (ignoring db (put_hash_by_height_overwrite kv db height h)) (add64 height 1) hs

module _ (kv : Kv) (json : Json) where
  abbrev genesis_anchor : Option (Block × Bytes) → Outcome (ℕ × Bytes)
  genesis_anchor none = err (codes "missing genesis")
  genesis_anchor (some (b, hash)) = ok (0, hash)

  -- The finalized height and hash, or genesis.
  unfoldable pub anchor_or : kv.Db → Option (ℕ × Bytes) → Outcome (ℕ × Bytes)
  anchor_or db none = genesis_anchor (found (get_block_by_height kv json db 0))
  anchor_or db (some a) = ok a

  unfoldable pub anchor : kv.Db → Outcome (ℕ × Bytes)
  anchor db = get_finalized kv json db >>= anchor_or db

  unfoldable pub candidate_block : kv.Db → Bytes → Outcome Block
  candidate_block db hash =
      found_or (codes "missing block in candidate chain")
        (found (get_block_by_hash kv json db hash))

  -- The walk from `hash` at a height down to the finalized height. The path is kept with its lowest
  -- hash first.
  unfoldable pub walk_back : kv.Db → ℕ → Bytes → ℕ → List Bytes → Outcome (List Bytes)
  walk_back db fin hash zero path =
      if 0 == fin then ok (hash ∷ path) else (candidate_block db hash >>= λ b. ok (hash ∷ path))
  walk_back db fin hash (suc n) path =
      if suc n == fin
      then ok (hash ∷ path)
      else (candidate_block db hash >>= λ b.
          fail_if (ltb n fin) (codes "candidate does not reach finalized height")
          >> walk_back db fin (hash_string b.header.prev_hash) n (hash ∷ path))

  unfoldable pub candidate_path : kv.Db → Bytes → ℕ → ℕ × Bytes → Outcome (List Bytes)
  candidate_path db tip height a =
      path_capacity a.0 height >> (walk_back db a.0 tip height [] >>= anchored a.1)

  -- `trySwitchMainChain` up to its last call, which rebuilds balances and nonces.
  unfoldable pub try_switch_main_chain : kv.Db → Bytes → ℕ → Outcome kv.Db
  try_switch_main_chain db tip height = do
    a ← anchor db
    path ← candidate_path db tip height a
    ok (
        ignoring (write_index kv db a.0 path)
          (set_tip kv json (write_index kv db a.0 path) height tip))
