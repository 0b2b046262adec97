-- ===== src/Forks/Headers.antt =====
-- The walks over headers and blocks: internal/reservestorage/header_ancestors.go and ancestors.go,
-- core/node/reorg_best.go, core/node/bestchain.go, core/node/block_header_match.go and
-- `enforceFinalizedOnCandidate` of core/node/node.go. Each loop runs until it meets its height and
-- has a number of headers as fuel; `none` means that they did not suffice. A parent's hash is compared
-- and looked up as its `String`.
pub mod Walk
use reserve_os.Base.{
  ℕ, zero, suc, Bool, true, false, not, ◌&&◌, ◌||◌, if◌then◌else◌, List, [], ◌∷◌, Option, none,
  some, Bytes, codes, bytes_eq, is_empty, ltb, leb, ◌==◌, Outcome, ok, err, panic, ◌>>=◌, ◌>>◌,
  fail_if,
}
use reserve_os.Chain.{Block, BlockHeader, hash_string, header_hash}
use reserve_os.State.{Kv}
use reserve_os.Storage.{
  Json, get_block_by_height, get_block_by_hash, get_header_by_hash, get_header_tip,
  get_best_chain_tip, get_best_hash_at_height, get_finalized_height,
}
use reserve_os.Forks.{found}

-- What a loop gives: `none` where the fuel is used up.
abbrev pub Run {ℓ} : Type ℓ → Type ℓ
Run A = Option (Outcome A)

module _ (kv : Kv) (json : Json) where
  -- One round of `GetHeaderAncestorHashAtHeight`, with the rest of the loop as `next`.
  unfoldable pub ancestor_round :
      Bytes
      → ℕ
      → (BlockHeader → Run (Option Bytes))
      → Outcome (Option BlockHeader)
      → Run (Option Bytes)
  ancestor_round cur target next panic = some panic
  ancestor_round cur target next (err m) = some (err m)
  ancestor_round cur target next (ok none) = some (ok none)
  ancestor_round cur target next (ok (some hdr)) =
      if hdr.height == target
      then some (ok (some cur))
      else if ltb hdr.height target
      then some (ok none)
      else if hdr.height == 0
      then some (ok none)
      else next hdr

  unfoldable pub get_header_ancestor_hash_at_height : ℕ → kv.Db → Bytes → ℕ → Run (Option Bytes)
  unfolding ancestor_round
  get_header_ancestor_hash_at_height zero db cur target = none
  get_header_ancestor_hash_at_height (suc fuel) db cur target =
      ancestor_round cur target
        (λ hdr. get_header_ancestor_hash_at_height fuel db (hash_string hdr.prev_hash) target)
        (get_header_by_hash kv json db cur)

  -- `GetAncestorHashAtHeight` over blocks, round by round. It gives the hash that the block has, where
  -- the walk over headers gives the one it was looked up by.
  unfoldable pub block_round :
      (Block → Bytes)
      → ℕ
      → (Block → Run (Option Bytes))
      → Outcome (Option Block)
      → Run (Option Bytes)
  block_round hash_of target next panic = some panic
  block_round hash_of target next (err m) = some (err m)
  block_round hash_of target next (ok none) = some (ok none)
  block_round hash_of target next (ok (some b)) =
      if b.header.height == target
      then some (ok (some (hash_of b)))
      else if ltb b.header.height target
      then some (ok none)
      else if b.header.height == 0
      then some (ok none)
      else next b

  unfoldable pub get_ancestor_hash_at_height :
      (Block → Bytes) → ℕ → kv.Db → Bytes → ℕ → Run (Option Bytes)
  unfolding block_round
  get_ancestor_hash_at_height hash_of zero db cur target = none
  get_ancestor_hash_at_height hash_of (suc fuel) db cur target =
      block_round hash_of target
        (λ b. get_ancestor_hash_at_height hash_of fuel db (hash_string b.header.prev_hash) target)
        (get_block_by_hash kv json db cur)

  -- The header tip, with its hash replaced by the best chain's tip where there is one.
  abbrev pub best_tip : Option (ℕ × Bytes) → Option Bytes → ℕ × Bytes × Bool
  best_tip none none = (0, [], false)
  best_tip (some (h, hash)) none = (h, hash, true)
  best_tip none (some tip) = if is_empty tip then (0, [], false) else (0, tip, true)
  best_tip (some (h, hash)) (some tip) = if is_empty tip then (h, hash, true) else (h, tip, true)

  abbrev pub cached : Option Bytes → Option Bytes
  cached none = none
  cached (some v) = if is_empty v then none else some v

  -- What is dropped: the error of the walk.
  abbrev pub walked : Run (Option Bytes) → Option (Option Bytes)
  walked none = none
  walked (some o) = some (found o)

  abbrev pub or_walk : Option Bytes → Option (Option Bytes) → Option (Option Bytes)
  or_walk (some v) walk = some (some v)
  or_walk none walk = walk

  unfoldable pub best_below : ℕ → kv.Db → ℕ → ℕ × Bytes × Bool → Option (Option Bytes)
  unfolding get_header_ancestor_hash_at_height
  best_below fuel db target (h, hash, known) =
      if not known || is_empty hash || ltb h target
      then some none
      else or_walk (cached (found (get_best_hash_at_height kv db target)))
          (walked (get_header_ancestor_hash_at_height fuel db hash target))

  unfoldable pub best_chain_hash_at_height : ℕ → kv.Db → ℕ → Option (Option Bytes)
  unfolding best_below
  best_chain_hash_at_height fuel db target =
      best_below fuel db target
        (best_tip (found (get_header_tip kv db)) (found (get_best_chain_tip kv db)))

  -- One round of the loop of `headerPathFromTo`; `seq` is kept with its lowest hash first.
  unfoldable pub path_round :
      Bytes
      → ℕ
      → ℕ
      → List Bytes
      → (BlockHeader → List Bytes → Run (List Bytes))
      → Outcome (Option BlockHeader)
      → Run (List Bytes)
  path_round cur from to seq next panic = some panic
  path_round cur from to seq next (err m) = some (err m)
  path_round cur from to seq next (ok none) = some (err (codes "unknown_header"))
  path_round cur from to seq next (ok (some hdr)) =
      if ltb hdr.height from
      then some (ok seq)
      else let seq' = if leb hdr.height to then cur ∷ seq else seq in
        if hdr.height == from then some (ok seq') else next hdr seq'

  unfoldable pub path_loop : ℕ → kv.Db → Bytes → ℕ → ℕ → List Bytes → Run (List Bytes)
  unfolding path_round
  path_loop zero db cur from to seq = none
  path_loop (suc fuel) db cur from to seq =
      path_round cur from to seq
        (λ hdr seq'. path_loop fuel db (hash_string hdr.prev_hash) from to seq')
        (get_header_by_hash kv json db cur)

  unfoldable pub header_path_from_to : ℕ → kv.Db → ℕ → ℕ → Bytes → Run (List Bytes)
  unfolding path_loop
  header_path_from_to fuel db from to tip =
      if ltb to from then some (ok []) else path_loop fuel db tip from to []

  module _ (sha256 : Bytes → Bytes) where
    -- `b.Hash().String()`
    abbrev pub block_hash : Block → Bytes
    block_hash b = hash_string (header_hash sha256 b.header)

    abbrev pub has_hash : Bytes → Option (Block × Bytes) → Bool
    has_hash cur none = false
    has_hash cur (some (b, hash)) = bytes_eq (block_hash b) cur

    -- Whether the main chain's block at this height has the hash.
    unfoldable pub on_main_chain : kv.Db → ℕ → ℕ → Bytes → Bool
    on_main_chain db cur_h h cur =
        leb h cur_h && has_hash cur (found (get_block_by_height kv json db h))

    unfoldable pub fork_round :
        kv.Db
        → ℕ
        → Bytes
        → (BlockHeader → Run (ℕ × Bytes))
        → Outcome (Option BlockHeader)
        → Run (ℕ × Bytes)
    fork_round db cur_h cur next panic = some panic
    fork_round db cur_h cur next (err m) = some (err m)
    fork_round db cur_h cur next (ok none) = some (err (codes "unknown_header"))
    fork_round db cur_h cur next (ok (some hdr)) =
        if hdr.height == 0
        then some (ok (0, []))
        else if on_main_chain db cur_h hdr.height cur
        then some (ok (hdr.height, cur))
        else next hdr

    unfoldable pub fork_loop : ℕ → kv.Db → ℕ → Bytes → Run (ℕ × Bytes)
    unfolding fork_round
    fork_loop zero db cur_h cur = none
    fork_loop (suc fuel) db cur_h cur =
        fork_round db cur_h cur (λ hdr. fork_loop fuel db cur_h (hash_string hdr.prev_hash))
          (get_header_by_hash kv json db cur)

    unfoldable pub find_fork_point : ℕ → kv.Db → ℕ → Bytes → Bytes → Run (ℕ × Bytes)
    unfolding fork_loop
    find_fork_point fuel db cur_h cur_hash head_hash =
        if is_empty cur_hash then some (ok (0, [])) else fork_loop fuel db cur_h head_hash

    unfoldable pub matches_header : Block → Option BlockHeader → Outcome (Unit {0})
    matches_header b none = err (codes "missing_header")
    matches_header b (some hdr) = do
      fail_if (not (hdr.height == b.header.height)) (codes "height_mismatch")
      fail_if (not (bytes_eq hdr.prev_hash b.header.prev_hash)) (codes "prev_mismatch")
      fail_if (not (hdr.bits == b.header.bits)) (codes "bits_mismatch")
      fail_if (not (hdr.time_unix == b.header.time_unix)) (codes "ts_mismatch")
      fail_if (not (bytes_eq hdr.tx_root b.header.tx_root)) (codes "txroot_mismatch")

    -- `BlockMatchesStoredHeader`
    unfoldable pub block_matches_stored_header : kv.Db → Block → Outcome (Unit {0})
    unfolding matches_header
    block_matches_stored_header db b =
        get_header_by_hash kv json db (block_hash b) >>= matches_header b

    -- The candidate's hash at the finalized height against the main chain's. A candidate that does
    -- not reach down there passes.
    abbrev pub same_final : Block → Option Bytes → Outcome (Unit {0})
    same_final main_b none = ok tt
    same_final main_b (some cand_hash) =
        fail_if (not (bytes_eq cand_hash (block_hash main_b))) (codes "violates_finalized")

    abbrev pub final_on : Option (Block × Bytes) → Option (Option Bytes) → Run (Unit {0})
    final_on none cand = some (ok tt)
    final_on (some (b, hash)) none = none
    final_on (some (b, hash)) (some cand) = some (same_final b cand)

    abbrev pub final_at : ℕ → kv.Db → Bytes → Option ℕ → Run (Unit {0})
    final_at fuel db tip none = some (ok tt)
    final_at fuel db tip (some fin_h) =
        if fin_h == 0
        then some (ok tt)
        else final_on (found (get_block_by_height kv json db fin_h))
            (walked (get_ancestor_hash_at_height block_hash fuel db tip fin_h))

    -- `enforceFinalizedOnCandidate`
    unfoldable pub enforce_finalized_on_candidate : ℕ → kv.Db → Bytes → Run (Unit {0})
    enforce_finalized_on_candidate fuel db tip =
        final_at fuel db tip (found (get_finalized_height kv db))
