-- ===== src/Replay.antt =====
-- `ValidateBlockStateOnMainParent` of core/node/block_validate_fork.go: a block is run over the state that
-- a snapshot, or genesis, and the main chain up to its parent give; with `parseInt64` of
-- core/node/state_apply.go. The snapshot files and their JSON are parameters.
pub mod Pick
use reserve_os.Base.{
  ℕ, zero, suc, ◌+◌, ◌-◌, ◌^◌, Bool, true, false, not, ◌&&◌, ◌||◌, if◌then◌else◌, List, [], ◌∷◌,
  ◌++◌, Option, none, some, Bytes, codes, bytes_eq, is_empty, ltb, leb, ◌==◌, length, take, add64,
  sub64, mul64, Outcome, ok, err, panic, ◌>>=◌,
}
use reserve_os.Chain.{Block, hash_string}
use reserve_os.Crypto.{Primitives}
use reserve_os.Decimal.{read}
use reserve_os.Forks.Headers.{block_hash}
use reserve_os.Genesis.{Allocation, Genesis}
use reserve_os.Node.{Config}
use reserve_os.Node.Sim.{Sim, credit, apply_block_to_sim}
use reserve_os.Snapshots.{GoMap, Snapshot, has_prefix, has_suffix, trim_prefix}
use reserve_os.State.{Kv}
use reserve_os.Storage.{Json, get_block_by_height, get_tip}

-- What follows the last separator; all of it where there is none.
unfoldable pub base_from : Bytes → Bytes → Bytes
base_from cur [] = cur
base_from cur (c ∷ cs) = if c == 47 || c == 92 then base_from cs cs else base_from cur cs

unfoldable pub base_name : Bytes → Bytes
unfolding base_from
base_name p = base_from p p

-- `strings.TrimSuffix`
unfoldable pub trim_suffix : Bytes → Bytes → Bytes
trim_suffix s suffix = if has_suffix s suffix then take (length s - length suffix) s else s

unfoldable pub all_digits : Bytes → Bool
all_digits [] = true
all_digits (c ∷ cs) = leb 48 c && leb c 57 && all_digits cs

-- `strconv.ParseUint(s, 10, 64)`
unfoldable pub parse_uint : Bytes → Option ℕ
unfolding all_digits
parse_uint s =
    if not (is_empty s) && all_digits s && ltb (read s) (2 ^ 64) then some (read s) else none

unfoldable pub parse_snapshot_height : Bytes → Option ℕ
parse_snapshot_height base =
    if has_prefix base (codes "state_")
    then parse_uint (trim_suffix (trim_prefix base (codes "state_")) (codes ".json.gz"))
    else none

-- The best path so far with its height, after one more path.
unfoldable pub pick_step : ℕ → Bytes × ℕ → Bytes → Option ℕ → Bytes × ℕ
pick_step h best p none = best
pick_step h best p (some s) = if leb s h && leb best.1 s then (p, s) else best

unfoldable pub pick_from : ℕ → Bytes × ℕ → List Bytes → Bytes × ℕ
pick_from h best [] = best
pick_from h best (p ∷ paths) =
    pick_from h (pick_step h best p (parse_snapshot_height (base_name p))) paths

unfoldable pub pick_snapshot_for_height : List Bytes → ℕ → Bytes
pick_snapshot_for_height paths h = (pick_from h ([], 0) paths).0

-- `parseInt64` leaves out what is not a digit.
unfoldable pub parse_int64_from : ℕ → Bytes → ℕ
parse_int64_from n [] = n
parse_int64_from n (c ∷ cs) =
    parse_int64_from (if ltb c 48 || ltb 57 c then n else add64 (mul64 n 10) (c - 48)) cs

unfoldable pub parse_int64 : Bytes → ℕ
unfolding parse_int64_from
parse_int64 = parse_int64_from 0

unfoldable pub credit_allocations : List Allocation → Sim → Sim
credit_allocations [] s = s
credit_allocations (a ∷ more) s =
    credit_allocations more (credit a.address (parse_int64 a.balance) s)

abbrev pub or_nought : Option ℕ → ℕ
or_nought none = 0
or_nought (some v) = v

abbrev pub empty_sim : Sim
empty_sim = record { bal = λ id. 0; nonce = λ id. 0 }

abbrev pub sim_of : Snapshot → Sim
sim_of ss = record {
  bal = λ id. or_nought (ss.balances id);
  nonce = λ id. or_nought (ss.nonces id);
}

-- A snapshot that cannot be read counts as none.
abbrev pub from_snapshot : Outcome Snapshot → Outcome (ℕ × Sim)
from_snapshot (ok ss) = ok (ss.height, sim_of ss)
from_snapshot (err e) = ok (0, empty_sim)
from_snapshot panic = panic

abbrev pub with_genesis : Genesis → ℕ × Sim → ℕ × Sim
with_genesis g (h, s) = (h, if h == 0 then credit_allocations g.allocations s else s)

-- The state to start from, with its height.
unfoldable pub start_of : (Bytes → Outcome Snapshot) → Genesis → Bytes → Outcome (ℕ × Sim)
start_of read_snapshot g best =
    (if is_empty best then ok (0, empty_sim) else from_snapshot (read_snapshot best)) >>= λ start.
    ok (with_genesis g start)

-- `fmt.Errorf("replay_invalid:%w", err)`
abbrev pub invalid : Outcome Sim → Outcome Sim
invalid (ok s) = ok s
invalid (err e) = err (codes "replay_invalid:" ++ e)
invalid panic = panic

abbrev pub height_or_nought : Outcome (Option (ℕ × Bytes)) → Outcome ℕ
height_or_nought (ok (some tip)) = ok tip.0
height_or_nought (ok none) = ok 0
height_or_nought (err e) = ok 0
height_or_nought panic = panic

-- `ok, _, _ := GetBlockByHeight(…)`
abbrev pub block_or_none : Outcome (Option (Block × Bytes)) → Outcome (Option Block)
block_or_none (ok (some b)) = ok (some b.0)
block_or_none (ok none) = ok none
block_or_none (err e) = ok none
block_or_none panic = panic

module _ (kv : Kv) (json : Json) (cfg : Config) (prim : Primitives) where
  -- The loop over the heights up to the parent, with the number of them that is left.
  unfoldable pub replay_loop : kv.Db → ℕ → ℕ → Sim → Outcome Sim
  replay_loop db zero h s = ok s
  replay_loop db (suc n) h s = block_or_none (get_block_by_height kv json db h) >>= λ b. elim b [
    | none ↦ ok s
    | some blk ↦ invalid (apply_block_to_sim cfg prim blk s) >>= replay_loop db n (h + 1)
  ]

  unfoldable pub replay_onto :
      (Bytes → Outcome Snapshot) → Genesis → List Bytes → kv.Db → Block → ℕ → Outcome (Unit {0})
  replay_onto read_snapshot g snaps db b parent_h = do
    start ← start_of read_snapshot g (pick_snapshot_for_height snaps parent_h)
    s ← replay_loop db (parent_h - start.0) (start.0 + 1) start.1
    _ ← apply_block_to_sim cfg prim b s
    ok tt

  -- `snaps` is what `ListSnapshots` gives, empty for an error.
  unfoldable pub validate_block_state_on_main_parent :
      (Bytes → Bytes)
      → (Bytes → Outcome Snapshot)
      → Genesis
      → List Bytes
      → kv.Db
      → Block
      → Outcome (Unit {0})
  validate_block_state_on_main_parent sha256 read_snapshot g snaps db b =
      if not cfg.validation.validate_fork_state || b.header.height == 0
      then ok tt
      else (block_or_none (get_block_by_height kv json db (b.header.height - 1)) >>= λ parent.
          elim parent [
            | none ↦ ok tt
            | some p ↦
                if not (bytes_eq (block_hash kv json sha256 p) (hash_string b.header.prev_hash))
                then ok tt
                else (height_or_nought (get_tip kv json db) >>= λ tip_h.
                    if ltb (b.header.height - 1) tip_h
                      && ltb cfg.validation.max_replay_blocks (tip_h - (b.header.height - 1))
                    then ok tt
                    else replay_onto read_snapshot g snaps db b (b.header.height - 1))
          ])
