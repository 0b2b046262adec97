-- ===== src/Storage.antt =====
-- The records of the chain in the database: internal/reservestorage, the files blocks.go, query.go,
-- chainmeta.go, headers_index.go, headers_frontier.go, bestchain_cache.go, bestchain_marker.go, cumwork.go,
-- work.go, finality.go,
-- finality_finalized.go and finality_finalized_hash.go. Values are
-- JSON of encoding/json, eight bytes or plain strings; `none` is what a getter gives for a key that is
-- not there. A batch of two writes is the second after the first; an error of either gives no database.
pub mod Keys
pub mod Records
use reserve_os.Base.{
  ℕ, Bool, true, false, if◌then◌else◌, [], ◌∷◌, ◌++◌, Option, none, some, Bytes, codes, is_empty,
  length, ◌==◌, be_bytes, be_value, Outcome, ok, err, panic, ◌>>=◌,
}
use reserve_os.Chain.{Block, BlockHeader}
use reserve_os.Decimal.{itoa_u}
use reserve_os.State.{Kv, ignoring, uint64_be}

-- What is used of encoding/json.
pub record Json : Type 0 where
  pub marshal_block : Block → Outcome Bytes
  pub unmarshal_block : Bytes → Outcome Block
  pub marshal_header : BlockHeader → Outcome Bytes
  pub unmarshal_header : Bytes → Outcome BlockHeader
  pub marshal_height : ℕ → Bytes
  pub unmarshal_height : Bytes → Outcome ℕ

abbrev pub key_block_by_hash : Bytes → Bytes
key_block_by_hash hash = codes "blk:hash:" ++ hash

abbrev pub key_hash_by_height : ℕ → Bytes
key_hash_by_height h = codes "blk:height:" ++ be_bytes 8 h

abbrev pub key_hdr_hash : Bytes → Bytes
key_hdr_hash hash = codes "hdr:" ++ hash

abbrev pub key_hdr_at_height : ℕ → Bytes → Bytes
key_hdr_at_height h hash = codes "hdrh:" ++ (itoa_u h ++ (codes ":" ++ hash))

abbrev pub key_best_at_height : ℕ → Bytes
key_best_at_height h = codes "besth:" ++ itoa_u h

abbrev pub key_cum_work : Bytes → Bytes
key_cum_work hash = codes "cumwork:" ++ hash

abbrev pub key_work : Bytes → Bytes
key_work hash = codes "work:" ++ hash

-- A value that is there is read by `f`.
abbrev pub read_with {ℓ} : {A : Type ℓ} → (Bytes → Outcome A) → Option Bytes → Outcome (Option A)
read_with f none = ok none
read_with f (some b) = f b >>= λ a. ok (some a)

-- Eight bytes or an error; where the value has another length the error of the read, which is nil,
-- is returned with a flag of false.
abbrev pub read_eight : Option Bytes → Outcome (Option ℕ)
read_eight none = ok none
read_eight (some b) = ok (if length b == 8 then some (be_value b) else none)

module _ (kv : Kv) where
  unfoldable pub get_hash_by_height : kv.Db → ℕ → Outcome (Option Bytes)
  get_hash_by_height db height = kv.get db (key_hash_by_height height)

  unfoldable pub put_hash_by_height_overwrite : kv.Db → ℕ → Bytes → Outcome kv.Db
  put_hash_by_height_overwrite db height hash = kv.put db (key_hash_by_height height) hash

  unfoldable pub put_best_hash_at_height : kv.Db → ℕ → Bytes → Outcome kv.Db
  put_best_hash_at_height db h hash = kv.put db (key_best_at_height h) hash

  unfoldable pub get_best_hash_at_height : kv.Db → ℕ → Outcome (Option Bytes)
  get_best_hash_at_height db h = kv.get db (key_best_at_height h)

  unfoldable pub set_best_chain_tip : kv.Db → Bytes → Outcome kv.Db
  set_best_chain_tip db hash = kv.put db (codes "bestchain:tip_hash") hash

  unfoldable pub get_best_chain_tip : kv.Db → Outcome (Option Bytes)
  get_best_chain_tip db = kv.get db (codes "bestchain:tip_hash")

  unfoldable pub put_cum_work : kv.Db → Bytes → ℕ → Outcome kv.Db
  put_cum_work db hash cw = kv.put db (key_cum_work hash) (be_bytes 8 cw)

  unfoldable pub get_cum_work : kv.Db → Bytes → Outcome (Option ℕ)
  get_cum_work db hash = kv.get db (key_cum_work hash) >>= read_eight

  unfoldable pub put_work : kv.Db → Bytes → ℕ → Outcome kv.Db
  put_work db hash work = kv.put db (key_work hash) (be_bytes 8 work)

  unfoldable pub get_work : kv.Db → Bytes → Outcome (Option ℕ)
  get_work db hash = kv.get db (key_work hash) >>= read_with uint64_be

  unfoldable pub put_tip_work : kv.Db → ℕ → Outcome kv.Db
  put_tip_work db work = kv.put db (codes "meta:tip_work") (be_bytes 8 work)

  unfoldable pub get_tip_work : kv.Db → Outcome (Option ℕ)
  get_tip_work db = kv.get db (codes "meta:tip_work") >>= read_with uint64_be

  unfoldable pub set_finalized_height : kv.Db → ℕ → Outcome kv.Db
  set_finalized_height db h = kv.put db (codes "finality:finalized_height") (be_bytes 8 h)

  unfoldable pub get_finalized_height : kv.Db → Outcome (Option ℕ)
  get_finalized_height db = kv.get db (codes "finality:finalized_height") >>= read_eight

  unfoldable pub set_finalized_hash : kv.Db → Bytes → Outcome kv.Db
  set_finalized_hash db hash = kv.put db (codes "finality:finalized_hash") hash

  unfoldable pub get_finalized_hash : kv.Db → Outcome (Option Bytes)
  get_finalized_hash db = kv.get db (codes "finality:finalized_hash")

  -- A hash that cannot be read is empty.
  abbrev pub or_no_hash : Outcome (Option Bytes) → Bytes
  or_no_hash (ok (some b)) = b
  or_no_hash (ok none) = []
  or_no_hash (err m) = []
  or_no_hash panic = []

  abbrev pub with_hash : kv.Db → Bytes → Option ℕ → Outcome (Option (ℕ × Bytes))
  with_hash db key none = ok none
  with_hash db key (some h) = ok (some (h, or_no_hash (kv.get db key)))

  unfoldable pub set_header_tip : kv.Db → ℕ → Bytes → Outcome kv.Db
  set_header_tip db h hash = do
    next ← kv.put db (codes "hdrtip:h") (be_bytes 8 h)
    kv.put next (codes "hdrtip:hash") hash

  unfoldable pub get_header_tip : kv.Db → Outcome (Option (ℕ × Bytes))
  get_header_tip db = do
    hb ← kv.get db (codes "hdrtip:h")
    h ← read_eight hb
    with_hash db (codes "hdrtip:hash") h

  unfoldable pub set_header_frontier : kv.Db → ℕ → Bytes → Outcome kv.Db
  set_header_frontier db h hash = do
    next ← kv.put db (codes "sync:frontier_height") (be_bytes 8 h)
    ok (
        if is_empty hash
        then next
        else ignoring next (kv.put next (codes "sync:frontier_hash") hash))

  unfoldable pub get_header_frontier : kv.Db → Outcome (Option (ℕ × Bytes))
  get_header_frontier db = do
    hb ← kv.get db (codes "sync:frontier_height")
    h ← read_eight hb
    with_hash db (codes "sync:frontier_hash") h

  module _ (json : Json) where
    unfoldable pub put_block : kv.Db → Bytes → ℕ → Block → Outcome kv.Db
    put_block db hash height block = do
      b ← json.marshal_block block
      next ← kv.put db (key_block_by_hash hash) b
      kv.put next (key_hash_by_height height) hash

    unfoldable pub get_block_by_hash : kv.Db → Bytes → Outcome (Option Block)
    get_block_by_hash db hash =
        kv.get db (key_block_by_hash hash) >>= read_with json.unmarshal_block

    abbrev pub with_its_hash : Bytes → Option Block → Outcome (Option (Block × Bytes))
    with_its_hash hash none = ok none
    with_its_hash hash (some b) = ok (some (b, hash))

    abbrev pub at_hash : kv.Db → Option Bytes → Outcome (Option (Block × Bytes))
    at_hash db none = ok none
    at_hash db (some hash) = get_block_by_hash db hash >>= with_its_hash hash

    unfoldable pub get_block_by_height : kv.Db → ℕ → Outcome (Option (Block × Bytes))
    unfolding get_block_by_hash
    get_block_by_height db height = get_hash_by_height db height >>= at_hash db

    -- The second write ignores its error.
    unfoldable pub put_header : kv.Db → BlockHeader → Bytes → Outcome kv.Db
    put_header db header hash = do
      b ← json.marshal_header header
      next ← kv.put db (key_hdr_hash hash) b
      ok (ignoring next (kv.put next (key_hdr_at_height header.height hash) (1 ∷ [])))

    unfoldable pub get_header_by_hash : kv.Db → Bytes → Outcome (Option BlockHeader)
    get_header_by_hash db hash = kv.get db (key_hdr_hash hash) >>= read_with json.unmarshal_header

    -- A height without its hash is an error.
    abbrev pub needs_hash : Outcome (Option Bytes) → ℕ → Outcome (Option (ℕ × Bytes))
    needs_hash (ok (some hash)) h = ok (some (h, hash))
    needs_hash (ok none) h = err (codes "leveldb: not found")
    needs_hash (err m) h = err m
    needs_hash panic h = panic

    -- `PutTip` and `GetTip`, and `PutFinalized` and `GetFinalized`, on their two keys.
    unfoldable pub put_pair : Bytes → Bytes → kv.Db → ℕ → Bytes → Outcome kv.Db
    put_pair height_key hash_key db height hash = do
      next ← kv.put db height_key (json.marshal_height height)
      kv.put next hash_key hash

    abbrev pub paired : kv.Db → Bytes → Option Bytes → Outcome (Option (ℕ × Bytes))
    paired db hash_key none = ok none
    paired db hash_key (some hb) = json.unmarshal_height hb >>= needs_hash (kv.get db hash_key)

    unfoldable pub get_pair : Bytes → Bytes → kv.Db → Outcome (Option (ℕ × Bytes))
    get_pair height_key hash_key db = kv.get db height_key >>= paired db hash_key

    unfoldable pub put_tip : kv.Db → ℕ → Bytes → Outcome kv.Db
    unfolding put_pair
    put_tip = put_pair (codes "meta:tip_height") (codes "meta:tip_block_id")

    -- `SetTip` calls `PutTip`.
    unfoldable pub set_tip : kv.Db → ℕ → Bytes → Outcome kv.Db
    unfolding put_tip
    set_tip = put_tip

    unfoldable pub get_tip : kv.Db → Outcome (Option (ℕ × Bytes))
    unfolding get_pair
    get_tip = get_pair (codes "meta:tip_height") (codes "meta:tip_block_id")

    unfoldable pub put_finalized : kv.Db → ℕ → Bytes → Outcome kv.Db
    unfolding put_pair
    put_finalized = put_pair (codes "meta:finalized_height") (codes "meta:finalized_hash")

    unfoldable pub get_finalized : kv.Db → Outcome (Option (ℕ × Bytes))
    unfolding get_pair
    get_finalized = get_pair (codes "meta:finalized_height") (codes "meta:finalized_hash")
