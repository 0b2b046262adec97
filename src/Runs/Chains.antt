-- ===== src/Runs/Chains.antt =====
-- Runs of the fork choice on a chain of three blocks in a database of functions.
use reserve_os.Base.{
  ℕ, zero, suc, ◌+◌, ◌-◌, ◌≤◌, ◌≡◌, refl, arith, List, [], ◌∷◌, Option, none, some, Bytes, codes,
  length, Outcome, ok, err, be_bytes,
}
use reserve_os.Chain.{Block, BlockHeader, hash_string}
use reserve_os.State.{uint64_be}
use reserve_os.State.Store.{uint64_be-be_bytes}
use reserve_os.Storage.{
  Json, key_block_by_hash, key_hash_by_height, key_hdr_hash, get_hash_by_height, get_block_by_hash,
  get_block_by_height, get_header_by_hash, get_pair, get_tip, get_finalized,
}
use reserve_os.Storage.Records.{ReadsHeights}
use reserve_os.Forks.{
  anchor, anchor_or, candidate_block, walk_back, anchored, candidate_path, try_switch_main_chain,
}
use reserve_os.Forks.Index.{IsIndexed}
use reserve_os.Forks.Switch.{Branch, KeepsOthers, try_switch_main_chain-Branch}
use reserve_os.Forks.Headers.{find_fork_point, header_path_from_to}
use reserve_os.Forks.Headers.Walk.{segment, IsHeaderChain, IsFork, reorganisation-plan}
use reserve_os.Runs.Data.{pad}
use reserve_os.Runs.Store.{store, functions, the_value, functions-GetPut, functions-IsWritable}

abbrev pub header_of : ℕ → Bytes → BlockHeader
header_of h prev = record {
  version = 1;
  chain_id = codes "main";
  height = h;
  time_unix = 0;
  prev_hash = prev;
  state_root = [];
  tx_root = [];
  bits = 0;
  nonce = 0;
}

abbrev block_of : Bytes → Outcome Block
block_of [] = err (codes "unexpected end of JSON input")
block_of (h ∷ prev) = ok (record { header = header_of h prev; txs = [] })

abbrev head_of : Bytes → Outcome BlockHeader
head_of [] = err (codes "unexpected end of JSON input")
head_of (h ∷ prev) = ok (header_of h prev)

-- A block is written as its height and its parent's hash.
abbrev pub short : Json
short = record {
  marshal_block = λ b. ok (b.header.height ∷ b.header.prev_hash);
  unmarshal_block = block_of;
  marshal_header = λ h. ok (h.height ∷ h.prev_hash);
  unmarshal_header = head_of;
  marshal_height = λ h. be_bytes 8 h;
  unmarshal_height = uint64_be;
}

short-ReadsHeights : ReadsHeights short
unfolding ReadsHeights
short-ReadsHeights h w = uint64_be-be_bytes h w

-- The blocks "00", "01" and "02", the first two on the main chain.
abbrev pub names : ℕ → Bytes
names n = hash_string (n ∷ [])

abbrev pub blocks : Bytes → Option Bytes
blocks =
    store
      (store
        (store
          (store (store (λ k. none) (key_block_by_hash (codes "00")) (0 ∷ []))
            (key_block_by_hash (codes "01")) (1 ∷ 0 ∷ []))
          (key_block_by_hash (codes "02")) (2 ∷ 1 ∷ []))
        (key_hash_by_height 0) (codes "00"))
      (key_hash_by_height 1) (codes "01")

abbrev switched : Bytes → Option Bytes
switched = the_value blocks (try_switch_main_chain functions short blocks (codes "02") 2)

switches : try_switch_main_chain functions short blocks (codes "02") 2 ≡ ok switched
unfolding the_value try_switch_main_chain anchor anchor_or get_finalized get_pair
    get_block_by_height get_hash_by_height get_block_by_hash candidate_path walk_back
    candidate_block anchored hash_string be_bytes
switches = refl

try_switch_main_chain-Branch_example :
    (fin : ℕ) × (fin_hash : Bytes) × (hs : List Bytes) × (anchor functions short blocks
      ≡ ok (fin, fin_hash))
    × (fin + length hs ≡ 2)
    × Branch functions short blocks fin_hash (codes "02") hs
    × IsIndexed functions switched fin (fin_hash ∷ hs)
    × (get_tip functions short switched ≡ ok (some (2, codes "02")))
    × KeepsOthers functions short blocks switched fin 2
try_switch_main_chain-Branch_example =
    try_switch_main_chain-Branch functions short functions-GetPut functions-IsWritable
      short-ReadsHeights blocks switched (codes "02") 2 (omega arith) (omega arith) switches

-- A vote count makes "09" final at height 1.
abbrev voted : Bytes → Option Bytes
voted = store blocks (codes "finality:finalized_height") (be_bytes 8 1)

abbrev voted_hash : Bytes → Option Bytes
voted_hash = store voted (codes "finality:finalized_hash") (codes "09")

-- The headers of the same chain.
abbrev headers : Bytes → Option Bytes
headers =
    store
      (store (store blocks (key_hdr_hash (codes "00")) (0 ∷ [])) (key_hdr_hash (codes "01"))
        (1 ∷ 0 ∷ []))
      (key_hdr_hash (codes "02")) (2 ∷ 1 ∷ [])

abbrev nth_header : ℕ → BlockHeader
nth_header zero = header_of 0 []
nth_header (suc n) = header_of (suc n) (n ∷ [])

nth_header-stored :
    (n : ℕ)
    → n ≤ 2
    → get_header_by_hash functions short headers (names n) ≡ ok (some (nth_header n))
unfolding get_header_by_hash hash_string
nth_header-stored zero h = refl
nth_header-stored (suc zero) h = refl
nth_header-stored (suc (suc zero)) h = refl
nth_header-stored (suc (suc (suc n))) h = absurd (omega arith)

nth_header-height : (n : ℕ) → n ≤ 2 → (nth_header n).height ≡ n
nth_header-height zero h = refl
nth_header-height (suc n) h = refl

headers-IsHeaderChain : IsHeaderChain functions short headers names 2
headers-IsHeaderChain = record {
  header = nth_header;
  stored = nth_header-stored;
  height = nth_header-height;
  parent = λ n h. refl;
}

reorganisation-plan_example :
    (f : ℕ) × (hash : Bytes) × (find_fork_point functions short
        (pad 32)
        3
        headers
        1
        (codes "01")
        (names 2)
      ≡ some (ok (f, hash)))
    × IsFork functions short headers names 2 headers-IsHeaderChain (pad 32) 1 2 f hash
    × (header_path_from_to functions short 3 headers (f + 1) 2 (names 2)
        ≡ some (ok (segment names (f + 1) (2 - f))))
reorganisation-plan_example =
    reorganisation-plan functions short headers names 2 headers-IsHeaderChain (pad 32) 3 1
      (codes "01") refl (omega arith)
