-- ===== src/Runs/Locating.antt =====
-- A run of the block locator between a node with three blocks and one with the first of them.
use reserve_os.Base.{
  ℕ, zero, suc, ◌≤◌, ◌≡◌, refl, arith, List, [], ◌∷◌, Option, none, some, Bytes, codes, length,
  Outcome, ok, true, inl, inr, Bool-cases, bytes_eq, be_bytes, be_value, be_acc,
}
use reserve_os.Chain.{Block, hash_string}
use reserve_os.State.{uint64_be}
use reserve_os.Storage.{
  key_block_by_hash, key_hash_by_height, get_hash_by_height, get_block_by_hash, get_pair, get_tip,
}
use reserve_os.Forks.Locator.{hash_at, locator_loop, build_block_locator, find_first_known}
use reserve_os.Forks.Locator.Meeting.{HasChain, among, find_first_known-build_block_locator}
use reserve_os.Runs.Chains.{short, blocks, names, header_of}
use reserve_os.Runs.Store.{store, functions}

abbrev any_value : Bytes → Outcome (Unit {0})
any_value b = ok tt

abbrev full : Bytes → Option Bytes
full =
    store
      (store (store blocks (key_hash_by_height 2) (codes "02")) (codes "meta:tip_height")
        (be_bytes 8 2))
      (codes "meta:tip_block_id") (codes "02")

abbrev fresh : Bytes → Option Bytes
fresh = store (λ k. none) (key_block_by_hash (codes "00")) (0 ∷ [])

full-HasChain : HasChain functions any_value full names 2
unfolding HasChain hash_at get_hash_by_height hash_string be_bytes
full-HasChain zero h = refl
full-HasChain (suc zero) h = refl
full-HasChain (suc (suc zero)) h = refl
full-HasChain (suc (suc (suc n))) h = absurd (omega arith)

full-tip : get_tip functions short full ≡ ok (some (2, codes "02"))
unfolding get_tip get_pair uint64_be be_bytes be_value be_acc
full-tip = refl

fresh-reads :
    (hash : Bytes) → (o : Option Block) × (get_block_by_hash functions short fresh hash ≡ ok o)
unfolding get_block_by_hash
fresh-reads hash =
    elim (Bool-cases (bytes_eq (key_block_by_hash (codes "00")) (key_block_by_hash hash))) [
      | inl here ↦ rw here (_, refl)
      | inr there ↦ rw there (none, refl)
    ]

abbrev genesis : Block
genesis = record { header = header_of 0 []; txs = [] }

fresh-genesis : get_block_by_hash functions short fresh (names 0) ≡ ok (some genesis)
unfolding get_block_by_hash hash_string
fresh-genesis = refl

-- The tip, the block below and genesis, which is the one in common.
full-locator :
    build_block_locator functions short any_value full 0
    ≡ ok (codes "02" ∷ codes "01" ∷ codes "00" ∷ [])
unfolding build_block_locator locator_loop get_tip get_pair uint64_be be_bytes be_value be_acc
    hash_at get_hash_by_height
full-locator = refl

find_first_known-build_block_locator_example :
    (loc : List Bytes) × (hash : Bytes) × (height : ℕ) × (build_block_locator functions short
        any_value full 0
      ≡ ok loc)
    × (length loc ≤ 32)
    × (find_first_known functions short fresh loc ≡ ok (some (hash, height)))
    × (among hash loc ≡ true)
find_first_known-build_block_locator_example =
    find_first_known-build_block_locator functions short any_value full fresh 0 2 (codes "02") names
      genesis refl full-tip (omega arith) full-HasChain fresh-reads fresh-genesis
