-- ===== src/Runs/Consensus.antt =====
-- Runs of proof of work and of finality.
use reserve_os.Base.{
  leb, ltb, ℕ, ◌≡◌, ◌<◌, ◌%◌, true, false, arith, refl, zero, suc, reverse, get_or, ◌==◌, le_bytes,
  be_value, be_acc, ◌↔◌, ◌≤◌, ◌+◌, ◌-◌, ◌*◌, ◌/◌, ◌^◌, List, [], ◌∷◌, Bytes, codes, some, length,
  replicate, ltb, slt, if◌then◌else◌, big_bytes, big_bytes_fuel, max_u64, count,
}
use reserve_os.Finality.{Registered, VoteRecord, choose, other_vote, votes_suffice}
use reserve_os.Finality.Power.{active_power, IsOneVoteEach}
use reserve_os.Finality.Quorum.{IsQuorum, choose_iff}
use reserve_os.Finality.Registry.{registry_threshold_unreachable, unslashed_power, votes_for}
use reserve_os.Chain.{header_hash, sha256d, bytes_for_hash}
use reserve_os.Pow.Mine.{attempt, hits, mine_header_first}
use reserve_os.Pow.{
  hash_to_big, hash_to_big, mine_header, compact_to_big, big_to_compact, leading_zeros_to_target,
  meets_target, work64, retarget,
}
use reserve_os.Pow.Target.{
  compact_to_big-big_to_compact, compact_to_big-big_to_compact_small, genesis_unmineable,
}
use reserve_os.Pow.Work.{work64_ignores_exponent}
use reserve_os.Pow.Retarget.{retarget_lem, retarget_fast_eases}
use reserve_os.Runs.Data.{toy, header}

abbrev member : Bytes → Registered
member key = record { pubkey_hex = key; name = key; weight = 10; added_unix = 0; slashed = false }

abbrev members : List Registered
members = member (codes "a") ∷ member (codes "b") ∷ member (codes "c") ∷ []

abbrev vote : Bytes → Bytes → VoteRecord
vote key hash = record {
  height = 100;
  block_hash = hash;
  chain_id = codes "r";
  pubkey_hex = key;
  sig_hex = [];
  time_unix = 0;
}

abbrev votes : List VoteRecord
votes =
    vote (codes "a") (codes "H") ∷ vote (codes "b") (codes "H") ∷ vote (codes "c") (codes "G") ∷ []

abc-once : (k : Bytes) → count k (codes "a" ∷ codes "b" ∷ codes "c" ∷ []) ≤ 1
abc-once [] = omega arith
abc-once (x ∷ []) = ground arith
abc-once (x ∷ y ∷ k) = ground arith

votes-IsOneVoteEach : IsOneVoteEach votes
unfolding IsOneVoteEach
votes-IsOneVoteEach = abc-once

choose_iff_example :
    (choose (λ ks. ks) votes members ≡ some (codes "H")) ↔ IsQuorum votes members (codes "H")
choose_iff_example =
    choose_iff (λ ks. ks) votes members (codes "H") (λ ks k. refl) votes-IsOneVoteEach
      (unfold active_power in omega arith)

registry_threshold_unreachable_example :
    votes_suffice toy (codes "r") 100 (codes "H") 2 3 members [] votes ≡ false
registry_threshold_unreachable_example =
    registry_threshold_unreachable toy (codes "r") 100 (codes "H") (member (codes "a"))
      (member (codes "b") ∷ member (codes "c") ∷ []) [] votes 2 3 10
      (omega arith, (omega arith, (omega arith, tt))) abc-once
      (unfold unslashed_power in omega arith) (unfold unslashed_power in omega arith)
      (unfold unslashed_power votes_for other_vote in omega arith)

compact_to_big-big_to_compact_example :
    (compact_to_big (big_to_compact (2 ^ 40)) ≤ 2 ^ 40)
    × (2 ^ 40 < compact_to_big (big_to_compact (2 ^ 40)) + 256 ^ (length (big_bytes (2 ^ 40)) - 2))
compact_to_big-big_to_compact_example =
    compact_to_big-big_to_compact (2 ^ 40) (omega arith)
      (unfold big_bytes big_bytes_fuel in omega arith)

compact_to_big-big_to_compact_small_example : compact_to_big (big_to_compact 65535) * 256 ≤ 65535
compact_to_big-big_to_compact_small_example =
    compact_to_big-big_to_compact_small 65535 (omega arith) (omega arith)

genesis_unmineable_example :
    (meets_target (replicate 32 0) (big_to_compact (leading_zeros_to_target 250)) ≡ false)
    × (leb (hash_to_big (replicate 32 0)) (leading_zeros_to_target 250)
        ≡ ltb (hash_to_big (replicate 32 0)) (2 ^ 6))
    × (leb (hash_to_big (replicate 32 0)) (leading_zeros_to_target 250) ≡ true)
genesis_unmineable_example = genesis_unmineable 250 (replicate 32 0) (omega arith) (omega arith)

work64_ignores_exponent_example :
    work64 ((29 + 3) * 2 ^ 24 + 65536) ≡ max_u64 / (65536 * 2 ^ 40 + 1)
work64_ignores_exponent_example =
    work64_ignores_exponent 29 65536 (omega arith) (omega arith) (omega arith)

retarget_lem_example : retarget 520159232 300 600 ≡ (
    if slt 300 600
    then (520159232 + 1) % 2 ^ 32
    else if slt 600 300
    then if ltb 1 520159232 then 520159232 - 1 else 520159232
    else 520159232)
retarget_lem_example = retarget_lem 520159232 300 600 (omega arith) (omega arith) (omega arith)

retarget_fast_eases_example :
    compact_to_big (retarget 520159232 300 600)
    ≡ compact_to_big 520159232 + 2 ^ (8 * (520159232 / 2 ^ 24 - 3) % 256)
retarget_fast_eases_example =
    retarget_fast_eases 520159232 300 600 (omega arith) (omega arith) (omega arith) (omega arith)
      (omega arith) (omega arith) refl

-- A hash that meets the target for every nonce but those that end in a zero byte.
abbrev odd_hash : Bytes → Bytes
odd_hash b =
    if length b == 32
    then b
    else if get_or (reverse b) 7 0 == 0
    then replicate 32 255
    else replicate 32 0

header-misses : (i : ℕ) → i < 1 → hits odd_hash (attempt i header) ≡ false
unfolding hits attempt meets_target compact_to_big header_hash sha256d bytes_for_hash le_bytes
    hash_to_big be_value be_acc
header-misses zero lt = refl
header-misses (suc i) lt = absurd (omega arith)

header-hits : hits odd_hash (attempt 1 header) ≡ true
unfolding hits attempt meets_target compact_to_big header_hash sha256d bytes_for_hash le_bytes
    hash_to_big be_value be_acc
header-hits = refl

mine_header_first_example :
    (mine_header odd_hash 10 header
      ≡ some (header_hash odd_hash (attempt 1 header), attempt 1 header))
    × ((attempt 1 header).nonce ≡ (0 + 1) % 2 ^ 64)
mine_header_first_example =
    mine_header_first odd_hash 1 10 header (omega arith) header-misses header-hits (omega arith)
