-- ===== src/Finality.antt =====
-- Finality votes: core/consensus/finality/pos.go, core/node/finality_weighted.go and
-- `tryFinalizeHeight` of core/node/node.go, with the records of internal/reservestorage.
pub mod Power
pub mod Quorum
pub mod Registry
use reserve_os.Base.{
  ℕ, ◌+◌, Bool, true, false, not, ◌&&◌, ◌||◌, if◌then◌else◌, List, [], ◌∷◌, ◌++◌, Option, none,
  some, Bytes, codes, bytes_eq, length, ◌==◌, ltb, add64, mul64, slt, sle, nonpos, Outcome, ok, err,
  panic, ◌>>=◌,
}
use reserve_os.Crypto.{Primitives, hex_decode, parse_pub, sized}
use reserve_os.Decimal.{itoa_u}

-- `finality.Validator`, the configured ones.
pub record Validator : Type 0 where
  pub name : Bytes
  pub pubkey_hex : Bytes
  pub weight : ℕ

-- `reservestorage.Validator`, the registry.
pub record Registered : Type 0 where
  pub pubkey_hex : Bytes
  pub name : Bytes
  pub weight : ℕ
  pub added_unix : ℕ
  pub slashed : Bool

pub record VoteRecord : Type 0 where
  pub height : ℕ
  pub block_hash : Bytes
  pub chain_id : Bytes
  pub pubkey_hex : Bytes
  pub sig_hex : Bytes
  pub time_unix : ℕ

-- `Checkpoint`; `TryFinalizeHeight` fills a field `BlockHash` and leaves the time zero.
pub record Checkpoint : Type 0 where
  pub height : ℕ
  pub hash_hex : Bytes
  pub time_unix : ℕ

unfoldable pub total_weight_from : ℕ → List Validator → ℕ
total_weight_from t [] = t
total_weight_from t (v ∷ vs) = total_weight_from (add64 t v.weight) vs

unfoldable pub total_weight : List Validator → ℕ
unfolding total_weight_from
total_weight = total_weight_from 0

unfoldable pub reached_threshold : ℕ → ℕ → ℕ → ℕ → Bool
reached_threshold sum total num den =
    if nonpos total then false else sle (mul64 total num) (mul64 sum den)

unfoldable pub vote_message : (Bytes → Bytes) → Bytes → ℕ → Bytes → Bytes
vote_message sha256 chain_id height block_hash = sha256 (
    codes "ReserveOS:PoSFinality:v1|"
    ++ chain_id
    ++ codes "|"
    ++ itoa_u height
    ++ codes "|"
    ++ block_hash)

-- The signature decodes to 64 bytes and verifies.
abbrev pub checked : (Bytes → Bool) → Outcome Bytes → Bool
checked f (ok sig) = length sig == 64 && f sig
checked f (err e) = false
checked f panic = false

unfoldable pub verify_vote : Primitives → Bytes → Bytes → Bytes → ℕ → Bytes → Bool
verify_vote prim key sig_hex chain_id height block_hash =
    checked (prim.ed25519_verify key (vote_message prim.sha256 chain_id height block_hash))
      (hex_decode sig_hex)

-- `ParsePub` and then `VerifyVote`.
abbrev pub verify_with : Primitives → Outcome Bytes → VoteRecord → Bytes → ℕ → Bytes → Bool
verify_with prim (ok key) vr chain_id height hash_hex =
    verify_vote prim key vr.sig_hex chain_id height hash_hex
verify_with prim (err e) vr chain_id height hash_hex = false
verify_with prim panic vr chain_id height hash_hex = false

-- `TryFinalizeHeight`. The map from keys to weights is a function that gives 0 for a missing key.
abbrev pub weigh : (Bytes → ℕ) → Bytes → ℕ → Bytes → ℕ
weigh w key v k = if bytes_eq key k then v else w k

abbrev pub skipped : Registered → Bool
skipped v = v.slashed || nonpos v.weight

unfoldable pub weight_by_pub : (Bytes → ℕ) → List Registered → Bytes → ℕ
weight_by_pub w [] = w
weight_by_pub w (v ∷ vs) = weight_by_pub (if skipped v then w else weigh w v.pubkey_hex v.weight) vs

unfoldable pub total_active_from : ℕ → List Registered → ℕ
total_active_from t [] = t
total_active_from t (v ∷ vs) = total_active_from (if skipped v then t else add64 t v.weight) vs

unfoldable pub tally : (Bytes → ℕ) → (Bytes → ℕ) → List VoteRecord → Bytes → ℕ
tally w f [] = f
tally w f (vr ∷ vrs) =
    tally w
      (if nonpos (w vr.pubkey_hex)
        then f
        else weigh f vr.block_hash (add64 (f vr.block_hash) (w vr.pubkey_hex)))
      vrs

unfoldable pub contains : Bytes → List Bytes → Bool
contains h [] = false
contains h (k ∷ ks) = bytes_eq h k || contains h ks

-- The keys of the tally.
unfoldable pub tally_keys : (Bytes → ℕ) → List VoteRecord → List Bytes
unfolding contains
tally_keys w [] = []
tally_keys w (vr ∷ vrs) =
    let rest = tally_keys w vrs in
    if nonpos (w vr.pubkey_hex) || contains vr.block_hash rest then rest else vr.block_hash ∷ rest

-- `if wv > bestW { bestW = wv; bestHash = h }`
unfoldable pub heavier : (Bytes → ℕ) → Bytes × ℕ → Bytes → Bytes × ℕ
heavier f best h = if slt best.1 (f h) then (h, f h) else best

unfoldable pub best_from : (Bytes → ℕ) → Bytes × ℕ → List Bytes → Bytes × ℕ
best_from f best [] = best
best_from f best (h ∷ hs) = best_from f (heavier f best h) hs

-- A range over a map visits the keys in any order: `order` arranges them.
unfoldable pub choose : (List Bytes → List Bytes) → List VoteRecord → List Registered → Option Bytes
unfolding weight_by_pub total_active_from tally tally_keys best_from
choose order votes vals =
    let w = weight_by_pub (λ _. 0) vals in
    let total = total_active_from 0 vals in
    let best = best_from (tally w (λ _. 0) votes) ([], 0) (order (tally_keys w votes)) in
    if nonpos total || slt (mul64 best.1 3) (mul64 total 2) then none else some best.0

-- What the function writes: the finalized height and hash, and the checkpoints by height.
pub record Finalized : Type 0 where
  pub height : ℕ
  pub hash : Bytes
  pub checkpoints : List Checkpoint

abbrev pub finalize : Option Bytes → ℕ → Finalized → Finalized
finalize none height st = st
finalize (some best_hash) height st =
    if ltb st.height height
    then record {
      height = height;
      hash = best_hash;
      checkpoints =
          record { height = height; hash_hex = best_hash; time_unix = 0 } ∷ st.checkpoints;
    }
    else st

-- The lists are none where the store reports an error.
unfoldable pub try_finalize_height :
    (List Bytes → List Bytes)
    → ℕ
    → Option (List VoteRecord)
    → Option (List Registered)
    → Finalized
    → Finalized
unfolding choose
try_finalize_height order height none vals st = st
try_finalize_height order height (some votes) none st = st
try_finalize_height order height (some votes) (some []) st = st
try_finalize_height order height (some votes) (some (v ∷ vals)) st =
    finalize (choose order votes (v ∷ vals)) height st

-- `tryFinalizeHeight`: the sums `total` and `signed` over the registry, for one vote.
module _ (prim : Primitives) (chain_id : Bytes) (height : ℕ) (hash_hex : Bytes) where
  unfoldable pub signs : Bytes → VoteRecord → Bool
  signs pubkey_hex vr =
      bytes_eq pubkey_hex vr.pubkey_hex
      && verify_with prim (parse_pub pubkey_hex) vr chain_id height hash_hex

  unfoldable pub add_registered : VoteRecord → Registered → ℕ × ℕ → ℕ × ℕ
  add_registered vr v sums =
      if v.slashed
      then sums
      else (add64 sums.0 v.weight, if signs v.pubkey_hex vr then add64 sums.1 v.weight else sums.1)

  unfoldable pub registry_vote : VoteRecord → List Registered → ℕ × ℕ → ℕ × ℕ
  registry_vote vr [] sums = sums
  registry_vote vr (v ∷ vs) sums = registry_vote vr vs (add_registered vr v sums)

  -- The same over the configured validators; their total is assigned anew at each vote.
  unfoldable pub config_signed : VoteRecord → List Validator → ℕ → ℕ
  config_signed vr [] signed = signed
  config_signed vr (v ∷ vs) signed =
      config_signed vr vs (if signs v.pubkey_hex vr then add64 signed v.weight else signed)

  -- The registry where it has an entry, and the configured validators otherwise.
  unfoldable pub count_vote : List Registered → List Validator → VoteRecord → ℕ × ℕ → ℕ × ℕ
  count_vote [] validators vr sums = (total_weight validators, config_signed vr validators sums.1)
  count_vote (v ∷ vals) validators vr sums = registry_vote vr (v ∷ vals) sums

  unfoldable pub other_vote : VoteRecord → Bool
  other_vote vr = not (bytes_eq vr.block_hash hash_hex) || not (bytes_eq vr.chain_id chain_id)

  unfoldable pub count_votes : List Registered → List Validator → List VoteRecord → ℕ × ℕ → ℕ × ℕ
  count_votes vals validators [] sums = sums
  count_votes vals validators (vr ∷ votes) sums =
      count_votes vals validators votes
        (if other_vote vr then sums else count_vote vals validators vr sums)

  unfoldable pub votes_suffice : ℕ → ℕ → List Registered → List Validator → List VoteRecord → Bool
  votes_suffice num den vals validators votes =
      let sums = count_votes vals validators votes (0, 0) in
      not (sums.0 == 0) && reached_threshold sums.1 sums.0 num den

-- `ListVotesForHeight` is an error or the votes, `ListValidators` none where it fails; what
-- `PutFinalized` writes is overwritten whatever the height was.
unfoldable pub try_finalize_hash :
    Primitives
    → Bytes
    → ℕ × ℕ
    → ℕ
    → Bytes
    → ℕ
    → Outcome (List VoteRecord)
    → Option (List Registered)
    → List Validator
    → Finalized
    → Outcome Finalized
try_finalize_hash prim chain_id (num, den) height hash_hex now votes reg validators st = do
  vs ← votes
  ok (
      if votes_suffice prim chain_id height hash_hex num den
        (elim reg [ none ↦ [] | some vals ↦ vals ]) validators vs
      then record {
        height = height;
        hash = hash_hex;
        checkpoints =
            record { height = height; hash_hex = hash_hex; time_unix = now } ∷ st.checkpoints;
      }
      else st)
