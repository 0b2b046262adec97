-- ===== src/Sync.antt =====
-- The queue of blocks to fetch: `syncManager` of core/node/sync_manager.go. Every method holds the
-- lock from its first line to its last, and is one function on the state here. The map of blocks in
-- flight is a list of pairs in which a key stands once; a map that is read only by key is a function
-- that gives the zero value for a missing key. A worker takes a hash with `popPending` and marks it with
-- `addInFlight`, two calls between which other calls may come.
pub mod Backoff
pub mod Queue
pub mod Sound
pub mod Workers
use reserve_os.Base.{
  ℕ, ◌+◌, ◌-◌, ◌*◌, Bool, true, false, ◌||◌, ◌&&◌, if◌then◌else◌, List, [], ◌∷◌, ◌++◌, map, Option,
  none, some, Bytes, codes, bytes_eq, is_empty, length, ltb, leb, ◌==◌, ◌^◌, add64, sub64, mul64,
  slt, sle,
}

pub record SyncStatus : Type 0 where
  pub mode : Bytes
  pub peers : ℕ
  pub last_requested_unix : ℕ
  pub last_headers_count : ℕ
  pub last_header_hashes : List Bytes
  pub in_flight_blocks : ℕ
  pub pending_blocks : ℕ
  pub tip_height : ℕ

-- The time of a block in flight is in nanoseconds.
pub record SyncManager : Type 0 where
  pub paused : Bool
  pub fail_count : Bytes → ℕ
  pub last_fail : Bytes → ℕ
  pub anchor_ok : Bytes → Bool
  pub status : SyncStatus
  pub inflight : List (Bytes × ℕ)
  pub pending : List Bytes
  pub last_anchor_hash : Bytes
  pub last_anchor_height : ℕ

unfoldable pub keys : List (Bytes × ℕ) → List Bytes
keys [] = []
keys ((h, t) ∷ l) = h ∷ keys l

unfoldable pub has : Bytes → List Bytes → Bool
has h [] = false
has h (k ∷ ks) = bytes_eq h k || has h ks

-- `m[h] = t` and `delete(m, h)`.
unfoldable pub put_key : Bytes → ℕ → List (Bytes × ℕ) → List (Bytes × ℕ)
put_key h t [] = (h, t) ∷ []
put_key h t ((k, u) ∷ l) = if bytes_eq h k then (k, t) ∷ l else (k, u) ∷ put_key h t l

unfoldable pub delete_key : Bytes → List (Bytes × ℕ) → List (Bytes × ℕ)
delete_key h [] = []
delete_key h ((k, u) ∷ l) = if bytes_eq h k then l else (k, u) ∷ delete_key h l

-- The two lines that end a method which changes a queue.
abbrev pub with_pending : List Bytes → SyncManager → SyncManager
with_pending p sm = record sm {
  pending = p;
  status = record sm.status { pending_blocks = length p };
}

abbrev pub with_inflight : List (Bytes × ℕ) → SyncManager → SyncManager
with_inflight l sm = record sm {
  inflight = l;
  status = record sm.status { in_flight_blocks = length l };
}

-- The loop of `setHeaders`: `exists` starts with both queues and grows with each hash that is added.
unfoldable pub enqueue : List Bytes → List Bytes → List Bytes → List Bytes
enqueue flying pending [] = pending
enqueue flying pending (h ∷ hs) =
    enqueue flying
      (if is_empty h || (has h pending || has h flying) then pending else pending ++ (h ∷ [])) hs

unfoldable pub set_headers : ℕ → List Bytes → SyncManager → SyncManager
unfolding enqueue
set_headers n hashes sm = with_pending (enqueue (keys sm.inflight) sm.pending hashes) (record sm {
  status = record sm.status { last_headers_count = n; last_header_hashes = hashes };
})

unfoldable pub touch_request : ℕ → SyncManager → SyncManager
touch_request now sm = record sm { status = record sm.status { last_requested_unix = now } }

unfoldable pub add_in_flight : ℕ → Bytes → SyncManager → SyncManager
add_in_flight now h sm = with_inflight (put_key h now sm.inflight) sm

unfoldable pub clear_in_flight : Bytes → SyncManager → SyncManager
clear_in_flight h sm = with_inflight (delete_key h sm.inflight) sm

unfoldable pub pop_from : List Bytes → SyncManager → Option (Bytes × SyncManager)
pop_from [] sm = none
pop_from (h ∷ p) sm = some (h, with_pending p sm)

unfoldable pub pop_pending : SyncManager → Option (Bytes × SyncManager)
pop_pending sm = pop_from sm.pending sm

unfoldable pub snapshot : ℕ → ℕ → SyncManager → SyncStatus
snapshot tip peers sm = record sm.status {
  tip_height = tip;
  peers = peers;
  mode = if is_empty sm.status.mode then codes "headers_first" else sm.status.mode;
  in_flight_blocks = length sm.inflight;
  pending_blocks = length sm.pending;
}

unfoldable pub set_peer_anchor_ok : Bytes → Bool → SyncManager → SyncManager
set_peer_anchor_ok peer v sm = record sm {
  anchor_ok = λ p. if bytes_eq peer p then v else sm.anchor_ok p;
}

unfoldable pub set_local_anchor : ℕ → Bytes → SyncManager → SyncManager
set_local_anchor h hash sm = record sm { last_anchor_height = h; last_anchor_hash = hash }

unfoldable pub mark_fail : ℕ → Bytes → SyncManager → SyncManager
mark_fail now peer sm = record sm {
  fail_count = λ p. if bytes_eq peer p then add64 (sm.fail_count p) 1 else sm.fail_count p;
  last_fail = λ p. if bytes_eq peer p then now else sm.last_fail p;
}

-- In seconds; the count is not negative.
unfoldable pub peer_backoff : ℕ → Bytes → SyncManager → ℕ
peer_backoff now peer sm =
    let c = sm.fail_count peer in
    if c == 0
    then 0
    else let wait = 2 ^ (if slt c 6 then c else 6) in
      let gone = sub64 now (sm.last_fail peer) in if sle wait gone then 0 else sub64 wait gone

unfoldable pub set_paused : Bool → SyncManager → SyncManager
set_paused v sm = record sm { paused = v }

-- `now.Sub(t) > timeout`
abbrev pub is_late : ℕ → ℕ → ℕ → Bool
is_late now timeout_sec t = slt (mul64 timeout_sec 1000000000) (sub64 now t)

unfoldable pub late : ℕ → ℕ → List (Bytes × ℕ) → List Bytes
late now timeout_sec [] = []
late now timeout_sec ((h, t) ∷ l) =
    if is_late now timeout_sec t then h ∷ late now timeout_sec l else late now timeout_sec l

unfoldable pub in_time : ℕ → ℕ → List (Bytes × ℕ) → List (Bytes × ℕ)
in_time now timeout_sec [] = []
in_time now timeout_sec ((h, t) ∷ l) =
    if is_late now timeout_sec t
    then in_time now timeout_sec l
    else (h, t) ∷ in_time now timeout_sec l

-- The handler of /sync/reset empties both queues under the lock.
unfoldable pub reset_queues : SyncManager → SyncManager
reset_queues sm = record sm {
  pending = [];
  inflight = [];
  status = record sm.status { pending_blocks = 0; in_flight_blocks = 0 };
}

-- The late blocks go to the front of the queue, in the order in which the map is visited.
unfoldable pub requeue_timed_out :
    (List Bytes → List Bytes) → ℕ → ℕ → SyncManager → List Bytes × SyncManager
unfolding late in_time
requeue_timed_out order now timeout_sec sm =
    let req = order (late now timeout_sec sm.inflight) in
    let cleared = with_inflight (in_time now timeout_sec sm.inflight) sm in
    (req, if length req == 0 then cleared else with_pending (req ++ sm.pending) cleared)

abbrev pub no_status : SyncStatus
no_status = record {
  mode = [];
  peers = 0;
  last_requested_unix = 0;
  last_headers_count = 0;
  last_header_hashes = [];
  in_flight_blocks = 0;
  pending_blocks = 0;
  tip_height = 0;
}

-- The value that `startSyncManager` makes.
abbrev pub started_manager : SyncManager
started_manager = record {
  paused = false;
  fail_count = λ p. 0;
  last_fail = λ p. 0;
  anchor_ok = λ p. false;
  status = no_status;
  inflight = [];
  pending = [];
  last_anchor_hash = [];
  last_anchor_height = 0;
}
