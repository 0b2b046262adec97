-- ===== src/Runs/Fetching.antt =====
-- A run of the queue of blocks to fetch.
use reserve_os.Base.{true, ◌≡◌, ◌^◌, refl, [], ◌∷◌, Option, none, some, Bytes, codes, count, arith}
use reserve_os.Sync.{
  SyncManager, started_manager, set_headers, enqueue, keys, has, put_key, add_in_flight,
  pop_pending, pop_from, requeue_timed_out, mark_fail, peer_backoff,
}
use reserve_os.Sync.Backoff.{peer_backoff_lem}
use reserve_os.Sync.Workers.{
  Workers, after_headers, after_pop, after_mark, started_workers, headers, popped, marked,
  timed_out, Reachable, started, after,
}
use reserve_os.Sync.Sound.{IsSound, reachable-IsSound}

abbrev announced : Workers
announced = after_headers 2 (codes "A" ∷ codes "B" ∷ codes "A" ∷ []) started_workers

abbrev or_announced : Option (Bytes × SyncManager) → SyncManager
or_announced none = announced.manager
or_announced (some (h, sm)) = sm

abbrev taken : Workers
taken = after_pop (codes "A") (or_announced (pop_pending announced.manager)) announced

taken-A :
    pop_pending announced.manager ≡ some (codes "A", or_announced (pop_pending announced.manager))
unfolding pop_pending pop_from set_headers enqueue has keys
taken-A = refl

-- The headers of A come again before the worker marks it.
abbrev raced : Workers
raced = after_headers 1 (codes "A" ∷ []) taken

abbrev fetching : Workers
fetching = after_mark 0 (codes "A") raced

raced-A : has (codes "A") raced.held ≡ true
unfolding has
raced-A = refl

-- A then stands in the queue and in flight.
fetching_twice :
    (count (codes "A") fetching.manager.pending ≡ 1)
    × (count (codes "A") (keys fetching.manager.inflight) ≡ 1)
unfolding pop_pending pop_from set_headers enqueue has keys add_in_flight put_key
fetching_twice = (refl, refl)

abbrev requeued : Workers
requeued = record fetching {
  manager = (requeue_timed_out (λ ks. ks) (10 ^ 12) 10 fetching.manager).1;
}

requeued-Reachable : Reachable requeued
requeued-Reachable =
    after fetching requeued
      (after raced fetching
        (after taken raced
          (after announced taken
            (after started_workers announced started (headers 2 _ started_workers))
            (popped (codes "A") _ announced taken-A))
          (headers 1 _ taken))
        (marked 0 (codes "A") raced raced-A))
      (timed_out (λ ks. ks) (10 ^ 12) 10 fetching (λ ks k. refl))

reachable-IsSound_example : IsSound requeued
reachable-IsSound_example = reachable-IsSound requeued requeued-Reachable

-- A peer that failed three times, the last time at second 100.
abbrev failing : SyncManager
failing =
    mark_fail 100 (codes "P") (mark_fail 90 (codes "P") (mark_fail 80 (codes "P") started_manager))

peer_backoff_lem_example : peer_backoff 103 (codes "P") failing ≡ 5
unfolding mark_fail
peer_backoff_lem_example =
    peer_backoff_lem 103 (codes "P") failing (omega arith) (omega arith) (omega arith)
