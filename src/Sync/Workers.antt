-- ===== src/Sync/Workers.antt =====
-- The workers of `startSyncManager` (core/node/sync_manager.go) beside the queues that they share. A
-- worker takes a hash with `popPending` and marks it with `addInFlight`, under two locks; in between it
-- holds the hash, and any other call may come: of another worker, of the handlers of core/node/p2p_gossip.go
-- and core/node/node.go, of the loop that requeues.
use reserve_os.Base.{
  ℕ, ◌≡◌, ◌+◌, Bool, true, ◌&&◌, if◌then◌else◌, List, [], ◌∷◌, some, Bytes, bytes_eq, count,
}
use reserve_os.Sync.{
  started_manager, SyncManager, has, set_headers, add_in_flight, clear_in_flight, pop_pending,
  requeue_timed_out, touch_request, set_peer_anchor_ok, set_local_anchor, mark_fail, set_paused,
  reset_queues,
}
use reserve_os.Sync.Queue.{one_if}

-- The shared queues, the hashes that workers hold, and a history: for each hash, how many batches of headers
-- named it while a worker held it.
pub record Workers : Type 0 where
  pub manager : SyncManager
  pub held : List Bytes
  pub raced : Bytes → ℕ

unfoldable pub drop_one : Bytes → List Bytes → List Bytes
drop_one h [] = []
drop_one h (k ∷ ks) = if bytes_eq h k then ks else k ∷ drop_one h ks

abbrev pub after_headers : ℕ → List Bytes → Workers → Workers
after_headers n hashes w = record w {
  manager = set_headers n hashes w.manager;
  raced = λ k. w.raced k + one_if (has k hashes && has k w.held);
}

abbrev pub after_pop : Bytes → SyncManager → Workers → Workers
after_pop h sm w = record w { manager = sm; held = h ∷ w.held }

abbrev pub after_mark : ℕ → Bytes → Workers → Workers
after_mark now h w = record w { manager = add_in_flight now h w.manager; held = drop_one h w.held }

-- The calls that change the manager: headers name blocks, a worker takes a hash, a worker marks a hash that it
-- holds, a block arrives, blocks time out, the queues are reset, and those that leave the queues alone.
pub data Step : Workers → Workers → Type 0 where
  headers : (n : ℕ) (hashes : List Bytes) (w : Workers) → Step w (after_headers n hashes w)
  popped :
      (h : Bytes) (sm : SyncManager) (w : Workers)
      → pop_pending w.manager ≡ some (h, sm)
      → Step w (after_pop h sm w)
  marked : (now : ℕ) (h : Bytes) (w : Workers) → has h w.held ≡ true → Step w (after_mark now h w)
  received : (h : Bytes) (w : Workers) → Step w (record w { manager = clear_in_flight h w.manager })
  timed_out :
      (order : List Bytes → List Bytes) (now timeout : ℕ) (w : Workers)
      → ((ks : List Bytes) (k : Bytes) → count k (order ks) ≡ count k ks)
      → Step w (record w { manager = (requeue_timed_out order now timeout w.manager).1 })
  reset : (w : Workers) → Step w (record w { manager = reset_queues w.manager })
  requested : (now : ℕ) (w : Workers) → Step w (record w { manager = touch_request now w.manager })
  anchored :
      (peer : Bytes) (v : Bool) (w : Workers)
      → Step w (record w { manager = set_peer_anchor_ok peer v w.manager })
  anchor_set :
      (h : ℕ) (hash : Bytes) (w : Workers)
      → Step w (record w { manager = set_local_anchor h hash w.manager })
  failed :
      (now : ℕ) (peer : Bytes) (w : Workers)
      → Step w (record w { manager = mark_fail now peer w.manager })
  paused : (v : Bool) (w : Workers) → Step w (record w { manager = set_paused v w.manager })

abbrev pub started_workers : Workers
started_workers = record { manager = started_manager; held = []; raced = λ k. 0 }

-- The states that are reached from the one that `startSyncManager` makes.
pub data Reachable : Workers → Type 0 where
  started : Reachable started_workers
  after : (a b : Workers) → Reachable a → Step a b → Reachable b
