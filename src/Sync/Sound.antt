-- ===== src/Sync/Sound.antt =====
-- The queues of `syncManager` (core/node/sync_manager.go) are sound in every reachable state.
use reserve_os.Base.{
  ℕ, ◌≡◌, ◌+◌, ◌≤◌, refl, sym, ap, true, arith, List, [], ◌∷◌, some, Bytes, bytes_eq, bytes_eq→eq,
  length, ◌==◌, count, Bool-cases, inl, inr,
}
use mathlib.Core.Option.{some-injective}
use reserve_os.Sync.{
  SyncManager, keys, has, set_headers, add_in_flight, clear_in_flight, pop_pending, pop_from, late,
  requeue_timed_out, touch_request, set_peer_anchor_ok, set_local_anchor, mark_fail, set_paused,
  reset_queues,
}
use reserve_os.Sync.Queue.{
  one_if, has-false, count-append, count-enqueue, count-keys-delete_key, count-keys-put_key,
  count-late,
}
use reserve_os.Sync.Workers.{
  Workers, after_headers, after_pop, after_mark, drop_one, Step, headers, popped, marked, received,
  timed_out, reset, requested, anchored, anchor_set, failed, paused, Reachable, started, after,
}

-- Each hash stands once in the queue, in flight and with the workers together, and once more at most for
-- each batch of headers that raced with a worker; in flight it stands once; the counters are true.
pub record IsSound (w : Workers) : Type 0 where
  pub once :
      (k : Bytes)
      → count k w.manager.pending + count k (keys w.manager.inflight) + count k w.held
        ≤ 1 + w.raced k
  pub flying : (k : Bytes) → count k (keys w.manager.inflight) ≤ 1
  pub in_flight_blocks : w.manager.status.in_flight_blocks ≡ length w.manager.inflight
  pub pending_blocks : w.manager.status.pending_blocks ≡ length w.manager.pending

count-drop_one :
    (k h : Bytes) (ks : List Bytes)
    → has h ks ≡ true
    → count k (drop_one h ks) + one_if (bytes_eq k h) ≡ count k ks
unfolding drop_one has
count-drop_one k h [] e = cc
count-drop_one k h (j ∷ ks) e = elim (Bool-cases (bytes_eq h j)) [
  | inl here ↦ let same = ap (bytes_eq k) (bytes_eq→eq h j here) in rw here (ground (arith, same))
  | inr there ↦ rw there (ground (arith, count-drop_one k h ks (ground arith)))
]

headers-IsSound :
    (n : ℕ) (hashes : List Bytes) (w : Workers) → IsSound w → IsSound (after_headers n hashes w)
unfolding set_headers
headers-IsSound n hashes w s = record {
  once = λ k.
      let before = s.once k in
      let added = count-enqueue k (keys w.manager.inflight) w.manager.pending hashes in
      ground (
        arith,
        before,
        added,
        has-false k w.manager.pending,
        has-false k (keys w.manager.inflight),
        has-false k w.held,
      );
  flying = s.flying;
  in_flight_blocks = s.in_flight_blocks;
  pending_blocks = refl;
}

popped-IsSound :
    (h : Bytes) (sm : SyncManager) (p : List Bytes) (w : Workers)
    → w.manager.pending ≡ p
    → pop_from p w.manager ≡ some (h, sm)
    → IsSound w
    → IsSound (after_pop h sm w)
unfolding pop_from
popped-IsSound h sm [] w at e s = cc
popped-IsSound h sm (j ∷ p) w at e s =
    let pair = some-injective _ _ e in
    let first = ap (λ (r : Bytes × SyncManager). r.0) pair in
    let rest = ap (λ (r : Bytes × SyncManager). r.1) pair in
    rw (sym first, sym rest)
      (record {
        once = λ k.
            let before = s.once k in
            let moved : count k w.manager.pending ≡ count k (j ∷ p) = ap (count k) at in
            ground (arith, before, moved);
        flying = s.flying;
        in_flight_blocks = s.in_flight_blocks;
        pending_blocks = refl;
      })

marked-IsSound :
    (now : ℕ) (h : Bytes) (w : Workers)
    → has h w.held ≡ true
    → IsSound w
    → IsSound (after_mark now h w)
unfolding add_in_flight
marked-IsSound now h w holds s = record {
  once = λ k.
      let before = s.once k in
      let put = count-keys-put_key k h now w.manager.inflight in
      let dropped = count-drop_one k h w.held holds in ground (arith, before, put, dropped);
  flying = λ k.
      let before = s.flying k in
      let put = count-keys-put_key k h now w.manager.inflight in
      elim (Bool-cases (bytes_eq k h)) [
        | inl same ↦
            let moved = ap (λ j. count j (keys w.manager.inflight)) (bytes_eq→eq k h same) in
            ground (arith, before, put, moved, has-false h (keys w.manager.inflight))
        | inr other ↦ ground (arith, before, put)
      ];
  in_flight_blocks = refl;
  pending_blocks = s.pending_blocks;
}

received-IsSound :
    (h : Bytes) (w : Workers)
    → IsSound w
    → IsSound (record w { manager = clear_in_flight h w.manager })
unfolding clear_in_flight
received-IsSound h w s = record {
  once = λ k.
      let before = s.once k in omega (arith, before, count-keys-delete_key k h w.manager.inflight);
  flying = λ k.
      let before = s.flying k in
      omega (arith, before, count-keys-delete_key k h w.manager.inflight);
  in_flight_blocks = refl;
  pending_blocks = s.pending_blocks;
}

timed_out-IsSound :
    (order : List Bytes → List Bytes) (now timeout : ℕ) (w : Workers)
    → ((ks : List Bytes) (k : Bytes) → count k (order ks) ≡ count k ks)
    → IsSound w
    → IsSound (record w { manager = (requeue_timed_out order now timeout w.manager).1 })
unfolding requeue_timed_out
timed_out-IsSound order now timeout w keeps s =
    let late_ones = late now timeout w.manager.inflight in
    elim (Bool-cases (length (order late_ones) == 0)) [
      | inl nothing ↦ rw nothing (record {
        once = λ k.
            let before = s.once k in
            omega (arith, before, count-late k now timeout w.manager.inflight);
        flying = λ k.
            let before = s.flying k in
            omega (arith, before, count-late k now timeout w.manager.inflight);
        in_flight_blocks = refl;
        pending_blocks = s.pending_blocks;
      })
      | inr some_late ↦ rw some_late (record {
        once = λ k.
            let before = s.once k in
            omega (
              arith,
              before,
              count-late k now timeout w.manager.inflight,
              keeps late_ones k,
              count-append k (order late_ones) w.manager.pending,
            );
        flying = λ k.
            let before = s.flying k in
            omega (arith, before, count-late k now timeout w.manager.inflight);
        in_flight_blocks = refl;
        pending_blocks = refl;
      })
    ]

reset-IsSound : (w : Workers) → IsSound w → IsSound (record w { manager = reset_queues w.manager })
unfolding reset_queues keys
reset-IsSound w s = record {
  once = λ k. let before = s.once k in omega (arith, before);
  flying = λ k. omega arith;
  in_flight_blocks = refl;
  pending_blocks = refl;
}

-- A call that leaves the queues and their counters alone.
aside-IsSound :
    (sm : SyncManager) (w : Workers)
    → sm.pending ≡ w.manager.pending
    → sm.inflight ≡ w.manager.inflight
    → sm.status.in_flight_blocks ≡ w.manager.status.in_flight_blocks
    → sm.status.pending_blocks ≡ w.manager.status.pending_blocks
    → IsSound w
    → IsSound (record w { manager = sm })
aside-IsSound sm w p f fs ps s = record {
  once = λ k. rw (p, f) (s.once k);
  flying = λ k. rw f (s.flying k);
  in_flight_blocks = rw (fs, f) s.in_flight_blocks;
  pending_blocks = rw (ps, p) s.pending_blocks;
}

Step-IsSound : (a b : Workers) → Step a b → IsSound a → IsSound b
unfolding pop_pending touch_request set_peer_anchor_ok set_local_anchor mark_fail set_paused
Step-IsSound a b (headers n hashes w) s = headers-IsSound n hashes a s
Step-IsSound a b (popped h sm w e) s = popped-IsSound h sm a.manager.pending a refl e s
Step-IsSound a b (marked now h w e) s = marked-IsSound now h a e s
Step-IsSound a b (received h w) s = received-IsSound h a s
Step-IsSound a b (timed_out order now timeout w keeps) s =
    timed_out-IsSound order now timeout a keeps s
Step-IsSound a b (reset w) s = reset-IsSound a s
Step-IsSound a b (requested now w) s =
    aside-IsSound (touch_request now a.manager) a refl refl refl refl s
Step-IsSound a b (anchored peer v w) s =
    aside-IsSound (set_peer_anchor_ok peer v a.manager) a refl refl refl refl s
Step-IsSound a b (anchor_set h hash w) s =
    aside-IsSound (set_local_anchor h hash a.manager) a refl refl refl refl s
Step-IsSound a b (failed now peer w) s =
    aside-IsSound (mark_fail now peer a.manager) a refl refl refl refl s
Step-IsSound a b (paused v w) s = aside-IsSound (set_paused v a.manager) a refl refl refl refl s

-- In every state that is reached by the calls that change the manager, in any order, with a worker's mark
-- of a hash at any time after it took the hash: the occurrences of a hash in the queue, in flight and with
-- the workers are together at most one more than the batches of headers that named it while a worker
-- held it, so that it stands once where there were none; in flight it stands at most once; and the
-- two counters of the status are the lengths of the queues.
pub reachable-IsSound : (w : Workers) → Reachable w → IsSound w
unfolding keys
reachable-IsSound w started = record {
  once = λ k. omega arith;
  flying = λ k. omega arith;
  in_flight_blocks = refl;
  pending_blocks = refl;
}
reachable-IsSound w (after a b r step) = Step-IsSound a w step (reachable-IsSound a r)
