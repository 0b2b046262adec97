-- ===== src/Sync/Backoff.antt =====
-- How long a peer that failed is left alone: `peerBackoff` (core/node/sync_manager.go).
use reserve_os.Base.{
  ℕ, ◌≡◌, ◌+◌, ◌-◌, ◌^◌, ◌≤◌, refl, if◌then◌else◌, arith, Bytes, IsNonneg, ltb, ◌==◌, slt, sle,
  sub64,
}
use native.Mathlib.Nat.{pow-le-pow_right}
use reserve_os.Sync.{SyncManager, peer_backoff}

cap-le : (c : ℕ) → (if ltb c 6 then c else 6) ≤ 6
cap-le c = ground arith

pow-cap-le : (c : ℕ) → 2 ^ (if ltb c 6 then c else 6) ≤ 64
pow-cap-le c = pow-le-pow_right {n = 2} (omega arith) (cap-le c)

slt-ltb : (c : ℕ) → IsNonneg c → slt c 6 ≡ ltb c 6
slt-ltb c n = ground arith

remaining :
    (wait now last : ℕ)
    → wait ≤ 64
    → IsNonneg now
    → last ≤ now
    → (if sle wait (sub64 now last) then 0 else sub64 wait (sub64 now last)) ≡ wait + last - now
remaining wait now last w n l = ground arith

-- Where the clock has not been set back behind the last failure, a peer is left alone for what
-- remains of 2 to the power of its failures, six at most, in seconds; a peer that never failed not
-- at all.
pub peer_backoff_lem :
    (now : ℕ) (peer : Bytes) (sm : SyncManager)
    → IsNonneg now
    → IsNonneg (sm.fail_count peer)
    → sm.last_fail peer ≤ now
    → peer_backoff now peer sm ≡ (
        if sm.fail_count peer == 0
        then 0
        else 2 ^ (if ltb (sm.fail_count peer) 6 then sm.fail_count peer else 6)
          + sm.last_fail peer
          - now)
unfolding peer_backoff
peer_backoff_lem now peer sm n c l = rw (slt-ltb (sm.fail_count peer) c) (
    rw
      (remaining (2 ^ (if ltb (sm.fail_count peer) 6 then sm.fail_count peer else 6)) now
        (sm.last_fail peer) (pow-cap-le (sm.fail_count peer)) n l)
      refl)
