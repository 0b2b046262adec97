-- ===== src/Pow/Mine.antt =====
-- `MineHeader` of core/consensus/pow/mine.go.
use reserve_os.Base.{
  ℕ, zero, suc, ◌+◌, ◌<◌, ◌^◌, ◌%◌, ◌≡◌, Bool, true, false, arith, Bytes, IsU64, some,
}
use reserve_os.Chain.{BlockHeader, header_hash}
use reserve_os.Pow.{meets_target, next_nonce, mine_header}

-- The header at the attempt with a given number.
unfoldable pub attempt : ℕ → BlockHeader → BlockHeader
attempt zero h = h
attempt (suc k) h = attempt k (next_nonce h)

pub nonce-attempt :
    (k : ℕ) (h : BlockHeader) → IsU64 h.nonce → (attempt k h).nonce ≡ (h.nonce + k) % 2 ^ 64
unfolding attempt
nonce-attempt zero h w = omega arith
nonce-attempt (suc k) h w = omega (arith, nonce-attempt k (next_nonce h) (omega arith))

module _ (sha256 : Bytes → Bytes) where
  -- Whether an attempt meets the target.
  unfoldable pub hits : BlockHeader → Bool
  hits h = meets_target (header_hash sha256 h) h.bits

  first :
      (k fuel : ℕ) (h : BlockHeader)
      → ((i : ℕ) → i < k → hits (attempt i h) ≡ false)
      → hits (attempt k h) ≡ true
      → k < fuel
      → mine_header sha256 fuel h ≡ some (header_hash sha256 (attempt k h), attempt k h)
  unfolding mine_header attempt hits
  first k zero h misses hit enough = absurd (omega arith)
  first zero (suc fuel) h misses hit enough = rw hit
  first (suc k) (suc fuel) h misses hit enough =
      rw (misses 0 (omega arith))
        (first k fuel (next_nonce h) (λ i lt. misses (suc i) (omega arith)) hit (omega arith))

  -- If the first hit is the attempt with number `k`, then with any fuel above `k` the loop returns that
  -- header and its hash, and its nonce is the first one plus `k`, modulo 2 ^ 64.
  pub mine_header_first :
      (k fuel : ℕ) (h : BlockHeader)
      → IsU64 h.nonce
      → ((i : ℕ) → i < k → hits (attempt i h) ≡ false)
      → hits (attempt k h) ≡ true
      → k < fuel
      → (mine_header sha256 fuel h ≡ some (header_hash sha256 (attempt k h), attempt k h))
        × ((attempt k h).nonce ≡ (h.nonce + k) % 2 ^ 64)
  mine_header_first k fuel h w misses hit enough =
      (first k fuel h misses hit enough, nonce-attempt k h w)
