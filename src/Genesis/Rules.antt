-- ===== src/Genesis/Rules.antt =====
-- Which genesis files `Validate` accepts (core/chain/genesis.go).
use reserve_os.Base.{
  ℕ, ◌+◌, ◌≡◌, ◌≢◌, ◌↔◌, ◌<◌, ◌≤◌, refl, false, ◌||◌, arith, List, [], ◌∷◌, Option, none, some,
  codes, is_empty, All, ltb, ◌==◌, nonpos, ok, ◌>>=◌, >>=-eq-ok, fail_if_iff, last_fail_if_iff,
}
use reserve_os.Genesis.{
  Checkpoints, Allocation, Genesis, allocation_error, check_allocations, check_finality, validate,
}

pub record IsNamed (a : Allocation) : Type 0 where
  pub address : is_empty a.address ≡ false
  pub balance : is_empty a.balance ≡ false

-- The parameters of finality, where there are any.
abbrev pub IsPositive : Option Checkpoints → Type 0
IsPositive none = Unit {0}
IsPositive (some f) =
    (f.checkpoint_interval ≢ 0)
    × (nonpos f.threshold_num ≡ false)
    × (nonpos f.threshold_den ≡ false)

pub record IsGenesis (g : Genesis) : Type 0 where
  pub chain_id : is_empty g.chain_id ≡ false
  pub protocol_version : g.protocol_version ≢ 0
  pub time : nonpos g.genesis_time_unix ≡ false
  pub bits : (0 < g.pow_leading_zero_bits) × (g.pow_leading_zero_bits ≤ 255)
  pub allocations : All IsNamed g.allocations
  pub finality : IsPositive g.finality

check_allocations_iff :
    (i : ℕ) (l : List Allocation) → (check_allocations i l ≡ ok tt) ↔ All IsNamed l
unfolding check_allocations
check_allocations_iff i [] = (λ e. tt, λ a. refl)
check_allocations_iff i (a ∷ more) =
    let rest = check_allocations_iff (i + 1) more in
    let first =
      fail_if_iff (is_empty a.address) (allocation_error i (codes "address required")) _ in
    let second =
      fail_if_iff (is_empty a.balance) (allocation_error i (codes "balance required")) _ in
    (
      λ e.
          let (address, e1) = first.0 e in
          let (balance, e2) = second.0 e1 in
          (record { address = address; balance = balance }, rest.0 e2),
      λ (named, all). first.1 (named.address, second.1 (named.balance, rest.1 all)),
    )

check_finality_iff : (o : Option Checkpoints) → (check_finality o ≡ ok tt) ↔ IsPositive o
unfolding check_finality
check_finality_iff none = (λ e. tt, λ a. refl)
check_finality_iff (some f) =
    let first =
      fail_if_iff (f.checkpoint_interval == 0)
        (codes "genesis.finality.checkpoint_interval invalid") _ in
    let last =
      last_fail_if_iff (nonpos f.threshold_num || nonpos f.threshold_den)
        (codes "genesis.finality.threshold invalid") in
    (
      λ e.
          let (interval, e1) = first.0 e in
          let both = last.0 e1 in (ground arith, ground arith, ground arith),
      λ (interval, num, den). first.1 (ground arith, last.1 (ground arith)),
    )

-- `Validate` accepts a genesis file exactly when it names the chain, its protocol version is not 0, its
-- time is positive, it asks for 1 to 255 leading zero bits, every allocation has an address and a
-- balance, and the finality parameters, where there are any, have an interval that is not 0 and a
-- positive threshold.
pub validate_iff : (g : Genesis) → (validate g ≡ ok tt) ↔ IsGenesis g
unfolding validate
validate_iff g =
    let named = fail_if_iff (is_empty g.chain_id) (codes "genesis.chain_id required") _ in
    let version =
      fail_if_iff (g.protocol_version == 0) (codes "genesis.protocol_version required") _ in
    let time =
      fail_if_iff (nonpos g.genesis_time_unix) (codes "genesis.genesis_time_unix required") _ in
    let bits =
      fail_if_iff (g.pow_leading_zero_bits == 0 || ltb 255 g.pow_leading_zero_bits)
        (codes "genesis.consensus.pow_leading_zero_bits invalid") _ in
    let allocations = check_allocations_iff 0 g.allocations in
    let finality = check_finality_iff g.finality in
    (
      λ e.
          let (e_named, e1) = named.0 e in
          let (e_version, e2) = version.0 e1 in
          let (e_time, e3) = time.0 e2 in
          let (e_bits, e4) = bits.0 e3 in
          let (u, e_allocations, e5) = >>=-eq-ok (check_allocations 0 g.allocations) _ e4 in
          record {
            chain_id = e_named;
            protocol_version = ground arith;
            time = e_time;
            bits = (ground arith, ground arith);
            allocations = allocations.0 e_allocations;
            finality = finality.0 e5;
          },
      λ i. named.1 (
        i.chain_id,
        version.1 (
          ne_zero _ i.protocol_version,
          time.1 (
            i.time,
            bits.1 (
              in_range _ i.bits.0 i.bits.1,
              rw (allocations.1 i.allocations, ◌>>=◌) (finality.1 i.finality),
            ),
          ),
        ),
      ),
    )
  where
    ne_zero : (n : ℕ) → n ≢ 0 → (n == 0) ≡ false
    ne_zero n h = ground arith

    in_range : (n : ℕ) → 0 < n → n ≤ 255 → (n == 0 || ltb 255 n) ≡ false
    in_range n h k = ground arith
