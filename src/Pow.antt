-- ===== src/Pow.antt =====
-- Proof of work, core/consensus/pow: compact targets, the target test, work and retargeting.
-- A `*big.Int` here is never negative and is a number; a `uint32` and a `uint64` are numbers in
-- their range; a hash is its 32 bytes.
pub mod Mine
pub mod Target
pub mod Work
pub mod Retarget
use reserve_os.Base.{
  Option, none, some, ℕ, zero, suc, ◌+◌, ◌-◌, ◌*◌, ◌/◌, ◌%◌, ◌^◌, Bool, true, false, if◌then◌else◌,
  List, [], ◌∷◌, Bytes, length, take, ltb, leb, ◌==◌, slt, sdiv, mul64, add64, nonpos, max_u64,
  big_bytes, be_value,
}
use reserve_os.Chain.{Hash, BlockHeader, header_hash}

-- The exponent is a `uint8`, and so are `3 - exponent` and `exponent - 3` times 8: the shift wraps
-- at 256.
unfoldable pub compact_to_big : ℕ → ℕ
compact_to_big compact =
    let exponent = compact / 2 ^ 24 in
    let mantissa = compact % 2 ^ 23 in
    if leb exponent 3
    then mantissa / 2 ^ (8 * (3 - exponent))
    else mantissa * 2 ^ (8 * (exponent - 3) % 256)

-- The mantissa before the sign bit is looked at. Up to three bytes are read as a `uint32` that is
-- shifted right by 8; of more bytes the first three count.
unfoldable pub raw_mantissa : Bytes → ℕ
raw_mantissa b = if leb (length b) 3 then be_value b / 2 ^ 8 else be_value (take 3 b)

unfoldable pub pack_compact : ℕ → ℕ → ℕ
pack_compact exponent mantissa =
    if leb (2 ^ 23) (mantissa % 2 ^ 24)
    then (exponent + 1) * 2 ^ 24 % 2 ^ 32 + mantissa / 2 ^ 8 % 2 ^ 23
    else exponent * 2 ^ 24 % 2 ^ 32 + mantissa % 2 ^ 23

unfoldable pub big_to_compact : ℕ → ℕ
big_to_compact target =
    if target == 0 then 0 else let b = big_bytes target in pack_compact (length b) (raw_mantissa b)

unfoldable pub leading_zeros_to_target : ℕ → ℕ
leading_zeros_to_target lz = if leb 256 lz then 0 else 2 ^ (256 - lz) - 1

unfoldable pub hash_to_big : Bytes → ℕ
hash_to_big h = be_value h

unfoldable pub meets_target : Bytes → ℕ → Bool
meets_target hash bits =
    let target = compact_to_big bits in if target == 0 then false else leb (hash_to_big hash) target

-- `h.Nonce++`
abbrev pub next_nonce : BlockHeader → BlockHeader
next_nonce h = record h { nonce = add64 h.nonce 1 }

-- The loop ends at the first nonce that meets the target, after `fuel` attempts at most; the header
-- that is returned holds the nonce.
unfoldable pub mine_header : (Bytes → Bytes) → ℕ → BlockHeader → Option (Hash × BlockHeader)
mine_header sha256 zero h = none
mine_header sha256 (suc fuel) h =
    let rest = mine_header sha256 fuel (next_nonce h) in
    let hash = header_hash sha256 h in if meets_target hash h.bits then some (hash, h) else rest

-- The top 64 bits of the magnitude's bytes.
unfoldable pub top64 : Bytes → ℕ
top64 bb =
    if leb 8 (length bb)
    then be_value (take 8 bb)
    else be_value bb * 2 ^ (8 * (8 - length bb)) % 2 ^ 64

-- `top + 1` is a `uint64`. A sum that wrapped to 0 would panic; `x / 0` is 0 here, and the sum wraps
-- only for a target whose top 64 bits are all ones, which 23 bits of mantissa never give.
unfoldable pub work64 : ℕ → ℕ
work64 bits =
    let t = compact_to_big bits in
    if t == 0
    then 0
    else let top = top64 (big_bytes t) in
      if top == 0 then max_u64 else max_u64 / ((top + 1) % 2 ^ 64)

unfoldable pub cumulative : ℕ → ℕ → ℕ
cumulative parent add = let sum = add64 parent add in if ltb sum parent then max_u64 else sum

-- `max(lo, min(hi, span))` as the two assignments do it.
unfoldable pub clamp_span : ℕ → ℕ → ℕ
clamp_span actual target =
    let lo = sdiv target 4 in
    let hi = mul64 target 4 in
    let raised = if slt actual lo then lo else actual in if slt hi raised then hi else raised

unfoldable pub retarget : ℕ → ℕ → ℕ → ℕ
retarget prev_bits actual target =
    if nonpos target
    then prev_bits
    else let span = clamp_span actual target in
      if slt span target
      then (prev_bits + 1) % 2 ^ 32
      else if slt target span
      then if ltb 1 prev_bits then prev_bits - 1 else prev_bits
      else prev_bits
