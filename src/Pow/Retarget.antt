-- ===== src/Pow/Retarget.antt =====
-- `Retarget` of core/consensus/pow/retarget.go.
use reserve_os.Base.{
  ℕ, ◌+◌, ◌-◌, ◌*◌, ◌/◌, ◌%◌, ◌^◌, ◌≤◌, ◌<◌, ◌≡◌, refl, true, if◌then◌else◌, arith, IsU32, IsU64,
  ltb, slt,
}
use reserve_os.Pow.{compact_to_big, clamp_span, retarget}

-- The clamped span lies on the same side of the target as the measured one.
clamp_span_side :
    (actual target : ℕ)
    → IsU64 actual
    → 0 < target
    → target < 2 ^ 61
    → (slt (clamp_span actual target) target ≡ slt actual target)
      × (slt target (clamp_span actual target) ≡ slt target actual)
unfolding clamp_span
clamp_span_side actual target ha pos ht = (ground arith, ground arith)

-- For a target span of 1 to 2 ^ 61 - 1 seconds `Retarget` adds one (modulo 2 ^ 32) when the blocks
-- came too fast, subtracts one down to 1 at least when they came too slowly, and keeps the bits
-- otherwise: the clamp to a quarter and to four times the target changes nothing.
pub retarget_lem :
    (prev_bits actual target : ℕ)
    → IsU64 actual
    → 0 < target
    → target < 2 ^ 61
    → retarget prev_bits actual target ≡ (
        if slt actual target
        then (prev_bits + 1) % 2 ^ 32
        else if slt target actual
        then if ltb 1 prev_bits then prev_bits - 1 else prev_bits
        else prev_bits)
unfolding retarget
retarget_lem prev_bits actual target ha pos ht = ground (arith, clamp_span_side actual target)

compact_to_big_parts :
    (c e m : ℕ)
    → c / 2 ^ 24 ≡ e
    → c % 2 ^ 23 ≡ m
    → 4 ≤ e
    → compact_to_big c ≡ m * 2 ^ (8 * (e - 3) % 256)
unfolding compact_to_big
compact_to_big_parts c e m he hm h = rw (he, hm) (ground arith)

-- One more in the bits is one more in the mantissa: a larger target, which is easier to meet.
compact_to_big_next :
    (bits : ℕ)
    → bits % 2 ^ 23 < 2 ^ 23 - 1
    → 4 ≤ bits / 2 ^ 24
    → compact_to_big (bits + 1) ≡ compact_to_big bits + 2 ^ (8 * (bits / 2 ^ 24 - 3) % 256)
compact_to_big_next bits hm he =
    let e = bits / 2 ^ 24 in
    let m = bits % 2 ^ 23 in
    omega (
      arith,
      compact_to_big_parts bits e m refl refl he,
      compact_to_big_parts (bits + 1) e (m + 1) (omega arith) (omega arith) he,
    )

-- After blocks that came faster than intended the target grows by one unit of its mantissa, so
-- mining becomes easier (unless the mantissa overflows; the exponent is 4 or more).
pub retarget_fast_eases :
    (prev_bits actual target : ℕ)
    → IsU32 prev_bits
    → prev_bits % 2 ^ 23 < 2 ^ 23 - 1
    → 4 ≤ prev_bits / 2 ^ 24
    → IsU64 actual
    → 0 < target
    → target < 2 ^ 61
    → slt actual target ≡ true
    → compact_to_big (retarget prev_bits actual target)
      ≡ compact_to_big prev_bits + 2 ^ (8 * (prev_bits / 2 ^ 24 - 3) % 256)
retarget_fast_eases prev_bits actual target hb hm he ha pos ht fast =
    rw (retarget_lem prev_bits actual target ha pos ht, fast)
      (rw (small prev_bits hb hm) (compact_to_big_next prev_bits hm he))
  where
    small : (b : ℕ) → IsU32 b → b % 2 ^ 23 < 2 ^ 23 - 1 → (b + 1) % 2 ^ 32 ≡ b + 1
    small b hb hm = omega arith
