-- ===== src/Forks/Locator.antt =====
-- The block locator of core/node/locator.go: hashes of the main chain from the tip down, in steps that
-- grow, with which another node finds a block that both have.
pub mod Meeting
use reserve_os.Base.{
  ℕ, zero, suc, ◌+◌, Bool, true, false, if◌then◌else◌, List, [], ◌∷◌, Option, none, some, Bytes,
  is_empty, ltb, ◌==◌, sub64, mul64, nonpos, Outcome, ok, err, panic, ◌>>=◌,
}
use reserve_os.State.{Kv}
use reserve_os.Storage.{Json, key_block_by_hash, get_hash_by_height, get_tip, get_block_by_hash}

-- `if len(loc) > 10 { step *= 2 }`
abbrev pub next_step : ℕ → ℕ → ℕ
next_step len step = if ltb 10 len then mul64 step 2 else step

-- `if step > h { h = 0 } else { h -= step }`
abbrev pub next_height : ℕ → ℕ → ℕ
next_height step h = if ltb h step then 0 else sub64 h step

-- The hash of the tip where the loop found nothing.
abbrev pub or_tip : Bytes → List Bytes → List Bytes
or_tip tip [] = if is_empty tip then [] else tip ∷ []
or_tip tip (x ∷ loc) = x ∷ loc

module _ (kv : Kv) where
  -- `GetBlockByHeight` into an `any`: any JSON value will do.
  abbrev pub any_at : (Bytes → Outcome (Unit {0})) → kv.Db → Option Bytes → Outcome (Option Bytes)
  any_at unmarshal_any db none = ok none
  any_at unmarshal_any db (some hash) = kv.get db (key_block_by_hash hash) >>= λ v. elim v [
    | none ↦ ok none
    | some b ↦ unmarshal_any b >>= λ u. ok (some hash)
  ]

  unfoldable pub hash_at : (Bytes → Outcome (Unit {0})) → kv.Db → ℕ → Outcome (Option Bytes)
  hash_at unmarshal_any db h = get_hash_by_height kv db h >>= any_at unmarshal_any db

  -- The loop, with the number of hashes that it may still append, and how many there are.
  unfoldable pub locator_loop :
      (Bytes → Outcome (Unit {0})) → kv.Db → ℕ → ℕ → ℕ → ℕ → Outcome (List Bytes)
  locator_loop unmarshal_any db zero len step h = ok []
  locator_loop unmarshal_any db (suc n) len step h = elim (hash_at unmarshal_any db h) [
    | err e ↦ ok []
    | panic ↦ panic
    | ok none ↦ ok []
    | ok (some hash) ↦ elim (h == 0) [
      | true ↦ ok (hash ∷ [])
      | false ↦
          locator_loop unmarshal_any db n (len + 1) (next_step (len + 1) step)
            (next_height (next_step (len + 1) step) h)
          >>= λ loc. ok (hash ∷ loc)
    ]
  ]

  module _ (json : Json) where
    -- No tip gives the list nil, with the error of the read or without one.
    unfoldable pub build_block_locator :
        (Bytes → Outcome (Unit {0})) → kv.Db → ℕ → Outcome (List Bytes)
    build_block_locator unmarshal_any db given = get_tip kv json db >>= λ tip. elim tip [
      | none ↦ ok []
      | some (h, hash) ↦
          locator_loop unmarshal_any db (if nonpos given then 32 else given) 0 1 h >>= λ loc.
          ok (or_tip hash loc)
    ]

    -- The first hash of a block that is stored, with the block's height. The code reads no more of the
    -- block than that height.
    unfoldable pub find_first_known : kv.Db → List Bytes → Outcome (Option (Bytes × ℕ))
    find_first_known db [] = ok none
    find_first_known db (hash ∷ loc) = get_block_by_hash kv json db hash >>= λ b. elim b [
      | some block ↦ ok (some (hash, block.header.height))
      | none ↦ find_first_known db loc
    ]
