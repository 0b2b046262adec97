-- ===== src/Forks/Locator/Meeting.antt =====
-- Two nodes find a common block by the locator of core/node/locator.go.
use reserve_os.Base.{
  ℕ, zero, suc, ◌+◌, ◌≤◌, ◌≡◌, refl, ap, ◌∙◌, Bool, true, false, ◌||◌, List, [], ◌∷◌, Option, none,
  some, arith, Bytes, bytes_eq, bytes_eq→eq, bytes_eq_self, Option-cases, length, Bool-cases, inl,
  inr, ◌==◌, nonpos, IsU64, Outcome, ok,
}
use reserve_os.Chain.{Block}
use reserve_os.State.{Kv}
use reserve_os.Storage.{Json, get_tip, get_block_by_hash}
use reserve_os.Forks.Locator.{
  hash_at, next_step, next_height, locator_loop, or_tip, build_block_locator, find_first_known,
}

-- How far down a loop of so many rounds gets.
unfoldable pub reach : ℕ → ℕ → ℕ → ℕ
reach zero len step = 0
reach (suc zero) len step = 0
reach (suc (suc n)) len step =
    next_step (len + 1) step + reach (suc n) (len + 1) (next_step (len + 1) step)

unfoldable pub among : Bytes → List Bytes → Bool
among k [] = false
among k (j ∷ js) = bytes_eq j k || among k js

or_tip-among : (tip k : Bytes) (loc : List Bytes) → among k loc ≡ true → or_tip tip loc ≡ loc
unfolding among
or_tip-among tip k [] h = absurd cc
or_tip-among tip k (x ∷ loc) h = refl

or_true : (b : Bool) → (b || true) ≡ true
or_true true = refl
or_true false = refl

default_reach : reach 32 0 1 ≡ 4194312
unfolding reach
default_reach = refl

module _ (kv : Kv) where
  -- The main chain has a hash at every height up to the tip.
  unfoldable pub HasChain : (Bytes → Outcome (Unit {0})) → kv.Db → (ℕ → Bytes) → ℕ → Type 0
  HasChain unmarshal_any db hashes tip =
      (h : ℕ) → h ≤ tip → hash_at kv unmarshal_any db h ≡ ok (some (hashes h))

  loop_suc :
      (unmarshal_any : Bytes → Outcome (Unit {0})) (db : kv.Db) (n len step h : ℕ) (hash : Bytes)
      (loc : List Bytes)
      → hash_at kv unmarshal_any db (suc h) ≡ ok (some hash)
      → locator_loop kv unmarshal_any db n
          (len + 1)
          (next_step (len + 1) step)
          (next_height (next_step (len + 1) step) (suc h))
        ≡ ok loc
      → locator_loop kv unmarshal_any db (suc n) len step (suc h) ≡ ok (hash ∷ loc)
  unfolding locator_loop
  loop_suc unmarshal_any db n len step h hash loc found rest =
      let positive : (suc h == 0) ≡ false = ground arith in
      rw (found, locator_loop) (rw (positive) (rw rest refl))

  locator_loop-among :
      (unmarshal_any : Bytes → Outcome (Unit {0})) (db : kv.Db) (hashes : ℕ → Bytes)
      (tip n len step h : ℕ)
      → HasChain unmarshal_any db hashes tip
      → h ≤ tip
      → IsU64 tip
      → h ≤ reach (suc n) len step
      → (loc : List Bytes) × (locator_loop kv unmarshal_any db (suc n) len step h ≡ ok loc)
        × (among (hashes 0) loc ≡ true)
        × (length loc ≤ suc n)
  unfolding locator_loop reach among HasChain
  locator_loop-among unmarshal_any db hashes tip n len step zero chain below small far =
      rw (chain 0 below, locator_loop)
        (hashes 0 ∷ [], refl, rw (bytes_eq_self (hashes 0)) refl, omega arith)
  locator_loop-among unmarshal_any db hashes tip zero len step (suc h) chain below small far =
      absurd (omega arith)
  locator_loop-among unmarshal_any db hashes tip (suc n) len step (suc h) chain below small far =
      let lower : next_height (next_step (len + 1) step) (suc h) ≤ tip = ground arith in
      let (loc, rest, here, short) =
        locator_loop-among unmarshal_any db hashes tip n (len + 1) (next_step (len + 1) step)
          (next_height (next_step (len + 1) step) (suc h)) chain lower small (ground arith) in
      (
        hashes (suc h) ∷ loc,
        loop_suc unmarshal_any db (suc n) len step h (hashes (suc h)) loc (chain (suc h) below)
            rest,
        rw here (or_true (bytes_eq (hashes (suc h)) (hashes 0))),
        omega arith,
      )

  module _ (json : Json) where
    not_known :
        (db : kv.Db) (j k : Bytes) (b : Block)
        → get_block_by_hash kv json db j ≡ ok none
        → get_block_by_hash kv json db k ≡ ok (some b)
        → bytes_eq j k ≡ false
    not_known db j k b missing known = elim (Bool-cases (bytes_eq j k)) [
      | inl same ↦ let e = bytes_eq→eq j k same in absurd cc
      | inr other ↦ other
    ]

    built :
        (unmarshal_any : Bytes → Outcome (Unit {0})) (db : kv.Db) (given tip : ℕ) (tip_hash : Bytes)
        (loc : List Bytes)
        → nonpos given ≡ true
        → get_tip kv json db ≡ ok (some (tip, tip_hash))
        → locator_loop kv unmarshal_any db 32 0 1 tip ≡ ok loc
        → or_tip tip_hash loc ≡ loc
        → build_block_locator kv json unmarshal_any db given ≡ ok loc
    unfolding build_block_locator
    built unmarshal_any db given tip tip_hash loc default at_tip ran whole =
        rw (at_tip) (rw (default, ran, whole) refl)

    find_first_known-among :
        (db : kv.Db) (loc : List Bytes) (k : Bytes) (b : Block)
        → ((hash : Bytes) → (o : Option Block) × (get_block_by_hash kv json db hash ≡ ok o))
        → get_block_by_hash kv json db k ≡ ok (some b)
        → among k loc ≡ true
        → (hash : Bytes) × (height : ℕ) × (find_first_known kv json db loc
            ≡ ok (some (hash, height)))
          × (among hash loc ≡ true)
    unfolding find_first_known among
    find_first_known-among db [] k b total known here = cc
    find_first_known-among db (j ∷ loc) k b total known here =
        let (o, read) = total j in
        elim (Option-cases o) [
          | inr (found, e) ↦
              (j, found.header.height, rw (read ∙ ap ok e) refl, rw (bytes_eq_self j) refl)
          | inl e ↦
              let missing : get_block_by_hash kv json db j ≡ ok none = read ∙ ap ok e in
              let other : bytes_eq j k ≡ false = not_known db j k b missing known in
              let (hash, height, found, listed) =
                find_first_known-among db loc k b total known (ground arith) in
              (hash, height, rw missing found, rw listed (or_true (bytes_eq j hash)))
        ]

    -- A node that has all blocks of its main chain up to the tip, which stands at height 4194312 or
    -- lower, gives a locator of 32 hashes at most by default; any node that reads its
    -- blocks without an error and has the same genesis block finds in it the hash of a block that it has.
    pub find_first_known-build_block_locator :
        (unmarshal_any : Bytes → Outcome (Unit {0})) (db peer : kv.Db) (given tip : ℕ)
        (tip_hash : Bytes) (hashes : ℕ → Bytes) (genesis : Block)
        → nonpos given ≡ true
        → get_tip kv json db ≡ ok (some (tip, tip_hash))
        → tip ≤ 4194312
        → HasChain unmarshal_any db hashes tip
        → ((hash : Bytes) → (o : Option Block) × (get_block_by_hash kv json peer hash ≡ ok o))
        → get_block_by_hash kv json peer (hashes 0) ≡ ok (some genesis)
        → (loc : List Bytes) × (hash : Bytes) × (height : ℕ) × (build_block_locator kv json
              unmarshal_any db given
            ≡ ok loc)
          × (length loc ≤ 32)
          × (find_first_known kv json peer loc ≡ ok (some (hash, height)))
          × (among hash loc ≡ true)
    unfolding build_block_locator
    find_first_known-build_block_locator unmarshal_any db peer given tip tip_hash hashes genesis
          default at_tip low chain total known =
        let (loc, ran, here, short) =
          locator_loop-among unmarshal_any db hashes tip 31 0 1 tip chain (omega arith)
            (omega arith) (rw default_reach low) in
        let (hash, height, found, listed) =
          find_first_known-among peer loc (hashes 0) genesis total known here in
        (
          loc,
          hash,
          height,
          built unmarshal_any db given tip tip_hash loc default at_tip ran
              (or_tip-among tip_hash (hashes 0) loc here),
          short,
          found,
          listed,
        )
