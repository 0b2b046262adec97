-- ===== src/Chain/Root.antt =====
-- The Merkle root of a block's transactions, core/chain.
use reserve_os.Base.{
  ℕ, zero, suc, ◌+◌, ◌-◌, ◌/◌, ◌≤◌, ◌≡◌, refl, sym, ap, ◌∙◌, List, [], ◌∷◌, ◌++◌, arith, Bytes,
  length, leb, map, length-map, length-append, ok, Bool-cases, inl, inr, false, ◌⊎◌, some, codes,
}
use reserve_os.Chain.{
  Tx, next_level, reduce_levels, root_of, root_of_levels, root_of_ids, tx_id, tx_root, sha256d,
}
use mathlib.Core.List.{map-append}

longer : (n : ℕ) → leb (suc (suc n)) 1 ≡ false
longer n = ground arith

module _ (sha256 : Bytes → Bytes) where
  length-next_level :
      (level : List Bytes) → length (next_level sha256 level) ≡ (length level + 1) / 2
  unfolding next_level
  length-next_level [] = omega arith
  length-next_level (a ∷ []) = omega arith
  length-next_level (a ∷ b ∷ level) = omega (arith, length-next_level level)

  -- The loop of `TxRoot` with no bound on its rounds: it ends at a level of one entry.
  pub data Shrinks : List Bytes → Bytes → Type 0 where
    one : (a : Bytes) → Shrinks (a ∷ []) a
    round :
        (level : List Bytes) (r : Bytes)
        → 2 ≤ length level
        → Shrinks (next_level sha256 level) r
        → Shrinks level r

  -- With as much fuel as entries the model's loop ends where that loop does.
  reduce_levels-Shrinks :
      (fuel : ℕ) (level : List Bytes)
      → 1 ≤ length level
      → length level ≤ fuel
      → (r : Bytes) × Shrinks level r × (reduce_levels sha256 fuel level ≡ some (r ∷ []))
  unfolding reduce_levels
  reduce_levels-Shrinks zero level lo hi = absurd (omega arith)
  reduce_levels-Shrinks (suc fuel) [] lo hi = absurd (omega arith)
  reduce_levels-Shrinks (suc fuel) (a ∷ []) lo hi = (a, one a, refl)
  reduce_levels-Shrinks (suc fuel) (a ∷ b ∷ level) lo hi =
      let shorter = length-next_level (a ∷ b ∷ level) in
      let (r, ends, e) =
        reduce_levels-Shrinks fuel (next_level sha256 (a ∷ b ∷ level)) (omega arith)
          (omega arith) in
      (r, round (a ∷ b ∷ level) r (omega arith) ends, rw (longer (length level)) e)

  next_level-twice :
      (ids : List Bytes) (x : Bytes) (k : ℕ)
      → length ids ≡ k + k
      → next_level sha256 (ids ++ (x ∷ [])) ≡ next_level sha256 (ids ++ (x ∷ x ∷ []))
  unfolding next_level
  next_level-twice [] x k e = refl
  next_level-twice (a ∷ []) x k e = absurd (omega arith)
  next_level-twice (a ∷ b ∷ ids) x k e =
      ap (λ (l : List Bytes). sha256 (a ++ b) ∷ l) (next_level-twice ids x (k - 1) (omega arith))

  reduce_levels_fuel :
      (f g : ℕ) (level : List Bytes)
      → length level ≤ f
      → length level ≤ g
      → reduce_levels sha256 f level ≡ reduce_levels sha256 g level
  unfolding reduce_levels
  reduce_levels_fuel zero zero level hf hg = refl
  reduce_levels_fuel zero (suc g) level hf hg = ground arith
  reduce_levels_fuel (suc f) zero level hf hg = ground arith
  reduce_levels_fuel (suc f) (suc g) level hf hg = elim (Bool-cases (leb (length level) 1)) [
    | inl e ↦ rw e
    | inr e ↦ rw e (
        reduce_levels_fuel f g (next_level sha256 level) (ground (arith, length-next_level level))
          (ground (arith, length-next_level level)))
  ]

  reduce_levels_step :
      (level : List Bytes)
      → 2 ≤ length level
      → reduce_levels sha256 (length level) level
        ≡ reduce_levels sha256 (length (next_level sha256 level)) (next_level sha256 level)
  unfolding reduce_levels
  reduce_levels_step [] h = absurd (omega arith)
  reduce_levels_step (a ∷ []) h = absurd (omega arith)
  reduce_levels_step (a ∷ b ∷ level) h = rw (longer (length level)) (
      reduce_levels_fuel (suc (length level)) (length (next_level sha256 (a ∷ b ∷ level)))
        (next_level sha256 (a ∷ b ∷ level)) (omega (arith, length-next_level (a ∷ b ∷ level)))
        (omega arith))

  root_of_ids-step :
      (ids : List Bytes)
      → 2 ≤ length ids
      → root_of_ids sha256 ids
        ≡ root_of_levels sha256
            (reduce_levels sha256 (length (next_level sha256 ids)) (next_level sha256 ids))
  unfolding root_of_ids
  root_of_ids-step [] h = absurd (omega arith)
  root_of_ids-step (a ∷ ids) h = ap (root_of_levels sha256) (reduce_levels_step (a ∷ ids) h)

  -- After an even number of ids that is not 0, one more id and the same id twice give the same
  -- root, whatever the hash function.
  pub root_of_ids_twice :
      (ids : List Bytes) (x : Bytes) (k : ℕ)
      → 1 ≤ k
      → length ids ≡ k + k
      → root_of_ids sha256 (ids ++ (x ∷ [])) ≡ root_of_ids sha256 (ids ++ (x ∷ x ∷ []))
  root_of_ids_twice ids x k pos e =
      root_of_ids-step (ids ++ (x ∷ [])) (omega (arith, length-append ids (x ∷ [])))
      ∙ ap (λ (l : List Bytes). root_of_levels sha256 (reduce_levels sha256 (length l) l))
          (next_level-twice ids x k e)
      ∙ sym (root_of_ids-step (ids ++ (x ∷ x ∷ [])) (omega (arith, length-append ids (x ∷ x ∷ []))))

module _ (sha256 hash256 : Bytes → Bytes) where
  -- `TxRoot` ends for every list of transactions, within the model's fuel: the empty list has the hash
  -- of a constant; for any other the loop, with no bound on its rounds, shrinks the ids to one entry,
  -- and the root is the hash of that entry.
  pub tx_root_total :
      (txs : List Tx)
      → ((txs ≡ [])
          × (tx_root sha256 hash256 txs ≡ some (ok (sha256d sha256 (codes "txroot:empty")))))
        ⊎ ((r : Bytes) × Shrinks sha256 (map (tx_id hash256) txs) r
            × (tx_root sha256 hash256 txs ≡ some (ok (sha256 r))))
  unfolding tx_root root_of_ids root_of
  tx_root_total [] = inl (refl, refl)
  tx_root_total (tx ∷ txs) =
      let ids = map (tx_id hash256) (tx ∷ txs) in
      let (r, ends, e) =
        reduce_levels-Shrinks sha256 (length ids) ids (omega arith) (omega arith) in
      inr (r, ends, ap (root_of_levels sha256) e)

  -- The root does not commit to the list: after an even number of transactions other than 0, a
  -- list that ends in one more transaction has the root of the list that ends in it twice.
  pub tx_root_twice :
      (txs : List Tx) (x : Tx) (k : ℕ)
      → 1 ≤ k
      → length txs ≡ k + k
      → tx_root sha256 hash256 (txs ++ (x ∷ [])) ≡ tx_root sha256 hash256 (txs ++ (x ∷ x ∷ []))
  unfolding tx_root
  tx_root_twice txs x k pos e =
      rw (map-append, map-append)
        (root_of_ids_twice sha256 (map (tx_id hash256) txs) (tx_id hash256 x) k pos
          (length-map (tx_id hash256) txs ∙ e))
