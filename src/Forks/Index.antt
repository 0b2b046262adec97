-- ===== src/Forks/Index.antt =====
-- The height index after it is rewritten (core/node/forkchoice.go).
use reserve_os.Base.{
  ℕ, ◌+◌, ◌≤◌, ◌<◌, ◌^◌, ◌≡◌, ◌⊎◌, inl, refl, ap, sym, ◌∙◌, true, false, arith, List, [], ◌∷◌, some,
  Bytes, length, ◌==◌, IsU64, add64, ok, if◌then◌else◌,
}
use mathlib.Core.Path.{subst}
use reserve_os.State.{Kv, GetPut, ignoring}
use reserve_os.State.Store.{IsWritable}
use reserve_os.Storage.{key_hash_by_height, get_hash_by_height, put_hash_by_height_overwrite}
use reserve_os.Storage.Records.{get_hash_by_height-put}
use reserve_os.Forks.{write_index}

module _ (kv : Kv) where
  -- The index has these hashes from a height on.
  pub IsIndexed : kv.Db → ℕ → List Bytes → Type 0
  IsIndexed db height [] = Unit {0}
  IsIndexed db height (h ∷ hs) =
      (get_hash_by_height kv db height ≡ ok (some h)) × IsIndexed db (height + 1) hs

  module _ (law : GetPut kv) (writes : IsWritable kv) where
    index-put :
        (db : kv.Db) (h : ℕ) (hash : Bytes) (j : ℕ)
        → IsU64 h
        → IsU64 j
        → get_hash_by_height kv (ignoring db (put_hash_by_height_overwrite kv db h hash)) j
          ≡ (if h == j then ok (some hash) else get_hash_by_height kv db j)
    unfolding put_hash_by_height_overwrite IsWritable
    index-put db h hash j hw jw =
        let (next, e) = writes db (key_hash_by_height h) hash in
        rw e (get_hash_by_height-put kv law db next h hash j hw jw e)

    pub write_index-other :
        (db : kv.Db) (i : ℕ) (hs : List Bytes) (j : ℕ)
        → i + length hs < 2 ^ 64
        → IsU64 j
        → (j < i) ⊎ (i + length hs ≤ j)
        → get_hash_by_height kv (write_index kv db i hs) j ≡ get_hash_by_height kv db j
    unfolding write_index
    write_index-other db i [] j fits jw out = refl
    write_index-other db i (h ∷ hs) j fits jw out =
        let next : add64 i 1 ≡ i + 1 = omega arith in
        let apart : (i == j) ≡ false = ground arith in
        rw next (
          write_index-other (ignoring db (put_hash_by_height_overwrite kv db i h)) (i + 1) hs j
            (omega arith) jw (ground arith)
          ∙ (index-put db i h j (omega arith) jw ∙ rw apart))

    pub write_index-IsIndexed :
        (db : kv.Db) (i : ℕ) (hs : List Bytes)
        → i + length hs < 2 ^ 64
        → IsIndexed (write_index kv db i hs) i hs
    unfolding write_index IsIndexed
    write_index-IsIndexed db i [] fits = tt
    write_index-IsIndexed db i (h ∷ hs) fits =
        let next : add64 i 1 ≡ i + 1 = omega arith in
        let same : (i == i) ≡ true = ground arith in
        let moved : write_index kv db i (h ∷ hs)
            ≡ write_index kv (ignoring db (put_hash_by_height_overwrite kv db i h)) (i + 1) hs =
          ap (λ n. write_index kv (ignoring db (put_hash_by_height_overwrite kv db i h)) n hs)
            next in
        (
          ap (λ d. get_hash_by_height kv d i) moved
              ∙ (write_index-other (ignoring db (put_hash_by_height_overwrite kv db i h)) (i + 1) hs
                    i (omega arith) (omega arith) (inl (omega arith))
                  ∙ (index-put db i h i (omega arith) (omega arith) ∙ rw same)),
          subst (λ d. IsIndexed d (i + 1) hs) (sym moved)
              (write_index-IsIndexed (ignoring db (put_hash_by_height_overwrite kv db i h)) (i + 1)
                hs (omega arith)),
        )

  pub IsIndexed-same :
      (db next : kv.Db) (i : ℕ) (hs : List Bytes)
      → ((j : ℕ) → get_hash_by_height kv next j ≡ get_hash_by_height kv db j)
      → IsIndexed db i hs
      → IsIndexed next i hs
  unfolding IsIndexed
  IsIndexed-same db next i [] same ix = tt
  IsIndexed-same db next i (h ∷ hs) same (at, ix) =
      (same i ∙ at, IsIndexed-same db next (i + 1) hs same ix)
