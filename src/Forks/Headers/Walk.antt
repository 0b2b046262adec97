-- ===== src/Forks/Headers/Walk.antt =====
-- The walks end, and find what they look for, on a chain of stored headers
-- (internal/reservestorage/header_ancestors.go, core/node/reorg_best.go).
use reserve_os.Base.{
  ℕ, zero, suc, ◌+◌, ◌-◌, ◌≤◌, ◌<◌, ◌≡◌, ◌⊎◌, inl, inr, refl, ap, sym, ◌∙◌, true, false, arith,
  List, [], ◌∷◌, ◌++◌, append-nil, Option, none, some, Bytes, is_empty, ltb, leb, ◌==◌, ==_iff,
  Bool-cases, &&-eq-true, leb→le, bytes_eq→eq, Outcome, ok, err, panic,
}
use reserve_os.Chain.{Block, BlockHeader, hash_string}
use reserve_os.State.{Kv}
use reserve_os.Storage.{Json, get_header_by_hash, get_block_by_height}
use reserve_os.Forks.{found}
use reserve_os.Forks.Headers.{
  Run, ancestor_round, get_header_ancestor_hash_at_height, path_round, path_loop,
  header_path_from_to, block_hash, has_hash, on_main_chain, fork_round, fork_loop, find_fork_point,
}

-- `k` hashes of a chain from a height on, the lowest first.
pub segment : (ℕ → Bytes) → ℕ → ℕ → List Bytes
segment hs from zero = []
segment hs from (suc k) = hs from ∷ segment hs (from + 1) k

segment_last :
    (hs : ℕ → Bytes) (from k n : ℕ) (seq : List Bytes)
    → n ≡ from + k
    → segment hs from (suc k) ++ seq ≡ segment hs from k ++ (hs n ∷ seq)
unfolding segment
segment_last hs from zero n seq e = let at : from ≡ n = omega arith in ap (λ i. hs i ∷ seq) at
segment_last hs from (suc k) n seq e =
    ap (λ r. hs from ∷ r) (segment_last hs (from + 1) k n seq (omega arith))

module _ (kv : Kv) (json : Json) where
  -- Headers that are stored under the hashes `hs` at the heights up to `top`, each with its parent's
  -- hash.
  pub record IsHeaderChain (db : kv.Db) (hs : ℕ → Bytes) (top : ℕ) : Type 0 where
    pub header : ℕ → BlockHeader
    pub stored : (n : ℕ) → n ≤ top → get_header_by_hash kv json db (hs n) ≡ ok (some (header n))
    pub height : (n : ℕ) → n ≤ top → (header n).height ≡ n
    pub parent : (n : ℕ) → n < top → hash_string (header (suc n)).prev_hash ≡ hs n

  module _ (db : kv.Db) (hs : ℕ → Bytes) (top : ℕ) (c : IsHeaderChain db hs top) where
    ancestor_walk :
        (fuel n target : ℕ)
        → n ≤ top
        → target ≤ n
        → n < target + fuel
        → get_header_ancestor_hash_at_height kv json fuel db (hs n) target
          ≡ some (ok (some (hs target)))
    unfolding get_header_ancestor_hash_at_height ancestor_round
    ancestor_walk zero n target below at fits = absurd (omega arith)
    ancestor_walk (suc fuel) zero target below at fits =
        let here : target ≡ 0 = omega arith in
        let h = c.height 0 below in rw (c.stored 0 below) (rw (h, here) refl)
    ancestor_walk (suc fuel) (suc m) target below at fits =
        let h = c.height (suc m) below in
        let rest = ancestor_walk fuel m target (omega arith) in
        rw (c.stored (suc m) below) (
          rw (h, c.parent m (omega arith))
            (elim (Bool-cases (suc m == target)) [
              | inl here ↦
                  let e = (==_iff (suc m) target).0 here in
                  rw here (ap (λ i. some (ok (some (hs i)))) e)
              | inr above ↦
                  let not_below : ltb (suc m) target ≡ false = ground arith in
                  let not_zero : (suc m == 0) ≡ false = ground arith in
                  rw above (rw (not_below) (rw not_zero (rest (ground arith) (omega arith))))
            ]))

    path_walk :
        (fuel n from to k : ℕ) (seq : List Bytes)
        → n ≤ top
        → n ≤ to
        → n ≡ from + k
        → k < fuel
        → path_loop kv json fuel db (hs n) from to seq ≡ some (ok (segment hs from (suc k) ++ seq))
    unfolding path_loop path_round segment
    path_walk zero n from to k seq below at e fits = absurd (omega arith)
    path_walk (suc fuel) n from to zero seq below at e fits =
        let h = c.height n below in
        let t1 : ltb n from ≡ false = ground arith in
        let t2 : leb n to ≡ true = ground arith in
        let t3 : (n == from) ≡ true = ground arith in
        rw (c.stored n below) (
          rw h
            (rw t1 (rw t2 (rw t3 (ap (λ s. some (ok s)) (sym (segment_last hs from 0 n seq e)))))))
    path_walk (suc fuel) zero from to (suc k) seq below at e fits = absurd (omega arith)
    path_walk (suc fuel) (suc m) from to (suc k) seq below at e fits =
        let h = c.height (suc m) below in
        let t1 : ltb (suc m) from ≡ false = ground arith in
        let t2 : leb (suc m) to ≡ true = ground arith in
        let t3 : (suc m == from) ≡ false = ground arith in
        let rest =
          path_walk fuel m from to k (hs (suc m) ∷ seq) (omega arith) (omega arith) (omega arith)
            (omega arith) in
        rw (c.stored (suc m) below) (
          rw (h, c.parent m (omega arith))
            (rw t1 (
              rw t2 (
                rw t3 (
                  rest
                  ∙ ap (λ s. some (ok s)) (sym (segment_last hs from (suc k) (suc m) seq e)))))))

    -- The main chain has the hash at this height.
    pub record OnMain (sha256 : Bytes → Bytes) (cur_h h : ℕ) (hash : Bytes) : Type 0 where
      pub within : h ≤ cur_h
      pub block : Block
      pub key : Bytes
      pub stored : get_block_by_height kv json db h ≡ ok (some (block, key))
      pub named : block_hash kv json sha256 block ≡ hash

    from_read :
        (sha256 : Bytes → Bytes) (cur_h h : ℕ) (hash : Bytes) (o : Outcome (Option (Block × Bytes)))
        → get_block_by_height kv json db h ≡ o
        → h ≤ cur_h
        → has_hash kv json sha256 hash (found o) ≡ true
        → OnMain sha256 cur_h h hash
    from_read sha256 cur_h h hash panic e low same = absurd (cc)
    from_read sha256 cur_h h hash (err m) e low same = absurd (cc)
    from_read sha256 cur_h h hash (ok none) e low same = absurd (cc)
    from_read sha256 cur_h h hash (ok (some (b, key))) e low same = record {
      within = low;
      block = b;
      key = key;
      stored = e;
      named = bytes_eq→eq _ hash same;
    }

    on_main_chain-OnMain :
        (sha256 : Bytes → Bytes) (cur_h h : ℕ) (hash : Bytes)
        → on_main_chain kv json sha256 db cur_h h hash ≡ true
        → OnMain sha256 cur_h h hash
    unfolding on_main_chain
    on_main_chain-OnMain sha256 cur_h h hash e =
        let (low, same) = &&-eq-true (leb h cur_h) _ e in
        from_read sha256 cur_h h hash (get_block_by_height kv json db h) refl (leb→le h cur_h low)
          same

    -- Where the search for the fork ends: at a header whose hash the main chain has at its height, or
    -- at genesis, and at no higher one.
    pub record IsFork (sha256 : Bytes → Bytes) (cur_h n f : ℕ) (hash : Bytes) : Type 0 where
      pub within : f ≤ n
      pub common :
          ((f ≡ 0) × (hash ≡ [])) ⊎ ((0 < f) × (hash ≡ hs f) × OnMain sha256 cur_h f (hs f))
      pub highest : (j : ℕ) → f < j → j ≤ n → on_main_chain kv json sha256 db cur_h j (hs j) ≡ false

    -- A header that is not on the main chain hands over to its parent.
    fork_above :
        (sha256 : Bytes → Bytes) (cur_h fuel m : ℕ) (r : Run (ℕ × Bytes))
        → suc m ≤ top
        → on_main_chain kv json sha256 db cur_h (suc m) (hs (suc m)) ≡ false
        → fork_loop kv json sha256 fuel db cur_h (hs m) ≡ r
        → fork_loop kv json sha256 (suc fuel) db cur_h (hs (suc m)) ≡ r
    unfolding fork_loop fork_round
    fork_above sha256 cur_h fuel m r below not_here rest =
        let h = c.height (suc m) below in
        let p = c.parent m (omega arith) in
        let t : (suc m == 0) ≡ false = ground arith in
        rw (c.stored (suc m) below) (rw (h, p) (rw t (rw not_here rest)))

    IsFork-walk :
        (sha256 : Bytes → Bytes) (cur_h fuel n : ℕ)
        → n ≤ top
        → n < fuel
        → (f : ℕ) × (hash : Bytes) × (fork_loop kv json sha256 fuel db cur_h (hs n)
            ≡ some (ok (f, hash)))
          × IsFork sha256 cur_h n f hash
    unfolding fork_loop fork_round
    IsFork-walk sha256 cur_h zero n below fits = absurd (omega arith)
    IsFork-walk sha256 cur_h (suc fuel) zero below fits =
        let h = c.height 0 below in
        (
          0,
          [],
          rw (c.stored 0 below) (rw h refl),
          record {
            within = omega arith;
            common = inl (refl, refl);
            highest = λ j above to. absurd (omega arith);
          },
        )
    IsFork-walk sha256 cur_h (suc fuel) (suc m) below fits =
        let h = c.height (suc m) below in
        let t : (suc m == 0) ≡ false = ground arith in
        elim (Bool-cases (on_main_chain kv json sha256 db cur_h (suc m) (hs (suc m)))) [
          | inl here ↦ (
            suc m,
            hs (suc m),
            rw (c.stored (suc m) below) (rw h (rw t (rw here refl))),
            record {
              within = omega arith;
              common =
                  inr (
                    omega arith,
                    refl,
                    on_main_chain-OnMain sha256 cur_h (suc m) (hs (suc m)) here,
                  );
              highest = λ j above to. absurd (omega arith);
            },
          )
          | inr not_here ↦
              let (f, hash, found, fork) =
                IsFork-walk sha256 cur_h fuel m (omega arith) (omega arith) in
              (
                f,
                hash,
                fork_above sha256 cur_h fuel m _ below not_here found,
                record {
                  within = let w = fork.within in omega arith;
                  common = fork.common;
                  highest = λ j above to. elim (Bool-cases (j == suc m)) [
                    | inl last ↦
                        let e = (==_iff j (suc m)).0 last in
                        ap (λ i. on_main_chain kv json sha256 db cur_h i (hs i)) e ∙ not_here
                    | inr before ↦ fork.highest j above (ground arith)
                  ];
                },
              )
        ]

    path-segment :
        (fuel f : ℕ)
        → f ≤ top
        → top < fuel
        → header_path_from_to kv json fuel db (f + 1) top (hs top)
          ≡ some (ok (segment hs (f + 1) (top - f)))
    unfolding header_path_from_to
    path-segment fuel f below fits = elim (Bool-cases (ltb top (f + 1))) [
      | inl empty ↦
          let none_left : top - f ≡ 0 = ground arith in
          rw empty (rw none_left (unfold segment in refl))
      | inr more ↦
          let size : top - f ≡ suc (top - f - 1) = ground arith in
          rw more (
            rw size (
              path_walk fuel top (f + 1) top (top - f - 1) [] (omega arith) (omega arith)
                (ground arith) (omega arith)
              ∙ ap (λ s. some (ok s)) (append-nil (segment hs (f + 1) (suc (top - f - 1))))))
    ]

    -- On a chain of stored headers, with one more header as fuel than the tip is high, the search for
    -- the fork point ends; it finds the highest header that is on the main chain too, or genesis; and
    -- the path from there to the tip is that of all headers above it, in order.
    pub reorganisation-plan :
        (sha256 : Bytes → Bytes) (fuel cur_h : ℕ) (cur_hash : Bytes)
        → is_empty cur_hash ≡ false
        → top < fuel
        → (f : ℕ) × (hash : Bytes) × (find_fork_point kv json sha256 fuel db cur_h cur_hash (hs top)
            ≡ some (ok (f, hash)))
          × IsFork sha256 cur_h top f hash
          × (header_path_from_to kv json fuel db (f + 1) top (hs top)
              ≡ some (ok (segment hs (f + 1) (top - f))))
    unfolding find_fork_point
    reorganisation-plan sha256 fuel cur_h cur_hash named fits =
        let (f, hash, found, fork) = IsFork-walk sha256 cur_h fuel top (omega arith) fits in
        (f, hash, rw named found, fork, path-segment fuel f fork.within fits)
