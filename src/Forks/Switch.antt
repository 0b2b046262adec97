-- ===== src/Forks/Switch.antt =====
-- The switch of the main chain never leaves the finalized block (core/node/forkchoice.go).
use reserve_os.Base.{
  ℕ, zero, suc, ◌+◌, ◌<◌, ◌^◌, ◌≡◌, ◌⊎◌, inl, inr, refl, ap, sym, ◌∙◌, Bool, true, false, arith,
  List, [], ◌∷◌, Option, none, some, Bytes, bytes_eq, bytes_eq→eq, length, ltb, ◌==◌, ==_iff,
  Bool-cases, IsU64, Outcome, ok, err, panic, ◌>>=◌, ◌>>◌, >>=-eq-ok, fail_if, codes,
}
use mathlib.Core.Path.{subst}
use reserve_os.Chain.{Block, hash_string}
use reserve_os.State.{Kv, GetPut, ignoring}
use reserve_os.State.Store.{IsWritable}
use reserve_os.Storage.{Json, get_hash_by_height, get_block_by_hash, set_tip, get_tip}
use reserve_os.Storage.Records.{
  ReadsHeights, get_tip-set_tip, get_hash_by_height-set_tip, set_tip_total,
}
use reserve_os.Forks.Index.{IsIndexed, IsIndexed-same, write_index-IsIndexed, write_index-other}
use reserve_os.Forks.{
  found, found_or, anchor, candidate_block, walk_back, anchored, path_capacity, candidate_path,
  write_index, try_switch_main_chain,
}

module _ (kv : Kv) (json : Json) where
  -- The blocks after `from`, each with the one before it as its parent, the last of them the tip.
  pub Branch : kv.Db → Bytes → Bytes → List Bytes → Type 0
  Branch db from tip [] = from ≡ tip
  Branch db from tip (h ∷ hs) =
      (b : Block) × (get_block_by_hash kv json db h ≡ ok (some b))
      × (hash_string b.header.prev_hash ≡ from)
      × Branch db h tip hs

  candidate_block-ok :
      (db : kv.Db) (h : Bytes) (b : Block)
      → candidate_block kv json db h ≡ ok b
      → get_block_by_hash kv json db h ≡ ok (some b)
  unfolding candidate_block
  candidate_block-ok db h b e = stored (get_block_by_hash kv json db h) e
    where
      stored :
          (o : Outcome (Option Block))
          → found_or (codes "missing block in candidate chain") (found o) ≡ ok b
          → o ≡ ok (some b)
      stored panic e = cc
      stored (err m) e = cc
      stored (ok none) e = cc
      stored (ok (some c)) e = ground arith

  pub record IsWalked (db : kv.Db) (fin n : ℕ) (tip : Bytes) (hs path : List Bytes) : Type 0 where
    pub first : Bytes
    pub rest : List Bytes
    pub cons : path ≡ first ∷ rest
    pub branch : Branch db first tip rest
    pub size : fin + length rest ≡ n + length hs

  ended :
      (db : kv.Db) (fin n : ℕ) (tip h : Bytes) (hs path : List Bytes)
      → n ≡ fin
      → Branch db h tip hs
      → ok (h ∷ hs) ≡ ok path
      → IsWalked db fin n tip hs path
  ended db fin n tip h hs path at br e = record {
    first = h;
    rest = hs;
    cons = ground arith;
    branch = br;
    size = omega arith;
  }

  passed : (b : Bool) (m : Bytes) (u : Unit {0}) → fail_if b m ≡ ok u → b ≡ false
  passed true m u e = cc
  passed false m u e = refl

  walk_back-IsWalked :
      (db : kv.Db) (fin : ℕ) (tip h : Bytes) (n : ℕ) (hs path : List Bytes)
      → (n ≡ 0 → fin ≡ 0)
      → Branch db h tip hs
      → walk_back kv json db fin h n hs ≡ ok path
      → IsWalked db fin n tip hs path
  unfolding walk_back Branch
  walk_back-IsWalked db fin tip h zero hs path low br e =
      let at = low refl in
      let zero_fin : (0 == fin) ≡ true = ground arith in
      ended db fin 0 tip h hs path (omega arith) br (rw zero_fin at e)
  walk_back-IsWalked db fin tip h (suc n) hs path low br e = elim (Bool-cases (suc n == fin)) [
    | inl there ↦
        ended db fin (suc n) tip h hs path ((==_iff (suc n) fin).0 there) br (rw there at e)
    | inr above ↦
        let step : (candidate_block kv json db h >>= λ b.
        fail_if (ltb n fin) (codes "candidate does not reach finalized height")
        >> walk_back kv json db fin (hash_string b.header.prev_hash) n (h ∷ hs))
            ≡ ok path =
          rw above at e in
        let (b, got, e1) = >>=-eq-ok (candidate_block kv json db h) _ step in
        let (u, reached, e2) =
          >>=-eq-ok (fail_if (ltb n fin) (codes "candidate does not reach finalized height")) _
            e1 in
        let not_below = passed (ltb n fin) _ u reached in
        let rec =
          walk_back-IsWalked db fin tip (hash_string b.header.prev_hash) n (h ∷ hs) path
            (ground arith) (b, candidate_block-ok db h b got, refl, br) e2 in
        record {
          first = rec.first;
          rest = rec.rest;
          cons = rec.cons;
          branch = rec.branch;
          size = let s = rec.size in omega arith;
        }
  ]

  anchored-ok :
      (fin_hash : Bytes) (path out : List Bytes)
      → anchored fin_hash path ≡ ok out
      → (hs : List Bytes) × (path ≡ fin_hash ∷ hs) × (out ≡ fin_hash ∷ hs)
  unfolding anchored
  anchored-ok fin_hash [] out e = cc
  anchored-ok fin_hash (h ∷ hs) out e = elim (Bool-cases (bytes_eq h fin_hash)) [
    | inl same ↦
        let at = bytes_eq→eq h fin_hash same in
        let whole : ok (h ∷ hs) ≡ ok out = rw same at e in (hs, ap (λ t. t ∷ hs) at, ground arith)
    | inr other ↦
        let wrong : err (codes "candidate chain anchor mismatch") ≡ ok out = rw other at e in cc
  ]

  -- A candidate that is accepted is a branch from the finalized hash to the new tip.
  candidate_path-Branch :
      (db : kv.Db) (tip : Bytes) (height fin : ℕ) (fin_hash : Bytes) (path : List Bytes)
      → 0 < height
      → candidate_path kv json db tip height (fin, fin_hash) ≡ ok path
      → (hs : List Bytes) × (path ≡ fin_hash ∷ hs)
        × (fin + length hs ≡ height)
        × Branch db fin_hash tip hs
  unfolding candidate_path Branch
  candidate_path-Branch db tip height fin fin_hash path pos e =
      let (u, fits, e1) = >>=-eq-ok (path_capacity fin height) _ e in
      let (walked, w, e2) = >>=-eq-ok (walk_back kv json db fin tip height []) _ e1 in
      let r =
        walk_back-IsWalked db fin tip tip height [] walked (λ z. absurd (omega arith)) refl w in
      let (hs, own, out) = anchored-ok fin_hash walked path e2 in
      let same : r.first ∷ r.rest ≡ fin_hash ∷ hs = sym r.cons ∙ own in
      let first : r.first ≡ fin_hash = cc in
      let rest : r.rest ≡ hs = cc in
      let size : fin + length r.rest ≡ height + 0 = r.size in
      (hs, out, rw (sym rest) (omega arith), rw (sym first, sym rest) r.branch)

  -- The entries of the index at other heights are kept.
  abbrev pub KeepsOthers : kv.Db → kv.Db → ℕ → ℕ → Type 0
  KeepsOthers db next fin height =
      (j : ℕ)
      → IsU64 j
      → (j < fin) ⊎ (height < j)
      → get_hash_by_height kv next j ≡ get_hash_by_height kv db j

  -- What the writes leave.
  writes-done :
      (law : GetPut kv) (writes : IsWritable kv) (reads : ReadsHeights json) (db next : kv.Db)
      (tip : Bytes) (height fin : ℕ) (path : List Bytes)
      → height + 1 < 2 ^ 64
      → fin + length path ≡ height + 1
      → ok (
          ignoring
            (write_index kv db fin path)
            (set_tip kv json (write_index kv db fin path) height tip))
        ≡ ok next
      → IsIndexed kv next fin path
        × (get_tip kv json next ≡ ok (some (height, tip)))
        × KeepsOthers db next fin height
  writes-done law writes reads db next tip height fin path fits size e =
      let written = write_index kv db fin path in
      let (t, done) = set_tip_total kv law json reads writes written height tip in
      let left : ignoring written (set_tip kv json written height tip) ≡ next = ground arith in
      let at : set_tip kv json written height tip ≡ ok next =
        done ∙ ap ok (sym (ap (ignoring written) done) ∙ left) in
      let kept =
        λ (j : ℕ). get_hash_by_height-set_tip kv law json reads written next height tip j at in
      (
        IsIndexed-same kv written next fin path kept
            (write_index-IsIndexed kv law writes db fin path (omega arith)),
        get_tip-set_tip kv law json reads written next height tip (omega arith) at,
        λ j jw out.
            kept j ∙ write_index-other kv law writes db fin path j (omega arith) jw (ground arith),
      )

  -- Where a switch succeeds, the new chain goes through the finalized block: the index has the
  -- finalized hash at its height, from there on each block's parent is the entry below it, and the last
  -- entry and the tip record are the new tip. Entries below the finalized height and above the new tip
  -- stay as they were. Writes are taken to succeed and to be read back, heights to be read back from
  -- JSON, and the height to be positive and below 2 ^ 64 - 1.
  pub try_switch_main_chain-Branch :
      (law : GetPut kv) (writes : IsWritable kv) (reads : ReadsHeights json) (db next : kv.Db)
      (tip : Bytes) (height : ℕ)
      → 0 < height
      → height + 1 < 2 ^ 64
      → try_switch_main_chain kv json db tip height ≡ ok next
      → (fin : ℕ) × (fin_hash : Bytes) × (hs : List Bytes) × (anchor kv json db
          ≡ ok (fin, fin_hash))
        × (fin + length hs ≡ height)
        × Branch db fin_hash tip hs
        × IsIndexed kv next fin (fin_hash ∷ hs)
        × (get_tip kv json next ≡ ok (some (height, tip)))
        × KeepsOthers db next fin height
  unfolding try_switch_main_chain
  try_switch_main_chain-Branch law writes reads db next tip height pos fits e =
      let ((fin, fin_hash), at, e1) = >>=-eq-ok (anchor kv json db) _ e in
      let (path, found_path, e2) =
        >>=-eq-ok (candidate_path kv json db tip height (fin, fin_hash)) _ e1 in
      let (hs, cons, size, branch) =
        candidate_path-Branch db tip height fin fin_hash path pos found_path in
      let whole : fin + length path ≡ height + 1 = omega (arith, ap length cons, size) in
      let (indexed, tipped, others) =
        writes-done law writes reads db next tip height fin path fits whole e2 in
      (
        fin,
        fin_hash,
        hs,
        at,
        size,
        branch,
        subst (IsIndexed kv next fin) cons indexed,
        tipped,
        others,
      )
