-- ===== src/Chain/Header.antt =====
-- The bytes of a block header that are hashed, core/chain.
use reserve_os.Base.{
  ℕ, ◌%◌, ◌^◌, ◌<◌, ◌≡◌, sym, ◌∙◌, [], append-nil, arith, length, IsU32, IsU64, le_bytes,
}
use reserve_os.Chain.{Hash, BlockHeader, bytes_for_hash}
use reserve_os.Chain.Codec.{append-cancel, le_bytes-cancel}

-- `[32]byte`
abbrev pub IsHash : Hash → Type 0
IsHash h = length h ≡ 32

pub record IsWireHeader (h : BlockHeader) : Type 0 where
  pub version : IsU32 h.version
  pub chain_id : length h.chain_id < 2 ^ 32
  pub height : IsU64 h.height
  pub time_unix : IsU64 h.time_unix
  pub prev_hash : IsHash h.prev_hash
  pub state_root : IsHash h.state_root
  pub tx_root : IsHash h.tx_root
  pub bits : IsU32 h.bits
  pub nonce : IsU64 h.nonce

-- Headers whose fields have their widths are equal if the bytes that are hashed are equal.
pub bytes_for_hash-injective :
    (g h : BlockHeader)
    → IsWireHeader g
    → IsWireHeader h
    → bytes_for_hash g ≡ bytes_for_hash h
    → g ≡ h
unfolding bytes_for_hash
bytes_for_hash-injective g h hg hh e =
    let (same_version, e1) = le_bytes-cancel 4 g.version h.version _ _ hg.version hh.version e in
    let (same_len, e2) =
      le_bytes-cancel 4 (length g.chain_id % 2 ^ 32) (length h.chain_id % 2 ^ 32) _ _ (omega arith)
        (omega arith) e1 in
    let (same_chain, e3) =
      append-cancel g.chain_id h.chain_id _ _
        (fits (length g.chain_id) (length h.chain_id) hg.chain_id hh.chain_id same_len) e2 in
    let (same_height, e4) = le_bytes-cancel 8 g.height h.height _ _ hg.height hh.height e3 in
    let (same_time, e5) =
      le_bytes-cancel 8 g.time_unix h.time_unix _ _ hg.time_unix hh.time_unix e4 in
    let (same_prev, e6) =
      append-cancel g.prev_hash h.prev_hash _ _ (hg.prev_hash ∙ sym hh.prev_hash) e5 in
    let (same_state, e7) =
      append-cancel g.state_root h.state_root _ _ (hg.state_root ∙ sym hh.state_root) e6 in
    let (same_root, e8) = append-cancel g.tx_root h.tx_root _ _ (hg.tx_root ∙ sym hh.tx_root) e7 in
    let (same_bits, e9) = le_bytes-cancel 4 g.bits h.bits _ _ hg.bits hh.bits e8 in
    let (same_nonce, _) =
      le_bytes-cancel 8 g.nonce h.nonce [] [] hg.nonce hh.nonce
        (append-nil (le_bytes 8 g.nonce) ∙ e9 ∙ sym (append-nil (le_bytes 8 h.nonce))) in
    cc
  where
    fits : (m n : ℕ) → m < 2 ^ 32 → n < 2 ^ 32 → m % 2 ^ 32 ≡ n % 2 ^ 32 → m ≡ n
    fits m n hm hn e = omega arith
