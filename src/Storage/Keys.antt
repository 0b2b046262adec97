-- ===== src/Storage/Keys.antt =====
-- The keys of internal/reservestorage/blocks.go are different for different heights.
use reserve_os.Base.{
  ℕ, ◌≡◌, refl, ap, sym, ◌∙◌, [], ◌∷◌, ◌++◌, arith, Bytes, bytes_eq, bytes_eq_self, bytes_eq→eq,
  Bool-cases, inl, inr, ◌==◌, ==_iff, IsU64, be_bytes, be_value, be_value-be_bytes,
}
use reserve_os.Storage.{key_hash_by_height}

same_prefix : (p a b : Bytes) → bytes_eq (p ++ a) (p ++ b) ≡ bytes_eq a b
same_prefix [] a b = refl
same_prefix (x ∷ p) a b = ground (arith, same_prefix p a b)

be_bytes-injective : (h j : ℕ) → IsU64 h → IsU64 j → be_bytes 8 h ≡ be_bytes 8 j → h ≡ j
be_bytes-injective h j hw jw e =
    let back = be_value-be_bytes 8 h (omega arith) in
    let back' = be_value-be_bytes 8 j (omega arith) in sym back ∙ (ap be_value e ∙ back')

pub bytes_eq-key_hash_by_height :
    (h j : ℕ)
    → IsU64 h
    → IsU64 j
    → bytes_eq (key_hash_by_height h) (key_hash_by_height j) ≡ (h == j)
bytes_eq-key_hash_by_height h j hw jw = elim (Bool-cases (h == j)) [
  | inl same ↦
      let at = (==_iff h j).0 same in rw same (rw at (bytes_eq_self (key_hash_by_height j)))
  | inr other ↦ rw other (elim (Bool-cases (bytes_eq (be_bytes 8 h) (be_bytes 8 j))) [
    | inl equal ↦
        let at = be_bytes-injective h j hw jw (bytes_eq→eq _ _ equal) in absurd (ground arith)
    | inr distinct ↦ distinct
  ])
]
