-- ===== src/Node/Basic/Claims.antt =====
-- The owner of an output can claim it: core/crypto/otap/otap.go and core/crypto/schnorr/schnorr25519.go
-- with the claim rule of `ValidateBlockBasic` (core/node/block_validate.go).
use reserve_os.Base.{
  ◌≡◌, refl, ap, sym, ◌∙◌, Bool, true, false, arith, Bytes, bytes_eq, bytes_eq_self, is_empty, slt,
  Option, none, some, Outcome, ok, err, >>=-eq-ok, [], ◌∷◌, codes,
}
use reserve_os.Chain.{OtapClaim, Tx, signing_bytes}
use reserve_os.Crypto.{sig_verify, Primitives, hex_decode, sized}
use reserve_os.Crypto.Edwards.{Edwards, IsEdwards, decode_point}
use reserve_os.Crypto.Schnorr.{verify}
use reserve_os.Node.{Config}
use reserve_os.Node.Basic.{coinbase_type, claim_type, fee_floor, claim_rules, tx_rules}

-- `point_set_bytes` without the message of its error.
abbrev pub point_of {ℓ} : {P : Type ℓ} → Outcome P → Option P
point_of (ok p) = some p
point_of (err m) = none
point_of Outcome.panic = none

-- What the validator calls, where `schnorr.Verify` is the package's own function. `must_hex32` is
-- declared nowhere.
abbrev pub primitives :
    Edwards → (Bytes → Bytes) → (Bytes → Bytes → Bytes → Bool) → (Bytes → Bytes) → Primitives
primitives e hash256 ed25519_verify must_hex32 = record {
  sha256 = e.sha256;
  hash256 = hash256;
  ed25519_verify = ed25519_verify;
  must_hex32 = must_hex32;
  Point = e.Point;
  point_set_bytes = λ b. point_of (e.point_set_bytes b);
  schnorr_verify = verify e;
}

pub claim_rules-accepts :
    (cfg : Config) (prim : Primitives) (tx : Tx) (c : OtapClaim) (point : prim.Point)
    → is_empty c.p ≡ false
    → is_empty c.to ≡ false
    → c.to ≡ tx.from
    → is_empty c.claim_sig_hex ≡ false
    → prim.point_set_bytes (prim.must_hex32 c.p) ≡ some point
    → prim.schnorr_verify point (signing_bytes tx) c.claim_sig_hex ≡ true
    → claim_rules cfg prim tx (some c) ≡ ok tt
unfolding claim_rules
claim_rules-accepts cfg prim tx c point hp ht hto hs hpt hv =
    let same : bytes_eq c.to tx.from ≡ true =
      ap (λ s. bytes_eq c.to s) (sym hto) ∙ bytes_eq_self c.to in
    rw (hp, ht) (rw same (rw hs (rw hpt (rw hv refl))))

-- A claim transaction passes when its fee, its keys and both of its signatures do.
pub tx_rules-accepts :
    (cfg : Config) (prim : Primitives) (tx : Tx)
    → bytes_eq tx.type coinbase_type ≡ false
    → bytes_eq tx.type claim_type ≡ true
    → slt tx.fee (fee_floor cfg prim tx) ≡ false
    → is_empty tx.from ≡ false
    → tx.from ≡ tx.pub_key
    → is_empty tx.sig_hex ≡ false
    → sig_verify prim.ed25519_verify tx.pub_key tx.sig_hex (signing_bytes tx) ≡ true
    → claim_rules cfg prim tx tx.otap_claim ≡ ok tt
    → tx_rules cfg prim tx ≡ ok tt
unfolding tx_rules
tx_rules-accepts cfg prim tx nc ic fee hf same hs hv hc =
    let keyed : is_empty tx.pub_key ≡ false = ap is_empty (sym same) ∙ hf in
    let owns : bytes_eq tx.from tx.pub_key ≡ true =
      ap (λ k. bytes_eq tx.from k) (sym same) ∙ bytes_eq_self tx.from in
    rw nc (rw fee (rw (hf, keyed, hs) (rw owns (rw hv (rw ic hc)))))

sized-same : (b b' : Bytes) → sized 32 (codes "point must be 32 bytes") b ≡ ok b' → b ≡ b'
unfolding sized
sized-same b b' h = ground arith

module _ (e : Edwards) (laws : IsEdwards e) where
  pub decode_point-steps :
      (h : Bytes) (p : e.Point)
      → decode_point e h ≡ ok p
      → (is_empty h ≡ false) × (b : Bytes) × (hex_decode h ≡ ok b) × (e.point_set_bytes b ≡ ok p)
  unfolding decode_point
  decode_point-steps [] p d = absurd (cc)
  decode_point-steps (x ∷ h) p d =
      let (b, decoded, d1) = >>=-eq-ok (hex_decode (x ∷ h)) _ d in
      let (b32, fits, set) = >>=-eq-ok (sized 32 (codes "point must be 32 bytes") b) _ d1 in
      (refl, b, decoded, rw (sized-same b b32 fits) set)

  pub verify-nonempty :
      (p : e.Point) (msg sig : Bytes) → verify e p msg sig ≡ true → is_empty sig ≡ false
  unfolding verify
  verify-nonempty p msg [] v = cc
  verify-nonempty p msg (x ∷ sig) v = refl
