-- ===== src/Wallet/Claim.antt =====
-- The node accepts the claims that the wallet makes: services/wallet-daemon/walletd/server.go against
-- the rules of `ValidateBlockBasic` (core/node/block_validate.go).
use reserve_os.Base.{
  ℕ, ◌≤◌, ◌<◌, ◌≡◌, refl, ap, sym, ◌∙◌, [], ◌∷◌, Bool, true, false, arith, Bytes, codes, is_empty,
  length, All, IsByte, some, ok, ◌>>=◌, slt, ==_iff,
}
use reserve_os.Chain.{TxOut, Tx, signing_bytes, tx_id, canonical_tx_bytes, put_claim, hash_string}
use reserve_os.Chain.Hex.{length-hash_string}
use reserve_os.Crypto.{Primitives, hex_decode, sized, parse_pub, parse_sig, sig_verify}
use reserve_os.Crypto.Edwards.{Edwards, IsEdwards, decode_point, hex_decode-hash_string}
use reserve_os.Crypto.Schnorr.{verify, verify-sign}
use reserve_os.Crypto.Otap.{detect_with_k}
use reserve_os.Crypto.Otap.Spend.{detect_with_k-opens, one_time_priv-eq}
use reserve_os.Node.{Config}
use reserve_os.Node.Basic.{fee_floor, tx_rules, claim_rules}
use reserve_os.Node.Basic.Claims.{
  primitives, claim_rules-accepts, tx_rules-accepts, decode_point-steps, verify-nonempty,
}
use reserve_os.Wallet.{
  OtapKeys, WalletAccount, otap_context, wallet_output, claim_tx, or_empty, with_claim_sig,
  with_sig, account_sign, sign_claim, claim_found, claim_output,
}

-- An account with its keys, and what crypto/ed25519 promises for them.
pub record IsAccount (ed25519_sign : Bytes → Bytes → Bytes)
    (ed25519_verify : Bytes → Bytes → Bytes → Bool) (a : WalletAccount) : Type 0 where
  pub secret : Bytes
  pub public : Bytes
  pub secret_hex : hex_decode a.priv_hex ≡ ok secret
  pub public_hex : hex_decode a.pub_hex ≡ ok public
  pub secret_size : length secret ≡ 64
  pub public_size : length public ≡ 32
  pub sign_size : (msg : Bytes) → length (ed25519_sign secret msg) ≡ 64
  pub sign_bytes : (msg : Bytes) → All IsByte (ed25519_sign secret msg)
  pub verifies : (msg : Bytes) → ed25519_verify public msg (ed25519_sign secret msg) ≡ true

sized-fits : (n : ℕ) (m b : Bytes) → length b ≡ n → sized n m b ≡ ok b
unfolding sized
sized-fits n m b h = rw ((==_iff (length b) n).1 h)

nonempty : (s : Bytes) → 0 < length s → is_empty s ≡ false
nonempty [] h = absurd (omega arith)
nonempty (x ∷ s) h = refl

-- The claim transaction with both signatures filled in.
abbrev signed_tx : WalletAccount → ℕ → TxOut → Bytes → Bytes → Tx
signed_tx a nonce o claim_sig sig = with_sig sig (with_claim_sig claim_sig (claim_tx a nonce o))

signing_bytes-with_claim_sig :
    (a : WalletAccount) (nonce : ℕ) (o : TxOut) (claim_sig : Bytes)
    → signing_bytes (with_claim_sig claim_sig (claim_tx a nonce o))
      ≡ signing_bytes (claim_tx a nonce o)
unfolding signing_bytes canonical_tx_bytes put_claim claim_tx
signing_bytes-with_claim_sig a nonce o claim_sig = refl

signing_bytes-signed_tx :
    (a : WalletAccount) (nonce : ℕ) (o : TxOut) (claim_sig sig : Bytes)
    → signing_bytes (signed_tx a nonce o claim_sig sig) ≡ signing_bytes (claim_tx a nonce o)
unfolding signing_bytes canonical_tx_bytes put_claim claim_tx
signing_bytes-signed_tx a nonce o claim_sig sig = refl

fee_floor-signed_tx :
    (cfg : Config) (prim : Primitives) (a : WalletAccount) (nonce : ℕ) (o : TxOut)
    (claim_sig sig : Bytes)
    → fee_floor cfg prim (signed_tx a nonce o claim_sig sig)
      ≡ fee_floor cfg prim (claim_tx a nonce o)
unfolding fee_floor tx_id signing_bytes canonical_tx_bytes put_claim claim_tx
fee_floor-signed_tx cfg prim a nonce o claim_sig sig = refl

fee-enough : (floor : ℕ) → floor ≤ 1000 → slt 1000 floor ≡ false
fee-enough floor h = ground arith

module _ (ed25519_sign : Bytes → Bytes → Bytes) (ed25519_verify : Bytes → Bytes → Bytes → Bool)
    (a : WalletAccount) (acct : IsAccount ed25519_sign ed25519_verify a) where
  account_sign-eq :
      (msg : Bytes)
      → account_sign ed25519_sign a msg ≡ ok (hash_string (ed25519_sign acct.secret msg))
  unfolding account_sign
  account_sign-eq msg =
      rw (acct.secret_hex, ◌>>=◌) (rw (sized-fits 64 _ acct.secret acct.secret_size, ◌>>=◌))

  signature-nonempty : (msg : Bytes) → is_empty (or_empty (account_sign ed25519_sign a msg)) ≡ false
  signature-nonempty msg = rw (account_sign-eq msg) (
      nonempty _
        (omega (arith, length-hash_string (ed25519_sign acct.secret msg), acct.sign_size msg)))

  public_hex-nonempty : (s : Bytes) → hex_decode s ≡ ok acct.public → is_empty s ≡ false
  unfolding hex_decode
  public_hex-nonempty [] h =
      let none_left : 0 ≡ length acct.public = ap (λ o. length (or_empty o)) h in
      absurd (omega (arith, acct.public_size))
  public_hex-nonempty (x ∷ s) h = refl

  -- `sig.Verify` accepts what `WalletAccount.Sign` makes.
  sig_verify-account_sign :
      (msg : Bytes)
      → sig_verify ed25519_verify a.pub_hex (or_empty (account_sign ed25519_sign a msg)) msg ≡ true
  unfolding sig_verify parse_pub parse_sig
  sig_verify-account_sign msg =
      let signed = ed25519_sign acct.secret msg in
      rw (account_sign-eq msg) (
        rw (acct.public_hex, ◌>>=◌)
          (rw (sized-fits 32 (codes "bad pubkey size") acct.public acct.public_size, ◌>>=◌)
            (rw (hex_decode-hash_string signed (acct.sign_bytes msg), ◌>>=◌)
              (rw (sized-fits 64 (codes "bad sig size") signed (acct.sign_size msg), ◌>>=◌)
                (acct.verifies msg)))))

  module _ (e : Edwards) (laws : IsEdwards e) (cfg : Config) (hash256 must_hex32 : Bytes → Bytes)
      (hex32 : (h b : Bytes) → hex_decode h ≡ ok b → must_hex32 h ≡ b) where
    abbrev node : Primitives
    node = primitives e hash256 ed25519_verify must_hex32

    claim-accepted :
        (nonce : ℕ) (o : TxOut) (claim_sig sig : Bytes) (p : e.Point)
        → decode_point e o.p ≡ ok p
        → verify e p (signing_bytes (claim_tx a nonce o)) claim_sig ≡ true
        → claim_rules cfg node
            (signed_tx a nonce o claim_sig sig)
            (signed_tx a nonce o claim_sig sig).otap_claim
          ≡ ok tt
    unfolding claim_tx
    claim-accepted nonce o claim_sig sig p dp v =
        let (named, b, decoded, set) = decode_point-steps e laws o.p p dp in
        claim_rules-accepts cfg node (signed_tx a nonce o claim_sig sig) _ p named
          (public_hex-nonempty a.pub_hex acct.public_hex) refl
          (verify-nonempty e laws p _ claim_sig v) (rw (hex32 o.p b decoded) (rw set))
          (rw (signing_bytes-signed_tx a nonce o claim_sig sig) v)

    signed_tx-accepted :
        (nonce : ℕ) (o : TxOut) (claim_sig : Bytes) (p : e.Point)
        → decode_point e o.p ≡ ok p
        → verify e p (signing_bytes (claim_tx a nonce o)) claim_sig ≡ true
        → fee_floor cfg node (claim_tx a nonce o) ≤ 1000
        → tx_rules cfg node (
            signed_tx a nonce o claim_sig
              (or_empty (account_sign ed25519_sign a (signing_bytes (claim_tx a nonce o)))))
          ≡ ok tt
    unfolding claim_tx
    signed_tx-accepted nonce o claim_sig p dp v floor =
        let sig = or_empty (account_sign ed25519_sign a (signing_bytes (claim_tx a nonce o))) in
        tx_rules-accepts cfg node (signed_tx a nonce o claim_sig sig) refl refl
          (rw (fee_floor-signed_tx cfg node a nonce o claim_sig sig) (fee-enough _ floor))
          (public_hex-nonempty a.pub_hex acct.public_hex) refl
          (signature-nonempty (signing_bytes (claim_tx a nonce o)))
          (rw (signing_bytes-signed_tx a nonce o claim_sig sig)
            (sig_verify-account_sign (signing_bytes (claim_tx a nonce o))))
          (claim-accepted nonce o claim_sig sig p dp v)

    -- Whatever output `DetectWithK` finds for the wallet's spend key, the wallet makes a claim
    -- transaction for it, and the node's rules for a transaction accept it, both of its signatures
    -- included. The keys are hexadecimal scalars and points, the account has keys of Ed25519,
    -- `mustHex32` decodes hexadecimal, the wallet's fee of 1000 is enough for the node's policy, and 64
    -- random bytes are read.
    pub claim_output-accepted :
        (chain_id : Bytes) (keys : OtapKeys) (nonce : ℕ) (o : TxOut) (v k : e.Scalar)
        (shared random : Bytes)
        → keys.priv.spend_priv ≡ hash_string (e.scalar_bytes v)
        → keys.registry.spend_pub ≡ hash_string (e.point_bytes (e.scalar_base_mult v))
        → detect_with_k e chain_id otap_context
            (wallet_output o)
            keys.priv.scan_priv
            keys.registry.spend_pub
          ≡ ok (true, shared, some k)
        → length random ≡ 64
        → fee_floor cfg node (claim_tx a nonce o) ≤ 1000
        → (tx : Tx) × (claim_output ed25519_sign e (ok random) chain_id keys a nonce o
            ≡ ok (some tx))
          × (tx_rules cfg node tx ≡ ok tt)
    unfolding claim_output claim_found sign_claim claim_tx account_sign
    claim_output-accepted chain_id keys nonce o v k shared random own_priv own_pub found size
          floor =
        let opens =
          detect_with_k-opens e laws chain_id otap_context (wallet_output o) keys.priv.scan_priv v k
            shared
            (ap (λ s. detect_with_k e chain_id otap_context (wallet_output o) keys.priv.scan_priv s)
                (sym own_pub)
              ∙ found) in
        let (claim_sig, signed, accepted) =
          verify-sign e laws (e.add v k) (signing_bytes (claim_tx a nonce o)) random size in
        (
          _,
          rw (found, ◌>>=◌)
              (rw own_priv (
                rw (one_time_priv-eq e laws v k, ◌>>=◌)
                  (rw (opens, ◌>>=◌)
                    (rw (signed, or_empty)
                      (rw (signing_bytes-with_claim_sig a nonce o claim_sig) refl))))),
          signed_tx-accepted nonce o claim_sig (e.scalar_base_mult (e.add v k)) opens accepted
              floor,
        )
