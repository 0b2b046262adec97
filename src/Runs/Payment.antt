-- ===== src/Runs/Payment.antt =====
-- Runs of one-time payments, over the group with two elements.
use reserve_os.Base.{
  ℕ, ◌%◌, ◌≡◌, refl, [], ◌∷◌, Bool, true, false, not, ◌&&◌, Bytes, codes, length, replicate, arith,
  some, Outcome, ok, err, ◌==◌, ◌>>=◌, ◌≤◌, le_bytes,
}
use reserve_os.Chain.{
  TxOut, Tx, hash_string, hex_byte, from_hex, tx_id, signing_bytes, canonical_tx_bytes, put_claim,
  put_bytes, put_outputs,
}
use reserve_os.Crypto.{hex_decode, add_decoded, sized}
use reserve_os.Crypto.Edwards.{
  Edwards, IsEdwards, IsEncoding, decode_point, decode_scalar, reduce_sum,
}
use reserve_os.Crypto.Schnorr.{sign, verify, verify-sign}
use reserve_os.Crypto.Otap.{
  RegistryKeys, PrivateKeys, OtapOutput, generate_keys, h_to_scalar, build_output, detect,
  detect_with_k, Ciphers, encrypt_memo, decrypt_memo, registry_keys, private_keys,
}
use reserve_os.Crypto.Otap.Detect.{detect-build_output}
use reserve_os.Crypto.Otap.Memo.{IsCiphers, memo-detect}
use reserve_os.Fees.{estimate_fee, unit_fee, mode_fee, tx_size_hint}
use reserve_os.Node.Basic.{has_otap_output, fee_floor, tx_rules}
use reserve_os.Node.Basic.Claims.{primitives}
use reserve_os.Wallet.{
  OtapKeys, WalletAccount, otap_context, wallet_output, claim_tx, or_empty, claim_output,
}
use reserve_os.Wallet.Claim.{IsAccount, claim_output-accepted}
use reserve_os.Runs.Data.{pad, config, alice}

abbrev differ : Bool → Bool → Bool
differ true b = not b
differ false b = b

abbrev bit : Bool → ℕ
bit true = 1
bit false = 0

abbrev encoding : Bool → Bytes
encoding b = bit b ∷ replicate 31 0

abbrev first_bit : Bytes → Outcome Bool
first_bit [] = err []
first_bit (x ∷ b) = ok (x % 2 == 1)

abbrev two : Edwards
two = record {
  Scalar = Bool;
  Point = Bool;
  add = differ;
  multiply = λ a b. a && b;
  add_points = differ;
  scalar_base_mult = λ s. s;
  scalar_mult = λ s p. s && p;
  equal = λ p q. not (differ p q);
  point_bytes = encoding;
  point_set_bytes = first_bit;
  scalar_bytes = encoding;
  set_canonical_bytes = first_bit;
  set_uniform_bytes = first_bit;
  sha256 = pad 32;
  sha512 = pad 64;
}

encoding-IsEncoding : (b : Bool) → IsEncoding (encoding b)
encoding-IsEncoding true = record { size = refl; bytes = omega arith }
encoding-IsEncoding false = record { size = refl; bytes = omega arith }

encoding-first_bit : (b : Bool) → first_bit (encoding b) ≡ ok b
encoding-first_bit true = refl
encoding-first_bit false = refl

first_bit_total : (b : Bytes) → length b ≡ 64 → (s : Bool) × (first_bit b ≡ ok s)
first_bit_total [] h = absurd (omega arith)
first_bit_total (x ∷ b) h = (_, refl)

length-pad : (n : ℕ) (b : Bytes) → length (pad n b) ≡ n
length-pad Prim.Native.Nat.zero b = refl
length-pad (Prim.Native.Nat.suc n) [] = omega (arith, length-pad n [])
length-pad (Prim.Native.Nat.suc n) (x ∷ b) = omega (arith, length-pad n b)

two-IsEdwards : IsEdwards two
two-IsEdwards = record {
  point_encoding = encoding-IsEncoding;
  point_set_bytes_lem = encoding-first_bit;
  scalar_encoding = encoding-IsEncoding;
  set_canonical_bytes_lem = encoding-first_bit;
  set_uniform_bytes_lem = first_bit_total;
  sha512_size = length-pad 64;
  multiply_comm = λ a b. ground arith;
  base-add = λ a b. refl;
  scalar_mult-base = λ a b. refl;
  equal_iff = λ p q. ground arith;
}

abbrev ones : Bytes
ones = replicate 64 1

verify-sign_example :
    (sig : Bytes) × (sign two (ok ones) true true (codes "hello") ≡ ok sig)
    × (verify two true (codes "hello") sig ≡ true)
verify-sign_example = verify-sign two two-IsEdwards true (codes "hello") ones refl

detect-build_output_example :
    (keys : RegistryKeys × PrivateKeys) × (built : OtapOutput × Bytes) × (generate_keys two
        (ok ones)
        (ok ones)
      ≡ ok keys)
    × (build_output two (ok ones) (codes "main") (codes "default") keys.0 ≡ ok built)
    × (detect two (codes "main") (codes "default") built.0 keys.1.scan_priv keys.0.spend_pub
        ≡ ok (true, built.1))
detect-build_output_example =
    detect-build_output two two-IsEdwards (codes "main") (codes "default") ones ones ones refl refl
      refl

-- Ciphers that leave the text as it is.
abbrev plain : Ciphers
plain = record {
  Aead = Unit {0};
  hkdf = λ secret info. ok (replicate 32 0);
  new_aead = λ k. ok tt;
  seal = λ a nonce text aad. text;
  unseal = λ a nonce text aad. ok text;
  encode = λ b. b;
  decode = λ b. ok b;
}

plain-IsCiphers : IsCiphers plain
plain-IsCiphers = record {
  hkdf_total = λ secret info. (_, refl, refl);
  new_aead_total = λ k h. (tt, refl);
  unseal-seal = λ a nonce text aad h. refl;
  decode-encode = λ b. refl;
}

memo-detect_example :
    (keys : RegistryKeys × PrivateKeys) × (built : OtapOutput × Bytes) × (enc : Bytes)
    × (generate_keys two (ok ones) (ok ones) ≡ ok keys)
    × (build_output two (ok ones) (codes "main") (codes "default") keys.0 ≡ ok built)
    × (encrypt_memo (pad 32) plain (ok (replicate 12 7)) built.1 (codes "slot 4") (codes "PR")
        ≡ ok enc)
    × ((detect two (codes "main") (codes "default") built.0 keys.1.scan_priv keys.0.spend_pub
          >>= λ found. decrypt_memo (pad 32) plain found.1 enc (codes "PR"))
        ≡ ok (codes "slot 4"))
memo-detect_example =
    memo-detect two two-IsEdwards (pad 32) plain plain-IsCiphers (codes "main") (codes "default")
      ones ones ones (replicate 12 7) (codes "slot 4") (codes "PR") refl refl refl refl

abbrev account : WalletAccount
account = record { pub_hex = alice; priv_hex = replicate 128 48 }

account-IsAccount : IsAccount (λ key msg. replicate 64 0) (λ key msg sig. true) account
unfolding hex_decode add_decoded hex_byte from_hex
account-IsAccount = record {
  secret = replicate 64 0;
  public = replicate 32 170;
  secret_hex = refl;
  public_hex = refl;
  secret_size = refl;
  public_size = refl;
  sign_size = λ msg. refl;
  sign_bytes = λ msg. omega arith;
  verifies = λ msg. refl;
}

abbrev wallet_keys : OtapKeys
wallet_keys = record { registry = registry_keys two true true; priv = private_keys two true true }

-- An output of 700 to the wallet's one-time address.
abbrev paid : TxOut
paid = record {
  amount = 700;
  asset = codes "USDR";
  address = [];
  p = hash_string (encoding true);
  r = hash_string (encoding true);
  tag = [];
  enc_memo = [];
  policy_bits = 0;
}

paid-found :
    detect_with_k two
      (codes "main")
      otap_context
      (wallet_output paid)
      wallet_keys.priv.scan_priv
      wallet_keys.registry.spend_pub
    ≡ ok (true, encoding true, some false)
unfolding detect_with_k decode_point decode_scalar hex_decode add_decoded hex_byte from_hex sized
    h_to_scalar reduce_sum hash_string
paid-found = refl

paid-fee :
    fee_floor config
      (primitives two (pad 32) (λ key msg sig. true) (λ h. or_empty (hex_decode h)))
      (claim_tx account 4 paid)
    ≤ 1000
unfolding fee_floor estimate_fee unit_fee mode_fee tx_size_hint tx_id claim_tx signing_bytes
    canonical_tx_bytes put_bytes put_outputs put_claim le_bytes hash_string has_otap_output
paid-fee = omega arith

claim_output-accepted_example :
    (tx : Tx) × (claim_output
        (λ key msg. replicate 64 0)
        two
        (ok ones)
        (codes "main")
        wallet_keys
        account
        4
        paid
      ≡ ok (some tx))
    × (tx_rules config
          (primitives two (pad 32) (λ key msg sig. true) (λ h. or_empty (hex_decode h)))
          tx
        ≡ ok tt)
claim_output-accepted_example =
    claim_output-accepted (λ key msg. replicate 64 0) (λ key msg sig. true) account
      account-IsAccount two two-IsEdwards config (pad 32) (λ h. or_empty (hex_decode h))
      (λ h b e. rw e) (codes "main") wallet_keys 4 paid true false (encoding true) ones refl refl
      paid-found refl paid-fee
