-- ===== src/Crypto/Otap/Memo.antt =====
-- The memo of an output reaches its owner (core/crypto/otap/memo.go).
use reserve_os.Base.{
  ℕ, ◌≡◌, ◌≤◌, ◌++◌, arith, Bytes, length, length-append, take-append, drop-append, ok, ◌>>=◌, ltb,
  false, codes,
}
use reserve_os.Crypto.Edwards.{Edwards, IsEdwards}
use reserve_os.Crypto.Otap.{
  OtapOutput, RegistryKeys, PrivateKeys, generate_keys, build_output, detect, Ciphers,
  derive_memo_key, encrypt_memo, decrypt_memo,
}
use reserve_os.Crypto.Otap.Detect.{detect-build_output}

-- What the documentation of the three packages says.
pub record IsCiphers (c : Ciphers) : Type 0 where
  pub hkdf_total :
      (secret info : Bytes) → (k : Bytes) × (c.hkdf secret info ≡ ok k) × (length k ≡ 32)
  pub new_aead_total : (k : Bytes) → length k ≡ 32 → (a : c.Aead) × (c.new_aead k ≡ ok a)
  pub unseal-seal :
      (a : c.Aead) (nonce text aad : Bytes)
      → length nonce ≡ 12
      → c.unseal a nonce (c.seal a nonce text aad) aad ≡ ok text
  pub decode-encode : (b : Bytes) → c.decode (c.encode b) ≡ ok b

module _ (sha256 : Bytes → Bytes) (c : Ciphers) (laws : IsCiphers c) where
  pub decrypt_memo-encrypt_memo :
      (nonce shared text aad : Bytes)
      → length nonce ≡ 12
      → (enc : Bytes) × (encrypt_memo sha256 c (ok nonce) shared text aad ≡ ok enc)
        × (decrypt_memo sha256 c shared enc aad ≡ ok text)
  unfolding encrypt_memo decrypt_memo derive_memo_key
  decrypt_memo-encrypt_memo nonce shared text aad size =
      let (k, derived, ks) = laws.hkdf_total (sha256 shared) (codes "ReserveOS:OTAP:memo") in
      let (a, made) = laws.new_aead_total k ks in
      let sealed = c.seal a nonce text aad in
      let long_enough : ltb (length (nonce ++ sealed)) 12 ≡ false =
        not_short (length (nonce ++ sealed)) (omega (arith, length-append nonce sealed)) in
      (
        c.encode (nonce ++ sealed),
        rw (derived, ◌>>=◌) (rw (made, ◌>>=◌)),
        rw (derived, ◌>>=◌)
            (rw (made, ◌>>=◌)
              (rw (laws.decode-encode (nonce ++ sealed), ◌>>=◌)
                (rw long_enough (
                  rw (take-append 12 nonce sealed size, drop-append 12 nonce sealed size)
                    (laws.unseal-seal a nonce text aad size))))),
      )
    where
      not_short : (n : ℕ) → 12 ≤ n → ltb n 12 ≡ false
      not_short n h = ground arith

-- Once the random sources give what they are asked for, an output is built for generated keys, and a
-- memo is encrypted with the secret that the sender shares: the owner who scans the output with
-- `Detect` reads the memo with the secret that the scan gives.
pub memo-detect :
    (e : Edwards) (laws : IsEdwards e) (sha256 : Bytes → Bytes) (c : Ciphers)
    (ciphers : IsCiphers c) (chain_id context rs rv rr nonce text aad : Bytes)
    → length rs ≡ 64
    → length rv ≡ 64
    → length rr ≡ 64
    → length nonce ≡ 12
    → (keys : RegistryKeys × PrivateKeys) × (built : OtapOutput × Bytes) × (enc : Bytes)
      × (generate_keys e (ok rs) (ok rv) ≡ ok keys)
      × (build_output e (ok rr) chain_id context keys.0 ≡ ok built)
      × (encrypt_memo sha256 c (ok nonce) built.1 text aad ≡ ok enc)
      × ((detect e chain_id context built.0 keys.1.scan_priv keys.0.spend_pub >>= λ found.
            decrypt_memo sha256 c found.1 enc aad)
          ≡ ok text)
memo-detect e laws sha256 c ciphers chain_id context rs rv rr nonce text aad hs hv hr hn =
    let (keys, built, generated, built_ok, found) =
      detect-build_output e laws chain_id context rs rv rr hs hv hr in
    let (enc, encrypted, decrypted) =
      decrypt_memo-encrypt_memo sha256 c ciphers nonce built.1 text aad hn in
    (keys, built, enc, generated, built_ok, encrypted, rw (found, ◌>>=◌) decrypted)
