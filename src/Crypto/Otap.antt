-- ===== src/Crypto/Otap.antt =====
-- One-time addresses: core/crypto/otap/otap.go, and the memo that goes with an output,
-- core/crypto/otap/memo.go. Each call of the random source is an argument, what it gave.
pub mod Detect
pub mod Spend
pub mod Memo
use reserve_os.Base.{
  [], ◌++◌, Bool, true, false, not, Bytes, codes, length, take, drop, Outcome, ok, err, ◌>>=◌,
  Option, none, some, if◌then◌else◌, ltb,
}
use reserve_os.Chain.{hash_string}
use reserve_os.Crypto.Edwards.{Edwards, decode_point, decode_scalar, random_scalar, reduce_sum}

pub record RegistryKeys : Type 0 where
  pub scan_pub : Bytes
  pub spend_pub : Bytes

pub record PrivateKeys : Type 0 where
  pub scan_priv : Bytes
  pub spend_priv : Bytes

pub record OtapOutput : Type 0 where
  pub p : Bytes
  pub r : Bytes
  pub tag : Bytes

module _ (e : Edwards) where
  -- The hexadecimal form of the keys with scalars `s` and `v`.
  abbrev pub registry_keys : e.Scalar → e.Scalar → RegistryKeys
  registry_keys s v = record {
    scan_pub = hash_string (e.point_bytes (e.scalar_base_mult s));
    spend_pub = hash_string (e.point_bytes (e.scalar_base_mult v));
  }

  abbrev pub private_keys : e.Scalar → e.Scalar → PrivateKeys
  private_keys s v = record {
    scan_priv = hash_string (e.scalar_bytes s);
    spend_priv = hash_string (e.scalar_bytes v);
  }

  unfoldable pub generate_keys :
      Outcome Bytes → Outcome Bytes → Outcome (RegistryKeys × PrivateKeys)
  generate_keys read_s read_v = do
    s ← random_scalar e read_s
    v ← random_scalar e read_v
    ok (registry_keys s v, private_keys s v)

  unfoldable pub h_to_scalar : Bytes → Bytes → Bytes → Outcome e.Scalar
  h_to_scalar k chain_id context = reduce_sum e (codes "bad sha512 length") (
      e.sha512 (
        codes "ReserveOS:OTAP:v1"
        ++ (codes "|" ++ (chain_id ++ (codes "|" ++ (context ++ (codes "|" ++ k)))))))

  unfoldable pub tag16 : Bytes → Bytes
  tag16 k = hash_string (take 2 (e.sha256 (k ++ codes "tag")))

  -- The output with the nonce `r`, the shared point `k` and its scalar.
  abbrev pub output_of : e.Scalar → e.Point → e.Scalar → e.Point → OtapOutput
  output_of r shared k v = record {
    p = hash_string (e.point_bytes (e.add_points v (e.scalar_base_mult k)));
    r = hash_string (e.point_bytes (e.scalar_base_mult r));
    tag = tag16 (e.point_bytes shared);
  }

  unfoldable pub build_output :
      Outcome Bytes → Bytes → Bytes → RegistryKeys → Outcome (OtapOutput × Bytes)
  unfolding h_to_scalar tag16
  build_output read chain_id context reg = do
    s ← decode_point e reg.scan_pub
    v ← decode_point e reg.spend_pub
    r ← random_scalar e read
    k ← h_to_scalar (e.point_bytes (e.scalar_mult r s)) chain_id context
    ok (output_of r (e.scalar_mult r s) k v, e.point_bytes (e.scalar_mult r s))

  -- `DetectWithK`: whether the output is one's own, the shared secret and its scalar.
  unfoldable pub detect_with_k :
      Bytes → Bytes → OtapOutput → Bytes → Bytes → Outcome (Bool × Bytes × Option e.Scalar)
  unfolding h_to_scalar
  detect_with_k chain_id context out s_priv_hex v_pub_hex = do
    s ← decode_scalar e s_priv_hex
    r ← decode_point e out.r
    v ← decode_point e v_pub_hex
    p ← decode_point e out.p
    k ← h_to_scalar (e.point_bytes (e.scalar_mult s r)) chain_id context
    if not (e.equal (e.add_points v (e.scalar_base_mult k)) p)
        then ok (false, [], none)
        else ok (true, e.point_bytes (e.scalar_mult s r), some k)

  -- `Detect`, which is written out a second time in the source.
  unfoldable pub detect : Bytes → Bytes → OtapOutput → Bytes → Bytes → Outcome (Bool × Bytes)
  unfolding h_to_scalar
  detect chain_id context out s_priv_hex v_pub_hex = do
    s ← decode_scalar e s_priv_hex
    r ← decode_point e out.r
    v ← decode_point e v_pub_hex
    p ← decode_point e out.p
    k ← h_to_scalar (e.point_bytes (e.scalar_mult s r)) chain_id context
    if not (e.equal (e.add_points v (e.scalar_base_mult k)) p)
        then ok (false, [])
        else ok (true, e.point_bytes (e.scalar_mult s r))

  -- `OneTimePriv`
  unfoldable pub one_time_priv : Bytes → e.Scalar → Outcome e.Scalar
  one_time_priv v_priv_hex k = do v ← decode_scalar e v_priv_hex; ok (e.add v k)

-- What memo.go uses of HKDF (32 bytes are read from it), of ChaCha20-Poly1305 and of base64.
pub record Ciphers : Type 1 where
  pub Aead : Type 0
  pub hkdf : Bytes → Bytes → Outcome Bytes
  pub new_aead : Bytes → Outcome Aead
  pub seal : Aead → Bytes → Bytes → Bytes → Bytes
  pub unseal : Aead → Bytes → Bytes → Bytes → Outcome Bytes
  pub encode : Bytes → Bytes
  pub decode : Bytes → Outcome Bytes

module _ (sha256 : Bytes → Bytes) (c : Ciphers) where
  unfoldable pub derive_memo_key : Bytes → Outcome Bytes
  derive_memo_key k = c.hkdf (sha256 k) (codes "ReserveOS:OTAP:memo")

  -- `read` is what `rand.Reader` gives for the 12 bytes of the nonce.
  unfoldable pub encrypt_memo : Outcome Bytes → Bytes → Bytes → Bytes → Outcome Bytes
  encrypt_memo read shared plaintext aad = do
    memo_key ← derive_memo_key shared
    key ← c.new_aead memo_key
    nonce ← read
    ok (c.encode (nonce ++ c.seal key nonce plaintext aad))

  unfoldable pub decrypt_memo : Bytes → Bytes → Bytes → Outcome Bytes
  decrypt_memo shared enc aad = do
    memo_key ← derive_memo_key shared
    key ← c.new_aead memo_key
    b ← c.decode enc
    if ltb (length b) 12
        then err (codes "enc_memo too short")
        else c.unseal key (take 12 b) (drop 12 b) aad
