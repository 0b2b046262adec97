-- ===== src/Crypto/Edwards.antt =====
-- What core/crypto/otap and core/crypto/schnorr use of filippo.io/edwards25519, crypto/sha256 and
-- crypto/sha512, as a record, with what their documentation says as laws. The hexadecimal reading of
-- keys is core/crypto/otap/otap.go.
use reserve_os.Base.{
  ℕ, ◌≡◌, ◌↔◌, refl, [], ◌∷◌, Bool, true, arith, Bytes, codes, length, All, IsByte, Outcome, ok,
  err, ◌>>=◌, ◌==◌, ◌/◌, ◌%◌, if◌then◌else◌,
}
use reserve_os.Chain.{hash_string}
use reserve_os.Chain.Hex.{from_hex-digit, whole_byte}
use reserve_os.Crypto.{hex_decode, add_decoded, sized}

pub record Edwards : Type 1 where
  pub Scalar : Type 0
  pub Point : Type 0
  pub add : Scalar → Scalar → Scalar
  pub multiply : Scalar → Scalar → Scalar
  pub add_points : Point → Point → Point
  pub scalar_base_mult : Scalar → Point
  pub scalar_mult : Scalar → Point → Point
  pub equal : Point → Point → Bool
  pub point_bytes : Point → Bytes
  pub point_set_bytes : Bytes → Outcome Point
  pub scalar_bytes : Scalar → Bytes
  pub set_canonical_bytes : Bytes → Outcome Scalar
  pub set_uniform_bytes : Bytes → Outcome Scalar
  pub sha256 : Bytes → Bytes
  pub sha512 : Bytes → Bytes

-- An encoding has 32 bytes.
pub record IsEncoding (b : Bytes) : Type 0 where
  pub size : length b ≡ 32
  pub bytes : All IsByte b

-- The laws: encodings are read back, 64 bytes are reduced to a scalar, and the points are a group on
-- which the scalars act.
pub record IsEdwards (e : Edwards) : Type 0 where
  pub point_encoding : (p : e.Point) → IsEncoding (e.point_bytes p)
  pub point_set_bytes_lem : (p : e.Point) → e.point_set_bytes (e.point_bytes p) ≡ ok p
  pub scalar_encoding : (s : e.Scalar) → IsEncoding (e.scalar_bytes s)
  pub set_canonical_bytes_lem : (s : e.Scalar) → e.set_canonical_bytes (e.scalar_bytes s) ≡ ok s
  pub set_uniform_bytes_lem :
      (b : Bytes) → length b ≡ 64 → (s : e.Scalar) × (e.set_uniform_bytes b ≡ ok s)
  pub sha512_size : (b : Bytes) → length (e.sha512 b) ≡ 64
  pub multiply_comm : (a b : e.Scalar) → e.multiply a b ≡ e.multiply b a
  pub base-add :
      (a b : e.Scalar)
      → e.scalar_base_mult (e.add a b) ≡ e.add_points (e.scalar_base_mult a) (e.scalar_base_mult b)
  pub scalar_mult-base :
      (a b : e.Scalar)
      → e.scalar_mult a (e.scalar_base_mult b) ≡ e.scalar_base_mult (e.multiply a b)
  pub equal_iff : (p q : e.Point) → (e.equal p q ≡ true) ↔ (p ≡ q)

-- `hex.EncodeToString` writes the digits of `Hash.String`.
pub hex_decode-hash_string : (b : Bytes) → All IsByte b → hex_decode (hash_string b) ≡ ok b
unfolding hex_decode hash_string add_decoded
hex_decode-hash_string [] w = refl
hex_decode-hash_string (b ∷ h) (hb, hs) = rw (hex_decode-hash_string h hs) (
    rw (from_hex-digit (b / 16) (omega arith), from_hex-digit (b % 16) (omega arith))
      (rw (whole_byte b hb)))

module _ (e : Edwards) where
  -- `decodePoint`
  unfoldable pub decode_point : Bytes → Outcome e.Point
  unfolding hex_decode sized
  decode_point hex_comp = do
    b ← hex_decode hex_comp
    b32 ← sized 32 (codes "point must be 32 bytes") b
    e.point_set_bytes b32

  -- `decodeScalar`
  unfoldable pub decode_scalar : Bytes → Outcome e.Scalar
  unfolding hex_decode sized
  decode_scalar hex32 = do
    b ← hex_decode hex32
    b32 ← sized 32 (codes "scalar must be 32 bytes") b
    e.set_canonical_bytes b32

  -- `randomScalar`, after `rand.Read` of 64 bytes.
  unfoldable pub random_scalar : Outcome Bytes → Outcome e.Scalar
  random_scalar read = do buf ← read; e.set_uniform_bytes buf

  -- What is done with a SHA-512 sum to get a scalar.
  unfoldable pub reduce_sum : Bytes → Bytes → Outcome e.Scalar
  reduce_sum message sum = if length sum == 64 then e.set_uniform_bytes sum else err message

module _ (e : Edwards) (laws : IsEdwards e) where
  sized_32 : (b m : Bytes) → length b ≡ 32 → sized 32 m b ≡ ok b
  unfolding sized
  sized_32 b m h = ground arith

  pub decode_point-hash_string :
      (p : e.Point) → decode_point e (hash_string (e.point_bytes p)) ≡ ok p
  unfolding decode_point
  decode_point-hash_string p =
      let enc = laws.point_encoding p in
      rw (hex_decode-hash_string (e.point_bytes p) enc.bytes) (
        rw (sized_32 (e.point_bytes p) (codes "point must be 32 bytes") enc.size)
          (laws.point_set_bytes_lem p))

  pub decode_scalar-hash_string :
      (s : e.Scalar) → decode_scalar e (hash_string (e.scalar_bytes s)) ≡ ok s
  unfolding decode_scalar
  decode_scalar-hash_string s =
      let enc = laws.scalar_encoding s in
      rw (hex_decode-hash_string (e.scalar_bytes s) enc.bytes) (
        rw (sized_32 (e.scalar_bytes s) (codes "scalar must be 32 bytes") enc.size)
          (laws.set_canonical_bytes_lem s))

  pub random_scalar_total :
      (b : Bytes) → length b ≡ 64 → (s : e.Scalar) × (random_scalar e (ok b) ≡ ok s)
  unfolding random_scalar
  random_scalar_total b h = laws.set_uniform_bytes_lem b h

  pub reduce_sum_total : (m b : Bytes) → (s : e.Scalar) × (reduce_sum e m (e.sha512 b) ≡ ok s)
  unfolding reduce_sum
  reduce_sum_total m b =
      let size = laws.sha512_size b in
      rw (is_64 (length (e.sha512 b)) size) (laws.set_uniform_bytes_lem (e.sha512 b) size)
    where
      is_64 : (n : ℕ) → n ≡ 64 → (n == 64) ≡ true
      is_64 n h = ground arith
