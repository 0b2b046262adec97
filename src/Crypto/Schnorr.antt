-- ===== src/Crypto/Schnorr.antt =====
-- Schnorr signatures: core/crypto/schnorr/schnorr25519.go.
use reserve_os.Base.{
  ◌≡◌, ◌++◌, ap, Bool, true, false, arith, Bytes, codes, length, take, drop, length-append,
  take-append, drop-append, All-append, Outcome, ok, ◌>>=◌, ◌==◌, if◌then◌else◌, sym, ◌∙◌, IsByte,
  ==_iff,
}
use reserve_os.Chain.{hash_string}
use reserve_os.Crypto.{hex_decode, verified}
use reserve_os.Crypto.Edwards.{
  Edwards, IsEdwards, random_scalar, random_scalar_total, reduce_sum, reduce_sum_total,
  hex_decode-hash_string,
}

module _ (e : Edwards) where
  unfoldable pub challenge : e.Point → e.Point → Bytes → Outcome e.Scalar
  challenge r p msg = reduce_sum e (codes "bad hash length") (
      e.sha512
        (codes "ReserveOS:Schnorr25519:v1|" ++ (e.point_bytes r ++ (e.point_bytes p ++ msg))))

  -- The signature with the nonce `k`.
  unfoldable pub signature : e.Scalar → e.Scalar → e.Scalar → Bytes
  signature k c x =
      hash_string
        (e.point_bytes (e.scalar_base_mult k) ++ e.scalar_bytes (e.add k (e.multiply c x)))

  -- `Sign`; `read` is what `rand.Read` gives for 64 bytes.
  unfoldable pub sign : Outcome Bytes → e.Scalar → e.Point → Bytes → Outcome Bytes
  unfolding signature
  sign read x p msg = do
    k ← random_scalar e read
    c ← challenge (e.scalar_base_mult k) p msg
    ok (signature k c x)

  unfoldable pub check_halves : e.Point → Bytes → Bytes → Outcome Bool
  unfolding challenge
  check_halves p msg sig = do
    r ← e.point_set_bytes (take 32 sig)
    s ← e.set_canonical_bytes (drop 32 sig)
    c ← challenge r p msg
    ok (e.equal (e.scalar_base_mult s) (e.add_points r (e.scalar_mult c p)))

  unfoldable pub check_decoded : e.Point → Bytes → Bytes → Outcome Bool
  unfolding check_halves
  check_decoded p msg sig = if length sig == 64 then check_halves p msg sig else ok false

  -- `Verify`
  unfoldable pub verify : e.Point → Bytes → Bytes → Bool
  unfolding hex_decode check_decoded
  verify p msg sig_hex = verified do sig ← hex_decode sig_hex; check_decoded p msg sig

module _ (e : Edwards) (laws : IsEdwards e) where
  pub challenge_total :
      (r p : e.Point) (msg : Bytes) → (c : e.Scalar) × (challenge e r p msg ≡ ok c)
  unfolding challenge
  challenge_total r p msg = reduce_sum_total e laws _ _

  -- s G = (k + c x) G = k G + c (x G)
  equation :
      (k c x : e.Scalar)
      → e.equal
          (e.scalar_base_mult (e.add k (e.multiply c x)))
          (e.add_points (e.scalar_base_mult k) (e.scalar_mult c (e.scalar_base_mult x)))
        ≡ true
  equation k c x = (laws.equal_iff _ _).1 (
      laws.base-add k (e.multiply c x)
      ∙ ap (λ q. e.add_points (e.scalar_base_mult k) q) (sym (laws.scalar_mult-base c x)))

  pub verify-signature :
      (k c x : e.Scalar) (msg : Bytes)
      → challenge e (e.scalar_base_mult k) (e.scalar_base_mult x) msg ≡ ok c
      → verify e (e.scalar_base_mult x) msg (signature e k c x) ≡ true
  unfolding verify check_decoded check_halves signature
  verify-signature k c x msg h =
      let r = e.point_bytes (e.scalar_base_mult k) in
      let s = e.scalar_bytes (e.add k (e.multiply c x)) in
      let er = laws.point_encoding (e.scalar_base_mult k) in
      let es = laws.scalar_encoding (e.add k (e.multiply c x)) in
      let size : (length (r ++ s) == 64) ≡ true =
        (==_iff (length (r ++ s)) 64).1 (omega (arith, length-append r s, er.size, es.size)) in
      rw (hex_decode-hash_string (r ++ s) (All-append IsByte r s er.bytes es.bytes)) (
        rw size (
          rw (take-append 32 r s er.size, drop-append 32 r s er.size)
            (rw
              (
                laws.point_set_bytes_lem (e.scalar_base_mult k),
                laws.set_canonical_bytes_lem (e.add k (e.multiply c x)),
              )
              (rw h (equation k c x)))))

  -- A signature under `x` is made for every message once 64 random bytes are read, and it verifies
  -- under the public key `x G`.
  pub verify-sign :
      (x : e.Scalar) (msg random : Bytes)
      → length random ≡ 64
      → (sig : Bytes) × (sign e (ok random) x (e.scalar_base_mult x) msg ≡ ok sig)
        × (verify e (e.scalar_base_mult x) msg sig ≡ true)
  unfolding sign
  verify-sign x msg random size =
      let (k, drawn) = random_scalar_total e laws random size in
      let (c, challenged) = challenge_total (e.scalar_base_mult k) (e.scalar_base_mult x) msg in
      (
        signature e k c x,
        rw (drawn, ◌>>=◌) (rw (challenged, ◌>>=◌)),
        verify-signature k c x msg challenged,
      )
