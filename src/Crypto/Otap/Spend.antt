-- ===== src/Crypto/Otap/Spend.antt =====
-- Who finds an output and knows the spend key can sign for it (core/crypto/otap/otap.go and
-- core/crypto/schnorr/schnorr25519.go).
use reserve_os.Base.{
  ◌≡◌, refl, Bool, true, false, not, Bytes, length, Option, some, none, Outcome, ok, ◌>>=◌,
  >>=-eq-ok, if◌then◌else◌, arith, [],
}
use reserve_os.Chain.{hash_string}
use reserve_os.Crypto.Edwards.{
  Edwards, IsEdwards, decode_point, decode_point-hash_string, decode_scalar,
  decode_scalar-hash_string,
}
use reserve_os.Crypto.Schnorr.{sign, verify, verify-sign}
use reserve_os.Crypto.Otap.{OtapOutput, h_to_scalar, detect_with_k, one_time_priv}

module _ (e : Edwards) (laws : IsEdwards e) where
  -- What a scan that succeeds has tested.
  found-answer :
      (b : Bool) (bytes shared : Bytes) (k' k : e.Scalar)
      → if◌then◌else◌ {A = Outcome (Bool × Bytes × Option e.Scalar)}
          (not b)
          (ok (false, [], none))
          (ok (true, bytes, some k'))
        ≡ ok (true, shared, some k)
      → (b ≡ true) × (k' ≡ k)
  found-answer false bytes shared k' k h = cc
  found-answer true bytes shared k' k h = (refl, ground arith)

  pub detect_with_k-opens :
      (chain_id context : Bytes) (out : OtapOutput) (s_hex : Bytes) (v k : e.Scalar)
      (shared : Bytes)
      → detect_with_k e chain_id context out s_hex
          (hash_string (e.point_bytes (e.scalar_base_mult v)))
        ≡ ok (true, shared, some k)
      → decode_point e out.p ≡ ok (e.scalar_base_mult (e.add v k))
  unfolding detect_with_k
  detect_with_k-opens chain_id context out s_hex v k shared h =
      let (s, _, h1) = >>=-eq-ok (decode_scalar e s_hex) _ h in
      let (r, _, h2) = >>=-eq-ok (decode_point e out.r) _ h1 in
      let (v', ev, h3) =
        >>=-eq-ok (decode_point e (hash_string (e.point_bytes (e.scalar_base_mult v)))) _ h2 in
      let (p, ep, h4) = >>=-eq-ok (decode_point e out.p) _ h3 in
      let (k', _, h5) =
        >>=-eq-ok (h_to_scalar e (e.point_bytes (e.scalar_mult s r)) chain_id context) _ h4 in
      let (same, ek) =
        found-answer (e.equal (e.add_points v' (e.scalar_base_mult k')) p) _ shared k' k h5 in
      let at = (laws.equal_iff _ _).0 same in
      let own = decode_point-hash_string e laws (e.scalar_base_mult v) in
      let sum = laws.base-add v k in cc

  pub one_time_priv-eq :
      (v k : e.Scalar) → one_time_priv e (hash_string (e.scalar_bytes v)) k ≡ ok (e.add v k)
  unfolding one_time_priv
  one_time_priv-eq v k = rw (decode_scalar-hash_string e laws v, ◌>>=◌)

  -- Whatever the output is: where `DetectWithK` finds it for the spend key `v G`, `OneTimePriv` gives a
  -- private key of the output's point, and once 64 random bytes are read every message can be signed
  -- with it so that `Verify` accepts under that point.
  pub verify-one_time_priv :
      (chain_id context : Bytes) (out : OtapOutput) (s_hex : Bytes) (v k : e.Scalar)
      (shared msg random : Bytes)
      → detect_with_k e chain_id context out s_hex
          (hash_string (e.point_bytes (e.scalar_base_mult v)))
        ≡ ok (true, shared, some k)
      → length random ≡ 64
      → (x : e.Scalar) × (p : e.Point) × (sig : Bytes) × (one_time_priv e
            (hash_string (e.scalar_bytes v))
            k
          ≡ ok x)
        × (decode_point e out.p ≡ ok p)
        × (sign e (ok random) x p msg ≡ ok sig)
        × (verify e p msg sig ≡ true)
  verify-one_time_priv chain_id context out s_hex v k shared msg random found size =
      let (sig, signed, accepted) = verify-sign e laws (e.add v k) msg random size in
      (
        e.add v k,
        e.scalar_base_mult (e.add v k),
        sig,
        one_time_priv-eq v k,
        detect_with_k-opens chain_id context out s_hex v k shared found,
        signed,
        accepted,
      )
