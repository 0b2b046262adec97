-- ===== src/Crypto/Otap/Detect.antt =====
-- The owner of the keys finds the outputs that are built for them (core/crypto/otap/otap.go).
use reserve_os.Base.{◌≡◌, refl, ap, sym, ◌∙◌, true, Bytes, length, some, ok, ◌>>=◌}
use native.Mathlib.Omega.{arith}
use reserve_os.Crypto.Edwards.{
  Edwards, IsEdwards, decode_point-hash_string, decode_scalar-hash_string, random_scalar_total,
  reduce_sum_total,
}
use reserve_os.Crypto.Otap.{
  OtapOutput, RegistryKeys, PrivateKeys, generate_keys, h_to_scalar, build_output, detect,
  detect_with_k, registry_keys, private_keys, output_of,
}

module _ (e : Edwards) (laws : IsEdwards e) where
  pub h_to_scalar_total :
      (shared chain_id context : Bytes)
      → (k : e.Scalar) × (h_to_scalar e shared chain_id context ≡ ok k)
  unfolding h_to_scalar
  h_to_scalar_total shared chain_id context = reduce_sum_total e laws _ _

  -- Both sides have the same shared point.
  shared_point :
      (s r : e.Scalar)
      → e.scalar_mult s (e.scalar_base_mult r) ≡ e.scalar_mult r (e.scalar_base_mult s)
  shared_point s r =
      laws.scalar_mult-base s r
      ∙ (ap (λ t. e.scalar_base_mult t) (laws.multiply_comm s r) ∙ sym (laws.scalar_mult-base r s))

  pub equal_self : (p : e.Point) → e.equal p p ≡ true
  equal_self p = (laws.equal_iff p p).1 refl

  -- The scan of an output that was built for these keys.
  detect-output_of :
      (chain_id context : Bytes) (s v r k : e.Scalar)
      → h_to_scalar e (e.point_bytes (e.scalar_mult r (e.scalar_base_mult s))) chain_id context
        ≡ ok k
      → detect_with_k e chain_id context
          (output_of e r (e.scalar_mult r (e.scalar_base_mult s)) k (e.scalar_base_mult v))
          (private_keys e s v).scan_priv
          (registry_keys e s v).spend_pub
        ≡ ok (true, e.point_bytes (e.scalar_mult r (e.scalar_base_mult s)), some k)
  unfolding detect_with_k
  detect-output_of chain_id context s v r k h =
      rw
        (decode_scalar-hash_string e laws s, decode_point-hash_string e laws (e.scalar_base_mult r))
        (rw
          (
            decode_point-hash_string e laws (e.scalar_base_mult v),
            decode_point-hash_string e laws
                (e.add_points (e.scalar_base_mult v) (e.scalar_base_mult k)),
          )
          (rw (shared_point s r) (
            rw h
              (rw (equal_self (e.add_points (e.scalar_base_mult v) (e.scalar_base_mult k))) refl))))

  pub detect-eq :
      (chain_id context : Bytes) (out : OtapOutput) (s v : Bytes)
      → detect e chain_id context out s v
        ≡ (detect_with_k e chain_id context out s v >>= λ r. ok (r.0, r.1))
  unfolding detect detect_with_k
  detect-eq chain_id context out s v = ground arith

  generate_keys_total :
      (rs rv : Bytes)
      → length rs ≡ 64
      → length rv ≡ 64
      → (s : e.Scalar) × (v : e.Scalar) × (generate_keys e (ok rs) (ok rv)
          ≡ ok (registry_keys e s v, private_keys e s v))
  unfolding generate_keys
  generate_keys_total rs rv hs hv =
      let (s, es) = random_scalar_total e laws rs hs in
      let (v, ev) = random_scalar_total e laws rv hv in (s, v, rw (es, ◌>>=◌) (rw (ev, ◌>>=◌)))

  build_output_total :
      (chain_id context rr : Bytes) (s v : e.Scalar)
      → length rr ≡ 64
      → (r : e.Scalar) × (k : e.Scalar) × (h_to_scalar e
            (e.point_bytes (e.scalar_mult r (e.scalar_base_mult s)))
            chain_id
            context
          ≡ ok k)
        × (build_output e (ok rr) chain_id context (registry_keys e s v)
            ≡ ok (
              output_of e r (e.scalar_mult r (e.scalar_base_mult s)) k (e.scalar_base_mult v),
              e.point_bytes (e.scalar_mult r (e.scalar_base_mult s)),
            ))
  unfolding build_output
  build_output_total chain_id context rr s v hr =
      let (r, er) = random_scalar_total e laws rr hr in
      let (k, ek) =
        h_to_scalar_total (e.point_bytes (e.scalar_mult r (e.scalar_base_mult s))) chain_id
          context in
      (
        r,
        k,
        ek,
        rw (decode_point-hash_string e laws (e.scalar_base_mult s), ◌>>=◌)
            (rw (decode_point-hash_string e laws (e.scalar_base_mult v), ◌>>=◌)
              (rw (er, ◌>>=◌) (rw (ek, ◌>>=◌)))),
      )

  -- Once the random source gives 64 bytes three times, keys are generated and an output is built for
  -- the public ones; `Detect` with the private scan key and the public spend key then finds the output
  -- and gives the shared secret that the sender had.
  pub detect-build_output :
      (chain_id context rs rv rr : Bytes)
      → length rs ≡ 64
      → length rv ≡ 64
      → length rr ≡ 64
      → (keys : RegistryKeys × PrivateKeys) × (built : OtapOutput × Bytes) × (generate_keys e
            (ok rs)
            (ok rv)
          ≡ ok keys)
        × (build_output e (ok rr) chain_id context keys.0 ≡ ok built)
        × (detect e chain_id context built.0 keys.1.scan_priv keys.0.spend_pub ≡ ok (true, built.1))
  detect-build_output chain_id context rs rv rr hs hv hr =
      let (s, v, generated) = generate_keys_total rs rv hs hv in
      let (r, k, ek, built) = build_output_total chain_id context rr s v hr in
      let found = detect-output_of chain_id context s v r k ek in
      (_, _, generated, built, detect-eq chain_id context _ _ _ ∙ rw (found, ◌>>=◌))
