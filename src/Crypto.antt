-- ===== src/Crypto.antt =====
-- Signature checks, core/crypto: what the packages outside the repository do enters as a record,
-- and the parsing of hexadecimal keys and signatures, core/crypto/sig/ed25519.go, stands here.
pub mod Edwards
pub mod Schnorr
pub mod Otap
use reserve_os.Base.{
  ℕ, Bool, false, if◌then◌else◌, [], ◌∷◌, Option, none, some, Bytes, codes, length, ◌==◌, Outcome,
  ok, err, panic, ◌>>=◌,
}
use reserve_os.Chain.{Hash, from_hex, hex_byte}

-- The hash functions, Ed25519 verification (crypto/ed25519) and the points of
-- filippo.io/edwards25519. `hash256` and `must_hex32` are called and declared nowhere.
pub record Primitives : Type 1 where
  pub sha256 : Bytes → Hash
  pub hash256 : Bytes → Hash
  pub ed25519_verify : Bytes → Bytes → Bytes → Bool
  pub must_hex32 : Bytes → Bytes
  pub Point : Type 0
  pub point_set_bytes : Bytes → Option Point
  pub schnorr_verify : Point → Bytes → Bytes → Bool

unfoldable pub add_decoded : Option ℕ → Outcome Bytes → Outcome Bytes
add_decoded none rest = err (codes "encoding/hex: invalid byte")
add_decoded (some b) (ok s) = ok (b ∷ s)
add_decoded (some b) r = r

-- `hex.DecodeString`
unfoldable pub hex_decode : Bytes → Outcome Bytes
hex_decode (c ∷ d ∷ s) = add_decoded (hex_byte (from_hex c) (from_hex d)) (hex_decode s)
hex_decode (c ∷ []) = err (codes "encoding/hex: odd length hex string")
hex_decode [] = ok []

unfoldable pub sized : ℕ → Bytes → Bytes → Outcome Bytes
sized size message b = if length b == size then ok b else err message

unfoldable pub parse_pub : Bytes → Outcome Bytes
unfolding hex_decode sized
parse_pub hex_pub = do b ← hex_decode hex_pub; sized 32 (codes "bad pubkey size") b

unfoldable pub parse_sig : Bytes → Outcome Bytes
unfolding hex_decode sized
parse_sig hex_sig = do b ← hex_decode hex_sig; sized 64 (codes "bad sig size") b

abbrev pub verified : Outcome Bool → Bool
verified (ok b) = b
verified (err e) = false
verified panic = false

-- `sig.Verify`: an error of either parser is a failed check.
unfoldable pub sig_verify : (Bytes → Bytes → Bytes → Bool) → Bytes → Bytes → Bytes → Bool
sig_verify ed25519_verify pub_hex sig_hex msg =
    verified do key ← parse_pub pub_hex; sig ← parse_sig sig_hex; ok (ed25519_verify key msg sig)
