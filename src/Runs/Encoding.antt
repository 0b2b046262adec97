-- ===== src/Runs/Encoding.antt =====
-- Runs of the encodings, the Merkle root and the decimal numerals.
use reserve_os.Base.{
  ◌⊎◌, map, some, codes, Bytes, ok, ℕ, zero, suc, IsByte, ◌≡◌, ◌↔◌, refl, arith, [], ◌∷◌, ◌++◌,
  codes, ok, All, replicate,
}
use reserve_os.Chain.{Hash, Tx, sha256d, tx_id, signing_bytes, hash_from_hex, hash_string, tx_root}
use reserve_os.Chain.Codec.{IsWireTx, SameContent, signing_bytes_iff}
use reserve_os.Chain.Header.{IsWireHeader, bytes_for_hash-injective}
use reserve_os.Chain.Hex.{hash_from_hex-hash_string}
use reserve_os.Chain.Root.{Shrinks, tx_root_total, tx_root_twice}
use reserve_os.Runs.Data.{toy, coinbase, payments, header}

coinbase-IsWireTx : IsWireTx coinbase
coinbase-IsWireTx = record {
  version = omega arith;
  type = omega arith;
  from = omega arith;
  pub_key = omega arith;
  nonce = omega arith;
  fee = omega arith;
  gas_asset = omega arith;
  count = omega arith;
  outputs = (
    record {
      amount = omega arith;
      asset = omega arith;
      address = omega arith;
      p = omega arith;
      r = omega arith;
      tag = omega arith;
      enc_memo = omega arith;
      policy_bits = omega arith;
    },
    tt,
  );
  claim = tt;
}

abbrev with_memo : Tx
with_memo = record coinbase { memo = codes "block 1" }

with_memo-IsWireTx : IsWireTx with_memo
with_memo-IsWireTx = record {
  version = omega arith;
  type = omega arith;
  from = omega arith;
  pub_key = omega arith;
  nonce = omega arith;
  fee = omega arith;
  gas_asset = omega arith;
  count = omega arith;
  outputs = coinbase-IsWireTx.outputs;
  claim = tt;
}

signing_bytes_iff_example :
    (signing_bytes coinbase ≡ signing_bytes with_memo) ↔ SameContent coinbase with_memo
signing_bytes_iff_example =
    signing_bytes_iff coinbase with_memo coinbase-IsWireTx with_memo-IsWireTx

header-IsWireHeader : IsWireHeader header
header-IsWireHeader = record {
  version = omega arith;
  chain_id = omega arith;
  height = omega arith;
  time_unix = omega arith;
  prev_hash = refl;
  state_root = refl;
  tx_root = refl;
  bits = omega arith;
  nonce = omega arith;
}

bytes_for_hash-injective_example : header ≡ header
bytes_for_hash-injective_example =
    bytes_for_hash-injective header header header-IsWireHeader header-IsWireHeader refl

All-replicate : (P : ℕ → Type 0) (n x : ℕ) → P x → All P (replicate n x)
All-replicate P zero x h = tt
All-replicate P (suc n) x h = (h, All-replicate P n x h)

abbrev block_hash : Hash
block_hash = replicate 32 171

hash_from_hex-hash_string_example : hash_from_hex (hash_string block_hash) ≡ ok block_hash
hash_from_hex-hash_string_example =
    hash_from_hex-hash_string block_hash refl (All-replicate IsByte 32 171 (omega arith))

tx_root_total_example :
    ((payments ≡ [])
      × (tx_root toy.sha256 toy.hash256 payments
          ≡ some (ok (sha256d toy.sha256 (codes "txroot:empty")))))
    ⊎ ((r : Bytes) × Shrinks toy.sha256 (map (tx_id toy.hash256) payments) r
        × (tx_root toy.sha256 toy.hash256 payments ≡ some (ok (toy.sha256 r))))
tx_root_total_example = tx_root_total toy.sha256 toy.hash256 payments

tx_root_twice_example :
    tx_root toy.sha256 toy.hash256 (payments ++ (coinbase ∷ []))
    ≡ tx_root toy.sha256 toy.hash256 (payments ++ (coinbase ∷ coinbase ∷ []))
tx_root_twice_example = tx_root_twice toy.sha256 toy.hash256 payments coinbase 1 (omega arith) refl
