-- ===== src/Chain.antt =====
-- Transactions and blocks, core/chain: the data, the canonical byte encodings that are hashed and
-- signed, hashes in hexadecimal, and the Merkle root. The hash functions are parameters: `sha256`
-- is crypto/sha256, and `hash256`, which `Tx.ID` calls, is defined nowhere in the repository.
-- Integers are bit patterns (`Base/Word.antt`), strings are bytes.
pub mod Codec
pub mod Header
pub mod Hex
pub mod Root
use reserve_os.Base.{
  ℕ, zero, suc, ◌+◌, ◌*◌, ◌/◌, ◌%◌, ◌^◌, Bool, true, false, if◌then◌else◌, List, [], ◌∷◌, ◌++◌, map,
  Option, none, some, ◌-◌, panic, Bytes, codes, length, get_or, ◌==◌, ◌&&◌, leb, le_bytes, Outcome,
  ok, err, add64, mul64,
}

abbrev pub Hash : Type 0
Hash = Bytes

pub record TxOut : Type 0 where
  pub amount : ℕ
  pub asset : Bytes
  pub address : Bytes
  pub p : Bytes
  pub r : Bytes
  pub tag : Bytes
  pub enc_memo : Bytes
  pub policy_bits : ℕ

-- `OTAPClaim` is named by `Tx` and declared nowhere in the repository; these are the fields that
-- the code reads.
pub record OtapClaim : Type 0 where
  pub p : Bytes
  pub r : Bytes
  pub tag : Bytes
  pub to : Bytes
  pub amount : ℕ
  pub claim_sig_hex : Bytes

pub record Tx : Type 0 where
  pub from : Bytes
  pub pub_key : Bytes
  pub sig_hex : Bytes
  pub type : Bytes
  pub otap_claim : Option OtapClaim
  pub version : ℕ
  pub nonce : ℕ
  pub fee : ℕ
  pub gas_asset : Bytes
  pub outputs : List TxOut
  pub memo : Bytes

pub record BlockHeader : Type 0 where
  pub version : ℕ
  pub chain_id : Bytes
  pub height : ℕ
  pub time_unix : ℕ
  pub prev_hash : Hash
  pub state_root : Hash
  pub tx_root : Hash
  pub bits : ℕ
  pub nonce : ℕ

pub record Block : Type 0 where
  pub header : BlockHeader
  pub txs : List Tx

-- `putU32`, `putU64` and `putI64` are `le_bytes` 4 and 8.
unfoldable pub put_bytes : Bytes → Bytes
put_bytes x = le_bytes 4 (length x % 2 ^ 32) ++ x

unfoldable pub put_output : TxOut → Bytes
put_output o =
    le_bytes 8 o.amount
    ++ (put_bytes o.asset
        ++ (put_bytes o.address
            ++ (put_bytes o.p
                ++ (put_bytes o.r
                    ++ (put_bytes o.tag ++ (put_bytes o.enc_memo ++ le_bytes 4 o.policy_bits))))))

unfoldable pub put_outputs : List TxOut → Bytes
unfolding put_output
put_outputs [] = []
put_outputs (o ∷ os) = put_output o ++ put_outputs os

unfoldable pub put_claim : Option OtapClaim → Bool → Bytes
put_claim none include_sigs = 0 ∷ []
put_claim (some c) include_sigs =
    1
    ∷ (put_bytes c.p
        ++ (put_bytes c.r
            ++ (put_bytes c.tag
                ++ (put_bytes c.to
                    ++ (le_bytes 8 c.amount
                        ++ put_bytes (if include_sigs then c.claim_sig_hex else []))))))

unfoldable pub canonical_tx_bytes : Tx → Bool → Bytes
canonical_tx_bytes tx include_sigs =
    codes "RSVTX1"
    ++ (le_bytes 4 tx.version
        ++ (put_bytes tx.type
            ++ (put_bytes tx.from
                ++ (put_bytes tx.pub_key
                    ++ (le_bytes 8 tx.nonce
                        ++ (le_bytes 8 tx.fee
                            ++ (put_bytes tx.gas_asset
                                ++ (le_bytes 4 (length tx.outputs % 2 ^ 32)
                                    ++ (put_outputs tx.outputs
                                        ++ (put_claim tx.otap_claim include_sigs
                                            ++ put_bytes
                                                (if include_sigs then tx.sig_hex else [])))))))))))

unfoldable pub signing_bytes : Tx → Bytes
signing_bytes tx = canonical_tx_bytes tx false

unfoldable pub bytes_for_hash : BlockHeader → Bytes
bytes_for_hash h =
    le_bytes 4 h.version
    ++ (le_bytes 4 (length h.chain_id % 2 ^ 32)
        ++ (h.chain_id
            ++ (le_bytes 8 h.height
                ++ (le_bytes 8 h.time_unix
                    ++ (h.prev_hash
                        ++ (h.state_root
                            ++ (h.tx_root ++ (le_bytes 4 h.bits ++ le_bytes 8 h.nonce))))))))

unfoldable pub outputs_hint : List Tx → ℕ → ℕ
outputs_hint [] sz = sz
outputs_hint (tx ∷ txs) sz = outputs_hint txs (add64 sz (mul64 (length tx.outputs) 64))

unfoldable pub size_hint : Block → ℕ
unfolding outputs_hint
size_hint b = outputs_hint b.txs (add64 256 (mul64 (length b.txs) 128))

abbrev pub hex_digits : Bytes
hex_digits = codes "0123456789abcdef"

-- `Hash.String`
unfoldable pub hash_string : Hash → Bytes
hash_string [] = []
hash_string (b ∷ h) = get_or hex_digits (b / 16) 0 ∷ get_or hex_digits (b % 16) 0 ∷ hash_string h

-- `none` stands for -1.
unfoldable pub from_hex : ℕ → Option ℕ
from_hex c =
    if leb b'0' c && leb c b'9'
    then some (c - b'0')
    else if leb b'a' c && leb c b'f'
    then some (c - b'a' + 10)
    else if leb b'A' c && leb c b'F'
    then some (c - b'A' + 10)
    else none

-- `byte(a<<4 | b)`, or an error if either is -1.
unfoldable pub hex_byte : Option ℕ → Option ℕ → Option ℕ
hex_byte (some a) (some b) = some ((a * 16 + b) % 256)
hex_byte _ _ = none

unfoldable pub add_byte : Option ℕ → Outcome Hash → Outcome Hash
add_byte none rest = err (codes "bad_hex")
add_byte (some b) (ok h) = ok (b ∷ h)
add_byte (some b) r = r

-- Two characters for each byte; the length has been tested.
unfoldable pub hash_pairs : Bytes → Outcome Hash
hash_pairs (c ∷ d ∷ s) = add_byte (hex_byte (from_hex c) (from_hex d)) (hash_pairs s)
hash_pairs _ = ok []

unfoldable pub hash_from_hex : Bytes → Outcome Hash
hash_from_hex s = if length s == 64 then hash_pairs s else err (codes "bad_len")

module _ (sha256 : Bytes → Bytes) where
  unfoldable pub sha256d : Bytes → Hash
  sha256d b = sha256 (sha256 b)

  unfoldable pub header_hash : BlockHeader → Hash
  unfolding sha256d
  header_hash h = sha256d (bytes_for_hash h)

  -- One level of the tree: neighbours are hashed together, and an odd last one with itself.
  unfoldable pub next_level : List Bytes → List Bytes
  next_level [] = []
  next_level (a ∷ []) = sha256 (a ++ a) ∷ []
  next_level (a ∷ b ∷ level) = sha256 (a ++ b) ∷ next_level level

  -- `for len(level) > 1`, in at most so many rounds: `none` where the loop has not ended by then.
  unfoldable pub reduce_levels : ℕ → List Bytes → Option (List Bytes)
  unfolding next_level
  reduce_levels zero level = if leb (length level) 1 then some level else none
  reduce_levels (suc fuel) level =
      let rest = reduce_levels fuel (next_level level) in
      if leb (length level) 1 then some level else rest

  -- `level[0]`; an empty level would be out of range.
  unfoldable pub root_of : List Bytes → Outcome Hash
  root_of [] = panic
  root_of (a ∷ _) = ok (sha256 a)

  abbrev pub root_of_levels : Option (List Bytes) → Option (Outcome Hash)
  root_of_levels none = none
  root_of_levels (some level) = some (root_of level)

  -- Each round shortens the level, so that its length is fuel enough.
  unfoldable pub root_of_ids : List Bytes → Option (Outcome Hash)
  unfolding sha256d reduce_levels root_of
  root_of_ids [] = some (ok (sha256d (codes "txroot:empty")))
  root_of_ids (a ∷ ids) = root_of_levels (reduce_levels (length (a ∷ ids)) (a ∷ ids))

module _ (hash256 : Bytes → Hash) where
  unfoldable pub tx_id : Tx → Bytes
  unfolding hash_string
  tx_id tx = hash_string (hash256 (signing_bytes tx))

module _ (sha256 hash256 : Bytes → Bytes) where
  unfoldable pub tx_root : List Tx → Option (Outcome Hash)
  tx_root txs = root_of_ids sha256 (map (tx_id hash256) txs)
