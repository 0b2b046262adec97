-- ===== src/Genesis.antt =====
-- The genesis file and block: core/chain/genesis.go and core/chain/genesis_block.go.
pub mod Rules
pub mod Root
use reserve_os.Base.{
  ℕ, zero, suc, ◌+◌, ◌/◌, ◌%◌, Bool, ◌||◌, if◌then◌else◌, List, [], ◌∷◌, ◌++◌, Option, none, some,
  Bytes, codes, is_empty, replicate, ltb, ◌==◌, is_neg, nonpos, sub64, le_bytes, Outcome, ok, err,
  panic, ◌>>=◌, ◌>>◌, fail_if,
}
use reserve_os.Chain.{Hash, Block, BlockHeader, sha256d}
use reserve_os.Pow.{leading_zeros_to_target, big_to_compact}

pub record Checkpoints : Type 0 where
  pub checkpoint_interval : ℕ
  pub threshold_num : ℕ
  pub threshold_den : ℕ

pub record GenesisValidator : Type 0 where
  pub name : Bytes
  pub pubkey_hex : Bytes
  pub weight : ℕ

pub record Allocation : Type 0 where
  pub tag : Bytes
  pub address : Bytes
  pub balance : Bytes

-- Without `Params`, which nothing reads.
pub record Genesis : Type 0 where
  pub chain_id : Bytes
  pub network : Bytes
  pub genesis_time_unix : ℕ
  pub protocol_version : ℕ
  pub pow_leading_zero_bits : ℕ
  pub finality : Option Checkpoints
  pub validators : List GenesisValidator
  pub allocations : List Allocation

-- The digits are written from the end of a buffer of 20 bytes.
unfoldable pub put_digits : ℕ → ℕ → Bytes → Bytes
put_digits zero i buf = buf
put_digits (suc n) i buf =
    let rest = put_digits n (i / 10) ((48 + i % 10) ∷ buf) in if i == 0 then buf else rest

unfoldable pub itoa : ℕ → Bytes
unfolding put_digits
itoa i =
    if i == 0
    then codes "0"
    else if is_neg i
    then b'-' ∷ put_digits 20 (sub64 0 i) []
    else put_digits 20 i []

abbrev pub allocation_error : ℕ → Bytes → Bytes
allocation_error i field = codes "genesis.allocations[" ++ (itoa i ++ (codes "]." ++ field))

unfoldable pub check_allocations : ℕ → List Allocation → Outcome (Unit {0})
check_allocations i [] = ok tt
check_allocations i (a ∷ more) = do
  fail_if (is_empty a.address) (allocation_error i (codes "address required"))
  fail_if (is_empty a.balance) (allocation_error i (codes "balance required"))
  check_allocations (i + 1) more

unfoldable pub check_finality : Option Checkpoints → Outcome (Unit {0})
check_finality none = ok tt
check_finality (some f) = do
  fail_if (f.checkpoint_interval == 0) (codes "genesis.finality.checkpoint_interval invalid")
  fail_if (nonpos f.threshold_num || nonpos f.threshold_den)
      (codes "genesis.finality.threshold invalid")

unfoldable pub validate : Genesis → Outcome (Unit {0})
unfolding check_allocations check_finality
validate g = do
  fail_if (is_empty g.chain_id) (codes "genesis.chain_id required")
  fail_if (g.protocol_version == 0) (codes "genesis.protocol_version required")
  fail_if (nonpos g.genesis_time_unix) (codes "genesis.genesis_time_unix required")
  fail_if (g.pow_leading_zero_bits == 0 || ltb 255 g.pow_leading_zero_bits)
      (codes "genesis.consensus.pow_leading_zero_bits invalid")
  check_allocations 0 g.allocations
  check_finality g.finality

unfoldable pub allocation_bytes : List Allocation → Bytes
allocation_bytes [] = []
allocation_bytes (a ∷ more) = a.address ++ (0 ∷ (a.balance ++ (0 ∷ allocation_bytes more)))

module _ (sha256 : Bytes → Bytes) where
  unfoldable pub genesis_state_root_placeholder : Genesis → Hash
  unfolding allocation_bytes
  genesis_state_root_placeholder g = sha256 (
      codes "reserveos:genesis:stateroot:v0"
      ++ (g.chain_id ++ (allocation_bytes g.allocations ++ le_bytes 8 g.pow_leading_zero_bits)))

  unfoldable pub genesis_block : Genesis → Block
  unfolding genesis_state_root_placeholder
  genesis_block g = record {
    header = record {
      version = g.protocol_version;
      chain_id = g.chain_id;
      height = 0;
      time_unix = g.genesis_time_unix;
      prev_hash = replicate 32 0;
      state_root = genesis_state_root_placeholder g;
      tx_root = sha256d sha256 (codes "genesis:txroot:none");
      bits = big_to_compact (leading_zeros_to_target g.pow_leading_zero_bits);
      nonce = 0;
    };
    txs = [];
  }
