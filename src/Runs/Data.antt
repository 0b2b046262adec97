-- ===== src/Runs/Data.antt =====
-- Concrete transactions, blocks, states and keys for the runs.
use reserve_os.Base.{
  ℕ, ◌*◌, ◌^◌, ◌+◌, true, List, [], ◌∷◌, none, some, Bytes, codes, replicate, bytes_eq,
  if◌then◌else◌,
}
use reserve_os.Chain.{TxOut, Tx, Block, BlockHeader}
use reserve_os.Crypto.{Primitives}
use reserve_os.Node.{Config}
use reserve_os.Node.Sim.{Sim}

-- Hashes that keep the first 32 bytes, and signatures that always verify.
abbrev pub pad : ℕ → Bytes → Bytes
pad Prim.Native.Nat.zero s = []
pad (Prim.Native.Nat.suc n) [] = 0 ∷ pad n []
pad (Prim.Native.Nat.suc n) (b ∷ s) = b ∷ pad n s

abbrev pub toy : Primitives
toy = record {
  sha256 = pad 32;
  hash256 = pad 32;
  ed25519_verify = λ key msg sig. true;
  must_hex32 = λ s. s;
  Point = Bytes;
  point_set_bytes = λ b. some b;
  schnorr_verify = λ p msg sig. true;
}

abbrev pub config : Config
config = record {
  leveldb_path = codes "runtime/db";
  keyvault = record { path = codes "runtime/keys"; kek_env = []; rotation_days = 0 };
  rpc = record { bind = []; port = 8332 };
  genesis_file = codes "genesis.json";
  finality = record {
    enabled = true;
    checkpoint_interval = 0;
    threshold_num = 0;
    threshold_den = 0;
    validators = [];
    peers = [];
    gossip_interval_seconds = 0;
  };
  sync = record { enabled = true; peers = []; interval_seconds = 0; max_blocks_per_round = 0 };
  fees = record {
    gas_asset = codes "USDR";
    base_fee_min = 1;
    per_byte = 0;
    otap_multiplier = 2;
    mode = codes "NORMAL";
  };
  pop = record { epoch_blocks = 0; min_payout = 0 };
  mempool = record {
    max_txs_per_sender = 0;
    max_txs = 0;
    max_bytes = 0;
    tx_ttl_seconds = 0;
    allow_future_nonces = true;
    max_nonce_gap = 0;
    rbf_min_fee_bump = 0;
  };
  issuance = record {
    enabled = true;
    block_reward = 50;
    reward = 20;
    reward_asset = codes "USDR";
    coinbase_to = codes "miner";
  };
  p2p = record { enabled = true; bind = []; port = 0; allowlist = [] };
  gossip = record { enabled = true; peers = []; timeout_seconds = 0; max_hops = 0 };
  state = record { snapshot_interval = 0; snapshot_dir = []; snapshot_format = [] };
  node_role = record { role = []; read_only = true; allow_public_submit = true };
  pos_validator_source = [];
  limits = record { max_block_bytes = 100000; max_block_txs = 100; max_tx_outputs = 10 };
  validation = record { validate_fork_state = true; max_replay_blocks = 0 };
}

-- The keys of two accounts in hexadecimal, and a signature.
abbrev pub alice : Bytes
alice = replicate 64 97

abbrev pub bob : Bytes
bob = replicate 64 98

abbrev pub signature : Bytes
signature = replicate 128 48

abbrev pub output : Bytes → ℕ → TxOut
output to n = record {
  amount = n;
  asset = codes "USDR";
  address = to;
  p = [];
  r = [];
  tag = [];
  enc_memo = [];
  policy_bits = 0;
}

abbrev pub hidden_output : Bytes → ℕ → TxOut
hidden_output key n = record {
  amount = n;
  asset = codes "USDR";
  address = [];
  p = key;
  r = [];
  tag = [];
  enc_memo = [];
  policy_bits = 0;
}

abbrev pub payment : Bytes → ℕ → ℕ → List TxOut → Tx
payment from nonce fee outputs = record {
  from = from;
  pub_key = from;
  sig_hex = signature;
  type = [];
  otap_claim = none;
  version = 1;
  nonce = nonce;
  fee = fee;
  gas_asset = codes "USDR";
  outputs = outputs;
  memo = [];
}

abbrev pub claim : Bytes → Bytes → ℕ → ℕ → ℕ → Tx
claim from key amount nonce fee = record (payment from nonce fee []) {
  type = codes "otap_claim";
  otap_claim =
      some
        record { p = key; r = []; tag = []; to = from; amount = amount; claim_sig_hex = signature };
}

abbrev pub coinbase : Tx
coinbase = record (payment [] 0 0 (output (codes "miner") 50 ∷ [])) { type = codes "coinbase" }

abbrev pub header : BlockHeader
header = record {
  version = 1;
  chain_id = codes "reserve";
  height = 1;
  time_unix = 1000;
  prev_hash = replicate 32 0;
  state_root = replicate 32 0;
  tx_root = replicate 32 0;
  bits = 4 * 2 ^ 24 + 65536;
  nonce = 0;
}

abbrev pub payments : List Tx
payments =
    payment alice 1 10 (output bob 30 ∷ hidden_output (codes "K") 5 ∷ [])
    ∷ claim bob (codes "K") 3 1 2
    ∷ []

abbrev pub block : Block
block = record { header = header; txs = coinbase ∷ payments }

abbrev pub accounts : Sim
accounts = record {
  bal = λ id. if bytes_eq id alice then 100 else if bytes_eq id bob then 7 else 0;
  nonce = λ id. 0;
}
