-- ===== src/Node/Settings.antt =====
-- `Config.Validate` of core/node/config.go: four settings are required, and others have defaults.
pub mod Defaults
use reserve_os.Base.{
  ℕ, ◌^◌, Bool, ◌&&◌, ◌||◌, if◌then◌else◌, Bytes, codes, is_empty, leb, ◌==◌, nonpos, Outcome, ok,
  ◌>>=◌, ◌>>◌, fail_if,
}
use reserve_os.Node.{
  FinalityConfig, SyncConfig, PopConfig, MempoolConfig, FeesConfig, IssuanceConfig,
  ValidationConfig, LimitsConfig, NodeRoleConfig, StateConfig, GossipConfig, P2pConfig,
  KeyvaultConfig, RpcConfig, Config,
}

-- `if v == "" { v = d }`, `if v == 0 { v = d }`, `if v <= 0 { v = d }`
unfoldable pub or_text : Bytes → Bytes → Bytes
or_text d v = if is_empty v then d else v

unfoldable pub or_zero : ℕ → ℕ → ℕ
or_zero d v = if v == 0 then d else v

unfoldable pub or_nonpos : ℕ → ℕ → ℕ
or_nonpos d v = if nonpos v then d else v

-- `v <= 0` on a float64: a zero, or a sign with no NaN.
abbrev pub f64_nonpos : ℕ → Bool
f64_nonpos v = v == 0 || (leb (2 ^ 63) v && leb v 0xFFF0000000000000)

-- The default is 1.10.
unfoldable pub or_bump : ℕ → ℕ
or_bump v = if f64_nonpos v then 0x3FF199999999999A else v

abbrev pub keyvault_defaults : KeyvaultConfig → KeyvaultConfig
keyvault_defaults k = record k {
  kek_env = or_text (codes "RESERVEOS_KEYMASTER") k.kek_env;
  rotation_days = or_zero 5 k.rotation_days;
}

abbrev pub rpc_defaults : RpcConfig → RpcConfig
rpc_defaults r = record r { bind = or_text (codes "127.0.0.1") r.bind }

abbrev pub finality_defaults : FinalityConfig → FinalityConfig
finality_defaults f = record f {
  checkpoint_interval = or_zero 20 f.checkpoint_interval;
  threshold_num = or_zero 2 f.threshold_num;
  threshold_den = or_zero 3 f.threshold_den;
  gossip_interval_seconds = or_nonpos 3 f.gossip_interval_seconds;
}

abbrev pub sync_defaults : SyncConfig → SyncConfig
sync_defaults s = record s {
  interval_seconds = or_nonpos 3 s.interval_seconds;
  max_blocks_per_round = or_nonpos 50 s.max_blocks_per_round;
}

abbrev pub fees_defaults : FeesConfig → FeesConfig
fees_defaults f = record f {
  gas_asset = or_text (codes "USDR") f.gas_asset;
  base_fee_min = or_nonpos 100 f.base_fee_min;
  per_byte = or_nonpos 2 f.per_byte;
  otap_multiplier = or_nonpos 10 f.otap_multiplier;
  mode = or_text (codes "NORMAL") f.mode;
}

abbrev pub pop_defaults : PopConfig → PopConfig
pop_defaults p = record p {
  epoch_blocks = or_zero 50 p.epoch_blocks;
  min_payout = or_zero 100 p.min_payout;
}

abbrev pub mempool_defaults : MempoolConfig → MempoolConfig
mempool_defaults m = record m {
  max_txs = or_nonpos 5000 m.max_txs;
  max_bytes = or_nonpos 8000000 m.max_bytes;
  tx_ttl_seconds = or_nonpos 1800 m.tx_ttl_seconds;
  max_nonce_gap = or_zero 50 m.max_nonce_gap;
  rbf_min_fee_bump = or_bump m.rbf_min_fee_bump;
}

abbrev pub issuance_defaults : IssuanceConfig → IssuanceConfig
issuance_defaults i = record i {
  reward_asset = or_text (codes "USDR") i.reward_asset;
  block_reward = or_zero 5000 i.block_reward;
  coinbase_to = or_text (codes "miner:local") i.coinbase_to;
}

abbrev pub p2p_defaults : P2pConfig → P2pConfig
p2p_defaults p = record p { bind = or_text (codes "0.0.0.0") p.bind; port = or_zero 18444 p.port }

abbrev pub gossip_defaults : GossipConfig → GossipConfig
gossip_defaults g = record g {
  timeout_seconds = or_nonpos 3 g.timeout_seconds;
  max_hops = or_nonpos 1 g.max_hops;
}

abbrev pub state_defaults : StateConfig → StateConfig
state_defaults s = record {
  snapshot_interval = or_zero 200 s.snapshot_interval;
  snapshot_dir = or_text (codes "runtime/snapshots") s.snapshot_dir;
  snapshot_format = or_text (codes "json") s.snapshot_format;
}

abbrev pub limits_defaults : LimitsConfig → LimitsConfig
limits_defaults l = record {
  max_block_bytes = or_zero 1000000 l.max_block_bytes;
  max_block_txs = or_zero 5000 l.max_block_txs;
  max_tx_outputs = or_zero 256 l.max_tx_outputs;
}

abbrev pub with_defaults : Config → Config
with_defaults c = record c {
  keyvault = keyvault_defaults c.keyvault;
  rpc = rpc_defaults c.rpc;
  finality = finality_defaults c.finality;
  sync = sync_defaults c.sync;
  fees = fees_defaults c.fees;
  pop = pop_defaults c.pop;
  mempool = mempool_defaults c.mempool;
  issuance = issuance_defaults c.issuance;
  p2p = p2p_defaults c.p2p;
  gossip = gossip_defaults c.gossip;
  state = state_defaults c.state;
  node_role = record c.node_role { role = or_text (codes "developer") c.node_role.role };
  pos_validator_source = or_text (codes "registry") c.pos_validator_source;
  limits = limits_defaults c.limits;
  validation = record c.validation {
    max_replay_blocks = or_zero 2000 c.validation.max_replay_blocks;
  };
}

-- The configuration with its defaults; the fields are filled in between the tests, which read others.
unfoldable pub validate : Config → Outcome Config
unfolding or_text or_zero or_nonpos or_bump
validate c = do
  fail_if (is_empty c.leveldb_path) (codes "storage.leveldb_path required")
  fail_if (is_empty c.keyvault.path) (codes "keyvault.path required")
  fail_if (c.rpc.port == 0) (codes "rpc.port required")
  fail_if (is_empty c.genesis_file) (codes "chain.genesis_file required")
  ok (with_defaults c)
