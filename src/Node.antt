-- ===== src/Node.antt =====
-- The node, core/node: its configuration (core/node/config.go). `SyncConfig` has the fields that are
-- declared there. A float64 is its bit pattern.
pub mod Settings
pub mod Basic
pub mod Sim
use reserve_os.Base.{ℕ, Bool, List, Bytes}
use reserve_os.Fees.{Mode}

pub record FinalityValidator : Type 0 where
  pub name : Bytes
  pub pubkey_hex : Bytes
  pub weight : ℕ

pub record FinalityConfig : Type 0 where
  pub enabled : Bool
  pub checkpoint_interval : ℕ
  pub threshold_num : ℕ
  pub threshold_den : ℕ
  pub validators : List FinalityValidator
  pub peers : List Bytes
  pub gossip_interval_seconds : ℕ

pub record SyncConfig : Type 0 where
  pub enabled : Bool
  pub peers : List Bytes
  pub interval_seconds : ℕ
  pub max_blocks_per_round : ℕ

pub record PopConfig : Type 0 where
  pub epoch_blocks : ℕ
  pub min_payout : ℕ

pub record MempoolConfig : Type 0 where
  pub max_txs_per_sender : ℕ
  pub max_txs : ℕ
  pub max_bytes : ℕ
  pub tx_ttl_seconds : ℕ
  pub allow_future_nonces : Bool
  pub max_nonce_gap : ℕ
  pub rbf_min_fee_bump : ℕ

pub record FeesConfig : Type 0 where
  pub gas_asset : Bytes
  pub base_fee_min : ℕ
  pub per_byte : ℕ
  pub otap_multiplier : ℕ
  pub mode : Mode

-- `reward` is the field `Reward`, which the validation reads and `IssuanceConfig` does not declare.
pub record IssuanceConfig : Type 0 where
  pub enabled : Bool
  pub block_reward : ℕ
  pub reward : ℕ
  pub reward_asset : Bytes
  pub coinbase_to : Bytes

pub record ValidationConfig : Type 0 where
  pub validate_fork_state : Bool
  pub max_replay_blocks : ℕ

pub record LimitsConfig : Type 0 where
  pub max_block_bytes : ℕ
  pub max_block_txs : ℕ
  pub max_tx_outputs : ℕ

pub record NodeRoleConfig : Type 0 where
  pub role : Bytes
  pub read_only : Bool
  pub allow_public_submit : Bool

pub record StateConfig : Type 0 where
  pub snapshot_interval : ℕ
  pub snapshot_dir : Bytes
  pub snapshot_format : Bytes

pub record GossipConfig : Type 0 where
  pub enabled : Bool
  pub peers : List Bytes
  pub timeout_seconds : ℕ
  pub max_hops : ℕ

pub record P2pConfig : Type 0 where
  pub enabled : Bool
  pub bind : Bytes
  pub port : ℕ
  pub allowlist : List Bytes

pub record KeyvaultConfig : Type 0 where
  pub path : Bytes
  pub kek_env : Bytes
  pub rotation_days : ℕ

pub record RpcConfig : Type 0 where
  pub bind : Bytes
  pub port : ℕ

-- The paths are those of the sections `storage` and `chain`, which have one field each. The struct
-- has two fields `Node`; the other one holds a name and two paths that nothing here reads.
pub record Config : Type 0 where
  pub leveldb_path : Bytes
  pub keyvault : KeyvaultConfig
  pub rpc : RpcConfig
  pub genesis_file : Bytes
  pub finality : FinalityConfig
  pub sync : SyncConfig
  pub fees : FeesConfig
  pub pop : PopConfig
  pub mempool : MempoolConfig
  pub issuance : IssuanceConfig
  pub p2p : P2pConfig
  pub gossip : GossipConfig
  pub state : StateConfig
  pub node_role : NodeRoleConfig
  pub pos_validator_source : Bytes
  pub limits : LimitsConfig
  pub validation : ValidationConfig
