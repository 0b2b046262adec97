-- ===== src/Node/Settings/Defaults.antt =====
-- What holds of a validated configuration (core/node/config.go).
use reserve_os.Base.{
  ℕ, ◌≡◌, refl, ap, false, arith, Bytes, codes, is_empty, ◌==◌, nonpos, Bool-cases, inl, inr, ok,
  ◌∙◌,
}
use reserve_os.Node.{Config}
use reserve_os.Node.Settings.{
  or_text, or_zero, or_nonpos, or_bump, with_defaults, validate, f64_nonpos,
}

or_text_again : (d v : Bytes) → is_empty d ≡ false → or_text d (or_text d v) ≡ or_text d v
unfolding or_text
or_text_again d v h = elim (Bool-cases (is_empty v)) [ inl e ↦ rw e (rw h) | inr e ↦ rw e (rw e) ]

or_zero_again : (d v : ℕ) → (d == 0) ≡ false → or_zero d (or_zero d v) ≡ or_zero d v
unfolding or_zero
or_zero_again d v h = elim (Bool-cases (v == 0)) [ inl e ↦ rw e (rw h) | inr e ↦ rw e (rw e) ]

or_nonpos_again : (d v : ℕ) → nonpos d ≡ false → or_nonpos d (or_nonpos d v) ≡ or_nonpos d v
unfolding or_nonpos
or_nonpos_again d v h = elim (Bool-cases (nonpos v)) [ inl e ↦ rw e (rw h) | inr e ↦ rw e (rw e) ]

or_bump_again : (v : ℕ) → or_bump (or_bump v) ≡ or_bump v
unfolding or_bump
or_bump_again v = elim (Bool-cases (f64_nonpos v)) [ inl e ↦ rw e | inr e ↦ rw e (rw e) ]

with_defaults_again : (c : Config) → with_defaults (with_defaults c) ≡ with_defaults c
with_defaults_again c = cc (
  or_text_again (codes "RESERVEOS_KEYMASTER") c.keyvault.kek_env refl,
  or_zero_again 5 c.keyvault.rotation_days refl,
  or_text_again (codes "127.0.0.1") c.rpc.bind refl,
  or_zero_again 20 c.finality.checkpoint_interval refl,
  or_zero_again 2 c.finality.threshold_num refl,
  or_zero_again 3 c.finality.threshold_den refl,
  or_nonpos_again 3 c.finality.gossip_interval_seconds refl,
  or_nonpos_again 3 c.sync.interval_seconds refl,
  or_nonpos_again 50 c.sync.max_blocks_per_round refl,
  or_text_again (codes "USDR") c.fees.gas_asset refl,
  or_nonpos_again 100 c.fees.base_fee_min refl,
  or_nonpos_again 2 c.fees.per_byte refl,
  or_nonpos_again 10 c.fees.otap_multiplier refl,
  or_text_again (codes "NORMAL") c.fees.mode refl,
  or_zero_again 50 c.pop.epoch_blocks refl,
  or_zero_again 100 c.pop.min_payout refl,
  or_nonpos_again 5000 c.mempool.max_txs refl,
  or_nonpos_again 8000000 c.mempool.max_bytes refl,
  or_nonpos_again 1800 c.mempool.tx_ttl_seconds refl,
  or_zero_again 50 c.mempool.max_nonce_gap refl,
  or_bump_again c.mempool.rbf_min_fee_bump,
  or_text_again (codes "USDR") c.issuance.reward_asset refl,
  or_zero_again 5000 c.issuance.block_reward refl,
  or_text_again (codes "miner:local") c.issuance.coinbase_to refl,
  or_text_again (codes "0.0.0.0") c.p2p.bind refl,
  or_zero_again 18444 c.p2p.port refl,
  or_nonpos_again 3 c.gossip.timeout_seconds refl,
  or_nonpos_again 1 c.gossip.max_hops refl,
  or_zero_again 200 c.state.snapshot_interval refl,
  or_text_again (codes "runtime/snapshots") c.state.snapshot_dir refl,
  or_text_again (codes "json") c.state.snapshot_format refl,
  or_zero_again 1000000 c.limits.max_block_bytes refl,
  or_zero_again 5000 c.limits.max_block_txs refl,
  or_zero_again 256 c.limits.max_tx_outputs refl,
  or_text_again (codes "developer") c.node_role.role refl,
  or_text_again (codes "registry") c.pos_validator_source refl,
  or_zero_again 2000 c.validation.max_replay_blocks refl,
)

or_text_set : (d v : Bytes) → is_empty d ≡ false → is_empty (or_text d v) ≡ false
unfolding or_text
or_text_set d v h = elim (Bool-cases (is_empty v)) [ inl e ↦ rw e h | inr e ↦ rw e e ]

or_zero_set : (d v : ℕ) → (d == 0) ≡ false → (or_zero d v == 0) ≡ false
unfolding or_zero
or_zero_set d v h = elim (Bool-cases (v == 0)) [ inl e ↦ rw e h | inr e ↦ rw e e ]

or_nonpos_set : (d v : ℕ) → nonpos d ≡ false → nonpos (or_nonpos d v) ≡ false
unfolding or_nonpos
or_nonpos_set d v h = elim (Bool-cases (nonpos v)) [ inl e ↦ rw e h | inr e ↦ rw e e ]

or_bump_set : (v : ℕ) → f64_nonpos (or_bump v) ≡ false
unfolding or_bump
or_bump_set v = elim (Bool-cases (f64_nonpos v)) [ inl e ↦ rw e refl | inr e ↦ rw e e ]

-- Each of the four required settings and each of those that have a default, as its own test in
-- `Validate` asks: a text is there, a number is not 0, or a signed number is positive.
pub record IsComplete (c : Config) : Type 0 where
  pub leveldb_path : is_empty c.leveldb_path ≡ false
  pub keyvault_path : is_empty c.keyvault.path ≡ false
  pub rpc_port : (c.rpc.port == 0) ≡ false
  pub genesis_file : is_empty c.genesis_file ≡ false
  pub keyvault_kek_env : is_empty c.keyvault.kek_env ≡ false
  pub keyvault_rotation_days : (c.keyvault.rotation_days == 0) ≡ false
  pub rpc_bind : is_empty c.rpc.bind ≡ false
  pub finality_checkpoint_interval : (c.finality.checkpoint_interval == 0) ≡ false
  pub finality_threshold_num : (c.finality.threshold_num == 0) ≡ false
  pub finality_threshold_den : (c.finality.threshold_den == 0) ≡ false
  pub finality_gossip_interval_seconds : nonpos c.finality.gossip_interval_seconds ≡ false
  pub sync_interval_seconds : nonpos c.sync.interval_seconds ≡ false
  pub sync_max_blocks_per_round : nonpos c.sync.max_blocks_per_round ≡ false
  pub fees_gas_asset : is_empty c.fees.gas_asset ≡ false
  pub fees_base_fee_min : nonpos c.fees.base_fee_min ≡ false
  pub fees_per_byte : nonpos c.fees.per_byte ≡ false
  pub fees_otap_multiplier : nonpos c.fees.otap_multiplier ≡ false
  pub fees_mode : is_empty c.fees.mode ≡ false
  pub pop_epoch_blocks : (c.pop.epoch_blocks == 0) ≡ false
  pub pop_min_payout : (c.pop.min_payout == 0) ≡ false
  pub mempool_max_txs : nonpos c.mempool.max_txs ≡ false
  pub mempool_max_bytes : nonpos c.mempool.max_bytes ≡ false
  pub mempool_tx_ttl_seconds : nonpos c.mempool.tx_ttl_seconds ≡ false
  pub mempool_max_nonce_gap : (c.mempool.max_nonce_gap == 0) ≡ false
  pub mempool_rbf_min_fee_bump : f64_nonpos c.mempool.rbf_min_fee_bump ≡ false
  pub issuance_reward_asset : is_empty c.issuance.reward_asset ≡ false
  pub issuance_block_reward : (c.issuance.block_reward == 0) ≡ false
  pub issuance_coinbase_to : is_empty c.issuance.coinbase_to ≡ false
  pub p2p_bind : is_empty c.p2p.bind ≡ false
  pub p2p_port : (c.p2p.port == 0) ≡ false
  pub gossip_timeout_seconds : nonpos c.gossip.timeout_seconds ≡ false
  pub gossip_max_hops : nonpos c.gossip.max_hops ≡ false
  pub state_snapshot_interval : (c.state.snapshot_interval == 0) ≡ false
  pub state_snapshot_dir : is_empty c.state.snapshot_dir ≡ false
  pub state_snapshot_format : is_empty c.state.snapshot_format ≡ false
  pub limits_max_block_bytes : (c.limits.max_block_bytes == 0) ≡ false
  pub limits_max_block_txs : (c.limits.max_block_txs == 0) ≡ false
  pub limits_max_tx_outputs : (c.limits.max_tx_outputs == 0) ≡ false
  pub node_role_role : is_empty c.node_role.role ≡ false
  pub pos_validator_source : is_empty c.pos_validator_source ≡ false
  pub validation_max_replay_blocks : (c.validation.max_replay_blocks == 0) ≡ false

-- The four tests, on a configuration with its defaults or without.
record IsNamed (c : Config) : Type 0 where
  db : is_empty c.leveldb_path ≡ false
  keys : is_empty c.keyvault.path ≡ false
  port : (c.rpc.port == 0) ≡ false
  genesis : is_empty c.genesis_file ≡ false

validate-IsNamed : (c d : Config) → validate c ≡ ok d → IsNamed c × (d ≡ with_defaults c)
unfolding validate
validate-IsNamed c d e = ground arith

validate-eq : (c : Config) → IsNamed c → validate c ≡ ok (with_defaults c)
unfolding validate
validate-eq c n = rw n.db (rw n.keys (rw n.port (rw n.genesis refl)))

with_defaults-IsComplete : (c : Config) → IsNamed c → IsComplete (with_defaults c)
with_defaults-IsComplete c n = record {
  leveldb_path = n.db;
  keyvault_path = n.keys;
  rpc_port = n.port;
  genesis_file = n.genesis;
  keyvault_kek_env = or_text_set (codes "RESERVEOS_KEYMASTER") c.keyvault.kek_env refl;
  keyvault_rotation_days = or_zero_set 5 c.keyvault.rotation_days refl;
  rpc_bind = or_text_set (codes "127.0.0.1") c.rpc.bind refl;
  finality_checkpoint_interval = or_zero_set 20 c.finality.checkpoint_interval refl;
  finality_threshold_num = or_zero_set 2 c.finality.threshold_num refl;
  finality_threshold_den = or_zero_set 3 c.finality.threshold_den refl;
  finality_gossip_interval_seconds = or_nonpos_set 3 c.finality.gossip_interval_seconds refl;
  sync_interval_seconds = or_nonpos_set 3 c.sync.interval_seconds refl;
  sync_max_blocks_per_round = or_nonpos_set 50 c.sync.max_blocks_per_round refl;
  fees_gas_asset = or_text_set (codes "USDR") c.fees.gas_asset refl;
  fees_base_fee_min = or_nonpos_set 100 c.fees.base_fee_min refl;
  fees_per_byte = or_nonpos_set 2 c.fees.per_byte refl;
  fees_otap_multiplier = or_nonpos_set 10 c.fees.otap_multiplier refl;
  fees_mode = or_text_set (codes "NORMAL") c.fees.mode refl;
  pop_epoch_blocks = or_zero_set 50 c.pop.epoch_blocks refl;
  pop_min_payout = or_zero_set 100 c.pop.min_payout refl;
  mempool_max_txs = or_nonpos_set 5000 c.mempool.max_txs refl;
  mempool_max_bytes = or_nonpos_set 8000000 c.mempool.max_bytes refl;
  mempool_tx_ttl_seconds = or_nonpos_set 1800 c.mempool.tx_ttl_seconds refl;
  mempool_max_nonce_gap = or_zero_set 50 c.mempool.max_nonce_gap refl;
  mempool_rbf_min_fee_bump = or_bump_set c.mempool.rbf_min_fee_bump;
  issuance_reward_asset = or_text_set (codes "USDR") c.issuance.reward_asset refl;
  issuance_block_reward = or_zero_set 5000 c.issuance.block_reward refl;
  issuance_coinbase_to = or_text_set (codes "miner:local") c.issuance.coinbase_to refl;
  p2p_bind = or_text_set (codes "0.0.0.0") c.p2p.bind refl;
  p2p_port = or_zero_set 18444 c.p2p.port refl;
  gossip_timeout_seconds = or_nonpos_set 3 c.gossip.timeout_seconds refl;
  gossip_max_hops = or_nonpos_set 1 c.gossip.max_hops refl;
  state_snapshot_interval = or_zero_set 200 c.state.snapshot_interval refl;
  state_snapshot_dir = or_text_set (codes "runtime/snapshots") c.state.snapshot_dir refl;
  state_snapshot_format = or_text_set (codes "json") c.state.snapshot_format refl;
  limits_max_block_bytes = or_zero_set 1000000 c.limits.max_block_bytes refl;
  limits_max_block_txs = or_zero_set 5000 c.limits.max_block_txs refl;
  limits_max_tx_outputs = or_zero_set 256 c.limits.max_tx_outputs refl;
  node_role_role = or_text_set (codes "developer") c.node_role.role refl;
  pos_validator_source = or_text_set (codes "registry") c.pos_validator_source refl;
  validation_max_replay_blocks = or_zero_set 2000 c.validation.max_replay_blocks refl;
}

-- A configuration that `Validate` accepts comes out complete: each of the four required settings and each
-- of the 37 that have a default passes the test that `Validate` makes of it. To validate it again
-- accepts it and changes nothing.
pub validate-IsComplete : (c d : Config) → validate c ≡ ok d → IsComplete d × (validate d ≡ ok d)
validate-IsComplete c d e =
    let (named, same) = validate-IsNamed c d e in
    let again : validate (with_defaults c) ≡ ok (with_defaults c) =
      validate-eq (with_defaults c)
        (record { db = named.db; keys = named.keys; port = named.port; genesis = named.genesis })
      ∙ ap ok (with_defaults_again c) in
    rw same (with_defaults-IsComplete c named, again)
