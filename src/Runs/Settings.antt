-- ===== src/Runs/Settings.antt =====
-- Runs of the configuration and of the genesis file.
use reserve_os.Base.{◌≡◌, ◌↔◌, refl, [], ◌∷◌, ◌++◌, some, codes, ok}
use reserve_os.Node.Settings.{with_defaults, validate}
use reserve_os.Node.Settings.Defaults.{IsComplete, validate-IsComplete}
use reserve_os.Genesis
use reserve_os.Genesis.{Allocation, genesis_state_root_placeholder}
use reserve_os.Genesis.Rules.{IsGenesis, validate_iff}
use reserve_os.Genesis.Root.{with_head, state_root-moves}
use reserve_os.Runs.Data.{pad, config}

validate-IsComplete_example :
    IsComplete (with_defaults config)
    × (validate (with_defaults config) ≡ ok (with_defaults config))
validate-IsComplete_example =
    validate-IsComplete config (with_defaults config) (unfold validate in refl)

abbrev treasury : Allocation
treasury = record { tag = codes "treasury"; address = codes "aa"; balance = codes "1000" }

abbrev genesis : Genesis.Genesis
genesis = record {
  chain_id = codes "main";
  network = codes "reserve";
  genesis_time_unix = 1700000000;
  protocol_version = 1;
  pow_leading_zero_bits = 16;
  finality = some (record { checkpoint_interval = 20; threshold_num = 2; threshold_den = 3 });
  validators = [];
  allocations = treasury ∷ [];
}

validate_iff_example : (Genesis.validate genesis ≡ ok tt) ↔ IsGenesis genesis
validate_iff_example = validate_iff genesis

state_root-moves_example :
    genesis_state_root_placeholder
      (pad 32)
      (with_head genesis (codes "ma" ++ codes "in") (codes "aa") treasury [])
    ≡ genesis_state_root_placeholder
        (pad 32)
        (with_head genesis (codes "ma") (codes "in" ++ codes "aa") treasury [])
state_root-moves_example =
    state_root-moves (pad 32) genesis (codes "ma") (codes "in") (codes "aa") treasury []
