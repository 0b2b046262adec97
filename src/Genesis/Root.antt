-- ===== src/Genesis/Root.antt =====
-- What the state root of genesis does not tell apart (core/chain/genesis_block.go).
use reserve_os.Base.{◌≡◌, ap, List, ◌∷◌, ◌++◌, append_assoc, Bytes, codes}
use reserve_os.Genesis.{Allocation, Genesis, genesis_state_root_placeholder}

abbrev pub with_head : Genesis → Bytes → Bytes → Allocation → List Allocation → Genesis
with_head g chain_id address a more = record g {
  chain_id = chain_id;
  allocations = record a { address = address } ∷ more;
}

-- The chain id and the first address are hashed with nothing between them: whatever the hash, bytes may
-- move from the end of the one to the front of the other and the state root stays the same.
pub state_root-moves :
    (sha256 : Bytes → Bytes) (g : Genesis) (chain_id moved address : Bytes) (a : Allocation)
    (more : List Allocation)
    → genesis_state_root_placeholder sha256 (with_head g (chain_id ++ moved) address a more)
      ≡ genesis_state_root_placeholder sha256 (with_head g chain_id (moved ++ address) a more)
unfolding genesis_state_root_placeholder
state_root-moves sha256 g chain_id moved address a more =
    ap (λ s. sha256 (codes "reserveos:genesis:stateroot:v0" ++ s)) (simp append_assoc)
