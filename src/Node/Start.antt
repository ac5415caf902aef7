-- ===== src/Node/Start.antt =====
-- `Runtime::new` (src/runtime.rs) and `Ledger::initialize_chain` (src/ledger.rs) over
-- `SledStorage`.
use baa_ls.Prelude.{◌≡◌, ◌∙◌, ap, inl, inr, false, none, some, [], ok, err, arith, Result-cases}
use baa_ls.Types.{ChainState, Crypto, Bincode}
use baa_ls.SledStorage.{Sled, Hex, SledStorage, chain_state_key}
use baa_ls.SledStorage.Operations.{read_entry, get_chain_state}
use baa_ls.Consensus.{ConsensusEngine}
use baa_ls.Ledger.Validation.{genesis_batch, create_genesis, initialize_chain}
use baa_ls.Runtime.{RuntimeError, chain_initialization_error, unlocked}
use baa_ls.Runtime.Calls.{new}
use baa_ls.Node.{node_storage, node_engine}
use baa_ls.Node.Trees.{ReadTrees, read_trees, batch_keeps_trees}

module _ {Tree : Type 0} (sled : Sled Tree) (consensus : ConsensusEngine) (c : Crypto) (b : Bincode)
    (hex : Hex) where
  create_genesis_keeps :
      (s : SledStorage Tree)
      → read_trees (create_genesis (node_storage sled b hex) c b s).1 ≡ read_trees s
  unfolding create_genesis
  create_genesis_keeps s = elim (Result-cases (genesis_batch c b)) [
    | inl (batch, e) ↦ ground (arith, batch_keeps_trees sled c b hex batch s)
    | inr (x, e) ↦ ground arith
  ]

  initialize_chain_keeps :
      (s : SledStorage Tree)
      → read_trees (initialize_chain (node_storage sled b hex) c b s).1 ≡ read_trees s
  unfolding initialize_chain
  initialize_chain_keeps s = elim (Result-cases (get_chain_state sled b hex s)) [
    | inl (some state, e) ↦ ground arith
    | inl (none, e) ↦ ground (arith, create_genesis_keeps s)
    | inr (x, e) ↦ ground arith
  ]

  chain_state_after :
      (s : SledStorage Tree)
      → get_chain_state sled b hex (initialize_chain (node_storage sled b hex) c b s).1
        ≡ get_chain_state sled b hex s
  unfolding get_chain_state
  chain_state_after s =
      ap
        (λ (r : ReadTrees Tree).
          read_entry sled b hex b.chain_state_codec r.chain_state chain_state_key)
        (initialize_chain_keeps s)

  -- Over a sled store in which get_chain_state finds nothing, Runtime::new ends in an error, and
  -- get_chain_state still finds nothing afterwards.
  pub new_fails_on_fresh_store :
      (s : SledStorage Tree)
      → get_chain_state sled b hex s ≡ ok none
      → (e : RuntimeError) × ((new (node_storage sled b hex) (node_engine sled c) consensus c b s).0
          ≡ err e)
        × (get_chain_state sled b hex
              (new (node_storage sled b hex) (node_engine sled c) consensus c b s).1
            ≡ ok none)
  unfolding new
  new_fails_on_fresh_store s fresh =
      let after = chain_state_after s ∙ fresh in
      elim (Result-cases (initialize_chain (node_storage sled b hex) c b s).0) [
        | inl (done, e) ↦ (chain_initialization_error, ground (arith, after), ground (arith, after))
        | inr (x, e) ↦ (RuntimeError.ledger_error x, ground (arith, after), ground (arith, after))
      ]

  -- Over a sled store with a chain state, Runtime::new returns a runtime at that state with an
  -- empty mempool and free locks, and the store is unchanged.
  pub new_loads_chain_state :
      (s : SledStorage Tree) (state : ChainState)
      → get_chain_state sled b hex s ≡ ok (some state)
      → new (node_storage sled b hex) (node_engine sled c) consensus c b s ≡ (
        ok (record {
          storage = s;
          mempool = unlocked [];
          chain_state = unlocked state;
          is_running = unlocked false;
        }),
        s,
      )
  unfolding new initialize_chain
  new_loads_chain_state s state stored = ground arith
