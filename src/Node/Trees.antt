-- ===== src/Node/Trees.antt =====
-- `Ledger::apply_block` (src/ledger.rs) over `SledStorage` (src/storage.rs), by the trees of the
-- store.
use baa_ls.Prelude.{ℕ, ◌≡◌, refl, ap, inl, inr, none, [], Bytes, arith, All, Option-cases}
use baa_ls.Types.{PublicKey, ContractId, Hash, Block, Crypto, Bincode}
use baa_ls.Storage.{StorageBatch}
use baa_ls.SledStorage.{Sled, Hex, SledStorage, chain_state_key}
use baa_ls.SledStorage.Operations.{
  read_entry, index_transaction, apply_batch, put_contract_code, get_account, get_block,
  get_chain_state,
}
use baa_ls.Contracts.{deploy_contract, call_contract, contract_id_of}
use baa_ls.Ledger.{LedgerState}
use baa_ls.Ledger.Application.{apply_block}
use baa_ls.Ledger.Transactions.{apply_transactions}
use baa_ls.Ledger.Nonces.{IsPlain}
use baa_ls.Ledger.Replay.{apply_transactions_same}
use baa_ls.Ledger.Frame.{Keeps, apply_block_keeps}
use baa_ls.Node.{node_storage, node_engine}

-- The trees of blocks, transactions, pending transactions, accounts, contract storage and chain state.
pub record ReadTrees (Tree : Type 0) : Type 0 where
  pub blocks : Tree
  pub transactions : Tree
  pub mempool : Tree
  pub accounts : Tree
  pub contract_storage : Tree
  pub chain_state : Tree

abbrev pub read_trees : {Tree : Type 0} → SledStorage Tree → ReadTrees Tree
read_trees s = record {
  blocks = s.blocks_tree;
  transactions = s.transactions_tree;
  mempool = s.mempool_tree;
  accounts = s.accounts_tree;
  contract_storage = s.contract_storage_tree;
  chain_state = s.chain_state_tree;
}

module _ {Tree : Type 0} (sled : Sled Tree) (c : Crypto) (b : Bincode) (hex : Hex) where
  index_keeps_trees :
      (tx_hash block_hash : Hash) (i : ℕ) (s : SledStorage Tree)
      → read_trees (index_transaction sled b hex tx_hash block_hash i s).1 ≡ read_trees s
  unfolding index_transaction
  index_keeps_trees tx_hash block_hash i s = ground arith

  pub batch_keeps_trees :
      (ops : StorageBatch) (s : SledStorage Tree)
      → read_trees (apply_batch sled b hex ops s).1 ≡ read_trees s
  unfolding apply_batch
  batch_keeps_trees ops s = ground arith

  deploy_keeps_trees :
      (deployer : PublicKey) (wasm : Bytes) (gas : ℕ) (s : SledStorage Tree)
      → read_trees (deploy_contract c deployer wasm none (node_storage sled b hex) gas s).1
        ≡ read_trees s
  unfolding deploy_contract put_contract_code contract_id_of
  deploy_keeps_trees deployer wasm gas s =
      elim (Option-cases
        (sled.insert s.contract_code_tree (contract_id_of c deployer wasm).id wasm)) [
          | inl fails ↦ ground arith
          | inr (t, e) ↦ ground arith
        ]

  call_keeps_trees :
      (caller : PublicKey) (id : ContractId) (method args : Bytes) (s : SledStorage Tree)
      → read_trees (call_contract c caller id method args (node_storage sled b hex) s).1
        ≡ read_trees s
  unfolding call_contract
  call_keeps_trees caller id method args s = refl

  node-Keeps : Keeps (node_storage sled b hex) (node_engine sled c) read_trees
  node-Keeps = record {
    deploy_keeps = deploy_keeps_trees;
    call_keeps = call_keeps_trees;
    index_keeps = index_keeps_trees;
    batch_keeps = batch_keeps_trees;
  }

  pub apply_block-read_trees :
      (block : Block) (w : LedgerState (SledStorage Tree))
      → read_trees (apply_block (node_storage sled b hex) (node_engine sled c) b block w).1.storage
        ≡ read_trees w.storage
  apply_block-read_trees block w =
      apply_block_keeps (node_storage sled b hex) (node_engine sled c) b read_trees node-Keeps block
        w

  -- Over the sled store, apply_block of any block, with any outcome, leaves what get_account,
  -- get_block and get_chain_state read as it was.
  pub apply_block_changes_no_account :
      (block : Block) (w : LedgerState (SledStorage Tree)) (address : PublicKey) (hash : Hash)
      → let s' = (apply_block (node_storage sled b hex) (node_engine sled c) b block w).1.storage in
        (get_account sled b hex address s' ≡ get_account sled b hex address w.storage)
        × (get_block sled b hex hash s' ≡ get_block sled b hex hash w.storage)
        × (get_chain_state sled b hex s' ≡ get_chain_state sled b hex w.storage)
  unfolding get_account get_block get_chain_state
  apply_block_changes_no_account block w address hash =
      let same = apply_block-read_trees block w in
      (
        ap (λ (r : ReadTrees Tree). read_entry sled b hex b.account_codec r.accounts address.bytes)
            same,
        ap (λ (r : ReadTrees Tree). read_entry sled b hex b.block_codec r.blocks hash) same,
        ap
            (λ (r : ReadTrees Tree).
              read_entry sled b hex b.chain_state_codec r.chain_state chain_state_key)
            same,
      )

  -- Over the sled store, the transactions of a block without contract payloads pass the loop of
  -- apply_block after that block was applied with the same result as before.
  pub apply_block_replays :
      (block : Block) (w : LedgerState (SledStorage Tree))
      → All IsPlain block.transactions
      → let s' = (apply_block (node_storage sled b hex) (node_engine sled c) b block w).1.storage in
        (apply_transactions
          (node_storage sled b hex)
          (node_engine sled c)
          b
          block.transactions
          []
          []
          s').0
        ≡ (apply_transactions
            (node_storage sled b hex)
            (node_engine sled c)
            b
            block.transactions
            []
            []
            w.storage).0
  apply_block_replays block w plain =
      let s' = (apply_block (node_storage sled b hex) (node_engine sled c) b block w).1.storage in
      apply_transactions_same (node_storage sled b hex) (node_engine sled c) b s' w.storage
        (λ k. (apply_block_changes_no_account block w k block.hash).0) block.transactions [] []
        plain
