-- ===== src/SledStorage/Refinement/Views.antt =====
-- A store and its view after one tree of src/storage.rs has changed.
use baa_ls.Prelude.{ℕ, ◌^◌, ◌<◌, ◌≡◌, Bytes, length}
use baa_ls.Types.{Hash, PublicKey, ContractId, Transaction, Block, ChainState, Account, Bincode}
use baa_ls.SledStorage.{Sled, Hex, SledStorage, height_key, chain_state_key, or_database_error}
use baa_ls.SledStorage.Operations.{
  read_entry, contract_key, sled_storage, get_block, get_block_by_height, get_transaction,
  get_account, get_chain_state, get_contract_code, contract_storage_read,
}
use baa_ls.SledStorage.Specification.{Answer, View, Represents}

module _ {Tree : Type 0} (sled : Sled Tree) (b : Bincode) (hex : Hex) (v : View)
    (s : SledStorage Tree) where
  pub with_blocks :
      (t : Tree) (block : Hash → Answer Block) (block_by_height : ℕ → Answer Block)
      → Represents (sled_storage sled b hex) v s
      → ((hash : Hash) → length hash ≡ 32 → read_entry sled b hex b.block_codec t hash ≡ block hash)
      → ((height : ℕ)
          → height < 2 ^ 64
          → read_entry sled b hex b.block_codec t (height_key height) ≡ block_by_height height)
      → Represents
          (sled_storage sled b hex)
          (record v { block = block; block_by_height = block_by_height })
          (record s { blocks_tree = t })
  unfolding get_block get_block_by_height get_transaction get_account get_chain_state
      get_contract_code contract_storage_read
  with_blocks t block block_by_height h block_law block_by_height_law = record {
    block_lem = block_law;
    block_by_height_lem = block_by_height_law;
    transaction_lem = h.transaction_lem;
    account_lem = h.account_lem;
    chain_state_lem = h.chain_state_lem;
    contract_code_lem = h.contract_code_lem;
    contract_value_lem = h.contract_value_lem;
  }

  pub with_transactions :
      (t : Tree) (transaction : Hash → Answer Transaction)
      → Represents (sled_storage sled b hex) v s
      → ((hash : Hash) → read_entry sled b hex b.transaction_codec t hash ≡ transaction hash)
      → Represents
          (sled_storage sled b hex)
          (record v { transaction = transaction })
          (record s { transactions_tree = t })
  unfolding get_block get_block_by_height get_transaction get_account get_chain_state
      get_contract_code contract_storage_read
  with_transactions t transaction h transaction_law = record {
    block_lem = h.block_lem;
    block_by_height_lem = h.block_by_height_lem;
    transaction_lem = transaction_law;
    account_lem = h.account_lem;
    chain_state_lem = h.chain_state_lem;
    contract_code_lem = h.contract_code_lem;
    contract_value_lem = h.contract_value_lem;
  }

  pub with_accounts :
      (t : Tree) (account : PublicKey → Answer Account)
      → Represents (sled_storage sled b hex) v s
      → ((address : PublicKey)
          → read_entry sled b hex b.account_codec t address.bytes ≡ account address)
      → Represents
          (sled_storage sled b hex)
          (record v { account = account })
          (record s { accounts_tree = t })
  unfolding get_block get_block_by_height get_transaction get_account get_chain_state
      get_contract_code contract_storage_read
  with_accounts t account h account_law = record {
    block_lem = h.block_lem;
    block_by_height_lem = h.block_by_height_lem;
    transaction_lem = h.transaction_lem;
    account_lem = account_law;
    chain_state_lem = h.chain_state_lem;
    contract_code_lem = h.contract_code_lem;
    contract_value_lem = h.contract_value_lem;
  }

  pub with_chain_state :
      (t : Tree) (chain_state : Answer ChainState)
      → Represents (sled_storage sled b hex) v s
      → read_entry sled b hex b.chain_state_codec t chain_state_key ≡ chain_state
      → Represents
          (sled_storage sled b hex)
          (record v { chain_state = chain_state })
          (record s { chain_state_tree = t })
  unfolding get_block get_block_by_height get_transaction get_account get_chain_state
      get_contract_code contract_storage_read
  with_chain_state t chain_state h chain_state_law = record {
    block_lem = h.block_lem;
    block_by_height_lem = h.block_by_height_lem;
    transaction_lem = h.transaction_lem;
    account_lem = h.account_lem;
    chain_state_lem = chain_state_law;
    contract_code_lem = h.contract_code_lem;
    contract_value_lem = h.contract_value_lem;
  }

  pub with_contract_code :
      (t : Tree) (contract_code : ContractId → Answer Bytes)
      → Represents (sled_storage sled b hex) v s
      → ((id : ContractId) → or_database_error (sled.get t id.id) ≡ contract_code id)
      → Represents
          (sled_storage sled b hex)
          (record v { contract_code = contract_code })
          (record s { contract_code_tree = t })
  unfolding get_block get_block_by_height get_transaction get_account get_chain_state
      get_contract_code contract_storage_read
  with_contract_code t contract_code h contract_code_law = record {
    block_lem = h.block_lem;
    block_by_height_lem = h.block_by_height_lem;
    transaction_lem = h.transaction_lem;
    account_lem = h.account_lem;
    chain_state_lem = h.chain_state_lem;
    contract_code_lem = contract_code_law;
    contract_value_lem = h.contract_value_lem;
  }

  pub with_contract_values :
      (t : Tree) (contract_value : ContractId → Bytes → Answer Bytes)
      → Represents (sled_storage sled b hex) v s
      → ((id : ContractId) (key : Bytes)
          → length id.id ≡ 32
          → or_database_error (sled.get t (contract_key sled b hex id key)) ≡ contract_value id key)
      → Represents
          (sled_storage sled b hex)
          (record v { contract_value = contract_value })
          (record s { contract_storage_tree = t })
  unfolding get_block get_block_by_height get_transaction get_account get_chain_state
      get_contract_code contract_storage_read
  with_contract_values t contract_value h contract_value_law = record {
    block_lem = h.block_lem;
    block_by_height_lem = h.block_by_height_lem;
    transaction_lem = h.transaction_lem;
    account_lem = h.account_lem;
    chain_state_lem = h.chain_state_lem;
    contract_code_lem = h.contract_code_lem;
    contract_value_lem = contract_value_law;
  }

  -- the trees that no method of the view reads
  pub with_unread :
      (db mempool tx_by_block : Tree)
      → Represents (sled_storage sled b hex) v s
      → Represents
          (sled_storage sled b hex)
          v
          (record s { db = db; mempool_tree = mempool; tx_by_block_tree = tx_by_block })
  unfolding get_block get_block_by_height get_transaction get_account get_chain_state
      get_contract_code contract_storage_read
  with_unread db mempool tx_by_block h = record {
    block_lem = h.block_lem;
    block_by_height_lem = h.block_by_height_lem;
    transaction_lem = h.transaction_lem;
    account_lem = h.account_lem;
    chain_state_lem = h.chain_state_lem;
    contract_code_lem = h.contract_code_lem;
    contract_value_lem = h.contract_value_lem;
  }
