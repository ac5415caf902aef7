-- ===== src/SledStorage/Operations.antt =====
-- src/storage.rs, `impl Storage for SledStorage`, method by method.
use baa_ls.Prelude.{
  ℕ, Option, none, some, List, [], ◌∷◌, ◌++◌, Bytes, codes, Result, ok, err, ◌>>=◌,
}
use baa_ls.Types.{
  Hash, PublicKey, ContractId, Transaction, Block, ChainState, Account, Codec, Bincode,
}
use baa_ls.Storage.{
  StorageError, database_error, serialization_error, StorageBatch, Reads, Writes, Storage,
}
use baa_ls.SledStorage.{
  Sled, Hex, SledStorage, decimal_padded, height_prefix, height_key, chain_state_key,
  or_database_error, or_serialization_error, decode_entry, commit, decode_all, last_entry,
  sled_batch, is_hash_sized,
}

module _ {Tree : Type 0} (sled : Sled Tree) (b : Bincode) (hex : Hex) where
  -- `SledStorage::new`
  unfoldable pub new : Bytes → Result StorageError (SledStorage Tree)
  new path = do
    db ← or_database_error (sled.open_db path)
    blocks ← or_database_error (sled.open_tree db (codes "blocks"))
    transactions ← or_database_error (sled.open_tree db (codes "transactions"))
    mempool ← or_database_error (sled.open_tree db (codes "mempool"))
    accounts ← or_database_error (sled.open_tree db (codes "accounts"))
    contract_code ← or_database_error (sled.open_tree db (codes "contract_code"))
    contract_storage ← or_database_error (sled.open_tree db (codes "contract_storage"))
    chain_state ← or_database_error (sled.open_tree db (codes "chain_state"))
    tx_by_block ← or_database_error (sled.open_tree db (codes "tx_by_block"))
    ok (record {
      db = db;
      blocks_tree = blocks;
      transactions_tree = transactions;
      mempool_tree = mempool;
      accounts_tree = accounts;
      contract_code_tree = contract_code;
      contract_storage_tree = contract_storage;
      chain_state_tree = chain_state;
      tx_by_block_tree = tx_by_block;
    })

  -- `bincode::deserialize` of what `tree.get(key)?` finds
  unfoldable pub read_entry : {A : Type 0} → Codec A → Tree → Bytes → Result StorageError (Option A)
  unfolding decode_entry
  read_entry c tree key = do entry ← or_database_error (sled.get tree key); decode_entry c entry

  -- the two inserts of `put_block`; the first stays when the second fails
  insert_twice : Block → Bytes → Writes (SledStorage Tree)
  insert_twice block encoded s = elim (sled.insert s.blocks_tree block.hash encoded) [
    | none ↦ (err database_error, s)
    | some t ↦
        commit (sled.insert t (height_key block.index) encoded)
          (λ t'. record s { blocks_tree = t' }) (record s { blocks_tree = t })
  ]

  unfoldable pub put_block : Block → Writes (SledStorage Tree)
  unfolding insert_twice
  put_block block s = elim (b.block_codec.serialize block) [
    | none ↦ (err serialization_error, s)
    | some encoded ↦ insert_twice block encoded s
  ]

  unfoldable pub get_block : Hash → Reads (SledStorage Tree) (Option Block)
  unfolding read_entry
  get_block hash s = read_entry b.block_codec s.blocks_tree hash

  -- `if let Some(Ok((_key, encoded))) = iter.next()`: an entry that fails to be read counts as none
  unfoldable pub get_latest_block : Reads (SledStorage Tree) (Option Block)
  unfolding last_entry
  get_latest_block s = elim (last_entry (sled.scan_prefix s.blocks_tree height_prefix)) [
    | some (some (key, encoded)) ↦ (do
      block ← or_serialization_error (b.block_codec.deserialize encoded)
      ok (some block))
    | _ ↦ ok none
  ]

  unfoldable pub get_chain_height : Reads (SledStorage Tree) ℕ
  unfolding get_latest_block
  get_chain_height s = do
    latest ← get_latest_block s
    ok (elim latest [ none ↦ 0 | some block ↦ block.index ])

  unfoldable pub get_block_by_height : ℕ → Reads (SledStorage Tree) (Option Block)
  unfolding read_entry
  get_block_by_height height s = read_entry b.block_codec s.blocks_tree (height_key height)

  unfoldable pub put_transaction : Transaction → Writes (SledStorage Tree)
  put_transaction tx s = elim (b.transaction_codec.serialize tx) [
    | none ↦ (err serialization_error, s)
    | some encoded ↦
        commit (sled.insert s.transactions_tree tx.hash encoded)
          (λ t. record s { transactions_tree = t }) s
  ]

  unfoldable pub get_transaction : Hash → Reads (SledStorage Tree) (Option Transaction)
  unfolding read_entry
  get_transaction tx_hash s = read_entry b.transaction_codec s.transactions_tree tx_hash

  unfoldable pub get_pending_transactions : Reads (SledStorage Tree) (List Transaction)
  unfolding decode_all
  get_pending_transactions s =
      decode_all b.transaction_codec (sled.scan_prefix s.mempool_tree (codes "pending:"))

  unfoldable pub remove_pending_transaction : Hash → Writes (SledStorage Tree)
  remove_pending_transaction tx_hash s =
      commit (sled.remove s.mempool_tree tx_hash) (λ t. record s { mempool_tree = t }) s

  -- `block_tx:{block}:{transaction}:{index}`
  unfoldable pub index_key : Hash → Hash → ℕ → Bytes
  index_key tx_hash block_hash tx_index_in_block =
      codes "block_tx:"
      ++ (hex.encode block_hash
          ++ (codes ":"
              ++ (hex.encode tx_hash ++ (codes ":" ++ decimal_padded 10 tx_index_in_block))))

  unfoldable pub index_transaction : Hash → Hash → ℕ → Writes (SledStorage Tree)
  index_transaction tx_hash block_hash tx_index_in_block s =
      commit
        (sled.insert s.tx_by_block_tree (index_key tx_hash block_hash tx_index_in_block) tx_hash)
        (λ t. record s { tx_by_block_tree = t }) s

  unfoldable pub get_transaction_by_id : Hash → Reads (SledStorage Tree) (Option Transaction)
  unfolding read_entry
  get_transaction_by_id tx_hash s = read_entry b.transaction_codec s.transactions_tree tx_hash

  -- the loop of `get_transactions_by_block`; a hash with no stored transaction is skipped
  unfoldable pub collect_transactions :
      List (Option (Bytes × Bytes)) → Reads (SledStorage Tree) (List Transaction)
  unfolding get_transaction
  collect_transactions [] s = ok []
  collect_transactions (none ∷ rest) s = err database_error
  collect_transactions (some (key, tx_hash_bytes) ∷ rest) s = do
    tx_hash ← is_hash_sized tx_hash_bytes
    found ← get_transaction tx_hash s
    transactions ← collect_transactions rest s
    ok (elim found [ none ↦ transactions | some tx ↦ tx ∷ transactions ])

  unfoldable pub get_transactions_by_block : Hash → Reads (SledStorage Tree) (List Transaction)
  unfolding collect_transactions
  get_transactions_by_block block_hash s =
      let prefix = codes "block_tx:" ++ (hex.encode block_hash ++ codes ":") in
      collect_transactions (sled.scan_prefix s.tx_by_block_tree prefix) s

  unfoldable pub put_account : PublicKey → Account → Writes (SledStorage Tree)
  put_account address account s = elim (b.account_codec.serialize account) [
    | none ↦ (err serialization_error, s)
    | some encoded ↦
        commit (sled.insert s.accounts_tree address.bytes encoded)
          (λ t. record s { accounts_tree = t }) s
  ]

  unfoldable pub get_account : PublicKey → Reads (SledStorage Tree) (Option Account)
  unfolding read_entry
  get_account address s = read_entry b.account_codec s.accounts_tree address.bytes

  unfoldable pub delete_account : PublicKey → Writes (SledStorage Tree)
  delete_account address s =
      commit (sled.remove s.accounts_tree address.bytes) (λ t. record s { accounts_tree = t }) s

  unfoldable pub put_chain_state : ChainState → Writes (SledStorage Tree)
  put_chain_state state s = elim (b.chain_state_codec.serialize state) [
    | none ↦ (err serialization_error, s)
    | some encoded ↦
        commit (sled.insert s.chain_state_tree chain_state_key encoded)
          (λ t. record s { chain_state_tree = t }) s
  ]

  unfoldable pub get_chain_state : Reads (SledStorage Tree) (Option ChainState)
  unfolding read_entry
  get_chain_state s = read_entry b.chain_state_codec s.chain_state_tree chain_state_key

  unfoldable pub put_contract_code : ContractId → Bytes → Writes (SledStorage Tree)
  put_contract_code contract_id wasm_bytes s =
      commit (sled.insert s.contract_code_tree contract_id.id wasm_bytes)
        (λ t. record s { contract_code_tree = t }) s

  unfoldable pub get_contract_code : ContractId → Reads (SledStorage Tree) (Option Bytes)
  get_contract_code contract_id s = or_database_error (sled.get s.contract_code_tree contract_id.id)

  -- `state:{contract}:{key}`
  unfoldable pub contract_key : ContractId → Bytes → Bytes
  contract_key contract_id key =
      codes "state:" ++ (hex.encode contract_id.id ++ (codes ":" ++ hex.encode key))

  unfoldable pub contract_storage_read :
      ContractId → Bytes → Reads (SledStorage Tree) (Option Bytes)
  contract_storage_read contract_id key s =
      or_database_error (sled.get s.contract_storage_tree (contract_key contract_id key))

  unfoldable pub contract_storage_write : ContractId → Bytes → Bytes → Writes (SledStorage Tree)
  contract_storage_write contract_id key value s =
      commit (sled.insert s.contract_storage_tree (contract_key contract_id key) value)
        (λ t. record s { contract_storage_tree = t }) s

  unfoldable pub contract_storage_remove : ContractId → Bytes → Writes (SledStorage Tree)
  contract_storage_remove contract_id key s =
      commit (sled.remove s.contract_storage_tree (contract_key contract_id key))
        (λ t. record s { contract_storage_tree = t }) s

  -- the batch goes to the default tree, and not to a tree that the other methods read
  unfoldable pub apply_batch : StorageBatch → Writes (SledStorage Tree)
  unfolding sled_batch
  apply_batch batch s =
      commit (sled.apply_batch s.db (sled_batch batch)) (λ t. record s { db = t }) s

  -- the implementation of the trait
  abbrev pub sled_storage : Storage (SledStorage Tree)
  sled_storage = record {
    put_block = put_block;
    get_block = get_block;
    get_latest_block = get_latest_block;
    get_chain_height = get_chain_height;
    get_block_by_height = get_block_by_height;
    put_transaction = put_transaction;
    get_transaction = get_transaction;
    get_pending_transactions = get_pending_transactions;
    remove_pending_transaction = remove_pending_transaction;
    index_transaction = index_transaction;
    get_transaction_by_id = get_transaction_by_id;
    get_transactions_by_block = get_transactions_by_block;
    put_account = put_account;
    get_account = get_account;
    delete_account = delete_account;
    put_chain_state = put_chain_state;
    get_chain_state = get_chain_state;
    put_contract_code = put_contract_code;
    get_contract_code = get_contract_code;
    contract_storage_read = contract_storage_read;
    contract_storage_write = contract_storage_write;
    contract_storage_remove = contract_storage_remove;
    apply_batch = apply_batch;
  }
