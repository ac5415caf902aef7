-- ===== src/Ledger/Validation.antt =====
-- src/ledger.rs: `initialize_chain` and `validate_block`. u64 arithmetic wraps, as in a release
-- build.
use baa_ls.Prelude.{
  ◌==◌, ltb, none, some, List, [], ◌∷◌, Bytes, codes, bytes_eq, Result, ok, map_err, ok_or, guard,
  ◌>>=◌, ◌>>◌, Action, if◌then◌else◌,
}
use baa_ls.Prelude.Actions
use baa_ls.Types.{
  Block, Transaction, ChainState, Codec, Crypto, Bincode, zero_hash, block_hash, verify_signature,
}
use baa_ls.Storage.{put, StorageBatch, Storage}
use baa_ls.Consensus.{next_u64}
use baa_ls.Ledger.{
  LedgerError, storage_error, crypto_error, block_validation, invalid_index, invalid_previous_hash,
  invalid_hash, timestamp_not_greater, invalid_transaction_signature, serialization_error,
  not_found,
}

-- `bincode::serialize(..)?`
abbrev pub serialize : {A : Type 0} → Codec A → A → Result LedgerError Bytes
serialize k a = ok_or (k.serialize a) serialization_error

module _ (c : Crypto) (b : Bincode) where
  abbrev pub unhashed_genesis : Block
  unhashed_genesis = record {
    index = 0;
    timestamp = 0;
    prev_hash = zero_hash;
    hash = zero_hash;
    nonce = 0;
    transactions = [];
    metadata = none;
  }

  -- the genesis block, with its hash
  unfoldable pub genesis_block : Result LedgerError Block
  genesis_block = do
    h ← map_err crypto_error (block_hash c b unhashed_genesis)
    ok (record unhashed_genesis { hash = h })

  abbrev pub initial_chain_state : Block → ChainState
  initial_chain_state genesis = record {
    latest_block_hash = genesis.hash;
    latest_block_index = 0;
    accounts_root_hash = zero_hash;
    total_supply = 0;
  }

  -- the batch that `initialize_chain` writes
  unfoldable pub genesis_batch : Result LedgerError StorageBatch
  unfolding genesis_block
  genesis_batch = do
    genesis ← genesis_block
    hash_key ← serialize b.hash_codec genesis.hash
    encoded ← serialize b.block_codec genesis
    state_key ← serialize b.text_codec (codes "global:current")
    state ← serialize b.chain_state_codec (initial_chain_state genesis)
    ok (put hash_key encoded ∷ put state_key state ∷ [])

module _ {S : Type 0} (storage : Storage S) (c : Crypto) (b : Bincode) where
  unfoldable pub create_genesis : Action S LedgerError Unit
  unfolding genesis_batch
  create_genesis s =
      Actions.continue (genesis_batch c b)
        (λ batch. Actions.with_error storage_error (storage.apply_batch batch)) s

  -- `Ledger::initialize_chain`
  unfoldable pub initialize_chain : Action S LedgerError Unit
  initialize_chain s =
      Actions.continue (map_err storage_error (storage.get_chain_state s))
        (elim [ some existing ↦ Actions.pure tt | none ↦ create_genesis ]) s

  unfoldable pub check_timestamp : Block → S → Result LedgerError Unit
  check_timestamp block s =
      if ltb 0 block.index
      then (do
        found ← map_err storage_error (storage.get_block block.prev_hash s)
        parent ← ok_or found not_found
        guard (ltb parent.timestamp block.timestamp) (block_validation timestamp_not_greater))
      else ok tt

  unfoldable pub check_signatures : List Transaction → Result LedgerError Unit
  check_signatures [] = ok tt
  check_signatures (tx ∷ rest) = do
    verified ← map_err crypto_error (verify_signature c b tx)
    guard verified (block_validation (invalid_transaction_signature tx.hash))
    check_signatures rest

  -- `Ledger::validate_block`
  unfoldable pub validate_block : Block → ChainState → S → Result LedgerError Unit
  validate_block block current s = do
    let expected = next_u64 current.latest_block_index
    guard (block.index == expected) (block_validation (invalid_index expected block.index))
    guard (bytes_eq block.prev_hash current.latest_block_hash)
        (block_validation (invalid_previous_hash current.latest_block_hash block.prev_hash))
    calculated_hash ← map_err crypto_error (block_hash c b block)
    guard (bytes_eq calculated_hash block.hash)
        (block_validation (invalid_hash calculated_hash block.hash))
    check_timestamp block s
    check_signatures block.transactions
