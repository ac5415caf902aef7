-- ===== src/Tests/Stores.antt =====
-- The sled store on logs.
use baa_ls.Prelude.{
  codes, some, Bytes, replicate, ◌⊎◌, ◌≢◌, ◌++◌, ◌≡◌, refl, none, List, [], ◌∷◌, ok, arith,
}
use baa_ls.Types.{Block, zero_hash, ContractId, wallet_account}
use baa_ls.SledStorage.{SledStorage, height_prefix}
use baa_ls.SledStorage.Latest.{IsIndexed, NoBlocks, Highest, get_latest_block-Highest}
use baa_ls.SledStorage.Pending.{get_pending_transactions-run}
use baa_ls.SledStorage.Indexing.{put_block-IsIndexed}
use baa_ls.Fixtures.Scan.{log_scans}
use baa_ls.SledStorage.Laws.{RoundTrips}
use baa_ls.SledStorage.Operations.{
  index_transaction, get_transactions_by_block, put_block, get_block, get_block_by_height,
  get_account, get_pending_transactions, get_chain_state, get_transaction, get_contract_code,
  contract_storage_read, read_entry,
}
use baa_ls.SledStorage.Specification.{Write, View, Represents, specified_run, run}
use baa_ls.SledStorage.Refinement.{run_refined}
use baa_ls.SledStorage.IndexEntries.{IsIndex, index_transaction-IsIndex}
use baa_ls.SledStorage.TransactionIndex.{Answers, get_transactions_by_block-Answers}
use baa_ls.Fixtures.Log.{Log, log_sled, find, log_laws, log_works, digits, digits_laws}
use baa_ls.Fixtures.Codecs.{toy_bincode, alice, block_of}
use baa_ls.Fixtures.Data.{empty_store, head_block, head_hash, storage}

pub block_trip : RoundTrips toy_bincode.block_codec head_block
block_trip = record { encoded = 4 ∷ 50 ∷ head_hash; serialize_lem = refl; deserialize_lem = refl }

nothing-IsIndexed : IsIndexed log_sled log_laws toy_bincode []
unfolding find
nothing-IsIndexed = record { indexed = λ rest encoded e. absurd (cc) }

head_apart : (rest : Bytes) → head_hash ≢ height_prefix ++ rest
head_apart rest e = cc

-- The store with the head block, and that with a block on top of it.
abbrev stored : SledStorage Log
stored = (put_block log_sled toy_bincode digits head_block empty_store).1

stored-IsIndexed : IsIndexed log_sled log_laws toy_bincode stored.blocks_tree
stored-IsIndexed =
    put_block-IsIndexed log_sled log_laws toy_bincode digits head_block empty_store block_trip
      head_apart (omega arith) nothing-IsIndexed

abbrev next_block : Block
next_block = block_of 5 51 zero_hash (replicate 32 8) []

next_trip : RoundTrips toy_bincode.block_codec next_block
next_trip = record {
  encoded = 5 ∷ 51 ∷ replicate 32 8;
  serialize_lem = refl;
  deserialize_lem = refl;
}

next_apart : (rest : Bytes) → replicate 32 8 ≢ height_prefix ++ rest
next_apart rest e = cc

put_block-IsIndexed_example :
    IsIndexed log_sled log_laws toy_bincode
      (put_block log_sled toy_bincode digits next_block stored).1.blocks_tree
put_block-IsIndexed_example =
    put_block-IsIndexed log_sled log_laws toy_bincode digits next_block stored next_trip next_apart
      (omega arith) stored-IsIndexed

get_latest_block-Highest_example :
    NoBlocks log_sled log_laws log_works log_scans toy_bincode digits stored
    ⊎ ((block : Block) × Highest log_sled log_laws log_works log_scans toy_bincode digits stored
          block)
get_latest_block-Highest_example =
    get_latest_block-Highest log_sled log_laws log_works log_scans toy_bincode digits stored
      stored-IsIndexed

abbrev empty_view : View
empty_view = record {
  block = λ hash. ok none;
  block_by_height = λ height. ok none;
  transaction = λ hash. ok none;
  account = λ address. ok none;
  chain_state = ok none;
  contract_code = λ id. ok none;
  contract_value = λ id key. ok none;
}

empty-Represents : Represents storage empty_view empty_store
unfolding get_block get_block_by_height get_transaction get_account get_chain_state
    get_contract_code contract_storage_read read_entry find
empty-Represents = record {
  block_lem = λ hash size. refl;
  block_by_height_lem = λ height fits. refl;
  transaction_lem = λ hash. refl;
  account_lem = λ address. refl;
  chain_state_lem = refl;
  contract_code_lem = λ id. refl;
  contract_value_lem = λ id key size. refl;
}

abbrev token : ContractId
token = record { id = replicate 32 2 }

-- a block, an account, and a value that is written and removed
abbrev writes : List Write
writes =
    Write.put_block head_block
    ∷ Write.put_account alice (wallet_account 10 4)
    ∷ Write.contract_storage_write token (5 ∷ []) (8 ∷ [])
    ∷ Write.contract_storage_remove token (5 ∷ [])
    ∷ []

run_refined_example :
    ((run storage writes empty_store).0 ≡ (specified_run toy_bincode writes empty_view).0)
    × Represents storage
        (specified_run toy_bincode writes empty_view).1
        (run storage writes empty_store).1
run_refined_example =
    run_refined log_sled log_laws log_works toy_bincode digits digits_laws writes empty_view
      empty_store ((refl, omega arith), (tt, (refl, (refl, tt)))) empty-Represents

-- a transaction that is stored, and then indexed under the head block
abbrev unindexed : SledStorage Log
unindexed = record empty_store { transactions_tree = (zero_hash, some (5 ∷ zero_hash)) ∷ [] }

abbrev indexed : SledStorage Log
indexed = (index_transaction log_sled toy_bincode digits zero_hash head_hash 0 unindexed).1

empty-IsIndex : IsIndex log_sled log_laws log_scans toy_bincode digits digits_laws []
unfolding find
empty-IsIndex key value e = absurd (cc)

get_transactions_by_block-Answers_example :
    Answers log_sled log_laws log_scans toy_bincode digits digits_laws head_hash indexed
      (get_transactions_by_block log_sled toy_bincode digits head_hash indexed)
get_transactions_by_block-Answers_example =
    get_transactions_by_block-Answers log_sled log_laws log_scans toy_bincode digits digits_laws
      head_hash indexed refl
      (index_transaction-IsIndex log_sled log_laws log_scans toy_bincode digits digits_laws
        zero_hash head_hash 0 unindexed refl refl empty-IsIndex)

-- a pending transaction, and calls of which one means to remove it
abbrev pending : SledStorage Log
pending = record empty_store {
  mempool_tree = (codes "pending:" ++ alice.bytes, some (5 ∷ alice.bytes)) ∷ [];
}

abbrev removals : List Write
removals =
    Write.put_account alice (wallet_account 10 4)
    ∷ Write.remove_pending_transaction alice.bytes
    ∷ []

unprefixed : (rest : Bytes) → alice.bytes ≢ codes "pending:" ++ rest
unprefixed rest e = cc

get_pending_transactions-run_example :
    get_pending_transactions log_sled toy_bincode digits (run storage removals pending).1
    ≡ get_pending_transactions log_sled toy_bincode digits pending
get_pending_transactions-run_example =
    get_pending_transactions-run log_sled log_laws log_scans toy_bincode digits removals pending
      (tt, (unprefixed, tt))
