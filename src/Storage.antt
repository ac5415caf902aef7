-- ===== src/Storage.antt =====
-- src/storage.rs, the trait `Storage` with its errors and batches. Methods that only read are
-- functions of the store; methods that write return the store that they leave, also on an error.
use baa_ls.Prelude.{ℕ, Option, List, Bytes, Result, Action}
use baa_ls.Types.{CryptoError, Hash, PublicKey, ContractId, Transaction, Block, ChainState, Account}

-- The text of a database or bincode error is left out.
pub data StorageError : Type 0 where
  database_error not_found serialization_error : StorageError
  crypto_error : CryptoError → StorageError

pub data StorageOperation : Type 0 where
  put : Bytes → Bytes → StorageOperation
  delete : Bytes → StorageOperation

-- `StorageBatch`, by its field `ops`.
abbrev pub StorageBatch : Type 0
StorageBatch = List StorageOperation

abbrev pub Reads : Type 0 → Type 0 → Type 0
Reads S A = S → Result StorageError A

abbrev pub Writes : Type 0 → Type 0
Writes S = Action S StorageError (Unit {0})

-- The trait.
pub record Storage (S : Type 0) : Type 0 where
  pub put_block : Block → Writes S
  pub get_block : Hash → Reads S (Option Block)
  pub get_latest_block : Reads S (Option Block)
  pub get_chain_height : Reads S ℕ
  pub get_block_by_height : ℕ → Reads S (Option Block)
  pub put_transaction : Transaction → Writes S
  pub get_transaction : Hash → Reads S (Option Transaction)
  pub get_pending_transactions : Reads S (List Transaction)
  pub remove_pending_transaction : Hash → Writes S
  pub index_transaction : Hash → Hash → ℕ → Writes S
  pub get_transaction_by_id : Hash → Reads S (Option Transaction)
  pub get_transactions_by_block : Hash → Reads S (List Transaction)
  pub put_account : PublicKey → Account → Writes S
  pub get_account : PublicKey → Reads S (Option Account)
  pub delete_account : PublicKey → Writes S
  pub put_chain_state : ChainState → Writes S
  pub get_chain_state : Reads S (Option ChainState)
  pub put_contract_code : ContractId → Bytes → Writes S
  pub get_contract_code : ContractId → Reads S (Option Bytes)
  pub contract_storage_read : ContractId → Bytes → Reads S (Option Bytes)
  pub contract_storage_write : ContractId → Bytes → Bytes → Writes S
  pub contract_storage_remove : ContractId → Bytes → Writes S
  pub apply_batch : StorageBatch → Writes S
