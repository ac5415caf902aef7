-- ===== src/Ledger.antt =====
-- src/ledger.rs: the errors and the chain's start. The validation and the application of blocks are
-- in the modules below. A formatted message is kept as the values that it shows.
pub mod Validation
pub mod Validity
pub mod Transactions
pub mod Transfers
pub mod Permission
pub mod SelfTransfer
pub mod Nonces
pub mod Replay
pub mod Application
pub mod Frame
pub mod Outcome
pub mod Chain
pub mod History
pub mod BatchKeys
pub mod WellFormed
pub mod DoubleSpend
pub mod Acceptance
pub mod Independent
pub mod Reordering
pub mod Deployment
pub mod LastWrite
use baa_ls.Types.{CryptoError, PublicKey, Hash, ChainState}
use baa_ls.Prelude.{ℕ, Bytes}
use baa_ls.Storage.{StorageError}
use baa_ls.Contracts.{ContractError}

-- The messages of `LedgerError::BlockValidation`, expected before got.
pub data BlockFault : Type 0 where
  invalid_index : ℕ → ℕ → BlockFault
  invalid_previous_hash invalid_hash : Hash → Hash → BlockFault
  timestamp_not_greater : BlockFault
  invalid_transaction_signature : Hash → BlockFault

-- The messages of `LedgerError::StateTransition`.
pub data TransitionFault : Type 0 where
  sender_not_in_update_map sender_not_wallet transfer_to_contract recipient_not_wallet :
      TransitionFault

pub data LedgerError : Type 0 where
  storage_error : StorageError → LedgerError
  crypto_error : CryptoError → LedgerError
  block_validation : BlockFault → LedgerError
  state_transition : TransitionFault → LedgerError
  account_not_found insufficient_balance : PublicKey → LedgerError
  -- account, expected, got
  invalid_nonce : PublicKey → ℕ → ℕ → LedgerError
  contract_not_found wasm_validation_failed : Bytes → LedgerError
  invalid_transaction_payload serialization_error not_found : LedgerError
  contract_error : ContractError → LedgerError

-- What `apply_block` works on: the store and the chain state that the caller passes in.
pub record LedgerState (S : Type 0) : Type 0 where
  pub storage : S
  pub chain_state : ChainState
