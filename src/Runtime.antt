-- ===== src/Runtime.antt =====
-- src/runtime.rs: the errors, the locks and the state of `Runtime`; the calls are below.
--
-- A call runs on one thread. A `std::sync::Mutex` records whether it is held, by that thread or by
-- one that waits: locking it never returns then. A poisoned lock gives an error. On a return the
-- guards are dropped; a thread that waits keeps those that it has.
pub mod Calls
pub mod Deadlock
pub mod Submission
pub mod Commit
pub mod Steps
pub mod Threads
use baa_ls.Prelude.{ℕ, Bool, true, false, List, Result, Outcome, if◌then◌else◌}
use baa_ls.Types.{CryptoError, Transaction, ChainState}
use baa_ls.Storage.{StorageError}
use baa_ls.Consensus.{ConsensusError}
use baa_ls.Ledger.{LedgerError}

-- The messages of `RuntimeError::InvalidTransaction`; the nonces are the account's and the one got.
pub data InvalidReason : Type 0 where
  bad_signature chain_state_lock mempool_lock : InvalidReason
  nonce_too_low : ℕ → ℕ → InvalidReason

pub data RuntimeError : Type 0 where
  storage_error : StorageError → RuntimeError
  ledger_error : LedgerError → RuntimeError
  consensus_error : ConsensusError → RuntimeError
  crypto_error : CryptoError → RuntimeError
  chain_initialization_error keypair_generation_error already_running not_running : RuntimeError
  invalid_transaction : InvalidReason → RuntimeError

pub record Mutex (A : Type 0) : Type 0 where
  pub value : A
  pub held : Bool
  pub poisoned : Bool

-- What `lock()` does.
pub data Locking (A : Type 0) : Type 0 where
  acquired : A → Locking A
  poison : Locking A
  never : Locking A

unfoldable pub lock : {A : Type 0} → Mutex A → Locking A
lock m = if m.held then never else if m.poisoned then poison else acquired m.value

-- `Mutex::new`
abbrev pub unlocked : {A : Type 0} → A → Mutex A
unlocked a = record { value = a; held = false; poisoned = false }

-- the mutex with its guard alive
abbrev pub hold : {A : Type 0} → Mutex A → Mutex A
hold m = record m { held = true }

-- the value written through a guard that is dropped then
abbrev pub store_value : {A : Type 0} → Mutex A → A → Mutex A
store_value m a = record m { value = a; held = false }

-- The fields that change. The store is shared with the ledger and the contract engine.
pub record Runtime (S : Type 0) : Type 0 where
  pub storage : S
  pub mempool : Mutex (List Transaction)
  pub chain_state : Mutex ChainState
  pub is_running : Mutex Bool

abbrev pub Call : Type 0 → Type 0 → Type 0
Call S A = Runtime S → Outcome RuntimeError A × Runtime S
