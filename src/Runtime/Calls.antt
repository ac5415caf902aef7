-- ===== src/Runtime/Calls.antt =====
-- src/runtime.rs: `Runtime::new`, `submit_transaction`, `produce_block` and the queries.
use baa_ls.Prelude.{
  ℕ, true, false, leb, Option, none, some, List, [], ◌∷◌, ◌++◌, Bytes, Result, ok, err, map_err,
  ok_or, returns, blocks, ◌>>=◌, ◌>>◌, if◌then◌else◌,
}
use baa_ls.Types.{
  PublicKey, ContractId, Hash, Transaction, Block, ChainState, Account, wallet_account,
  account_nonce, Crypto, Bincode, verify_signature,
}
use baa_ls.Storage.{Storage, StorageError}
use baa_ls.Contracts.{ContractEngine}
use baa_ls.Consensus.{ConsensusEngine, no_pending_transactions}
use baa_ls.Ledger.Validation.{initialize_chain, validate_block}
use baa_ls.Ledger.Application.{apply_block}
use baa_ls.Runtime.{
  bad_signature, chain_state_lock, mempool_lock, nonce_too_low, RuntimeError, storage_error,
  ledger_error, consensus_error, crypto_error, chain_initialization_error, invalid_transaction,
  acquired, poison, never, lock, unlocked, hold, store_value, Runtime, Call,
}
use baa_ls.Storage

abbrev pub not_found : RuntimeError
not_found = storage_error Storage.not_found

-- `Runtime::generate_signing_key` and `Runtime::generate_keypair`, on the 32 bytes that `OsRng` gives
abbrev pub generate_signing_key : Bytes → Result RuntimeError Bytes
generate_signing_key random = ok random

abbrev pub generate_keypair : Bytes → Result RuntimeError Bytes
generate_keypair random = ok random

module _ {S : Type 0} (storage : Storage S) (engine : ContractEngine S)
    (consensus : ConsensusEngine) (c : Crypto) (b : Bincode) where
  -- `Runtime::new`, with the store that it leaves
  unfoldable pub new : S → Result RuntimeError (Runtime S) × S
  new s =
      let (r, s') = initialize_chain storage c b s in
      (
        (do
          map_err ledger_error r
          found ← map_err storage_error (storage.get_chain_state s')
          initial_chain_state ← ok_or found chain_initialization_error
          ok (record {
            storage = s';
            mempool = unlocked [];
            chain_state = unlocked initial_chain_state;
            is_running = unlocked false;
          })),
        s',
      )

  -- `Runtime::start` and `Runtime::stop` only print
  abbrev pub start : Runtime S → Result RuntimeError Unit
  start w = ok tt

  abbrev pub stop : Runtime S → Result RuntimeError Unit
  stop w = ok tt

  -- the nonce of the sender's account; without an account it is that of an empty wallet
  abbrev pub stored_nonce : Option Account → ℕ
  stored_nonce none = account_nonce (wallet_account 0 0)
  stored_nonce (some account) = account_nonce account

  -- the guard of the chain state is alive: a thread that waits here keeps it
  unfoldable pub push_transaction : Transaction → Call S Unit
  push_transaction tx w = elim (lock w.mempool) [
    | never ↦ (blocks, record w { chain_state = hold w.chain_state })
    | poison ↦ (returns (err (invalid_transaction mempool_lock)), w)
    | acquired pending ↦
        (returns (ok tt), record w { mempool = store_value w.mempool (pending ++ tx ∷ []) })
  ]

  unfoldable pub check_nonce : Transaction → Call S Unit
  check_nonce tx w = elim (storage.get_account tx.sender w.storage) [
    | err e ↦ (returns (err (storage_error e)), w)
    | ok found ↦
        (if leb tx.nonce (stored_nonce found)
          then (
            returns (err (invalid_transaction (nonce_too_low (stored_nonce found) tx.nonce))),
            w,
          )
          else push_transaction tx w)
  ]

  -- `Runtime::submit_transaction`; the guard of the chain state lives to the end of the call
  unfoldable pub submit_transaction : Transaction → Call S Unit
  unfolding push_transaction check_nonce account_nonce
  submit_transaction tx w = elim (verify_signature c b tx) [
    | err e ↦ (returns (err (crypto_error e)), w)
    | ok false ↦ (returns (err (invalid_transaction bad_signature)), w)
    | ok true ↦ elim (lock w.chain_state) [
      | never ↦ (blocks, w)
      | poison ↦ (returns (err (invalid_transaction chain_state_lock)), w)
      | acquired current ↦ check_nonce tx w
    ]
  ]

  -- the end of `produce_block`: the mempool is emptied
  unfoldable pub clear_mempool : Block → Call S Block
  clear_mempool new_block w = elim (lock w.mempool) [
    | never ↦ (blocks, w)
    | poison ↦ (returns (err (invalid_transaction mempool_lock)), w)
    | acquired pending ↦ (returns (ok new_block), record w { mempool = store_value w.mempool [] })
  ]

  -- `produce_block` with the chain state locked for writing: validate, apply, clear. The broadcast
  -- is a detached task that touches no field.
  unfoldable pub commit_block : Block → ChainState → Call S Block
  unfolding clear_mempool
  commit_block new_block current w = elim (validate_block storage c b new_block current w.storage) [
    | err e ↦ (returns (err (ledger_error e)), w)
    | ok done ↦
        (let (r, l) =
            apply_block storage engine b new_block
              (record { storage = w.storage; chain_state = current }) in
          let w' = record w {
            storage = l.storage;
            chain_state = store_value w.chain_state l.chain_state;
          } in
          elim r [
            | err e ↦ (returns (err (ledger_error e)), w')
            | ok applied ↦ clear_mempool new_block w'
          ])
  ]

  -- the second `self.chain_state.lock()`
  unfoldable pub lock_for_writing : Block → Call S Block
  lock_for_writing new_block w = elim (lock w.chain_state) [
    | never ↦ (blocks, w)
    | poison ↦ (returns (err (invalid_transaction chain_state_lock)), w)
    | acquired current ↦ commit_block new_block current w
  ]

  -- with both guards taken; `drop(mempool)` releases the first only
  unfoldable pub generate : List Transaction → ChainState → Call S Block
  generate pending current w = elim (storage.get_block current.latest_block_hash w.storage) [
    | err e ↦ (returns (err (storage_error e)), w)
    | ok none ↦ (returns (err not_found), w)
    | ok (some prev_block) ↦ elim (consensus.generate_block pending prev_block current) [
      | err e ↦ (returns (err (consensus_error e)), w)
      | ok new_block ↦ lock_for_writing new_block (record w { chain_state = hold w.chain_state })
    ]
  ]

  -- the guard of the mempool is alive: a thread that waits here keeps it
  unfoldable pub lock_for_reading : List Transaction → Call S Block
  lock_for_reading [] w = (returns (err (consensus_error no_pending_transactions)), w)
  lock_for_reading (tx ∷ rest) w = elim (lock w.chain_state) [
    | never ↦ (blocks, record w { mempool = hold w.mempool })
    | poison ↦ (returns (err (invalid_transaction chain_state_lock)), w)
    | acquired current ↦ generate (tx ∷ rest) current w
  ]

  -- `Runtime::produce_block`
  unfoldable pub produce_block : Call S Block
  unfolding lock_for_writing generate lock_for_reading
  produce_block w = elim (lock w.mempool) [
    | never ↦ (blocks, w)
    | poison ↦ (returns (err (invalid_transaction mempool_lock)), w)
    | acquired pending ↦ lock_for_reading pending w
  ]

  -- `Runtime::get_chain_state`
  unfoldable pub get_chain_state : Call S ChainState
  get_chain_state w = elim (lock w.chain_state) [
    | never ↦ (blocks, w)
    | poison ↦ (returns (err (invalid_transaction chain_state_lock)), w)
    | acquired current ↦ (returns (ok current), w)
  ]

  -- the queries that pass on to the store
  abbrev pub get_block : Hash → Runtime S → Result RuntimeError (Option Block)
  get_block hash w = map_err storage_error (storage.get_block hash w.storage)

  abbrev pub get_transaction : Hash → Runtime S → Result RuntimeError (Option Transaction)
  get_transaction tx_hash w = map_err storage_error (storage.get_transaction tx_hash w.storage)

  abbrev pub get_block_by_height : ℕ → Runtime S → Result RuntimeError (Option Block)
  get_block_by_height height w =
      map_err storage_error (storage.get_block_by_height height w.storage)

  abbrev pub get_account : PublicKey → Runtime S → Result RuntimeError (Option Account)
  get_account address w = map_err storage_error (storage.get_account address w.storage)

  abbrev pub contract_storage_read :
      ContractId → Bytes → Runtime S → Result RuntimeError (Option Bytes)
  contract_storage_read contract_id key w =
      map_err storage_error (storage.contract_storage_read contract_id key w.storage)
