-- ===== src/Runtime/Threads.antt =====
-- src/runtime.rs: `submit_transaction` and `produce_block` cut at their calls of `lock()`, so that
-- threads interleave. From one `lock()` to the next a thread touches what it has locked, and the
-- store; nothing else that runs here writes the store but a thread with the chain state locked.
pub mod Alone
pub mod Waiting
pub mod Submitters
pub mod OneMove
pub mod Together
pub mod Progress
use baa_ls.Prelude.{
  ◌≡◌, true, false, leb, Option, none, some, List, [], ◌∷◌, ◌++◌, Result, ok, err, Outcome, returns,
  blocks, if◌then◌else◌, ℕ, zero, suc,
}
use baa_ls.Types.{Transaction, Block, ChainState, Account, Crypto, Bincode, verify_signature}
use baa_ls.Storage.{Storage}
use baa_ls.Contracts.{ContractEngine}
use baa_ls.Consensus.{ConsensusEngine, no_pending_transactions}
use baa_ls.Ledger.Validation.{validate_block}
use baa_ls.Ledger.Application.{apply_block}
use baa_ls.Runtime.{
  bad_signature, chain_state_lock, mempool_lock, nonce_too_low, RuntimeError, storage_error,
  ledger_error, consensus_error, crypto_error, invalid_transaction, acquired, poison, never, Mutex,
  lock, hold, store_value, Runtime,
}
use baa_ls.Runtime.Calls.{stored_nonce, not_found}

-- Where a thread is: before a call, at a `lock()` in it, or behind it.
pub data Thread : Type 0 where
  submitting : Transaction → Thread
  -- the signature is verified
  at_chain_state : Transaction → Thread
  -- the nonce is checked; the chain state is locked by this thread
  at_mempool : Transaction → Thread
  submitted : Transaction → Result RuntimeError (Unit {0}) → Thread
  producing : Thread
  -- the mempool is locked by this thread
  at_head : Thread
  -- the block is made; the chain state is locked by this thread
  at_second_lock : Block → Thread
  -- the block is applied; the chain state is locked by this thread
  at_clearing : Block → Thread
  produced : Result RuntimeError Block → Thread

-- the mutex with its guard dropped
abbrev pub release : {A : Type 0} → Mutex A → Mutex A
release m = record m { held = false }

-- the value written through a guard that stays alive
abbrev pub write_value : {A : Type 0} → Mutex A → A → Mutex A
write_value m a = record m { value = a; held = true }

module _ {S : Type 0} (storage : Storage S) (engine : ContractEngine S)
    (consensus : ConsensusEngine) (c : Crypto) (b : Bincode) where
  -- What a thread comes to; `none` where it waits or has ended.
  abbrev pub Move : Type 0
  Move = Option (Thread × Runtime S)

  -- `submit_transaction`, up to its first `lock()`
  unfoldable pub check_signature : Transaction → Runtime S → Move
  check_signature tx w = elim (verify_signature c b tx) [
    | err e ↦ some (submitted tx (err (crypto_error e)), w)
    | ok false ↦ some (submitted tx (err (invalid_transaction bad_signature)), w)
    | ok true ↦ some (at_chain_state tx, w)
  ]

  -- with the chain state locked, up to the second `lock()`
  unfoldable pub check_sender : Transaction → Runtime S → Move
  check_sender tx w = elim (storage.get_account tx.sender w.storage) [
    | err e ↦ some (submitted tx (err (storage_error e)), w)
    | ok found ↦
        (if leb tx.nonce (stored_nonce storage engine consensus c b found)
          then some (
            submitted tx (
                err (
                  invalid_transaction
                    (nonce_too_low (stored_nonce storage engine consensus c b found) tx.nonce))),
            w,
          )
          else some (at_mempool tx, record w { chain_state = hold w.chain_state }))
  ]

  -- `produce_block` with both locked, up to the second `lock()` of the chain state
  unfoldable pub make_block : ChainState → Runtime S → Move
  make_block current w = elim (storage.get_block current.latest_block_hash w.storage) [
    | err e ↦ some (produced (err (storage_error e)), record w { mempool = release w.mempool })
    | ok none ↦ some (produced (err not_found), record w { mempool = release w.mempool })
    | ok (some prev_block) ↦ elim (consensus.generate_block w.mempool.value prev_block current) [
      | err e ↦ some (produced (err (consensus_error e)), record w { mempool = release w.mempool })
      | ok new_block ↦ some (
        at_second_lock new_block,
        record w { mempool = release w.mempool; chain_state = hold w.chain_state },
      )
    ]
  ]

  -- with the second guard of the chain state, up to the last `lock()`
  unfoldable pub write_block : Block → ChainState → Runtime S → Move
  write_block new_block current w = elim (validate_block storage c b new_block current w.storage) [
    | err e ↦
        some (produced (err (ledger_error e)), record w { chain_state = release w.chain_state })
    | ok done ↦
        (let (r, l) =
            apply_block storage engine b new_block
              (record { storage = w.storage; chain_state = current }) in
          elim r [
            | err e ↦ some (
              produced (err (ledger_error e)),
              record w {
                storage = l.storage;
                chain_state = store_value w.chain_state l.chain_state;
              },
            )
            | ok applied ↦ some (
              at_clearing new_block,
              record w {
                storage = l.storage;
                chain_state = write_value w.chain_state l.chain_state;
              },
            )
          ])
  ]

  unfoldable pub move : Thread → Runtime S → Move
  unfolding check_signature check_sender make_block write_block lock
  move (submitting tx) w = check_signature tx w
  move (at_chain_state tx) w = elim (lock w.chain_state) [
    | never ↦ none
    | poison ↦ some (submitted tx (err (invalid_transaction chain_state_lock)), w)
    | acquired current ↦ check_sender tx w
  ]
  move (at_mempool tx) w = elim (lock w.mempool) [
    | never ↦ none
    | poison ↦ some (
      submitted tx (err (invalid_transaction mempool_lock)),
      record w { chain_state = release w.chain_state },
    )
    | acquired pending ↦ some (
      submitted tx (ok tt),
      record w {
        mempool = store_value w.mempool (pending ++ tx ∷ []);
        chain_state = release w.chain_state;
      },
    )
  ]
  move (submitted tx r) w = none
  move producing w = elim (lock w.mempool) [
    | never ↦ none
    | poison ↦ some (produced (err (invalid_transaction mempool_lock)), w)
    | acquired [] ↦ some (produced (err (consensus_error no_pending_transactions)), w)
    | acquired (tx ∷ rest) ↦ some (at_head, record w { mempool = hold w.mempool })
  ]
  move at_head w = elim (lock w.chain_state) [
    | never ↦ none
    | poison ↦ some (
      produced (err (invalid_transaction chain_state_lock)),
      record w { mempool = release w.mempool },
    )
    | acquired current ↦ make_block current w
  ]
  move (at_second_lock new_block) w = elim (lock w.chain_state) [
    | never ↦ none
    | poison ↦ some (
      produced (err (invalid_transaction chain_state_lock)),
      record w { chain_state = release w.chain_state },
    )
    | acquired current ↦ write_block new_block current w
  ]
  move (at_clearing new_block) w = elim (lock w.mempool) [
    | never ↦ none
    | poison ↦ some (
      produced (err (invalid_transaction mempool_lock)),
      record w { chain_state = release w.chain_state },
    )
    | acquired pending ↦ some (
      produced (ok new_block),
      record w { mempool = store_value w.mempool []; chain_state = release w.chain_state },
    )
  ]
  move (produced r) w = none

  -- One of the threads moves.
  pub data Moves : List Thread → Runtime S → List Thread → Runtime S → Type 0 where
    here :
        {t t' : Thread} {ts : List Thread} {w w' : Runtime S}
        → move t w ≡ some (t', w')
        → Moves (t ∷ ts) w (t' ∷ ts) w'
    there :
        (t : Thread) {ts ts' : List Thread} {w w' : Runtime S}
        → Moves ts w ts' w'
        → Moves (t ∷ ts) w (t ∷ ts') w'

  -- Threads interleave, from the first configuration to the second.
  pub data Runs (ts : List Thread) (w : Runtime S) : List Thread → Runtime S → Type 0 where
    rests : Runs ts w ts w
    moves :
        {ts' ts'' : List Thread} {w' w'' : Runtime S}
        → Runs ts w ts' w'
        → Moves ts' w' ts'' w''
        → Runs ts w ts'' w''

  -- a thread that runs on its own, for so many moves at most
  unfoldable pub drive : ℕ → Thread → Runtime S → Thread × Runtime S
  unfolding move
  drive zero t w = (t, w)
  drive (suc fuel) t w = elim (move t w) [ none ↦ (t, w) | some (t', w') ↦ drive fuel t' w' ]
