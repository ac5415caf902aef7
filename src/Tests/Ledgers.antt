-- ===== src/Tests/Ledgers.antt =====
-- Ledgers that grow, and blocks in another order.
use mathlib.Core.List.{Permᴰ}
use baa_ls.Prelude.{◌⊎◌, ◌≡◌, ◌↔◌, refl, [], ◌∷◌, ok, arith, All, bytes_eq, to_le_bytes}
use baa_ls.Types.{Block, block_hash, block_hash_input, metadata_input}
use baa_ls.Types.Commitment.{Collision, IsBlockSized}
use baa_ls.Storage.{StorageBatch}
use baa_ls.SledStorage.{SledStorage, sled_batch}
use baa_ls.SledStorage.Operations.{get_block, read_entry, apply_batch}
use baa_ls.Ledger.{LedgerState}
use baa_ls.Ledger.Validation.{validate_block, check_timestamp, check_signatures}
use baa_ls.Ledger.Transactions.{Accounts, apply_transactions}
use baa_ls.Ledger.Application.{
  apply_block, account_puts, chain_state_put, advance, finish_block, index_transactions,
  write_block,
}
use baa_ls.Ledger.Acceptance.{CanApply, apply_transactions_iff}
use baa_ls.Ledger.Chain.{Grows, starts, extends, IsChain, Grows-IsChain}
use baa_ls.Ledger.History.{one_history}
use baa_ls.Ledger.Reordering.{apply_transactions_reordered}
use baa_ls.Fixtures.Log.{Log, find, write_all}
use baa_ls.Fixtures.Codecs.{
  toy_crypto, toy_bincode, strict_bincode, transactions_delimited, metadata_delimited,
  metadata_nonempty, block_of,
}
use baa_ls.Fixtures.Data.{head_hash, head_state, head_store, payment, storage, engine}
use baa_ls.Tests.Chain.{made_hash, made_block}
use baa_ls.Tests.Node.{start, accepted, applied}
use baa_ls.Tests.Block.{
  two_wallets, to_dave, alice_payment, carol_payment, both, both-IsIndependent,
}

Grows-IsChain_example :
    IsChain storage engine toy_crypto toy_bincode head_state
      (made_block ∷ [])
      (apply_block storage engine toy_bincode made_block start).1.chain_state
Grows-IsChain_example =
    Grows-IsChain storage engine toy_crypto toy_bincode (extends made_block starts accepted applied)

-- a block without transactions
abbrev empty_block : Block
empty_block = block_of 5 51 head_hash made_hash []

empty_accepted :
    validate_block storage toy_crypto strict_bincode empty_block head_state head_store ≡ ok tt
unfolding validate_block check_timestamp check_signatures get_block read_entry find bytes_eq
    block_hash block_hash_input to_le_bytes metadata_input
empty_accepted = refl

empty_applied : (apply_block storage engine strict_bincode empty_block start).0 ≡ ok tt
unfolding apply_block apply_transactions account_puts advance chain_state_put finish_block
    index_transactions write_block apply_batch sled_batch write_all
empty_applied = refl

abbrev grown : LedgerState (SledStorage Log)
grown = (apply_block storage engine strict_bincode empty_block start).1

abbrev growth : Grows storage engine toy_crypto strict_bincode start (empty_block ∷ []) grown
growth = extends empty_block starts empty_accepted empty_applied

empty_sized : All IsBlockSized (empty_block ∷ [])
empty_sized = (
  record {
    index_fits = omega arith;
    timestamp_fits = omega arith;
    nonce_fits = omega arith;
    prev_hash_size = refl;
  },
  tt,
)

one_history_example :
    ((empty_block ∷ [] ≡ empty_block ∷ []) × (grown ≡ grown)) ⊎ Collision toy_crypto
one_history_example =
    one_history storage engine toy_crypto strict_bincode transactions_delimited metadata_delimited
      metadata_nonempty growth growth empty_sized empty_sized (omega arith) (omega arith) refl refl

apply_transactions_reordered_example :
    (accounts : Accounts) × (ops : StorageBatch) × (ops' : StorageBatch) × (apply_transactions
        storage engine toy_bincode
        (payment ∷ to_dave ∷ [])
        []
        []
        two_wallets
      ≡ (ok (accounts, ops), two_wallets))
    × (apply_transactions storage engine toy_bincode (to_dave ∷ payment ∷ []) [] [] two_wallets
        ≡ (ok (accounts, ops'), two_wallets))
unfolding alice_payment carol_payment
apply_transactions_reordered_example =
    apply_transactions_reordered storage engine toy_bincode two_wallets both
      (carol_payment ∷ alice_payment ∷ []) both-IsIndependent (Permᴰ.swap refl refl)

apply_transactions_iff_example :
    ((left : Accounts × StorageBatch) × (apply_transactions storage engine toy_bincode
          (payment ∷ to_dave ∷ [])
          []
          []
          two_wallets
        ≡ (ok left, two_wallets)))
    ↔ All (CanApply storage engine toy_bincode two_wallets) (payment ∷ to_dave ∷ [])
apply_transactions_iff_example =
    apply_transactions_iff storage engine toy_bincode (payment ∷ to_dave ∷ []) [] [] two_wallets
      (tt, (tt, tt))
