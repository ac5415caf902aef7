-- ===== src/Tests/Node.antt =====
-- The ledger over sled trees and the start of the node.
use baa_ls.Prelude.{
  ◌≡◌, ◌⊎◌, refl, none, [], ◌∷◌, bytes_eq, bytes_cmp, to_le_bytes, codes, ok, err, All, ◌≢◌,
  replicate, arith,
}
use baa_ls.Types.{
  Block, account_nonce, set_nonce, block_hash, block_hash_input, verify_signature, transaction_hash,
  transaction_hash_input, metadata_input, wallet_account,
}
use baa_ls.Storage.{Storage, database_error, put, delete}
use baa_ls.SledStorage.{SledStorage, sled_batch}
use baa_ls.SledStorage.Operations.{
  get_account, get_block, get_chain_state, read_entry, index_transaction, apply_batch,
}
use baa_ls.BTreeMap.{get, insert, key_eq, key_cmp}
use baa_ls.Ledger.{LedgerState}
use baa_ls.Ledger.Validation.{validate_block, check_timestamp, check_signatures}
use baa_ls.Ledger.Transactions.{
  apply_transactions, apply_transaction, apply_payload, debit, credit, credit_found,
}
use baa_ls.Ledger.Application.{
  apply_block, account_puts, chain_state_put, advance, finish_block, index_transactions,
  write_block,
}
use baa_ls.Ledger.Acceptance.{CanApply}
use baa_ls.Ledger.Outcome.{Refused, IsUnencoded, IsHead, apply_block_outcome}
use baa_ls.Node.Succession.{no_block_after_block}
use baa_ls.Node.Trees.{apply_block_changes_no_account, apply_block_replays}
use baa_ls.Fixtures.Log.{Log, log_sled, digits, find, write_all}
use baa_ls.Fixtures.Codecs.{toy_crypto, toy_bincode, alice, bob, block_of}
use baa_ls.Fixtures.Data.{empty_store, head_store, head_hash, head_state, payment, storage, engine}
use baa_ls.Tests.Chain.{made_hash, made_block}

abbrev pub start : LedgerState (SledStorage Log)
start = record { storage = head_store; chain_state = head_state }

apply_block_changes_no_account_example :
    let s' = (apply_block storage engine toy_bincode made_block start).1.storage in
    (get_account log_sled toy_bincode digits alice s'
      ≡ get_account log_sled toy_bincode digits alice head_store)
    × (get_block log_sled toy_bincode digits head_hash s'
        ≡ get_block log_sled toy_bincode digits head_hash head_store)
    × (get_chain_state log_sled toy_bincode digits s'
        ≡ get_chain_state log_sled toy_bincode digits head_store)
apply_block_changes_no_account_example =
    apply_block_changes_no_account log_sled toy_crypto toy_bincode digits made_block start alice
      head_hash

apply_block_replays_example :
    (apply_transactions storage engine toy_bincode
      (payment ∷ [])
      []
      []
      (apply_block storage engine toy_bincode made_block start).1.storage).0
    ≡ (apply_transactions storage engine toy_bincode (payment ∷ []) [] [] head_store).0
apply_block_replays_example =
    apply_block_replays log_sled toy_crypto toy_bincode digits made_block start (tt, tt)

pub fresh : get_chain_state log_sled toy_bincode digits empty_store ≡ ok none
unfolding get_chain_state read_entry find
fresh = refl

pub accepted :
    validate_block storage toy_crypto toy_bincode made_block head_state head_store ≡ ok tt
unfolding validate_block check_timestamp check_signatures get_block read_entry find bytes_eq
    block_hash block_hash_input to_le_bytes metadata_input verify_signature transaction_hash
    transaction_hash_input
accepted = refl

pub applied : (apply_block storage engine toy_bincode made_block start).0 ≡ ok tt
unfolding apply_block apply_transactions apply_transaction get_account read_entry find bytes_eq
    account_nonce apply_payload debit get insert key_eq set_nonce credit credit_found key_cmp
    bytes_cmp account_puts advance chain_state_put finish_block index_transactions write_block
    index_transaction apply_batch sled_batch write_all
applied = refl

apply_block_outcome_example :
    ((¬ All (CanApply storage engine toy_bincode head_store) (payment ∷ []))
      × Refused storage engine toy_bincode made_block start)
    ⊎ ((All (CanApply storage engine toy_bincode head_store) (payment ∷ [])
          × IsUnencoded storage engine toy_bincode made_block start
          × Refused storage engine toy_bincode made_block start)
        ⊎ (All (CanApply storage engine toy_bincode head_store) (payment ∷ [])
            × (¬ IsUnencoded storage engine toy_bincode made_block start)
            × IsHead storage engine toy_bincode made_block head_state
                (apply_block storage engine toy_bincode made_block start).1.chain_state))
apply_block_outcome_example =
    apply_block_outcome storage engine toy_bincode made_block start (tt, tt)

puts_made :
    account_puts toy_bincode ((alice, wallet_account 7 5) ∷ (bob, wallet_account 3 0) ∷ [])
    ≡ ok (put alice.bytes (7 ∷ 5 ∷ []) ∷ put bob.bytes (3 ∷ 0 ∷ []) ∷ [])
unfolding account_puts
puts_made = refl

state_put_made :
    chain_state_put toy_bincode (advance made_block head_state)
    ≡ ok (put (codes "global:current") (5 ∷ made_hash) ∷ [])
unfolding chain_state_put advance
state_put_made = refl

-- a disk that takes no batch
abbrev full_disk : Storage (SledStorage Log)
full_disk = record storage { apply_batch = λ ops s. (err database_error, s) }

paid :
    (apply_transactions full_disk engine toy_bincode (payment ∷ []) [] [] head_store).0
    ≡ ok ((alice, wallet_account 7 5) ∷ (bob, wallet_account 3 0) ∷ [], delete alice.bytes ∷ [])
unfolding apply_transactions apply_transaction get_account read_entry find bytes_eq account_nonce
    apply_payload debit get insert key_eq set_nonce credit credit_found key_cmp bytes_cmp
paid = refl

made_hash_unknown : get_block log_sled toy_bincode digits made_hash head_store ≡ ok none
unfolding get_block read_entry find bytes_eq
made_hash_unknown = refl

-- a block that is made on top of the applied one
abbrev second_block : Block
second_block = block_of 6 52 made_hash (replicate 32 9) []

no_block_after_block_example :
    let w = (apply_block storage engine toy_bincode made_block start).1 in
    validate_block storage toy_crypto toy_bincode second_block w.chain_state w.storage ≢ ok tt
no_block_after_block_example =
    no_block_after_block log_sled toy_crypto toy_bincode digits made_block second_block start
      made_hash_unknown applied (λ e. omega (arith, e))
