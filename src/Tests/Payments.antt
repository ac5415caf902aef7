-- ===== src/Tests/Payments.antt =====
-- The loop of `apply_block` on two payments of alice, and the batch.
use baa_ls.Prelude.{
  ◌+◌, ◌≡◌, ◌≢◌, ◌⊎◌, All, refl, none, some, [], ◌∷◌, ◌++◌, ok, arith, ap, bytes_eq, bytes_cmp,
  codes, to_le_bytes,
}
use baa_ls.Types.Keys.{serialize_key}
use baa_ls.Types.{
  PublicKey, Transaction, wallet, transfer, Account, wallet_account, account_nonce, set_nonce,
}
use baa_ls.Storage.{StorageBatch, put, delete}
use baa_ls.SledStorage.Operations.{get_account, read_entry}
use baa_ls.BTreeMap.{get, insert, key_eq, key_cmp}
use baa_ls.Ledger.Transactions.{
  Accounts, apply_transactions, apply_transaction, apply_payload, debit, credit, credit_found,
}
use baa_ls.Ledger.Application.{account_puts, chain_state_put}
use baa_ls.Ledger.Transfers.{CanTransfer, balance_of}
use baa_ls.Ledger.DoubleSpend.{TwoPayments, two_payments_mint}
use baa_ls.Ledger.LastWrite.{IsUntouched, IsLastWrite, apply_transactions-IsLastWrite}
use baa_ls.Fixtures.Log.{find}
use baa_ls.Fixtures.Codecs.{toy_bincode, alice, bob, carol, transaction_of}
use baa_ls.Fixtures.Format.{keyed_bincode}
use baa_ls.Fixtures.Data.{head_store, head_state, payment, storage, engine}
use baa_ls.Tests.Chain.{payment_CanTransfer, alice_found, alice-ne-bob}

abbrev to_carol : Transaction
to_carol = transaction_of alice (wallet carol) (transfer 4) bob.bytes 5 []

carol_CanTransfer : CanTransfer storage engine toy_bincode to_carol 4 head_store
unfolding get_account read_entry find bytes_eq
carol_CanTransfer = record {
  balance = 10;
  nonce = 4;
  recipient = carol;
  found = none;
  sender_lem = alice_found;
  nonce_lem = refl;
  covered = omega arith;
  recipient_lem = refl;
  found_lem = refl;
  can_receive = tt;
}

alice-ne-carol : alice ≢ carol
alice-ne-carol e = ground (arith, ap (λ (k : PublicKey). k.bytes) e)

bob-ne-carol : bob ≢ carol
bob-ne-carol e = ground (arith, ap (λ (k : PublicKey). k.bytes) e)

unfoldable both : TwoPayments storage engine toy_bincode payment to_carol 3 4 head_store
unfolding payment_CanTransfer carol_CanTransfer
both = record {
  first_can = payment_CanTransfer;
  second_can = carol_CanTransfer;
  first_kind = refl;
  second_kind = refl;
  one_sender = refl;
  first_other = alice-ne-bob;
  second_other = alice-ne-carol;
  two_recipients = bob-ne-carol;
  first_fits = omega arith;
  second_fits = omega arith;
  first_key = alice.bytes;
  second_key = bob.bytes;
  first_encoded = refl;
  second_encoded = refl;
}

two_payments_mint_example :
    (accounts : Accounts) × (ops : StorageBatch) × (apply_transactions storage engine toy_bincode
        (payment ∷ to_carol ∷ [])
        []
        []
        head_store
      ≡ (ok (accounts, ops), head_store))
    × (get alice accounts ≡ some (wallet_account 6 5))
    × (balance_of (get alice accounts)
          + (balance_of (get bob accounts) + balance_of (get carol accounts))
        ≡ 13)
unfolding both payment_CanTransfer carol_CanTransfer
two_payments_mint_example =
    two_payments_mint storage engine toy_bincode payment to_carol 3 4 head_store both

abbrev paid : Accounts
paid = (alice, wallet_account 6 5) ∷ (bob, wallet_account 3 0) ∷ (carol, wallet_account 4 0) ∷ []

both_applied :
    (apply_transactions storage engine toy_bincode (payment ∷ to_carol ∷ []) [] [] head_store).0
    ≡ ok (paid, delete alice.bytes ∷ delete bob.bytes ∷ [])
unfolding apply_transactions apply_transaction get_account read_entry find bytes_eq account_nonce
    apply_payload debit get insert key_eq set_nonce credit credit_found key_cmp bytes_cmp
both_applied = refl

apply_transactions-IsLastWrite_example :
    ((a : Account) × (get alice paid ≡ some a)
      × IsLastWrite storage engine toy_bincode head_store alice a (payment ∷ to_carol ∷ []))
    ⊎ (All (IsUntouched alice) (payment ∷ to_carol ∷ []) × (get alice paid ≡ none))
apply_transactions-IsLastWrite_example =
    apply_transactions-IsLastWrite storage engine toy_bincode head_store alice
      (payment ∷ to_carol ∷ []) paid [] (delete alice.bytes ∷ delete bob.bytes ∷ []) (tt, (tt, tt))
      both_applied

puts_written :
    account_puts keyed_bincode ((alice, wallet_account 7 5) ∷ [])
    ≡ ok (put (to_le_bytes 8 32 ++ alice.bytes) (7 ∷ 5 ∷ []) ∷ [])
unfolding account_puts serialize_key
puts_written = refl

state_written :
    chain_state_put keyed_bincode head_state
    ≡ ok (put (to_le_bytes 8 14 ++ codes "global:current") (4 ∷ head_state.latest_block_hash) ∷ [])
unfolding chain_state_put
state_written = refl
