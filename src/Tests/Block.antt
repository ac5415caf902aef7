-- ===== src/Tests/Block.antt =====
-- A block of two payments between four parties.
use baa_ls.Prelude.{
  ◌≡◌, ◌≢◌, refl, none, some, [], ◌∷◌, List, bytes_eq, bytes_eq_refl, ok, arith, All, false,
}
use baa_ls.Types.{PublicKey, Transaction, wallet, transfer}
use baa_ls.Storage.{StorageBatch}
use baa_ls.SledStorage.{SledStorage}
use baa_ls.SledStorage.Operations.{get_account, read_entry}
use baa_ls.Ledger.Transactions.{Accounts, apply_transactions}
use baa_ls.Ledger.Transfers.{CanTransfer}
use baa_ls.Ledger.Independent.{
  IsIndependent, Payment, IsSettled, updated_total, apply_transactions_conserves,
}
use baa_ls.Fixtures.Log.{Log, find}
use baa_ls.Fixtures.Codecs.{toy_bincode, alice, bob, carol, dave, transaction_of}
use baa_ls.Fixtures.Data.{head_store, payment, storage, engine}

-- alice has 10, and carol has 20
abbrev pub two_wallets : SledStorage Log
two_wallets = record head_store {
  accounts_tree = (alice.bytes, some (10 ∷ 4 ∷ [])) ∷ (carol.bytes, some (20 ∷ 7 ∷ [])) ∷ [];
}

abbrev pub to_dave : Transaction
to_dave = transaction_of carol (wallet dave) (transfer 6) bob.bytes 8 []

pub differ : (x y : PublicKey) → bytes_eq x.bytes y.bytes ≡ false → x ≢ y
differ x y other e = ground (arith, bytes_eq_refl x.bytes)

pub alice_pays : CanTransfer storage engine toy_bincode payment 3 two_wallets
unfolding get_account read_entry find bytes_eq
alice_pays = record {
  balance = 10;
  nonce = 4;
  recipient = bob;
  found = none;
  sender_lem = refl;
  nonce_lem = refl;
  covered = omega arith;
  recipient_lem = refl;
  found_lem = refl;
  can_receive = tt;
}

pub carol_pays : CanTransfer storage engine toy_bincode to_dave 6 two_wallets
unfolding get_account read_entry find bytes_eq
carol_pays = record {
  balance = 20;
  nonce = 7;
  recipient = dave;
  found = none;
  sender_lem = refl;
  nonce_lem = refl;
  covered = omega arith;
  recipient_lem = refl;
  found_lem = refl;
  can_receive = tt;
}

unfoldable pub alice_payment : Payment storage engine toy_bincode two_wallets
unfolding alice_pays bytes_eq
alice_payment = record {
  tx = payment;
  amount = 3;
  can = alice_pays;
  kind = refl;
  apart = differ alice bob refl;
  fits = omega arith;
  key = alice.bytes;
  encoded = refl;
}

unfoldable pub carol_payment : Payment storage engine toy_bincode two_wallets
unfolding carol_pays bytes_eq
carol_payment = record {
  tx = to_dave;
  amount = 6;
  can = carol_pays;
  kind = refl;
  apart = differ carol dave refl;
  fits = omega arith;
  key = bob.bytes;
  encoded = refl;
}

abbrev pub both : List (Payment storage engine toy_bincode two_wallets)
both = alice_payment ∷ carol_payment ∷ []

pub both-IsIndependent : IsIndependent storage engine toy_bincode both
unfolding alice_payment carol_payment alice_pays carol_pays bytes_eq
both-IsIndependent = (
  ((differ carol alice refl, differ dave alice refl), tt),
  ((differ carol bob refl, differ dave bob refl), tt),
  (tt, tt, tt),
)

apply_transactions_conserves_example :
    (accounts : Accounts) × (ops : StorageBatch) × (apply_transactions storage engine toy_bincode
        (payment ∷ to_dave ∷ [])
        []
        []
        two_wallets
      ≡ (ok (accounts, ops), two_wallets))
    × All (IsSettled storage engine toy_bincode accounts) both
    × (updated_total storage engine toy_bincode accounts both ≡ 30)
unfolding alice_payment carol_payment alice_pays carol_pays
apply_transactions_conserves_example =
    apply_transactions_conserves storage engine toy_bincode two_wallets both both-IsIndependent
