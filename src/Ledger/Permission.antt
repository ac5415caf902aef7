-- ===== src/Ledger/Permission.antt =====
-- When `apply_block` (src/ledger.rs) applies a transfer.
use baa_ls.Prelude.{ℕ, ◌≡◌, ◌↔◌, refl, ◌∙◌, ap, Option, none, some, Result, ok, err, arith}
use baa_ls.Types.{
  PublicKey, Address, wallet, contract, transfer, Transaction, Account, wallet_account,
  contract_account, account_nonce, set_nonce, Bincode,
}
use baa_ls.Storage.{Storage, StorageError}
use baa_ls.BTreeMap.{get, insert, get-insert, key_eq_refl}
use baa_ls.Contracts.{ContractEngine}
use baa_ls.Consensus.{next_u64}
use baa_ls.Ledger.{LedgerError}
use baa_ls.Ledger.Transactions.{
  Accounts, debit, credit_found, credit, apply_payload, apply_transaction,
}
use baa_ls.Ledger.Transfers.{CanReceive, CanTransfer, transferred, transfer_applies}

module _ {S : Type 0} (storage : Storage S) (engine : ContractEngine S) (b : Bincode) where
  -- A transfer that the loop has applied, by the sender's and the recipient's accounts.
  module _ (tx : Transaction) (amount : ℕ) (accounts accounts' : Accounts) (s : S)
      (kind : tx.payload ≡ transfer amount)
      (applied : (apply_transaction storage engine b tx accounts s).0 ≡ ok accounts') where
    -- the account that `debit` works on is the sender's own
    own_entry :
        (account : Account) → get tx.sender (insert tx.sender account accounts) ≡ some account
    own_entry account = get-insert tx.sender tx.sender account accounts ∙ rw (key_eq_refl tx.sender)

    receives :
        (found : Option Account) {recipient : PublicKey} {balance nonce : ℕ}
        → storage.get_account recipient s ≡ ok found
        → tx.recipient ≡ wallet recipient
        → storage.get_account tx.sender s ≡ ok (some (wallet_account balance nonce))
        → CanReceive found
    unfolding apply_transaction apply_payload debit credit credit_found account_nonce set_nonce
    receives none e p f = tt
    receives (some (wallet_account balance' nonce')) e p f = tt
    receives (some (contract_account code root nonce')) {balance = balance} {nonce = nonce} e p f =
        ground (arith, own_entry (wallet_account balance (next_u64 nonce)))

    by_recipient :
        (recipient : PublicKey) (r : Result StorageError (Option Account)) (balance nonce : ℕ)
        → storage.get_account recipient s ≡ r
        → tx.recipient ≡ wallet recipient
        → storage.get_account tx.sender s ≡ ok (some (wallet_account balance nonce))
        → CanTransfer storage engine b tx amount s
    unfolding apply_transaction apply_payload debit credit credit_found account_nonce set_nonce
    by_recipient recipient (ok found) balance nonce e p f = record {
      balance = balance;
      nonce = nonce;
      recipient = recipient;
      found = found;
      sender_lem = f;
      nonce_lem = ground arith;
      covered = ground (arith, own_entry (wallet_account balance (next_u64 nonce)));
      recipient_lem = p;
      found_lem = e;
      can_receive = receives found e p f;
    }
    by_recipient recipient (err x) balance nonce e p f =
        absurd (ground (arith, own_entry (wallet_account balance (next_u64 nonce))))

    by_address :
        (address : Address) (balance nonce : ℕ)
        → tx.recipient ≡ address
        → storage.get_account tx.sender s ≡ ok (some (wallet_account balance nonce))
        → CanTransfer storage engine b tx amount s
    unfolding apply_transaction apply_payload debit credit
    by_address (wallet recipient) balance nonce e f =
        by_recipient recipient (storage.get_account recipient s) balance nonce refl e f
    by_address (contract id) balance nonce e f =
        absurd (ground (arith, own_entry (wallet_account balance (next_u64 nonce))))

    pub by_sender :
        (r : Result StorageError (Option Account))
        → storage.get_account tx.sender s ≡ r
        → CanTransfer storage engine b tx amount s
    unfolding apply_transaction apply_payload debit account_nonce set_nonce
    by_sender (ok (some (wallet_account balance nonce))) e =
        by_address tx.recipient balance nonce refl e
    by_sender (ok (some (contract_account code root nonce))) e =
        absurd (ground (arith, own_entry (contract_account code root (next_u64 nonce))))
    by_sender (ok none) e = absurd (ground arith)
    by_sender (err x) e = absurd (ground arith)

  -- A transfer is applied, with the store left as it was, exactly if the sender is a wallet with
  -- the next nonce and enough balance, and the recipient is a wallet address with no account or a
  -- wallet account.
  pub transfer_iff :
      (tx : Transaction) (amount : ℕ) (accounts : Accounts) (s : S)
      → tx.payload ≡ transfer amount
      → ((accounts' : Accounts) × (apply_transaction storage engine b tx accounts s
            ≡ (ok accounts', s)))
        ↔ CanTransfer storage engine b tx amount s
  transfer_iff tx amount accounts s kind = (
    (λ applied.
        let (accounts', e) = applied in
        by_sender tx amount accounts accounts' s kind
          (ap {A = Result LedgerError Accounts × S} (λ r. r.0) e) (storage.get_account tx.sender s)
          refl),
    λ can. (
      transferred storage engine b tx amount s can accounts,
      transfer_applies storage engine b tx amount accounts s can kind,
    ),
  )
