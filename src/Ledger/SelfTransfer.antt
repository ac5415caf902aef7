-- ===== src/Ledger/SelfTransfer.antt =====
-- A transfer to oneself in `apply_block` (src/ledger.rs).
use baa_ls.Prelude.{ℕ, ◌+◌, ◌^◌, ◌<◌, ◌≤◌, ◌≡◌, ◌∙◌, some, ok, arith}
use baa_ls.Types.{wallet, transfer, Transaction, wallet_account, Bincode}
use baa_ls.Storage.{Storage}
use baa_ls.BTreeMap.{get, key_eq_refl}
use baa_ls.Contracts.{ContractEngine}
use baa_ls.Ledger.Transactions.{Accounts, apply_transaction}
use baa_ls.Ledger.Transfers.{CanTransfer, transferred, transfer_applies, get-transferred}

module _ {S : Type 0} (storage : Storage S) (engine : ContractEngine S) (b : Bincode) where
  -- A transfer to oneself that is covered by the balance leaves the sender with the amount added
  -- to the balance and with the nonce not advanced, where neither wraps.
  pub self_transfer_mints :
      (tx : Transaction) (amount balance nonce : ℕ) (accounts : Accounts) (s : S)
      → tx.payload ≡ transfer amount
      → tx.recipient ≡ wallet tx.sender
      → storage.get_account tx.sender s ≡ ok (some (wallet_account balance nonce))
      → tx.nonce ≡ nonce + 1
      → nonce + 1 < 2 ^ 64
      → amount ≤ balance
      → balance + amount < 2 ^ 64
      → (accounts' : Accounts) × (apply_transaction storage engine b tx accounts s
          ≡ (ok accounts', s))
        × (get tx.sender accounts' ≡ some (wallet_account (balance + amount) nonce))
  self_transfer_mints tx amount balance nonce accounts s kind self stored next small covered fits =
      (
        transferred storage engine b tx amount s can accounts,
        transfer_applies storage engine b tx amount accounts s can kind,
        get-transferred storage engine b tx amount accounts s can tx.sender
            ∙ rw (key_eq_refl tx.sender) (ground arith),
      )
    where
      can : CanTransfer storage engine b tx amount s
      can = record {
        balance = balance;
        nonce = nonce;
        recipient = tx.sender;
        found = some (wallet_account balance nonce);
        sender_lem = stored;
        nonce_lem = omega arith;
        covered = covered;
        recipient_lem = self;
        found_lem = stored;
        can_receive = tt;
      }
