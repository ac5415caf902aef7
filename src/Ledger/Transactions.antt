-- ===== src/Ledger/Transactions.antt =====
-- src/ledger.rs, `apply_block`: the loop over the transactions of a block. Balances and nonces are
-- u64 and wrap, as in a release build.
use baa_ls.Prelude.{
  ℕ, ◌+◌, ◌-◌, ◌%◌, ◌^◌, ◌==◌, ltb, Option, none, some, List, [], ◌∷◌, ◌++◌, Bytes, Result, ok, err,
  ok_or, Action, if◌then◌else◌,
}
use baa_ls.Prelude.Actions.{pure, raise, lift, reads, require, with_error, ◌>>=◌, ◌>>◌}
use baa_ls.Types.{
  PublicKey, Address, wallet, contract, TransactionPayload, transfer, contract_deploy,
  contract_call, data_payload, Transaction, Account, wallet_account, contract_account,
  account_nonce, set_nonce, Bincode, zero_hash,
}
use baa_ls.Storage.{delete, StorageBatch, Storage}
use baa_ls.BTreeMap.{BTreeMap, get, insert}
use baa_ls.Contracts.{ContractEngine}
use baa_ls.Consensus.{next_u64}
use baa_ls.Ledger.{
  LedgerError, storage_error, state_transition, sender_not_in_update_map, sender_not_wallet,
  transfer_to_contract, recipient_not_wallet, account_not_found, insufficient_balance,
  invalid_nonce, invalid_transaction_payload, contract_error,
}
use baa_ls.Ledger.Validation.{serialize}

-- `accounts_to_update`
abbrev pub Accounts : Type 0
Accounts = BTreeMap Account

module _ {S : Type 0} (storage : Storage S) (engine : ContractEngine S) (b : Bincode) where
  -- `*balance -= *amount` on the sender's entry
  unfoldable pub debit : PublicKey → ℕ → Accounts → Result LedgerError Accounts
  debit sender amount accounts = elim (get sender accounts) [
    | none ↦ err (state_transition sender_not_in_update_map)
    | some (wallet_account balance nonce) ↦
        if ltb balance amount
        then err (insufficient_balance sender)
        else ok (insert sender (wallet_account (balance - amount) nonce) accounts)
    | some (contract_account code_hash storage_root_hash nonce) ↦
        err (state_transition sender_not_wallet)
  ]

  -- the recipient's entry, from the account that the storage has
  unfoldable pub credit_found :
      PublicKey → ℕ → Option Account → Accounts → Result LedgerError Accounts
  credit_found recipient amount none accounts =
      ok (insert recipient (wallet_account amount 0) accounts)
  credit_found recipient amount (some (wallet_account balance nonce)) accounts =
      ok (insert recipient (wallet_account ((balance + amount) % 2 ^ 64) nonce) accounts)
  credit_found recipient amount (some (contract_account code_hash storage_root_hash nonce))
        accounts =
      err (state_transition recipient_not_wallet)

  unfoldable pub credit : Address → ℕ → Accounts → Action S LedgerError Accounts
  credit (contract id) amount accounts = raise (state_transition transfer_to_contract)
  credit (wallet recipient) amount accounts = do
    found ← reads storage_error (storage.get_account recipient)
    lift (credit_found recipient amount found accounts)

  -- the result of the call is dropped, an error too
  unfoldable pub call_recipient :
      Address → PublicKey → Bytes → Bytes → Accounts → Action S LedgerError Accounts
  call_recipient (wallet recipient) sender method args accounts s =
      (err invalid_transaction_payload, s)
  call_recipient (contract contract_id) sender method args accounts s =
      let (execution_result, s') = engine.call_contract sender contract_id method args storage s in
      (ok accounts, s')

  -- `match &tx.payload`, with the sender's account after its nonce has advanced
  unfoldable pub apply_payload :
      TransactionPayload → Transaction → Account → Accounts → Action S LedgerError Accounts
  apply_payload (transfer amount) tx sender_account accounts = do
    debited ← lift (debit tx.sender amount accounts)
    credit tx.recipient amount debited
  apply_payload (contract_deploy wasm_bytes) tx sender_account accounts = do
    contract_id ←
        with_error contract_error
          (engine.deploy_contract tx.sender wasm_bytes none storage tx.gas_limit)
    pure (
        insert tx.sender (contract_account contract_id.id zero_hash (account_nonce sender_account))
          accounts)
  apply_payload (contract_call method args) tx sender_account accounts =
      call_recipient tx.recipient tx.sender method args accounts
  apply_payload (data_payload bytes) tx sender_account accounts = pure accounts

  -- the body of the loop, up to the mempool entry
  unfoldable pub apply_transaction : Transaction → Accounts → Action S LedgerError Accounts
  apply_transaction tx accounts = do
    found ← reads storage_error (storage.get_account tx.sender)
    account ← lift (ok_or found (account_not_found tx.sender))
    let expected = next_u64 (account_nonce account)
    require (expected == tx.nonce) (invalid_nonce tx.sender expected tx.nonce)
    let sender_account = set_nonce account expected
    apply_payload tx.payload tx sender_account (insert tx.sender sender_account accounts)

  -- the loop; the batch gets a delete for each transaction
  unfoldable pub apply_transactions :
      List Transaction → Accounts → StorageBatch → Action S LedgerError (Accounts × StorageBatch)
  apply_transactions [] accounts ops = pure (accounts, ops)
  apply_transactions (tx ∷ rest) accounts ops = do
    accounts' ← apply_transaction tx accounts
    key ← lift (serialize b.hash_codec tx.hash)
    apply_transactions rest accounts' (ops ++ delete key ∷ [])
