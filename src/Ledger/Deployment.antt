-- ===== src/Ledger/Deployment.antt =====
-- A contract deployment in the loop of `apply_block` (src/ledger.rs).
use baa_ls.Prelude.{
  ℕ, ◌≡◌, ◌≢◌, refl, sym, ap, ◌∙◌, inl, inr, Option, none, some, Bytes, Result, ok, err, arith,
  Result-cases,
}
use baa_ls.Types.{
  PublicKey, ContractId, Transaction, transfer, contract_deploy, Account, wallet_account,
  contract_account, account_nonce, set_nonce, Bincode, zero_hash,
}
use baa_ls.Storage.{Storage, StorageError}
use baa_ls.BTreeMap.{get, insert, get-insert, key_eq_refl}
use baa_ls.Contracts.{ContractEngine}
use baa_ls.Consensus.{next_u64}
use baa_ls.Ledger.{LedgerError}
use baa_ls.Ledger.Transactions.{Accounts, apply_payload, apply_transaction}
use baa_ls.Ledger.Permission.{by_sender}

module _ {S : Type 0} (storage : Storage S) (engine : ContractEngine S) (b : Bincode) where
  -- A wallet deploys a contract, and the engine accepts it.
  pub record Deploys (tx : Transaction) (id : ContractId) (balance nonce : ℕ) (s s' : S)
      : Type 0 where
    pub wasm : Bytes
    pub payload_lem : tx.payload ≡ contract_deploy wasm
    pub sender_lem : storage.get_account tx.sender s ≡ ok (some (wallet_account balance nonce))
    pub nonce_lem : tx.nonce ≡ next_u64 nonce
    pub engine_lem : engine.deploy_contract tx.sender wasm none storage tx.gas_limit s ≡ (ok id, s')

  deployed :
      (tx : Transaction) (id : ContractId) (balance nonce : ℕ) (accounts : Accounts) (s s' : S)
      → Deploys tx id balance nonce s s'
      → apply_transaction storage engine b tx accounts s ≡ (
        ok (
            insert tx.sender
              (contract_account id.id zero_hash (next_u64 nonce))
              (insert tx.sender (wallet_account balance (next_u64 nonce)) accounts)),
        s',
      )
  unfolding apply_transaction apply_payload account_nonce set_nonce
  deployed tx id balance nonce accounts s s' d =
      ground (arith, d.payload_lem, d.sender_lem, d.nonce_lem, d.engine_lem)

  contract_cannot_spend :
      (sender : PublicKey) (code root : Bytes) (nonce : ℕ) (t : S) (later : Transaction)
      (amount : ℕ) (accounts accounts' : Accounts)
      → storage.get_account sender t ≡ ok (some (contract_account code root nonce))
      → later.sender ≡ sender
      → later.payload ≡ transfer amount
      → (apply_transaction storage engine b later accounts t).0 ≢ ok accounts'
  contract_cannot_spend sender code root nonce t later amount accounts accounts' stored own kind
        applied =
      let can =
        by_sender storage engine b later amount accounts accounts' t kind applied
          (storage.get_account later.sender t) refl in
      no_wallet can.balance can.nonce
        (sym can.sender_lem ∙ (ap (λ (k : PublicKey). storage.get_account k t) own ∙ stored))
    where
      no_wallet :
          (balance n : ℕ)
          → ¬ (
              ◌≡◌ {A = Result StorageError (Option Account)}
                (ok (some (wallet_account balance n)))
                (ok (some (contract_account code root nonce))))
      no_wallet balance n e = cc

  -- The account is there, and the transfer is refused.
  pub record IsLost (tx later : Transaction) (id : ContractId) (nonce : ℕ)
      (accounts others : Accounts) (s s' t : S) : Type 0 where
    pub accounts' : Accounts
    pub applied : apply_transaction storage engine b tx accounts s ≡ (ok accounts', s')
    pub account_lem :
        get tx.sender accounts' ≡ some (contract_account id.id zero_hash (next_u64 nonce))
    pub error : LedgerError
    pub refused : (apply_transaction storage engine b later others t).0 ≡ err error

  -- A deployment by a wallet with the next nonce, which the engine accepts, is applied and makes
  -- the sender's account a contract account, which has no balance; on a store that has this
  -- account, every transfer of the sender is refused.
  pub deploy_erases_balance :
      (tx later : Transaction) (id : ContractId) (balance nonce amount : ℕ)
      (accounts others : Accounts) (s s' t : S)
      → Deploys tx id balance nonce s s'
      → storage.get_account tx.sender t
        ≡ ok (some (contract_account id.id zero_hash (next_u64 nonce)))
      → later.sender ≡ tx.sender
      → later.payload ≡ transfer amount
      → IsLost tx later id nonce accounts others s s' t
  deploy_erases_balance tx later id balance nonce amount accounts others s s' t d stored own kind =
      elim (Result-cases (apply_transaction storage engine b later others t).0) [
        | inl (accounts', e) ↦ absurd (
            contract_cannot_spend tx.sender id.id zero_hash (next_u64 nonce) t later amount others
              accounts' stored own kind e)
        | inr (x, e) ↦ record {
          accounts' = insert tx.sender account with_wallet;
          applied = deployed tx id balance nonce accounts s s' d;
          account_lem =
              get-insert tx.sender tx.sender account with_wallet ∙ rw (key_eq_refl tx.sender) refl;
          error = x;
          refused = e;
        }
      ]
    where
      account : Account
      account = contract_account id.id zero_hash (next_u64 nonce)

      with_wallet : Accounts
      with_wallet = insert tx.sender (wallet_account balance (next_u64 nonce)) accounts
