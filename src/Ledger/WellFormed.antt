-- ===== src/Ledger/WellFormed.antt =====
-- The map of updated accounts in the loop of `apply_block` (src/ledger.rs).
use baa_ls.Prelude.{
  ℕ, ◌+◌, ◌-◌, ◌%◌, ◌^◌, ◌<◌, ◌≡◌, refl, subst, inl, inr, Option, none, some, List, [], ◌∷◌, ◌++◌,
  ok, arith, All, Result-cases,
}
use baa_ls.Types.{
  PublicKey, Address, wallet, contract, TransactionPayload, transfer, contract_deploy,
  contract_call, data_payload, Transaction, Account, wallet_account, contract_account,
  account_nonce, set_nonce, Bincode,
}
use baa_ls.Storage.{Storage, StorageBatch, delete}
use baa_ls.BTreeMap.{get, insert, IsSorted, insert-IsSorted, insert-All, get-All}
use baa_ls.Contracts.{ContractEngine}
use baa_ls.Consensus.{next_u64}
use baa_ls.Ledger.Validation.{serialize}
use baa_ls.Ledger.Nonces.{IsPlain, IsPlainPayload, apply_transaction_reads}
use baa_ls.Ledger.Transactions.{
  Accounts, debit, credit_found, credit, apply_payload, apply_transaction, apply_transactions,
}

-- A balance and a nonce are u64.
abbrev pub FitsU64 : Account → Type 0
FitsU64 (wallet_account balance nonce) = (balance < 2 ^ 64) × (nonce < 2 ^ 64)
FitsU64 (contract_account code_hash storage_root_hash nonce) = nonce < 2 ^ 64

abbrev pub AmountFits : TransactionPayload → Type 0
AmountFits (transfer amount) = amount < 2 ^ 64
AmountFits _ = Unit

-- Sorted by key, each key once, with u64 values.
pub record IsWellFormed (accounts : Accounts) : Type 0 where
  pub sorted : IsSorted accounts
  pub fits : All (λ (e : PublicKey × Account). FitsU64 e.1) accounts

insert-IsWellFormed :
    (k : PublicKey) (a : Account) (accounts : Accounts)
    → FitsU64 a
    → IsWellFormed accounts
    → IsWellFormed (insert k a accounts)
insert-IsWellFormed k a accounts f h = record {
  sorted = insert-IsSorted k a accounts h.sorted;
  fits = insert-All FitsU64 k a accounts f h.fits;
}

set_nonce-FitsU64 : (a : Account) (n : ℕ) → n < 2 ^ 64 → FitsU64 a → FitsU64 (set_nonce a n)
unfolding set_nonce
set_nonce-FitsU64 (wallet_account balance nonce) n h f = (f.0, h)
set_nonce-FitsU64 (contract_account code_hash storage_root_hash nonce) n h f = h

module _ {S : Type 0} (storage : Storage S) (engine : ContractEngine S) (b : Bincode) where
  -- Accounts that the storage returns are u64 values.
  abbrev pub StoredFits : S → Type 0
  StoredFits s = (k : PublicKey) (a : Account) → storage.get_account k s ≡ ok (some a) → FitsU64 a

  debit-IsWellFormed :
      (sender : PublicKey) (amount : ℕ) (accounts accounts' : Accounts)
      → IsWellFormed accounts
      → debit storage engine b sender amount accounts ≡ ok accounts'
      → IsWellFormed accounts'
  unfolding debit
  debit-IsWellFormed sender amount accounts accounts' h e = go (get sender accounts) refl
    where
      go : (found : Option Account) → get sender accounts ≡ found → IsWellFormed accounts'
      go none p = absurd (ground arith)
      go (some (wallet_account balance nonce)) p =
          let f = get-All FitsU64 sender accounts (wallet_account balance nonce) h.fits p in
          subst IsWellFormed {x = insert sender (wallet_account (balance - amount) nonce) accounts}
            (ground arith)
            (insert-IsWellFormed sender (wallet_account (balance - amount) nonce) accounts
              (omega (arith, f.0), f.1) h)
      go (some (contract_account code_hash storage_root_hash nonce)) p = absurd (ground arith)

  credit_found-IsWellFormed :
      (recipient : PublicKey) (amount : ℕ) (found : Option Account) (accounts accounts' : Accounts)
      → IsWellFormed accounts
      → amount < 2 ^ 64
      → ((a : Account) → found ≡ some a → FitsU64 a)
      → credit_found storage engine b recipient amount found accounts ≡ ok accounts'
      → IsWellFormed accounts'
  unfolding credit_found
  credit_found-IsWellFormed recipient amount none accounts accounts' h small f e =
      subst IsWellFormed {x = insert recipient (wallet_account amount 0) accounts} (ground arith)
        (insert-IsWellFormed recipient (wallet_account amount 0) accounts (small, omega arith) h)
  credit_found-IsWellFormed recipient amount (some (wallet_account balance nonce)) accounts
        accounts' h small f e =
      subst IsWellFormed
        {x = insert recipient (wallet_account ((balance + amount) % 2 ^ 64) nonce) accounts}
        (ground arith)
        (insert-IsWellFormed recipient (wallet_account ((balance + amount) % 2 ^ 64) nonce) accounts
          (omega arith, (f (wallet_account balance nonce) refl).1) h)
  credit_found-IsWellFormed recipient amount
        (some (contract_account code_hash storage_root_hash nonce)) accounts accounts' h small f e =
      absurd (cc)

  credit-IsWellFormed :
      (address : Address) (amount : ℕ) (accounts accounts' : Accounts) (s : S)
      → StoredFits s
      → IsWellFormed accounts
      → amount < 2 ^ 64
      → (credit storage engine b address amount accounts s).0 ≡ ok accounts'
      → IsWellFormed accounts'
  unfolding credit
  credit-IsWellFormed (contract id) amount accounts accounts' s stored h small e = absurd (cc)
  credit-IsWellFormed (wallet recipient) amount accounts accounts' s stored h small e =
      elim (Result-cases (storage.get_account recipient s)) [
        | inl (found, p) ↦
            credit_found-IsWellFormed recipient amount found accounts accounts' h small
              (λ a q. stored recipient a (ground arith)) (ground arith)
        | inr (x, p) ↦ absurd (ground arith)
      ]

  payload-IsWellFormed :
      (payload : TransactionPayload) (tx : Transaction) (account : Account)
      (accounts accounts' : Accounts) (s : S)
      → StoredFits s
      → IsWellFormed accounts
      → IsPlainPayload payload
      → AmountFits payload
      → (apply_payload storage engine b payload tx account accounts s).0 ≡ ok accounts'
      → IsWellFormed accounts'
  unfolding apply_payload
  payload-IsWellFormed (transfer amount) tx account accounts accounts' s stored h plain small e =
      elim (Result-cases (debit storage engine b tx.sender amount accounts)) [
        | inl (debited, p) ↦
            credit-IsWellFormed tx.recipient amount debited accounts' s stored
              (debit-IsWellFormed tx.sender amount accounts debited h p) small (ground arith)
        | inr (x, p) ↦ absurd (ground arith)
      ]
  payload-IsWellFormed (contract_deploy wasm) tx account accounts accounts' s stored h plain small
        e =
      absurd plain
  payload-IsWellFormed (contract_call method args) tx account accounts accounts' s stored h plain
        small e =
      absurd plain
  payload-IsWellFormed (data_payload bytes) tx account accounts accounts' s stored h plain small e =
      subst IsWellFormed {x = accounts} (ground arith) h

  transaction-IsWellFormed :
      (tx : Transaction) (accounts accounts' : Accounts) (s : S)
      → StoredFits s
      → IsWellFormed accounts
      → IsPlain tx
      → AmountFits tx.payload
      → (apply_transaction storage engine b tx accounts s).0 ≡ ok accounts'
      → IsWellFormed accounts'
  unfolding apply_transaction
  transaction-IsWellFormed tx accounts accounts' s stored h plain small e =
      elim (Result-cases (storage.get_account tx.sender s)) [
        | inl (some account, p) ↦
            let n = next_u64 (account_nonce account) in
            let advanced = set_nonce account n in
            payload-IsWellFormed tx.payload tx advanced (insert tx.sender advanced accounts)
              accounts' s stored
              (insert-IsWellFormed tx.sender advanced accounts
                (set_nonce-FitsU64 account n (omega arith) (stored tx.sender account p)) h)
              plain small (ground arith)
        | inl (none, p) ↦ absurd (ground arith)
        | inr (x, p) ↦ absurd (ground arith)
      ]

  -- Where the stored accounts and the amounts fit u64, the loop of apply_block over transactions
  -- without contract payloads keeps, when it succeeds, the invariant that the updated accounts are
  -- sorted by key, each key once, and that every balance and nonce fits u64.
  pub apply_transactions-IsWellFormed :
      (txs : List Transaction) (accounts : Accounts) (ops : StorageBatch) (s : S)
      (accounts' : Accounts) (ops' : StorageBatch)
      → StoredFits s
      → IsWellFormed accounts
      → All IsPlain txs
      → All (λ (tx : Transaction). AmountFits tx.payload) txs
      → (apply_transactions storage engine b txs accounts ops s).0 ≡ ok (accounts', ops')
      → IsWellFormed accounts'
  unfolding apply_transactions
  apply_transactions-IsWellFormed [] accounts ops s accounts' ops' stored h plain small e =
      subst IsWellFormed {x = accounts} (ground arith) h
  apply_transactions-IsWellFormed (tx ∷ rest) accounts ops s accounts' ops' stored h plain small e =
      elim (Result-cases (apply_transaction storage engine b tx accounts s).0) [
        | inl (next, p) ↦ elim (Result-cases (serialize b.hash_codec tx.hash)) [
          | inl (key, q) ↦
              apply_transactions-IsWellFormed rest next (ops ++ delete key ∷ []) s accounts' ops'
                stored (transaction-IsWellFormed tx accounts next s stored h plain.0 small.0 p)
                plain.1 small.1
                (ground (arith, apply_transaction_reads storage engine b tx accounts s plain.0))
          | inr (x, q) ↦ absurd (ground arith)
        ]
        | inr (x, p) ↦ absurd (ground arith)
      ]
