-- ===== src/Ledger/Transfers.antt =====
-- Transfers in the loop of `apply_block` (src/ledger.rs): when one is applied, and what it moves.
use baa_ls.Prelude.{
  ℕ, ◌+◌, ◌-◌, ◌%◌, ◌^◌, ◌<◌, ◌≤◌, ◌≡◌, ◌≢◌, refl, sym, ◌∙◌, ap, Option, none, some, ok,
  if◌then◌else◌, arith,
}
use baa_ls.Types.{
  PublicKey, wallet, transfer, Transaction, Account, wallet_account, contract_account,
  account_nonce, set_nonce, Bincode,
}
use baa_ls.Storage.{Storage}
use baa_ls.BTreeMap.{key_eq_ne, get, insert, get-insert, key_eq, key_eq_refl}
use baa_ls.Contracts.{ContractEngine}
use baa_ls.Consensus.{next_u64}
use baa_ls.Ledger.Transactions.{
  Accounts, debit, credit_found, credit, apply_payload, apply_transaction,
}

-- The balance that an entry of the ledger stands for.
abbrev pub balance_of : Option Account → ℕ
balance_of (some (wallet_account balance nonce)) = balance
balance_of _ = 0

-- No account, or a wallet.
abbrev pub CanReceive : Option Account → Type 0
CanReceive none = Unit
CanReceive (some (wallet_account balance nonce)) = Unit
CanReceive (some (contract_account code_hash storage_root_hash nonce)) = ⊥

module _ {S : Type 0} (storage : Storage S) (engine : ContractEngine S) (b : Bincode) where
  -- What a transfer of `amount` from `tx.sender` needs of the store.
  pub record CanTransfer (tx : Transaction) (amount : ℕ) (s : S) : Type 0 where
    pub balance : ℕ
    pub nonce : ℕ
    pub recipient : PublicKey
    pub found : Option Account
    pub sender_lem : storage.get_account tx.sender s ≡ ok (some (wallet_account balance nonce))
    pub nonce_lem : tx.nonce ≡ next_u64 nonce
    pub covered : amount ≤ balance
    pub recipient_lem : tx.recipient ≡ wallet recipient
    pub found_lem : storage.get_account recipient s ≡ ok found
    pub can_receive : CanReceive found

  -- The accounts after the transfer.
  abbrev pub transferred :
      (tx : Transaction) (amount : ℕ) (s : S) → CanTransfer tx amount s → Accounts → Accounts
  transferred tx amount s can accounts =
      let paid =
        insert tx.sender (wallet_account (can.balance - amount) (next_u64 can.nonce))
          (insert tx.sender (wallet_account can.balance (next_u64 can.nonce)) accounts) in
      elim can.found [
        | some (wallet_account balance nonce) ↦
            insert can.recipient (wallet_account ((balance + amount) % 2 ^ 64) nonce) paid
        | _ ↦ insert can.recipient (wallet_account amount 0) paid
      ]

  pub transfer_applies :
      (tx : Transaction) (amount : ℕ) (accounts : Accounts) (s : S) (can : CanTransfer tx amount s)
      → tx.payload ≡ transfer amount
      → apply_transaction storage engine b tx accounts s
        ≡ (ok (transferred tx amount s can accounts), s)
  unfolding apply_transaction apply_payload debit credit credit_found account_nonce set_nonce
  transfer_applies tx amount accounts s can kind = ground (
    arith,
    get-insert tx.sender tx.sender (wallet_account can.balance (next_u64 can.nonce)) accounts,
    key_eq_refl tx.sender,
  )

  -- The recipient's account after the transfer.
  abbrev pub credited : Option Account → ℕ → Account
  credited (some (wallet_account balance nonce)) amount =
      wallet_account ((balance + amount) % 2 ^ 64) nonce
  credited _ amount = wallet_account amount 0

  pub get-transferred :
      (tx : Transaction) (amount : ℕ) (accounts : Accounts) (s : S) (can : CanTransfer tx amount s)
      (q : PublicKey)
      → get q (transferred tx amount s can accounts) ≡ (
          if key_eq can.recipient q
          then some (credited can.found amount)
          else if key_eq tx.sender q
          then some (wallet_account (can.balance - amount) (next_u64 can.nonce))
          else get q accounts)
  get-transferred tx amount accounts s can q = go can.found refl
    where
      paid : Accounts
      paid = insert tx.sender (wallet_account can.balance (next_u64 can.nonce)) accounts

      debited : Accounts
      debited = insert tx.sender (wallet_account (can.balance - amount) (next_u64 can.nonce)) paid

      go :
          (found : Option Account)
          → can.found ≡ found
          → get q (transferred tx amount s can accounts) ≡ (
              if key_eq can.recipient q
              then some (credited found amount)
              else if key_eq tx.sender q
              then some (wallet_account (can.balance - amount) (next_u64 can.nonce))
              else get q accounts)
      go none e = ground (
        arith,
        get-insert can.recipient q (wallet_account amount 0) debited,
        get-insert tx.sender q (wallet_account (can.balance - amount) (next_u64 can.nonce)) paid,
        get-insert tx.sender q (wallet_account can.balance (next_u64 can.nonce)) accounts,
      )
      go (some (wallet_account balance nonce)) e = ground (
        arith,
        get-insert can.recipient q (wallet_account ((balance + amount) % 2 ^ 64) nonce) debited,
        get-insert tx.sender q (wallet_account (can.balance - amount) (next_u64 can.nonce)) paid,
        get-insert tx.sender q (wallet_account can.balance (next_u64 can.nonce)) accounts,
      )
      go (some (contract_account code root nonce)) e = ground (arith, can.can_receive)

  pub credited_balance :
      (found : Option Account) (amount : ℕ)
      → CanReceive found
      → balance_of found + amount < 2 ^ 64
      → balance_of (some (credited found amount)) ≡ balance_of found + amount
  credited_balance none amount can_receive small = omega arith
  credited_balance (some (wallet_account balance nonce)) amount can_receive small = omega arith
  credited_balance (some (contract_account code root nonce)) amount can_receive small =
      absurd can_receive

  -- A transfer between two different parties, that the store permits and whose sum fits u64, is
  -- applied: the amount leaves the sender, whose nonce advances, reaches the recipient, their sum
  -- is the sum that they had stored, and no other entry of the update map changes.
  pub transfer_moves :
      (tx : Transaction) (amount : ℕ) (accounts : Accounts) (s : S) (can : CanTransfer tx amount s)
      → tx.payload ≡ transfer amount
      → tx.sender ≢ can.recipient
      → balance_of can.found + amount < 2 ^ 64
      → (accounts' : Accounts) × (apply_transaction storage engine b tx accounts s
          ≡ (ok accounts', s))
        × (get tx.sender accounts'
            ≡ some (wallet_account (can.balance - amount) (next_u64 can.nonce)))
        × (balance_of (get can.recipient accounts') ≡ balance_of can.found + amount)
        × (balance_of (get tx.sender accounts') + balance_of (get can.recipient accounts')
            ≡ can.balance + balance_of can.found)
        × ((q : PublicKey) → q ≢ tx.sender → q ≢ can.recipient → get q accounts' ≡ get q accounts)
  transfer_moves tx amount accounts s can kind apart fits = (
    transferred tx amount s can accounts,
    transfer_applies tx amount accounts s can kind,
    sender_part,
    recipient_part,
    omega (arith, recipient_part, ap balance_of sender_part, can.covered),
    others,
  )
    where
      sender_part :
          get tx.sender (transferred tx amount s can accounts)
          ≡ some (wallet_account (can.balance - amount) (next_u64 can.nonce))
      sender_part =
          get-transferred tx amount accounts s can tx.sender
          ∙ rw (key_eq_ne can.recipient tx.sender (λ e. apart (sym e)), key_eq_refl tx.sender)

      recipient_part :
          balance_of (get can.recipient (transferred tx amount s can accounts))
          ≡ balance_of can.found + amount
      recipient_part =
          ap balance_of {y = some (credited can.found amount)} (
            get-transferred tx amount accounts s can can.recipient ∙ rw (key_eq_refl can.recipient))
          ∙ credited_balance can.found amount can.can_receive fits

      others :
          (q : PublicKey)
          → q ≢ tx.sender
          → q ≢ can.recipient
          → get q (transferred tx amount s can accounts) ≡ get q accounts
      others q p r =
          get-transferred tx amount accounts s can q
          ∙ rw (key_eq_ne can.recipient q (λ e. r (sym e)), key_eq_ne tx.sender q (λ e. p (sym e)))
