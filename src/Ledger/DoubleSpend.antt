-- ===== src/Ledger/DoubleSpend.antt =====
-- Two payments of one sender in the loop of `apply_block` (src/ledger.rs).
use baa_ls.Prelude.{
  ℕ, ◌+◌, ◌-◌, ◌^◌, ◌<◌, ◌≡◌, ◌≢◌, refl, sym, ap, ◌∙◌, some, [], ◌∷◌, Bytes, ok, arith,
}
use baa_ls.Types.{Transaction, transfer, wallet_account, Bincode}
use baa_ls.Storage.{Storage, StorageBatch, delete}
use baa_ls.BTreeMap.{get, key_eq_refl, key_eq_ne}
use baa_ls.Contracts.{ContractEngine}
use baa_ls.Consensus.{next_u64}
use baa_ls.Ledger.Validation.{serialize}
use baa_ls.Ledger.Transactions.{Accounts, apply_transaction, apply_transactions}
use baa_ls.Ledger.Transfers.{
  balance_of, CanTransfer, transferred, transfer_applies, credited, get-transferred,
  credited_balance,
}

module _ {S : Type 0} (storage : Storage S) (engine : ContractEngine S) (b : Bincode) where
  -- Two payments of one sender to two others, each of which the store permits alone.
  pub record TwoPayments (first second : Transaction) (a c : ℕ) (s : S) : Type 0 where
    pub first_can : CanTransfer storage engine b first a s
    pub second_can : CanTransfer storage engine b second c s
    pub first_kind : first.payload ≡ transfer a
    pub second_kind : second.payload ≡ transfer c
    pub one_sender : first.sender ≡ second.sender
    pub first_other : second.sender ≢ first_can.recipient
    pub second_other : second.sender ≢ second_can.recipient
    pub two_recipients : first_can.recipient ≢ second_can.recipient
    pub first_fits : balance_of first_can.found + a < 2 ^ 64
    pub second_fits : balance_of second_can.found + c < 2 ^ 64
    pub first_key : Bytes
    pub second_key : Bytes
    pub first_encoded : serialize b.hash_codec first.hash ≡ ok first_key
    pub second_encoded : serialize b.hash_codec second.hash ≡ ok second_key

  -- the loop over two transactions that are applied
  two_applied :
      (first second : Transaction) (s : S) (m n : Accounts) (k l : Bytes)
      → apply_transaction storage engine b first [] s ≡ (ok m, s)
      → apply_transaction storage engine b second m s ≡ (ok n, s)
      → serialize b.hash_codec first.hash ≡ ok k
      → serialize b.hash_codec second.hash ≡ ok l
      → apply_transactions storage engine b (first ∷ second ∷ []) [] [] s
        ≡ (ok (n, delete k ∷ delete l ∷ []), s)
  unfolding apply_transactions
  two_applied first second s m n k l e f g h = ground arith

  -- Where the store permits each of two transfers of one sender alone, to two other recipients and
  -- with sums that fit u64, the loop of apply_block applies both in one block: the sender ends
  -- with the balance of the second transfer alone, and the three accounts hold the first amount
  -- more than before.
  pub two_payments_mint :
      (first second : Transaction) (a c : ℕ) (s : S) (p : TwoPayments first second a c s)
      → (accounts : Accounts) × (ops : StorageBatch) × (apply_transactions storage engine b
            (first ∷ second ∷ [])
            []
            []
            s
          ≡ (ok (accounts, ops), s))
        × (get second.sender accounts
            ≡ some (wallet_account (p.second_can.balance - c) (next_u64 p.second_can.nonce)))
        × (balance_of (get second.sender accounts)
              + (balance_of (get p.first_can.recipient accounts)
                  + balance_of (get p.second_can.recipient accounts))
            ≡ (p.second_can.balance
                + (balance_of p.first_can.found + balance_of p.second_can.found))
              + a)
  two_payments_mint first second a c s p =
      let m = transferred storage engine b first a s p.first_can [] in
      let n = transferred storage engine b second c s p.second_can m in
      (
        n,
        delete p.first_key ∷ delete p.second_key ∷ [],
        two_applied first second s m n p.first_key p.second_key
            (transfer_applies storage engine b first a [] s p.first_can p.first_kind)
            (transfer_applies storage engine b second c m s p.second_can p.second_kind)
            p.first_encoded p.second_encoded,
        sender_part,
        omega (
          arith,
          ap balance_of sender_part,
          ap balance_of first_part,
          ap balance_of second_part,
          p.second_can.covered,
          credited_balance storage engine b p.first_can.found a p.first_can.can_receive
              p.first_fits,
          credited_balance storage engine b p.second_can.found c p.second_can.can_receive
              p.second_fits,
        ),
      )
    where
      m : Accounts
      m = transferred storage engine b first a s p.first_can []

      n : Accounts
      n = transferred storage engine b second c s p.second_can m

      sender_part :
          get second.sender n
          ≡ some (wallet_account (p.second_can.balance - c) (next_u64 p.second_can.nonce))
      sender_part =
          get-transferred storage engine b second c m s p.second_can second.sender
          ∙ rw
              (
                key_eq_ne p.second_can.recipient second.sender (λ e. p.second_other (sym e)),
                key_eq_refl second.sender,
              )
              refl

      second_part :
          get p.second_can.recipient n ≡ some (credited storage engine b p.second_can.found c)
      second_part =
          get-transferred storage engine b second c m s p.second_can p.second_can.recipient
          ∙ rw (key_eq_refl p.second_can.recipient) refl

      first_part :
          get p.first_can.recipient n ≡ some (credited storage engine b p.first_can.found a)
      first_part =
          get-transferred storage engine b second c m s p.second_can p.first_can.recipient
          ∙ (rw
                (
                  key_eq_ne p.second_can.recipient p.first_can.recipient
                      (λ e. p.two_recipients (sym e)),
                  key_eq_ne second.sender p.first_can.recipient p.first_other,
                )
                refl
              ∙ (get-transferred storage engine b first a [] s p.first_can p.first_can.recipient
                  ∙ rw (key_eq_refl p.first_can.recipient) refl))
