-- ===== src/Ledger/Reordering.antt =====
-- The order of independent transfers in the loop of `apply_block` (src/ledger.rs).
use mathlib.Core.List.{Permᴰ}
use baa_ls.Prelude.{
  ◌≡◌, ◌≢◌, refl, sym, ap, subst, ◌∙◌, inl, inr, true, false, none, some, Option, ◌+◌, ◌-◌, ◌%◌,
  ◌^◌, List, [], ◌∷◌, ok, arith, All-Perm, Bool-cases,
}
use baa_ls.Types.{PublicKey, wallet_account, contract_account, Account, Bincode}
use baa_ls.Storage.{Storage, StorageBatch}
use baa_ls.BTreeMap.{get, key_eq, key_eq_sound, IsSorted, insert, insert-IsSorted}
use baa_ls.BTreeMap.Canonical.{same_lookups}
use baa_ls.Contracts.{ContractEngine}
use baa_ls.Consensus.{next_u64}
use baa_ls.Ledger.Transactions.{Accounts, apply_transactions}
use baa_ls.Ledger.Transfers.{transferred, get-transferred}
use baa_ls.Ledger.Independent.{Payment, IsOutside, IsIndependent, transactions, settle, all_applied}

module _ {S : Type 0} (storage : Storage S) (engine : ContractEngine S) (b : Bincode) where
  flip : {x y : PublicKey} → x ≢ y → y ≢ x
  flip h e = h (sym e)

  Perm-IsIndependent :
      {s : S} {ps qs : List (Payment storage engine b s)}
      → Permᴰ ps qs
      → IsIndependent storage engine b ps
      → IsIndependent storage engine b qs
  Perm-IsIndependent Permᴰ.nil h = tt
  Perm-IsIndependent (Permᴰ.cons {a = x} {b = y} {l₁ = l} {l₂ = r} e p) h =
      subst (λ z. IsIndependent storage engine b (z ∷ r)) e
        (
          All-Perm (IsOutside storage engine b x.tx.sender) p h.0,
          All-Perm (IsOutside storage engine b x.can.recipient) p h.1,
          Perm-IsIndependent p h.2,
        )
  Perm-IsIndependent (Permᴰ.swap {a = x} {b = y} {a' = x'} {b' = y'} {l = l} e f) h =
      subst (IsIndependent storage engine b) {x = y ∷ x ∷ l} {y = x' ∷ y' ∷ l} (cc (e, f)) (
        ((flip h.0.0.0, flip h.1.0.0), h.2.0),
        ((flip h.0.0.1, flip h.1.0.1), h.2.1),
        (h.0.1, h.1.1, h.2.2),
      )
  Perm-IsIndependent (Permᴰ.trans p q) h = Perm-IsIndependent q (Perm-IsIndependent p h)

  -- Two maps that answer every lookup alike.
  abbrev SameLookups : Accounts → Accounts → Type 0
  SameLookups m n = (k : PublicKey) → get k m ≡ get k n

  abbrev after : {s : S} → Payment storage engine b s → Accounts → Accounts
  after {s} p m = transferred storage engine b p.tx p.amount s p.can m

  after_same :
      {s : S} (p : Payment storage engine b s) (m n : Accounts)
      → SameLookups m n
      → SameLookups (after p m) (after p n)
  after_same {s} p m n e k = ground (
    arith,
    get-transferred storage engine b p.tx p.amount m s p.can k,
    get-transferred storage engine b p.tx p.amount n s p.can k,
    e k,
  )

  settle_same :
      {s : S} (ps : List (Payment storage engine b s)) (m n : Accounts)
      → SameLookups m n
      → SameLookups (settle storage engine b ps m) (settle storage engine b ps n)
  settle_same [] m n e = e
  settle_same (p ∷ rest) m n e = settle_same rest (after p m) (after p n) (after_same p m n e)

  one_key : (x y q : PublicKey) → x ≢ y → key_eq x q ≡ true → key_eq y q ≡ false
  one_key x y q h e = elim (Bool-cases (key_eq y q)) [
    | inl same ↦ absurd (h (key_eq_sound x q e ∙ sym (key_eq_sound y q same)))
    | inr other ↦ other
  ]

  swap_same :
      {s : S} (p q : Payment storage engine b s) (m : Accounts)
      → IsOutside storage engine b p.tx.sender q
      → IsOutside storage engine b p.can.recipient q
      → SameLookups (after q (after p m)) (after p (after q m))
  swap_same {s} p q m h g k = ground (
    arith,
    get-transferred storage engine b q.tx q.amount (after p m) s q.can k,
    get-transferred storage engine b p.tx p.amount m s p.can k,
    get-transferred storage engine b p.tx p.amount (after q m) s p.can k,
    get-transferred storage engine b q.tx q.amount m s q.can k,
    one_key q.tx.sender p.tx.sender k h.0,
    one_key q.can.recipient p.tx.sender k h.1,
    one_key q.tx.sender p.can.recipient k g.0,
    one_key q.can.recipient p.can.recipient k g.1,
  )

  settle_reordered :
      {s : S} {ps qs : List (Payment storage engine b s)}
      → Permᴰ ps qs
      → IsIndependent storage engine b ps
      → (m : Accounts) → SameLookups (settle storage engine b ps m) (settle storage engine b qs m)
  settle_reordered Permᴰ.nil h m k = refl
  settle_reordered (Permᴰ.cons {a = x} {b = y} {l₁ = l} {l₂ = r} e p) h m k =
      settle_reordered p h.2 (after x m) k
      ∙ ap (λ z. get k (settle storage engine b r (after z m))) e
  settle_reordered (Permᴰ.swap {a = x} {b = y} {a' = x'} {b' = y'} {l = l} e f) h m k =
      settle_same l (after y (after x m)) (after x (after y m)) (swap_same x y m h.0.0 h.1.0) k
      ∙ (ap (λ z. get k (settle storage engine b l (after x (after z m)))) f
          ∙ ap (λ z. get k (settle storage engine b l (after z (after x' m)))) e)
  settle_reordered (Permᴰ.trans p q) h m k =
      settle_reordered p h m k ∙ settle_reordered q (Perm-IsIndependent p h) m k

  transferred-IsSorted :
      {s : S} (p : Payment storage engine b s) (m : Accounts) → IsSorted m → IsSorted (after p m)
  transferred-IsSorted {s} p m h = go p.can.found refl
    where
      debited : Accounts
      debited =
          insert p.tx.sender (wallet_account (p.can.balance - p.amount) (next_u64 p.can.nonce))
            (insert p.tx.sender (wallet_account p.can.balance (next_u64 p.can.nonce)) m)

      debited_sorted : IsSorted debited
      debited_sorted =
          insert-IsSorted p.tx.sender _
            (insert p.tx.sender (wallet_account p.can.balance (next_u64 p.can.nonce)) m)
            (insert-IsSorted p.tx.sender _ m h)

      go : (found : Option Account) → p.can.found ≡ found → IsSorted (after p m)
      go none e =
          rw e (insert-IsSorted p.can.recipient (wallet_account p.amount 0) debited debited_sorted)
      go (some (wallet_account balance nonce)) e = rw e (
          insert-IsSorted p.can.recipient (wallet_account ((balance + p.amount) % 2 ^ 64) nonce)
            debited debited_sorted)
      go (some (contract_account code root nonce)) e =
          rw e (insert-IsSorted p.can.recipient (wallet_account p.amount 0) debited debited_sorted)

  settle-IsSorted :
      {s : S} (ps : List (Payment storage engine b s)) (m : Accounts)
      → IsSorted m
      → IsSorted (settle storage engine b ps m)
  settle-IsSorted [] m h = h
  settle-IsSorted (p ∷ rest) m h = settle-IsSorted rest (after p m) (transferred-IsSorted p m h)

  -- Any number of transfers that the store permits, between parties that are all different, with
  -- sums that fit u64 and hashes that can be written, are applied by the loop of apply_block in
  -- every order, with the store left as it was and the same updated accounts.
  pub apply_transactions_reordered :
      (s : S) (ps qs : List (Payment storage engine b s))
      → IsIndependent storage engine b ps
      → Permᴰ ps qs
      → (accounts : Accounts) × (ops : StorageBatch) × (ops' : StorageBatch) × (apply_transactions
            storage engine b
            (transactions storage engine b ps)
            []
            []
            s
          ≡ (ok (accounts, ops), s))
        × (apply_transactions storage engine b (transactions storage engine b qs) [] [] s
            ≡ (ok (accounts, ops'), s))
  apply_transactions_reordered s ps qs independent reordered =
      let (ops, e) = all_applied storage engine b ps [] [] in
      let (ops', f) = all_applied storage engine b qs [] [] in
      let same =
        same_lookups (settle storage engine b ps []) (settle storage engine b qs [])
          (settle-IsSorted ps [] tt) (settle-IsSorted qs [] tt)
          (settle_reordered reordered independent []) in
      (settle storage engine b ps [], ops, ops', e, rw same f)
