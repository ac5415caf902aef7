-- ===== src/Runtime/Submission.antt =====
-- What `Runtime::submit_transaction` (src/runtime.rs) lets into the mempool.
use baa_ls.Prelude.{
  ◌<◌, ◌≡◌, ◌≢◌, ◌↔◌, ap, inl, inr, true, false, Option, [], ◌∷◌, ◌++◌, ok, err, Outcome, returns,
  arith, Result-cases, Bool-cases, leb, Result, ◌⊎◌, Outcome-cases, All, All-append,
}
use baa_ls.Types.{Transaction, Account, Crypto, Bincode, verify_signature}
use baa_ls.Storage.{Storage}
use baa_ls.Contracts.{ContractEngine}
use baa_ls.Consensus.{ConsensusEngine}
use baa_ls.Runtime.{
  RuntimeError, invalid_transaction, nonce_too_low, bad_signature, lock, store_value, Runtime,
}
use baa_ls.Runtime.Calls.{stored_nonce, submit_transaction}

module _ {S : Type 0} (storage : Storage S) (engine : ContractEngine S)
    (consensus : ConsensusEngine) (c : Crypto) (b : Bincode) where
  -- No lock is held or poisoned.
  pub record IsFree (w : Runtime S) : Type 0 where
    pub mempool_free : w.mempool.held ≡ false
    pub mempool_sound : w.mempool.poisoned ≡ false
    pub chain_state_free : w.chain_state.held ≡ false
    pub chain_state_sound : w.chain_state.poisoned ≡ false

  -- Signed by its sender, with a nonce above the stored one.
  pub record IsAcceptable (tx : Transaction) (w : Runtime S) : Type 0 where
    pub verified : verify_signature c b tx ≡ ok true
    pub found : Option Account
    pub found_lem : storage.get_account tx.sender w.storage ≡ ok found
    pub fresh : stored_nonce storage engine consensus c b found < tx.nonce

  submit_accepts :
      (tx : Transaction) (w : Runtime S)
      → IsFree w
      → IsAcceptable tx w
      → submit_transaction storage engine consensus c b tx w ≡ (
        returns (ok tt),
        record w { mempool = store_value w.mempool (w.mempool.value ++ tx ∷ []) },
      )
  unfolding submit_transaction lock
  submit_accepts tx w free acceptable = ground (arith, acceptable.fresh)

  pub submit_needs :
      (tx : Transaction) (w : Runtime S)
      → (submit_transaction storage engine consensus c b tx w).0 ≡ returns (ok tt)
      → IsAcceptable tx w
  unfolding submit_transaction lock
  submit_needs tx w h = elim (Result-cases (storage.get_account tx.sender w.storage)) [
    | inl (found, e) ↦ record {
      verified = ground arith;
      found = found;
      found_lem = e;
      fresh = ground arith;
    }
    | inr (x, e) ↦ absurd (ground arith)
  ]

  -- A call of submit_transaction that ends in an error leaves the runtime unchanged.
  pub submit_unchanged :
      (tx : Transaction) (w : Runtime S) (x : RuntimeError)
      → (submit_transaction storage engine consensus c b tx w).0 ≡ returns (err x)
      → (submit_transaction storage engine consensus c b tx w).1 ≡ w
  unfolding submit_transaction lock
  submit_unchanged tx w x h = ground arith

  -- With free locks, submit_transaction succeeds with the transaction at the end of the mempool
  -- and nothing else changed exactly if its signature verifies and its nonce is above the one
  -- stored for its sender (0 without an account), also when the mempool holds the same transaction
  -- already.
  pub submit_transaction_iff :
      (tx : Transaction) (w : Runtime S)
      → IsFree w
      → (submit_transaction storage engine consensus c b tx w ≡ (
        returns (ok tt),
        record w { mempool = store_value w.mempool (w.mempool.value ++ tx ∷ []) },
      ))
        ↔ IsAcceptable tx w
  submit_transaction_iff tx w free = (
    (λ e. submit_needs tx w (ap {A = Outcome RuntimeError (Unit {0}) × Runtime S} (λ r. r.0) e)),
    λ acceptable. submit_accepts tx w free acceptable,
  )

  submit_adds :
      (tx : Transaction) (w : Runtime S)
      → (submit_transaction storage engine consensus c b tx w).0 ≡ returns (ok tt)
      → (submit_transaction storage engine consensus c b tx w).1.mempool.value
        ≡ w.mempool.value ++ tx ∷ []
  unfolding submit_transaction lock
  submit_adds tx w h = ground arith

  submit_adds_nothing :
      (tx : Transaction) (w : Runtime S)
      → (submit_transaction storage engine consensus c b tx w).0 ≢ returns (ok tt)
      → (submit_transaction storage engine consensus c b tx w).1.mempool.value ≡ w.mempool.value
  unfolding submit_transaction lock
  submit_adds_nothing tx w h = ground arith

  -- What one call does to the mempool.
  pub submit_mempool :
      (tx : Transaction) (w : Runtime S)
      → ((submit_transaction storage engine consensus c b tx w).1.mempool.value ≡ w.mempool.value)
        ⊎ (IsAcceptable tx w
            × ((submit_transaction storage engine consensus c b tx w).1.mempool.value
                ≡ w.mempool.value ++ tx ∷ []))
  submit_mempool tx w =
      elim (Outcome-cases (submit_transaction storage engine consensus c b tx w).0) [
        | inl done ↦ inr (submit_needs tx w done, submit_adds tx w done)
        | inr refused ↦ inl (submit_adds_nothing tx w refused)
      ]

  abbrev pub IsSigned : Transaction → Type 0
  IsSigned tx = verify_signature c b tx ≡ ok true

  -- submit_transaction keeps the invariant that every transaction of the mempool has a valid
  -- signature.
  pub submit_transaction-IsSigned :
      (tx : Transaction) (w : Runtime S)
      → All IsSigned w.mempool.value
      → All IsSigned (submit_transaction storage engine consensus c b tx w).1.mempool.value
  submit_transaction-IsSigned tx w signed = elim (submit_mempool tx w) [
    | inl same ↦ rw same signed
    | inr (acceptable, added) ↦
        rw added (All-append IsSigned w.mempool.value (tx ∷ []) signed (acceptable.verified, tt))
  ]

  -- With free locks, submit_transaction returns, and leaves the locks free.
  pub submit_transaction_returns :
      (tx : Transaction) (w : Runtime S)
      → IsFree w
      → (r : Result RuntimeError Unit) × ((submit_transaction storage engine consensus c b tx w).0
          ≡ returns r)
        × IsFree (submit_transaction storage engine consensus c b tx w).1
  unfolding submit_transaction lock
  submit_transaction_returns tx w free = elim (Result-cases (verify_signature c b tx)) [
    | inl (true, e) ↦ elim (Result-cases (storage.get_account tx.sender w.storage)) [
      | inl (found, f) ↦
          elim (Bool-cases (leb tx.nonce (stored_nonce storage engine consensus c b found))) [
            | inl low ↦ (
              err (
                  invalid_transaction
                    (nonce_too_low (stored_nonce storage engine consensus c b found) tx.nonce)),
              ground arith,
              ground arith,
            )
            | inr high ↦ (ok tt, ground arith, ground arith)
          ]
      | inr (x, f) ↦ (err (RuntimeError.storage_error x), ground arith, ground arith)
    ]
    | inl (false, e) ↦ (err (invalid_transaction bad_signature), ground arith, ground arith)
    | inr (x, e) ↦ (err (RuntimeError.crypto_error x), ground arith, ground arith)
  ]
