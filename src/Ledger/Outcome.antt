-- ===== src/Ledger/Outcome.antt =====
-- How `apply_block` (src/ledger.rs) ends for blocks without contracts, errors included.
use baa_ls.Prelude.{
  ◌≡◌, refl, sym, ap, subst, Result, ◌⊎◌, inl, inr, [], ◌++◌, ok, err, arith, All, Result-cases,
}
use baa_ls.Types.{Block, ChainState, Bincode}
use baa_ls.Storage.{Storage, StorageError, StorageBatch}
use baa_ls.Contracts.{ContractEngine}
use baa_ls.Ledger.{LedgerError, storage_error, LedgerState}
use baa_ls.Ledger.Transactions.{Accounts, apply_transactions}
use baa_ls.Ledger.Application.{
  account_puts, chain_state_put, advance, index_transactions, write_block, finish_block,
  apply_block,
}
use baa_ls.Ledger.Acceptance.{CanApply, apply_transactions_iff}
use baa_ls.Ledger.Nonces.{IsPlain, apply_transactions_reads}

module _ {S : Type 0} (storage : Storage S) (engine : ContractEngine S) (b : Bincode) where
  finish_block_chain_state :
      (block : Block) (ops : StorageBatch) (w : LedgerState S)
      → (finish_block storage engine b block ops w).1.chain_state ≡ w.chain_state
  unfolding finish_block
  finish_block_chain_state block ops w = elim (Result-cases (chain_state_put b w.chain_state)) [
    | inl (state_put, e) ↦ ground arith
    | inr (x, e) ↦ ground arith
  ]

  abbrev pub Advanced : Block → LedgerState S → Type 0
  Advanced block w =
      (apply_block storage engine b block w).1.chain_state ≡ advance block w.chain_state

  -- An error, with no trace.
  abbrev pub Refused : Block → LedgerState S → Type 0
  Refused block w = (e : LedgerError) × (apply_block storage engine b block w ≡ (err e, w))

  -- The updated accounts of the block cannot be encoded.
  abbrev pub IsUnencoded : Block → LedgerState S → Type 0
  IsUnencoded block w =
      (accounts : Accounts) × (deletes : StorageBatch) × ((apply_transactions storage engine b
          block.transactions [] [] w.storage).0
        ≡ ok (accounts, deletes))
      × (e : LedgerError) × (account_puts b accounts ≡ err e)

  -- The chain state names the block, and is otherwise as it was.
  pub record IsHead (block : Block) (before after : ChainState) : Type 0 where
    pub hash_lem : after.latest_block_hash ≡ block.hash
    pub index_lem : after.latest_block_index ≡ block.index
    pub root_lem : after.accounts_root_hash ≡ before.accounts_root_hash
    pub supply_lem : after.total_supply ≡ before.total_supply

  advance-IsHead : (block : Block) (state : ChainState) → IsHead block state (advance block state)
  unfolding advance
  advance-IsHead block state = record {
    hash_lem = refl;
    index_lem = refl;
    root_lem = refl;
    supply_lem = refl;
  }

  head_of :
      (block : Block) (w : LedgerState S) (accounts : Accounts) (deletes puts : StorageBatch)
      → (apply_transactions storage engine b block.transactions [] [] w.storage).0
        ≡ ok (accounts, deletes)
      → account_puts b accounts ≡ ok puts
      → Advanced block w
  unfolding apply_block
  head_of block w accounts deletes puts e f = ground (
    arith,
    finish_block_chain_state block (deletes ++ puts) (record {
      storage = (apply_transactions storage engine b block.transactions [] [] w.storage).1;
      chain_state = advance block w.chain_state;
    }),
  )

  permitted :
      (block : Block) (w : LedgerState S) (left : Accounts × StorageBatch)
      → All IsPlain block.transactions
      → (apply_transactions storage engine b block.transactions [] [] w.storage).0 ≡ ok left
      → All (CanApply storage engine b w.storage) block.transactions
  permitted block w left plain e =
      (apply_transactions_iff storage engine b block.transactions [] [] w.storage plain).0 (
        left,
        ground (
          arith,
          e,
          apply_transactions_reads storage engine b block.transactions [] [] w.storage plain,
        ),
      )

  not_permitted :
      (block : Block) (w : LedgerState S) (x : LedgerError)
      → All IsPlain block.transactions
      → (apply_transactions storage engine b block.transactions [] [] w.storage).0 ≡ err x
      → ¬ All (CanApply storage engine b w.storage) block.transactions
  not_permitted block w x plain e can =
      let (left, done) =
        (apply_transactions_iff storage engine b block.transactions [] [] w.storage plain).1 can in
      cc (e, ap {A = Result LedgerError (Accounts × StorageBatch) × S} (λ r. r.0) done)

  encoded :
      (block : Block) (w : LedgerState S) (accounts : Accounts) (deletes puts : StorageBatch)
      → (apply_transactions storage engine b block.transactions [] [] w.storage).0
        ≡ ok (accounts, deletes)
      → account_puts b accounts ≡ ok puts
      → ¬ IsUnencoded block w
  encoded block w accounts deletes puts e f (accounts', deletes', e', x, g) =
      let same : accounts ≡ accounts' = cc (e, e') in cc (same, f, g)

  -- Apply_block of a block without contract payloads ends in an error with the store and the chain
  -- state unchanged if the store does not permit every transaction by itself, and if it does but
  -- an updated account cannot be encoded; otherwise, whether the writes succeed or fail, it leaves
  -- a chain state with the block's hash and index and with the root hash and the supply of before.
  pub apply_block_outcome :
      (block : Block) (w : LedgerState S)
      → All IsPlain block.transactions
      → ((¬ All (CanApply storage engine b w.storage) block.transactions) × Refused block w)
        ⊎ ((All (CanApply storage engine b w.storage) block.transactions
              × IsUnencoded block w
              × Refused block w)
            ⊎ (All (CanApply storage engine b w.storage) block.transactions
                × (¬ IsUnencoded block w)
                × IsHead block w.chain_state (apply_block storage engine b block w).1.chain_state))
  unfolding apply_block
  apply_block_outcome block w plain =
      let loop = apply_transactions storage engine b block.transactions [] [] w.storage in
      let same =
        apply_transactions_reads storage engine b block.transactions [] [] w.storage plain in
      elim (Result-cases loop.0) [
        | inl ((accounts, deletes), e) ↦ elim (Result-cases (account_puts b accounts)) [
          | inl (puts, f) ↦ inr (
              inr (
                permitted block w (accounts, deletes) plain e,
                encoded block w accounts deletes puts e f,
                subst (IsHead block w.chain_state) (sym (head_of block w accounts deletes puts e f))
                    (advance-IsHead block w.chain_state),
              ))
          | inr (x, f) ↦ inr (
              inl (
                permitted block w (accounts, deletes) plain e,
                (accounts, deletes, e, x, f),
                (x, ground (arith, same)),
              ))
        ]
        | inr (x, e) ↦ inl (not_permitted block w x plain e, (x, ground (arith, same)))
      ]

  write_block_fails :
      (block : Block) (ops : StorageBatch) (s : S) (e : StorageError)
      → ((ops' : StorageBatch) (s' : S) → (storage.apply_batch ops' s').0 ≡ err e)
      → (f : StorageError) × ((write_block storage engine b block ops s).0 ≡ err (storage_error f))
  unfolding write_block
  write_block_fails block ops s e fails =
      elim (Result-cases
        (index_transactions storage engine b block.hash 0 block.transactions s).0) [
          | inl (done, p) ↦ (
            e,
            ground (
              arith,
              fails ops (index_transactions storage engine b block.hash 0 block.transactions s).1,
            ),
          )
          | inr (f, p) ↦ (f, ground arith)
        ]

  -- Where the loop and the encodings succeed and every batch is refused by the storage,
  -- apply_block ends in a storage error, and the chain state names the block that was not written.
  pub apply_block_advances_on_failure :
      (block : Block) (w : LedgerState S) (accounts : Accounts)
      (deletes puts state_put : StorageBatch) (e : StorageError)
      → (apply_transactions storage engine b block.transactions [] [] w.storage).0
        ≡ ok (accounts, deletes)
      → account_puts b accounts ≡ ok puts
      → chain_state_put b (advance block w.chain_state) ≡ ok state_put
      → ((ops : StorageBatch) (s : S) → (storage.apply_batch ops s).0 ≡ err e)
      → (f : StorageError) × ((apply_block storage engine b block w).0 ≡ err (storage_error f))
        × ((apply_block storage engine b block w).1.chain_state.latest_block_hash ≡ block.hash)
        × ((apply_block storage engine b block w).1.chain_state.latest_block_index ≡ block.index)
  unfolding apply_block finish_block advance
  apply_block_advances_on_failure block w accounts deletes puts state_put e loop encoded
        state_encoded fails =
      let (f, p) =
        write_block_fails block ((deletes ++ puts) ++ state_put)
          (apply_transactions storage engine b block.transactions [] [] w.storage).1 e fails in
      (f, ground arith, ground arith, ground arith)

  -- An applied block, of any kind, is the head of the chain state.
  pub apply_block_advances :
      (block : Block) (w : LedgerState S)
      → (apply_block storage engine b block w).0 ≡ ok tt
      → Advanced block w
  unfolding apply_block
  apply_block_advances block w h =
      let loop = apply_transactions storage engine b block.transactions [] [] w.storage in
      elim (Result-cases loop.0) [
        | inl ((accounts, deletes), e) ↦ elim (Result-cases (account_puts b accounts)) [
          | inl (puts, f) ↦ head_of block w accounts deletes puts e f
          | inr (x, f) ↦ absurd (ground arith)
        ]
        | inr (x, e) ↦ absurd (ground arith)
      ]
