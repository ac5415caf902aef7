-- ===== src/Runtime/Deadlock.antt =====
-- The locks of `Runtime::produce_block` (src/runtime.rs).
use baa_ls.Prelude.{
  ◌≡◌, ◌≢◌, refl, true, false, some, none, List, [], ◌∷◌, ok, returns, blocks, arith, Result-cases,
  inl, inr, ◌↔◌, ◌⊎◌, err,
}
use baa_ls.Types.{Transaction, Block, ChainState, Crypto, Bincode, verify_signature}
use baa_ls.Storage.{Storage}
use baa_ls.Contracts.{ContractEngine}
use baa_ls.Consensus.{ConsensusEngine, no_pending_transactions}
use baa_ls.Runtime.{RuntimeError, lock, hold, Runtime}
use baa_ls.Runtime.Submission.{IsFree}
use baa_ls.Runtime.Steps.{Reach, reach_held}
use baa_ls.Runtime.Calls.{
  lock_for_writing, generate, lock_for_reading, produce_block, submit_transaction, get_chain_state,
  not_found,
}

module _ {S : Type 0} (storage : Storage S) (engine : ContractEngine S)
    (consensus : ConsensusEngine) (c : Crypto) (b : Bincode) where
  -- Where the chain state is held, no thread can read it, submit or produce.
  pub record IsStuck (w : Runtime S) : Type 0 where
    pub get_blocks : get_chain_state storage engine consensus c b w ≡ (blocks, w)
    pub produce_blocks :
        (tx : Transaction) (rest : List Transaction)
        → w.mempool.value ≡ tx ∷ rest
        → w.mempool.held ≡ false
        → w.mempool.poisoned ≡ false
        → produce_block storage engine consensus c b w
          ≡ (blocks, record w { mempool = hold w.mempool })
    pub submit_blocks :
        (tx : Transaction)
        → verify_signature c b tx ≡ ok true
        → submit_transaction storage engine consensus c b tx w ≡ (blocks, w)

  held_IsStuck : (w : Runtime S) → w.chain_state.held ≡ true → IsStuck w
  unfolding get_chain_state produce_block submit_transaction lock
  held_IsStuck w h = record {
    get_blocks = ground arith;
    produce_blocks = λ tx rest e f g. ground arith;
    submit_blocks = λ tx e. ground arith;
  }

  -- A pending transaction, a readable head and a block from the engine.
  pub record CanProduce (w : Runtime S) : Type 0 where
    pub tx : Transaction
    pub rest : List Transaction
    pub pending_lem : w.mempool.value ≡ tx ∷ rest
    pub prev : Block
    pub head_lem :
        storage.get_block w.chain_state.value.latest_block_hash w.storage ≡ ok (some prev)
    pub block : Block
    pub block_lem : consensus.generate_block (tx ∷ rest) prev w.chain_state.value ≡ ok block

  produce_waits :
      (w : Runtime S)
      → IsFree storage engine consensus c b w
      → CanProduce w
      → produce_block storage engine consensus c b w
        ≡ (blocks, record w { chain_state = hold w.chain_state })
  unfolding produce_block lock
  produce_waits w free can = ground (arith, can.pending_lem, can.head_lem, can.block_lem)

  -- Nothing can be done, and nothing has changed.
  pub record IsDead (w w' : Runtime S) : Type 0 where
    pub stuck : IsStuck w'
    pub storage_lem : w'.storage ≡ w.storage
    pub chain_state_lem : w'.chain_state.value ≡ w.chain_state.value
    pub mempool_lem : w'.mempool.value ≡ w.mempool.value

  reach-IsDead :
      {w w' : Runtime S}
      → Reach storage engine consensus c b w w'
      → w.chain_state.held ≡ true
      → IsDead w w'
  reach-IsDead {w} {w'} reached h =
      let same = reach_held storage engine consensus c b reached h in
      record {
        stuck = held_IsStuck w' (same.idle.still_held h);
        storage_lem = same.idle.storage_lem;
        chain_state_lem = same.idle.chain_state_lem;
        mempool_lem = same.mempool_lem;
      }

  -- With free locks, a pending transaction, a readable head and a block from the engine,
  -- produce_block never returns and keeps the chain state locked; after that, whatever calls of
  -- submit_transaction and produce_block follow, the store, the chain state and the pending
  -- transactions stay the same, reading the chain state and submitting a signed transaction never
  -- return, nor does produce_block where the mempool is not locked.
  pub produce_block_deadlock :
      (w w' : Runtime S)
      → IsFree storage engine consensus c b w
      → CanProduce w
      → Reach storage engine consensus c b (record w { chain_state = hold w.chain_state }) w'
      → (produce_block storage engine consensus c b w
          ≡ (blocks, record w { chain_state = hold w.chain_state }))
        × IsDead w w'
  produce_block_deadlock w w' free can reached =
      let d = reach-IsDead reached refl in
      (
        produce_waits w free can,
        record {
          stuck = d.stuck;
          storage_lem = d.storage_lem;
          chain_state_lem = d.chain_state_lem;
          mempool_lem = d.mempool_lem;
        },
      )

  generate_returns :
      (tx : Transaction) (rest : List Transaction) (w : Runtime S)
      → w.mempool.value ≡ tx ∷ rest
      → CanProduce w
        ⊎ ((x : RuntimeError) × (generate storage engine consensus c b
                (tx ∷ rest)
                w.chain_state.value
                w
              ≡ (returns (err x), w)))
  unfolding generate
  generate_returns tx rest w pending =
      elim (Result-cases (storage.get_block w.chain_state.value.latest_block_hash w.storage)) [
        | inl (some prev, e) ↦
            elim (Result-cases (consensus.generate_block (tx ∷ rest) prev w.chain_state.value)) [
              | inl (made, f) ↦ inl (record {
                tx = tx;
                rest = rest;
                pending_lem = pending;
                prev = prev;
                head_lem = e;
                block = made;
                block_lem = f;
              })
              | inr (x, f) ↦ inr (RuntimeError.consensus_error x, ground arith)
            ]
        | inl (none, e) ↦ inr (not_found, ground arith)
        | inr (x, e) ↦ inr (RuntimeError.storage_error x, ground arith)
      ]

  produce_returns :
      (pending : List Transaction) (w : Runtime S)
      → w.mempool.value ≡ pending
      → IsFree storage engine consensus c b w
      → CanProduce w
        ⊎ ((x : RuntimeError) × (produce_block storage engine consensus c b w
              ≡ (returns (err x), w)))
  unfolding produce_block lock_for_reading lock
  produce_returns [] w pending free =
      inr (RuntimeError.consensus_error no_pending_transactions, ground arith)
  produce_returns (tx ∷ rest) w pending free = elim (generate_returns tx rest w pending) [
    | inl can ↦ inl can
    | inr (x, e) ↦ inr (x, ground arith)
  ]

  -- With free locks, produce_block returns an error and leaves the runtime unchanged exactly if
  -- there is no pending transaction, no readable head or no block from the engine.
  pub produce_block_returns :
      (w : Runtime S)
      → IsFree storage engine consensus c b w
      → ((x : RuntimeError) × (produce_block storage engine consensus c b w ≡ (returns (err x), w)))
        ↔ ¬ CanProduce w
  produce_block_returns w free = (
    λ r can. refuted r.0 r.1 (produce_waits w free can),
    λ stopped. decide stopped (produce_returns w.mempool.value w refl free),
  )
    where
      refuted :
          (x : RuntimeError)
          → produce_block storage engine consensus c b w ≡ (returns (err x), w)
          → produce_block storage engine consensus c b w
            ≡ (blocks, record w { chain_state = hold w.chain_state })
          → ⊥
      refuted x e f = cc

      decide :
          ¬ CanProduce w
          → CanProduce w
            ⊎ ((x : RuntimeError) × (produce_block storage engine consensus c b w
                  ≡ (returns (err x), w)))
          → (x : RuntimeError) × (produce_block storage engine consensus c b w
              ≡ (returns (err x), w))
      decide stopped (inl can) = absurd (stopped can)
      decide stopped (inr r) = r

  generate_never :
      (pending : List Transaction) (current : ChainState) (w : Runtime S) (block : Block)
      → (generate storage engine consensus c b pending current w).0 ≢ returns (ok block)
  unfolding generate lock_for_writing lock
  generate_never pending current w block h =
      elim (Result-cases (storage.get_block current.latest_block_hash w.storage)) [
        | inl (some prev, e) ↦ elim (Result-cases (consensus.generate_block pending prev current)) [
          | inl (made, f) ↦ ground arith
          | inr (x, f) ↦ ground arith
        ]
        | inl (none, e) ↦ ground arith
        | inr (x, e) ↦ ground arith
      ]

  reading_never :
      (pending : List Transaction) (w : Runtime S) (block : Block)
      → (lock_for_reading storage engine consensus c b pending w).0 ≢ returns (ok block)
  unfolding lock_for_reading lock
  reading_never [] w block h = cc
  reading_never (tx ∷ rest) w block h =
      ground (arith, generate_never (tx ∷ rest) w.chain_state.value w block)

  -- From no state does produce_block return a block.
  pub produce_block_never_succeeds :
      (w : Runtime S) (block : Block)
      → (produce_block storage engine consensus c b w).0 ≢ returns (ok block)
  unfolding produce_block lock
  produce_block_never_succeeds w block h = ground (arith, reading_never w.mempool.value w block)
