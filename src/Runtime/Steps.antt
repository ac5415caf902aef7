-- ===== src/Runtime/Steps.antt =====
-- Sequences of calls of `Runtime` (src/runtime.rs), each by a thread of its own: a thread that
-- waits for a lock stays where it is, with the guards it has.
use baa_ls.Prelude.{
  ◌≡◌, refl, sym, ap, inl, inr, true, some, none, List, [], ◌∷◌, arith, Result-cases, All,
  All-append, ◌∙◌,
}
use baa_ls.Types.{Transaction, ChainState, Crypto, Bincode}
use baa_ls.Storage.{Storage}
use baa_ls.Contracts.{ContractEngine}
use baa_ls.Consensus.{ConsensusEngine}
use baa_ls.Runtime.{lock, Runtime}
use baa_ls.Runtime.Calls.{
  lock_for_writing, generate, lock_for_reading, produce_block, submit_transaction,
}
use baa_ls.Runtime.Submission.{IsAcceptable, submit_mempool}

module _ {S : Type 0} (storage : Storage S) (engine : ContractEngine S)
    (consensus : ConsensusEngine) (c : Crypto) (b : Bincode) where
  -- A call of a thread, from the runtime it finds to the one it leaves.
  pub data Step : Runtime S → Runtime S → Type 0 where
    submits :
        (tx : Transaction) {w : Runtime S}
        → Step w (submit_transaction storage engine consensus c b tx w).1
    produces : {w : Runtime S} → Step w (produce_block storage engine consensus c b w).1

  pub data Reach (start : Runtime S) : Runtime S → Type 0 where
    starts : Reach start start
    steps : {w w' : Runtime S} → Reach start w → Step w w' → Reach start w'

  -- The store and the chain state are the same, and a chain state that is held stays held.
  pub record IsIdle (w w' : Runtime S) : Type 0 where
    pub storage_lem : w'.storage ≡ w.storage
    pub chain_state_lem : w'.chain_state.value ≡ w.chain_state.value
    pub still_held : w.chain_state.held ≡ true → w'.chain_state.held ≡ true

  -- and the mempool has the same transactions
  pub record IsSame (w w' : Runtime S) : Type 0 where
    pub idle : IsIdle w w'
    pub mempool_lem : w'.mempool.value ≡ w.mempool.value

  generate-IsSame :
      (pending : List Transaction) (current : ChainState) (w : Runtime S)
      → IsSame w (generate storage engine consensus c b pending current w).1
  unfolding generate lock_for_writing lock
  generate-IsSame pending current w =
      elim (Result-cases (storage.get_block current.latest_block_hash w.storage)) [
        | inl (some prev, e) ↦ elim (Result-cases (consensus.generate_block pending prev current)) [
          | inl (made, f) ↦ ground arith
          | inr (x, f) ↦ ground arith
        ]
        | inl (none, e) ↦ ground arith
        | inr (x, e) ↦ ground arith
      ]

  reading-IsSame :
      (pending : List Transaction) (w : Runtime S)
      → IsSame w (lock_for_reading storage engine consensus c b pending w).1
  unfolding lock_for_reading lock
  reading-IsSame [] w = ground arith
  reading-IsSame (tx ∷ rest) w = ground (arith, generate-IsSame (tx ∷ rest) w.chain_state.value w)

  produce-IsSame : (w : Runtime S) → IsSame w (produce_block storage engine consensus c b w).1
  unfolding produce_block lock
  produce-IsSame w = ground (arith, reading-IsSame w.mempool.value w)

  submit_idle :
      (tx : Transaction) (w : Runtime S)
      → IsIdle w (submit_transaction storage engine consensus c b tx w).1
  unfolding submit_transaction lock
  submit_idle tx w = ground arith

  step_idle : {w w' : Runtime S} → Step w w' → IsIdle w w'
  step_idle (submits tx {w}) = submit_idle tx w
  step_idle (produces {w}) = (produce-IsSame w).idle

  held_adds_nothing :
      (tx : Transaction) (w : Runtime S)
      → w.chain_state.held ≡ true
      → (submit_transaction storage engine consensus c b tx w).1.mempool.value ≡ w.mempool.value
  unfolding submit_transaction lock
  held_adds_nothing tx w h = ground arith

  Step-IsSame : {w w' : Runtime S} → Step w w' → w.chain_state.held ≡ true → IsSame w w'
  Step-IsSame (submits tx {w}) h = record {
    idle = submit_idle tx w;
    mempool_lem = held_adds_nothing tx w h;
  }
  Step-IsSame (produces {w}) h = produce-IsSame w

  pub reach_held :
      {start w : Runtime S} → Reach start w → start.chain_state.held ≡ true → IsSame start w
  reach_held starts h = record {
    idle = record { storage_lem = refl; chain_state_lem = refl; still_held = λ e. e };
    mempool_lem = refl;
  }
  reach_held (steps reached step) h =
      let before = reach_held reached h in
      let after = Step-IsSame step (before.idle.still_held h) in
      record {
        idle = record {
          storage_lem = after.idle.storage_lem ∙ before.idle.storage_lem;
          chain_state_lem = after.idle.chain_state_lem ∙ before.idle.chain_state_lem;
          still_held = λ e. after.idle.still_held (before.idle.still_held e);
        };
        mempool_lem = after.mempool_lem ∙ before.mempool_lem;
      }

  -- The store and the chain state are those of the start, and each pending transaction is signed
  -- and has a nonce above the one that its sender has in the store.
  pub record IsSound (start w : Runtime S) : Type 0 where
    pub storage_lem : w.storage ≡ start.storage
    pub chain_state_lem : w.chain_state.value ≡ start.chain_state.value
    pub pending_lem : All (λ tx. IsAcceptable storage engine consensus c b tx start) w.mempool.value

  start-IsAcceptable :
      (tx : Transaction) (start w : Runtime S)
      → w.storage ≡ start.storage
      → IsAcceptable storage engine consensus c b tx w
      → IsAcceptable storage engine consensus c b tx start
  start-IsAcceptable tx start w e a = record {
    verified = a.verified;
    found = a.found;
    found_lem = ap (storage.get_account tx.sender) (sym e) ∙ a.found_lem;
    fresh = a.fresh;
  }

  Step-pending :
      (start : Runtime S) {w w' : Runtime S}
      → Step w w'
      → IsSound start w
      → All (λ tx. IsAcceptable storage engine consensus c b tx start) w'.mempool.value
  Step-pending start (produces {w}) sound = rw (produce-IsSame w).mempool_lem sound.pending_lem
  Step-pending start (submits tx {w}) sound =
      elim (submit_mempool storage engine consensus c b tx w) [
        | inl same ↦ rw same sound.pending_lem
        | inr (acceptable, added) ↦ rw added (
            All-append (λ x. IsAcceptable storage engine consensus c b x start) w.mempool.value
              (tx ∷ []) sound.pending_lem
              (start-IsAcceptable tx start w sound.storage_lem acceptable, tt))
      ]

  -- In every runtime that calls of submit_transaction and produce_block, also ones that never
  -- return, can reach from a start whose pending transactions are signed and have nonces above the
  -- stored ones, the pending transactions are so, and the store and the value of the chain state
  -- are those of the start.
  pub Reach-IsSound :
      {start w : Runtime S}
      → Reach start w
      → All (λ tx. IsAcceptable storage engine consensus c b tx start) start.mempool.value
      → IsSound start w
  Reach-IsSound {start} starts pending = record {
    storage_lem = refl;
    chain_state_lem = refl;
    pending_lem = pending;
  }
  Reach-IsSound {start} (steps reached step) pending =
      let sound = Reach-IsSound reached pending in
      let idle = step_idle step in
      record {
        storage_lem = idle.storage_lem ∙ sound.storage_lem;
        chain_state_lem = idle.chain_state_lem ∙ sound.chain_state_lem;
        pending_lem = Step-pending start step sound;
      }
