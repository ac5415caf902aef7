-- ===== src/Runtime/Threads/Alone.antt =====
-- The calls of src/runtime.rs cut at their locks, run by one thread alone.
use baa_ls.Prelude.{
  List, ◌≡◌, refl, inl, inr, true, false, none, some, [], ◌∷◌, Outcome, returns, blocks, arith,
  Result-cases,
}
use baa_ls.Types.{Transaction, Block, Crypto, Bincode, verify_signature}
use baa_ls.Storage.{Storage}
use baa_ls.Contracts.{ContractEngine}
use baa_ls.Consensus.{ConsensusEngine}
use baa_ls.Runtime.{RuntimeError, lock, hold, Runtime}
use baa_ls.Runtime.Calls.{
  submit_transaction, produce_block, generate, lock_for_reading, lock_for_writing,
}
use baa_ls.Runtime.Threads.{
  Thread, submitting, submitted, producing, at_head, produced, drive, check_signature, check_sender,
  make_block,
}

-- What a thread returns, if it has ended.
abbrev pub submit_outcome : Thread → Outcome RuntimeError (Unit {0})
submit_outcome (submitted tx r) = returns r
submit_outcome _ = blocks

abbrev pub produce_outcome : Thread → Outcome RuntimeError Block
produce_outcome (produced r) = returns r
produce_outcome _ = blocks

module _ {S : Type 0} (storage : Storage S) (engine : ContractEngine S)
    (consensus : ConsensusEngine) (c : Crypto) (b : Bincode) where
  drive-submit_transaction :
      (tx : Transaction) (w : Runtime S)
      → let (t, w') = drive storage engine consensus c b 3 (submitting tx) w in
        (submit_outcome t, w') ≡ submit_transaction storage engine consensus c b tx w
  unfolding drive submit_transaction lock check_signature check_sender
  drive-submit_transaction tx w = elim (Result-cases (verify_signature c b tx)) [
    | inl (true, e) ↦ elim (Result-cases (storage.get_account tx.sender w.storage)) [
      | inl (found, f) ↦ ground arith
      | inr (x, f) ↦ ground arith
    ]
    | inl (false, e) ↦ ground arith
    | inr (x, e) ↦ ground arith
  ]

  -- with the mempool locked
  head_lem :
      (tx : Transaction) (rest : List Transaction) (w : Runtime S)
      → w.mempool.value ≡ tx ∷ rest
      → w.mempool.held ≡ false
      → let (t, w') =
          drive storage engine consensus c b 3 at_head (record w { mempool = hold w.mempool }) in
        (produce_outcome t, w') ≡ lock_for_reading storage engine consensus c b (tx ∷ rest) w
  unfolding drive lock_for_reading generate lock_for_writing lock make_block
  head_lem tx rest w e h =
      elim (Result-cases (storage.get_block w.chain_state.value.latest_block_hash w.storage)) [
        | inl (some prev, f) ↦
            elim (Result-cases (consensus.generate_block (tx ∷ rest) prev w.chain_state.value)) [
              | inl (made, g) ↦ ground arith
              | inr (x, g) ↦ ground arith
            ]
        | inl (none, f) ↦ ground arith
        | inr (x, f) ↦ ground arith
      ]

  drive-produce_block :
      (w : Runtime S)
      → let (t, w') = drive storage engine consensus c b 4 producing w in
        (produce_outcome t, w') ≡ produce_block storage engine consensus c b w
  unfolding drive produce_block lock make_block
  drive-produce_block w = go w.mempool.value refl
    where
      go :
          (l : List Transaction)
          → w.mempool.value ≡ l
          → let (t, w') = drive storage engine consensus c b 4 producing w in
            (produce_outcome t, w') ≡ produce_block storage engine consensus c b w
      go [] e = ground arith
      go (tx ∷ rest) e = ground (arith, head_lem tx rest w e)

  -- In every runtime, submit_transaction cut at its locks and run by one thread alone ends, or
  -- waits, after at most three moves with the result and the runtime of the whole call, and
  -- produce_block does after at most four.
  pub one_thread :
      (tx : Transaction) (w : Runtime S)
      → let (t, w') = drive storage engine consensus c b 3 (submitting tx) w in
        let (u, w'') = drive storage engine consensus c b 4 producing w in
        (◌≡◌ {A = Outcome RuntimeError (Unit {0}) × Runtime S}
          (submit_outcome t, w')
          (submit_transaction storage engine consensus c b tx w))
        × (◌≡◌ {A = Outcome RuntimeError Block × Runtime S}
            (produce_outcome u, w'')
            (produce_block storage engine consensus c b w))
  one_thread tx w = (drive-submit_transaction tx w, drive-produce_block w)
