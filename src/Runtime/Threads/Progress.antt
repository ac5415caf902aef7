-- ===== src/Runtime/Threads/Progress.antt =====
-- The end of threads that call `submit_transaction` (src/runtime.rs).
use mathlib.Core.List.{Perm}
use baa_ls.Prelude.{
  ℕ, zero, suc, ◌*◌, ◌≤◌, ◌≡◌, refl, sym, ap, inl, inr, true, false, List, [], ◌∷◌, ◌++◌, ok, err,
  returns, arith, Result-cases, Bool-cases, All, ◌⊎◌, leb, map, length,
}
use baa_ls.Types.{Transaction, Crypto, Bincode, verify_signature}
use baa_ls.Storage.{Storage}
use baa_ls.Contracts.{ContractEngine}
use baa_ls.Consensus.{ConsensusEngine}
use baa_ls.Runtime.{
  hold, invalid_transaction, bad_signature, nonce_too_low, RuntimeError, Runtime, lock, store_value,
}
use baa_ls.Runtime.Calls.{stored_nonce, submit_transaction}
use baa_ls.Runtime.Submission.{IsFree}
use baa_ls.Runtime.Threads.{
  check_signature, check_sender, release, Thread, submitting, at_chain_state, at_mempool, submitted,
  producing, at_head, at_second_lock, at_clearing, produced, Moves, here, there, Runs, move,
}
use baa_ls.Runtime.Threads.Submitters.{
  remaining, accepted, subjects, holders, bit, IsOnTrack, IsShared,
}
use baa_ls.Runtime.Threads.Together.{IsTogether, arrive, run_length}

module _ {S : Type 0} (storage : Storage S) (engine : ContractEngine S)
    (consensus : ConsensusEngine) (c : Crypto) (b : Bincode) (start : Runtime S)
    (free : IsFree storage engine consensus c b start) where
  abbrev pub CanMove : List Thread → Runtime S → Type 0
  CanMove ts w =
      (ts' : List Thread) × (w' : Runtime S) × Moves storage engine consensus c b ts w ts' w'

  later : (t : Thread) {ts : List Thread} {w : Runtime S} → CanMove ts w → CanMove (t ∷ ts) w
  later t (ts', w', step) = (t ∷ ts', w', there t step)

  -- the thread that has the chain state locked can move
  holder_moves :
      (ts : List Thread) (w : Runtime S)
      → IsShared storage engine consensus c b start free w
      → 1 ≤ holders ts
      → CanMove ts w
  unfolding move lock
  holder_moves [] w shared h = absurd (omega arith)
  holder_moves (at_mempool tx ∷ ts) w shared h = (
    submitted tx (ok tt) ∷ ts,
    (record w {
      mempool = store_value w.mempool (w.mempool.value ++ tx ∷ []);
      chain_state = release w.chain_state;
    }),
    here (ground arith),
  )
  holder_moves (submitting tx ∷ ts) w shared h =
      later (submitting tx) (holder_moves ts w shared (omega arith))
  holder_moves (at_chain_state tx ∷ ts) w shared h =
      later (at_chain_state tx) (holder_moves ts w shared (omega arith))
  holder_moves (submitted tx r ∷ ts) w shared h =
      later (submitted tx r) (holder_moves ts w shared (omega arith))
  holder_moves (producing ∷ ts) w shared h =
      later producing (holder_moves ts w shared (omega arith))
  holder_moves (at_head ∷ ts) w shared h = later at_head (holder_moves ts w shared (omega arith))
  holder_moves (at_second_lock x ∷ ts) w shared h =
      later (at_second_lock x) (holder_moves ts w shared (omega arith))
  holder_moves (at_clearing x ∷ ts) w shared h =
      later (at_clearing x) (holder_moves ts w shared (omega arith))
  holder_moves (produced r ∷ ts) w shared h =
      later (produced r) (holder_moves ts w shared (omega arith))

  signature_moves :
      (tx : Transaction) (ts : List Thread) (w : Runtime S) → CanMove (submitting tx ∷ ts) w
  unfolding move check_signature
  signature_moves tx ts w = elim (Result-cases (verify_signature c b tx)) [
    | inl (true, p) ↦ (at_chain_state tx ∷ ts, w, here (ground arith))
    | inl (false, p) ↦
        (submitted tx (err (invalid_transaction bad_signature)) ∷ ts, w, here (ground arith))
    | inr (x, p) ↦ (submitted tx (err (RuntimeError.crypto_error x)) ∷ ts, w, here (ground arith))
  ]

  chain_state_moves :
      (tx : Transaction) (ts : List Thread) (w : Runtime S)
      → IsShared storage engine consensus c b start free w
      → w.chain_state.held ≡ false
      → CanMove (at_chain_state tx ∷ ts) w
  unfolding move check_sender lock
  chain_state_moves tx ts w shared unheld =
      elim (Result-cases (storage.get_account tx.sender w.storage)) [
        | inl (found, f) ↦
            elim (Bool-cases (leb tx.nonce (stored_nonce storage engine consensus c b found))) [
              | inl low ↦ (
                submitted tx (
                      err (
                        invalid_transaction (
                          nonce_too_low (stored_nonce storage engine consensus c b found)
                            tx.nonce)))
                    ∷ ts,
                w,
                here (ground arith),
              )
              | inr high ↦ (
                at_mempool tx ∷ ts,
                record w { chain_state = hold w.chain_state },
                here (ground arith),
              )
            ]
        | inr (x, f) ↦
            (submitted tx (err (RuntimeError.storage_error x)) ∷ ts, w, here (ground arith))
      ]

  -- where no thread has the chain state locked, the first thread that has not ended can move
  free_moves :
      (ts : List Thread) (w : Runtime S)
      → IsShared storage engine consensus c b start free w
      → w.chain_state.held ≡ false
      → 1 ≤ remaining ts
      → CanMove ts w
  free_moves [] w shared unheld h = absurd (omega arith)
  free_moves (submitting tx ∷ ts) w shared unheld h = signature_moves tx ts w
  free_moves (at_chain_state tx ∷ ts) w shared unheld h = chain_state_moves tx ts w shared unheld
  free_moves (at_mempool tx ∷ ts) w shared unheld h =
      holder_moves (at_mempool tx ∷ ts) w shared (omega arith)
  free_moves (submitted tx r ∷ ts) w shared unheld h =
      later (submitted tx r) (free_moves ts w shared unheld (omega arith))
  free_moves (producing ∷ ts) w shared unheld h =
      later producing (free_moves ts w shared unheld (omega arith))
  free_moves (at_head ∷ ts) w shared unheld h =
      later at_head (free_moves ts w shared unheld (omega arith))
  free_moves (at_second_lock x ∷ ts) w shared unheld h =
      later (at_second_lock x) (free_moves ts w shared unheld (omega arith))
  free_moves (at_clearing x ∷ ts) w shared unheld h =
      later (at_clearing x) (free_moves ts w shared unheld (omega arith))
  free_moves (produced r ∷ ts) w shared unheld h =
      later (produced r) (free_moves ts w shared unheld (omega arith))

  -- The thread has returned what submit_transaction returns when it is called at the start.
  abbrev pub IsDone : Thread → Type 0
  IsDone (submitted tx r) = (submit_transaction storage engine consensus c b tx start).0 ≡ returns r
  IsDone _ = ⊥

  All-IsDone :
      (ts : List Thread)
      → All (IsOnTrack storage engine consensus c b start free) ts
      → remaining ts ≡ 0
      → All IsDone ts
  All-IsDone [] track h = tt
  All-IsDone (submitting tx ∷ ts) track h = absurd (omega arith)
  All-IsDone (at_chain_state tx ∷ ts) track h = absurd (omega arith)
  All-IsDone (at_mempool tx ∷ ts) track h = absurd (omega arith)
  All-IsDone (submitted tx r ∷ ts) track h = (track.0, All-IsDone ts track.1 (omega arith))
  All-IsDone (producing ∷ ts) track h = absurd track.0
  All-IsDone (at_head ∷ ts) track h = absurd track.0
  All-IsDone (at_second_lock x ∷ ts) track h = absurd track.0
  All-IsDone (at_clearing x ∷ ts) track h = absurd track.0
  All-IsDone (produced r ∷ ts) track h = absurd track.0

  -- All threads have returned, and what they accepted is behind the pending transactions.
  pub record IsFinished (txs : List Transaction) (ts : List Thread) (w : Runtime S) : Type 0 where
    pub done : All IsDone ts
    pub subject_lem : subjects ts ≡ txs
    pub added : List Transaction
    pub mempool_lem : w.mempool.value ≡ start.mempool.value ++ added
    pub accepted_lem : Perm added (accepted ts)
    pub storage_lem : w.storage ≡ start.storage
    pub chain_state_lem : w.chain_state.value ≡ start.chain_state.value

  moves_or_IsFinished :
      (txs : List Transaction) (ts : List Thread) (w : Runtime S)
      → IsTogether storage engine consensus c b start free txs ts w
      → CanMove ts w ⊎ IsFinished txs ts w
  moves_or_IsFinished txs ts w now = elim (left_over (remaining ts)) [
    | inl p ↦ inr (record {
      done = All-IsDone ts now.on_track p;
      subject_lem = now.subject_lem;
      added = now.added;
      mempool_lem = now.mempool_lem;
      accepted_lem = now.accepted_lem;
      storage_lem = now.shared.storage_lem;
      chain_state_lem = now.shared.chain_state_lem;
    })
    | inr p ↦ inl (elim (Bool-cases w.chain_state.held) [
      | inl held ↦ holder_moves ts w now.shared (omega (arith, sym (ap bit held), now.held_lem))
      | inr unheld ↦ free_moves ts w now.shared unheld p
    ])
  ]
    where
      left_over : (n : ℕ) → (n ≡ 0) ⊎ (1 ≤ n)
      left_over zero = inl refl
      left_over (suc n) = inr (omega arith)

  -- From free locks, however threads that each call submit_transaction once interleave, they make
  -- at most three moves for each thread in all, and at any point either some thread can move, or
  -- each has returned what its call returns alone from the start, the accepted transactions stand
  -- behind the pending ones in some order, and the store and the value of the chain state are
  -- those of the start.
  pub submissions_finish :
      (txs : List Transaction) {ts : List Thread} {w : Runtime S}
      (runs : Runs storage engine consensus c b (map submitting txs) start ts w)
      → (run_length storage engine consensus c b start free runs ≤ 3 * length txs)
        × (CanMove ts w ⊎ IsFinished txs ts w)
  submissions_finish txs {ts} {w} runs =
      let now = arrive storage engine consensus c b start free txs runs in
      (omega (arith, now.bound), moves_or_IsFinished txs ts w now.together)
