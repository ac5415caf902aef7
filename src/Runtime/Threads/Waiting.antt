-- ===== src/Runtime/Threads/Waiting.antt =====
-- `submit_transaction` and `produce_block` (src/runtime.rs) take the two locks in opposite orders.
use baa_ls.Prelude.{
  ◌≡◌, refl, subst, inl, inr, true, false, some, Option, List, ◌∷◌, err, arith, Result-cases, All,
}
use baa_ls.Types.{Transaction, Crypto, Bincode, verify_signature}
use baa_ls.Storage.{Storage}
use baa_ls.Contracts.{ContractEngine}
use baa_ls.Consensus.{ConsensusEngine}
use baa_ls.Runtime.{invalid_transaction, bad_signature, RuntimeError, lock, hold, Runtime}
use baa_ls.Runtime.Submission.{IsFree, IsAcceptable}
use baa_ls.Runtime.Threads.{
  Thread, submitting, at_chain_state, at_mempool, submitted, producing, at_head, at_second_lock,
  at_clearing, produced, Moves, here, there, Runs, rests, moves, move, check_signature,
  check_sender,
}

-- A thread that has no lock.
abbrev pub HoldsNone : Thread → Type 0
HoldsNone (at_mempool tx) = ⊥
HoldsNone at_head = ⊥
HoldsNone (at_second_lock new_block) = ⊥
HoldsNone (at_clearing new_block) = ⊥
HoldsNone _ = Unit

-- the runtime with both locks held
abbrev pub both_held : {S : Type 0} → Runtime S → Runtime S
both_held w = record w { mempool = hold w.mempool; chain_state = hold w.chain_state }

module _ {S : Type 0} (storage : Storage S) (engine : ContractEngine S)
    (consensus : ConsensusEngine) (c : Crypto) (b : Bincode) where
  -- What a move leaves where both locks are held.
  record Left (w : Runtime S) (t' : Thread) (w' : Runtime S) : Type 0 where
    pub holds_none : HoldsNone t'
    pub same : w' ≡ both_held w

  moved_on :
      (w : Runtime S) (u t' : Thread) (w' : Runtime S)
      → HoldsNone u
      → ◌≡◌ {A = Option (Thread × Runtime S)} (some (u, both_held w)) (some (t', w'))
      → Left w t' w'
  moved_on w u t' w' h e =
      let thread : u ≡ t' = cc e in record { holds_none = subst HoldsNone thread h; same = cc e }

  held_move :
      (w : Runtime S) (t t' : Thread) (w' : Runtime S)
      → HoldsNone t
      → move storage engine consensus c b t (both_held w) ≡ some (t', w')
      → Left w t' w'
  unfolding move check_signature lock
  held_move w (submitting tx) t' w' h e = elim (Result-cases (verify_signature c b tx)) [
    | inl (true, p) ↦ moved_on w (at_chain_state tx) t' w' tt (ground arith)
    | inl (false, p) ↦
        moved_on w (submitted tx (err (invalid_transaction bad_signature))) t' w' tt (ground arith)
    | inr (x, p) ↦
        moved_on w (submitted tx (err (RuntimeError.crypto_error x))) t' w' tt (ground arith)
  ]
  held_move w (at_chain_state tx) t' w' h e = absurd (cc)
  held_move w (at_mempool tx) t' w' h e = absurd h
  held_move w (submitted tx r) t' w' h e = absurd (cc)
  held_move w producing t' w' h e = absurd (cc)
  held_move w at_head t' w' h e = absurd h
  held_move w (at_second_lock x) t' w' h e = absurd h
  held_move w (at_clearing x) t' w' h e = absurd h
  held_move w (produced r) t' w' h e = absurd (cc)

  others_move :
      (w : Runtime S) {ts ts' : List Thread} {v w' : Runtime S}
      → Moves storage engine consensus c b ts v ts' w'
      → v ≡ both_held w
      → All HoldsNone ts
      → All HoldsNone ts' × (w' ≡ both_held w)
  others_move x (here {t} {t'} {ts} {w} {w'} e) same h =
      let left =
        held_move x t t' w' h.0 (
          subst (λ (y : Runtime S). move storage engine consensus c b t y ≡ some (t', w')) same
            e) in
      ((left.holds_none, h.1), left.same)
  others_move w (there t step) same h =
      let (rest, still) = others_move w step same h.1 in ((h.0, rest), still)

  first_waits :
      (tx : Transaction) (w w' : Runtime S) (t' : Thread)
      → ¬ (move storage engine consensus c b (at_mempool tx) (both_held w) ≡ some (t', w'))
  unfolding move lock
  first_waits tx w w' t' e = absurd (cc)

  second_waits :
      (w w' : Runtime S) (t' : Thread)
      → ¬ (move storage engine consensus c b at_head (both_held w) ≡ some (t', w'))
  unfolding move lock
  second_waits w w' t' e = absurd (cc)

  -- The first two threads are where they were, and so is the runtime.
  record Waits (tx : Transaction) (w : Runtime S) (us : List Thread) (w' : Runtime S) : Type 0 where
    pub others : List Thread
    pub threads_lem : us ≡ at_mempool tx ∷ at_head ∷ others
    pub others_hold_none : All HoldsNone others
    pub same : w' ≡ both_held w

  waiting_move :
      (tx : Transaction) (w : Runtime S) {ts us' : List Thread} {v w' : Runtime S}
      → Moves storage engine consensus c b (at_mempool tx ∷ at_head ∷ ts) v us' w'
      → v ≡ both_held w
      → All HoldsNone ts
      → Waits tx w us' w'
  waiting_move tx w (here {t'} {w'} e) same h = absurd (
      first_waits tx w w' t' (
        subst
          (λ (y : Runtime S). move storage engine consensus c b (at_mempool tx) y ≡ some (t', w'))
          same e))
  waiting_move tx w (there t (here {t'} {w'} e)) same h = absurd (
      second_waits w w' t' (
        subst (λ (y : Runtime S). move storage engine consensus c b at_head y ≡ some (t', w')) same
          e))
  waiting_move tx w (there t (there u {ts} {ts'} step)) same h =
      let (rest, still) = others_move w step same h in
      record { others = ts'; threads_lem = refl; others_hold_none = rest; same = still }

  wait_move :
      (tx : Transaction) (w : Runtime S) {us us' : List Thread} {v w' : Runtime S}
      → Moves storage engine consensus c b us v us' w'
      → Waits tx w us v
      → Waits tx w us' w'
  wait_move tx w {us} {us'} {v} {w'} step waits =
      waiting_move tx w
        (subst (λ (l : List Thread). Moves storage engine consensus c b l v us' w')
          waits.threads_lem step)
        waits.same waits.others_hold_none

  wait_runs :
      (tx : Transaction) (w : Runtime S) {ts us : List Thread} {w' : Runtime S}
      → Runs storage engine consensus c b (at_mempool tx ∷ at_head ∷ ts) (both_held w) us w'
      → All HoldsNone ts
      → Waits tx w us w'
  wait_runs tx w {ts} rests h = record {
    others = ts;
    threads_lem = refl;
    others_hold_none = h;
    same = refl;
  }
  wait_runs tx w (moves before step) h = wait_move tx w step (wait_runs tx w before h)

  to_deadlock :
      (tx pending : Transaction) (rest : List Transaction) (ts : List Thread) (w : Runtime S)
      → IsFree storage engine consensus c b w
      → w.mempool.value ≡ pending ∷ rest
      → IsAcceptable storage engine consensus c b tx w
      → Runs storage engine consensus c b
          (submitting tx ∷ producing ∷ ts)
          w
          (at_mempool tx ∷ at_head ∷ ts)
          (both_held w)
  unfolding move check_signature check_sender lock
  to_deadlock tx pending rest ts w free e acceptable =
      moves
        (moves
          (moves {ts' = submitting tx ∷ producing ∷ ts} rests
            (here {t' = at_chain_state tx} {w' = w} (ground (arith, acceptable.verified))))
          (here {t' = at_mempool tx} {w' = record w { chain_state = hold w.chain_state }}
            (ground (arith, acceptable.fresh))))
        (there (at_mempool tx) (here (ground arith)))

  -- With free locks, a pending transaction and an acceptable one, a thread that submits the latter
  -- and a thread that produces a block can come to hold one lock each and wait for the other's,
  -- where the block is not made yet; in every configuration that is reached from there, next to
  -- any other threads that began without a lock, the two are there still and the runtime is the
  -- same.
  pub lock_order_deadlock :
      (tx pending : Transaction) (rest : List Transaction) {ts us : List Thread} (w : Runtime S)
      {w' : Runtime S}
      → IsFree storage engine consensus c b w
      → w.mempool.value ≡ pending ∷ rest
      → IsAcceptable storage engine consensus c b tx w
      → All HoldsNone ts
      → Runs storage engine consensus c b (at_mempool tx ∷ at_head ∷ ts) (both_held w) us w'
      → Runs storage engine consensus c b
          (submitting tx ∷ producing ∷ ts)
          w
          (at_mempool tx ∷ at_head ∷ ts)
          (both_held w)
        × (others : List Thread) × (us ≡ at_mempool tx ∷ at_head ∷ others)
        × (w' ≡ both_held w)
  lock_order_deadlock tx pending rest {ts} w free e acceptable h runs =
      let waits = wait_runs tx w runs h in
      (
        to_deadlock tx pending rest ts w free e acceptable,
        waits.others,
        waits.threads_lem,
        waits.same,
      )
