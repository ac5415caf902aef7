-- ===== src/Runtime/Threads/OneMove.antt =====
-- One move of a thread in `submit_transaction` (src/runtime.rs), next to others in it.
use mathlib.Core.List.{append-nil}
use baa_ls.Prelude.{
  suc, ◌+◌, ◌≤◌, ◌≡◌, refl, sym, ap, subst, ◌∙◌, inl, inr, Bool, true, false, some, Option, Result,
  [], ◌∷◌, ◌++◌, ok, err, Outcome, arith, Result-cases, Bool-cases, leb,
}
use baa_ls.Types.{Transaction, Crypto, Bincode, verify_signature}
use baa_ls.Storage.{Storage}
use baa_ls.Contracts.{ContractEngine}
use baa_ls.Consensus.{ConsensusEngine}
use baa_ls.Runtime.{
  RuntimeError, invalid_transaction, bad_signature, nonce_too_low, lock, hold, store_value, Runtime,
}
use baa_ls.Runtime.Calls.{submit_transaction, stored_nonce}
use baa_ls.Runtime.Submission.{IsFree, IsAcceptable, submit_transaction_iff}
use baa_ls.Runtime.Threads.{
  release, Thread, submitting, at_chain_state, at_mempool, submitted, producing, at_head,
  at_second_lock, at_clearing, produced, move, check_signature, check_sender,
}
use baa_ls.Runtime.Threads.Submitters.{
  remaining_of, accepted_of, subject, holds, bit, IsOnTrack, IsShared, Moved,
}

bit_one : (x : Bool) → 1 ≤ bit x → 1 ≡ bit x + 0
bit_one true h = refl
bit_one false h = absurd (omega arith)

module _ {S : Type 0} (storage : Storage S) (engine : ContractEngine S)
    (consensus : ConsensusEngine) (c : Crypto) (b : Bincode) (start : Runtime S)
    (free : IsFree storage engine consensus c b start) where
  -- A move from a thread to one that is known.
  goes :
      (t u : Thread) (w v : Runtime S) (t' : Thread) (w' : Runtime S)
      → ◌≡◌ {A = Option (Thread × Runtime S)} (some (u, v)) (some (t', w'))
      → Moved storage engine consensus c b start free t w u v
      → Moved storage engine consensus c b start free t w t' w'
  goes t u w v t' w' e m =
      let thread : u ≡ t' = cc e in
      let world : v ≡ w' = cc e in
      subst (λ (x : Runtime S). Moved storage engine consensus c b start free t w t' x) world
        (subst (λ (x : Thread). Moved storage engine consensus c b start free t w x v) thread m)

  same_world :
      (t u : Thread) (w : Runtime S)
      → IsShared storage engine consensus c b start free w
      → IsOnTrack storage engine consensus c b start free u
      → holds t ≡ 0
      → holds u ≡ 0
      → accepted_of t ≡ []
      → accepted_of u ≡ []
      → subject u ≡ subject t
      → suc (remaining_of u) ≤ remaining_of t
      → Moved storage engine consensus c b start free t w u w
  same_world t u w shared track p q x y z g = record {
    on_track = track;
    shared = shared;
    held_lem = omega (arith, p, q);
    added = [];
    mempool_lem = sym (append-nil w.mempool.value);
    before_lem = x;
    after_lem = y;
    subject_lem = z;
    fewer = g;
  }

  signature_move :
      (tx : Transaction) (w : Runtime S) (t' : Thread) (w' : Runtime S)
      → IsShared storage engine consensus c b start free w
      → move storage engine consensus c b (submitting tx) w ≡ some (t', w')
      → Moved storage engine consensus c b start free (submitting tx) w t' w'
  unfolding move check_signature submit_transaction
  signature_move tx w t' w' shared e = elim (Result-cases (verify_signature c b tx)) [
    | inl (true, p) ↦ goes (submitting tx) (at_chain_state tx) w w t' w' (ground arith) (
        same_world (submitting tx) (at_chain_state tx) w shared p refl refl refl refl refl
          (omega arith))
    | inl (false, p) ↦
        goes (submitting tx) (submitted tx (err (invalid_transaction bad_signature))) w w t' w'
          (ground arith)
          (same_world (submitting tx) (submitted tx (err (invalid_transaction bad_signature))) w
            shared (ground arith) refl refl refl refl refl (omega arith))
    | inr (x, p) ↦
        goes (submitting tx) (submitted tx (err (RuntimeError.crypto_error x))) w w t' w'
          (ground arith)
          (same_world (submitting tx) (submitted tx (err (RuntimeError.crypto_error x))) w shared
            (ground arith) refl refl refl refl refl (omega arith))
  ]

  chain_state_move :
      (tx : Transaction) (w : Runtime S) (t' : Thread) (w' : Runtime S)
      → IsShared storage engine consensus c b start free w
      → verify_signature c b tx ≡ ok true
      → move storage engine consensus c b (at_chain_state tx) w ≡ some (t', w')
      → Moved storage engine consensus c b start free (at_chain_state tx) w t' w'
  unfolding move check_sender submit_transaction lock
  chain_state_move tx w t' w' shared verified e = elim (Bool-cases w.chain_state.held) [
    | inl held ↦ absurd (cc)
    | inr unheld ↦ elim (Result-cases (storage.get_account tx.sender w.storage)) [
      | inl (found, f) ↦
          elim (Bool-cases (leb tx.nonce (stored_nonce storage engine consensus c b found))) [
            | inl low ↦
                (let r = err (
                    invalid_transaction
                      (nonce_too_low (stored_nonce storage engine consensus c b found) tx.nonce)) in
                  goes (at_chain_state tx) (submitted tx r) w w t' w' (ground arith) (
                    same_world (at_chain_state tx) (submitted tx r) w shared
                      (ground (arith, shared.storage_lem)) refl refl refl refl refl (omega arith)))
            | inr high ↦
                goes (at_chain_state tx) (at_mempool tx) w
                  (record w { chain_state = hold w.chain_state }) t' w' (ground arith)
                  (record {
                    on_track = record {
                      verified = verified;
                      found = found;
                      found_lem = ap (storage.get_account tx.sender) (sym shared.storage_lem) ∙ f;
                      fresh = ground arith;
                    };
                    shared = record {
                      storage_lem = shared.storage_lem;
                      chain_state_lem = shared.chain_state_lem;
                      mempool_free = shared.mempool_free;
                      mempool_sound = shared.mempool_sound;
                      chain_state_sound = shared.chain_state_sound;
                    };
                    held_lem = rw unheld refl;
                    added = [];
                    mempool_lem = sym (append-nil w.mempool.value);
                    before_lem = refl;
                    after_lem = refl;
                    subject_lem = refl;
                    fewer = omega arith;
                  })
          ]
      | inr (x, f) ↦
          goes (at_chain_state tx) (submitted tx (err (RuntimeError.storage_error x))) w w t' w'
            (ground arith)
            (same_world (at_chain_state tx) (submitted tx (err (RuntimeError.storage_error x))) w
              shared (ground (arith, shared.storage_lem)) refl refl refl refl refl (omega arith))
    ]
  ]

  mempool_move :
      (tx : Transaction) (w : Runtime S) (t' : Thread) (w' : Runtime S)
      → IsShared storage engine consensus c b start free w
      → IsAcceptable storage engine consensus c b tx start
      → 1 ≤ bit w.chain_state.held
      → move storage engine consensus c b (at_mempool tx) w ≡ some (t', w')
      → Moved storage engine consensus c b start free (at_mempool tx) w t' w'
  unfolding move lock
  mempool_move tx w t' w' shared acceptable held e =
      goes (at_mempool tx) (submitted tx (ok tt)) w
        (record w {
          mempool = store_value w.mempool (w.mempool.value ++ tx ∷ []);
          chain_state = release w.chain_state;
        })
        t' w' (ground arith)
        (record {
          on_track =
              ap {B = Outcome RuntimeError (Unit {0})}
                (λ (r : Outcome RuntimeError (Unit {0}) × Runtime S). r.0)
                ((submit_transaction_iff storage engine consensus c b tx start free).1 acceptable);
          shared = record {
            storage_lem = shared.storage_lem;
            chain_state_lem = shared.chain_state_lem;
            mempool_free = refl;
            mempool_sound = shared.mempool_sound;
            chain_state_sound = shared.chain_state_sound;
          };
          held_lem = bit_one w.chain_state.held held;
          added = tx ∷ [];
          mempool_lem = refl;
          before_lem = refl;
          after_lem = refl;
          subject_lem = refl;
          fewer = omega arith;
        })

  ended :
      (tx : Transaction) (r : Result RuntimeError (Unit {0})) (w : Runtime S) (t' : Thread)
      (w' : Runtime S)
      → ¬ (move storage engine consensus c b (submitted tx r) w ≡ some (t', w'))
  unfolding move
  ended tx r w t' w' e = cc

  pub one_move :
      (t : Thread) (w : Runtime S) (t' : Thread) (w' : Runtime S)
      → IsShared storage engine consensus c b start free w
      → IsOnTrack storage engine consensus c b start free t
      → holds t ≤ bit w.chain_state.held
      → move storage engine consensus c b t w ≡ some (t', w')
      → Moved storage engine consensus c b start free t w t' w'
  one_move (submitting tx) w t' w' shared track held e = signature_move tx w t' w' shared e
  one_move (at_chain_state tx) w t' w' shared track held e =
      chain_state_move tx w t' w' shared track e
  one_move (at_mempool tx) w t' w' shared track held e = mempool_move tx w t' w' shared track held e
  one_move (submitted tx r) w t' w' shared track held e = absurd (ended tx r w t' w' e)
  one_move producing w t' w' shared track held e = absurd track
  one_move at_head w t' w' shared track held e = absurd track
  one_move (at_second_lock x) w t' w' shared track held e = absurd track
  one_move (at_clearing x) w t' w' shared track held e = absurd track
  one_move (produced r) w t' w' shared track held e = absurd track
