-- ===== src/Tests/Threads.antt =====
-- Threads that submit the payment and produce a block at the same time.
use baa_ls.Prelude.{◌≤◌, ◌*◌, ◌⊎◌, ◌≡◌, refl, [], ◌∷◌, List, some, arith, map}
use baa_ls.Types.{account_nonce}
use baa_ls.SledStorage.{SledStorage}
use baa_ls.Runtime.{Runtime, hold, lock}
use baa_ls.Runtime.Submission.{IsAcceptable}
use baa_ls.Runtime.Threads.{
  Thread, submitting, at_chain_state, at_mempool, producing, at_head, Runs, rests, moves, here,
  there, move, check_signature, check_sender,
}
use baa_ls.Runtime.Threads.Waiting.{both_held, lock_order_deadlock}
use baa_ls.Runtime.Threads.Together.{run_length}
use baa_ls.Runtime.Threads.Progress.{CanMove, IsFinished, submissions_finish}
use baa_ls.Fixtures.Log.{Log}
use baa_ls.Fixtures.Codecs.{toy_crypto, toy_bincode}
use baa_ls.Fixtures.Data.{payment, storage, engine, consensus}
use baa_ls.Tests.Chain.{alice_found, payment_verified}
use baa_ls.Tests.Running.{waiting, waiting-IsFree}

payment-IsAcceptable : IsAcceptable storage engine consensus toy_crypto toy_bincode payment waiting
unfolding account_nonce
payment-IsAcceptable = record {
  verified = payment_verified;
  found = _;
  found_lem = alice_found;
  fresh = omega arith;
}

verified_move :
    (w : Runtime (SledStorage Log))
    → ◌≡◌
        (move storage engine consensus toy_crypto toy_bincode (submitting payment) w)
        (some (at_chain_state payment, w))
unfolding move check_signature
verified_move w = ground (arith, payment_verified)

-- a third thread verifies the signature, and waits
abbrev third_waits :
    Runs storage engine consensus toy_crypto toy_bincode
      (at_mempool payment ∷ at_head ∷ submitting payment ∷ [])
      (both_held waiting)
      (at_mempool payment ∷ at_head ∷ at_chain_state payment ∷ [])
      (both_held waiting)
third_waits =
    moves rests
      (there (at_mempool payment) (there at_head (here (verified_move (both_held waiting)))))

lock_order_deadlock_example :
    Runs storage engine consensus toy_crypto toy_bincode
      (submitting payment ∷ producing ∷ submitting payment ∷ [])
      waiting
      (at_mempool payment ∷ at_head ∷ submitting payment ∷ [])
      (both_held waiting)
    × (others : List Thread) × (at_mempool payment ∷ at_head ∷ at_chain_state payment ∷ []
        ≡ at_mempool payment ∷ at_head ∷ others)
    × (both_held waiting ≡ both_held waiting)
lock_order_deadlock_example =
    lock_order_deadlock storage engine consensus toy_crypto toy_bincode payment payment [] waiting
      waiting-IsFree refl payment-IsAcceptable (tt, tt) third_waits

locked_move :
    ◌≡◌
      (move storage engine consensus toy_crypto toy_bincode (at_chain_state payment) waiting)
      (some (at_mempool payment, record waiting { chain_state = hold waiting.chain_state }))
unfolding move check_sender lock account_nonce
locked_move = ground (arith, alice_found)

-- the first of two threads has the chain state locked, and the second verifies its signature
abbrev one_ahead :
    Runs storage engine consensus toy_crypto toy_bincode
      (map submitting (payment ∷ payment ∷ []))
      waiting
      (at_mempool payment ∷ at_chain_state payment ∷ [])
      (record waiting { chain_state = hold waiting.chain_state })
one_ahead = moves (moves (moves rests (here (verified_move waiting))) (here locked_move)) (
    there (at_mempool payment)
      (here (verified_move (record waiting { chain_state = hold waiting.chain_state }))))

submissions_finish_example :
    (run_length storage engine consensus toy_crypto toy_bincode waiting waiting-IsFree one_ahead
      ≤ 3 * 2)
    × (CanMove storage engine consensus toy_crypto toy_bincode waiting waiting-IsFree
          (at_mempool payment ∷ at_chain_state payment ∷ [])
          (record waiting { chain_state = hold waiting.chain_state })
        ⊎ IsFinished storage engine consensus toy_crypto toy_bincode waiting waiting-IsFree
            (payment ∷ payment ∷ [])
            (at_mempool payment ∷ at_chain_state payment ∷ [])
            (record waiting { chain_state = hold waiting.chain_state }))
submissions_finish_example =
    submissions_finish storage engine consensus toy_crypto toy_bincode waiting waiting-IsFree
      (payment ∷ payment ∷ []) one_ahead
