-- ===== src/Tests/Running.antt =====
-- The runtime with one payment pending.
use baa_ls.Prelude.{◌≡◌, ◌↔◌, refl, [], ◌∷◌, to_le_bytes, ok, returns, blocks, false}
use baa_ls.Types.{block_hash, block_hash_input}
use baa_ls.SledStorage.{SledStorage}
use baa_ls.Consensus.{generate_block}
use baa_ls.Runtime.{Runtime, unlocked, hold}
use baa_ls.Runtime.Calls.{submit_transaction, produce_block}
use baa_ls.Runtime.Deadlock.{CanProduce, IsDead, produce_block_deadlock}
use baa_ls.Runtime.Steps.{starts, steps, submits, produces, IsSound, Reach-IsSound}
use baa_ls.Runtime.Submission.{IsFree, IsAcceptable, submit_transaction_iff}
use baa_ls.Fixtures.Log.{Log}
use baa_ls.Fixtures.Codecs.{toy_crypto, toy_bincode}
use baa_ls.Fixtures.Data.{
  head_store, head_block, head_state, payment, storage, engine, poa, consensus,
}
use baa_ls.Tests.Chain.{head_found, made_block}

-- The runtime with the payment pending.
abbrev pub waiting : Runtime (SledStorage Log)
waiting = record {
  storage = head_store;
  mempool = unlocked (payment ∷ []);
  chain_state = unlocked head_state;
  is_running = unlocked false;
}

pub waiting-IsFree : IsFree storage engine consensus toy_crypto toy_bincode waiting
waiting-IsFree = record {
  mempool_free = refl;
  mempool_sound = refl;
  chain_state_free = refl;
  chain_state_sound = refl;
}

generated :
    generate_block toy_crypto toy_bincode poa (payment ∷ []) head_block head_state ≡ ok made_block
unfolding generate_block block_hash block_hash_input to_le_bytes
generated = refl

waiting-CanProduce : CanProduce storage engine consensus toy_crypto toy_bincode waiting
waiting-CanProduce = record {
  tx = payment;
  rest = [];
  pending_lem = refl;
  prev = head_block;
  head_lem = head_found;
  block = made_block;
  block_lem = generated;
}

-- the producer waits, and then one more producer does
abbrev waits : Runtime (SledStorage Log)
waits = record waiting { chain_state = hold waiting.chain_state }

abbrev waits_twice : Runtime (SledStorage Log)
waits_twice = (produce_block storage engine consensus toy_crypto toy_bincode waits).1

produce_block_deadlock_example :
    (produce_block storage engine consensus toy_crypto toy_bincode waiting ≡ (blocks, waits))
    × IsDead storage engine consensus toy_crypto toy_bincode waiting waits_twice
produce_block_deadlock_example =
    produce_block_deadlock storage engine consensus toy_crypto toy_bincode waiting waits_twice
      waiting-IsFree waiting-CanProduce (steps starts produces)

-- a runtime with an empty mempool, to which the payment comes before a block is made
abbrev idle : Runtime (SledStorage Log)
idle = record waiting { mempool = unlocked [] }

abbrev after_both : Runtime (SledStorage Log)
after_both =
    (produce_block storage engine consensus toy_crypto toy_bincode
      (submit_transaction storage engine consensus toy_crypto toy_bincode payment idle).1).1

Reach-IsSound_example : IsSound storage engine consensus toy_crypto toy_bincode idle after_both
Reach-IsSound_example =
    Reach-IsSound storage engine consensus toy_crypto toy_bincode
      (steps (steps starts (submits payment)) produces) tt

submit_transaction_iff_example :
    (submit_transaction storage engine consensus toy_crypto toy_bincode payment waiting
      ≡ (returns (ok tt), record waiting { mempool = unlocked (payment ∷ payment ∷ []) }))
    ↔ IsAcceptable storage engine consensus toy_crypto toy_bincode payment waiting
submit_transaction_iff_example =
    submit_transaction_iff storage engine consensus toy_crypto toy_bincode payment waiting
      waiting-IsFree
