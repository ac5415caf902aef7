-- ===== src/Runtime/Threads/Submitters.antt =====
-- Threads that call `submit_transaction` (src/runtime.rs) at the same time.
use baa_ls.Prelude.{ℕ, suc, ◌+◌, ◌≤◌, ◌≡◌, Bool, true, false, List, [], ◌∷◌, ◌++◌, ok, returns}
use baa_ls.Types.{Transaction, Crypto, Bincode, verify_signature}
use baa_ls.Storage.{Storage}
use baa_ls.Contracts.{ContractEngine}
use baa_ls.Consensus.{ConsensusEngine}
use baa_ls.Runtime.{Runtime}
use baa_ls.Runtime.Calls.{submit_transaction}
use baa_ls.Runtime.Submission.{IsFree, IsAcceptable}
use baa_ls.Runtime.Threads.{Thread, submitting, at_chain_state, at_mempool, submitted}

-- The moves that are left to a thread that submits.
abbrev pub remaining_of : Thread → ℕ
remaining_of (submitting tx) = 3
remaining_of (at_chain_state tx) = 2
remaining_of (at_mempool tx) = 1
remaining_of _ = 0

abbrev pub remaining : List Thread → ℕ
remaining [] = 0
remaining (t ∷ ts) = remaining_of t + remaining ts

-- The transactions that have been accepted, by the order of their threads.
abbrev pub accepted_of : Thread → List Transaction
accepted_of (submitted tx (ok done)) = tx ∷ []
accepted_of _ = []

abbrev pub accepted : List Thread → List Transaction
accepted [] = []
accepted (t ∷ ts) = accepted_of t ++ accepted ts

-- The transaction that a thread submits.
abbrev pub subject : Thread → List Transaction
subject (submitting tx) = tx ∷ []
subject (at_chain_state tx) = tx ∷ []
subject (at_mempool tx) = tx ∷ []
subject (submitted tx r) = tx ∷ []
subject _ = []

abbrev pub subjects : List Thread → List Transaction
subjects [] = []
subjects (t ∷ ts) = subject t ++ subjects ts

-- how many threads have the chain state locked
abbrev pub holds : Thread → ℕ
holds (at_mempool tx) = 1
holds _ = 0

abbrev pub holders : List Thread → ℕ
holders [] = 0
holders (t ∷ ts) = holds t + holders ts

abbrev pub bit : Bool → ℕ
bit true = 1
bit false = 0

module _ {S : Type 0} (storage : Storage S) (engine : ContractEngine S)
    (consensus : ConsensusEngine) (c : Crypto) (b : Bincode) (start : Runtime S)
    (free : IsFree storage engine consensus c b start) where
  -- The thread has done what submit_transaction does from the start, or is on the way to it.
  abbrev pub IsOnTrack : Thread → Type 0
  IsOnTrack (submitting tx) = Unit
  IsOnTrack (at_chain_state tx) = verify_signature c b tx ≡ ok true
  IsOnTrack (at_mempool tx) = IsAcceptable storage engine consensus c b tx start
  IsOnTrack (submitted tx r) =
      (submit_transaction storage engine consensus c b tx start).0 ≡ returns r
  IsOnTrack _ = ⊥

  -- What no submission changes.
  pub record IsShared (w : Runtime S) : Type 0 where
    pub storage_lem : w.storage ≡ start.storage
    pub chain_state_lem : w.chain_state.value ≡ start.chain_state.value
    pub mempool_free : w.mempool.held ≡ false
    pub mempool_sound : w.mempool.poisoned ≡ false
    pub chain_state_sound : w.chain_state.poisoned ≡ false

  pub record Moved (t : Thread) (w : Runtime S) (t' : Thread) (w' : Runtime S) : Type 0 where
    pub on_track : IsOnTrack t'
    pub shared : IsShared w'
    pub held_lem : bit w'.chain_state.held + holds t ≡ bit w.chain_state.held + holds t'
    pub added : List Transaction
    pub mempool_lem : w'.mempool.value ≡ w.mempool.value ++ added
    pub before_lem : accepted_of t ≡ []
    pub after_lem : accepted_of t' ≡ added
    pub subject_lem : subject t' ≡ subject t
    pub fewer : suc (remaining_of t') ≤ remaining_of t
