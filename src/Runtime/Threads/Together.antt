-- ===== src/Runtime/Threads/Together.antt =====
-- Interleavings of threads that call `submit_transaction` (src/runtime.rs).
use mathlib.Core.List.{append-nil, append_assoc, Perm, perm_append_comm}
use mathlib.Core.List.Perm
use baa_ls.Prelude.{
  ℕ, suc, ◌+◌, ◌*◌, ◌≤◌, ◌≡◌, refl, sym, ap, subst, ◌∙◌, List, [], ◌∷◌, ◌++◌, arith, All, map,
  length,
}
use baa_ls.Types.{Transaction, Crypto, Bincode}
use baa_ls.Storage.{Storage}
use baa_ls.Contracts.{ContractEngine}
use baa_ls.Consensus.{ConsensusEngine}
use baa_ls.Runtime.{Runtime}
use baa_ls.Runtime.Submission.{IsFree}
use baa_ls.Runtime.Threads.{Thread, submitting, Moves, here, there, Runs, rests, moves}
use baa_ls.Runtime.Threads.OneMove.{one_move}
use baa_ls.Runtime.Threads.Submitters.{
  remaining, accepted_of, accepted, subject, subjects, holders, bit, IsOnTrack, IsShared,
}

module _ {A : Type 0} where
  add_left :
      (added xs ys zs : List A) → Perm (added ++ ys) zs → Perm (added ++ (xs ++ ys)) (xs ++ zs)
  add_left added xs ys zs p =
      Perm.trans
        (subst (λ (l : List A). Perm l ((xs ++ added) ++ ys)) (append_assoc added xs ys)
          (Perm.append (perm_append_comm added xs) (Perm.refl ys)))
        (subst (λ (l : List A). Perm l (xs ++ zs)) (sym (append_assoc xs added ys))
          (Perm.append (Perm.refl xs) p))

  grow :
      (more added xs ys : List A) → Perm more xs → Perm (added ++ xs) ys → Perm (more ++ added) ys
  grow more added xs ys p q =
      Perm.trans (perm_append_comm more added) (Perm.trans (Perm.append (Perm.refl added) p) q)

module _ {S : Type 0} (storage : Storage S) (engine : ContractEngine S)
    (consensus : ConsensusEngine) (c : Crypto) (b : Bincode) (start : Runtime S)
    (free : IsFree storage engine consensus c b start) where
  record Changed (ts : List Thread) (w : Runtime S) (ts' : List Thread) (w' : Runtime S)
      : Type 0 where
    pub on_track : All (IsOnTrack storage engine consensus c b start free) ts'
    pub shared : IsShared storage engine consensus c b start free w'
    pub held_lem : bit w'.chain_state.held + holders ts ≡ bit w.chain_state.held + holders ts'
    pub added : List Transaction
    pub mempool_lem : w'.mempool.value ≡ w.mempool.value ++ added
    pub accepted_lem : Perm (added ++ accepted ts) (accepted ts')
    pub subject_lem : subjects ts' ≡ subjects ts
    pub fewer : suc (remaining ts') ≤ remaining ts

  some_move :
      {ts ts' : List Thread} {w w' : Runtime S}
      → Moves storage engine consensus c b ts w ts' w'
      → All (IsOnTrack storage engine consensus c b start free) ts
      → IsShared storage engine consensus c b start free w
      → holders ts ≤ bit w.chain_state.held
      → Changed ts w ts' w'
  some_move (here {t} {t'} {ts} {w} {w'} e) track shared held =
      let m =
        one_move storage engine consensus c b start free t w t' w' shared track.0 (omega arith) e in
      record {
        on_track = (m.on_track, track.1);
        shared = m.shared;
        held_lem = omega (arith, m.held_lem);
        added = m.added;
        mempool_lem = m.mempool_lem;
        accepted_lem = rw (m.before_lem, m.after_lem) (Perm.refl (m.added ++ accepted ts));
        subject_lem = ap (λ l. l ++ subjects ts) m.subject_lem;
        fewer = omega (arith, m.fewer);
      }
  some_move (there t {ts} {ts'} {w} {w'} step) track shared held =
      let m = some_move step track.1 shared (omega arith) in
      record {
        on_track = (track.0, m.on_track);
        shared = m.shared;
        held_lem = omega (arith, m.held_lem);
        added = m.added;
        mempool_lem = m.mempool_lem;
        accepted_lem = add_left m.added (accepted_of t) (accepted ts) (accepted ts') m.accepted_lem;
        subject_lem = ap (λ l. subject t ++ l) m.subject_lem;
        fewer = omega (arith, m.fewer);
      }

  -- A configuration that submissions come to.
  pub record IsTogether (txs : List Transaction) (ts : List Thread) (w : Runtime S) : Type 0 where
    pub on_track : All (IsOnTrack storage engine consensus c b start free) ts
    pub shared : IsShared storage engine consensus c b start free w
    pub held_lem : bit w.chain_state.held ≡ holders ts
    pub added : List Transaction
    pub mempool_lem : w.mempool.value ≡ start.mempool.value ++ added
    pub accepted_lem : Perm added (accepted ts)
    pub subject_lem : subjects ts ≡ txs

  start-IsTogether : (txs : List Transaction) → IsTogether txs (map submitting txs) start
  start-IsTogether txs = record {
    on_track = all_new txs;
    shared = record {
      storage_lem = refl;
      chain_state_lem = refl;
      mempool_free = free.mempool_free;
      mempool_sound = free.mempool_sound;
      chain_state_sound = free.chain_state_sound;
    };
    held_lem = ap bit free.chain_state_free ∙ sym (no_holder txs);
    added = [];
    mempool_lem = sym (append-nil start.mempool.value);
    accepted_lem = rw (none_accepted txs) (Perm.refl []);
    subject_lem = same_subjects txs;
  }
    where
      all_new :
          (l : List Transaction)
          → All (IsOnTrack storage engine consensus c b start free) (map submitting l)
      all_new [] = tt
      all_new (tx ∷ l) = (tt, all_new l)

      no_holder : (l : List Transaction) → holders (map submitting l) ≡ 0
      no_holder [] = refl
      no_holder (tx ∷ l) = omega (arith, no_holder l)

      none_accepted : (l : List Transaction) → accepted (map submitting l) ≡ []
      none_accepted [] = refl
      none_accepted (tx ∷ l) = none_accepted l

      same_subjects : (l : List Transaction) → subjects (map submitting l) ≡ l
      same_subjects [] = refl
      same_subjects (tx ∷ l) = ap (λ x. tx ∷ x) (same_subjects l)

  move-IsTogether :
      (txs : List Transaction) {ts ts' : List Thread} {w w' : Runtime S}
      → IsTogether txs ts w
      → Changed ts w ts' w'
      → IsTogether txs ts' w'
  move-IsTogether txs {ts} {ts'} {w} {w'} now next = record {
    on_track = next.on_track;
    shared = next.shared;
    held_lem = omega (arith, next.held_lem, now.held_lem);
    added = now.added ++ next.added;
    mempool_lem =
        next.mempool_lem
        ∙ (ap (λ l. l ++ next.added) now.mempool_lem
            ∙ append_assoc start.mempool.value now.added next.added);
    accepted_lem =
        grow now.added next.added (accepted ts) (accepted ts') now.accepted_lem next.accepted_lem;
    subject_lem = next.subject_lem ∙ now.subject_lem;
  }

  abbrev pub run_length :
      {ts : List Thread} {w : Runtime S} {us : List Thread} {w' : Runtime S}
      → Runs storage engine consensus c b ts w us w'
      → ℕ
  run_length rests = 0
  run_length (moves before step) = suc (run_length before)

  -- the configuration, and the moves that were made to come to it
  pub record Arrived (txs : List Transaction) (ts : List Thread) (w : Runtime S) (n : ℕ)
      : Type 0 where
    pub together : IsTogether txs ts w
    pub bound : n + remaining ts ≤ 3 * length txs

  three_each : (txs : List Transaction) → 0 + remaining (map submitting txs) ≤ 3 * length txs
  three_each [] = omega arith
  three_each (tx ∷ txs) = omega (arith, three_each txs)

  pub arrive :
      (txs : List Transaction) {ts : List Thread} {w : Runtime S}
      (runs : Runs storage engine consensus c b (map submitting txs) start ts w)
      → Arrived txs ts w (run_length runs)
  arrive txs rests = record { together = start-IsTogether txs; bound = three_each txs }
  arrive txs (moves {ts'} {w'} before step) =
      let now = arrive txs before in
      let next =
        some_move step now.together.on_track now.together.shared
          (omega (arith, now.together.held_lem)) in
      record {
        together = move-IsTogether txs now.together next;
        bound = omega (arith, now.bound, next.fewer);
      }
