-- ===== src/Ledger/History.antt =====
-- Two ledgers (src/ledger.rs) that grow from one state.
use baa_ls.Prelude.{
  ◌+◌, ◌^◌, ◌<◌, ◌≡◌, refl, sym, ap, subst, ◌∙◌, ◌⊎◌, inl, inr, List, [], ◌∷◌, length, ok, arith,
  All,
}
use baa_ls.Types.{Block, ChainState, Crypto, Bincode}
use baa_ls.Types.Commitment.{
  Collision, SelfDelimiting, NonEmpty, IsBlockSized, SameBlock, block_hash_commits,
}
use baa_ls.Storage.{Storage}
use baa_ls.Contracts.{ContractEngine}
use baa_ls.Ledger.{LedgerState}
use baa_ls.Ledger.Application.{apply_block}
use baa_ls.Ledger.Chain.{head_hash, Grows, starts, extends, IsLinked, Grows-IsChain, head_index_lem}

same_block : (x y : Block) → SameBlock x y → x.hash ≡ y.hash → x ≡ y
same_block x y same hash = cc (
  same.same_index, same.same_timestamp, same.same_prev_hash, same.same_nonce,
  same.same_transactions, same.same_metadata, hash,
)

module _ {S : Type 0} (storage : Storage S) (engine : ContractEngine S) (c : Crypto) (b : Bincode)
    (transactions_delimited : SelfDelimiting b.transactions_codec)
    (metadata_delimited : SelfDelimiting b.metadata_codec)
    (nonempty : NonEmpty b.metadata_codec) where
  one_chain :
      (from : ChainState) (xs ys : List Block)
      → length xs ≡ length ys
      → IsLinked storage engine c b from xs
      → IsLinked storage engine c b from ys
      → All IsBlockSized xs
      → All IsBlockSized ys
      → head_hash from xs ≡ head_hash from ys
      → (xs ≡ ys) ⊎ Collision c
  one_chain from [] [] n lx ly sx sy e = inl refl
  one_chain from [] (y ∷ ys) n lx ly sx sy e = absurd (omega arith)
  one_chain from (x ∷ xs) [] n lx ly sx sy e = absurd (omega arith)
  one_chain from (x ∷ xs) (y ∷ ys) n lx ly sx sy e =
      elim (block_hash_commits b transactions_delimited metadata_delimited nonempty c x y x.hash
        sx.0 sy.0 lx.2 (ly.2 ∙ ap ok (sym e))) [
          | inr collision ↦ inr collision
          | inl same ↦
              elim (one_chain from xs ys (omega arith) lx.4 ly.4 sx.1 sy.1
                (sym lx.0 ∙ (same.same_prev_hash ∙ ly.0))) [
                  | inr collision ↦ inr collision
                  | inl rest ↦ inl (cc (same_block x y same e))
                ]
        ]

  one_result :
      {start w w' : LedgerState S} {blocks : List Block}
      → Grows storage engine c b start blocks w
      → Grows storage engine c b start blocks w'
      → w ≡ w'
  one_result starts starts = refl
  one_result (extends block before valid applied) (extends block' before' valid' applied') =
      ap (λ (x : LedgerState S). (apply_block storage engine b block x).1)
        (one_result before before')

  -- Two ledgers that grow from one state by blocks that are validated and applied, with fields of
  -- their Rust sizes and without the numbers wrapping, to the same head hash and head number have
  -- the same blocks and the same final state, or exhibit a SHA-256 collision, where bincode is
  -- self-delimiting and writes no metadata as nothing.
  pub one_history :
      {start w w' : LedgerState S} {xs ys : List Block}
      → Grows storage engine c b start xs w
      → Grows storage engine c b start ys w'
      → All IsBlockSized xs
      → All IsBlockSized ys
      → start.chain_state.latest_block_index + length xs < 2 ^ 64
      → start.chain_state.latest_block_index + length ys < 2 ^ 64
      → w.chain_state.latest_block_hash ≡ w'.chain_state.latest_block_hash
      → w.chain_state.latest_block_index ≡ w'.chain_state.latest_block_index
      → ((xs ≡ ys) × (w ≡ w')) ⊎ Collision c
  one_history {start} {w} {w'} {xs} {ys} gx gy sx sy fx fy hash index =
      let cx = Grows-IsChain storage engine c b gx in
      let cy = Grows-IsChain storage engine c b gy in
      let count : length xs ≡ length ys = omega (
        arith,
        head_index_lem storage engine c b start.chain_state xs (omega arith) cx.linked,
        head_index_lem storage engine c b start.chain_state ys (omega arith) cy.linked,
        cx.index_lem,
        cy.index_lem,
      ) in
      elim (one_chain start.chain_state xs ys count cx.linked cy.linked sx sy
        (sym cx.hash_lem ∙ (hash ∙ cy.hash_lem))) [
          | inr collision ↦ inr collision
          | inl same ↦ inl (
            same,
            one_result gx
                (subst (λ (l : List Block). Grows storage engine c b start l w') (sym same) gy),
          )
        ]
