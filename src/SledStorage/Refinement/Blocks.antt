-- ===== src/SledStorage/Refinement/Blocks.antt =====
-- put_block and the writes of src/storage.rs to contract storage, against their specification.
use baa_ls.Prelude.{
  ℕ, ◌≡◌, refl, sym, ap, ◌∙◌, ◌==◌, ◌&&◌, if◌then◌else◌, none, some, Bytes, bytes_eq, length, Bool,
  ok, err, arith, inl, inr, Option-cases,
}
use baa_ls.Types.{Hash, ContractId, Block, Bincode}
use baa_ls.Storage.{serialization_error}
use baa_ls.SledStorage.{Sled, Hex, SledStorage, or_database_error, decode_entry, height_key}
use baa_ls.SledStorage.Laws.{SledLaws, Works, HexLaws}
use baa_ls.SledStorage.Operations.{
  read_entry, get_block, get_block_by_height, contract_storage_read, put_block, contract_key,
  contract_storage_write, contract_storage_remove,
}
use baa_ls.SledStorage.RoundTrip.{insert_returns, remove_returns}
use baa_ls.SledStorage.Heights.{insert_both, height_key-bytes_eq, hash-ne-height_key}
use baa_ls.SledStorage.ContractStorage.{contract_key-bytes_eq}
use baa_ls.SledStorage.Specification
use baa_ls.SledStorage.Specification.{
  Write, IsSized, Answer, View, specified, specified_run, perform, run, Represents, Agrees,
}
use baa_ls.SledStorage.Refinement.Views.{with_blocks, with_contract_values}
use baa_ls.SledStorage.Refinement.Reads.{agree, else_eq, store, Refined, raw-insert, raw-remove}

module _ {Tree : Type 0} (sled : Sled Tree) (laws : SledLaws sled) (works : Works sled)
    (b : Bincode) (hex : Hex) (hex_laws : HexLaws hex) where
  pub contract_storage_write-Refined :
      (id : ContractId) (key value : Bytes) (sized : length id.id ≡ 32) (v : View)
      (s : SledStorage Tree)
      → Represents (store sled b hex) v s
      → Refined sled b hex (Specification.contract_storage_write id key value) v s
  unfolding contract_storage_write specified read_entry contract_storage_read
  contract_storage_write-Refined id key value sized v s h =
      let (t', f) =
        insert_returns sled laws works s.contract_storage_tree (contract_key sled b hex id key)
          value in
      let answer : ContractId → Bytes → Answer Bytes = λ other k.
        if bytes_eq id.id other.id && bytes_eq key k
        then ok (some value)
        else v.contract_value other k in
      agree (store sled b hex) {p' = (ok tt, record s { contract_storage_tree = t' })}
        {q' = (ok tt, record v { contract_value = answer })} (ground arith) refl
        (
          refl,
          with_contract_values sled b hex v s t' answer h (λ other k size.
              raw-insert sled laws works b hex s.contract_storage_tree
                (contract_key sled b hex id key) value t' (contract_key sled b hex other k) f
              ∙ (ap
                    (λ (t : Bool).
                      if t
                      then ok (some value)
                      else or_database_error
                          (sled.get s.contract_storage_tree (contract_key sled b hex other k)))
                    (contract_key-bytes_eq sled b hex hex_laws id other key k (sized ∙ sym size))
                  ∙ else_eq (bytes_eq id.id other.id && bytes_eq key k) _
                      (h.contract_value_lem other k size))),
        )

  pub contract_storage_remove-Refined :
      (id : ContractId) (key : Bytes) (sized : length id.id ≡ 32) (v : View) (s : SledStorage Tree)
      → Represents (store sled b hex) v s
      → Refined sled b hex (Specification.contract_storage_remove id key) v s
  unfolding contract_storage_remove specified read_entry contract_storage_read
  contract_storage_remove-Refined id key sized v s h =
      let (t', f) =
        remove_returns sled laws works s.contract_storage_tree (contract_key sled b hex id key) in
      let answer : ContractId → Bytes → Answer Bytes = λ other k.
        if bytes_eq id.id other.id && bytes_eq key k then ok none else v.contract_value other k in
      agree (store sled b hex) {p' = (ok tt, record s { contract_storage_tree = t' })}
        {q' = (ok tt, record v { contract_value = answer })} (ground arith) refl
        (
          refl,
          with_contract_values sled b hex v s t' answer h (λ other k size.
              raw-remove sled laws works b hex s.contract_storage_tree
                (contract_key sled b hex id key) t' (contract_key sled b hex other k) f
              ∙ (ap
                    (λ (t : Bool).
                      if t
                      then ok none
                      else or_database_error
                          (sled.get s.contract_storage_tree (contract_key sled b hex other k)))
                    (contract_key-bytes_eq sled b hex hex_laws id other key k (sized ∙ sym size))
                  ∙ else_eq (bytes_eq id.id other.id && bytes_eq key k) _
                      (h.contract_value_lem other k size))),
        )

  pub put_block-Refined :
      (x : Block) (sized : IsSized (Specification.put_block x)) (v : View) (s : SledStorage Tree)
      → Represents (store sled b hex) v s
      → Refined sled b hex (Specification.put_block x) v s
  unfolding put_block specified read_entry get_block get_block_by_height
  put_block-Refined x sized v s h = elim (Option-cases (b.block_codec.serialize x)) [
    | inl fails ↦
        agree (store sled b hex) {p' = (err serialization_error, s)}
          {q' = (err serialization_error, v)} (ground arith) (ground arith) (refl, h)
    | inr (encoded, e) ↦
        let (t', t'', f, g, found) =
          insert_both sled laws works b hex s.blocks_tree x.hash (height_key x.index) encoded in
        let answer : Hash → Answer Block = λ hash.
          if bytes_eq x.hash hash
          then decode_entry b.block_codec (some encoded)
          else v.block hash in
        let by_height : ℕ → Answer Block = λ height.
          if x.index == height
          then decode_entry b.block_codec (some encoded)
          else v.block_by_height height in
        agree (store sled b hex) {p' = (ok tt, record s { blocks_tree = t'' })}
          {q' = (ok tt, record v { block = answer; block_by_height = by_height })} (ground arith)
          (ground arith)
          (
            refl,
            with_blocks sled b hex v s t'' answer by_height h
                (λ hash size.
                  ground (
                    arith,
                    found hash,
                    hash-ne-height_key hash x.index size,
                    h.block_lem hash size,
                  ))
                (λ height small. ground (
                  arith,
                  found (height_key height),
                  hash-ne-height_key x.hash height sized.0,
                  height_key-bytes_eq x.index height (omega (arith, sized.1)) (omega arith),
                  h.block_by_height_lem height small,
                )),
          )
  ]
