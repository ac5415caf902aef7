-- ===== src/SledStorage/Indexing.antt =====
-- `put_block` of `SledStorage` (src/storage.rs) and the height index.
use baa_ls.Prelude.{
  ◌^◌, ◌<◌, ◌≡◌, ◌≢◌, refl, sym, ◌∙◌, inl, inr, none, some, ◌++◌, Bytes, bytes_eq, bytes_eq_sound,
  arith, Option-cases, Bool-cases,
}
use baa_ls.Types.{Block, Bincode}
use baa_ls.SledStorage.{Sled, Hex, SledStorage, height_prefix, height_key}
use baa_ls.SledStorage.Laws.{SledLaws, RoundTrips}
use baa_ls.SledStorage.Operations.{put_block}
use baa_ls.SledStorage.Latest.{IsIndexed}

module _ {Tree : Type 0} (sled : Sled Tree) (laws : SledLaws sled) (b : Bincode) (hex : Hex) where
  abbrev Indexed : Tree → Type 0
  Indexed = IsIndexed sled laws b

  insert_hash-IsIndexed :
      (t t' : Tree) (hash encoded : Bytes)
      → ((rest : Bytes) → hash ≢ height_prefix ++ rest)
      → sled.insert t hash encoded ≡ some t'
      → Indexed t
      → Indexed t'
  insert_hash-IsIndexed t t' hash encoded apart e h = record {
    indexed = λ rest v found. elim (Bool-cases (bytes_eq hash (height_prefix ++ rest))) [
      | inl same ↦ absurd (apart rest (bytes_eq_sound _ _ same))
      | inr other ↦ h.indexed rest v (
          sym (laws.insert_lem t hash encoded t' (height_prefix ++ rest) e ∙ rw other refl) ∙ found)
    ];
  }

  insert_height-IsIndexed :
      (t t' : Tree) (block : Block) (encoded : Bytes)
      → b.block_codec.deserialize encoded ≡ some block
      → block.index < 10 ^ 20
      → sled.insert t (height_key block.index) encoded ≡ some t'
      → Indexed t
      → Indexed t'
  insert_height-IsIndexed t t' block encoded d fits e h = record {
    indexed = λ rest v found.
        elim (Bool-cases (bytes_eq (height_key block.index) (height_prefix ++ rest))) [
          | inl same ↦ (
            block,
            ground (
              arith,
              laws.insert_lem t (height_key block.index) encoded t' (height_prefix ++ rest) e,
            ),
            sym (bytes_eq_sound _ _ same),
            fits,
          )
          | inr other ↦ h.indexed rest v (
              sym (
                laws.insert_lem t (height_key block.index) encoded t' (height_prefix ++ rest) e
                ∙ rw other refl)
              ∙ found)
        ];
  }

  -- the tree that each outcome of the two inserts leaves
  unwritten :
      (block : Block) (s : SledStorage Tree) (encoded : Bytes)
      → b.block_codec.serialize block ≡ some encoded
      → sled.insert s.blocks_tree block.hash encoded ≡ none
      → (put_block sled b hex block s).1.blocks_tree ≡ s.blocks_tree
  unfolding put_block
  unwritten block s encoded e f = ground arith

  half_written :
      (block : Block) (s : SledStorage Tree) (encoded : Bytes) (t : Tree)
      → b.block_codec.serialize block ≡ some encoded
      → sled.insert s.blocks_tree block.hash encoded ≡ some t
      → sled.insert t (height_key block.index) encoded ≡ none
      → (put_block sled b hex block s).1.blocks_tree ≡ t
  unfolding put_block
  half_written block s encoded t e f g = ground arith

  written :
      (block : Block) (s : SledStorage Tree) (encoded : Bytes) (t t' : Tree)
      → b.block_codec.serialize block ≡ some encoded
      → sled.insert s.blocks_tree block.hash encoded ≡ some t
      → sled.insert t (height_key block.index) encoded ≡ some t'
      → (put_block sled b hex block s).1.blocks_tree ≡ t'
  unfolding put_block
  written block s encoded t t' e f g = ground arith

  -- Put_block of a block that bincode reads back, with a u64 index and a hash that does not start
  -- with the bytes of the text height:, keeps the invariant that every height entry holds a block
  -- under the key of its height, whether its inserts succeed or fail.
  pub put_block-IsIndexed :
      (block : Block) (s : SledStorage Tree)
      → RoundTrips b.block_codec block
      → ((rest : Bytes) → block.hash ≢ height_prefix ++ rest)
      → block.index < 2 ^ 64
      → IsIndexed sled laws b s.blocks_tree
      → IsIndexed sled laws b (put_block sled b hex block s).1.blocks_tree
  put_block-IsIndexed block s trip apart fits h =
      elim (Option-cases (sled.insert s.blocks_tree block.hash trip.encoded)) [
        | inl fails ↦ rw (unwritten block s trip.encoded trip.serialize_lem fails) h
        | inr (t, e) ↦
            let k = insert_hash-IsIndexed s.blocks_tree t block.hash trip.encoded apart e h in
            elim (Option-cases (sled.insert t (height_key block.index) trip.encoded)) [
              | inl fails ↦ rw (half_written block s trip.encoded t trip.serialize_lem e fails) k
              | inr (t', f) ↦ rw (written block s trip.encoded t t' trip.serialize_lem e f) (
                  insert_height-IsIndexed t t' block trip.encoded trip.deserialize_lem (omega arith)
                    f k)
            ]
      ]
