-- ===== src/SledStorage/IndexEntries.antt =====
-- The entries that `index_transaction` of `SledStorage` (src/storage.rs) writes.
use baa_ls.Prelude.{
  ℕ, ◌≡◌, refl, sym, ap, inl, inr, some, ◌++◌, Bytes, codes, length, length-append, ◌+◌,
  append-injective, bytes_eq, bytes_eq_sound, ok, arith, Bool-cases, Option-cases,
}
use mathlib.Core.List.{append_assoc}
use baa_ls.Types.{Hash, Transaction, Bincode}
use baa_ls.SledStorage.{Sled, Hex, SledStorage, decimal_padded}
use baa_ls.SledStorage.Laws.{SledLaws, ScanLaws, HexLaws}
use baa_ls.SledStorage.Operations.{get_transaction, index_key, index_transaction}

module _ {Tree : Type 0} (sled : Sled Tree) (laws : SledLaws sled) (scans : ScanLaws sled laws.find)
    (b : Bincode) (hex : Hex) (hex_laws : HexLaws hex) where
  -- An entry of the index.
  pub record Entry (key value : Bytes) : Type 0 where
    pub tx_hash : Hash
    pub block_hash : Hash
    pub i : ℕ
    pub key_lem : key ≡ index_key sled b hex tx_hash block_hash i
    pub value_lem : value ≡ tx_hash
    pub tx_hash_size : length tx_hash ≡ 32
    pub block_hash_size : length block_hash ≡ 32

  -- The tree has such entries only.
  abbrev pub IsIndex : Tree → Type 0
  IsIndex t = (key value : Bytes) → laws.find t key ≡ some value → Entry key value

  -- The transaction is stored, and indexed under the block.
  pub record IsOf (block_hash : Hash) (s : SledStorage Tree) (tx : Transaction) : Type 0 where
    pub tx_hash : Hash
    pub i : ℕ
    pub indexed :
        laws.find s.tx_by_block_tree (index_key sled b hex tx_hash block_hash i) ≡ some tx_hash
    pub stored : get_transaction sled b hex tx_hash s ≡ ok (some tx)

  -- index_transaction of 32-byte hashes keeps the invariant, also where the insert fails.
  pub index_transaction-IsIndex :
      (tx_hash block_hash : Hash) (i : ℕ) (s : SledStorage Tree)
      → length tx_hash ≡ 32
      → length block_hash ≡ 32
      → IsIndex s.tx_by_block_tree
      → IsIndex (index_transaction sled b hex tx_hash block_hash i s).1.tx_by_block_tree
  unfolding index_transaction
  index_transaction-IsIndex tx_hash block_hash i s tx_size block_size h key value found =
      elim (Option-cases
        (sled.insert s.tx_by_block_tree (index_key sled b hex tx_hash block_hash i) tx_hash)) [
          | inl fails ↦ h key value (ground arith)
          | inr (t', e) ↦
              let there =
                laws.insert_lem s.tx_by_block_tree (index_key sled b hex tx_hash block_hash i)
                  tx_hash t' key e in
              elim (Bool-cases (bytes_eq (index_key sled b hex tx_hash block_hash i) key)) [
                | inl same ↦ record {
                  tx_hash = tx_hash;
                  block_hash = block_hash;
                  i = i;
                  key_lem = sym (bytes_eq_sound _ _ same);
                  value_lem = ground (arith, there);
                  tx_hash_size = tx_size;
                  block_hash_size = block_size;
                }
                | inr other ↦ h key value (ground (arith, there))
              ]
        ]

  -- the text before the hash of the transaction
  abbrev pub prefix_of : Hash → Bytes
  prefix_of block_hash = codes "block_tx:" ++ (hex.encode block_hash ++ codes ":")

  pub key_split :
      (tx_hash block_hash : Hash) (i : ℕ)
      → index_key sled b hex tx_hash block_hash i
        ≡ prefix_of block_hash ++ (hex.encode tx_hash ++ (codes ":" ++ decimal_padded 10 i))
  unfolding index_key
  key_split tx_hash block_hash i =
      ap (λ (x : Bytes). codes "block_tx:" ++ x)
        (sym (
          append_assoc (hex.encode block_hash) (codes ":")
            (hex.encode tx_hash ++ (codes ":" ++ decimal_padded 10 i))))

  pub one_block :
      (x y : Hash) (u v : Bytes) → length x ≡ length y → prefix_of x ++ u ≡ prefix_of y ++ v → x ≡ y
  one_block x y u v size e =
      let (same, rest) =
        append-injective (prefix_of x) u (prefix_of y) v
          (omega (
            arith,
            hex_laws.encode_length x,
            hex_laws.encode_length y,
            prefix_length x,
            prefix_length y,
          ))
          e in
      let (encoded, colon) =
        append-injective (hex.encode x) (codes ":") (hex.encode y) (codes ":")
          (omega (arith, hex_laws.encode_length x, hex_laws.encode_length y))
          (append-injective (codes "block_tx:") (hex.encode x ++ codes ":") (codes "block_tx:")
            (hex.encode y ++ codes ":") refl same).1 in
      hex_laws.encode_injective x y encoded
    where
      prefix_length : (z : Hash) → length (prefix_of z) ≡ 10 + length (hex.encode z)
      prefix_length z = omega (arith, length-append (hex.encode z) (codes ":"))
