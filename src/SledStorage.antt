-- ===== src/SledStorage.antt =====
-- src/storage.rs, `SledStorage`: the implementation of the trait `Storage` over sled trees.
--
-- sled and the crate `hex` are third-party: `Sled` and `Hex` are the calls that the program makes.
-- A `Db` is its default tree, since `Db` dereferences to it and `db.apply_batch` writes there. The
-- store is the record of the trees; its clones share them, so there is one store.
pub mod Laws
pub mod Operations
pub mod RoundTrip
pub mod Heights
pub mod Latest
pub mod Indexing
pub mod Scans
pub mod Pending
pub mod IndexEntries
pub mod TransactionIndex
pub mod ContractStorage
pub mod Specification
pub mod Refinement
use baa_ls.Prelude.{
  ℕ, zero, suc, ◌+◌, ◌/◌, ◌%◌, length, ◌==◌, if◌then◌else◌, Option, none, some, List, [], ◌∷◌, ◌++◌,
  Bytes, codes, Result, ok, err, ◌>>=◌, String, bytes_eq,
}
use baa_ls.Types.{
  hash_conversion_error, Hash, PublicKey, ContractId, Transaction, Block, ChainState, Account,
  Codec, Bincode,
}
use baa_ls.Storage.{
  StorageError, database_error, not_found, serialization_error, crypto_error, StorageOperation, put,
  delete, StorageBatch, Reads, Writes, Storage,
}

-- The writes that a `sled::Batch` has been given, the first one first; `none` removes the key.
abbrev pub SledBatch : Type 0
SledBatch = List (Bytes × Option Bytes)

-- An outer `none` is `Err(sled::Error)`, which leaves the tree as it was.
pub record Sled (Tree : Type 0) : Type 0 where
  pub open_db : Bytes → Option Tree
  pub open_tree : Tree → Bytes → Option Tree
  pub get : Tree → Bytes → Option (Option Bytes)
  pub insert : Tree → Bytes → Bytes → Option Tree
  pub remove : Tree → Bytes → Option Tree
  pub apply_batch : Tree → SledBatch → Option Tree
  -- ascending by key; an entry may fail to be read
  pub scan_prefix : Tree → Bytes → List (Option (Bytes × Bytes))

pub record Hex : Type 0 where
  pub encode : Bytes → Bytes
  pub decode : Bytes → Option Bytes

pub record SledStorage (Tree : Type 0) : Type 0 where
  pub db : Tree
  pub blocks_tree : Tree
  pub transactions_tree : Tree
  pub mempool_tree : Tree
  pub accounts_tree : Tree
  pub contract_code_tree : Tree
  pub contract_storage_tree : Tree
  pub chain_state_tree : Tree
  pub tx_by_block_tree : Tree

-- `{:0>w}` of a number below 10 ^ w: its decimal digits, padded with zeros on the left.
unfoldable pub decimal_padded : ℕ → ℕ → Bytes
decimal_padded zero n = []
decimal_padded (suc w) n = decimal_padded w (n / 10) ++ (b'0' + n % 10) ∷ []

abbrev pub height_prefix : Bytes
height_prefix = codes "height:"

unfoldable pub height_key : ℕ → Bytes
height_key height = height_prefix ++ decimal_padded 20 height

abbrev pub chain_state_key : Bytes
chain_state_key = codes "global:current"

-- `result?` on a sled call.
abbrev pub or_database_error : {A : Type 0} → Option A → Result StorageError A
or_database_error none = err database_error
or_database_error (some a) = ok a

abbrev pub or_serialization_error : {A : Type 0} → Option A → Result StorageError A
or_serialization_error none = err serialization_error
or_serialization_error (some a) = ok a

-- `encoded.map(|e| bincode::deserialize(&e)).transpose()?`
unfoldable pub decode_entry : {A : Type 0} → Codec A → Option Bytes → Result StorageError (Option A)
decode_entry c none = ok none
decode_entry c (some encoded) = do
  value ← or_serialization_error (c.deserialize encoded)
  ok (some value)

-- The state after a write to one tree, which `rebuild` puts back into the store.
abbrev pub commit :
    {Tree : Type 0} → Option Tree → (Tree → SledStorage Tree) → Writes (SledStorage Tree)
commit none rebuild s = (err database_error, s)
commit (some t) rebuild s = (ok tt, rebuild t)

-- The entries of a scan up to the first that fails, decoded.
unfoldable pub decode_all :
    {A : Type 0} → Codec A → List (Option (Bytes × Bytes)) → Result StorageError (List A)
decode_all c [] = ok []
decode_all c (none ∷ rest) = err database_error
decode_all c (some (key, encoded) ∷ rest) = do
  value ← or_serialization_error (c.deserialize encoded)
  values ← decode_all c rest
  ok (value ∷ values)

unfoldable pub last_entry : List (Option (Bytes × Bytes)) → Option (Option (Bytes × Bytes))
last_entry [] = none
last_entry (e ∷ []) = some e
last_entry (e ∷ f ∷ rest) = last_entry (f ∷ rest)

-- The loop of `apply_batch`, that fills the `sled::Batch`.
unfoldable pub sled_batch : StorageBatch → SledBatch
sled_batch [] = []
sled_batch (put key value ∷ ops) = (key, some value) ∷ sled_batch ops
sled_batch (delete key ∷ ops) = (key, none) ∷ sled_batch ops

-- `<[u8; 32]>::try_from`
abbrev pub is_hash_sized : Bytes → Result StorageError Bytes
is_hash_sized bytes =
    if length bytes == 32 then ok bytes else err (crypto_error hash_conversion_error)
