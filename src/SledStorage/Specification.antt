-- ===== src/SledStorage/Specification.antt =====
-- An abstract store for src/storage.rs: the answers of the methods that read, and what each method
-- that writes makes of them on a working disk.
use baa_ls.Prelude.{
  ℕ, ◌^◌, ◌<◌, ◌≡◌, ◌==◌, ◌&&◌, if◌then◌else◌, Option, none, some, List, [], ◌∷◌, Bytes, bytes_eq,
  length, Result, ok, err,
}
use baa_ls.Types.{
  Hash, PublicKey, ContractId, Transaction, Block, ChainState, Account, Codec, Bincode,
}
use baa_ls.Storage.{StorageError, serialization_error, StorageBatch, Storage}
use baa_ls.SledStorage.{decode_entry}

-- A call of a method that writes.
pub data Write : Type 0 where
  put_block : Block → Write
  put_transaction : Transaction → Write
  remove_pending_transaction : Hash → Write
  index_transaction : Hash → Hash → ℕ → Write
  put_account : PublicKey → Account → Write
  delete_account : PublicKey → Write
  put_chain_state : ChainState → Write
  put_contract_code : ContractId → Bytes → Write
  contract_storage_write : ContractId → Bytes → Bytes → Write
  contract_storage_remove : ContractId → Bytes → Write
  apply_batch : StorageBatch → Write

-- Hashes, keys and ids have 32 bytes, and an index is a u64.
abbrev pub IsSized : Write → Type 0
IsSized (put_block block) = (length block.hash ≡ 32) × (block.index < 2 ^ 64)
IsSized (contract_storage_write contract_id key value) = length contract_id.id ≡ 32
IsSized (contract_storage_remove contract_id key) = length contract_id.id ≡ 32
IsSized _ = Unit

abbrev pub Answer : Type 0 → Type 0
Answer A = Result StorageError (Option A)

pub record View : Type 0 where
  pub block : Hash → Answer Block
  pub block_by_height : ℕ → Answer Block
  pub transaction : Hash → Answer Transaction
  pub account : PublicKey → Answer Account
  pub chain_state : Answer ChainState
  pub contract_code : ContractId → Answer Bytes
  pub contract_value : ContractId → Bytes → Answer Bytes

module _ (b : Bincode) where
  -- a write of a value that serde encodes: an error, or what is read back goes into the view
  abbrev write_encoded :
      {A : Type 0} → Codec A → A → View → (Answer A → View) → Result StorageError (Unit {0}) × View
  write_encoded c a v update = elim (c.serialize a) [
    | none ↦ (err serialization_error, v)
    | some encoded ↦ (ok tt, update (decode_entry c (some encoded)))
  ]

  unfoldable pub specified : Write → View → Result StorageError (Unit {0}) × View
  specified (put_block x) v = write_encoded b.block_codec x v (λ read. record v {
    block = λ hash. if bytes_eq x.hash hash then read else v.block hash;
    block_by_height = λ height. if x.index == height then read else v.block_by_height height;
  })
  specified (put_transaction tx) v = write_encoded b.transaction_codec tx v (λ read. record v {
    transaction = λ hash. if bytes_eq tx.hash hash then read else v.transaction hash;
  })
  specified (put_account address x) v = write_encoded b.account_codec x v (λ read. record v {
    account = λ other. if bytes_eq address.bytes other.bytes then read else v.account other;
  })
  specified (delete_account address) v = (
    ok tt,
    record v {
      account = λ other. if bytes_eq address.bytes other.bytes then ok none else v.account other;
    },
  )
  specified (put_chain_state state) v =
      write_encoded b.chain_state_codec state v (λ read. record v { chain_state = read })
  specified (put_contract_code id code) v = (
    ok tt,
    record v {
      contract_code =
          λ other. if bytes_eq id.id other.id then ok (some code) else v.contract_code other;
    },
  )
  specified (contract_storage_write id key value) v = (
    ok tt,
    record v {
      contract_value = λ other k.
          if bytes_eq id.id other.id && bytes_eq key k
          then ok (some value)
          else v.contract_value other k;
    },
  )
  specified (contract_storage_remove id key) v = (
    ok tt,
    record v {
      contract_value = λ other k.
          if bytes_eq id.id other.id && bytes_eq key k then ok none else v.contract_value other k;
    },
  )
  -- no method that is viewed here reads what these write
  specified (remove_pending_transaction hash) v = (ok tt, v)
  specified (index_transaction tx_hash block_hash i) v = (ok tt, v)
  specified (apply_batch ops) v = (ok tt, v)

  -- a sequence of calls: their results, in order, and the view after them
  unfoldable pub specified_run : List Write → View → List (Result StorageError (Unit {0})) × View
  unfolding specified
  specified_run [] v = ([], v)
  specified_run (w ∷ ws) v =
      let (r, v') = specified w v in let (rs, v'') = specified_run ws v' in (r ∷ rs, v'')

module _ {S : Type 0} (storage : Storage S) where
  abbrev pub perform : Write → S → Result StorageError (Unit {0}) × S
  perform (put_block x) = storage.put_block x
  perform (put_transaction tx) = storage.put_transaction tx
  perform (remove_pending_transaction hash) = storage.remove_pending_transaction hash
  perform (index_transaction tx_hash block_hash i) = storage.index_transaction tx_hash block_hash i
  perform (put_account address x) = storage.put_account address x
  perform (delete_account address) = storage.delete_account address
  perform (put_chain_state state) = storage.put_chain_state state
  perform (put_contract_code id code) = storage.put_contract_code id code
  perform (contract_storage_write id key value) = storage.contract_storage_write id key value
  perform (contract_storage_remove id key) = storage.contract_storage_remove id key
  perform (apply_batch ops) = storage.apply_batch ops

  unfoldable pub run : List Write → S → List (Result StorageError (Unit {0})) × S
  run [] s = ([], s)
  run (w ∷ ws) s = let (r, s') = perform w s in let (rs, s'') = run ws s' in (r ∷ rs, s'')

  -- The store answers every read as the view does, at arguments of their Rust sizes.
  pub record Represents (v : View) (s : S) : Type 0 where
    pub block_lem : (hash : Hash) → length hash ≡ 32 → storage.get_block hash s ≡ v.block hash
    pub block_by_height_lem :
        (height : ℕ)
        → height < 2 ^ 64
        → storage.get_block_by_height height s ≡ v.block_by_height height
    pub transaction_lem : (hash : Hash) → storage.get_transaction hash s ≡ v.transaction hash
    pub account_lem : (address : PublicKey) → storage.get_account address s ≡ v.account address
    pub chain_state_lem : storage.get_chain_state s ≡ v.chain_state
    pub contract_code_lem : (id : ContractId) → storage.get_contract_code id s ≡ v.contract_code id
    pub contract_value_lem :
        (id : ContractId) (key : Bytes)
        → length id.id ≡ 32
        → storage.contract_storage_read id key s ≡ v.contract_value id key

  -- Results and states after a call, and after its specification.
  abbrev pub Agrees : {R : Type 0} → R × S → R × View → Type 0
  Agrees p q = (p.0 ≡ q.0) × Represents q.1 p.1
