-- ===== src/Types.antt =====
-- src/types.rs: keys, signatures, blocks, transactions, accounts, and what is hashed and signed.
--
-- A hash and a key are the byte strings that they hold, and so is a Rust `String`. A `BTreeMap` of
-- metadata is its list of entries. SHA-256, ed25519 and bincode are third-party code: `Crypto` and
-- `Bincode` are parameters, records of the calls that the program makes.
pub mod Keys
pub mod Serde
pub mod Signing
pub mod Commitment
pub mod TransactionCommitment
use baa_ls.Prelude.{
  ℕ, ◌≡◌, Bool, true, false, Option, none, some, List, [], ◌++◌, Bytes, bytes_eq, to_le_bytes,
  Result, ok, err, ◌>>=◌, replicate, if◌then◌else◌, not,
}

pub data CryptoError : Type 0 where
  hash_conversion_error signature_verification_failed invalid_public_key invalid_signature :
      CryptoError

abbrev pub Hash : Type 0
Hash = Bytes

-- `[0; 32]`
abbrev pub zero_hash : Hash
zero_hash = replicate 32 0

-- A `VerifyingKey` is identified by its 32 bytes; `==` and `cmp` compare them.
pub record PublicKey : Type 0 where
  pub bytes : Bytes

pub record TransactionSignature : Type 0 where
  pub bytes : Bytes

pub record ContractId : Type 0 where
  pub id : Bytes

pub data Address : Type 0 where
  wallet : PublicKey → Address
  contract : ContractId → Address

pub data TransactionPayload : Type 0 where
  transfer : ℕ → TransactionPayload
  contract_deploy : Bytes → TransactionPayload
  contract_call : Bytes → Bytes → TransactionPayload
  data_payload : Bytes → TransactionPayload

abbrev pub Metadata : Type 0
Metadata = List (Bytes × Bytes)

pub record Transaction : Type 0 where
  pub hash : Hash
  pub sender : PublicKey
  pub nonce : ℕ
  pub timestamp : ℕ
  pub recipient : Address
  pub payload : TransactionPayload
  pub signature : TransactionSignature
  pub gas_limit : ℕ
  pub priority : ℕ
  pub metadata : Option Metadata

pub record Block : Type 0 where
  pub index : ℕ
  pub timestamp : ℕ
  pub prev_hash : Hash
  pub hash : Hash
  pub nonce : ℕ
  pub transactions : List Transaction
  pub metadata : Option Metadata

pub record ChainState : Type 0 where
  pub latest_block_hash : Hash
  pub latest_block_index : ℕ
  pub accounts_root_hash : Hash
  pub total_supply : ℕ

pub data Account : Type 0 where
  -- balance, nonce
  wallet_account : ℕ → ℕ → Account
  -- code hash, storage root hash, nonce
  contract_account : Hash → Hash → ℕ → Account

-- `Account::nonce`
unfoldable pub account_nonce : Account → ℕ
account_nonce (wallet_account balance nonce) = nonce
account_nonce (contract_account code_hash storage_root_hash nonce) = nonce

-- `Account::set_nonce`
unfoldable pub set_nonce : Account → ℕ → Account
set_nonce (wallet_account balance nonce) new_nonce = wallet_account balance new_nonce
set_nonce (contract_account code_hash storage_root_hash nonce) new_nonce =
    contract_account code_hash storage_root_hash new_nonce

-- The calls of the crates `sha2` and `ed25519_dalek`. A signing key is its 32 secret bytes.
pub record Crypto : Type 0 where
  pub sha256 : Bytes → Bytes
  -- `VerifyingKey::from_bytes` accepts these bytes
  pub is_verifying_key : Bytes → Bool
  pub verifying_key : Bytes → Bytes
  pub sign : Bytes → Bytes → Bytes
  -- key, message, signature
  pub verify : Bytes → Bytes → Bytes → Bool

-- `bincode::serialize` and `bincode::deserialize` at one type; `none` is an error.
pub record Codec (A : Type 0) : Type 0 where
  pub serialize : A → Option Bytes
  pub deserialize : Bytes → Option A

pub record Bincode : Type 0 where
  pub hash_codec : Codec Hash
  pub key_codec : Codec PublicKey
  pub text_codec : Codec Bytes
  pub account_codec : Codec Account
  pub chain_state_codec : Codec ChainState
  pub transaction_codec : Codec Transaction
  pub transactions_codec : Codec (List Transaction)
  pub block_codec : Codec Block
  pub address_codec : Codec Address
  pub payload_codec : Codec TransactionPayload
  pub metadata_codec : Codec Metadata

-- `bincode::serialize(..).map_err(|_| CryptoError::HashConversionError)?`
abbrev pub serialize_for_hash : {A : Type 0} → Codec A → A → Result CryptoError Bytes
serialize_for_hash c a = elim (c.serialize a) [
  | none ↦ err hash_conversion_error
  | some bytes ↦ ok bytes
]

-- `if let Some(metadata) = &self.metadata { hasher.update(..) }`
unfoldable pub metadata_input : Bincode → Option Metadata → Result CryptoError Bytes
metadata_input b none = ok []
metadata_input b (some m) = serialize_for_hash b.metadata_codec m

-- The bytes that `Block::calculate_hash` feeds to the hasher, in order.
unfoldable pub block_hash_input : Bincode → Block → Result CryptoError Bytes
unfolding metadata_input
block_hash_input b block = do
  serialized_txns ← serialize_for_hash b.transactions_codec block.transactions
  serialized_metadata ← metadata_input b block.metadata
  ok (
      to_le_bytes 8 block.index
      ++ (to_le_bytes 8 block.timestamp
          ++ (block.prev_hash
              ++ (to_le_bytes 8 block.nonce ++ (serialized_txns ++ serialized_metadata)))))

-- The bytes that `Transaction::calculate_hash` feeds to the hasher, in order.
unfoldable pub transaction_hash_input : Bincode → Transaction → Result CryptoError Bytes
unfolding metadata_input
transaction_hash_input b tx = do
  serialized_recipient ← serialize_for_hash b.address_codec tx.recipient
  serialized_payload ← serialize_for_hash b.payload_codec tx.payload
  serialized_metadata ← metadata_input b tx.metadata
  ok (
      tx.sender.bytes
      ++ (to_le_bytes 8 tx.nonce
          ++ (to_le_bytes 8 tx.timestamp
              ++ (serialized_recipient ++ (serialized_payload ++ serialized_metadata)))))

module _ (c : Crypto) (b : Bincode) where
  -- `Block::calculate_hash`
  unfoldable pub block_hash : Block → Result CryptoError Hash
  block_hash block = do input ← block_hash_input b block; ok (c.sha256 input)

  -- `Transaction::calculate_hash`
  unfoldable pub transaction_hash : Transaction → Result CryptoError Hash
  transaction_hash tx = do input ← transaction_hash_input b tx; ok (c.sha256 input)

  -- `Transaction::sign`: the error leaves the transaction as it was.
  unfoldable pub sign : Bytes → Transaction → Result CryptoError Transaction
  sign private_key tx = do
    h ← transaction_hash tx
    ok (record tx { hash = h; signature = record { bytes = c.sign private_key h } })

  -- `Transaction::verify_signature`
  unfoldable pub verify_signature : Transaction → Result CryptoError Bool
  verify_signature tx = do
    expected_hash ← transaction_hash tx
    if not (bytes_eq tx.hash expected_hash)
        then ok false
        else ok (c.verify tx.sender.bytes tx.hash tx.signature.bytes)
