-- ===== src/Types/Keys.antt =====
-- src/types.rs: keys and signatures from bytes, and their hand-written serde implementations.
--
-- serde calls the implementations with a format's `Serializer` or `Deserializer`; the program's only
-- format is bincode 1.3, third-party code. `SerdeFormat` is the calls that the implementations make
-- of it; `none` is an error.
use baa_ls.Prelude.{ℕ, ◌==◌, if◌then◌else◌, Option, none, some, Bytes, length, Result, ok, err}
use baa_ls.Types.{
  PublicKey, ContractId, Address, wallet, contract, TransactionSignature, CryptoError,
  invalid_public_key, Crypto,
}

-- `PublicKey::from_bytes`
unfoldable pub from_bytes : Crypto → Bytes → Result CryptoError PublicKey
from_bytes c bytes =
    if c.is_verifying_key bytes then ok (record { bytes = bytes }) else err invalid_public_key

-- `ContractId::from_bytes` and `ContractId::to_bytes`
abbrev pub contract_id_from_bytes : Bytes → ContractId
contract_id_from_bytes bytes = record { id = bytes }

abbrev pub contract_id_to_bytes : ContractId → Bytes
contract_id_to_bytes contract_id = contract_id.id

-- `From<PublicKey> for Address` and `From<ContractId> for Address`
abbrev pub key_address : PublicKey → Address
key_address key = wallet key

abbrev pub contract_address : ContractId → Address
contract_address contract_id = contract contract_id

pub record SerdeFormat : Type 0 where
  -- `Serializer::serialize_bytes`
  pub serialize_bytes : Bytes → Option Bytes
  -- `<[u8; N]>::deserialize`, with the input that it leaves
  pub deserialize_array : ℕ → Bytes → Option (Bytes × Bytes)
  -- `Vec::<u8>::deserialize`, with the input that it leaves
  pub deserialize_vec : Bytes → Option (Bytes × Bytes)

module _ (format : SerdeFormat) where
  -- `impl Serialize for PublicKey`
  unfoldable pub serialize_key : PublicKey → Option Bytes
  serialize_key key = format.serialize_bytes key.bytes

  -- `impl Deserialize for PublicKey`
  unfoldable pub deserialize_key : Crypto → Bytes → Option (PublicKey × Bytes)
  unfolding from_bytes
  deserialize_key c input = elim (format.deserialize_array 32 input) [
    | none ↦ none
    | some (bytes, rest) ↦ elim (from_bytes c bytes) [ err e ↦ none | ok key ↦ some (key, rest) ]
  ]

  -- `impl Serialize for TransactionSignature`
  unfoldable pub serialize_signature : TransactionSignature → Option Bytes
  serialize_signature signature = format.serialize_bytes signature.bytes

  -- `impl Deserialize for TransactionSignature`
  unfoldable pub deserialize_signature : Bytes → Option (TransactionSignature × Bytes)
  deserialize_signature input = elim (format.deserialize_vec input) [
    | none ↦ none
    | some (bytes, rest) ↦
        (if length bytes == 64 then some (record { bytes = bytes }, rest) else none)
  ]
