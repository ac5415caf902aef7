-- ===== src/Fixtures/Codecs.antt =====
-- Toy stand-ins for the crates `sha2`, `ed25519_dalek` and `bincode`, to run the models on.
use baa_ls.Prelude.{
  ℕ, ◌≡◌, refl, sym, ◌∙◌, ap, Option, none, some, List, [], ◌∷◌, ◌++◌, Bytes, bytes_eq,
  bytes_eq_refl, length, take, replicate, ◌==◌, Bool-cases, ==_iff, inl, inr, if◌then◌else◌, arith,
  append-injective,
}
use baa_ls.Types.{
  Hash, zero_hash, PublicKey, Address, wallet, contract, TransactionPayload, transfer,
  contract_deploy, contract_call, data_payload, Metadata, Transaction, Block, ChainState, Account,
  wallet_account, contract_account, Crypto, Codec, Bincode,
}
use baa_ls.Types.Signing.{Signs}
use baa_ls.Types.Commitment.{SelfDelimiting, NonEmpty}

-- A signature is the key and the message, and a hash the first 32 bytes.
abbrev pub toy_crypto : Crypto
toy_crypto = record {
  sha256 = λ x. take 32 (x ++ replicate 32 0);
  is_verifying_key = λ x. length x == 32;
  verifying_key = λ key. key;
  sign = λ key message. key ++ message;
  verify = λ key message signature. bytes_eq signature (key ++ message);
}

pub toy_crypto-Signs : Signs toy_crypto
toy_crypto-Signs key message = bytes_eq_refl (key ++ message)

abbrev pub alice : PublicKey
alice = record { bytes = replicate 32 1 }

abbrev pub bob : PublicKey
bob = record { bytes = replicate 32 2 }

abbrev pub carol : PublicKey
carol = record { bytes = replicate 32 3 }

abbrev pub dave : PublicKey
dave = record { bytes = replicate 32 4 }

abbrev pub transaction_of :
    PublicKey → Address → TransactionPayload → Hash → ℕ → Bytes → Transaction
transaction_of sender recipient payload hash nonce signature = record {
  hash = hash;
  sender = sender;
  nonce = nonce;
  timestamp = 100;
  recipient = recipient;
  payload = payload;
  signature = record { bytes = signature };
  gas_limit = 0;
  priority = 0;
  metadata = none;
}

abbrev pub block_of : ℕ → ℕ → Hash → Hash → List Transaction → Block
block_of index timestamp prev_hash hash transactions = record {
  index = index;
  timestamp = timestamp;
  prev_hash = prev_hash;
  hash = hash;
  nonce = 0;
  transactions = transactions;
  metadata = none;
}

abbrev pub text : Codec Bytes
text = record { serialize = λ x. some x; deserialize = λ x. some x }

abbrev pub key_text : Codec PublicKey
key_text = record {
  serialize = λ key. some key.bytes;
  deserialize = λ bytes. some (record { bytes = bytes });
}

abbrev read_account : Bytes → Option Account
read_account (balance ∷ nonce ∷ []) = some (wallet_account balance nonce)
read_account (nonce ∷ x ∷ y ∷ code_hash) = some (contract_account code_hash zero_hash nonce)
read_account _ = none

abbrev write_account : Account → Option Bytes
write_account (wallet_account balance nonce) = some (balance ∷ nonce ∷ [])
write_account (contract_account code_hash storage_root_hash nonce) =
    some (nonce ∷ 0 ∷ 0 ∷ code_hash)

abbrev read_chain_state : Bytes → Option ChainState
read_chain_state [] = none
read_chain_state (index ∷ hash) = some (record {
  latest_block_hash = hash;
  latest_block_index = index;
  accounts_root_hash = zero_hash;
  total_supply = 0;
})

abbrev read_transaction : Bytes → Option Transaction
read_transaction [] = none
read_transaction (nonce ∷ hash) =
    some (transaction_of alice (wallet bob) (transfer 3) hash nonce [])

abbrev read_block : Bytes → Option Block
read_block (index ∷ timestamp ∷ hash) = some (block_of index timestamp zero_hash hash [])
read_block _ = none

abbrev write_address : Address → Option Bytes
write_address (wallet key) = if length key.bytes == 32 then some key.bytes else none
write_address (contract id) = none

abbrev write_payload : TransactionPayload → Option Bytes
write_payload (transfer amount) = some (amount ∷ [])
write_payload (contract_deploy wasm) = none
write_payload (contract_call method args) = none
write_payload (data_payload bytes) = none

abbrev write_metadata : Metadata → Option Bytes
write_metadata [] = some (0 ∷ [])
write_metadata (e ∷ rest) = none

-- the empty list only
abbrev write_no_transactions : List Transaction → Option Bytes
write_no_transactions [] = some (0 ∷ [])
write_no_transactions (tx ∷ rest) = none

abbrev pub toy_bincode : Bincode
toy_bincode = record {
  hash_codec = text;
  key_codec = key_text;
  text_codec = text;
  account_codec = record { serialize = write_account; deserialize = read_account };
  chain_state_codec = record {
    serialize = λ state. some (state.latest_block_index ∷ state.latest_block_hash);
    deserialize = read_chain_state;
  };
  transaction_codec = record {
    serialize = λ tx. some (tx.nonce ∷ tx.hash);
    deserialize = read_transaction;
  };
  transactions_codec = record {
    serialize = λ txs. some (length txs ∷ []);
    deserialize = λ bytes. none;
  };
  block_codec = record {
    serialize = λ block. some (block.index ∷ block.timestamp ∷ block.hash);
    deserialize = read_block;
  };
  address_codec = record { serialize = write_address; deserialize = λ bytes. none };
  payload_codec = record { serialize = write_payload; deserialize = λ bytes. none };
  metadata_codec = record { serialize = write_metadata; deserialize = λ bytes. none };
}

-- its lists of transactions are self-delimiting
abbrev pub strict_bincode : Bincode
strict_bincode = record toy_bincode {
  transactions_codec = record { serialize = write_no_transactions; deserialize = λ bytes. none };
}

pub transactions_delimited : SelfDelimiting strict_bincode.transactions_codec
transactions_delimited [] [] u v s t p q e = (refl, ground arith)
transactions_delimited [] (y ∷ ys) u v s t p q e = absurd (ground arith)
transactions_delimited (x ∷ xs) y u v s t p q e = absurd (ground arith)

pub metadata_delimited : SelfDelimiting toy_bincode.metadata_codec
metadata_delimited [] [] u v s t p q e = (refl, ground arith)
metadata_delimited [] (y ∷ ys) u v s t p q e = absurd (ground arith)
metadata_delimited (x ∷ xs) y u v s t p q e = absurd (ground arith)

pub metadata_nonempty : NonEmpty toy_bincode.metadata_codec
metadata_nonempty [] e = ground arith
metadata_nonempty (x ∷ xs) e = ground arith

pub payload_delimited : SelfDelimiting toy_bincode.payload_codec
payload_delimited (transfer m) (transfer n) u v s t p q e = ground arith
payload_delimited (transfer m) (contract_deploy wasm) u v s t p q e = absurd (ground arith)
payload_delimited (transfer m) (contract_call method args) u v s t p q e = absurd (ground arith)
payload_delimited (transfer m) (data_payload bytes) u v s t p q e = absurd (ground arith)
payload_delimited (contract_deploy wasm) y u v s t p q e = absurd (ground arith)
payload_delimited (contract_call method args) y u v s t p q e = absurd (ground arith)
payload_delimited (data_payload bytes) y u v s t p q e = absurd (ground arith)

written_address :
    (key : PublicKey) (u : Bytes)
    → write_address (wallet key) ≡ some u
    → (u ≡ key.bytes) × (length key.bytes ≡ 32)
written_address key u e = elim (Bool-cases (length key.bytes == 32)) [
  | inl sized ↦ (ground arith, (==_iff (length key.bytes) 32).0 sized)
  | inr unsized ↦ absurd (ground arith)
]

pub address_delimited : SelfDelimiting toy_bincode.address_codec
address_delimited (wallet k) (wallet l) u v s t p q e =
    let (p', m) = written_address k u p in
    let (q', n) = written_address l v q in
    let (same, rest) =
      append-injective k.bytes s l.bytes t (m ∙ sym n)
        (ap (λ (x : Bytes). x ++ s) (sym p') ∙ (e ∙ ap (λ (x : Bytes). x ++ t) q')) in
    (ap {A = Bytes} {B = Address} (λ bytes. wallet (record { bytes = bytes })) same, rest)
address_delimited (wallet k) (contract id) u v s t p q e = absurd (cc)
address_delimited (contract id) y u v s t p q e = absurd (cc)
