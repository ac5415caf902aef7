-- ===== src/Tests/Keys.antt =====
-- Signatures and hashes of the toy crates.
use baa_ls.Prelude.{
  ◌≡◌, ◌≢◌, some, ◌⊎◌, refl, [], ◌∷◌, ◌++◌, Bytes, to_le_bytes, ok, arith, true, replicate,
}
use baa_ls.Types.{
  Transaction, transfer, wallet, transaction_hash, transaction_hash_input, block_hash,
  block_hash_input, metadata_input, sign, verify_signature,
}
use baa_ls.Types.Keys.{serialize_key, deserialize_key}
use baa_ls.Types.Serde.{deserialize_key-serialize_key}
use baa_ls.Fixtures.Format.{toy_format, toy_format-IsBincode}
use baa_ls.Types.Signing.{verify_signature-sign}
use baa_ls.Types.Commitment.{Collision, IsBlockSized}
use baa_ls.Types.TransactionCommitment.{IsTransactionSized, SameSigned, transaction_hash_commits}
use baa_ls.Fixtures.Codecs.{
  toy_crypto, toy_crypto-Signs, toy_bincode, strict_bincode, metadata_delimited, metadata_nonempty,
  payload_delimited, address_delimited, alice, bob, transaction_of,
}
use baa_ls.Fixtures.Data.{payment, head_block}

abbrev unsigned : Transaction
unsigned = transaction_of alice (wallet bob) (transfer 3) [] 5 []

payment_signed : sign toy_crypto toy_bincode alice.bytes unsigned ≡ ok payment
unfolding sign transaction_hash transaction_hash_input metadata_input to_le_bytes
payment_signed = refl

verify_signature-sign_example : verify_signature toy_crypto toy_bincode payment ≡ ok true
verify_signature-sign_example =
    verify_signature-sign toy_crypto toy_bincode alice.bytes unsigned payment toy_crypto-Signs refl
      payment_signed

head_sized : IsBlockSized head_block
head_sized = record {
  index_fits = omega arith;
  timestamp_fits = omega arith;
  nonce_fits = omega arith;
  prev_hash_size = refl;
}

abbrev head_calculated : Bytes
head_calculated = (4 ∷ replicate 7 0) ++ ((50 ∷ replicate 7 0) ++ replicate 16 0)

head_hashed : block_hash toy_crypto strict_bincode head_block ≡ ok head_calculated
unfolding block_hash block_hash_input metadata_input to_le_bytes
head_hashed = refl

payment_sized : IsTransactionSized payment
payment_sized = record {
  sender_size = refl;
  nonce_fits = omega arith;
  timestamp_fits = omega arith;
}

-- the payment with another gas limit and its own hash
abbrev costly : Transaction
costly = record payment { gas_limit = 9 }

payment_hashed : transaction_hash toy_crypto toy_bincode payment ≡ ok alice.bytes
unfolding transaction_hash transaction_hash_input metadata_input to_le_bytes
payment_hashed = refl

costly_hashed : transaction_hash toy_crypto toy_bincode costly ≡ ok alice.bytes
unfolding transaction_hash transaction_hash_input metadata_input to_le_bytes
costly_hashed = refl

costly_sized : IsTransactionSized costly
costly_sized = record { sender_size = refl; nonce_fits = omega arith; timestamp_fits = omega arith }

transaction_hash_commits_example : SameSigned payment costly ⊎ Collision toy_crypto
transaction_hash_commits_example =
    transaction_hash_commits toy_bincode address_delimited payload_delimited metadata_delimited
      metadata_nonempty toy_crypto payment costly alice.bytes payment_sized costly_sized
      payment_hashed costly_hashed

deserialize_key-serialize_key_example :
    (encoded : Bytes) × (serialize_key toy_format alice ≡ some encoded)
    × (deserialize_key toy_format toy_crypto (encoded ++ [])
        ≡ some (record { bytes = 32 ∷ replicate 7 0 ++ replicate 24 1 }, replicate 8 1))
    × (deserialize_key toy_format toy_crypto (encoded ++ []) ≢ some (alice, []))
unfolding to_le_bytes
deserialize_key-serialize_key_example =
    deserialize_key-serialize_key toy_format toy_format-IsBincode toy_crypto alice [] refl
