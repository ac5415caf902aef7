-- ===== src/Tests/Chain.antt =====
-- The ledger, the runtime and the consensus engine at a head block with one payment.
use baa_ls.Prelude.{
  ◌≡◌, ◌≢◌, ◌↔◌, refl, none, some, [], ◌∷◌, ◌++◌, Bytes, bytes_eq, ok, arith, replicate, true, ap,
  to_le_bytes,
}
use baa_ls.Types.{
  PublicKey, Block, wallet_account, block_hash, block_hash_input, metadata_input, verify_signature,
  transaction_hash, transaction_hash_input,
}
use baa_ls.SledStorage.Operations.{get_account, get_block, read_entry}
use baa_ls.Consensus.{unhashed, generate_block}
use baa_ls.Ledger.Validation.{validate_block}
use baa_ls.Ledger.Validity.{IsNextBlock, validate_block_iff}
use baa_ls.Ledger.Transfers.{CanTransfer}
use baa_ls.Production.{IsHead, generate_block-validate_block}
use baa_ls.Fixtures.Log.{log_sled, digits, find}
use baa_ls.Fixtures.Codecs.{toy_crypto, toy_bincode, alice, bob, block_of}
use baa_ls.Fixtures.Data.{
  head_store, head_hash, head_block, head_state, payment, storage, engine, poa,
}

pub head_found : get_block log_sled toy_bincode digits head_hash head_store ≡ ok (some head_block)
unfolding get_block read_entry find bytes_eq
head_found = refl

pub alice_found :
    get_account log_sled toy_bincode digits alice head_store ≡ ok (some (wallet_account 10 4))
unfolding get_account read_entry find bytes_eq
alice_found = refl

pub bob_found : get_account log_sled toy_bincode digits bob head_store ≡ ok none
unfolding get_account read_entry find bytes_eq
bob_found = refl

pub payment_verified : verify_signature toy_crypto toy_bincode payment ≡ ok true
unfolding verify_signature transaction_hash transaction_hash_input metadata_input bytes_eq
payment_verified = refl

head_block-IsHead : IsHead storage toy_crypto toy_bincode head_block head_state head_store
head_block-IsHead = record {
  stored = head_found;
  hash_lem = refl;
  index_lem = refl;
  timestamp_fits = omega arith;
}

-- the first 32 bytes of what is hashed: the number, the time, and half of the head's hash
abbrev pub made_hash : Bytes
made_hash = (5 ∷ replicate 7 0) ++ ((51 ∷ replicate 7 0) ++ replicate 16 7)

payment_hashed :
    block_hash toy_crypto toy_bincode (unhashed toy_crypto toy_bincode (payment ∷ []) head_block)
    ≡ ok made_hash
unfolding block_hash block_hash_input metadata_input to_le_bytes
payment_hashed = refl

generate_block-validate_block_example :
    (block : Block) × (generate_block toy_crypto toy_bincode poa
        (payment ∷ [])
        head_block
        head_state
      ≡ ok block)
    × (block.transactions ≡ payment ∷ [])
    × (validate_block storage toy_crypto toy_bincode block head_state head_store ≡ ok tt)
generate_block-validate_block_example =
    generate_block-validate_block storage toy_crypto toy_bincode poa head_block head_state
      head_store payment [] made_hash head_block-IsHead (payment_verified, tt) payment_hashed

abbrev pub made_block : Block
made_block = block_of 5 51 head_hash made_hash (payment ∷ [])

validate_block_iff_example :
    (validate_block storage toy_crypto toy_bincode made_block head_state head_store ≡ ok tt)
    ↔ IsNextBlock storage toy_crypto toy_bincode made_block head_state head_store
validate_block_iff_example =
    validate_block_iff storage toy_crypto toy_bincode made_block head_state head_store

unfoldable pub payment_CanTransfer : CanTransfer storage engine toy_bincode payment 3 head_store
payment_CanTransfer = record {
  balance = 10;
  nonce = 4;
  recipient = bob;
  found = none;
  sender_lem = alice_found;
  nonce_lem = refl;
  covered = omega arith;
  recipient_lem = refl;
  found_lem = bob_found;
  can_receive = tt;
}

pub alice-ne-bob : alice ≢ bob
alice-ne-bob e = ground (arith, ap (λ (k : PublicKey). k.bytes) e)
