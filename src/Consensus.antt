-- ===== src/Consensus.antt =====
-- src/consensus.rs: the trait `ConsensusEngine` and `PoAConsensus`. u64 arithmetic wraps, as in a
-- release build.
use baa_ls.Prelude.{
  ℕ, ◌+◌, ◌%◌, ◌^◌, none, List, [], ◌∷◌, Bytes, bytes_eq, Result, ok, err, map_err, ◌>>=◌,
  if◌then◌else◌, not,
}
use baa_ls.Types.{
  PublicKey, Block, Transaction, ChainState, CryptoError, Crypto, Bincode, zero_hash, block_hash,
}

pub data ConsensusError : Type 0 where
  -- the formatted hash error, by the error itself
  validation_failed : CryptoError → ConsensusError
  invalid_signature : CryptoError → ConsensusError
  unauthorized_signer invalid_timestamp mismatched_prev_hash invalid_nonce no_pending_transactions :
      ConsensusError

-- The trait.
pub record ConsensusEngine : Type 0 where
  pub validate_block : Block → ChainState → Result ConsensusError (Unit {0})
  pub generate_block : List Transaction → Block → ChainState → Result ConsensusError Block

pub record PoAConsensus : Type 0 where
  pub authorized_signer_key : PublicKey
  pub block_time_interval_ms : ℕ

-- u64 addition of one
abbrev pub next_u64 : ℕ → ℕ
next_u64 n = (n + 1) % 2 ^ 64

module _ (c : Crypto) (b : Bincode) where
  -- `PoAConsensus::validate_block` accepts every block
  unfoldable pub validate_block : PoAConsensus → Block → Result ConsensusError (Unit {0})
  validate_block poa block = ok tt

  -- `PoAConsensus::sign_block`: the block after the call; the signature is dropped
  unfoldable pub sign_block : PoAConsensus → Block → Bytes → Result ConsensusError Block
  sign_block poa block private_key =
      if not (bytes_eq (c.verifying_key private_key) poa.authorized_signer_key.bytes)
      then err unauthorized_signer
      else (let signature = c.sign private_key block.hash in ok block)

  -- the block before its hash is set
  abbrev pub unhashed : List Transaction → Block → Block
  unhashed pending_transactions prev_block = record {
    index = next_u64 prev_block.index;
    timestamp = next_u64 prev_block.timestamp;
    prev_hash = prev_block.hash;
    hash = zero_hash;
    nonce = 0;
    transactions = pending_transactions;
    metadata = none;
  }

  unfoldable pub seal : Block → Result ConsensusError Block
  seal block = do
    h ← map_err validation_failed (block_hash c b block)
    ok (record block { hash = h })

  -- `PoAConsensus::generate_block`
  unfoldable pub generate_block :
      PoAConsensus → List Transaction → Block → ChainState → Result ConsensusError Block
  unfolding seal
  generate_block poa [] prev_block chain_state = err no_pending_transactions
  generate_block poa (tx ∷ rest) prev_block chain_state = seal (unhashed (tx ∷ rest) prev_block)

  abbrev pub poa_engine : PoAConsensus → ConsensusEngine
  poa_engine poa = record {
    validate_block = λ block chain_state. validate_block poa block;
    generate_block = generate_block poa;
  }
