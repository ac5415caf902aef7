-- ===== src/Fixtures/Data.antt =====
-- Stores, transactions, blocks and messages to run the models on.
use baa_ls.Prelude.{
  Option, none, some, [], ◌∷◌, ◌++◌, Bytes, ltb, if◌then◌else◌, replicate, to_le_bytes,
}
use baa_ls.Types.{Hash, zero_hash, wallet, transfer, Transaction, Block, ChainState, Codec}
use baa_ls.Storage.{Storage}
use baa_ls.SledStorage.{SledStorage, chain_state_key}
use baa_ls.Contracts.{ContractEngine}
use baa_ls.Consensus.{PoAConsensus, ConsensusEngine, poa_engine}
use baa_ls.Sync.{
  NetworkMessage, handshake, handshake_ack, get_chain_head, chain_head_response, get_blocks,
  blocks_response, new_block_announcement, ping, pong,
}
use baa_ls.Node.{node_storage, node_engine}
use baa_ls.Fixtures.Log.{Log, log_sled, digits}
use baa_ls.Fixtures.Codecs.{toy_crypto, toy_bincode, alice, bob, transaction_of, block_of}

abbrev pub empty_store : SledStorage Log
empty_store = record {
  db = [];
  blocks_tree = [];
  transactions_tree = [];
  mempool_tree = [];
  accounts_tree = [];
  contract_code_tree = [];
  contract_storage_tree = [];
  chain_state_tree = [];
  tx_by_block_tree = [];
}

abbrev pub head_hash : Hash
head_hash = replicate 32 7

abbrev pub head_block : Block
head_block = block_of 4 50 zero_hash head_hash []

abbrev pub head_state : ChainState
head_state = record {
  latest_block_hash = head_hash;
  latest_block_index = 4;
  accounts_root_hash = zero_hash;
  total_supply = 0;
}

-- The head block, its chain state, and alice with 10 and the nonce 4.
abbrev pub head_store : SledStorage Log
head_store = record empty_store {
  blocks_tree = (head_hash, some (4 ∷ 50 ∷ head_hash)) ∷ [];
  accounts_tree = (alice.bytes, some (10 ∷ 4 ∷ [])) ∷ [];
  chain_state_tree = (chain_state_key, some (4 ∷ head_hash)) ∷ [];
}

-- signed by alice
abbrev pub payment : Transaction
payment = transaction_of alice (wallet bob) (transfer 3) alice.bytes 5 (alice.bytes ++ alice.bytes)

abbrev pub self_payment : Transaction
self_payment =
    transaction_of alice (wallet alice) (transfer 3) alice.bytes 5 (alice.bytes ++ alice.bytes)

abbrev pub storage : Storage (SledStorage Log)
storage = node_storage log_sled toy_bincode digits

abbrev pub engine : ContractEngine (SledStorage Log)
engine = node_engine log_sled toy_crypto

abbrev pub poa : PoAConsensus
poa = record { authorized_signer_key = alice; block_time_interval_ms = 1000 }

abbrev pub consensus : ConsensusEngine
consensus = poa_engine toy_crypto toy_bincode poa

-- Messages: the tag, and then the fields of the three kinds that have a reading.
abbrev pub write_message : NetworkMessage → Option Bytes
write_message (handshake key version) = some (to_le_bytes 4 0 ++ version ∷ key.bytes)
write_message (handshake_ack key version) = some (to_le_bytes 4 1 ++ version ∷ key.bytes)
write_message get_chain_head = some (to_le_bytes 4 2)
write_message (chain_head_response hash height) = some (to_le_bytes 4 3 ++ height ∷ hash)
write_message (get_blocks from_height to_height) = none
write_message (blocks_response block_list) = none
write_message (new_block_announcement hash height) = some (to_le_bytes 4 6 ++ height ∷ hash)
write_message ping = some (to_le_bytes 4 7)
write_message pong = some (to_le_bytes 4 8)

abbrev pub read_message : Bytes → Option NetworkMessage
read_message (tag ∷ a ∷ b ∷ c ∷ version ∷ key) =
    if ltb tag 1
    then some (handshake (record { bytes = key }) version)
    else some (handshake_ack (record { bytes = key }) version)
read_message (tag ∷ a ∷ b ∷ c ∷ []) = some get_chain_head
read_message _ = none

abbrev pub messages : Codec NetworkMessage
messages = record { serialize = write_message; deserialize = read_message }
