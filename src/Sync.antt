-- ===== src/Sync.antt =====
-- src/sync.rs: peers, messages and the frames that carry them. A socket address is its text; usize
-- has 64 bits, and u32 addition wraps, as in a release build.
pub mod Peers
pub mod Serving
pub mod Table
pub mod Directory
pub mod Unordered
pub mod Broadcast
pub mod Framing
pub mod Origins
pub mod Listing
pub mod Protocol
use baa_ls.Prelude.{
  ℕ, ◌+◌, ◌-◌, ◌%◌, ◌^◌, ltb, Option, none, some, List, ◌++◌, Bytes, to_le_bytes, from_le_bytes,
  length, take, drop, Result, ok, err, Outcome, returns, panics, blocks, ◌>>=◌, if◌then◌else◌,
}
use baa_ls.Types.{PublicKey, Hash, Block, Codec}

-- The texts of `SyncError::NetworkError`; `io` stands for the text of an I/O error.
pub data NetworkFault : Type 0 where
  io connection_closed version_mismatch : NetworkFault

-- The texts of `SyncError::SynchronizationError`.
pub data SyncFault : Type 0 where
  not_fully_implemented noop_sync : SyncFault

pub data SyncError : Type 0 where
  network_error : NetworkFault → SyncError
  serialization_error : SyncError
  synchronization_error : SyncFault → SyncError
  block_not_found connection_timeout authentication_failed invalid_message : SyncError

pub record Peer : Type 0 where
  pub id : PublicKey
  pub address : Bytes

pub data NetworkMessage : Type 0 where
  -- peer id, version
  handshake handshake_ack : PublicKey → ℕ → NetworkMessage
  get_chain_head : NetworkMessage
  -- latest block hash, height
  chain_head_response : Hash → ℕ → NetworkMessage
  -- from height, to height
  get_blocks : ℕ → ℕ → NetworkMessage
  blocks_response : List Block → NetworkMessage
  -- block hash, height
  new_block_announcement : Hash → ℕ → NetworkMessage
  ping pong : NetworkMessage

pub record MessageFrame : Type 0 where
  pub length : ℕ
  pub message : NetworkMessage

abbrev pub serialize : Codec NetworkMessage → NetworkMessage → Result SyncError Bytes
serialize k message = elim (k.serialize message) [
  | none ↦ err serialization_error
  | some bytes ↦ ok bytes
]

module _ (k : Codec NetworkMessage) where
  -- `MessageFrame::new`
  unfoldable pub new_frame : NetworkMessage → Result SyncError MessageFrame
  new_frame message = do
    message_bytes ← serialize k message
    ok (record { length = length message_bytes % 2 ^ 32; message = message })

  -- `MessageFrame::to_bytes`
  unfoldable pub to_bytes : MessageFrame → Result SyncError Bytes
  to_bytes frame = do
    message_bytes ← serialize k frame.message
    ok (to_le_bytes 4 frame.length ++ message_bytes)

  -- `&data[4..end]`, with a start beyond the end
  slice_message : ℕ → ℕ → Bytes → Outcome SyncError MessageFrame
  slice_message claimed end bytes =
      if ltb end 4 then panics else (elim (k.deserialize (take (end - 4) (drop 4 bytes))) [
        | none ↦ returns (err serialization_error)
        | some message ↦ returns (ok (record { length = claimed; message = message }))
      ])

  -- `MessageFrame::from_bytes`
  unfoldable pub from_bytes : Bytes → Outcome SyncError MessageFrame
  unfolding slice_message
  from_bytes bytes =
      let claimed = from_le_bytes (take 4 bytes) in
      let end = (claimed + 4) % 2 ^ 32 in
      if ltb (length bytes) 4
      then returns (err invalid_message)
      else if ltb (length bytes) end
      then returns (err invalid_message)
      else slice_message claimed end bytes

  -- what `send_message` writes
  unfoldable pub message_bytes : NetworkMessage → Result SyncError Bytes
  unfolding new_frame to_bytes
  message_bytes message = do frame ← new_frame message; to_bytes frame

  -- `read_exact`: what was read and what is left, or an I/O error at the end of the stream
  unfoldable pub read_exact : ℕ → Bytes → Result SyncError (Bytes × Bytes)
  read_exact n stream =
      if ltb (length stream) n then err (network_error io) else ok (take n stream, drop n stream)

  -- `receive_message` on the bytes that the peer sends, with what it leaves unread
  unfoldable pub receive_message : Bytes → Outcome SyncError NetworkMessage × Bytes
  unfolding read_exact
  receive_message stream = elim (read_exact 4 stream) [
    | err e ↦ (returns (err e), stream)
    | ok (length_buffer, rest) ↦ elim (read_exact (from_le_bytes length_buffer) rest) [
      | err e ↦ (returns (err e), rest)
      | ok (message_buffer, rest') ↦ elim (from_bytes message_buffer) [
        | returns (ok frame) ↦ (returns (ok frame.message), rest')
        | returns (err e) ↦ (returns (err e), rest')
        | panics ↦ (panics, rest')
        | blocks ↦ (blocks, rest')
      ]
    ]
  ]
