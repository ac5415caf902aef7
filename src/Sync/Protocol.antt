-- ===== src/Sync/Protocol.antt =====
-- src/sync.rs: `CustomSync::sync_with_peer`, the client's side of the protocol.
use baa_ls.Prelude.{
  ℕ, ◌^◌, ◌<◌, ◌≤◌, ◌≡◌, ◌≢◌, ◌∙◌, ap, ◌⊎◌, inl, inr, Bool, some, ◌++◌, Bytes, to_le_bytes,
  from_le_bytes, from_le_bytes-to_le_bytes, length-to_le_bytes, length, take, drop, length-take-le,
  take-append, Result, ok, err, Outcome, returns, panics, blocks, if◌then◌else◌, arith,
  Option-cases,
}
use baa_ls.Types.{PublicKey, Block, Codec}
use baa_ls.Sync.{
  SyncError, network_error, io, serialization_error, synchronization_error, not_fully_implemented,
  connection_timeout, authentication_failed, invalid_message, NetworkMessage, handshake,
  handshake_ack, get_chain_head, chain_head_response, get_blocks, blocks_response,
  new_block_announcement, ping, pong, MessageFrame, from_bytes, message_bytes, receive_message,
}
use baa_ls.Sync.Framing.{receive_message-message_bytes, frame_message}

-- How `timeout(.., TcpStream::connect(..))` ends; a connection brings the bytes that the peer sends.
pub data Connection : Type 0 where
  timed_out refused : Connection
  connected : Bytes → Connection

module _ (k : Codec NetworkMessage) where
  -- `send_message`, with the success of `write_all`
  unfoldable pub send_message : (Bytes → Bool) → NetworkMessage → Result SyncError Unit
  send_message writes message = elim (message_bytes k message) [
    | err e ↦ err e
    | ok bytes ↦ (if writes bytes then ok tt else err (network_error io))
  ]

  -- the answer to `GetChainHead`
  unfoldable pub chain_head_answer : Outcome SyncError NetworkMessage → Outcome SyncError Block
  chain_head_answer (returns (ok (chain_head_response latest_block_hash height))) =
      returns (err (synchronization_error not_fully_implemented))
  chain_head_answer (returns (ok _)) = returns (err invalid_message)
  chain_head_answer (returns (err e)) = returns (err e)
  chain_head_answer panics = panics
  chain_head_answer blocks = blocks

  unfoldable pub request_chain_head : (Bytes → Bool) → Bytes → Outcome SyncError Block
  request_chain_head writes stream = elim (send_message writes get_chain_head) [
    | err e ↦ returns (err e)
    | ok sent ↦ chain_head_answer (receive_message k stream).0
  ]

  -- the answer to the handshake, and what the stream still holds
  unfoldable pub handshake_answer :
      (Bytes → Bool) → Outcome SyncError NetworkMessage → Bytes → Outcome SyncError Block
  handshake_answer writes (returns (ok (handshake_ack peer_id version))) stream =
      request_chain_head writes stream
  handshake_answer writes (returns (ok _)) stream = returns (err authentication_failed)
  handshake_answer writes (returns (err e)) stream = returns (err e)
  handshake_answer writes panics stream = panics
  handshake_answer writes blocks stream = blocks

  -- `sync_with_peer`
  unfoldable pub sync_with_peer : PublicKey → (Bytes → Bool) → Connection → Outcome SyncError Block
  sync_with_peer peer_id writes timed_out = returns (err connection_timeout)
  sync_with_peer peer_id writes refused = returns (err (network_error io))
  sync_with_peer peer_id writes (connected stream) =
      elim (send_message writes (handshake peer_id 1)) [
        | err e ↦ returns (err e)
        | ok sent ↦
            (let (answer, rest) = receive_message k stream in handshake_answer writes answer rest)
      ]

  head_never :
      (answer : Outcome SyncError NetworkMessage) (block : Block)
      → chain_head_answer answer ≢ returns (ok block)
  unfolding chain_head_answer
  head_never answer block h = ground arith

  answer_never :
      (writes : Bytes → Bool) (answer : Outcome SyncError NetworkMessage) (stream : Bytes)
      (block : Block)
      → handshake_answer writes answer stream ≢ returns (ok block)
  unfolding handshake_answer request_chain_head
  answer_never writes answer stream block h =
      ground (arith, head_never (receive_message k stream).0 block)

  -- Whatever the connection brings, sync_with_peer returns no block.
  pub sync_with_peer_never_succeeds :
      (peer_id : PublicKey) (writes : Bytes → Bool) (connection : Connection) (block : Block)
      → sync_with_peer peer_id writes connection ≢ returns (ok block)
  unfolding sync_with_peer
  sync_with_peer_never_succeeds peer_id writes timed_out block h = cc
  sync_with_peer_never_succeeds peer_id writes refused block h = cc
  sync_with_peer_never_succeeds peer_id writes (connected stream) block h =
      ground
        (arith, answer_never writes (receive_message k stream).0 (receive_message k stream).1 block)

  -- The number of the variant.
  abbrev pub tag : NetworkMessage → ℕ
  tag (handshake peer_id version) = 0
  tag (handshake_ack peer_id version) = 1
  tag get_chain_head = 2
  tag (chain_head_response latest_block_hash height) = 3
  tag (get_blocks from_height to_height) = 4
  tag (blocks_response block_list) = 5
  tag (new_block_announcement block_hash height) = 6
  tag ping = 7
  tag pong = 8

  -- bincode writes an enum as the number of its variant, a u32, and then the fields; so fewer than
  -- four bytes are no message.
  pub record IsTagged : Type 0 where
    pub tag_lem :
        (m : NetworkMessage) (encoded : Bytes)
        → k.serialize m ≡ some encoded
        → (fields : Bytes) × (encoded ≡ to_le_bytes 4 (tag m) ++ fields)
    pub tag_needed :
        (bytes : Bytes) (m : NetworkMessage) → k.deserialize bytes ≡ some m → 4 ≤ length bytes

  -- The two errors of a buffer that is no frame.
  abbrev pub IsUnreadable : {A : Type 0} → Outcome SyncError A → Type 0
  IsUnreadable r = (r ≡ returns (err invalid_message)) ⊎ (r ≡ returns (err serialization_error))

  short_claim :
      (tagged : IsTagged) (bytes : Bytes) (n : ℕ)
      → from_le_bytes (take 4 bytes) ≡ n
      → n < 4
      → IsUnreadable (from_bytes k bytes)
  unfolding from_bytes
  short_claim tagged bytes n claim small =
      elim (Option-cases (k.deserialize (take n (drop 4 bytes)))) [
        | inl unread ↦ ground arith
        | inr (m, e) ↦ absurd (
            omega (
              arith,
              tagged.tag_needed (take n (drop 4 bytes)) m e,
              length-take-le n (drop 4 bytes),
            ))
      ]

  -- A message of the first four kinds, the whole handshake among them, is not received when it was
  -- sent by `send_message`: the receiver stops with an error.
  pub framed_message-IsUnreadable :
      (m : NetworkMessage) (encoded rest : Bytes)
      → k.serialize m ≡ some encoded
      → IsTagged
      → tag m < 4
      → length encoded < 2 ^ 32
      → (bytes : Bytes) × (message_bytes k m ≡ ok bytes)
        × IsUnreadable (receive_message k (bytes ++ rest)).0
  framed_message-IsUnreadable m encoded rest written tagged small fits =
      let (bytes, framed, left, received) =
        receive_message-message_bytes k m encoded rest written fits in
      let (fields, e) = tagged.tag_lem m encoded written in
      let size = length-to_le_bytes 4 (tag m) in
      let claim =
        ap (λ (x : Bytes). from_le_bytes (take 4 x)) e
        ∙ (ap from_le_bytes (take-append 4 (to_le_bytes 4 (tag m)) fields size)
            ∙ from_le_bytes-to_le_bytes 4 (tag m) (omega arith)) in
      (
        bytes,
        framed,
        rw received (unreadable_message (short_claim tagged encoded (tag m) claim small)),
      )
    where
      unreadable_message :
          {r : Outcome SyncError MessageFrame} → IsUnreadable r → IsUnreadable (frame_message k r)
      unreadable_message (inl e) = inl (rw e)
      unreadable_message (inr e) = inr (rw e)

  -- Where bincode tags the variants with a u32 and writes the peer's HandshakeAck in less than
  -- 2^32 bytes, a client whose handshake was sent and whose peer answers with that HandshakeAck
  -- framed ends in an invalid message or a serialization error.
  pub handshake_always_fails :
      (peer_id remote_id : PublicKey) (version : ℕ) (writes : Bytes → Bool) (encoded rest : Bytes)
      → k.serialize (handshake_ack remote_id version) ≡ some encoded
      → IsTagged
      → length encoded < 2 ^ 32
      → send_message writes (handshake peer_id 1) ≡ ok tt
      → (bytes : Bytes) × (message_bytes k (handshake_ack remote_id version) ≡ ok bytes)
        × IsUnreadable (sync_with_peer peer_id writes (connected (bytes ++ rest)))
  unfolding sync_with_peer handshake_answer
  handshake_always_fails peer_id remote_id version writes encoded rest written tagged fits sent =
      let (bytes, framed, unreadable) =
        framed_message-IsUnreadable (handshake_ack remote_id version) encoded rest written tagged
          (omega arith) fits in
      (bytes, framed, elim unreadable [ inl e ↦ inl (ground arith) | inr e ↦ inr (ground arith) ])
