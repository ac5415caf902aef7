-- ===== src/Sync/Serving.antt =====
-- The server of src/sync.rs: its connections and its start.
use baa_ls.Prelude.{
  ℕ, true, false, Option, none, some, List, [], ◌∷◌, Bytes, ok, err, Outcome, returns, panics,
  blocks, ◌==◌, ◌≡◌, ◌≢◌, refl, ◌⊎◌, inl, inr, arith, Result-cases, Bool-cases,
}
use baa_ls.Types.{PublicKey, Codec}
use baa_ls.Sync.{
  SyncError, network_error, io, NetworkMessage, handshake, handshake_ack, get_chain_head,
  chain_head_response, get_blocks, blocks_response, new_block_announcement, ping, pong,
  MessageFrame, from_bytes, message_bytes,
}
use baa_ls.Sync.Peers.{
  insert_peer, CustomSync, Socket, accept_reply, read_reply, handle_connection, start_server,
}

module _ (k : Codec NetworkMessage) where
  -- The socket's bytes are an acknowledgement of version 1, and its sender is in the table.
  pub record Registers (socket : Socket) (sync : CustomSync) : Type 0 where
    pub remote : PublicKey
    pub buffer : Bytes
    pub frame : MessageFrame
    pub received_lem : socket.received ≡ some buffer
    pub frame_lem : from_bytes k buffer ≡ returns (ok frame)
    pub message_lem : frame.message ≡ handshake_ack remote 1
    pub result_lem : handle_connection k socket sync ≡ (
      returns (ok tt),
      record sync { known_peers = insert_peer remote socket.address sync.known_peers },
    )

  -- Refused: an error or a panic, and the state is as before.
  pub record Refuses (socket : Socket) (sync : CustomSync) : Type 0 where
    pub failed : (handle_connection k socket sync).0 ≢ returns (ok tt)
    pub unchanged : (handle_connection k socket sync).1 ≡ sync

  accepted_frame :
      (socket : Socket) (sync : CustomSync) (x : ℕ) (buffer : Bytes) (frame : MessageFrame)
      (message : NetworkMessage) {bytes : Bytes}
      → message_bytes k (handshake sync.peer_id 1) ≡ ok bytes
      → socket.writes ≡ true
      → socket.received ≡ some (x ∷ buffer)
      → from_bytes k (x ∷ buffer) ≡ returns (ok frame)
      → frame.message ≡ message
      → Registers socket sync ⊎ Refuses socket sync
  unfolding handle_connection read_reply accept_reply
  accepted_frame socket sync x buffer frame (handshake_ack remote version) made sends got parsed e =
      elim (Bool-cases (version == 1)) [
        | inl same ↦ inl (record {
          remote = remote;
          buffer = x ∷ buffer;
          frame = frame;
          received_lem = got;
          frame_lem = parsed;
          message_lem = ground arith;
          result_lem = ground arith;
        })
        | inr other ↦ inr (record { failed = λ h. ground arith; unchanged = ground arith })
      ]
  accepted_frame socket sync x buffer frame get_chain_head made sends got parsed e =
      inr (record { failed = λ h. ground arith; unchanged = ground arith })
  accepted_frame socket sync x buffer frame (chain_head_response h n) made sends got parsed e =
      inr (record { failed = λ h. ground arith; unchanged = ground arith })
  accepted_frame socket sync x buffer frame (get_blocks m n) made sends got parsed e =
      inr (record { failed = λ h. ground arith; unchanged = ground arith })
  accepted_frame socket sync x buffer frame (blocks_response l) made sends got parsed e =
      inr (record { failed = λ h. ground arith; unchanged = ground arith })
  accepted_frame socket sync x buffer frame (new_block_announcement h n) made sends got parsed e =
      inr (record { failed = λ h. ground arith; unchanged = ground arith })
  accepted_frame socket sync x buffer frame ping made sends got parsed e =
      inr (record { failed = λ h. ground arith; unchanged = ground arith })
  accepted_frame socket sync x buffer frame pong made sends got parsed e =
      inr (record { failed = λ h. ground arith; unchanged = ground arith })
  accepted_frame socket sync x buffer frame (handshake id version) made sends got parsed e =
      inr (record { failed = λ h. ground arith; unchanged = ground arith })

  parsed_buffer :
      (socket : Socket) (sync : CustomSync) (x : ℕ) (buffer : Bytes)
      (r : Outcome SyncError MessageFrame) {bytes : Bytes}
      → message_bytes k (handshake sync.peer_id 1) ≡ ok bytes
      → socket.writes ≡ true
      → socket.received ≡ some (x ∷ buffer)
      → from_bytes k (x ∷ buffer) ≡ r
      → Registers socket sync ⊎ Refuses socket sync
  unfolding handle_connection read_reply
  parsed_buffer socket sync x buffer (returns (ok frame)) made sends got parsed =
      accepted_frame socket sync x buffer frame frame.message made sends got parsed refl
  parsed_buffer socket sync x buffer (returns (err e)) made sends got parsed =
      inr (record { failed = λ h. ground arith; unchanged = ground arith })
  parsed_buffer socket sync x buffer panics made sends got parsed =
      inr (record { failed = λ h. ground arith; unchanged = ground arith })
  parsed_buffer socket sync x buffer blocks made sends got parsed =
      inr (record { failed = λ h. ground arith; unchanged = ground arith })

  read_socket :
      (socket : Socket) (sync : CustomSync) (received : Option Bytes) {bytes : Bytes}
      → message_bytes k (handshake sync.peer_id 1) ≡ ok bytes
      → socket.writes ≡ true
      → socket.received ≡ received
      → Registers socket sync ⊎ Refuses socket sync
  unfolding handle_connection read_reply
  read_socket socket sync none made sends got =
      inr (record { failed = λ h. ground arith; unchanged = ground arith })
  read_socket socket sync (some []) made sends got =
      inr (record { failed = λ h. ground arith; unchanged = ground arith })
  read_socket socket sync (some (x ∷ buffer)) made sends got =
      parsed_buffer socket sync x buffer (from_bytes k (x ∷ buffer)) made sends got refl

  -- Handle_connection either succeeds on a framed HandshakeAck of version 1 and enters its sender
  -- into the table at the socket's address, or does not succeed and leaves the state unchanged.
  pub handle_connection_outcome :
      (socket : Socket) (sync : CustomSync) → Registers socket sync ⊎ Refuses socket sync
  unfolding handle_connection
  handle_connection_outcome socket sync =
      elim (Result-cases (message_bytes k (handshake sync.peer_id 1))) [
        | inl (bytes, made) ↦ elim (Bool-cases socket.writes) [
          | inl sends ↦ read_socket socket sync socket.received made sends refl
          | inr fails ↦ inr (record { failed = λ h. ground arith; unchanged = ground arith })
        ]
        | inr (e, made) ↦ inr (record { failed = λ h. ground arith; unchanged = ground arith })
      ]

  -- From a stopped state, start_server whose bind fails returns the error, and the next
  -- start_server reports success and changes nothing, though it could bind.
  pub start_server_after_failed_bind :
      (sync : CustomSync) (accepts later : List (Option Socket))
      → sync.is_running ≡ false
      → let (r, sync') = start_server k false accepts sync in
        (r ≡ returns (err (network_error io)))
        × (start_server k true later sync' ≡ (returns (ok tt), sync'))
  unfolding start_server
  start_server_after_failed_bind sync accepts later stopped = ground arith
