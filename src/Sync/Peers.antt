-- ===== src/Sync/Peers.antt =====
-- src/sync.rs: `CustomSync`, its table of peers, its server and its broadcasts; and `NoopSync`. What
-- the network does is an argument: what a socket reads, and which connections and writes succeed.
use baa_ls.Prelude.{
  Bool, true, false, Option, none, some, List, [], ◌∷◌, Bytes, Result, ok, err, Outcome, returns,
  panics, blocks, if◌then◌else◌, ◌==◌,
}
use baa_ls.Types.{PublicKey, Block, ChainState, Codec}
use baa_ls.BTreeMap.{key_eq}
use baa_ls.Sync.{
  SyncError, network_error, io, connection_closed, version_mismatch, synchronization_error,
  noop_sync, invalid_message, Peer, NetworkMessage, handshake, handshake_ack,
  new_block_announcement, from_bytes, message_bytes,
}

-- `HashMap<PublicKey, SocketAddr>`, in some order of its entries
abbrev pub Peers : Type 0
Peers = List (PublicKey × Bytes)

unfoldable pub insert_peer : PublicKey → Bytes → Peers → Peers
insert_peer id address [] = (id, address) ∷ []
insert_peer id address ((j, a) ∷ peers) =
    if key_eq j id then (j, address) ∷ peers else (j, a) ∷ insert_peer id address peers

pub record CustomSync : Type 0 where
  pub peer_id : PublicKey
  pub known_peers : Peers
  pub listen_addr : Bytes
  pub is_running : Bool

-- `CustomSync::new`
abbrev pub new : PublicKey → Bytes → CustomSync
new peer_id listen_addr = record {
  peer_id = peer_id;
  known_peers = [];
  listen_addr = listen_addr;
  is_running = false;
}

-- `CustomSync::add_peer`
unfoldable pub add_peer : Peer → CustomSync → CustomSync
add_peer peer sync = record sync { known_peers = insert_peer peer.id peer.address sync.known_peers }

unfoldable pub to_peers : Peers → List Peer
to_peers [] = []
to_peers ((id, address) ∷ rest) = record { id = id; address = address } ∷ to_peers rest

-- `CustomSync::discover_peers`
unfoldable pub discover_peers : CustomSync → List Peer
unfolding to_peers
discover_peers sync = to_peers sync.known_peers

-- A socket of an accepted connection: whether the write succeeds, and what the one `read` of at most
-- 1024 bytes returns.
pub record Socket : Type 0 where
  pub address : Bytes
  pub writes : Bool
  pub received : Option Bytes

module _ (k : Codec NetworkMessage) where
  -- the reply to the handshake
  unfoldable pub accept_reply :
      NetworkMessage → Bytes → CustomSync → Result SyncError Unit × CustomSync
  accept_reply (handshake_ack remote_peer_id version) address sync =
      if version == 1
      then (
        ok tt,
        record sync { known_peers = insert_peer remote_peer_id address sync.known_peers },
      )
      else (err (network_error version_mismatch), sync)
  accept_reply _ address sync = (err invalid_message, sync)

  unfoldable pub read_reply : Socket → Bytes → CustomSync → Outcome SyncError Unit × CustomSync
  read_reply socket [] sync = (returns (err (network_error connection_closed)), sync)
  read_reply socket (x ∷ buffer) sync = elim (from_bytes k (x ∷ buffer)) [
    | returns (ok frame) ↦
        (let (r, sync') = accept_reply frame.message socket.address sync in (returns r, sync'))
    | returns (err e) ↦ (returns (err e), sync)
    | panics ↦ (panics, sync)
    | blocks ↦ (blocks, sync)
  ]

  -- `CustomSync::handle_connection`
  unfoldable pub handle_connection : Socket → CustomSync → Outcome SyncError Unit × CustomSync
  handle_connection socket sync = elim (message_bytes k (handshake sync.peer_id 1)) [
    | err e ↦ (returns (err e), sync)
    | ok handshake_bytes ↦
        (if socket.writes
          then (elim socket.received [
            | none ↦ (returns (err (network_error io)), sync)
            | some buffer ↦ read_reply socket buffer sync
          ])
          else (returns (err (network_error io)), sync))
  ]

  -- the accept loop: an accept that fails ends it, and with no further connection it waits; each
  -- connection is a task of its own, whose error or panic is dropped
  unfoldable pub accept_loop :
      List (Option Socket) → CustomSync → Outcome SyncError Unit × CustomSync
  accept_loop [] sync = (blocks, sync)
  accept_loop (none ∷ rest) sync = (returns (err (network_error io)), sync)
  accept_loop (some socket ∷ rest) sync = accept_loop rest (handle_connection socket sync).1

  -- `CustomSync::start_server`: whether the bind succeeds, and the accepted connections
  unfoldable pub start_server :
      Bool → List (Option Socket) → CustomSync → Outcome SyncError Unit × CustomSync
  start_server binds accepts sync =
      let running = record sync { is_running = true } in
      if sync.is_running
      then (returns (ok tt), sync)
      else if binds
      then accept_loop accepts running
      else (returns (err (network_error io)), running)

  -- the loop of `broadcast_block`: a peer that cannot be reached or written to is passed over
  unfoldable pub deliver :
      (Peer → Bool) → (Peer → Bool) → NetworkMessage → List Peer → List (Peer × Bytes)
  deliver connects writes announcement [] = []
  deliver connects writes announcement (peer ∷ rest) =
      let sent = deliver connects writes announcement rest in
      if connects peer
      then (elim (message_bytes k announcement) [
        | err e ↦ sent
        | ok bytes ↦ (if writes peer then (peer, bytes) ∷ sent else sent)
      ])
      else sent

  -- `CustomSync::broadcast_block`: the result, and the bytes that reached each peer
  unfoldable pub broadcast_block :
      (Peer → Bool)
      → (Peer → Bool)
      → Block
      → List Peer
      → Result SyncError Unit × List (Peer × Bytes)
  broadcast_block connects writes block peers =
      (ok tt, deliver connects writes (new_block_announcement block.hash block.index) peers)

-- `NoopSync`
abbrev pub noop_sync_with_peer : Peer → ChainState → Result SyncError Block
noop_sync_with_peer peer local_chain_state = err (synchronization_error noop_sync)

abbrev pub noop_discover_peers : Result SyncError (List Peer)
noop_discover_peers = ok []
