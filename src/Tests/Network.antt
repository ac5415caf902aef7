-- ===== src/Tests/Network.antt =====
-- Frames, the handshake, the server and the broadcast.
use baa_ls.Prelude.{
  bytes_eq, ℕ, ◌+◌, ◌^◌, ◌≤◌, ◌≡◌, ◌↔◌, ◌⊎◌, refl, Bool, true, none, some, [], ◌∷◌, ◌++◌, Bytes, ok,
  returns, panics, length, Member, arith, to_le_bytes,
}
use baa_ls.SledStorage.Laws.{RoundTrips}
use baa_ls.Sync.{
  Peer, NetworkMessage, handshake, handshake_ack, get_chain_head, chain_head_response,
  new_block_announcement, ping, pong, get_blocks, blocks_response, message_bytes, from_bytes,
  new_frame, to_bytes,
}
use baa_ls.Sync.Framing.{from_bytes-message_bytes, from_bytes_panics_iff, claimed_length}
use baa_ls.Sync.Peers.{
  Socket, CustomSync, start_server, broadcast_block, new, add_peer, discover_peers,
}
use baa_ls.Sync.Serving.{Registers, Refuses, handle_connection_outcome}
use baa_ls.Sync.Origins.{IsIntroduced}
use baa_ls.Sync.Listing.{IsKnown, start_server_lists}
use baa_ls.Sync.Table.{IsUnique}
use mathlib.Core.List.{Permᴰ}
use baa_ls.Sync.Unordered.{broadcast_block-Perm}
use baa_ls.BTreeMap.{key_eq}
use baa_ls.Sync.Broadcast.{broadcast_block_iff}
use baa_ls.Sync.Protocol.{
  connected, sync_with_peer, send_message, tag, IsTagged, IsUnreadable, handshake_always_fails,
}
use baa_ls.Fixtures.Codecs.{alice, bob, carol}
use baa_ls.Fixtures.Data.{messages, read_message, write_message, head_block, head_hash}

ack_trip : RoundTrips messages (handshake_ack bob 1)
unfolding to_le_bytes
ack_trip = record {
  encoded = 1 ∷ 0 ∷ 0 ∷ 0 ∷ 1 ∷ bob.bytes;
  serialize_lem = refl;
  deserialize_lem = refl;
}

ack_length : length ack_trip.encoded ≡ 37
unfolding ack_trip
ack_length = refl

from_bytes-message_bytes_example :
    (bytes : Bytes) × (message_bytes messages (handshake_ack bob 1) ≡ ok bytes)
    × (from_bytes messages (bytes ++ 9 ∷ [])
        ≡ returns (ok (record { length = length ack_trip.encoded; message = handshake_ack bob 1 })))
from_bytes-message_bytes_example =
    from_bytes-message_bytes messages (handshake_ack bob 1) ack_trip (9 ∷ [])
      (omega (arith, ack_length))

from_bytes_panics_iff_example :
    (from_bytes messages (255 ∷ 255 ∷ 255 ∷ 255 ∷ []) ≡ panics)
    ↔ ((4 ≤ 4) × (2 ^ 32 ≤ claimed_length messages (255 ∷ 255 ∷ 255 ∷ 255 ∷ []) + 4))
from_bytes_panics_iff_example =
    from_bytes_panics_iff messages (255 ∷ 255 ∷ 255 ∷ 255 ∷ [])
      (omega arith, (omega arith, (omega arith, (omega arith, tt))))

no_fields :
    (n : ℕ) (encoded : Bytes)
    → some (to_le_bytes 4 n) ≡ some encoded
    → encoded ≡ to_le_bytes 4 n ++ []
unfolding to_le_bytes
no_fields n encoded e = ground arith

fields_of :
    (m : NetworkMessage) (encoded : Bytes)
    → write_message m ≡ some encoded
    → (fields : Bytes) × (encoded ≡ to_le_bytes 4 (tag messages m) ++ fields)
fields_of (handshake key version) encoded e = (version ∷ key.bytes, ground arith)
fields_of (handshake_ack key version) encoded e = (version ∷ key.bytes, ground arith)
fields_of get_chain_head encoded e = ([], no_fields 2 encoded e)
fields_of (chain_head_response hash height) encoded e = (height ∷ hash, ground arith)
fields_of (get_blocks from_height to_height) encoded e = absurd (cc)
fields_of (blocks_response block_list) encoded e = absurd (cc)
fields_of (new_block_announcement hash height) encoded e = (height ∷ hash, ground arith)
fields_of ping encoded e = ([], no_fields 7 encoded e)
fields_of pong encoded e = ([], no_fields 8 encoded e)

four_bytes : (bytes : Bytes) (m : NetworkMessage) → read_message bytes ≡ some m → 4 ≤ length bytes
four_bytes [] m e = absurd (cc)
four_bytes (a ∷ []) m e = absurd (cc)
four_bytes (a ∷ b ∷ []) m e = absurd (cc)
four_bytes (a ∷ b ∷ c ∷ []) m e = absurd (cc)
four_bytes (a ∷ b ∷ c ∷ d ∷ rest) m e = omega arith

messages_IsTagged : IsTagged messages
messages_IsTagged = record { tag_lem = fields_of; tag_needed = four_bytes }

abbrev always : {A : Type 0} → A → Bool
always x = true

handshake_sent : send_message messages always (handshake alice 1) ≡ ok tt
unfolding send_message message_bytes
handshake_sent = refl

handshake_always_fails_example :
    (bytes : Bytes) × (message_bytes messages (handshake_ack bob 1) ≡ ok bytes)
    × IsUnreadable messages (sync_with_peer messages alice always (connected (bytes ++ [])))
handshake_always_fails_example =
    handshake_always_fails messages alice bob 1 always ack_trip.encoded [] ack_trip.serialize_lem
      messages_IsTagged (omega (arith, ack_length)) handshake_sent

abbrev local : CustomSync
local = new alice []

abbrev caller : Socket
caller = record {
  address = 5 ∷ [];
  writes = true;
  received = some (37 ∷ 0 ∷ 0 ∷ 0 ∷ 1 ∷ 0 ∷ 0 ∷ 0 ∷ 1 ∷ bob.bytes);
}

handle_connection_outcome_example : Registers messages caller local ⊎ Refuses messages caller local
handle_connection_outcome_example = handle_connection_outcome messages caller local

abbrev met : Peer
met = record { id = bob; address = caller.address }

start_server_lists_example :
    let after = (start_server messages true (some caller ∷ none ∷ some caller ∷ []) local).1 in
    (Member met (discover_peers after)
      → IsIntroduced messages local.peer_id met (some caller ∷ none ∷ some caller ∷ [])
        ⊎ Member met (discover_peers local))
    × (IsIntroduced messages local.peer_id met (some caller ∷ none ∷ some caller ∷ [])
          ⊎ IsKnown messages met.id local
        → IsKnown messages met.id after)
start_server_lists_example =
    start_server_lists messages (some caller ∷ none ∷ some caller ∷ []) local met refl

abbrev peer : Peer
peer = record { id = bob; address = 5 ∷ [] }

abbrev announced : Bytes
announced = (37 ∷ 0 ∷ 0 ∷ 0 ∷ []) ++ (6 ∷ 0 ∷ 0 ∷ 0 ∷ 4 ∷ head_hash)

announcement_framed : message_bytes messages (new_block_announcement head_hash 4) ≡ ok announced
unfolding message_bytes new_frame to_bytes to_le_bytes
announcement_framed = refl

broadcast_block_iff_example :
    let (r, delivered) = broadcast_block messages always always head_block (peer ∷ []) in
    (r ≡ ok tt)
    × (Member (peer, announced) delivered
        ↔ (Member peer (peer ∷ []) × (true ≡ true) × (true ≡ true) × (announced ≡ announced)))
broadcast_block_iff_example =
    broadcast_block_iff messages always always head_block announced (peer ∷ []) peer announced
      announcement_framed

-- carol is known, and bob at another address, in either order
abbrev acquainted : CustomSync
acquainted = record local { known_peers = (bob, 7 ∷ []) ∷ (carol, 8 ∷ []) ∷ [] }

abbrev acquainted_too : CustomSync
acquainted_too = record local { known_peers = (carol, 8 ∷ []) ∷ (bob, 7 ∷ []) ∷ [] }

apart : IsUnique messages acquainted.known_peers
unfolding key_eq bytes_eq
apart = ((refl, tt), (tt, tt))

broadcast_block-Perm_example :
    let peers = discover_peers (add_peer peer acquainted) in
    let peers' = discover_peers (add_peer peer acquainted_too) in
    Permᴰ peers peers'
    × Permᴰ
        (broadcast_block messages always always head_block peers).1
        (broadcast_block messages always always head_block peers').1
broadcast_block-Perm_example =
    broadcast_block-Perm messages always always head_block peer acquainted acquainted_too apart
      (Permᴰ.swap refl refl)
