-- ===== src/Sync/Listing.antt =====
-- Who is listed after `start_server` of src/sync.rs, from what the accepted sockets sent.
use baa_ls.Prelude.{
  true, false, Option, none, some, List, [], ◌∷◌, Bytes, ◌≡◌, sym, subst, ◌⊎◌, inl, inr, Member,
}
use baa_ls.Types.{PublicKey, Codec}
use baa_ls.Sync.{Peer, NetworkMessage}
use baa_ls.Sync.Peers.{
  discover_peers, CustomSync, Socket, handle_connection, accept_loop, start_server,
}
use baa_ls.Sync.Origins.{
  IsIntroduced, HasKey, insert_peer-HasKey, introduced_registers, connection_back, connection_keeps,
  connection_own,
}

module _ (k : Codec NetworkMessage) where
  loop_back :
      (q : Peer) (accepts : List (Option Socket)) (sync : CustomSync)
      → Member q (discover_peers (accept_loop k accepts sync).1)
      → IsIntroduced k sync.peer_id q accepts ⊎ Member q (discover_peers sync)
  unfolding accept_loop
  loop_back q [] sync m = inr m
  loop_back q (none ∷ rest) sync m = inr m
  loop_back q (some socket ∷ rest) sync m =
      elim (loop_back q rest (handle_connection k socket sync).1 m) [
        | inl later ↦
            inl
              (inr (subst (λ own. IsIntroduced k own q rest) (connection_own k socket sync) later))
        | inr before ↦ elim (connection_back k q socket sync before) [
          | inl now ↦ inl (inl now)
          | inr earlier ↦ inr earlier
        ]
      ]

  loop_keeps :
      (id : PublicKey) (accepts : List (Option Socket)) (sync : CustomSync)
      → HasKey k id sync.known_peers
      → HasKey k id (accept_loop k accepts sync).1.known_peers
  unfolding accept_loop
  loop_keeps id [] sync h = h
  loop_keeps id (none ∷ rest) sync h = h
  loop_keeps id (some socket ∷ rest) sync h =
      loop_keeps id rest (handle_connection k socket sync).1 (connection_keeps k id socket sync h)

  loop_lists :
      (q : Peer) (accepts : List (Option Socket)) (sync : CustomSync)
      → IsIntroduced k sync.peer_id q accepts
      → HasKey k q.id (accept_loop k accepts sync).1.known_peers
  unfolding accept_loop
  loop_lists q [] sync i = absurd i
  loop_lists q (none ∷ rest) sync i = absurd i
  loop_lists q (some socket ∷ rest) sync (inl now) =
      loop_keeps q.id rest (handle_connection k socket sync).1 (
        rw (introduced_registers k q socket sync now)
          (insert_peer-HasKey k q.id socket.address sync.known_peers))
  loop_lists q (some socket ∷ rest) sync (inr later) =
      loop_lists q rest (handle_connection k socket sync).1
        (subst (λ own. IsIntroduced k own q rest) (sym (connection_own k socket sync)) later)

  -- The key of the peer is listed at some address.
  abbrev pub IsKnown : PublicKey → CustomSync → Type 0
  IsKnown id sync =
      (address : Bytes) × Member (record { id = id; address = address }) (discover_peers sync)

  -- After a start_server that was not running and binds, discover_peers lists a peer only if it
  -- listed it before, or the peer introduced itself: on a socket at its address, accepted before
  -- any accept failed, to which this node's handshake was written and which brought a framed
  -- HandshakeAck of version 1 with the peer's key; and the key of every peer that was listed
  -- before or introduced itself is listed.
  pub start_server_lists :
      (accepts : List (Option Socket)) (sync : CustomSync) (q : Peer)
      → sync.is_running ≡ false
      → let after = (start_server k true accepts sync).1 in
        (Member q (discover_peers after)
          → IsIntroduced k sync.peer_id q accepts ⊎ Member q (discover_peers sync))
        × (IsIntroduced k sync.peer_id q accepts ⊎ IsKnown q.id sync → IsKnown q.id after)
  unfolding start_server discover_peers
  start_server_lists accepts sync q stopped = rw stopped (
    loop_back q accepts (record sync { is_running = true }),
    λ h. elim h [
      | inl i ↦ loop_lists q accepts (record sync { is_running = true }) i
      | inr known ↦ loop_keeps q.id accepts (record sync { is_running = true }) known
    ],
  )
