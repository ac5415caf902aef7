-- ===== src/Sync/Origins.antt =====
-- Peers that introduce themselves to `handle_connection` of src/sync.rs, and the table after it.
use baa_ls.Prelude.{
  ℕ, true, Option, none, some, List, [], ◌∷◌, Bytes, ok, returns, ◌≡◌, refl, sym, subst, ◌⊎◌, inl,
  inr, arith, ap, Bool-cases, Result-cases, Member,
}
use baa_ls.Types.{PublicKey, Codec}
use baa_ls.BTreeMap.{key_eq, key_eq_sound}
use baa_ls.Sync.{
  Peer, NetworkMessage, handshake, handshake_ack, MessageFrame, from_bytes, message_bytes,
}
use baa_ls.Sync.Peers.{
  Peers, insert_peer, to_peers, discover_peers, CustomSync, Socket, accept_reply, read_reply,
  handle_connection,
}
use baa_ls.Sync.Serving.{Registers, handle_connection_outcome}

module _ (k : Codec NetworkMessage) where
  -- The handshake of this node is written to the socket, and the socket's bytes are a framed
  -- acknowledgement of version 1 by this peer, at its address.
  pub record Introduces (own : PublicKey) (peer : Peer) (socket : Socket) : Type 0 where
    pub sent : Bytes
    pub first : ℕ
    pub buffer : Bytes
    pub frame : MessageFrame
    pub sent_lem : message_bytes k (handshake own 1) ≡ ok sent
    pub writes_lem : socket.writes ≡ true
    pub received_lem : socket.received ≡ some (first ∷ buffer)
    pub frame_lem : from_bytes k (first ∷ buffer) ≡ returns (ok frame)
    pub message_lem : frame.message ≡ handshake_ack peer.id 1
    pub address_lem : socket.address ≡ peer.address

  -- The peer introduced itself on a socket that was accepted before any accept failed.
  abbrev pub IsIntroduced : PublicKey → Peer → List (Option Socket) → Type 0
  IsIntroduced own peer [] = ⊥
  IsIntroduced own peer (none ∷ rest) = ⊥
  IsIntroduced own peer (some socket ∷ rest) =
      Introduces own peer socket ⊎ IsIntroduced own peer rest

  -- Some peer of this key is listed.
  abbrev pub HasKey : PublicKey → Peers → Type 0
  HasKey id peers =
      (address : Bytes) × Member (record { id = id; address = address }) (to_peers peers)

  insert_peer_back :
      (id : PublicKey) (address : Bytes) (q : Peer) (peers : Peers)
      → Member q (to_peers (insert_peer id address peers))
      → (q ≡ record { id = id; address = address }) ⊎ Member q (to_peers peers)
  unfolding insert_peer to_peers
  insert_peer_back id address q [] (inl e) = inl e
  insert_peer_back id address q [] (inr m) = absurd m
  insert_peer_back id address q ((j, a) ∷ peers) m = elim (Bool-cases (key_eq j id)) [
    | inl same ↦ elim (rw same at m) [
      | inl e ↦ inl (rw (← key_eq_sound j id same) e)
      | inr later ↦ inr (inr later)
    ]
    | inr other ↦ elim (rw other at m) [
      | inl e ↦ inr (inl e)
      | inr later ↦ elim (insert_peer_back id address q peers later) [
        | inl e ↦ inl e
        | inr m' ↦ inr (inr m')
      ]
    ]
  ]

  pub insert_peer-HasKey :
      (id : PublicKey) (address : Bytes) (peers : Peers) → HasKey id (insert_peer id address peers)
  unfolding insert_peer to_peers
  insert_peer-HasKey id address [] = (address, inl refl)
  insert_peer-HasKey id address ((j, a) ∷ peers) = elim (Bool-cases (key_eq j id)) [
    | inl same ↦ rw same (address, inl (rw (key_eq_sound j id same) refl))
    | inr other ↦ (let (a', m) = insert_peer-HasKey id address peers in rw other (a', inr m))
  ]

  insert_peer_keeps :
      (id i : PublicKey) (address : Bytes) (peers : Peers)
      → HasKey i peers
      → HasKey i (insert_peer id address peers)
  unfolding insert_peer to_peers
  insert_peer_keeps id i address [] (a, m) = absurd m
  insert_peer_keeps id i address ((j, b) ∷ peers) (a, m) = elim (Bool-cases (key_eq j id)) [
    | inl same ↦ rw same (elim m [
      | inl e ↦ (address, inl (ap {A = Peer} (λ p. record { id = p.id; address = address }) e))
      | inr later ↦ (a, inr later)
    ])
    | inr other ↦ rw other (elim m [
      | inl e ↦ (a, inl e)
      | inr later ↦ (let (a', m') = insert_peer_keeps id i address peers (a, later) in (a', inr m'))
    ])
  ]

  pub introduced_registers :
      (peer : Peer) (socket : Socket) (sync : CustomSync)
      → Introduces sync.peer_id peer socket
      → handle_connection k socket sync ≡ (
        returns (ok tt),
        record sync { known_peers = insert_peer peer.id socket.address sync.known_peers },
      )
  unfolding handle_connection read_reply accept_reply
  introduced_registers peer socket sync i =
      ground (arith, i.sent_lem, i.writes_lem, i.received_lem, i.frame_lem, i.message_lem)

  registers_sent :
      (socket : Socket) (sync : CustomSync) (buffer : Bytes) (after : CustomSync)
      → socket.received ≡ some buffer
      → handle_connection k socket sync ≡ (returns (ok tt), after)
      → (sent : Bytes) × (message_bytes k (handshake sync.peer_id 1) ≡ ok sent)
        × (socket.writes ≡ true)
        × (first : ℕ) × (rest : Bytes) × (buffer ≡ first ∷ rest)
  unfolding handle_connection read_reply
  registers_sent socket sync buffer after got h =
      elim (Result-cases (message_bytes k (handshake sync.peer_id 1))) [
        | inl (sent, e) ↦ elim (Bool-cases socket.writes) [
          | inl writes ↦
              (let (first, rest, full) = filled sent buffer e writes got in
                (sent, e, writes, first, rest, full))
          | inr fails ↦ absurd (ground arith)
        ]
        | inr (x, e) ↦ absurd (ground arith)
      ]
    where
      filled :
          (sent buffer : Bytes)
          → message_bytes k (handshake sync.peer_id 1) ≡ ok sent
          → socket.writes ≡ true
          → socket.received ≡ some buffer
          → (first : ℕ) × (rest : Bytes) × (buffer ≡ first ∷ rest)
      filled sent [] e writes got = absurd (ground arith)
      filled sent (x ∷ rest) e writes got = (x, rest, refl)

  registered-Introduces :
      (socket : Socket) (sync : CustomSync) (r : Registers k socket sync)
      → Introduces sync.peer_id (record { id = r.remote; address = socket.address }) socket
  registered-Introduces socket sync r =
      let (sent, e, writes, first, rest, filled) =
        registers_sent socket sync r.buffer _ r.received_lem r.result_lem in
      record {
        sent = sent;
        first = first;
        buffer = rest;
        frame = r.frame;
        sent_lem = e;
        writes_lem = writes;
        received_lem = rw (← filled) r.received_lem;
        frame_lem = rw (← filled) r.frame_lem;
        message_lem = r.message_lem;
        address_lem = refl;
      }

  -- one connection
  pub connection_back :
      (q : Peer) (socket : Socket) (sync : CustomSync)
      → Member q (discover_peers (handle_connection k socket sync).1)
      → Introduces sync.peer_id q socket ⊎ Member q (discover_peers sync)
  unfolding discover_peers
  connection_back q socket sync m = elim (handle_connection_outcome k socket sync) [
    | inl r ↦
        elim (insert_peer_back r.remote socket.address q sync.known_peers (rw r.result_lem at m)) [
          | inl e ↦ inl (
              subst (λ p. Introduces sync.peer_id p socket) (sym e)
                (registered-Introduces socket sync r))
          | inr m' ↦ inr m'
        ]
    | inr r ↦ inr (rw r.unchanged at m)
  ]

  pub connection_keeps :
      (id : PublicKey) (socket : Socket) (sync : CustomSync)
      → HasKey id sync.known_peers
      → HasKey id (handle_connection k socket sync).1.known_peers
  connection_keeps id socket sync h = elim (handle_connection_outcome k socket sync) [
    | inl r ↦ rw r.result_lem (insert_peer_keeps r.remote id socket.address sync.known_peers h)
    | inr r ↦ rw r.unchanged h
  ]

  pub connection_own :
      (socket : Socket) (sync : CustomSync)
      → (handle_connection k socket sync).1.peer_id ≡ sync.peer_id
  connection_own socket sync = elim (handle_connection_outcome k socket sync) [
    | inl r ↦ rw r.result_lem refl
    | inr r ↦ rw r.unchanged refl
  ]
