-- ===== src/Sync/Table.antt =====
-- The table of peers of src/sync.rs.
use baa_ls.Prelude.{
  Bool, true, false, Option, none, some, List, [], ◌∷◌, Bytes, subst, ◌≡◌, sym, inl, inr, arith,
  Bool-cases, ap, All,
}
use baa_ls.Types.{PublicKey, Codec}
use baa_ls.BTreeMap.{key_eq}
use baa_ls.Sync.{NetworkMessage}
use baa_ls.Sync.Peers.{
  Peers, insert_peer, CustomSync, Socket, handle_connection, accept_loop, start_server,
}
use baa_ls.Sync.Serving.{handle_connection_outcome}

module _ (k : Codec NetworkMessage) where
  -- Each peer once.
  abbrev pub IsUnique : Peers → Type 0
  IsUnique [] = Unit
  IsUnique ((id, address) ∷ rest) =
      All (λ (e : PublicKey × Bytes). key_eq id e.0 ≡ false) rest × IsUnique rest

  insert_peer-absent :
      (j id : PublicKey) (address : Bytes) (peers : Peers)
      → key_eq j id ≡ false
      → All (λ (e : PublicKey × Bytes). key_eq j e.0 ≡ false) peers
      → All (λ (e : PublicKey × Bytes). key_eq j e.0 ≡ false) (insert_peer id address peers)
  unfolding insert_peer
  insert_peer-absent j id address [] ne h = (ne, tt)
  insert_peer-absent j id address ((i, a) ∷ peers) ne h = elim (Bool-cases (key_eq i id)) [
    | inl same ↦ rw same (h.0, h.1)
    | inr other ↦ rw other (h.0, insert_peer-absent j id address peers ne h.1)
  ]

  pub insert_peer-IsUnique :
      (id : PublicKey) (address : Bytes) (peers : Peers)
      → IsUnique peers
      → IsUnique (insert_peer id address peers)
  unfolding insert_peer
  insert_peer-IsUnique id address [] h = (tt, tt)
  insert_peer-IsUnique id address ((i, a) ∷ peers) h = elim (Bool-cases (key_eq i id)) [
    | inl same ↦ rw same (h.0, h.1)
    | inr other ↦
        rw other (
          insert_peer-absent i id address peers other h.0,
          insert_peer-IsUnique id address peers h.1,
        )
  ]

  handle_connection-IsUnique :
      (socket : Socket) (sync : CustomSync)
      → IsUnique sync.known_peers
      → IsUnique (handle_connection k socket sync).1.known_peers
  handle_connection-IsUnique socket sync h = elim (handle_connection_outcome k socket sync) [
    | inl r ↦ rw r.result_lem (insert_peer-IsUnique r.remote socket.address sync.known_peers h)
    | inr r ↦ rw r.unchanged h
  ]

  accept_loop-IsUnique :
      (accepts : List (Option Socket)) (sync : CustomSync)
      → IsUnique sync.known_peers
      → IsUnique (accept_loop k accepts sync).1.known_peers
  unfolding accept_loop
  accept_loop-IsUnique [] sync h = h
  accept_loop-IsUnique (none ∷ rest) sync h = h
  accept_loop-IsUnique (some socket ∷ rest) sync h =
      accept_loop-IsUnique rest (handle_connection k socket sync).1
        (handle_connection-IsUnique socket sync h)

  -- Start_server, whatever connections it accepts, keeps the invariant that the table of peers
  -- lists each peer once.
  pub start_server-IsUnique :
      (binds : Bool) (accepts : List (Option Socket)) (sync : CustomSync)
      → IsUnique sync.known_peers
      → IsUnique (start_server k binds accepts sync).1.known_peers
  unfolding start_server
  start_server-IsUnique binds accepts sync h = elim (Bool-cases sync.is_running) [
    | inl running ↦
        subst IsUnique
          (sym (same_peers {x = (start_server k binds accepts sync).1} {y = sync} (ground arith))) h
    | inr stopped ↦ elim (Bool-cases binds) [
      | inl bound ↦
          subst IsUnique
            (sym (
              same_peers {x = (start_server k binds accepts sync).1}
                {y = (accept_loop k accepts (record sync { is_running = true })).1} (ground arith)))
            (accept_loop-IsUnique accepts (record sync { is_running = true }) h)
      | inr unbound ↦
          subst IsUnique
            (sym (
              same_peers {x = (start_server k binds accepts sync).1}
                {y = record sync { is_running = true }} (ground arith)))
            h
    ]
  ]
    where
      same_peers : {x y : CustomSync} → x ≡ y → x.known_peers ≡ y.known_peers
      same_peers e = ap {A = CustomSync} (λ z. z.known_peers) e
