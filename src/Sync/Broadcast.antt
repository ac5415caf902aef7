-- ===== src/Sync/Broadcast.antt =====
-- Who is told of a block by `broadcast_block` of src/sync.rs.
use baa_ls.Prelude.{
  Bool, true, false, List, [], ◌∷◌, Bytes, ok, if◌then◌else◌, ◌&&◌, &&_iff, ◌≡◌, refl, inl, inr,
  ◌↔◌, Member, arith, Bool-cases, ap,
}
use baa_ls.Types.{Block, Codec}
use baa_ls.Sync.{Peer, NetworkMessage, new_block_announcement, message_bytes}
use baa_ls.Sync.Peers.{deliver, broadcast_block}

module _ (k : Codec NetworkMessage) where
  deliver_step :
      (connects writes : Peer → Bool) (m : NetworkMessage) (bytes : Bytes) (p : Peer)
      (rest : List Peer)
      → message_bytes k m ≡ ok bytes
      → deliver k connects writes m (p ∷ rest) ≡ (
          if connects p && writes p
          then (p, bytes) ∷ deliver k connects writes m rest
          else deliver k connects writes m rest)
  unfolding deliver
  deliver_step connects writes m bytes p rest framed = ground arith

  deliver_forward :
      (connects writes : Peer → Bool) (m : NetworkMessage) (bytes : Bytes) (peers : List Peer)
      (peer : Peer) (got : Bytes)
      → message_bytes k m ≡ ok bytes
      → Member (peer, got) (deliver k connects writes m peers)
      → Member peer peers × (connects peer ≡ true) × (writes peer ≡ true) × (got ≡ bytes)
  unfolding deliver
  deliver_forward connects writes m bytes [] peer got framed h = absurd h
  deliver_forward connects writes m bytes (p ∷ rest) peer got framed h =
      elim (Bool-cases (connects p && writes p)) [
        | inl both ↦
            let (c, w) = (&&_iff (connects p) (writes p)).0 both in
            elim (rw (deliver_step connects writes m bytes p rest framed, both) at h) [
              | inl e ↦ (
                inl (ap {A = Peer × Bytes} (λ x. x.0) e),
                rw (ap {A = Peer × Bytes} (λ x. x.0) e) c,
                rw (ap {A = Peer × Bytes} (λ x. x.0) e) w,
                ap {A = Peer × Bytes} (λ x. x.1) e,
              )
              | inr later ↦
                  let (i, c', w', g) =
                    deliver_forward connects writes m bytes rest peer got framed later in
                  (inr i, c', w', g)
            ]
        | inr other ↦
            let (i, c', w', g) =
              deliver_forward connects writes m bytes rest peer got framed
                (rw (deliver_step connects writes m bytes p rest framed, other) at h) in
            (inr i, c', w', g)
      ]

  deliver_back :
      (connects writes : Peer → Bool) (m : NetworkMessage) (bytes : Bytes) (peers : List Peer)
      (peer : Peer)
      → message_bytes k m ≡ ok bytes
      → connects peer ≡ true
      → writes peer ≡ true
      → Member peer peers
      → Member (peer, bytes) (deliver k connects writes m peers)
  deliver_back connects writes m bytes [] peer framed c w h = absurd h
  deliver_back connects writes m bytes (p ∷ rest) peer framed c w (inl e) =
      rw (deliver_step connects writes m bytes p rest framed, ← e, c, w) (inl refl)
  deliver_back connects writes m bytes (p ∷ rest) peer framed c w (inr i) =
      rw (deliver_step connects writes m bytes p rest framed) (
        keep (deliver_back connects writes m bytes rest peer framed c w i) (connects p && writes p))
    where
      keep :
          Member (peer, bytes) (deliver k connects writes m rest)
          → (t : Bool)
          → Member
              (peer, bytes)
              (if t
                then (p, bytes) ∷ deliver k connects writes m rest
                else deliver k connects writes m rest)
      keep there true = inr there
      keep there false = there

  -- Where the announcement can be framed, broadcast_block succeeds, and a peer gets bytes exactly
  -- if it is listed, can be connected to and written to, and the bytes are the announcement.
  pub broadcast_block_iff :
      (connects writes : Peer → Bool) (block : Block) (bytes : Bytes) (peers : List Peer)
      (peer : Peer) (got : Bytes)
      → message_bytes k (new_block_announcement block.hash block.index) ≡ ok bytes
      → let (r, delivered) = broadcast_block k connects writes block peers in
        (r ≡ ok tt)
        × (Member (peer, got) delivered
            ↔ (Member peer peers × (connects peer ≡ true) × (writes peer ≡ true) × (got ≡ bytes)))
  unfolding broadcast_block
  broadcast_block_iff connects writes block bytes peers peer got framed = (
    refl,
    (
      deliver_forward connects writes (new_block_announcement block.hash block.index) bytes peers
          peer got framed,
      λ h. rw h.3 (
          deliver_back connects writes (new_block_announcement block.hash block.index) bytes peers
            peer framed h.1 h.2 h.0),
    ),
  )
