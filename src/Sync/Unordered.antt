-- ===== src/Sync/Unordered.antt =====
-- The table of peers of src/sync.rs in any order of its entries, as a `HashMap` may give them.
use mathlib.Core.List.{Permᴰ}
use mathlib.Core.List.Permᴰ
use baa_ls.Prelude.{
  ◌≡◌, refl, ap, subst, inl, inr, ◌⊎◌, Bool, List, [], ◌∷◌, Bytes, arith, All-Perm, Bool-cases,
  Result-cases,
}
use baa_ls.Types.{PublicKey, Block, Codec}
use baa_ls.BTreeMap.{key_eq, key_eq_sound, key_eq_refl}
use baa_ls.Sync.{Peer, NetworkMessage, new_block_announcement, message_bytes}
use baa_ls.Sync.Peers.{
  Peers, insert_peer, add_peer, to_peers, discover_peers, deliver, broadcast_block, CustomSync,
}
use baa_ls.Sync.Table.{IsUnique}
use baa_ls.Sync.Directory.{key_eq_comm}

module _ (k : Codec NetworkMessage) where
  Perm-IsUnique : {ps qs : Peers} → Permᴰ ps qs → IsUnique k ps → IsUnique k qs
  Perm-IsUnique Permᴰ.nil h = tt
  Perm-IsUnique (Permᴰ.cons {a = x} {b = y} {l₁ = l} {l₂ = r} e p) h =
      subst (λ (z : PublicKey × Bytes). IsUnique k (z ∷ r)) e
        (All-Perm _ p h.0, Perm-IsUnique p h.1)
  Perm-IsUnique (Permᴰ.swap {a = x} {b = y} {a' = x'} {b' = y'} {l = l} e f) h =
      subst (IsUnique k) {x = y ∷ x ∷ l} {y = x' ∷ y' ∷ l} (cc (e, f))
        ((key_eq_comm k x.0 y.0 h.0.0, h.1.0), (h.0.1, h.1.1))
  Perm-IsUnique (Permᴰ.trans p q) h = Perm-IsUnique q (Perm-IsUnique p h)

  insert_peer-Perm :
      (id : PublicKey) (address : Bytes) {ps qs : Peers}
      → Permᴰ ps qs
      → IsUnique k ps
      → Permᴰ (insert_peer id address ps) (insert_peer id address qs)
  unfolding insert_peer
  insert_peer-Perm id address Permᴰ.nil h = Permᴰ.refl ((id, address) ∷ [])
  insert_peer-Perm id address (Permᴰ.cons {a = x} {b = y} {l₁ = l} {l₂ = r} e p) h =
      subst
        (λ (z : PublicKey × Bytes).
          Permᴰ (insert_peer id address (x ∷ l)) (insert_peer id address (z ∷ r)))
        e
        (elim (Bool-cases (key_eq x.0 id)) [
          | inl same ↦ rw same (Permᴰ.cons refl p)
          | inr other ↦ rw other (Permᴰ.cons refl (insert_peer-Perm id address p h.1))
        ])
  insert_peer-Perm id address (Permᴰ.swap {a = x} {b = y} {a' = x'} {b' = y'} {l = l} e f) h =
      subst (λ (z : Peers). Permᴰ (insert_peer id address (x ∷ y ∷ l)) (insert_peer id address z))
        {x = y ∷ x ∷ l} {y = x' ∷ y' ∷ l} (cc (e, f))
        (elim (Bool-cases (key_eq x.0 id)) [
          | inl first ↦ elim (Bool-cases (key_eq y.0 id)) [
            | inl second ↦ absurd (
                ground (
                  arith,
                  h.0.0,
                  key_eq_sound x.0 id first,
                  key_eq_sound y.0 id second,
                  key_eq_refl id,
                ))
            | inr other ↦ rw (first, other) (Permᴰ.swap refl refl)
          ]
          | inr other ↦ elim (Bool-cases (key_eq y.0 id)) [
            | inl second ↦ rw (other, second) (Permᴰ.swap refl refl)
            | inr neither ↦ rw (other, neither) (Permᴰ.swap refl refl)
          ]
        ])
  insert_peer-Perm id address (Permᴰ.trans p q) h =
      Permᴰ.trans (insert_peer-Perm id address p h)
        (insert_peer-Perm id address q (Perm-IsUnique p h))

  to_peers-Perm : {ps qs : Peers} → Permᴰ ps qs → Permᴰ (to_peers ps) (to_peers qs)
  unfolding to_peers
  to_peers-Perm Permᴰ.nil = Permᴰ.nil
  to_peers-Perm (Permᴰ.cons e p) =
      Permᴰ.cons (ap (λ (z : PublicKey × Bytes). record { id = z.0; address = z.1 }) e)
        (to_peers-Perm p)
  to_peers-Perm (Permᴰ.swap e f) =
      Permᴰ.swap (ap (λ (z : PublicKey × Bytes). record { id = z.0; address = z.1 }) e)
        (ap (λ (z : PublicKey × Bytes). record { id = z.0; address = z.1 }) f)
  to_peers-Perm (Permᴰ.trans p q) = Permᴰ.trans (to_peers-Perm p) (to_peers-Perm q)

  -- What the loop does at a peer, whatever follows.
  deliver_one :
      (connects writes : Peer → Bool) (m : NetworkMessage) (x : Peer)
      → ((rest : List Peer)
          → deliver k connects writes m (x ∷ rest) ≡ deliver k connects writes m rest)
        ⊎ ((bytes : Bytes) × ((rest : List Peer)
              → deliver k connects writes m (x ∷ rest)
                ≡ (x, bytes) ∷ deliver k connects writes m rest))
  unfolding deliver
  deliver_one connects writes m x = elim (Bool-cases (connects x)) [
    | inl connected ↦ elim (Result-cases (message_bytes k m)) [
      | inl (bytes, framed) ↦ elim (Bool-cases (writes x)) [
        | inl written ↦ inr (bytes, λ rest. ground arith)
        | inr lost ↦ inl (λ rest. ground arith)
      ]
      | inr (error, unframed) ↦ inl (λ rest. ground arith)
    ]
    | inr lost ↦ inl (λ rest. ground arith)
  ]

  deliver-Perm :
      (connects writes : Peer → Bool) (m : NetworkMessage) {ps qs : List Peer}
      → Permᴰ ps qs
      → Permᴰ (deliver k connects writes m ps) (deliver k connects writes m qs)
  deliver-Perm connects writes m Permᴰ.nil = Permᴰ.refl (deliver k connects writes m [])
  deliver-Perm connects writes m (Permᴰ.cons {a = x} {b = y} {l₁ = l} {l₂ = r} e p) =
      subst
        (λ (z : Peer).
          Permᴰ (deliver k connects writes m (x ∷ l)) (deliver k connects writes m (z ∷ r)))
        e
        (elim (deliver_one connects writes m x) [
          | inl same ↦ rw (same l, same r) (deliver-Perm connects writes m p)
          | inr (bytes, sent) ↦
              rw (sent l, sent r) (Permᴰ.cons refl (deliver-Perm connects writes m p))
        ])
  deliver-Perm connects writes m (Permᴰ.swap {a = x} {b = y} {a' = x'} {b' = y'} {l = l} e f) =
      subst
        (λ (z : List Peer).
          Permᴰ (deliver k connects writes m (x ∷ y ∷ l)) (deliver k connects writes m z))
        {x = y ∷ x ∷ l} {y = x' ∷ y' ∷ l} (cc (e, f))
        (elim (deliver_one connects writes m x) [
          | inl same ↦ elim (deliver_one connects writes m y) [
            | inl same' ↦
                rw (same (y ∷ l), same' l, same' (x ∷ l), same l)
                  (Permᴰ.refl (deliver k connects writes m l))
            | inr (bytes', sent') ↦
                rw (same (y ∷ l), sent' l, sent' (x ∷ l), same l)
                  (Permᴰ.refl ((y, bytes') ∷ deliver k connects writes m l))
          ]
          | inr (bytes, sent) ↦ elim (deliver_one connects writes m y) [
            | inl same' ↦
                rw (sent (y ∷ l), same' l, same' (x ∷ l), sent l)
                  (Permᴰ.refl ((x, bytes) ∷ deliver k connects writes m l))
            | inr (bytes', sent') ↦
                rw (sent (y ∷ l), sent' l, sent' (x ∷ l), sent l) (Permᴰ.swap refl refl)
          ]
        ])
  deliver-Perm connects writes m (Permᴰ.trans p q) =
      Permᴰ.trans (deliver-Perm connects writes m p) (deliver-Perm connects writes m q)

  -- Where each peer is listed once, another order of the table of peers changes only the order of
  -- what discover_peers lists after add_peer, and of what broadcast_block delivers to those peers.
  pub broadcast_block-Perm :
      (connects writes : Peer → Bool) (block : Block) (peer : Peer) (sync sync' : CustomSync)
      → IsUnique k sync.known_peers
      → Permᴰ sync.known_peers sync'.known_peers
      → let peers = discover_peers (add_peer peer sync) in
        let peers' = discover_peers (add_peer peer sync') in
        Permᴰ peers peers'
        × Permᴰ
            (broadcast_block k connects writes block peers).1
            (broadcast_block k connects writes block peers').1
  unfolding discover_peers add_peer broadcast_block
  broadcast_block-Perm connects writes block peer sync sync' unique p =
      let listed = to_peers-Perm (insert_peer-Perm peer.id peer.address p unique) in
      (listed, deliver-Perm connects writes (new_block_announcement block.hash block.index) listed)
