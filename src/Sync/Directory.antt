-- ===== src/Sync/Directory.antt =====
-- `add_peer` and `discover_peers` of src/sync.rs, as a directory from keys to addresses.
use baa_ls.Prelude.{
  false, [], ◌∷◌, Bytes, ◌≡◌, ◌↔◌, ◌⊎◌, inl, inr, arith, Bool-cases, ap, All, Member,
}
use baa_ls.Types.{PublicKey, Codec}
use baa_ls.BTreeMap.{key_eq, key_eq_sound, key_eq_refl}
use baa_ls.Sync.{Peer, NetworkMessage}
use baa_ls.Sync.Peers.{Peers, insert_peer, add_peer, to_peers, discover_peers, CustomSync}
use baa_ls.Sync.Table.{IsUnique}

module _ (k : Codec NetworkMessage) where
  -- The listed peers without those of a key, and one more.
  abbrev pub IsListed : Peer → Peer → CustomSync → Type 0
  IsListed q p sync = (q ≡ p) ⊎ ((key_eq q.id p.id ≡ false) × Member q (discover_peers sync))

  absent :
      (id : PublicKey) (peers : Peers) (q : Peer)
      → All (λ (e : PublicKey × Bytes). key_eq id e.0 ≡ false) peers
      → Member q (to_peers peers)
      → key_eq id q.id ≡ false
  unfolding to_peers
  absent id [] q h m = absurd m
  absent id ((j, a) ∷ peers) q h (inl e) = rw e h.0
  absent id ((j, a) ∷ peers) q h (inr m) = absent id peers q h.1 m

  pub key_eq_comm : (x y : PublicKey) → key_eq x y ≡ false → key_eq y x ≡ false
  key_eq_comm x y h = elim (Bool-cases (key_eq y x)) [
    | inl same ↦ absurd (ground (arith, key_eq_sound y x same, key_eq_refl x))
    | inr other ↦ other
  ]

  listed_forward :
      (p q : Peer) (peers : Peers)
      → IsUnique k peers
      → Member q (to_peers (insert_peer p.id p.address peers))
      → (q ≡ p) ⊎ ((key_eq q.id p.id ≡ false) × Member q (to_peers peers))
  unfolding insert_peer to_peers
  listed_forward p q [] u (inl e) = inl e
  listed_forward p q [] u (inr m) = absurd m
  listed_forward p q ((j, a) ∷ peers) u m = elim (Bool-cases (key_eq j p.id)) [
    | inl same ↦ elim (rw same at m) [
      | inl e ↦ inl (rw (← key_eq_sound j p.id same) e)
      | inr later ↦ inr (
        key_eq_comm p.id q.id (rw (← key_eq_sound j p.id same) (absent j peers q u.0 later)),
        inr later,
      )
    ]
    | inr other ↦ elim (rw other at m) [
      | inl e ↦ inr (rw e other, inl e)
      | inr later ↦ elim (listed_forward p q peers u.1 later) [
        | inl e ↦ inl e
        | inr (ne, m') ↦ inr (ne, inr m')
      ]
    ]
  ]

  listed_back :
      (p q : Peer) (peers : Peers)
      → (q ≡ p) ⊎ ((key_eq q.id p.id ≡ false) × Member q (to_peers peers))
      → Member q (to_peers (insert_peer p.id p.address peers))
  unfolding insert_peer to_peers
  listed_back p q [] (inl e) = inl e
  listed_back p q [] (inr (ne, m)) = absurd m
  listed_back p q ((j, a) ∷ peers) h = elim (Bool-cases (key_eq j p.id)) [
    | inl same ↦ rw same (elim h [
      | inl e ↦ inl (rw (key_eq_sound j p.id same) e)
      | inr (ne, inl e) ↦ absurd (ground (arith, ap {A = Peer} (λ x. x.id) e))
      | inr (ne, inr m) ↦ inr m
    ])
    | inr other ↦ rw other (elim h [
      | inl e ↦ inr (listed_back p q peers (inl e))
      | inr (ne, inl e) ↦ inl e
      | inr (ne, inr m) ↦ inr (listed_back p q peers (inr (ne, m)))
    ])
  ]

  -- Where each peer is listed once, discover_peers lists a peer after add_peer exactly if it is
  -- the one added, or was listed before under another key.
  pub discover_peers-add_peer :
      (p q : Peer) (sync : CustomSync)
      → IsUnique k sync.known_peers
      → Member q (discover_peers (add_peer p sync)) ↔ IsListed q p sync
  unfolding discover_peers add_peer
  discover_peers-add_peer p q sync u =
      (listed_forward p q sync.known_peers u, listed_back p q sync.known_peers)
