-- ===== src/Types/Signing.antt =====
-- `Transaction::sign` and `Transaction::verify_signature` of src/types.rs.
use baa_ls.Prelude.{◌≡◌, ◌↔◌, true, Bytes, bytes_eq_iff, ok, arith, Result-cases, inl, inr, ◌>>=◌}
use baa_ls.Types.{
  Crypto, Bincode, Transaction, transaction_hash_input, transaction_hash, sign, verify_signature,
}

-- ed25519: a signature made with a key verifies under the public half of that key.
abbrev pub Signs : Crypto → Type 0
Signs c = (key message : Bytes) → c.verify (c.verifying_key key) message (c.sign key message) ≡ true

module _ (c : Crypto) (b : Bincode) where
  -- hash of a transaction does not see what signing writes
  transaction_hash-sign :
      (key : Bytes) (tx tx' : Transaction)
      → sign c b key tx ≡ ok tx'
      → transaction_hash c b tx' ≡ transaction_hash c b tx
  unfolding sign transaction_hash transaction_hash_input
  transaction_hash-sign key tx tx' h = ground arith

  -- Verify_signature answers true exactly if the hash field is the computed hash and the signature
  -- verifies for it under the sender's key.
  pub verify_signature_iff :
      (tx : Transaction)
      → (verify_signature c b tx ≡ ok true) ↔ (
          (transaction_hash c b tx ≡ ok tx.hash)
          × (c.verify tx.sender.bytes tx.hash tx.signature.bytes ≡ true))
  unfolding verify_signature
  verify_signature_iff tx = elim (Result-cases (transaction_hash c b tx)) [
    | inl (h, e) ↦ rw (e, ◌>>=◌) (ground (arith, bytes_eq_iff tx.hash h))
    | inr (f, e) ↦ rw (e, ◌>>=◌) (ground arith)
  ]

  -- Where ed25519 signatures verify under their own key, a transaction that is signed with the key
  -- of its sender passes verify_signature.
  pub verify_signature-sign :
      (key : Bytes) (tx tx' : Transaction)
      → Signs c
      → tx.sender.bytes ≡ c.verifying_key key
      → sign c b key tx ≡ ok tx'
      → verify_signature c b tx' ≡ ok true
  unfolding sign
  verify_signature-sign key tx tx' signs own h =
      (verify_signature_iff tx').1
        (ground (arith, transaction_hash-sign key tx tx' h), ground (arith, signs key tx'.hash))
