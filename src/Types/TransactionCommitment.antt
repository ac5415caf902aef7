-- ===== src/Types/TransactionCommitment.antt =====
-- What `Transaction::calculate_hash` of src/types.rs commits to.
use baa_ls.Prelude.{
  ℕ, ◌≡◌, refl, sym, ◌∙◌, ◌⊎◌, inl, inr, some, ◌++◌, Bytes, to_le_bytes, ok, arith, Option-cases,
  Result-cases, ap, length, append-injective,
}
use baa_ls.Types.{
  Crypto, Bincode, PublicKey, Transaction, metadata_input, transaction_hash_input, transaction_hash,
  verify_signature,
}
use baa_ls.Types.Commitment.{
  Collision, SelfDelimiting, NonEmpty, IsU64, same_hash, u64_head, metadata_tail,
}

abbrev TransactionParts : Bincode → Transaction → Bytes → Type 0
TransactionParts b tx input =
    (recipient : Bytes) × (payload : Bytes) × (tail : Bytes) × (b.address_codec.serialize
        tx.recipient
      ≡ some recipient)
    × (b.payload_codec.serialize tx.payload ≡ some payload)
    × (metadata_input b tx.metadata ≡ ok tail)
    × (input
        ≡ tx.sender.bytes
          ++ (to_le_bytes 8 tx.nonce
              ++ (to_le_bytes 8 tx.timestamp ++ (recipient ++ (payload ++ tail)))))

transaction_parts :
    (b : Bincode) (tx : Transaction) (input : Bytes)
    → transaction_hash_input b tx ≡ ok input
    → TransactionParts b tx input
unfolding transaction_hash_input
transaction_parts b tx input h = elim (Option-cases (b.address_codec.serialize tx.recipient)) [
  | inl e ↦ absurd (ground arith)
  | inr (r, e) ↦ elim (Option-cases (b.payload_codec.serialize tx.payload)) [
    | inl f ↦ absurd (ground arith)
    | inr (p, f) ↦ elim (Result-cases (metadata_input b tx.metadata)) [
      | inl (tail, g) ↦ (r, p, tail, e, f, g, ground arith)
      | inr (x, g) ↦ absurd (ground arith)
    ]
  ]
]

-- Fields that Rust's types bound.
pub record IsTransactionSized (tx : Transaction) : Type 0 where
  pub sender_size : length tx.sender.bytes ≡ 32
  pub nonce_fits : IsU64 tx.nonce
  pub timestamp_fits : IsU64 tx.timestamp

-- The fields that the hash covers.
pub record SameSigned (x y : Transaction) : Type 0 where
  pub same_sender : x.sender ≡ y.sender
  pub same_nonce : x.nonce ≡ y.nonce
  pub same_timestamp : x.timestamp ≡ y.timestamp
  pub same_recipient : x.recipient ≡ y.recipient
  pub same_payload : x.payload ≡ y.payload
  pub same_metadata : x.metadata ≡ y.metadata

module _ (b : Bincode) (address_delimited : SelfDelimiting b.address_codec)
    (payload_delimited : SelfDelimiting b.payload_codec)
    (metadata_delimited : SelfDelimiting b.metadata_codec)
    (nonempty : NonEmpty b.metadata_codec) where
  transaction_input_injective :
      (x y : Transaction) (u : Bytes)
      → IsTransactionSized x
      → IsTransactionSized y
      → transaction_hash_input b x ≡ ok u
      → transaction_hash_input b y ≡ ok u
      → SameSigned x y
  transaction_input_injective x y u hx hy ex ey =
      let (rx, px, mx, sx, qx, ax, ix) = transaction_parts b x u ex in
      let (ry, py, my, sy, qy, ay, iy) = transaction_parts b y u ey in
      let (s, r1) =
        append-injective x.sender.bytes _ y.sender.bytes _ (hx.sender_size ∙ sym hy.sender_size)
          (sym ix ∙ iy) in
      let (n, r2) = u64_head x.nonce y.nonce _ _ hx.nonce_fits hy.nonce_fits r1 in
      let (t, r3) = u64_head x.timestamp y.timestamp _ _ hx.timestamp_fits hy.timestamp_fits r2 in
      let (a, r4) = address_delimited x.recipient y.recipient rx ry _ _ sx sy r3 in
      let (p, r5) = payload_delimited x.payload y.payload px py mx my qx qy r4 in
      record {
        same_sender = ap {B = PublicKey} (λ bytes. record { bytes = bytes }) s;
        same_nonce = n;
        same_timestamp = t;
        same_recipient = a;
        same_payload = p;
        same_metadata =
            metadata_tail b metadata_delimited nonempty x.metadata y.metadata my (ax ∙ ap ok r5) ay;
      }

  -- Two transactions with fields of their Rust sizes and one computed hash agree in sender, nonce,
  -- timestamp, recipient, payload and metadata, or exhibit a SHA-256 collision, where bincode is
  -- self-delimiting and writes no metadata as nothing.
  pub transaction_hash_commits :
      (c : Crypto) (x y : Transaction) (h : Bytes)
      → IsTransactionSized x
      → IsTransactionSized y
      → transaction_hash c b x ≡ ok h
      → transaction_hash c b y ≡ ok h
      → SameSigned x y ⊎ Collision c
  unfolding transaction_hash
  transaction_hash_commits c x y h sx sy ex ey = elim (Result-cases (transaction_hash_input b x)) [
    | inl (u, eu) ↦ elim (Result-cases (transaction_hash_input b y)) [
      | inl (v, ev) ↦ elim (same_hash c u v (ground arith)) [
        | inl same ↦ inl (transaction_input_injective x y u sx sy eu (ev ∙ ap ok (sym same)))
        | inr collision ↦ inr collision
      ]
      | inr (e, ev) ↦ absurd (ground arith)
    ]
    | inr (e, eu) ↦ absurd (ground arith)
  ]

-- Replacing the gas limit and the priority of a transaction changes neither its computed hash nor
-- the answer of verify_signature.
pub verify_signature-unsigned_fields :
    (c : Crypto) (b : Bincode) (tx : Transaction) (gas_limit priority : ℕ)
    → let forged = record tx { gas_limit = gas_limit; priority = priority } in
      (transaction_hash c b forged ≡ transaction_hash c b tx)
      × (verify_signature c b forged ≡ verify_signature c b tx)
unfolding transaction_hash transaction_hash_input verify_signature
verify_signature-unsigned_fields c b tx gas_limit priority = (refl, refl)
