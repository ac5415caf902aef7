-- ===== src/Ledger/BatchKeys.antt =====
-- The keys of the batch that `apply_block` (src/ledger.rs) writes, on bincode's format.
use baa_ls.Prelude.{
  ℕ, ◌≡◌, ◌≢◌, refl, ap, ◌∙◌, some, [], ◌∷◌, ◌++◌, Bytes, codes, length, length-append, to_le_bytes,
  length-to_le_bytes, ok, All, arith, inl, inr, Option-cases, Result-cases,
}
use baa_ls.Types.{PublicKey, Account, ChainState, Bincode}
use baa_ls.Types.Keys.{SerdeFormat, serialize_key}
use baa_ls.Types.Serde.{IsBincode}
use baa_ls.Storage.{StorageOperation, put, delete, StorageBatch}
use baa_ls.SledStorage.{chain_state_key}
use baa_ls.Ledger.Transactions.{Accounts}
use baa_ls.Ledger.Application.{account_puts, chain_state_put}

-- Keys are written by their serde implementation, and a text as bytes.
pub record WritesKeys (b : Bincode) (format : SerdeFormat) : Type 0 where
  pub key_lem : (key : PublicKey) → b.key_codec.serialize key ≡ serialize_key format key
  pub text_lem : (text : Bytes) → b.text_codec.serialize text ≡ format.serialize_bytes text

abbrev pub key_of : StorageOperation → Bytes
key_of (put key value) = key
key_of (delete key) = key

abbrev pub IsKeySized : PublicKey × Account → Type 0
IsKeySized e = length e.0.bytes ≡ 32

-- No key of 32 bytes, as `get_account` has them.
abbrev pub IsNoAccountKey : StorageOperation → Type 0
IsNoAccountKey op = (address : PublicKey) → length address.bytes ≡ 32 → key_of op ≢ address.bytes

module _ (b : Bincode) (format : SerdeFormat) (bincode : IsBincode format)
    (writes : WritesKeys b format) where
  written_key :
      (key : PublicKey)
      → length key.bytes ≡ 32
      → b.key_codec.serialize key ≡ some (to_le_bytes 8 (length key.bytes) ++ key.bytes)
  unfolding serialize_key
  written_key key size =
      writes.key_lem key ∙ bincode.serialize_bytes_lem key.bytes (omega (arith, size))

  longer :
      (text : Bytes) (other : Bytes)
      → length text ≡ length other
      → to_le_bytes 8 (length text) ++ text ≢ other
  longer text other same e = omega (
    arith,
    same,
    ap (length {A = ℕ}) e,
    length-append (to_le_bytes 8 (length text)) text,
    length-to_le_bytes 8 (length text),
  )

  account_puts_keys :
      (accounts : Accounts) (ops : StorageBatch)
      → All IsKeySized accounts
      → account_puts b accounts ≡ ok ops
      → All IsNoAccountKey ops
  unfolding account_puts
  account_puts_keys [] [] h e = tt
  account_puts_keys [] (op ∷ ops) h e = absurd (cc)
  account_puts_keys ((address, account) ∷ rest) ops h e =
      elim (Result-cases (account_puts b rest)) [
        | inl (rest_ops, f) ↦ elim (Option-cases (b.account_codec.serialize account)) [
          | inl fails ↦ absurd (ground (arith, written_key address h.0))
          | inr (value, g) ↦
              made rest_ops value (ground (arith, written_key address h.0))
                (account_puts_keys rest rest_ops h.1 f)
        ]
        | inr (x, f) ↦ absurd (ground (arith, written_key address h.0))
      ]
    where
      made :
          (rest_ops : StorageBatch) (value : Bytes)
          → ops ≡ put (to_le_bytes 8 (length address.bytes) ++ address.bytes) value ∷ rest_ops
          → All IsNoAccountKey rest_ops
          → All IsNoAccountKey ops
      made rest_ops value q ih =
          rw q ((λ other size. longer address.bytes other.bytes (omega (arith, size, h.0))), ih)

  -- Where bincode writes keys and texts with a length before them, no key of a put of account_puts
  -- over 32-byte addresses is a 32-byte address, and no key of chain_state_put is the key of the
  -- chain state, which are what the getters look up.
  pub batch_keys_unread :
      (accounts : Accounts) (state : ChainState) (puts state_puts : StorageBatch)
      → All IsKeySized accounts
      → account_puts b accounts ≡ ok puts
      → chain_state_put b state ≡ ok state_puts
      → All IsNoAccountKey puts × All (λ op. key_of op ≢ chain_state_key) state_puts
  unfolding chain_state_put
  batch_keys_unread accounts state puts state_puts sized e f = (
    account_puts_keys accounts puts sized e,
    elim (Option-cases (b.chain_state_codec.serialize state)) [
      | inl fails ↦ absurd (ground (arith, text_key))
      | inr (value, g) ↦ made value (ground (arith, text_key))
    ],
  )
    where
      text_key :
          b.text_codec.serialize (codes "global:current")
          ≡ some (to_le_bytes 8 (length (codes "global:current")) ++ codes "global:current")
      text_key =
          writes.text_lem (codes "global:current")
          ∙ bincode.serialize_bytes_lem (codes "global:current") (omega arith)

      made :
          (value : Bytes)
          → state_puts ≡ put (to_le_bytes 8 (length chain_state_key) ++ chain_state_key) value ∷ []
          → All (λ op. key_of op ≢ chain_state_key) state_puts
      made value q = rw q (longer chain_state_key chain_state_key refl, tt)
