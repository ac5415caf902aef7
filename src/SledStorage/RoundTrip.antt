-- ===== src/SledStorage/RoundTrip.antt =====
-- Writes and reads of accounts, the chain state and transactions in `SledStorage`
-- (src/storage.rs).
use baa_ls.Prelude.{
  ◌≡◌, inl, inr, none, some, Bytes, bytes_eq, bytes_eq_refl, ok, arith, Option-cases, if◌then◌else◌,
}
use baa_ls.Types.{Hash, PublicKey, Transaction, ChainState, Account, Bincode}
use baa_ls.SledStorage.{SledBatch, Sled, Hex, SledStorage, chain_state_key}
use baa_ls.SledStorage.Laws.{SledLaws, Works, RoundTrips}
use baa_ls.SledStorage.Operations.{
  put_account, get_account, delete_account, put_chain_state, get_chain_state, put_transaction,
  get_transaction,
}

module _ {Tree : Type 0} (sled : Sled Tree) (laws : SledLaws sled) (works : Works sled) where
  pub get-eq-find : (t : Tree) (k : Bytes) → sled.get t k ≡ some (laws.find t k)
  get-eq-find t k = elim (laws.get_lem t k) [
    | inl fails ↦ absurd (works.get_works t k fails)
    | inr e ↦ e
  ]

  -- a working insert returns a tree, and the law gives its content
  pub insert_returns : (t : Tree) (k v : Bytes) → (t' : Tree) × (sled.insert t k v ≡ some t')
  insert_returns t k v = elim (Option-cases (sled.insert t k v)) [
    | inl fails ↦ absurd (works.insert_works t k v fails)
    | inr found ↦ found
  ]

  pub remove_returns : (t : Tree) (k : Bytes) → (t' : Tree) × (sled.remove t k ≡ some t')
  remove_returns t k = elim (Option-cases (sled.remove t k)) [
    | inl fails ↦ absurd (works.remove_works t k fails)
    | inr found ↦ found
  ]

  pub batch_returns :
      (t : Tree) (batch : SledBatch) → (t' : Tree) × (sled.apply_batch t batch ≡ some t')
  batch_returns t batch = elim (Option-cases (sled.apply_batch t batch)) [
    | inl fails ↦ absurd (works.apply_batch_works t batch fails)
    | inr found ↦ found
  ]

  pub get-insert :
      (t : Tree) (k v : Bytes) (t' : Tree) (j : Bytes)
      → sled.insert t k v ≡ some t'
      → sled.get t' j ≡ (if bytes_eq k j then some (some v) else sled.get t j)
  get-insert t k v t' j e =
      ground (arith, get-eq-find t' j, get-eq-find t j, laws.insert_lem t k v t' j e)

  pub get-remove :
      (t : Tree) (k : Bytes) (t' : Tree) (j : Bytes)
      → sled.remove t k ≡ some t'
      → sled.get t' j ≡ (if bytes_eq k j then some none else sled.get t j)
  get-remove t k t' j e =
      ground (arith, get-eq-find t' j, get-eq-find t j, laws.remove_lem t k t' j e)

  module _ (b : Bincode) (hex : Hex) where
    -- On a working disk, put_account of an account that bincode reads back succeeds, and
    -- get_account finds it at that key and any other account as before.
    pub get_account-put_account :
        (address other : PublicKey) (account : Account) (s : SledStorage Tree)
        → RoundTrips b.account_codec account
        → let (r, s') = put_account sled b hex address account s in
          (r ≡ ok tt)
          × (get_account sled b hex other s' ≡ (
              if bytes_eq address.bytes other.bytes
              then ok (some account)
              else get_account sled b hex other s))
    unfolding put_account get_account
    get_account-put_account address other account s trip =
        let (t', e) = insert_returns s.accounts_tree address.bytes trip.encoded in
        ground (
          arith,
          trip.serialize_lem,
          trip.deserialize_lem,
          e,
          get-insert s.accounts_tree address.bytes trip.encoded t' other.bytes e,
        )

    -- On a working disk, delete_account succeeds, and get_account finds nothing at that key and
    -- any other account as before.
    pub get_account-delete_account :
        (address other : PublicKey) (s : SledStorage Tree)
        → let (r, s') = delete_account sled b hex address s in
          (r ≡ ok tt)
          × (get_account sled b hex other s' ≡ (
              if bytes_eq address.bytes other.bytes
              then ok none
              else get_account sled b hex other s))
    unfolding delete_account get_account
    get_account-delete_account address other s =
        let (t', e) = remove_returns s.accounts_tree address.bytes in
        ground (arith, e, get-remove s.accounts_tree address.bytes t' other.bytes e)

    -- On a working disk, put_chain_state of a state that bincode reads back succeeds, and
    -- get_chain_state returns it.
    pub get_chain_state-put_chain_state :
        (state : ChainState) (s : SledStorage Tree)
        → RoundTrips b.chain_state_codec state
        → let (r, s') = put_chain_state sled b hex state s in
          (r ≡ ok tt) × (get_chain_state sled b hex s' ≡ ok (some state))
    unfolding put_chain_state get_chain_state
    get_chain_state-put_chain_state state s trip =
        let (t', e) = insert_returns s.chain_state_tree chain_state_key trip.encoded in
        ground (
          arith,
          trip.serialize_lem,
          trip.deserialize_lem,
          e,
          get-insert s.chain_state_tree chain_state_key trip.encoded t' chain_state_key e,
          bytes_eq_refl chain_state_key,
        )

    -- On a working disk, put_transaction of a transaction that bincode reads back succeeds, and
    -- get_transaction finds it at its hash and any other transaction as before.
    pub get_transaction-put_transaction :
        (tx : Transaction) (other : Hash) (s : SledStorage Tree)
        → RoundTrips b.transaction_codec tx
        → let (r, s') = put_transaction sled b hex tx s in
          (r ≡ ok tt)
          × (get_transaction sled b hex other s' ≡ (
              if bytes_eq tx.hash other then ok (some tx) else get_transaction sled b hex other s))
    unfolding put_transaction get_transaction
    get_transaction-put_transaction tx other s trip =
        let (t', e) = insert_returns s.transactions_tree tx.hash trip.encoded in
        ground (
          arith,
          trip.serialize_lem,
          trip.deserialize_lem,
          e,
          get-insert s.transactions_tree tx.hash trip.encoded t' other e,
        )
