-- ===== src/SledStorage/ContractStorage.antt =====
-- The contract storage of `SledStorage` (src/storage.rs).
use baa_ls.Prelude.{
  ◌≡◌, refl, none, some, ◌&&◌, Bytes, codes, bytes_eq, bytes_eq_iff, bytes_eq_sound, bytes_eq_refl,
  ok, arith, Bool-eq_of_iff, &&_iff, if◌then◌else◌, length, append-injective,
}
use baa_ls.Types.{ContractId, Bincode}
use baa_ls.SledStorage.{Sled, Hex, SledStorage}
use baa_ls.SledStorage.Laws.{SledLaws, Works, HexLaws}
use baa_ls.SledStorage.Operations.{
  contract_key, contract_storage_read, contract_storage_write, contract_storage_remove,
}
use baa_ls.SledStorage.RoundTrip.{insert_returns, remove_returns, get-insert, get-remove}

module _ {Tree : Type 0} (sled : Sled Tree) (b : Bincode) (hex : Hex) (hex_laws : HexLaws hex) where
  -- Two contracts with ids of one length share no key.
  pub contract_key-injective :
      (c d : ContractId) (k l : Bytes)
      → length c.id ≡ length d.id
      → contract_key sled b hex c k ≡ contract_key sled b hex d l
      → (c.id ≡ d.id) × (k ≡ l)
  unfolding contract_key
  contract_key-injective c d k l size e =
      let (_, rest) = append-injective (codes "state:") _ (codes "state:") _ refl e in
      let (ids, keys) =
        append-injective (hex.encode c.id) _ (hex.encode d.id) _
          (omega (arith, hex_laws.encode_length c.id, hex_laws.encode_length d.id)) rest in
      let (_, texts) = append-injective (codes ":") _ (codes ":") _ refl keys in
      (hex_laws.encode_injective c.id d.id ids, hex_laws.encode_injective k l texts)

  contract_key_cong :
      (c d : ContractId) (k l : Bytes)
      → c.id ≡ d.id
      → k ≡ l
      → contract_key sled b hex c k ≡ contract_key sled b hex d l
  unfolding contract_key
  contract_key_cong c d k l p q = rw (p, q)

  pub contract_key-bytes_eq :
      (c d : ContractId) (k l : Bytes)
      → length c.id ≡ length d.id
      → bytes_eq (contract_key sled b hex c k) (contract_key sled b hex d l)
        ≡ (bytes_eq c.id d.id && bytes_eq k l)
  contract_key-bytes_eq c d k l size =
      Bool-eq_of_iff _ _
        (λ same.
          let (i, j) = contract_key-injective c d k l size (bytes_eq_sound _ _ same) in
          rw (i, j, bytes_eq_refl d.id, bytes_eq_refl l))
        (λ same.
          let (p, q) = (&&_iff (bytes_eq c.id d.id) (bytes_eq k l)).0 same in
          (bytes_eq_iff _ _).1
            (contract_key_cong c d k l (bytes_eq_sound _ _ p) (bytes_eq_sound _ _ q)))

  module _ (laws : SledLaws sled) (works : Works sled) where
    -- On a working disk and with an injective hex of two digits a byte, contract_storage_write
    -- succeeds, and contract_storage_read finds the value at that contract and key and anything
    -- else as before, for contract ids of one length.
    pub contract_storage_read-write :
        (c d : ContractId) (k l value : Bytes) (s : SledStorage Tree)
        → length c.id ≡ length d.id
        → let (r, s') = contract_storage_write sled b hex c k value s in
          (r ≡ ok tt)
          × (contract_storage_read sled b hex d l s' ≡ (
              if bytes_eq c.id d.id && bytes_eq k l
              then ok (some value)
              else contract_storage_read sled b hex d l s))
    unfolding contract_storage_read contract_storage_write
    contract_storage_read-write c d k l value s size =
        let (t', e) =
          insert_returns sled laws works s.contract_storage_tree (contract_key sled b hex c k)
            value in
        ground (
          arith,
          e,
          contract_key-bytes_eq c d k l size,
          get-insert sled laws works s.contract_storage_tree (contract_key sled b hex c k) value t'
              (contract_key sled b hex d l) e,
        )

    -- On a working disk and with an injective hex of two digits a byte, contract_storage_remove
    -- succeeds, and contract_storage_read finds nothing at that contract and key and anything else
    -- as before, for contract ids of one length.
    pub contract_storage_read-remove :
        (c d : ContractId) (k l : Bytes) (s : SledStorage Tree)
        → length c.id ≡ length d.id
        → let (r, s') = contract_storage_remove sled b hex c k s in
          (r ≡ ok tt)
          × (contract_storage_read sled b hex d l s' ≡ (
              if bytes_eq c.id d.id && bytes_eq k l
              then ok none
              else contract_storage_read sled b hex d l s))
    unfolding contract_storage_read contract_storage_remove
    contract_storage_read-remove c d k l s size =
        let (t', e) =
          remove_returns sled laws works s.contract_storage_tree (contract_key sled b hex c k) in
        ground (
          arith,
          e,
          contract_key-bytes_eq c d k l size,
          get-remove sled laws works s.contract_storage_tree (contract_key sled b hex c k) t'
              (contract_key sled b hex d l) e,
        )
