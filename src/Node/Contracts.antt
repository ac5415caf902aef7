-- ===== src/Node/Contracts.antt =====
-- Contract deployments over `SledStorage`: `BaaLSContractEngine` (src/contracts.rs), alone and in
-- `Ledger::apply_block` (src/ledger.rs).
use baa_ls.Prelude.{
  ℕ, ◌≡◌, ◌≢◌, some, [], ◌∷◌, Bytes, codes, bytes_eq, bytes_eq_refl, ok, err, arith, if◌then◌else◌,
}
use baa_ls.Types.{
  PublicKey, ContractId, Transaction, Block, contract_deploy, Account, account_nonce, Crypto,
  Bincode,
}
use baa_ls.SledStorage.{Sled, Hex, SledStorage}
use baa_ls.SledStorage.Laws.{SledLaws, Works}
use baa_ls.SledStorage.Operations.{
  put_contract_code, get_contract_code, get_account, contract_key, contract_storage_read,
  contract_storage_write,
}
use baa_ls.SledStorage.RoundTrip.{get-insert, insert_returns}
use baa_ls.Contracts.{deploy_contract, contract_id_of}
use baa_ls.Consensus.{next_u64}
use baa_ls.Ledger.{LedgerState, invalid_nonce}
use baa_ls.Ledger.Validation.{serialize}
use baa_ls.Ledger.Transactions.{apply_payload, apply_transaction, apply_transactions}
use baa_ls.Ledger.Application.{apply_block}
use baa_ls.Node.{node_storage, node_engine}

module _ {Tree : Type 0} (sled : Sled Tree) (laws : SledLaws sled) (works : Works sled) (c : Crypto)
    (b : Bincode) (hex : Hex) where
  -- the store with the code
  code_stored :
      (id : ContractId) (wasm : Bytes) (s : SledStorage Tree)
      → (t : Tree) × (put_contract_code sled b hex id wasm s
          ≡ (ok tt, record s { contract_code_tree = t }))
        × ((other : ContractId)
            → get_contract_code sled b hex other (record s { contract_code_tree = t }) ≡ (
                if bytes_eq id.id other.id
                then ok (some wasm)
                else get_contract_code sled b hex other s))
  unfolding put_contract_code get_contract_code
  code_stored id wasm s =
      let (t, e) = insert_returns sled laws works s.contract_code_tree id.id wasm in
      (
        t,
        ground arith,
        λ other.
            ground (arith, get-insert sled laws works s.contract_code_tree id.id wasm t other.id e),
      )

  -- After a deployment with an initial payload, the contract's code and the payload are read back,
  -- and the code of any other contract is as before.
  pub deploy_contract-get_contract_code :
      (deployer : PublicKey) (wasm payload : Bytes) (gas_limit : ℕ) (other : ContractId)
      (s : SledStorage Tree)
      → let id = contract_id_of c deployer wasm in
        let (r, s') =
          deploy_contract c deployer wasm (some payload) (node_storage sled b hex) gas_limit s in
        (r ≡ ok id)
        × (get_contract_code sled b hex other s' ≡ (
            if bytes_eq id.id other.id
            then ok (some wasm)
            else get_contract_code sled b hex other s))
        × (contract_storage_read sled b hex id (codes "init_payload") s' ≡ ok (some payload))
  unfolding deploy_contract contract_storage_write contract_storage_read get_contract_code
  deploy_contract-get_contract_code deployer wasm payload gas_limit other s =
      let id = contract_id_of c deployer wasm in
      let (t, e, found) = code_stored id wasm s in
      let key = contract_key sled b hex id (codes "init_payload") in
      let (u, f) = insert_returns sled laws works s.contract_storage_tree key payload in
      let read = get-insert sled laws works s.contract_storage_tree key payload u key f in
      (
        ground (arith, e, f),
        ground (arith, e, f, found other),
        ground (arith, e, f, read, bytes_eq_refl key),
      )

  -- A block that deploys a contract and is then refused at its second transaction.
  pub record RefusedDeploy (block : Block) (tx other : Transaction) (wasm : Bytes)
      (account : Account) (s : SledStorage Tree) : Type 0 where
    pub transactions_lem : block.transactions ≡ tx ∷ other ∷ []
    pub payload_lem : tx.payload ≡ contract_deploy wasm
    pub deployer : Account
    pub deployer_lem : get_account sled b hex tx.sender s ≡ ok (some deployer)
    pub nonce_lem : tx.nonce ≡ next_u64 (account_nonce deployer)
    pub key : Bytes
    pub key_lem : serialize b.hash_codec tx.hash ≡ ok key
    pub other_lem : get_account sled b hex other.sender s ≡ ok (some account)
    pub wrong_nonce : next_u64 (account_nonce account) ≢ other.nonce

  -- Over a working sled store, a block whose first transaction deploys a contract with the next
  -- nonce of a stored sender, and whose second has a wrong nonce, is refused by apply_block with
  -- the chain state unchanged, and the contract's code is stored all the same.
  pub refused_block_deploys :
      (block : Block) (tx other : Transaction) (wasm : Bytes) (account : Account)
      (w : LedgerState (SledStorage Tree))
      → RefusedDeploy block tx other wasm account w.storage
      → let (r, w') = apply_block (node_storage sled b hex) (node_engine sled c) b block w in
        (r ≡ err (invalid_nonce other.sender (next_u64 (account_nonce account)) other.nonce))
        × (w'.chain_state ≡ w.chain_state)
        × (get_contract_code sled b hex (contract_id_of c tx.sender wasm) w'.storage
            ≡ ok (some wasm))
  unfolding apply_block apply_transactions apply_transaction apply_payload deploy_contract
      get_account
  refused_block_deploys block tx other wasm account w r =
      let (t, e, found) = code_stored (contract_id_of c tx.sender wasm) wasm w.storage in
      let read = found (contract_id_of c tx.sender wasm) in
      let own = bytes_eq_refl (contract_id_of c tx.sender wasm).id in
      (
        ground (
          arith, r.transactions_lem, r.payload_lem, r.deployer_lem, r.nonce_lem, r.key_lem,
          r.other_lem, r.wrong_nonce, e,
        ),
        ground (
          arith, r.transactions_lem, r.payload_lem, r.deployer_lem, r.nonce_lem, r.key_lem,
          r.other_lem, r.wrong_nonce, e,
        ),
        ground (
          arith, r.transactions_lem, r.payload_lem, r.deployer_lem, r.nonce_lem, r.key_lem,
          r.other_lem, r.wrong_nonce, e, read, own,
        ),
      )
