-- ===== src/Contracts.antt =====
-- src/contracts.rs: the trait `ContractEngine` and `BaaLSContractEngine`.
use baa_ls.Prelude.{ℕ, Bool, Option, none, some, [], ◌++◌, Bytes, codes, Action}
use baa_ls.Prelude.Actions.{pure, with_error, ◌>>◌}
use baa_ls.Types.{PublicKey, ContractId, Crypto}
use baa_ls.Storage.{StorageError, Storage}

-- The texts are kept as bytes.
pub data ContractError : Type 0 where
  storage_error : StorageError → ContractError
  execution_error contract_not_found invalid_wasm : Bytes → ContractError

-- The trait. `storage: &dyn Storage` is the trait's record and the store that the action works on.
pub record ContractEngine (S : Type 0) : Type 0 where
  -- deployer, wasm bytes, init payload, storage, gas limit
  pub deploy_contract :
      PublicKey → Bytes → Option Bytes → Storage S → ℕ → Action S ContractError ContractId
  -- caller, contract, method name, arguments, storage
  pub call_contract :
      PublicKey → ContractId → Bytes → Bytes → Storage S → Action S ContractError Bytes
  -- contract, payload, storage
  pub query_contract : ContractId → Bytes → Storage S → Action S ContractError Bytes

pub record ContractExecutionResult : Type 0 where
  pub success : Bool
  pub output_data : Option Bytes
  pub gas_used : ℕ
  pub error_message : Option Bytes

-- SHA-256 of the deployer's key and the code.
unfoldable pub contract_id_of : Crypto → PublicKey → Bytes → ContractId
contract_id_of c deployer wasm_bytes = record { id = c.sha256 (deployer.bytes ++ wasm_bytes) }

module _ {S : Type 0} (c : Crypto) where
  store_init_payload : ContractId → Option Bytes → Storage S → Action S ContractError Unit
  store_init_payload contract_id none storage = pure tt
  store_init_payload contract_id (some payload) storage =
      with_error storage_error
        (storage.contract_storage_write contract_id (codes "init_payload") payload)

  -- `deploy_contract`; the gas limit is ignored
  unfoldable pub deploy_contract :
      PublicKey → Bytes → Option Bytes → Storage S → ℕ → Action S ContractError ContractId
  unfolding store_init_payload
  deploy_contract deployer wasm_bytes init_payload storage gas_limit = do
    let contract_id = contract_id_of c deployer wasm_bytes
    with_error storage_error (storage.put_contract_code contract_id wasm_bytes)
    store_init_payload contract_id init_payload storage
    pure contract_id

  -- `call_contract` and `query_contract` return no bytes yet
  unfoldable pub call_contract :
      PublicKey → ContractId → Bytes → Bytes → Storage S → Action S ContractError Bytes
  call_contract caller contract_id method_name args storage = pure []

  unfoldable pub query_contract : ContractId → Bytes → Storage S → Action S ContractError Bytes
  query_contract contract_id payload storage = pure []

  abbrev pub baals_contract_engine : ContractEngine S
  baals_contract_engine = record {
    deploy_contract = deploy_contract;
    call_contract = call_contract;
    query_contract = query_contract;
  }
