-- ===== src/Node.antt =====
-- The node as src/main.rs wires it: `Runtime` over `SledStorage` and `BaaLSContractEngine`. Its
-- theorems are about the ledger and the runtime on sled trees.
pub mod Trees
pub mod Start
pub mod Contracts
pub mod Succession
use baa_ls.Types.{Crypto, Bincode}
use baa_ls.Storage.{Storage}
use baa_ls.SledStorage.{Sled, Hex, SledStorage}
use baa_ls.SledStorage.Operations.{sled_storage}
use baa_ls.Contracts.{ContractEngine, baals_contract_engine}

abbrev pub node_storage : {Tree : Type 0} → Sled Tree → Bincode → Hex → Storage (SledStorage Tree)
node_storage sled b hex = sled_storage sled b hex

abbrev pub node_engine : {Tree : Type 0} → Sled Tree → Crypto → ContractEngine (SledStorage Tree)
node_engine sled c = baals_contract_engine c
