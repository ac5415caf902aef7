-- ===== src/Tests/Deployments.antt =====
-- Alice deploys a contract.
use baa_ls.Prelude.{◌≡◌, refl, some, [], ◌∷◌, ok, err, bytes_eq}
use baa_ls.Types.{
  ContractId, Transaction, Block, wallet, contract_deploy, wallet_account, contract_account,
  account_nonce, zero_hash,
}
use baa_ls.SledStorage.{SledStorage}
use baa_ls.SledStorage.Operations.{get_account, get_contract_code, put_contract_code, read_entry}
use baa_ls.Contracts.{contract_id_of, deploy_contract}
use baa_ls.Ledger.{invalid_nonce}
use baa_ls.Ledger.Application.{apply_block}
use baa_ls.Ledger.Deployment.{Deploys, IsLost, deploy_erases_balance}
use baa_ls.Node.Contracts.{RefusedDeploy, refused_block_deploys}
use baa_ls.Fixtures.Log.{Log, log_sled, log_laws, log_works, digits, find}
use baa_ls.Fixtures.Codecs.{toy_crypto, toy_bincode, alice, bob, transaction_of, block_of}
use baa_ls.Fixtures.Data.{head_store, head_hash, payment, storage, engine}
use baa_ls.Tests.Chain.{alice_found}
use baa_ls.Tests.Node.{start}

abbrev deployment : Transaction
deployment = transaction_of alice (wallet alice) (contract_deploy (9 ∷ [])) alice.bytes 5 []

-- the contract's id in toy SHA-256
abbrev deployed_id : ContractId
deployed_id = record { id = alice.bytes }

id_found : contract_id_of toy_crypto alice (9 ∷ []) ≡ deployed_id
unfolding contract_id_of
id_found = refl

abbrev with_code : SledStorage Log
with_code = record head_store { contract_code_tree = (alice.bytes, some (9 ∷ [])) ∷ [] }

deployment-Deploys :
    Deploys storage engine toy_bincode deployment deployed_id 10 4 head_store with_code
unfolding deploy_contract contract_id_of put_contract_code
deployment-Deploys = record {
  wasm = 9 ∷ [];
  payload_lem = refl;
  sender_lem = alice_found;
  nonce_lem = refl;
  engine_lem = refl;
}

-- a store with the account that was written
abbrev after_deployment : SledStorage Log
after_deployment = record with_code {
  accounts_tree = (alice.bytes, some (5 ∷ 0 ∷ 0 ∷ alice.bytes)) ∷ [];
}

contract_found :
    get_account log_sled toy_bincode digits alice after_deployment
    ≡ ok (some (contract_account alice.bytes zero_hash 5))
unfolding get_account read_entry find bytes_eq
contract_found = refl

deploy_erases_balance_example :
    IsLost storage engine toy_bincode deployment payment deployed_id 4 [] [] head_store with_code
      after_deployment
deploy_erases_balance_example =
    deploy_erases_balance storage engine toy_bincode deployment payment deployed_id 10 4 3 [] []
      head_store with_code after_deployment deployment-Deploys contract_found refl refl

-- the deployment and a transaction with a nonce that is passed
abbrev stale : Transaction
stale = transaction_of alice (wallet bob) (contract_deploy []) bob.bytes 4 []

abbrev refused : Block
refused = block_of 5 51 head_hash alice.bytes (deployment ∷ stale ∷ [])

refused-RefusedDeploy :
    RefusedDeploy log_sled log_laws log_works toy_crypto toy_bincode digits refused deployment stale
      (9 ∷ [])
      (wallet_account 10 4)
      head_store
unfolding account_nonce
refused-RefusedDeploy = record {
  transactions_lem = refl;
  payload_lem = refl;
  deployer = wallet_account 10 4;
  deployer_lem = alice_found;
  nonce_lem = refl;
  key = alice.bytes;
  key_lem = refl;
  other_lem = alice_found;
  wrong_nonce = λ e. cc;
}

refused_block_deploys_example :
    let (r, w') = apply_block storage engine toy_bincode refused start in
    (r ≡ err (invalid_nonce alice 5 4))
    × (w'.chain_state ≡ start.chain_state)
    × (get_contract_code log_sled toy_bincode digits
          (contract_id_of toy_crypto alice (9 ∷ []))
          w'.storage
        ≡ ok (some (9 ∷ [])))
unfolding account_nonce
refused_block_deploys_example =
    refused_block_deploys log_sled log_laws log_works toy_crypto toy_bincode digits refused
      deployment stale (9 ∷ []) (wallet_account 10 4) start refused-RefusedDeploy
