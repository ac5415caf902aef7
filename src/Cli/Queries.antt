-- ===== src/Cli/Queries.antt =====
-- src/main.rs: the query commands, over a runtime that is started.
use baa_ls.Prelude.{ℕ, none, some, err, length, Option, Bytes, Result, ok, ok_or, map_err, ◌>>=◌}
use baa_ls.Types.{Block, Account, wallet_account, contract_account, Crypto, Bincode}
use baa_ls.Storage.{Storage}
use baa_ls.SledStorage.{Hex}
use baa_ls.Contracts.{ContractEngine, ContractError}
use baa_ls.Consensus.{ConsensusEngine}
use baa_ls.Runtime.{Runtime}
use baa_ls.Runtime.Calls
use baa_ls.Cli.{
  CliError, hex_error, invalid_address_length, invalid_contract_id_length, crypto_error,
  runtime_error, QueryCommands, block, account, storage, contract, to_array, format_hex,
}
use baa_ls.Types.Keys.{from_bytes, contract_id_from_bytes}

-- What a query prints: the texts are hexadecimal.
pub data Report : Type 0 where
  -- height, hash, timestamp, number of transactions
  block_found : ℕ → Bytes → ℕ → ℕ → Report
  -- address, balance, nonce
  wallet_found : Bytes → ℕ → ℕ → Report
  -- address, code hash, storage root hash, nonce
  contract_found : Bytes → Bytes → Bytes → ℕ → Report
  storage_value query_result : Bytes → Report
  query_error : ContractError → Report
  block_not_found account_not_found key_not_found : Report

module _ (hex : Hex) where
  unfoldable pub block_report : ℕ → Option Block → Report
  unfolding format_hex
  block_report height none = block_not_found
  block_report height (some found) =
      block_found height (format_hex hex found.hash) found.timestamp (length found.transactions)

  unfoldable pub account_report : Bytes → Option Account → Report
  unfolding format_hex
  account_report address none = account_not_found
  account_report address (some (wallet_account balance nonce)) = wallet_found address balance nonce
  account_report address (some (contract_account code_hash storage_root_hash nonce)) =
      contract_found address (format_hex hex code_hash) (format_hex hex storage_root_hash) nonce

  unfoldable pub storage_report : Option Bytes → Report
  storage_report none = key_not_found
  storage_report (some value) = storage_value (hex.encode value)

  unfoldable pub contract_report : Result ContractError Bytes → Report
  contract_report (ok result) = query_result (hex.encode result)
  contract_report (err e) = query_error e

module _ {S : Type 0} (store : Storage S) (engine : ContractEngine S) (consensus : ConsensusEngine)
    (c : Crypto) (b : Bincode) (hex : Hex) where
  -- the query on a started runtime
  unfoldable pub run_query_on : QueryCommands → Runtime S → Result CliError Report
  run_query_on (block height) runtime = do
    found ←
        map_err runtime_error (Calls.get_block_by_height store engine consensus c b height runtime)
    ok (block_report hex height found)
  run_query_on (account address) runtime = do
    address_bytes ← ok_or (hex.decode address) hex_error
    address_array ← to_array address_bytes invalid_address_length
    public_key ← map_err crypto_error (from_bytes c address_array)
    found ← map_err runtime_error (Calls.get_account store engine consensus c b public_key runtime)
    ok (account_report hex address found)
  run_query_on (storage contract_id key) runtime = do
    contract_id_bytes ← ok_or (hex.decode contract_id) hex_error
    contract_id_array ← to_array contract_id_bytes invalid_contract_id_length
    key_bytes ← ok_or (hex.decode key) hex_error
    found ← map_err runtime_error (
        Calls.contract_storage_read store engine consensus c b
          (contract_id_from_bytes contract_id_array) key_bytes runtime)
    ok (storage_report hex found)
  run_query_on (contract contract_id payload) runtime = do
    contract_id_bytes ← ok_or (hex.decode contract_id) hex_error
    contract_id_array ← to_array contract_id_bytes invalid_contract_id_length
    payload_bytes ← ok_or (hex.decode payload) hex_error
    ok (
        contract_report hex
          (engine.query_contract (contract_id_from_bytes contract_id_array) payload_bytes store
            runtime.storage).0)
