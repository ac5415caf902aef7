-- ===== src/Cli/Transactions.antt =====
-- src/main.rs: the wallet commands, and the transactions that the CLI makes.
use baa_ls.Prelude.{Option, none, some, Bytes, Result, ok, ok_or, map_err, ◌>>=◌, replicate}
use baa_ls.Types.{
  CryptoError, invalid_public_key, PublicKey, ContractId, Address, wallet, contract,
  TransactionPayload, contract_deploy, contract_call, data_payload, Transaction, zero_hash, Crypto,
  Bincode,
}
use baa_ls.Types
use baa_ls.Types.Keys.{from_bytes, contract_id_from_bytes}
use baa_ls.Runtime.Calls.{generate_signing_key}
use baa_ls.SledStorage.{Hex}
use baa_ls.Cli.{
  CliError, io_error, hex_error, invalid_recipient_length, invalid_contract_id_length, crypto_error,
  runtime_error, format_hex, WalletCommands, generate, info, TransactionCommands, transfer, deploy,
  call, data_command, Environment, to_array, read_key,
}

module _ (c : Crypto) (hex : Hex) (env : Environment) where
  abbrev pub public_key : Bytes → PublicKey
  public_key signing_key = record { bytes = c.verifying_key signing_key }

  -- `Commands::Wallet`: the public and the private key as they are printed
  unfoldable pub run_wallet : WalletCommands → Result CliError (Bytes × Option Bytes)
  unfolding format_hex
  run_wallet generate = do
    signing_key ← map_err runtime_error (generate_signing_key env.random_key)
    ok (format_hex hex (public_key signing_key).bytes, some (format_hex hex signing_key))
  run_wallet (info key_file) = do
    signing_key ← read_key env key_file
    ok (format_hex hex (public_key signing_key).bytes, none)

  -- the fields that all four commands fill in alike
  abbrev pub unsigned : PublicKey → Address → TransactionPayload → Transaction
  unsigned sender recipient payload = record {
    hash = zero_hash;
    sender = sender;
    nonce = 0;
    timestamp = env.now;
    recipient = recipient;
    payload = payload;
    signature = record { bytes = replicate 64 0 };
    gas_limit = 0;
    priority = 0;
    metadata = none;
  }

  -- `Commands::Transaction`: the transaction that is made
  unfoldable pub make_transaction : TransactionCommands → Result CliError Transaction
  make_transaction (transfer key_file to amount) = do
    signing_key ← read_key env key_file
    recipient_bytes ← ok_or (hex.decode to) hex_error
    recipient_array ← to_array recipient_bytes invalid_recipient_length
    recipient_key ← map_err crypto_error (from_bytes c recipient_array)
    ok (unsigned (public_key signing_key) (wallet recipient_key) (Types.transfer amount))
  make_transaction (deploy key_file contract_file) = do
    signing_key ← read_key env key_file
    wasm_bytes ← ok_or (env.read_file contract_file) io_error
    ok (
        unsigned (public_key signing_key) (contract (contract_id_from_bytes zero_hash))
          (contract_deploy wasm_bytes))
  make_transaction (call key_file contract_id method args) = do
    signing_key ← read_key env key_file
    contract_id_bytes ← ok_or (hex.decode contract_id) hex_error
    contract_id_array ← to_array contract_id_bytes invalid_contract_id_length
    ok (
        unsigned (public_key signing_key) (contract (contract_id_from_bytes contract_id_array))
          (contract_call method args))
  make_transaction (data_command key_file payload) = do
    signing_key ← read_key env key_file
    data_bytes ← ok_or (hex.decode payload) hex_error
    ok (
        unsigned (public_key signing_key) (wallet (public_key signing_key))
          (data_payload data_bytes))
