-- ===== src/Cli.antt =====
-- src/main.rs: the commands of the CLI. The environment gives the files, the clock and the random
-- key; what a command prints is its report.
pub mod Transactions
pub mod Queries
pub mod Main
pub mod Effects
pub mod Addresses
pub mod Stores
pub mod Reports
use baa_ls.Prelude.{
  ℕ, ◌==◌, Bool, true, false, Option, none, some, Bytes, length, Result, ok, err, ok_or, map_err,
  ◌>>=◌, if◌then◌else◌,
}
use baa_ls.Types.{PublicKey, CryptoError, Block, Account, Hash}
use baa_ls.Runtime.{RuntimeError}
use baa_ls.Storage.{StorageError}
use baa_ls.SledStorage.{Hex}

pub data CliError : Type 0 where
  io_error invalid_key_length hex_error invalid_recipient_length invalid_contract_id_length
        invalid_address_length :
      CliError
  crypto_error : CryptoError → CliError
  runtime_error : RuntimeError → CliError
  storage_error : StorageError → CliError

pub data WalletCommands : Type 0 where
  generate : WalletCommands
  -- key file
  info : Bytes → WalletCommands

pub data TransactionCommands : Type 0 where
  -- key file, recipient, amount
  transfer : Bytes → Bytes → ℕ → TransactionCommands
  -- key file, contract file
  deploy : Bytes → Bytes → TransactionCommands
  -- key file, contract id, method, arguments
  call : Bytes → Bytes → Bytes → Bytes → TransactionCommands
  -- key file, data
  data_command : Bytes → Bytes → TransactionCommands

pub data QueryCommands : Type 0 where
  block : ℕ → QueryCommands
  account : Bytes → QueryCommands
  -- contract id, key
  storage : Bytes → Bytes → QueryCommands
  -- contract id, payload
  contract : Bytes → Bytes → QueryCommands

pub data DevCommands : Type 0 where
  -- data directory
  start : Bytes → DevCommands
  generate_block chain_state : DevCommands

pub data Commands : Type 0 where
  wallet_command : WalletCommands → Commands
  transaction_command : TransactionCommands → Commands
  query_command : QueryCommands → Commands
  dev_command : DevCommands → Commands

pub record Environment : Type 0 where
  pub read_file : Bytes → Option Bytes
  -- seconds since the epoch
  pub now : ℕ
  -- the 32 bytes that the random generator fills in
  pub random_key : Bytes

-- `format_hex` of src/types.rs
unfoldable pub format_hex : Hex → Bytes → Bytes
format_hex hex bytes = hex.encode bytes

-- `slice.try_into().map_err(..)?` into a `[u8; 32]`
abbrev pub to_array : Bytes → CliError → Result CliError Bytes
to_array bytes e = if length bytes == 32 then ok bytes else err e

-- `std::fs::read(key_file)?`, as a key
unfoldable pub read_key : Environment → Bytes → Result CliError Bytes
read_key env key_file = do
  key_bytes ← ok_or (env.read_file key_file) io_error
  to_array key_bytes invalid_key_length
