-- ===== src/Cli/Main.antt =====
-- src/main.rs: `main`, with the store that a command leaves in the data directory.
use baa_ls.Prelude.{
  Option, none, some, Bytes, codes, Result, ok, err, map_err, ◌>>=◌, ◌>>◌, Outcome, returns,
  replicate,
}
use baa_ls.Types.{PublicKey, ChainState, Crypto, Bincode}
use baa_ls.SledStorage.{Sled, Hex, SledStorage}
use baa_ls.SledStorage.Operations
use baa_ls.Consensus.{ConsensusEngine, poa_engine}
use baa_ls.Runtime.{RuntimeError, Runtime}
use baa_ls.Runtime.Calls
use baa_ls.Node.{node_storage, node_engine}
use baa_ls.Cli.{
  CliError, crypto_error, runtime_error, storage_error, Commands, wallet_command,
  transaction_command, query_command, dev_command, DevCommands, start, generate_block, chain_state,
  Environment, format_hex,
}
use baa_ls.Types.Keys.{from_bytes}
use baa_ls.Cli.Transactions.{run_wallet, make_transaction}
use baa_ls.Cli.Queries.{Report, run_query_on}

-- What a command prints.
pub data Output : Type 0 where
  keys : Bytes → Option Bytes → Output
  -- the hash of the transaction that was made
  created : Bytes → Output
  report : Report → Output
  started not_implemented : Output
  chain_report : ChainState → Output
  -- a call that does not return prints nothing
  no_return : Output

-- what `dev chain-state` makes of the call
abbrev pub print_chain_state : Outcome RuntimeError ChainState → Result CliError Output
print_chain_state (returns (ok state)) = ok (chain_report state)
print_chain_state (returns (err e)) = err (runtime_error e)
print_chain_state _ = ok no_return

module _ {Tree : Type 0} (sled : Sled Tree) (c : Crypto) (b : Bincode) (hex : Hex)
    (env : Environment) where
  -- the dummy key of `PoAConsensus`
  abbrev dummy_key : Bytes
  dummy_key = replicate 32 1

  abbrev pub consensus_of : PublicKey → ConsensusEngine
  consensus_of key =
      poa_engine c b (record { authorized_signer_key = key; block_time_interval_ms = 1000 })

  -- A runtime, and the store once it is opened.
  abbrev pub Started : Type 0
  Started = Result CliError (PublicKey × Runtime (SledStorage Tree)) × Option (SledStorage Tree)

  unfoldable pub start_store : PublicKey → SledStorage Tree → Started
  start_store key s =
      let (r, s') =
        Calls.new (node_storage sled b hex) (node_engine sled c) (consensus_of key) c b s in
      ((do runtime ← map_err runtime_error r; ok (key, runtime)), some s')

  -- the key, `SledStorage::new` and `Runtime::new`
  unfoldable pub start_runtime : Bytes → Started
  start_runtime path = elim (from_bytes c dummy_key) [
    | err x ↦ (err (crypto_error x), none)
    | ok key ↦ elim (Operations.new sled b hex path) [
      | err x ↦ (err (storage_error x), none)
      | ok s ↦ start_store key s
    ]
  ]

  -- what is done with the runtime
  abbrev pub use_runtime :
      (PublicKey → Runtime (SledStorage Tree) → Result CliError Output)
      → Started
      → Result CliError Output × Option (SledStorage Tree)
  use_runtime f (r, left) = ((do x ← r; f x.0 x.1), left)

  -- `Runtime::start` prints a line
  unfoldable pub run_dev : DevCommands → Result CliError Output × Option (SledStorage Tree)
  unfolding start_runtime start_store
  run_dev (start data_dir) =
      use_runtime
        (λ key runtime. (do
          map_err runtime_error (
              Calls.start (node_storage sled b hex) (node_engine sled c) (consensus_of key) c b
                runtime)
          ok started))
        (start_runtime data_dir)
  run_dev generate_block = (ok not_implemented, none)
  run_dev chain_state =
      use_runtime
        (λ key runtime.
          print_chain_state
            (Calls.get_chain_state (node_storage sled b hex) (node_engine sled c) (consensus_of key)
              c b runtime).0)
        (start_runtime (codes "./data"))

  -- `main`, from the parsed command
  unfoldable pub main : Commands → Result CliError Output × Option (SledStorage Tree)
  unfolding run_dev start_runtime start_store format_hex
  main (wallet_command action) =
      ((do (public, secret) ← run_wallet c hex env action; ok (keys public secret)), none)
  main (transaction_command action) =
      ((do tx ← make_transaction c hex env action; ok (created (format_hex hex tx.hash))), none)
  main (query_command action) =
      use_runtime
        (λ key runtime. (do
          found ←
              run_query_on (node_storage sled b hex) (node_engine sled c) (consensus_of key) c b hex
                action runtime
          ok (report found)))
        (start_runtime (codes "./data"))
  main (dev_command action) = run_dev action
