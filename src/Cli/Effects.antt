-- ===== src/Cli/Effects.antt =====
-- What becomes of the commands of src/main.rs.
use baa_ls.Prelude.{
  ◌≡◌, ◌≢◌, subst, sym, none, some, Option, Bytes, codes, ok, err, returns, arith, replicate, inl,
  inr, Result-cases,
}
use baa_ls.Types.{CryptoError, PublicKey, Transaction, Crypto, Bincode}
use baa_ls.Storage.{Storage}
use baa_ls.SledStorage.{Sled, Hex, SledStorage}
use baa_ls.SledStorage.Operations.{get_chain_state}
use baa_ls.Contracts.{ContractEngine}
use baa_ls.Consensus.{ConsensusEngine}
use baa_ls.Runtime.{Runtime}
use baa_ls.Runtime.Calls.{submit_transaction}
use baa_ls.Runtime.Calls
use baa_ls.Runtime.Submission.{submit_needs}
use baa_ls.Node.{node_storage, node_engine}
use baa_ls.Node.Start.{new_fails_on_fresh_store}
use baa_ls.Cli.{
  CliError, TransactionCommands, transfer, deploy, call, data_command, Commands, wallet_command,
  transaction_command, query_command, dev_command, start, generate_block, chain_state, Environment,
}
use baa_ls.Cli.Transactions.{make_transaction}
use baa_ls.Types.Keys.{from_bytes}
use baa_ls.Cli.Main.{main, start_runtime, start_store, consensus_of, run_dev}
use baa_ls.SledStorage.Operations

made_nonce :
    (c : Crypto) (hex : Hex) (env : Environment) (command : TransactionCommands) (tx : Transaction)
    → make_transaction c hex env command ≡ ok tx
    → tx.nonce ≡ 0
unfolding make_transaction
made_nonce c hex env (transfer key_file to amount) tx h = ground arith
made_nonce c hex env (deploy key_file contract_file) tx h = ground arith
made_nonce c hex env (call key_file contract_id method args) tx h = ground arith
made_nonce c hex env (data_command key_file payload) tx h = ground arith

submit_zero :
    {S : Type 0} (storage : Storage S) (engine : ContractEngine S) (consensus : ConsensusEngine)
    (c : Crypto) (b : Bincode) (tx : Transaction) (w : Runtime S)
    → tx.nonce ≡ 0
    → (submit_transaction storage engine consensus c b tx w).1 ≡ w
unfolding submit_transaction
submit_zero storage engine consensus c b tx w zero = ground arith

-- A transaction that a command of the CLI made is refused by submit_transaction in every state,
-- and the state is unchanged.
pub made_transaction_refused :
    {S : Type 0} (storage : Storage S) (engine : ContractEngine S) (consensus : ConsensusEngine)
    (c : Crypto) (b : Bincode) (hex : Hex) (env : Environment) (command : TransactionCommands)
    (tx : Transaction) (w : Runtime S)
    → make_transaction c hex env command ≡ ok tx
    → ((submit_transaction storage engine consensus c b tx w).0 ≢ returns (ok tt))
      × ((submit_transaction storage engine consensus c b tx w).1 ≡ w)
made_transaction_refused storage engine consensus c b hex env command tx w made =
    let zero = made_nonce c hex env command tx made in
    (
      λ h. omega (arith, (submit_needs storage engine consensus c b tx w h).fresh, zero),
      submit_zero storage engine consensus c b tx w zero,
    )

module _ {Tree : Type 0} (sled : Sled Tree) (c : Crypto) (b : Bincode) (hex : Hex)
    (env : Environment) where
  -- The commands that open a data directory.
  abbrev pub opens : Commands → Option Bytes
  opens (wallet_command action) = none
  opens (transaction_command action) = none
  opens (query_command action) = some (codes "./data")
  opens (dev_command (start data_dir)) = some data_dir
  opens (dev_command generate_block) = none
  opens (dev_command chain_state) = some (codes "./data")

  -- No chain state is found in the store, where it was opened.
  abbrev pub IsFresh : Option (SledStorage Tree) → Type 0
  IsFresh none = Unit
  IsFresh (some s) = get_chain_state sled b hex s ≡ ok none

  pub left_store :
      (path : Bytes) (s : SledStorage Tree) (key : PublicKey)
      → Operations.new sled b hex path ≡ ok s
      → from_bytes c (replicate 32 1) ≡ ok key
      → (start_runtime sled c b hex env path).1
        ≡ some
            (Calls.new
              (node_storage sled b hex)
              (node_engine sled c)
              (consensus_of sled c b hex env key)
              c
              b
              s).1
  unfolding start_runtime start_store
  left_store path s key opened p = ground arith

  pub left_none :
      (path : Bytes) (x : CryptoError)
      → from_bytes c (replicate 32 1) ≡ err x
      → (start_runtime sled c b hex env path).1 ≡ none
  unfolding start_runtime
  left_none path x p = ground arith

  pub start_fails :
      (path : Bytes) (s : SledStorage Tree)
      → Operations.new sled b hex path ≡ ok s
      → get_chain_state sled b hex s ≡ ok none
      → (e : CliError) × ((start_runtime sled c b hex env path).0 ≡ err e)
        × IsFresh (start_runtime sled c b hex env path).1
  unfolding start_runtime start_store
  start_fails path s opened fresh = elim (Result-cases (from_bytes c (replicate 32 1))) [
    | inl (key, p) ↦
        let (e, failed, still) =
          new_fails_on_fresh_store sled (consensus_of sled c b hex env key) c b hex s fresh in
        (
          CliError.runtime_error e,
          ground arith,
          subst IsFresh (sym (left_store path s key opened p)) still,
        )
    | inr (x, p) ↦
        (CliError.crypto_error x, ground arith, subst IsFresh (sym (left_none path x p)) tt)
  ]

  -- Every command of the CLI that opens a data directory, where it opens as a store in which
  -- get_chain_state finds nothing, ends in an error, and get_chain_state still finds nothing in
  -- the store that it leaves.
  pub main_fails_without_chain_state :
      (command : Commands) (path : Bytes) (s : SledStorage Tree)
      → opens command ≡ some path
      → Operations.new sled b hex path ≡ ok s
      → get_chain_state sled b hex s ≡ ok none
      → (e : CliError) × ((main sled c b hex env command).0 ≡ err e)
        × IsFresh (main sled c b hex env command).1
  unfolding main run_dev
  main_fails_without_chain_state (wallet_command action) path s at opened fresh = absurd (cc)
  main_fails_without_chain_state (transaction_command action) path s at opened fresh = absurd (cc)
  main_fails_without_chain_state (query_command action) path s at opened fresh =
      let (e, failed, still) = start_fails (codes "./data") s (ground arith) fresh in
      (e, ground arith, still)
  main_fails_without_chain_state (dev_command (start data_dir)) path s at opened fresh =
      let (e, failed, still) = start_fails data_dir s (ground arith) fresh in
      (e, ground arith, still)
  main_fails_without_chain_state (dev_command generate_block) path s at opened fresh = absurd (cc)
  main_fails_without_chain_state (dev_command chain_state) path s at opened fresh =
      let (e, failed, still) = start_fails (codes "./data") s (ground arith) fresh in
      (e, ground arith, still)
