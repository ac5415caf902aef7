-- ===== src/Tests/Commands.antt =====
-- The commands of the CLI.
use baa_ls.Prelude.{
  bytes_eq, if◌then◌else◌, ◌≡◌, Option, Bytes, map_err, ◌>>=◌, refl, codes, none, some, [], ◌∷◌, ok,
  err, replicate,
}
use baa_ls.Types.{wallet_account, Transaction, wallet, zero_hash, data_payload}
use baa_ls.Cli.{
  CliError, Environment, generate, transfer, account, data_command, query_command, block, read_key,
}
use baa_ls.Cli.Transactions.{run_wallet, public_key, make_transaction}
use baa_ls.SledStorage.{SledStorage, Sled, height_key, chain_state_key}
use baa_ls.SledStorage.Operations
use baa_ls.SledStorage.Operations.{get_chain_state, get_block_by_height, read_entry}
use baa_ls.Cli.Reports.{written}
use baa_ls.SledStorage.Laws.{SledLaws, Works}
use baa_ls.Cli.Main.{main}
use baa_ls.Cli.Effects.{IsFresh, main_fails_without_chain_state}
use baa_ls.Fixtures.Log.{Log, log_sled, log_laws, log_works, digits, decode, decode-encode}
use baa_ls.Fixtures.Codecs.{toy_crypto, toy_bincode, alice}
use baa_ls.Fixtures.Data.{
  head_hash, head_block, head_state, empty_store, storage, engine, consensus,
}
use baa_ls.Tests.Node.{fresh}
use baa_ls.Tests.Running.{waiting}
use baa_ls.Runtime.Calls.{get_account}
use baa_ls.Types.Keys.{key_address}
use baa_ls.Cli.Queries.{run_query_on, account_report}
use baa_ls.Cli.Addresses.{printed_key_is_address}
use baa_ls.Cli.Stores.{Keeps, main-Keeps}

-- every file holds alice's key
abbrev env : Environment
env = record { read_file = λ path. some alice.bytes; now = 100; random_key = alice.bytes }

abbrev note : Transaction
note = record {
  hash = zero_hash;
  sender = alice;
  nonce = 0;
  timestamp = 100;
  recipient = wallet alice;
  payload = data_payload (18 ∷ []);
  signature = record { bytes = replicate 64 0 };
  gas_limit = 0;
  priority = 0;
  metadata = none;
}

note_made : make_transaction toy_crypto digits env (data_command [] (1 ∷ 2 ∷ [])) ≡ ok note
unfolding make_transaction read_key decode
note_made = refl

key_read : read_key env [] ≡ ok alice.bytes
unfolding read_key
key_read = refl

opened : Operations.new log_sled toy_bincode digits (codes "./data") ≡ ok empty_store
unfolding Operations.new
opened = refl

main_fails_without_chain_state_example :
    (e : CliError) × ((main log_sled toy_crypto toy_bincode digits env (query_command (block 0))).0
      ≡ err e)
    × IsFresh log_sled toy_crypto toy_bincode digits env
        (main log_sled toy_crypto toy_bincode digits env (query_command (block 0))).1
main_fails_without_chain_state_example =
    main_fails_without_chain_state log_sled toy_crypto toy_bincode digits env
      (query_command (block 0)) (codes "./data") empty_store refl opened fresh

printed_key_is_address_example :
    (text : Bytes) × (secret : Option Bytes) × (tx : Transaction) × (run_wallet toy_crypto digits
        env generate
      ≡ ok (text, secret))
    × (make_transaction toy_crypto digits env (transfer [] text 3) ≡ ok tx)
    × (tx.recipient ≡ key_address (public_key toy_crypto digits env alice.bytes))
    × (run_query_on storage engine consensus toy_crypto toy_bincode digits (account text) waiting
        ≡ (do
          found ← map_err CliError.runtime_error (
              get_account storage engine consensus toy_crypto toy_bincode
                (public_key toy_crypto digits env alice.bytes)
                waiting)
          ok (account_report digits text found)))
printed_key_is_address_example =
    printed_key_is_address toy_crypto digits env decode-encode alice.bytes refl refl storage engine
      consensus toy_bincode generate [] alice.bytes 3 waiting refl key_read

main-Keeps_example :
    Keeps log_sled toy_crypto toy_bincode digits empty_store
      (main log_sled toy_crypto toy_bincode digits env (query_command (block 0)))
main-Keeps_example =
    main-Keeps log_sled toy_crypto toy_bincode digits env (query_command (block 0)) (codes "./data")
      empty_store refl opened

-- a data directory that has its trees: the head block, its chain state and alice's account
abbrev kept_tree : Log → Bytes → Option Log
kept_tree db name =
    if bytes_eq name (codes "blocks")
    then some
        ((height_key 4, some (4 ∷ 50 ∷ head_hash)) ∷ (head_hash, some (4 ∷ 50 ∷ head_hash)) ∷ [])
    else if bytes_eq name (codes "accounts")
    then some ((alice.bytes, some (10 ∷ 4 ∷ [])) ∷ [])
    else if bytes_eq name (codes "chain_state")
    then some ((chain_state_key, some (4 ∷ head_hash)) ∷ [])
    else some []

abbrev kept_sled : Sled Log
kept_sled = record log_sled { open_tree = kept_tree }

abbrev kept_laws : SledLaws kept_sled
kept_laws = record {
  find = log_laws.find;
  get_lem = log_laws.get_lem;
  insert_lem = log_laws.insert_lem;
  remove_lem = log_laws.remove_lem;
  apply_batch_lem = log_laws.apply_batch_lem;
}

abbrev kept_works : Works kept_sled
kept_works = record {
  get_works = log_works.get_works;
  insert_works = log_works.insert_works;
  remove_works = log_works.remove_works;
  apply_batch_works = log_works.apply_batch_works;
}

abbrev kept : SledStorage Log
kept =
    written kept_sled kept_laws kept_works toy_crypto toy_bincode digits head_state head_block alice
      (wallet_account 10 4) empty_store
