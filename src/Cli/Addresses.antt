-- ===== src/Cli/Addresses.antt =====
-- src/main.rs: the key that a wallet command prints, as the address of other commands.
use baa_ls.Prelude.{
  ◌≡◌, refl, ℕ, true, none, some, Option, Bytes, length, ok, map_err, ◌>>=◌, arith,
}
use baa_ls.Types.{Transaction, Crypto, Bincode}
use baa_ls.Types.Keys.{from_bytes, key_address}
use baa_ls.Storage.{Storage}
use baa_ls.SledStorage.{Hex}
use baa_ls.Contracts.{ContractEngine}
use baa_ls.Consensus.{ConsensusEngine}
use baa_ls.Runtime.{Runtime}
use baa_ls.Runtime.Calls
use baa_ls.Cli.{
  runtime_error, WalletCommands, generate, info, transfer, account, Environment, format_hex,
  invalid_recipient_length, to_array, read_key,
}
use baa_ls.Cli.Transactions.{run_wallet, make_transaction, public_key, unsigned}
use baa_ls.Types
use baa_ls.Cli.Queries.{run_query_on, account_report}

-- The private key that a wallet command takes up.
abbrev pub UsesKey : Environment → WalletCommands → Bytes → Type 0
UsesKey env generate signing_key = env.random_key ≡ signing_key
UsesKey env (info key_file) signing_key = read_key env key_file ≡ ok signing_key

module _ (c : Crypto) (hex : Hex) (env : Environment)
    (decode-encode : (bytes : Bytes) → hex.decode (hex.encode bytes) ≡ some bytes)
    (signing_key : Bytes) (is_array : length (c.verifying_key signing_key) ≡ 32)
    (is_key : c.is_verifying_key (c.verifying_key signing_key) ≡ true) where
  prints_key :
      (action : WalletCommands)
      → UsesKey env action signing_key
      → (secret : Option Bytes) × (run_wallet c hex env action
          ≡ ok (format_hex hex (c.verifying_key signing_key), secret))
  unfolding run_wallet
  prints_key generate uses = (some (format_hex hex signing_key), ground arith)
  prints_key (info key_file) uses = (none, ground arith)

  recipient_lem :
      to_array (c.verifying_key signing_key) invalid_recipient_length
      ≡ ok (c.verifying_key signing_key)
  recipient_lem = ground arith

  found_key : from_bytes c (c.verifying_key signing_key) ≡ ok (public_key c hex env signing_key)
  unfolding from_bytes
  found_key = ground arith

  -- Where hex decodes what it encodes, and the public key of a private key has 32 bytes that
  -- from_bytes takes, the text that a wallet command prints for that private key names the public
  -- key in other commands: a transfer to it, from a sender whose key file can be read, goes to the
  -- wallet of the key, and an account query reports what get_account answers for it.
  pub printed_key_is_address :
      {S : Type 0} (store : Storage S) (engine : ContractEngine S) (consensus : ConsensusEngine)
      (b : Bincode) (action : WalletCommands) (sender_file sender_key : Bytes) (amount : ℕ)
      (runtime : Runtime S)
      → UsesKey env action signing_key
      → read_key env sender_file ≡ ok sender_key
      → (text : Bytes) × (secret : Option Bytes) × (tx : Transaction) × (run_wallet c hex env action
          ≡ ok (text, secret))
        × (make_transaction c hex env (transfer sender_file text amount) ≡ ok tx)
        × (tx.recipient ≡ key_address (public_key c hex env signing_key))
        × (run_query_on store engine consensus c b hex (account text) runtime ≡ (do
          found ← map_err runtime_error (
              Calls.get_account store engine consensus c b
                (public_key c hex env signing_key)
                runtime)
          ok (account_report hex text found)))
  unfolding make_transaction run_query_on format_hex from_bytes
  printed_key_is_address store engine consensus b action sender_file sender_key amount runtime uses
        reads =
      let (secret, prints) = prints_key action uses in
      (
        format_hex hex (c.verifying_key signing_key),
        secret,
        unsigned c hex env (public_key c hex env sender_key)
            (key_address (public_key c hex env signing_key)) (Types.transfer amount),
        prints,
        ground
            (arith, reads, recipient_lem, found_key, decode-encode (c.verifying_key signing_key)),
        refl,
        ground (arith, found_key, decode-encode (c.verifying_key signing_key)),
      )
