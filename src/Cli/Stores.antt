-- ===== src/Cli/Stores.antt =====
-- src/main.rs: the trees of the data directory after a command.
use baa_ls.Prelude.{
  ◌≡◌, ◌∙◌, ap, Result, ◌⊎◌, inl, inr, none, some, Option, Bytes, codes, ok, err, arith, replicate,
  Result-cases, Option-cases,
}
use baa_ls.Types.{CryptoError, PublicKey, Crypto, Bincode}
use baa_ls.SledStorage.{Sled, Hex, SledStorage, sled_batch}
use baa_ls.SledStorage.Operations.{get_chain_state, apply_batch}
use baa_ls.SledStorage.Operations
use baa_ls.Consensus.{ConsensusEngine}
use baa_ls.Storage.{StorageError, StorageBatch}
use baa_ls.Ledger.Validation.{genesis_batch, create_genesis, initialize_chain}
use baa_ls.Runtime.Calls
use baa_ls.Node.{node_storage, node_engine}
use baa_ls.Node.Start.{new_fails_on_fresh_store, new_loads_chain_state}
use baa_ls.Runtime.{Runtime}
use baa_ls.Cli.{
  CliError, Commands, wallet_command, transaction_command, query_command, dev_command, start,
  generate_block, chain_state, Environment,
}
use baa_ls.Types.Keys.{from_bytes}
use baa_ls.Cli.Main.{use_runtime, main, start_runtime, start_store, consensus_of, run_dev, Output}
use baa_ls.Cli.Effects.{opens, left_store, left_none}

module _ {Tree : Type 0} (sled : Sled Tree) (c : Crypto) (b : Bincode) (hex : Hex) where
  -- Both stores have the same trees, but for the default tree.
  abbrev pub SameTrees : SledStorage Tree → SledStorage Tree → Type 0
  SameTrees s s' = (db : Tree) × (s' ≡ record s { db = db })

  batch-SameTrees :
      (ops : StorageBatch) (s : SledStorage Tree) → SameTrees s (apply_batch sled b hex ops s).1
  unfolding apply_batch
  batch-SameTrees ops s = elim (Option-cases (sled.apply_batch s.db (sled_batch ops))) [
    | inl e ↦ (s.db, ground arith)
    | inr (t, e) ↦ (t, ground arith)
  ]

  genesis-SameTrees :
      (s : SledStorage Tree) → SameTrees s (create_genesis (node_storage sled b hex) c b s).1
  unfolding create_genesis
  genesis-SameTrees s = elim (Result-cases (genesis_batch c b)) [
    | inl (batch, e) ↦ (let (db, same) = batch-SameTrees batch s in (db, ground arith))
    | inr (x, e) ↦ (s.db, ground arith)
  ]

  initialize-SameTrees :
      (s : SledStorage Tree) → SameTrees s (initialize_chain (node_storage sled b hex) c b s).1
  unfolding initialize_chain
  initialize-SameTrees s = elim (Result-cases (get_chain_state sled b hex s)) [
    | inl (some state, e) ↦ (s.db, ground arith)
    | inl (none, e) ↦ (let (db, same) = genesis-SameTrees s in (db, ground arith))
    | inr (x, e) ↦ (s.db, ground arith)
  ]

  -- The store that a command leaves, if it leaves one, differs in the default tree only, and the
  -- command ends in an error or has changed no tree.
  abbrev pub Keeps : SledStorage Tree → Result CliError Output × Option (SledStorage Tree) → Type 0
  Keeps s r =
      ((r.1 ≡ none) ⊎ ((s' : SledStorage Tree) × (r.1 ≡ some s') × SameTrees s s'))
      × (((e : CliError) × (r.0 ≡ err e)) ⊎ (r.1 ≡ some s))

  module _ (env : Environment) where
    new-SameTrees :
        (consensus : ConsensusEngine) (s : SledStorage Tree)
        → SameTrees s (Calls.new (node_storage sled b hex) (node_engine sled c) consensus c b s).1
    unfolding Calls.new
    new-SameTrees consensus s = initialize-SameTrees s

    refused :
        (consensus : ConsensusEngine) (s : SledStorage Tree) (w : Runtime (SledStorage Tree))
        (x : StorageError)
        → get_chain_state sled b hex s ≡ err x
        → (Calls.new (node_storage sled b hex) (node_engine sled c) consensus c b s).0 ≡ ok w
        → (Calls.new (node_storage sled b hex) (node_engine sled c) consensus c b s).1 ≡ s
    unfolding Calls.new initialize_chain
    refused consensus s w x e h = ground arith

    new_succeeds :
        (consensus : ConsensusEngine) (s : SledStorage Tree) (w : Runtime (SledStorage Tree))
        → (Calls.new (node_storage sled b hex) (node_engine sled c) consensus c b s).0 ≡ ok w
        → (Calls.new (node_storage sled b hex) (node_engine sled c) consensus c b s).1 ≡ s
    new_succeeds consensus s w h = elim (Result-cases (get_chain_state sled b hex s)) [
      | inl (some state, e) ↦ ap (λ r. r.1) (new_loads_chain_state sled consensus c b hex s state e)
      | inl (none, e) ↦
          (let (x, failed, still) = new_fails_on_fresh_store sled consensus c b hex s e in
            absurd (cc))
      | inr (x, e) ↦ refused consensus s w x e h
    ]

    no_key :
        (path : Bytes) (x : CryptoError)
        (f : PublicKey → Runtime (SledStorage Tree) → Result CliError Output) (out : Output)
        → from_bytes c (replicate 32 1) ≡ err x
        → ¬ ((use_runtime sled c b hex env f (start_runtime sled c b hex env path)).0 ≡ ok out)
    unfolding start_runtime
    no_key path x f out p h = absurd (ground arith)

    use_runtime_succeeds :
        (path : Bytes) (s : SledStorage Tree) (key : PublicKey)
        (f : PublicKey → Runtime (SledStorage Tree) → Result CliError Output) (out : Output)
        → Operations.new sled b hex path ≡ ok s
        → from_bytes c (replicate 32 1) ≡ ok key
        → (use_runtime sled c b hex env f (start_runtime sled c b hex env path)).0 ≡ ok out
        → (Calls.new
            (node_storage sled b hex)
            (node_engine sled c)
            (consensus_of sled c b hex env key)
            c
            b
            s).1
          ≡ s
    unfolding start_runtime start_store
    use_runtime_succeeds path s key f out opened p h =
        elim (Result-cases
          (Calls.new (node_storage sled b hex) (node_engine sled c)
            (consensus_of sled c b hex env key) c b s).0) [
              | inl (w, e) ↦ new_succeeds (consensus_of sled c b hex env key) s w e
              | inr (x, e) ↦ absurd (ground arith)
            ]

    use-Keeps :
        (path : Bytes) (s : SledStorage Tree)
        (f : PublicKey → Runtime (SledStorage Tree) → Result CliError Output)
        → Operations.new sled b hex path ≡ ok s
        → Keeps s (use_runtime sled c b hex env f (start_runtime sled c b hex env path))
    use-Keeps path s f opened = elim (Result-cases (from_bytes c (replicate 32 1))) [
      | inl (key, p) ↦ (
        inr (
          (Calls.new (node_storage sled b hex) (node_engine sled c)
              (consensus_of sled c b hex env key) c b s).1,
          left_store sled c b hex env path s key opened p,
          new-SameTrees (consensus_of sled c b hex env key) s,
        ),
        elim (Result-cases
            (use_runtime sled c b hex env f (start_runtime sled c b hex env path)).0) [
              | inl (out, h) ↦ inr (
                  left_store sled c b hex env path s key opened p
                  ∙ ap some (use_runtime_succeeds path s key f out opened p h))
              | inr failed ↦ inl failed
            ],
      )
      | inr (x, p) ↦ (
        inl (left_none sled c b hex env path x p),
        elim (Result-cases
            (use_runtime sled c b hex env f (start_runtime sled c b hex env path)).0) [
              | inl (out, h) ↦ absurd (no_key path x f out p h)
              | inr failed ↦ inl failed
            ],
      )
    ]

    -- A command of the CLI that opens a data directory leaves no store, or one that differs from
    -- the opened store in the default tree at most; and it ends in an error, or leaves the opened
    -- store as it was.
    pub main-Keeps :
        (command : Commands) (path : Bytes) (s : SledStorage Tree)
        → opens sled c b hex env command ≡ some path
        → Operations.new sled b hex path ≡ ok s
        → Keeps s (main sled c b hex env command)
    unfolding main run_dev
    main-Keeps (wallet_command action) path s at opened = absurd (cc)
    main-Keeps (transaction_command action) path s at opened = absurd (cc)
    main-Keeps (query_command action) path s at opened =
        use-Keeps (codes "./data") s _ (ground arith)
    main-Keeps (dev_command (start data_dir)) path s at opened =
        use-Keeps data_dir s _ (ground arith)
    main-Keeps (dev_command generate_block) path s at opened = absurd (cc)
    main-Keeps (dev_command chain_state) path s at opened =
        use-Keeps (codes "./data") s _ (ground arith)
