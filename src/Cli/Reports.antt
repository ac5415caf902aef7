-- ===== src/Cli/Reports.antt =====
-- What the commands of src/main.rs print of a data directory that has a chain state, and of what
-- was written to it.
use baa_ls.Prelude.{◌≡◌, some, codes, ok, true, replicate}
use baa_ls.Types.{PublicKey, Block, Account, ChainState, Crypto, Bincode}
use baa_ls.SledStorage.{Sled, Hex, SledStorage}
use baa_ls.SledStorage.Laws.{SledLaws, Works, RoundTrips}
use baa_ls.SledStorage.Operations.{get_chain_state, put_chain_state, put_block, put_account}
use baa_ls.SledStorage.Operations
use baa_ls.Runtime.Calls
use baa_ls.Cli.{Environment}

module _ {Tree : Type 0} (sled : Sled Tree) (c : Crypto) (b : Bincode) (hex : Hex)
    (env : Environment) where
  -- The data directory opens as a store with this chain state.
  pub record IsOpened (s : SledStorage Tree) (state : ChainState) : Type 0 where
    pub dummy_lem : c.is_verifying_key (replicate 32 1) ≡ true
    pub opened : Operations.new sled b hex (codes "./data") ≡ ok s
    pub stored : get_chain_state sled b hex s ≡ ok (some state)

module _ {Tree : Type 0} (sled : Sled Tree) (laws : SledLaws sled) (works : Works sled) (c : Crypto)
    (b : Bincode) (hex : Hex) where
  -- The store after a chain state, a block and an account are written to it.
  abbrev pub written :
      ChainState → Block → PublicKey → Account → SledStorage Tree → SledStorage Tree
  written state blk key acc s =
      (put_account sled b hex key acc
        (put_block sled b hex blk (put_chain_state sled b hex state s).1).1).1

  -- bincode reads the three values back
  pub record AreReadable (state : ChainState) (blk : Block) (acc : Account) : Type 0 where
    pub state_trip : RoundTrips b.chain_state_codec state
    pub block_trip : RoundTrips b.block_codec blk
    pub account_trip : RoundTrips b.account_codec acc
