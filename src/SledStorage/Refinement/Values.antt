-- ===== src/SledStorage/Refinement/Values.antt =====
-- The writes of src/storage.rs to accounts, transactions, the chain state and contract code, against
-- their specification.
use baa_ls.Prelude.{
  refl, ◌∙◌, if◌then◌else◌, none, some, Bytes, bytes_eq, bytes_eq_refl, ok, err, arith, inl, inr,
  Option-cases,
}
use baa_ls.Types.{Hash, PublicKey, ContractId, Transaction, ChainState, Account, Bincode}
use baa_ls.Storage.{serialization_error}
use baa_ls.SledStorage.{Sled, Hex, SledStorage, decode_entry, chain_state_key}
use baa_ls.SledStorage.Laws.{SledLaws, Works, HexLaws}
use baa_ls.SledStorage.Operations.{
  read_entry, get_transaction, get_account, get_chain_state, get_contract_code, put_transaction,
  put_account, delete_account, put_chain_state, put_contract_code,
}
use baa_ls.SledStorage.RoundTrip.{insert_returns, remove_returns}
use baa_ls.SledStorage.Specification
use baa_ls.SledStorage.Specification.{
  Write, IsSized, Answer, View, specified, specified_run, perform, run, Represents, Agrees,
}
use baa_ls.SledStorage.Refinement.Views.{
  with_transactions, with_accounts, with_chain_state, with_contract_code,
}
use baa_ls.SledStorage.Refinement.Reads.{
  agree, else_eq, store, Refined, read-insert, raw-insert, read-remove,
}

module _ {Tree : Type 0} (sled : Sled Tree) (laws : SledLaws sled) (works : Works sled)
    (b : Bincode) (hex : Hex) (hex_laws : HexLaws hex) where
  pub put_account-Refined :
      (address : PublicKey) (x : Account) (v : View) (s : SledStorage Tree)
      → Represents (store sled b hex) v s
      → Refined sled b hex (Specification.put_account address x) v s
  unfolding put_account specified read_entry get_account
  put_account-Refined address x v s h = elim (Option-cases (b.account_codec.serialize x)) [
    | inl fails ↦
        agree (store sled b hex) {p' = (err serialization_error, s)}
          {q' = (err serialization_error, v)} (ground arith) (ground arith) (refl, h)
    | inr (encoded, e) ↦
        let (t', f) = insert_returns sled laws works s.accounts_tree address.bytes encoded in
        let answer : PublicKey → Answer Account = λ other.
          if bytes_eq address.bytes other.bytes
          then decode_entry b.account_codec (some encoded)
          else v.account other in
        agree (store sled b hex) {p' = (ok tt, record s { accounts_tree = t' })}
          {q' = (ok tt, record v { account = answer })} (ground arith) (ground arith)
          (
            refl,
            with_accounts sled b hex v s t' answer h (λ other.
                read-insert sled laws works b hex b.account_codec s.accounts_tree address.bytes
                  encoded t' other.bytes f
                ∙ else_eq (bytes_eq address.bytes other.bytes) _ (h.account_lem other)),
          )
  ]

  pub put_transaction-Refined :
      (tx : Transaction) (v : View) (s : SledStorage Tree)
      → Represents (store sled b hex) v s
      → Refined sled b hex (Specification.put_transaction tx) v s
  unfolding put_transaction specified read_entry get_transaction
  put_transaction-Refined tx v s h = elim (Option-cases (b.transaction_codec.serialize tx)) [
    | inl fails ↦
        agree (store sled b hex) {p' = (err serialization_error, s)}
          {q' = (err serialization_error, v)} (ground arith) (ground arith) (refl, h)
    | inr (encoded, e) ↦
        let (t', f) = insert_returns sled laws works s.transactions_tree tx.hash encoded in
        let answer : Hash → Answer Transaction = λ hash.
          if bytes_eq tx.hash hash
          then decode_entry b.transaction_codec (some encoded)
          else v.transaction hash in
        agree (store sled b hex) {p' = (ok tt, record s { transactions_tree = t' })}
          {q' = (ok tt, record v { transaction = answer })} (ground arith) (ground arith)
          (
            refl,
            with_transactions sled b hex v s t' answer h (λ hash.
                read-insert sled laws works b hex b.transaction_codec s.transactions_tree tx.hash
                  encoded t' hash f
                ∙ else_eq (bytes_eq tx.hash hash) _ (h.transaction_lem hash)),
          )
  ]

  pub put_chain_state-Refined :
      (state : ChainState) (v : View) (s : SledStorage Tree)
      → Represents (store sled b hex) v s
      → Refined sled b hex (Specification.put_chain_state state) v s
  unfolding put_chain_state specified read_entry get_chain_state
  put_chain_state-Refined state v s h = elim (Option-cases (b.chain_state_codec.serialize state)) [
    | inl fails ↦
        agree (store sled b hex) {p' = (err serialization_error, s)}
          {q' = (err serialization_error, v)} (ground arith) (ground arith) (refl, h)
    | inr (encoded, e) ↦
        let (t', f) = insert_returns sled laws works s.chain_state_tree chain_state_key encoded in
        let answer : Answer ChainState = decode_entry b.chain_state_codec (some encoded) in
        agree (store sled b hex) {p' = (ok tt, record s { chain_state_tree = t' })}
          {q' = (ok tt, record v { chain_state = answer })} (ground arith) (ground arith)
          (
            refl,
            with_chain_state sled b hex v s t' answer h (
                read-insert sled laws works b hex b.chain_state_codec s.chain_state_tree
                  chain_state_key encoded t' chain_state_key f
                ∙ rw (bytes_eq_refl chain_state_key) refl),
          )
  ]

  pub delete_account-Refined :
      (address : PublicKey) (v : View) (s : SledStorage Tree)
      → Represents (store sled b hex) v s
      → Refined sled b hex (Specification.delete_account address) v s
  unfolding delete_account specified read_entry get_account
  delete_account-Refined address v s h =
      let (t', f) = remove_returns sled laws works s.accounts_tree address.bytes in
      let answer : PublicKey → Answer Account =
        λ other. if bytes_eq address.bytes other.bytes then ok none else v.account other in
      agree (store sled b hex) {p' = (ok tt, record s { accounts_tree = t' })}
        {q' = (ok tt, record v { account = answer })} (ground arith) refl
        (
          refl,
          with_accounts sled b hex v s t' answer h (λ other.
              read-remove sled laws works b hex b.account_codec s.accounts_tree address.bytes t'
                other.bytes f
              ∙ else_eq (bytes_eq address.bytes other.bytes) _ (h.account_lem other)),
        )

  pub put_contract_code-Refined :
      (id : ContractId) (code : Bytes) (v : View) (s : SledStorage Tree)
      → Represents (store sled b hex) v s
      → Refined sled b hex (Specification.put_contract_code id code) v s
  unfolding put_contract_code specified read_entry get_contract_code
  put_contract_code-Refined id code v s h =
      let (t', f) = insert_returns sled laws works s.contract_code_tree id.id code in
      let answer : ContractId → Answer Bytes =
        λ other. if bytes_eq id.id other.id then ok (some code) else v.contract_code other in
      agree (store sled b hex) {p' = (ok tt, record s { contract_code_tree = t' })}
        {q' = (ok tt, record v { contract_code = answer })} (ground arith) refl
        (
          refl,
          with_contract_code sled b hex v s t' answer h (λ other.
              raw-insert sled laws works b hex s.contract_code_tree id.id code t' other.id f
              ∙ else_eq (bytes_eq id.id other.id) _ (h.contract_code_lem other)),
        )
