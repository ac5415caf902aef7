-- ===== src/SledStorage/TransactionIndex.antt =====
-- `get_transactions_by_block` of `SledStorage` (src/storage.rs).
use baa_ls.Prelude.{
  ℕ, ◌≡◌, ◌↔◌, refl, sym, ap, ◌∙◌, inl, inr, map, none, some, Option, List, [], ◌∷◌, Bytes, length,
  Member, Result, ok, err, arith, ◌⊎◌, subst, Result-cases,
}
use baa_ls.Types.{Hash, Transaction, Bincode}
use baa_ls.Storage.{StorageError}
use baa_ls.SledStorage.{Sled, Hex, SledStorage}
use baa_ls.SledStorage.Laws.{SledLaws, ScanLaws, HexLaws, Listed}
use baa_ls.SledStorage.Operations.{
  get_transaction, index_key, collect_transactions, get_transactions_by_block,
}
use baa_ls.SledStorage.IndexEntries.{IsIndex, IsOf, prefix_of, key_split, one_block}

module _ {Tree : Type 0} (sled : Sled Tree) (laws : SledLaws sled) (scans : ScanLaws sled laws.find)
    (b : Bincode) (hex : Hex) (hex_laws : HexLaws hex) where
  -- Each transaction hash that is indexed under the block has an answer: a stored transaction that
  -- bincode reads, or none.
  abbrev pub IsReadable : Hash → SledStorage Tree → Type 0
  IsReadable block_hash s =
      (tx_hash : Hash) (i : ℕ)
      → laws.find s.tx_by_block_tree (index_key sled b hex tx_hash block_hash i) ≡ some tx_hash
      → (found : Option Transaction) × (get_transaction sled b hex tx_hash s ≡ ok found)

  -- A list holds the transactions of the block and all their hashes have an answer; an error says
  -- that not every hash has one.
  abbrev pub Answers : Hash → SledStorage Tree → Result StorageError (List Transaction) → Type 0
  Answers block_hash s (ok txs) =
      IsReadable block_hash s
      × ((tx : Transaction) → Member tx txs ↔ IsOf sled laws scans b hex hex_laws block_hash s tx)
  Answers block_hash s (err e) = ¬ IsReadable block_hash s

  -- what the loop returns on the entries of a scan
  abbrev Collects : List (Bytes × Bytes) → SledStorage Tree → List Transaction → Type 0
  Collects l s txs =
      (collect_transactions sled b hex (map some l) s ≡ ok txs)
      × ((tx : Transaction)
          → Member tx txs ↔ (
              (e : Bytes × Bytes) × Listed e l × (get_transaction sled b hex e.1 s ≡ ok (some tx))))

  skip :
      (key value : Bytes) (l : List (Bytes × Bytes)) (s : SledStorage Tree) (txs : List Transaction)
      → length value ≡ 32
      → get_transaction sled b hex value s ≡ ok none
      → Collects l s txs
      → Collects ((key, value) ∷ l) s txs
  unfolding collect_transactions
  skip key value l s txs size answer (done, iff) = (
    ground arith,
    λ tx. (
      λ m. let (e, listed, f) = (iff tx).0 m in (e, inr listed, f),
      λ (e, listed, f). elim listed [
        | inl q ↦ absurd (
            none-ne-some tx (
              sym answer
              ∙ (ap (λ (x : Bytes × Bytes). get_transaction sled b hex x.1 s) (sym q) ∙ f)))
        | inr later ↦ (iff tx).1 (e, later, f)
      ],
    ),
  )
    where
      none-ne-some :
          (tx : Transaction)
          → ¬ (◌≡◌ {A = Result StorageError (Option Transaction)} (ok none) (ok (some tx)))
      none-ne-some tx e = cc

  keep :
      (key value : Bytes) (l : List (Bytes × Bytes)) (s : SledStorage Tree) (txs : List Transaction)
      (t : Transaction)
      → length value ≡ 32
      → get_transaction sled b hex value s ≡ ok (some t)
      → Collects l s txs
      → Collects ((key, value) ∷ l) s (t ∷ txs)
  unfolding collect_transactions
  keep key value l s txs t size answer (done, iff) = (
    ground arith,
    λ tx. (
      λ m. elim m [
        | inl p ↦ ((key, value), inl refl, rw p answer)
        | inr m' ↦ let (e, listed, f) = (iff tx).0 m' in (e, inr listed, f)
      ],
      λ (e, listed, f). elim listed [
        | inl q ↦ inl (
            one_answer tx
              (sym f ∙ (ap (λ (x : Bytes × Bytes). get_transaction sled b hex x.1 s) q ∙ answer)))
        | inr later ↦ inr ((iff tx).1 (e, later, f))
      ],
    ),
  )
    where
      one_answer :
          (tx : Transaction)
          → ◌≡◌ {A = Result StorageError (Option Transaction)} (ok (some tx)) (ok (some t))
          → tx ≡ t
      one_answer tx e = cc

  -- The loop reads every hash, or some hash cannot be read.
  abbrev Loops :
      List (Bytes × Bytes) → SledStorage Tree → Result StorageError (List Transaction) → Type 0
  Loops l s (ok txs) =
      Collects l s txs
      × ((e : Bytes × Bytes)
          → Listed e l
          → (found : Option Transaction) × (get_transaction sled b hex e.1 s ≡ ok found))
  Loops l s (err x) =
      (e : Bytes × Bytes) × Listed e l
      × (y : StorageError) × (get_transaction sled b hex e.1 s ≡ err y)

  collected :
      (l : List (Bytes × Bytes)) (s : SledStorage Tree)
      → ((e : Bytes × Bytes) → Listed e l → length e.1 ≡ 32)
      → (r : Result StorageError (List Transaction)) × (collect_transactions sled b hex
            (map some l)
            s
          ≡ r)
        × Loops l s r
  unfolding collect_transactions
  collected [] s sized =
      (ok [], refl, ((refl, λ tx. (λ m. absurd m, λ (e, m, f). absurd m)), λ e m. absurd m))
  collected ((key, value) ∷ l) s sized =
      let (r, done, loops) = collected l s (λ e m. sized e (inr m)) in
      go r done loops (Result-cases (get_transaction sled b hex value s))
    where
      size : length value ≡ 32
      size = sized (key, value) (inl refl)

      all_read :
          (found : Option Transaction)
          → get_transaction sled b hex value s ≡ ok found
          → ((e : Bytes × Bytes)
              → Listed e l
              → (found : Option Transaction) × (get_transaction sled b hex e.1 s ≡ ok found))
          → (e : Bytes × Bytes) → Listed e ((key, value) ∷ l)
          → (found : Option Transaction) × (get_transaction sled b hex e.1 s ≡ ok found)
      all_read found answer rest e (inl p) =
          (found, ap (λ (x : Bytes × Bytes). get_transaction sled b hex x.1 s) p ∙ answer)
      all_read found answer rest e (inr m) = rest e m

      go :
          (r : Result StorageError (List Transaction))
          → collect_transactions sled b hex (map some l) s ≡ r
          → Loops l s r
          → ((found : Option Transaction) × (get_transaction sled b hex value s ≡ ok found))
            ⊎ ((y : StorageError) × (get_transaction sled b hex value s ≡ err y))
          → (r : Result StorageError (List Transaction)) × (collect_transactions sled b hex
                (map some ((key, value) ∷ l))
                s
              ≡ r)
            × Loops ((key, value) ∷ l) s r
      go (ok txs) done loops (inl (none, answer)) =
          let all = skip key value l s txs size answer loops.0 in
          (ok txs, all.0, (all, all_read none answer loops.1))
      go (ok txs) done loops (inl (some t, answer)) =
          let all = keep key value l s txs t size answer loops.0 in
          (ok (t ∷ txs), all.0, (all, all_read (some t) answer loops.1))
      go (ok txs) done loops (inr (y, answer)) =
          (err y, ground (arith, size, answer), ((key, value), inl refl, y, answer))
      go (err x) done loops (inl (found, answer)) =
          let (e, m, y, f) = loops in (err x, ground (arith, size, answer, done), (e, inr m, y, f))
      go (err x) done loops (inr (y, answer)) =
          (err y, ground (arith, size, answer), ((key, value), inl refl, y, answer))

  -- an entry of the scan is one of the block
  entry_of :
      (block_hash key value : Bytes) (s : SledStorage Tree)
      → length block_hash ≡ 32
      → IsIndex sled laws scans b hex hex_laws s.tx_by_block_tree
      → Listed
          (key, value)
          (scans.entries s.tx_by_block_tree (prefix_of sled laws scans b hex hex_laws block_hash))
      → (length value ≡ 32)
        × ((i : ℕ) × (laws.find s.tx_by_block_tree (index_key sled b hex value block_hash i)
              ≡ some value))
  entry_of block_hash key value s size index listed =
      let (found, (rest, starts)) =
        scans.sound s.tx_by_block_tree (prefix_of sled laws scans b hex hex_laws block_hash) key
          value listed in
      let e = index key value found in
      let same =
        one_block sled laws scans b hex hex_laws block_hash e.block_hash rest _
          (size ∙ sym e.block_hash_size)
          (sym starts
            ∙ (e.key_lem ∙ key_split sled laws scans b hex hex_laws e.tx_hash e.block_hash e.i)) in
      (
        rw e.value_lem e.tx_hash_size,
        (
          e.i,
          ap (laws.find s.tx_by_block_tree) (
                ap (λ (h : Hash). index_key sled b hex h block_hash e.i) e.value_lem
                ∙ (ap (λ (h : Hash). index_key sled b hex e.tx_hash h e.i) same ∙ sym e.key_lem))
              ∙ found,
        ),
      )

  -- an entry of the block is one of the scan
  block_entry-Listed :
      (block_hash tx_hash : Hash) (i : ℕ) (s : SledStorage Tree)
      → laws.find s.tx_by_block_tree (index_key sled b hex tx_hash block_hash i) ≡ some tx_hash
      → Listed
          (index_key sled b hex tx_hash block_hash i, tx_hash)
          (scans.entries s.tx_by_block_tree (prefix_of sled laws scans b hex hex_laws block_hash))
  block_entry-Listed block_hash tx_hash i s indexed =
      rw (key_split sled laws scans b hex hex_laws tx_hash block_hash i) (
        scans.complete s.tx_by_block_tree (prefix_of sled laws scans b hex hex_laws block_hash) _
          tx_hash (rw (← key_split sled laws scans b hex hex_laws tx_hash block_hash i) indexed))

  loop-Answers :
      (block_hash : Hash) (s : SledStorage Tree) (r : Result StorageError (List Transaction))
      → length block_hash ≡ 32
      → IsIndex sled laws scans b hex hex_laws s.tx_by_block_tree
      → Loops
          (scans.entries s.tx_by_block_tree (prefix_of sled laws scans b hex hex_laws block_hash))
          s
          r
      → Answers block_hash s r
  loop-Answers block_hash s (ok txs) size index ((done, iff), read) = (
    λ tx_hash i found.
        read (index_key sled b hex tx_hash block_hash i, tx_hash)
          (block_entry-Listed block_hash tx_hash i s found),
    λ tx. (
      λ m.
          let (e, listed, f) = (iff tx).0 m in
          let (sized, (i, found)) = entry_of block_hash e.0 e.1 s size index listed in
          record { tx_hash = e.1; i = i; indexed = found; stored = f },
      λ o. (iff tx).1 (
        (index_key sled b hex o.tx_hash block_hash o.i, o.tx_hash),
        block_entry-Listed block_hash o.tx_hash o.i s o.indexed,
        o.stored,
      ),
    ),
  )
  loop-Answers block_hash s (err x) size index (e, listed, y, unread) = λ readable.
      let (sized, (i, found)) = entry_of block_hash e.0 e.1 s size index listed in
      let (answer, read) = readable e.1 i found in cc

  -- Over an index whose entries are those of index_transaction for 32-byte hashes, with scans that
  -- read each entry under a prefix and an injective hex of two digits a byte,
  -- get_transactions_by_block of a 32-byte hash returns exactly the transactions that are stored
  -- and indexed under that block, and then every hash indexed under it could be read; or it ends
  -- in an error, and then not every hash indexed under it can be read.
  pub get_transactions_by_block-Answers :
      (block_hash : Hash) (s : SledStorage Tree)
      → length block_hash ≡ 32
      → IsIndex sled laws scans b hex hex_laws s.tx_by_block_tree
      → Answers block_hash s (get_transactions_by_block sled b hex block_hash s)
  unfolding get_transactions_by_block
  get_transactions_by_block-Answers block_hash s size index =
      let entries =
        scans.entries s.tx_by_block_tree (prefix_of sled laws scans b hex hex_laws block_hash) in
      let (r, done, loops) =
        collected entries s (λ e listed. (entry_of block_hash e.0 e.1 s size index listed).0) in
      subst (Answers block_hash s)
        (sym (
          ap (λ l. collect_transactions sled b hex l s)
            (scans.scan_prefix_lem s.tx_by_block_tree
              (prefix_of sled laws scans b hex hex_laws block_hash))
          ∙ done))
        (loop-Answers block_hash s r size index loops)
