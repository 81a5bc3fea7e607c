-- ===== src/Mdbx.antt =====
-- crates/bench/src/mdbx.rs: writes of the hashed state and of the storage settings, and reth's own
-- answers on a database. reth's serial walk, `StateRoot`, is a parameter, its error already made a
-- `DatabaseError`; so are the tables that are written.
pub mod Settings
pub mod Hashed
use reth_trie_rebuild_bench.Base.{ℕ, Bool, false, Option, none, some, List, [], ◌∷◌}
use reth_trie_rebuild_bench.Base.Result.{Result, ok, err, ◌>>=◌}
use reth_trie_rebuild_bench.Trie.{B256, TrieUpdates}
use reth_trie_rebuild_bench.Database.{TrieDb}
use reth_trie_rebuild_bench.Memory.{Account, Sorting, MemoryState, iter_accounts, iter_storage}
use reth_trie_rebuild_bench.Rebuild.{uses_packed_trie_keys}

module _ (D : TrieDb) where
  -- `StateRoot::<DatabaseTrieCursorFactory<_, A>, _>::from_tx(tx)`, and its two walks.
  pub record StateRoot : Type 0 where
    pub root : Bool → D.Tx → Result D.Error B256
    pub root_with_updates : Bool → D.Tx → Result D.Error (B256 × TrieUpdates)

  unfoldable pub reth_serial_root : StateRoot → D.Tx → Result D.Error B256
  reth_serial_root state_root tx = do packed ← uses_packed_trie_keys D tx; state_root.root packed tx

  -- In the legacy encoding.
  unfoldable pub reth_root_with_updates : StateRoot → D.Db → Result D.Error (B256 × TrieUpdates)
  reth_root_with_updates state_root db = do tx ← D.tx db; state_root.root_with_updates false tx

  -- reth's storage settings, `serde_json::to_vec` of them, which may fail, and
  -- `tx.put::<tables::Metadata>(STORAGE_SETTINGS, bytes)`.
  pub record Metadata : Type 1 where
    pub StorageSettings : Type 0
    pub is_v2 : StorageSettings → Bool
    pub to_vec : StorageSettings → Option (List ℕ)
    pub put_settings : D.Tx → List ℕ → Result D.Error D.Tx

  -- A panic is `none`.
  unfoldable pub put_bytes : (M : Metadata) → D.Tx → Option (List ℕ) → Option (Result D.Error D.Db)
  put_bytes M tx none = none
  put_bytes M tx (some bytes) = some (do tx ← M.put_settings tx bytes; D.commit tx)

  unfoldable pub write_storage_settings :
      (M : Metadata) → D.Db → M.StorageSettings → Option (Result D.Error D.Db)
  write_storage_settings M db settings = elim (D.tx_mut db) [
    | err e ↦ some (err e)
    | ok tx ↦ put_bytes M tx (M.to_vec settings)
  ]

  -- `tx.put` into the two hashed state tables.
  pub record HashedTables : Type 0 where
    pub put_account : D.Tx → B256 → Account → Result D.Error D.Tx
    pub put_storage : D.Tx → B256 → B256 → ℕ → Result D.Error D.Tx

  -- The inner loop.
  unfoldable pub put_slots : HashedTables → D.Tx → B256 → List (B256 × ℕ) → Result D.Error D.Tx
  put_slots T tx hashed_address [] = ok tx
  put_slots T tx hashed_address ((key, value) ∷ slots) = do
    tx ← T.put_storage tx hashed_address key value
    put_slots T tx hashed_address slots

  -- The outer loop.
  unfoldable pub put_accounts :
      HashedTables
      → (r : Sorting) → MemoryState r
      → D.Tx
      → List (B256 × Account)
      → Result D.Error D.Tx
  put_accounts T r state tx [] = ok tx
  put_accounts T r state tx ((hashed_address, account) ∷ accounts) = do
    tx ← T.put_account tx hashed_address account
    tx ← put_slots T tx hashed_address (iter_storage r state hashed_address)
    put_accounts T r state tx accounts

  unfoldable pub write_hashed_state :
      HashedTables → (r : Sorting) → D.Db → MemoryState r → Result D.Error D.Db
  write_hashed_state T r db state = do
    tx ← D.tx_mut db
    tx ← put_accounts T r state tx (iter_accounts r state)
    D.commit tx

  -- A provider over one transaction. `PruneModes` is reth's, and the default is used.
  pub record TxProvider (PruneModes : Type 0) : Type 0 where
    pub tx : D.Tx
    pub prune_modes : PruneModes

  -- `DatabaseSource` is the database that it refers to.
  unfoldable pub database_provider_ro :
      {PruneModes : Type 0} → PruneModes → D.Db → Result D.Error (TxProvider PruneModes)
  database_provider_ro defaults db = do
    tx ← D.tx db
    ok (record { tx = tx; prune_modes = defaults })

  abbrev pub into_tx : {PruneModes : Type 0} → TxProvider PruneModes → D.Tx
  into_tx provider = provider.tx

  unfoldable pub commit : {PruneModes : Type 0} → TxProvider PruneModes → Result D.Error D.Db
  commit provider = D.commit (into_tx provider)
