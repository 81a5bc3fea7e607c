-- ===== src/Mdbx/Settings.antt =====
-- Storage settings that are written and read back.
use reth_trie_rebuild_bench.Base.{ℕ, ◌≡◌, refl, Option, none, some, List, inl, inr}
use reth_trie_rebuild_bench.Base.Result.{ok, err, ◌>>=◌, >>=-eq-ok, Result-cases}
use reth_trie_rebuild_bench.Database.{TrieDb}
use reth_trie_rebuild_bench.Rebuild.{uses_packed_trie_keys}
use reth_trie_rebuild_bench.Mdbx.{Metadata, put_bytes, write_storage_settings}

module _ (D : TrieDb) (M : Metadata D) where
  -- What was put and committed is what a later transaction reads, and the settings that were
  -- serialized are those that are parsed.
  pub record IsMetadata : Type 0 where
    pub put-get :
        (tx tx' : D.Tx) (bytes : List ℕ) (db : D.Db) (later : D.Tx)
        → M.put_settings tx bytes ≡ ok tx'
        → D.commit tx' ≡ ok db
        → D.tx db ≡ ok later
        → D.storage_settings later ≡ ok (some bytes)
    pub to_vec-parse :
        (settings : M.StorageSettings) (bytes : List ℕ)
        → M.to_vec settings ≡ some bytes
        → D.parse_settings bytes ≡ some (M.is_v2 settings)

  put_bytes-uses_packed_trie_keys :
      IsMetadata
      → (db' : D.Db) (settings : M.StorageSettings) (tx later : D.Tx) (b : Option (List ℕ))
      → M.to_vec settings ≡ b
      → put_bytes D M tx b ≡ some (ok db')
      → D.tx db' ≡ ok later
      → uses_packed_trie_keys D later ≡ ok (M.is_v2 settings)
  unfolding put_bytes uses_packed_trie_keys
  put_bytes-uses_packed_trie_keys L db' settings tx later none v e opened = absurd (cc)
  put_bytes-uses_packed_trie_keys L db' settings tx later (some bytes) v e opened =
      let e' : (M.put_settings tx bytes >>= D.commit) ≡ ok db' = cc in
      let (tx', put, committed) = >>=-eq-ok (M.put_settings tx bytes) D.commit e' in
      rw (L.put-get tx tx' bytes db' later put committed opened)
        (rw (L.to_vec-parse settings bytes v) refl)

  -- Where writing storage settings succeeds, the next transaction reads the key encoding that they
  -- name: packed for v2 settings, legacy for others.
  pub write_storage_settings-uses_packed_trie_keys :
      IsMetadata
      → (db db' : D.Db) (settings : M.StorageSettings) (tx : D.Tx)
      → write_storage_settings D M db settings ≡ some (ok db')
      → D.tx db' ≡ ok tx
      → uses_packed_trie_keys D tx ≡ ok (M.is_v2 settings)
  unfolding write_storage_settings
  write_storage_settings-uses_packed_trie_keys L db db' settings later e opened =
      elim (Result-cases (D.tx_mut db)) [
        | inl (failure, failed) ↦
            let stopped : some (err failure) ≡ some (ok db') =
              rw (failed, write_storage_settings) at e in
            absurd (cc)
        | inr (tx, begun) ↦
            put_bytes-uses_packed_trie_keys L db' settings tx later (M.to_vec settings) refl
              (rw (begun, write_storage_settings) at e) opened
      ]
