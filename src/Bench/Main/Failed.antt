-- ===== src/Bench/Main/Failed.antt =====
-- Why the program of crates/bench/src/bin/datadir_bench.rs may stop when it writes the trie tables.
use reth_trie_rebuild_bench.Base.{ℕ, ◌≡◌, ◌≢◌, none, some, List}
use reth_trie_rebuild_bench.Base.Result.{ok, err}
use reth_trie_rebuild_bench.Trie.{B256, Node}
use reth_trie_rebuild_bench.Database.{TrieDb}
use reth_trie_rebuild_bench.Rebuild.{clear_trie_tables}
use reth_trie_rebuild_bench.Rebuild.Serial.{Rebuilt, Rebuild, reth_rebuild}
use reth_trie_rebuild_bench.Writer.{Outcome, write_sink}
use reth_trie_rebuild_bench.Tables.{digest_trie_tables}
use reth_trie_rebuild_bench.Mdbx.{reth_serial_root}
use reth_trie_rebuild_bench.Bench.Args.{Args}
use reth_trie_rebuild_bench.Bench.Host.{Host}

module _ (D : TrieDb) (H : Host D) (args : Args) where
  -- A root that was computed as the tables of `db` were written.
  pub data Computed (db : D.Db) : B256 → Type 0 where
    by_rebuild :
        (before : D.Db) (o : Rebuild D H.walk) (done : Rebuilt)
        → reth_rebuild D H.walk none H.fuel before ≡ ok (some o)
        → o.db ≡ db
        → o.result ≡ ok done
        → Computed db done.root
    by_build :
        (run : ℕ) (before : D.Db) (sent : List Node) (o : Outcome D) (root : B256)
        → write_sink D args.chunk_nodes before sent ≡ ok o
        → o.db ≡ db
        → (H.build run before).result ≡ ok root
        → Computed db root

  -- What has failed, with the database that is left.
  pub data Failed (db : D.Db) : Type 0 where
    -- the runtime, the database or a transaction was not to be had
    no_runtime : (e : D.Error) → H.cpu_threads args.threads ≡ err e → Failed db
    no_database : (e : D.Error) → H.open_db args.datadir ≡ err e → Failed db
    no_transaction : (e : D.Error) → D.tx db ≡ err e → Failed db
    -- a read of the database failed
    no_tip : (tx : D.Tx) (e : D.Error) → D.tx db ≡ ok tx → H.finish_block tx ≡ err e → Failed db
    no_accounts :
        (tx : D.Tx) (e : D.Error) → D.tx db ≡ ok tx → H.entries_of_accounts tx ≡ err e → Failed db
    no_storages :
        (tx : D.Tx) (e : D.Error) → D.tx db ≡ ok tx → H.entries_of_storages tx ≡ err e → Failed db
    no_digest :
        (tx : D.Tx) (e : D.Error)
        → D.tx db ≡ ok tx
        → digest_trie_tables D H.tables H.hashing tx ≡ err e
        → Failed db
    no_walk :
        (tx : D.Tx) (e : D.Error)
        → D.tx db ≡ ok tx
        → reth_serial_root D H.state_root tx ≡ err e
        → Failed db
    -- the tables were not cleared
    not_cleared : (e : D.Error) → clear_trie_tables D db ≡ err e → Failed db
    -- reth's rebuild did not start, needs more fuel, or failed in a round
    no_rebuild : (e : D.Error) → reth_rebuild D H.walk none H.fuel db ≡ err e → Failed db
    more_fuel : reth_rebuild D H.walk none H.fuel db ≡ ok none → Failed db
    no_round :
        (before : D.Db) (o : Rebuild D H.walk) (e : D.Error)
        → reth_rebuild D H.walk none H.fuel before ≡ ok (some o)
        → o.db ≡ db
        → o.result ≡ err e
        → Failed db
    -- a run's build failed, its writer did not start, or a commit failed
    no_build :
        (run : ℕ) (before : D.Db) (sent : List Node) (o : Outcome D) (e : D.Error)
        → write_sink D args.chunk_nodes before sent ≡ ok o
        → o.db ≡ db
        → (H.build run before).result ≡ err e
        → Failed db
    no_writer :
        (sent : List Node) (e : D.Error) → write_sink D args.chunk_nodes db sent ≡ err e → Failed db
    no_commit :
        (before : D.Db) (sent : List Node) (o : Outcome D) (e : D.Error)
        → write_sink D args.chunk_nodes before sent ≡ ok o
        → o.db ≡ db
        → o.result ≡ err e
        → Failed db
    -- a root is not the expected one, or not the one that reth's walk finds in the tables
    wrong_root :
        (root expected : B256)
        → Computed db root
        → args.expected_root ≡ some expected
        → root ≢ expected
        → Failed db
    wrong_walk :
        (tx : D.Tx) (walked root : B256)
        → Computed db root
        → D.tx db ≡ ok tx
        → reth_serial_root D H.state_root tx ≡ ok walked
        → walked ≢ root
        → Failed db
