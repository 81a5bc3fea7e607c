-- ===== src/Tests/Scans.antt =====
-- The digest of the trie tables.
use reth_trie_rebuild_bench.Base.{◌≡◌, refl, true, List, [], ◌∷◌, ◌++◌, map, replicate, arith}
use reth_trie_rebuild_bench.Base.Result.{ok}
use reth_trie_rebuild_bench.Digest.{new_digest, push_all, snapshot}
use reth_trie_rebuild_bench.Tables.{TableWalks, digest_tables}
use reth_trie_rebuild_bench.Tables.Ranges.{filter, in_range}
use reth_trie_rebuild_bench.Tables.Scan.{
  AccountRow, StorageRow, Reads, account_node, storage_node, digest_tables_lem,
}
use reth_trie_rebuild_bench.Tests.Data.{address, branch, other_branch, toy_hashing}
use reth_trie_rebuild_bench.Tests.Tables.{log_db}

abbrev account_rows : List AccountRow
account_rows = (4 ∷ [], branch) ∷ (7 ∷ [], other_branch) ∷ []

abbrev storage_rows : List StorageRow
storage_rows =
    (replicate 32 3, 1 ∷ [], branch)
    ∷ (address, 1 ∷ [], branch)
    ∷ (address, 2 ∷ [], other_branch)
    ∷ []

abbrev pub two_tables : TableWalks log_db
two_tables = record {
  walk_accounts = λ k tx. ok (map ok account_rows);
  walk_storages = λ k tx l h. ok (map ok (filter (λ e. in_range l h e.0) storage_rows));
  account_key_to_nibbles = λ k key. key;
  subkey_to_nibbles = λ k key. key;
}

two_tables-Reads : Reads log_db two_tables true [] account_rows storage_rows
two_tables-Reads = record {
  accounts = refl;
  storages = λ l h. refl;
  addresses = ((refl, omega arith), ((refl, omega arith), ((refl, omega arith), tt)));
}

digest_tables_lem_example :
    digest_tables log_db two_tables toy_hashing true []
    ≡ ok (record {
      account_nodes = 2;
      storage_nodes = 3;
      digest = snapshot (
          push_all toy_hashing new_digest (
            map (account_node log_db two_tables true) account_rows
            ++ map (storage_node log_db two_tables true) storage_rows));
    })
digest_tables_lem_example =
    digest_tables_lem log_db two_tables true toy_hashing [] account_rows storage_rows
      two_tables-Reads
