-- ===== src/Tests/Tables.antt =====
-- The trie tables, and the writer.
use mathlib.Core.List.Perm
use reth_trie_rebuild_bench.Base.{
  ℕ, ◌≡◌, refl, sym, ap, ◌∙◌, Bool, true, false, none, some, List, [], ◌∷◌, ◌++◌, map, length,
}
use reth_trie_rebuild_bench.Base.Dict.{Dict}
use reth_trie_rebuild_bench.Base.Ordered.{sort_by_key}
use reth_trie_rebuild_bench.Base.Result.{ok}
use reth_trie_rebuild_bench.Trie.{
  Nibbles, B256, StorageTrieUpdates, TrieUpdates, Node, digits_discrete,
}
use reth_trie_rebuild_bench.Trie.Nodes.{emitted_at, nodes_under, nodes}
use reth_trie_rebuild_bench.Trie.Distinct.{emitted_at-append}
use reth_trie_rebuild_bench.Database.{TrieDb, IsTrieDb, NeverFails, added}
use reth_trie_rebuild_bench.Rebuild.{
  write_account, write_accounts, write_storages, write_trie_updates_with, uses_packed_trie_keys,
  clear_trie_tables,
}
use reth_trie_rebuild_bench.Rebuild.Clear.{clear_trie_tables-empty}
use reth_trie_rebuild_bench.Rebuild.Write.{write_trie_updates_with-adds, Extends}
use reth_trie_rebuild_bench.Writer.{Outcome, write_sink}
use reth_trie_rebuild_bench.Writer.Committed.{Committed, DbExtends}
use reth_trie_rebuild_bench.Writer.Total.{all_written, write_sink_total}
use reth_trie_rebuild_bench.Tests.Data.{
  address, branch, other_branch, emitted, emitted-IsStored, emitted-Distinct,
}

abbrev in_storages : List Node → List Node
in_storages [] = []
in_storages ((none, p, n) ∷ es) = in_storages es
in_storages ((some a, p, n) ∷ es) = (some a, p, n) ∷ in_storages es

abbrev in_accounts : List Node → List Node
in_accounts [] = []
in_accounts ((none, p, n) ∷ es) = (none, p, n) ∷ in_accounts es
in_accounts ((some a, p, n) ∷ es) = in_accounts es

emitted_at-in_storages :
    (es : List Node)
    → ((p : Nibbles) → emitted_at (in_storages es) none p ≡ none)
      × ((a : B256) (p : Nibbles)
          → emitted_at (in_storages es) (some a) p ≡ emitted_at es (some a) p)
unfolding emitted_at
emitted_at-in_storages [] = (λ p. refl, λ a p. refl)
emitted_at-in_storages ((none, q, n) ∷ es) = emitted_at-in_storages es
emitted_at-in_storages ((some b, q, n) ∷ es) =
    let (none_left, same) = emitted_at-in_storages es in (none_left, λ a p. rw (same a p) refl)

emitted_at-in_accounts :
    (es : List Node)
    → ((a : B256) (p : Nibbles) → emitted_at (in_accounts es) (some a) p ≡ none)
      × ((p : Nibbles) → emitted_at (in_accounts es) none p ≡ emitted_at es none p)
unfolding emitted_at
emitted_at-in_accounts [] = (λ a p. refl, λ p. refl)
emitted_at-in_accounts ((none, q, n) ∷ es) =
    let (none_left, same) = emitted_at-in_accounts es in (none_left, λ p. rw (same p) refl)
emitted_at-in_accounts ((some b, q, n) ∷ es) = emitted_at-in_accounts es

-- A database that is the list of the nodes written to it, the last one for a place counting.
abbrev pub log_db : TrieDb
log_db = record {
  Error = ℕ;
  Db = List Node;
  Tx = List Node;
  SortedStorage = StorageTrieUpdates;
  tx = ok;
  tx_mut = ok;
  commit = ok;
  sorted_accounts = λ u. added u.account_nodes;
  sorted_tries = λ u. u.storage_tries;
  account_key = λ k p. p;
  cursor_write = λ k tx. ok tt;
  cursor_dup_write = λ k tx. ok tt;
  upsert = λ k tx key n. ok (tx ++ (none, key, n) ∷ []);
  seek_exact = λ k tx key. ok (emitted_at tx none key);
  delete_current = λ k tx key. ok tx;
  write_storage =
      λ k tx a t. ok (length t.storage_nodes, tx ++ nodes_under (some a) t.storage_nodes);
  clear_accounts = λ tx. ok (in_storages tx);
  clear_storages = λ tx. ok (in_accounts tx);
  storage_settings = λ tx. ok none;
  parse_settings = λ bytes. none;
}

unpaired : (d : Dict B256 StorageTrieUpdates) → d ≡ map (λ (a, t). (a, t)) d
unpaired [] = refl
unpaired ((a, t) ∷ d) = ap (◌∷◌ (a, t)) (unpaired d)

pub log_db-IsTrieDb : IsTrieDb log_db
log_db-IsTrieDb = record {
  db_at = λ k db a p. emitted_at db a p;
  tx_at = λ k tx a p. emitted_at tx a p;
  sort_storage = λ t. t;
  tx_mut-at = λ k db tx e a p. let same : db ≡ tx = cc in ap (λ t. emitted_at t a p) (sym same);
  commit-at = λ k tx db e a p. let same : tx ≡ db = cc in ap (λ t. emitted_at t a p) (sym same);
  upsert-at = λ k tx tx' q n e a p.
      let same : tx ++ (none, q, n) ∷ [] ≡ tx' = cc in
      ap (λ t. emitted_at t a p) (sym same) ∙ emitted_at-append tx ((none, q, n) ∷ []) a p;
  write_storage-at = λ k tx tx' b t count h d e.
      let size : length t.storage_nodes ≡ count = cc in
      let same : tx ++ nodes_under (some b) t.storage_nodes ≡ tx' = cc in
      (
        sym size,
        λ a p.
            ap (λ t. emitted_at t a p) (sym same)
            ∙ emitted_at-append tx (nodes_under (some b) t.storage_nodes) a p,
      );
  clear_accounts-at = λ k tx tx' e.
      let same : in_storages tx ≡ tx' = cc in
      let (none_left, kept) = emitted_at-in_storages tx in
      (
        λ p. ap (λ t. emitted_at t none p) (sym same) ∙ none_left p,
        λ a p. ap (λ t. emitted_at t (some a) p) (sym same) ∙ kept a p,
      );
  clear_storages-at = λ k tx tx' e.
      let same : in_accounts tx ≡ tx' = cc in
      let (none_left, kept) = emitted_at-in_accounts tx in
      (
        λ a p. ap (λ t. emitted_at t (some a) p) (sym same) ∙ none_left a p,
        λ p. ap (λ t. emitted_at t none p) (sym same) ∙ kept p,
      );
  sorted_accounts-adds = λ u adds. (u.account_nodes, refl, Perm.refl u.account_nodes);
  sorted_tries-adds =
      λ u adds. (u.storage_tries, unpaired u.storage_tries, Perm.refl u.storage_tries);
}

pub log_db-NeverFails : NeverFails log_db
log_db-NeverFails = record {
  tx_ok = λ db. (db, refl);
  tx_mut_ok = λ db. (db, refl);
  commit_ok = λ tx. (tx, refl);
  cursor_write_ok = λ k tx. (tt, refl);
  cursor_dup_write_ok = λ k tx. (tt, refl);
  upsert_ok = λ k tx key n. (tx ++ (none, key, n) ∷ [], refl);
  seek_exact_ok = λ k tx key. (emitted_at tx none key, refl);
  delete_current_ok = λ k tx key. (tx, refl);
  write_storage_ok =
      λ k tx a t. ((length t.storage_nodes, tx ++ nodes_under (some a) t.storage_nodes), refl);
  storage_settings_ok = λ tx. (none, refl);
}

-- Two account nodes and one storage trie.
abbrev two_and_one : TrieUpdates
two_and_one = record {
  account_nodes = (4 ∷ [], branch) ∷ (7 ∷ [], other_branch) ∷ [];
  removed_nodes = [];
  storage_tries =
      (
        address,
        record { is_deleted = false; storage_nodes = (1 ∷ [], branch) ∷ []; removed_nodes = [] },
      )
      ∷ [];
}

abbrev written_log : List Node
written_log =
    (none, 4 ∷ [], branch) ∷ (none, 7 ∷ [], other_branch) ∷ (some address, 1 ∷ [], branch) ∷ []

write_trie_updates_with-adds_example :
    (3 ≡ length (nodes two_and_one))
    × Extends log_db log_db-IsTrieDb true [] (nodes two_and_one) written_log
unfolding write_trie_updates_with emitted_at nodes digits_discrete write_accounts write_account
    write_storages sort_by_key
write_trie_updates_with-adds_example =
    write_trie_updates_with-adds log_db log_db-IsTrieDb true two_and_one [] 3 written_log
      (record { accounts = refl; tries = (((refl, refl), ((λ e. cc), tt)), tt) })
      ((λ e. cc), ((λ e. cc), tt)) (refl, (refl, (refl, tt))) refl

write_sink_total_example :
    (tx : List Node) × (k : Bool) × (o : Outcome log_db) × (log_db.tx [] ≡ ok tx)
    × (uses_packed_trie_keys log_db tx ≡ ok k)
    × (write_sink log_db 2 [] emitted ≡ ok o)
    × (o.result ≡ ok (all_written log_db log_db-IsTrieDb log_db-NeverFails 2 emitted))
    × DbExtends log_db log_db-IsTrieDb k [] emitted o.db
write_sink_total_example =
    write_sink_total log_db log_db-IsTrieDb log_db-NeverFails 2 [] emitted emitted-IsStored
      emitted-Distinct

clear_trie_tables-empty_example : log_db-IsTrieDb.db_at false [] (some address) (4 ∷ []) ≡ none
unfolding clear_trie_tables
clear_trie_tables-empty_example =
    clear_trie_tables-empty log_db log_db-IsTrieDb false emitted [] refl (some address) (4 ∷ [])
