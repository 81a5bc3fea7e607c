-- ===== src/Tests/Collecting.antt =====
-- The collecting sink.
use reth_trie_rebuild_bench.Base.{
  ◌≡◌, ◌↔◌, refl, Bool, true, Option, none, some, List, [], ◌∷◌, Perm,
}
use reth_trie_rebuild_bench.Base.Dict
use reth_trie_rebuild_bench.Trie.{
  StorageTrieUpdates, TrieUpdates, Node, Nibbles, B256, digits_eq, no_storage,
}
use reth_trie_rebuild_bench.Trie.Nodes.{node_at, nodes, emitted_at}
use reth_trie_rebuild_bench.Updates.{
  TrieUpdatesSink, empty_sink, collect, into_trie_updates, shard_of, without_empty_storage_tries,
}
use reth_trie_rebuild_bench.Updates.Collected.{into_trie_updates-node_at}
use reth_trie_rebuild_bench.Updates.Runs.{collect-panics}
use reth_trie_rebuild_bench.Trie.Distinct.{Distinct}
use reth_trie_rebuild_bench.Updates.Distinct.{into_trie_updates-perm}
use reth_trie_rebuild_bench.Updates.Content.{HasContent, without_empty_storage_tries_lem}
use reth_trie_rebuild_bench.Tests.Data.{
  address, branch, emitted, account_node, emitted-IsEmitted, emitted-Distinct,
}

-- A storage node goes to the shard of its account's first nibble, an account node to that of its
-- path's; the state trie's root has none.
shards :
    (shard_of (some address) (9 ∷ []) ≡ some 4)
    × (shard_of none (4 ∷ 2 ∷ []) ≡ some 4)
    × (shard_of none [] ≡ none)
unfolding shard_of
shards = (refl, refl, refl)

into_trie_updates-node_at_example :
    (sink : TrieUpdatesSink) × (collect true empty_sink emitted ≡ some sink)
    × ((a : Option B256) (p : Nibbles)
        → node_at (into_trie_updates sink) a p ≡ emitted_at emitted a p)
into_trie_updates-node_at_example =
    into_trie_updates-node_at true emitted emitted-IsEmitted (λ checked. emitted-Distinct)

into_trie_updates-perm_example :
    (sink : TrieUpdatesSink) × (collect true empty_sink emitted ≡ some sink)
    × Perm (nodes (into_trie_updates sink)) emitted
into_trie_updates-perm_example =
    into_trie_updates-perm true emitted emitted-IsEmitted emitted-Distinct

abbrev twice : List Node
twice = account_node ∷ account_node ∷ []

-- The same node again fails the assertion.
collect-panics_example :
    (collect true empty_sink twice ≡ none) ↔ ((◌≡◌ {A = Bool} true true) × (¬ Distinct twice))
collect-panics_example = collect-panics true twice (emitted-IsEmitted.0, (emitted-IsEmitted.0, tt))

-- Updates with one node.
abbrev one_node : TrieUpdates
one_node = record { account_nodes = (4 ∷ [], branch) ∷ []; removed_nodes = []; storage_tries = [] }

abbrev with_bare_trie : TrieUpdates
with_bare_trie = record one_node { storage_tries = (address, no_storage) ∷ [] }

without_empty_storage_tries_example :
    ((a : B256) (t : StorageTrieUpdates)
      → (Dict.lookup a (without_empty_storage_tries with_bare_trie).storage_tries ≡ some t)
        ↔ ((Dict.lookup a with_bare_trie.storage_tries ≡ some t) × HasContent t))
    × ((without_empty_storage_tries with_bare_trie).account_nodes ≡ with_bare_trie.account_nodes)
    × (nodes (without_empty_storage_tries with_bare_trie) ≡ nodes with_bare_trie)
unfolding Dict.lookup
without_empty_storage_tries_example = without_empty_storage_tries_lem with_bare_trie (refl, tt)
