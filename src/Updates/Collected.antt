-- ===== src/Updates/Collected.antt =====
-- What `into_trie_updates` makes of the sink after a run of calls.
use native.Mathlib.Nat.{zero-add}
use reth_trie_rebuild_bench.Base.{
  ◌≡◌, refl, ◌∙◌, Bool, true, Option, none, some, List, [], ◌∷◌, map, All, arith, get_or-map,
}
use reth_trie_rebuild_bench.Base.Dict
use reth_trie_rebuild_bench.Base.Dict.{Dict}
use reth_trie_rebuild_bench.Base.Merge.{merge_all, lookup-merge_all}
use reth_trie_rebuild_bench.Trie.{
  B256, Nibbles, BranchNodeCompact, StorageTrieUpdates, TrieUpdates, no_updates, Node, digits_eq,
}
use reth_trie_rebuild_bench.Trie.Nodes.{node_at, emitted_at, none-override}
use reth_trie_rebuild_bench.Trie.Distinct.{Distinct}
use reth_trie_rebuild_bench.Updates.{
  TrieUpdatesSink, empty_sink, collect, merge_shard, merge_shards, into_trie_updates,
}
use reth_trie_rebuild_bench.Updates.Shards.{
  IsEmitted, IsSharded, path_nibble, address_nibble, all_keyed,
}
use reth_trie_rebuild_bench.Updates.Runs.{sink_at, collect-empty, from_empty}

abbrev pub accounts : List TrieUpdates → List (Dict Nibbles BranchNodeCompact)
accounts = map (λ u. u.account_nodes)

abbrev pub tries : List TrieUpdates → List (Dict B256 StorageTrieUpdates)
tries = map (λ u. u.storage_tries)

pub account_nodes-merge_shards :
    (u : TrieUpdates) (us : List TrieUpdates)
    → (merge_shards u us).account_nodes ≡ merge_all u.account_nodes (accounts us)
unfolding merge_shards merge_all
account_nodes-merge_shards u [] = refl
account_nodes-merge_shards u (s ∷ us) = account_nodes-merge_shards (merge_shard u s) us

pub storage_tries-merge_shards :
    (u : TrieUpdates) (us : List TrieUpdates)
    → (merge_shards u us).storage_tries ≡ merge_all u.storage_tries (tries us)
unfolding merge_shards merge_all
storage_tries-merge_shards u [] = refl
storage_tries-merge_shards u (s ∷ us) = storage_tries-merge_shards (merge_shard u s) us

-- The merge keeps the node of every place.
node_at-into_trie_updates :
    (sink : TrieUpdatesSink) (a : Option B256) (p : Nibbles)
    → IsSharded sink
    → node_at (into_trie_updates sink) a p ≡ sink_at sink a p
unfolding into_trie_updates node_at Dict.lookup
node_at-into_trie_updates sink none p s =
    rw
      (
        account_nodes-merge_shards no_updates sink.shards,
        lookup-merge_all path_nibble (path_nibble p) 0 [] (accounts sink.shards) p
            (all_keyed path_nibble _ 0 sink.shards (λ i. rw zero-add (s.each i).accounts))
            (omega arith),
      )
      (rw (
        none-override,
        get_or-map (λ (u : TrieUpdates). u.account_nodes) sink.shards (path_nibble p) no_updates,
      ))
node_at-into_trie_updates sink (some a) p s =
    rw
      (
        storage_tries-merge_shards no_updates sink.shards,
        lookup-merge_all address_nibble (address_nibble a) 0 [] (tries sink.shards) a
            (all_keyed address_nibble _ 0 sink.shards (λ i. rw zero-add (s.each i).tries))
            (omega arith),
      )
      (rw (
        none-override,
        get_or-map (λ (u : TrieUpdates). u.storage_tries) sink.shards (address_nibble a) no_updates,
      ))

-- In a run of nodes whose account has 32 bytes, or which have none and a path of nibbles that is not
-- empty, no call from the empty sink panics, where assertions are checked only if no account and
-- path is emitted twice. `into_trie_updates` then holds, for every account and path, the last node
-- that was emitted there, and none where none was.
pub into_trie_updates-node_at :
    (debug : Bool) (es : List Node)
    → All IsEmitted es
    → (debug ≡ true → Distinct es)
    → (sink : TrieUpdatesSink) × (collect debug empty_sink es ≡ some sink)
      × ((a : Option B256) (p : Nibbles) → node_at (into_trie_updates sink) a p ≡ emitted_at es a p)
into_trie_updates-node_at debug es h once =
    let c = collect-empty debug es h once in
    (
      c.result,
      c.run,
      λ a p. node_at-into_trie_updates c.result a p c.sharded ∙ from_empty debug es c a p,
    )
