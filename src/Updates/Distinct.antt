-- ===== src/Updates/Distinct.antt =====
-- Runs that emit no node twice: the collected nodes are the emitted ones, in some order.
use mathlib.Core.List.{append_assoc, append-nil, perm_middle, perm_append_comm}
use mathlib.Core.List.Perm
use native.Mathlib.Nat.{zero-add}
use reth_trie_rebuild_bench.Base.{
  ℕ, zero, suc, ◌<◌, ◌≡◌, refl, Bool, none, some, List, [], ◌∷◌, ◌++◌, get_or, set, All, Perm,
  arith, length,
}
use reth_trie_rebuild_bench.Base.Merge.{merge_all-concat, Before-nil, concat}
use reth_trie_rebuild_bench.Trie.{TrieUpdates, no_updates, Node, digits_eq}
use reth_trie_rebuild_bench.Trie.Distinct.{Distinct}
use reth_trie_rebuild_bench.Trie.Nodes.{
  nodes, nodes_under, storage_nodes_of, nodes-insert_node, nodes_under-append,
  storage_nodes_of-append,
}
use reth_trie_rebuild_bench.Updates.{
  TrieUpdatesSink, empty_sink, insert_at, collect, into_trie_updates,
}
use reth_trie_rebuild_bench.Updates.Shards.{
  IsEmitted, IsSharded, path_nibble, address_nibble, node_shard, insert_at-IsSharded,
  empty_sink-IsSharded, all_keyed,
}
use reth_trie_rebuild_bench.Updates.Runs.{
  node_shard-place_nibble, in_range, AllFresh, AllFresh-empty, AllFresh-insert_at,
  on_branch_node-passes,
}
use reth_trie_rebuild_bench.Updates.Collected.{
  accounts, tries, account_nodes-merge_shards, storage_tries-merge_shards,
}

-- The nodes of all shards, one shard after another.
abbrev shard_nodes : List TrieUpdates → List Node
shard_nodes [] = []
shard_nodes (u ∷ us) = nodes u ++ shard_nodes us

abbrev all_accounts : List TrieUpdates → List Node
all_accounts us = nodes_under none (concat (accounts us))

abbrev all_tries : List TrieUpdates → List Node
all_tries us = storage_nodes_of (concat (tries us))

swap_middle : (a b c d : List Node) → Perm ((a ++ b) ++ (c ++ d)) ((a ++ c) ++ (b ++ d))
swap_middle a b c d =
    rw (append_assoc a b (c ++ d), append_assoc a c (b ++ d))
      (Perm.append_left a (
        rw (← append_assoc b c d, ← append_assoc c b d)
          (Perm.append_right d (perm_append_comm b c))))

regroup : (us : List TrieUpdates) → Perm (all_accounts us ++ all_tries us) (shard_nodes us)
unfolding nodes
regroup [] = Perm.nil
regroup (u ∷ us) =
    rw
      (
        nodes_under-append none u.account_nodes (concat (accounts us)),
        storage_nodes_of-append u.storage_tries (concat (tries us)),
      )
      (Perm.trans
        (swap_middle (nodes_under none u.account_nodes) (all_accounts us)
          (storage_nodes_of u.storage_tries) (all_tries us))
        (Perm.append_left (nodes_under none u.account_nodes ++ storage_nodes_of u.storage_tries)
          (regroup us)))

nodes-into_trie_updates :
    (sink : TrieUpdatesSink)
    → IsSharded sink
    → Perm (nodes (into_trie_updates sink)) (shard_nodes sink.shards)
unfolding into_trie_updates nodes
nodes-into_trie_updates sink s =
    rw
      (
        account_nodes-merge_shards no_updates sink.shards,
        storage_tries-merge_shards no_updates sink.shards,
        merge_all-concat path_nibble 0 [] (accounts sink.shards) (Before-nil path_nibble 0)
            (all_keyed path_nibble _ 0 sink.shards (λ i. rw zero-add (s.each i).accounts)),
        merge_all-concat address_nibble 0 [] (tries sink.shards) (Before-nil address_nibble 0)
            (all_keyed address_nibble _ 0 sink.shards (λ i. rw zero-add (s.each i).tries)),
      )
      (regroup sink.shards)

shard_nodes-set :
    (us : List TrieUpdates) (i : ℕ) (u : TrieUpdates) (e : Node)
    → i < length us
    → Perm (nodes u) (e ∷ nodes (get_or us i no_updates))
    → Perm (shard_nodes (set us i u)) (e ∷ shard_nodes us)
shard_nodes-set [] i u e lt p = elim lt [ ]
shard_nodes-set (v ∷ us) zero u e lt p = Perm.append_right (shard_nodes us) p
shard_nodes-set (v ∷ us) (suc i) u e lt p =
    Perm.trans (Perm.append_left (nodes v) (shard_nodes-set us i u e (omega arith) p))
      (perm_middle (nodes v) (shard_nodes us))

collect-perm :
    (debug : Bool) (sink : TrieUpdatesSink) (es : List Node)
    → All IsEmitted es
    → Distinct es
    → IsSharded sink
    → AllFresh sink es
    → (t : TrieUpdatesSink) × (collect debug sink es ≡ some t)
      × IsSharded t
      × Perm (shard_nodes t.shards) (es ++ shard_nodes sink.shards)
unfolding collect
collect-perm debug sink [] h d s fresh = (sink, refl, s, Perm.rfl)
collect-perm debug sink (e ∷ es) h d s fresh =
    let lt = in_range sink e h.0 s in
    let sink' = (insert_at sink (node_shard e) e).0 in
    let (t, run, s', p) =
      collect-perm debug sink' es h.1 d.1 (insert_at-IsSharded sink e h.0 s)
        (AllFresh-insert_at sink e es lt d.0 fresh.1) in
    (
      t,
      rw (on_branch_node-passes debug sink e h.0 (λ t. fresh.0), collect) run,
      s',
      Perm.trans p (
          Perm.trans
            (Perm.append_left es (
              shard_nodes-set sink.shards (node_shard e) _ e lt (
                nodes-insert_node (get_or sink.shards (node_shard e) no_updates) e
                  (rw (node_shard-place_nibble e) fresh.0))))
            (perm_middle es (shard_nodes sink.shards))),
    )

-- If the nodes have an account of 32 bytes, or none and a path of nibbles that is not empty, and no
-- account and path is emitted twice, no call panics, with assertions checked or not, and the nodes of `into_trie_updates`
-- are the emitted ones, each once, in some order.
pub into_trie_updates-perm :
    (debug : Bool) (es : List Node)
    → All IsEmitted es
    → Distinct es
    → (sink : TrieUpdatesSink) × (collect debug empty_sink es ≡ some sink)
      × Perm (nodes (into_trie_updates sink)) es
into_trie_updates-perm debug es h d =
    let (sink, run, s, p) =
      collect-perm debug empty_sink es h d empty_sink-IsSharded (AllFresh-empty es) in
    (sink, run, Perm.trans (nodes-into_trie_updates sink s) (unfold nodes in rw append-nil at p))
