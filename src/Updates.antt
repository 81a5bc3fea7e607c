-- ===== src/Updates.antt =====
-- crates/bench/src/updates.rs: the sink that collects emitted nodes in sixteen shards, and
-- `without_empty_storage_tries` of crates/bench/src/lib.rs. A lock is held for one whole call, so
-- calls from several workers take effect one after another: a run is the list of its calls.
pub mod Shards
pub mod Runs
pub mod Collected
pub mod Distinct
pub mod Content
use reth_trie_rebuild_bench.Base.{
  ℕ, zero, suc, ◌/◌, ◌||◌, not, Bool, true, false, Option, none, some, List, [], ◌∷◌, get_or, set,
  replicate, ltb, if◌then◌else◌,
}
use reth_trie_rebuild_bench.Base.Dict
use reth_trie_rebuild_bench.Base.Dict.{Dict}
use reth_trie_rebuild_bench.Trie.{
  B256, Nibbles, BranchNodeCompact, StorageTrieUpdates, TrieUpdates, no_updates, Node, digits_eq,
}
use reth_trie_rebuild_bench.Trie.Nodes.{insert_node}

-- `TrieUpdatesSink([Mutex<TrieUpdates>; 16])`
pub record TrieUpdatesSink : Type 0 where
  pub shards : List TrieUpdates

abbrev pub empty_sink : TrieUpdatesSink
empty_sink = record { shards = replicate 16 no_updates }

-- The shard of a node: the first nibble of its account, or of its path. `none` is the panic of
-- `path.first().expect(…)`.
unfoldable pub shard_of : Option B256 → Nibbles → Option ℕ
shard_of (some hashed_address) path = some (get_or hashed_address 0 0 / 16)
shard_of none [] = none
shard_of none (nibble ∷ _) = some nibble

-- The locked part of the call: the shard with the node inserted, put back, and `prev`.
abbrev insert_at : TrieUpdatesSink → ℕ → Node → TrieUpdatesSink × Option BranchNodeCompact
insert_at sink shard e =
    let updates = insert_node (get_or sink.shards shard no_updates) e in
    (record { shards = set sink.shards shard updates.0 }, updates.1)

-- `debug_assert!(prev.is_none(), …)`, which panics in a build with debug assertions only.
unfoldable pub check_prev :
    Bool → TrieUpdatesSink × Option BranchNodeCompact → Option TrieUpdatesSink
check_prev false (sink, prev) = some sink
check_prev true (sink, none) = some sink
check_prev true (sink, some prev) = none

-- `on_branch_node`: the sink after the call. `none` is a panic: an empty path of the state trie, an
-- index past the sixteen shards, or the assertion. `debug` says whether those are checked.
unfoldable pub on_branch_node : Bool → TrieUpdatesSink → Node → Option TrieUpdatesSink
on_branch_node debug sink (hashed_address, path, node) = elim (shard_of hashed_address path) [
  | none ↦ none
  | some shard ↦
      if ltb shard 16
      then check_prev debug (insert_at sink shard (hashed_address, path, node))
      else none
]

-- A run of calls; a panic ends it.
unfoldable pub collect : Bool → TrieUpdatesSink → List Node → Option TrieUpdatesSink
collect debug sink [] = some sink
collect debug sink (e ∷ es) = elim (on_branch_node debug sink e) [
  | none ↦ none
  | some sink' ↦ collect debug sink' es
]

-- The body of the loop of `into_trie_updates`, and the loop.
abbrev pub merge_shard : TrieUpdates → TrieUpdates → TrieUpdates
merge_shard updates shard = record updates {
  account_nodes = Dict.extend updates.account_nodes shard.account_nodes;
  storage_tries = Dict.extend updates.storage_tries shard.storage_tries;
}

unfoldable pub merge_shards : TrieUpdates → List TrieUpdates → TrieUpdates
merge_shards updates [] = updates
merge_shards updates (shard ∷ rest) = merge_shards (merge_shard updates shard) rest

unfoldable pub into_trie_updates : TrieUpdatesSink → TrieUpdates
unfolding merge_shards
into_trie_updates sink = merge_shards no_updates sink.shards

pub is_empty {ℓ} : {A : Type ℓ} → List A → Bool
is_empty [] = true
is_empty (_ ∷ _) = false

-- The test of `retain`: whether a storage trie is kept.
pub has_content : StorageTrieUpdates → Bool
unfolding is_empty
has_content t = not (is_empty t.storage_nodes) || not (is_empty t.removed_nodes)

retain_content : Dict B256 StorageTrieUpdates → Dict B256 StorageTrieUpdates
retain_content [] = []
retain_content ((a, t) ∷ d) =
    let rest = retain_content d in if has_content t then (a, t) ∷ rest else rest

pub without_empty_storage_tries : TrieUpdates → TrieUpdates
unfolding retain_content
without_empty_storage_tries updates = record updates {
  storage_tries = retain_content updates.storage_tries;
}
