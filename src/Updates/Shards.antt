-- ===== src/Updates/Shards.antt =====
-- The shards' invariant: each key stands in the shard of its nibble. Every call keeps it.
use native.Mathlib.Nat.{add-zero}
use reth_trie_rebuild_bench.Base.{
  subst, ℕ, suc, ◌+◌, ◌/◌, ◌<◌, ◌≡◌, refl, sym, ap, ◌∙◌, Bool, none, some, List, [], ◌∷◌, get_or,
  length, map, arith, ℕ_discrete, length-set, get_or-set_self, get_or-set_ne, get_or-replicate,
}
use reth_trie_rebuild_bench.Base.Dict
use reth_trie_rebuild_bench.Base.Dict.{Dict, NodupKeys}
use reth_trie_rebuild_bench.Base.Merge.{Keyed, AllKeyed}
use reth_trie_rebuild_bench.Trie.{
  B256, Nibbles, TrieUpdates, no_updates, Node, digits_eq, digits_discrete, IsB256, IsStoredPath,
}
use reth_trie_rebuild_bench.Trie.Nodes.{insert_node}
use reth_trie_rebuild_bench.Updates.{
  TrieUpdatesSink, empty_sink, shard_of, insert_at, check_prev, on_branch_node,
}

abbrev pub path_nibble : Nibbles → ℕ
path_nibble p = get_or p 0 0

abbrev pub address_nibble : B256 → ℕ
address_nibble a = get_or a 0 0 / 16

-- The shard of a node that an account's or the state's trie can hold.
abbrev pub node_shard : Node → ℕ
node_shard (none, p, n) = path_nibble p
node_shard (some a, p, n) = address_nibble a

-- What reth emits: an account is a hash, and a path of the state trie is not empty.
abbrev pub IsEmitted : Node → Type 0
IsEmitted (none, p, n) = IsStoredPath p
IsEmitted (some a, p, n) = IsB256 a

pub record IsShard (i : ℕ) (u : TrieUpdates) : Type 0 where
  pub accounts : Keyed path_nibble i u.account_nodes
  pub tries : Keyed address_nibble i u.storage_tries

pub record IsSharded (sink : TrieUpdatesSink) : Type 0 where
  pub sixteen : length sink.shards ≡ 16
  pub each : (i : ℕ) → IsShard i (get_or sink.shards i no_updates)

Keyed-insert :
    {V : Type 0} (place : List ℕ → ℕ) (i : ℕ) (k : List ℕ) (v : V) (d : Dict (List ℕ) V)
    → place k ≡ i
    → Keyed place i d
    → Keyed place i (Dict.insert k v d)
Keyed-insert place i k v d at h = record {
  at_place = λ j w found. elim (digits_discrete k j) [
    | yes same ↦ ap place (sym same) ∙ at
    | no other ↦ ground (arith, Dict.lookup-insert j k v d, h.at_place j w)
  ];
  nodup = Dict.insert-NodupKeys k v d h.nodup;
}

Keyed-nil : {V : Type 0} (place : List ℕ → ℕ) (i : ℕ) → Keyed {V = V} place i []
unfolding Dict.lookup
Keyed-nil place i = record { at_place = λ j v h. absurd (cc); nodup = tt }

insert_node-IsShard :
    (i : ℕ) (u : TrieUpdates) (e : Node)
    → node_shard e ≡ i
    → IsShard i u
    → IsShard i (insert_node u e).0
unfolding insert_node
insert_node-IsShard i u (none, p, n) at h = record {
  accounts = Keyed-insert path_nibble i p n u.account_nodes at h.accounts;
  tries = h.tries;
}
insert_node-IsShard i u (some a, p, n) at h = record {
  accounts = h.accounts;
  tries = Keyed-insert address_nibble i a _ u.storage_tries at h.tries;
}

pub empty_sink-IsSharded : IsSharded empty_sink
empty_sink-IsSharded = record {
  sixteen = refl;
  each = λ i.
      rw (get_or-replicate 16 i no_updates)
        (record { accounts = Keyed-nil path_nibble i; tries = Keyed-nil address_nibble i });
}

-- A node that reth emits has a shard, below sixteen.
pub shard_of-IsEmitted :
    (e : Node) → IsEmitted e → (shard_of e.0 e.1 ≡ some (node_shard e)) × (node_shard e < 16)
unfolding shard_of
shard_of-IsEmitted (none, [], n) h = absurd (h.0 refl)
shard_of-IsEmitted (none, x ∷ p, n) h = (refl, h.1.0)
shard_of-IsEmitted (some [], p, n) h = (refl, omega arith)
shard_of-IsEmitted (some (b ∷ a), p, n) h = (refl, omega arith)

-- So of the call's panics only the assertion is left, after `insert_at`.
pub on_branch_node_total :
    (debug : Bool) (sink : TrieUpdatesSink) (e : Node)
    → IsEmitted e
    → on_branch_node debug sink e ≡ check_prev debug (insert_at sink (node_shard e) e)
unfolding on_branch_node
on_branch_node_total debug sink e h =
    let (p, lt) = shard_of-IsEmitted e h in rw (p, on_branch_node) (ground arith)

pub insert_at-IsSharded :
    (sink : TrieUpdatesSink) (e : Node)
    → IsEmitted e
    → IsSharded sink
    → IsSharded (insert_at sink (node_shard e) e).0
insert_at-IsSharded sink e h s = record {
  sixteen = length-set sink.shards (node_shard e) _ ∙ s.sixteen;
  each = λ i. elim (ℕ_discrete (node_shard e) i) [
    | yes same ↦ rw (← same) (
        rw
          (get_or-set_self sink.shards (node_shard e) _ no_updates
            (omega (arith, (shard_of-IsEmitted e h).1, s.sixteen)))
          (insert_node-IsShard (node_shard e) _ e refl (s.each (node_shard e))))
    | no other ↦ rw (get_or-set_ne sink.shards (node_shard e) i _ no_updates other) (s.each i)
  ];
}

-- The invariant in the form that the merge takes.
pub all_keyed :
    {V : Type 0} (place : List ℕ → ℕ) (f : TrieUpdates → Dict (List ℕ) V) (k : ℕ)
    (us : List TrieUpdates)
    → ((i : ℕ) → Keyed place (k + i) (f (get_or us i no_updates)))
    → AllKeyed place k (map f us)
all_keyed place f k [] h = tt
all_keyed place f k (u ∷ us) h = (
  subst (λ t. Keyed place t (f u)) (add-zero k) (h 0),
  all_keyed place f (suc k) us
      (λ i. subst (λ t. Keyed place t (f (get_or us i no_updates))) (omega arith) (h (suc i))),
)
