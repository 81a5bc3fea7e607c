-- ===== src/Writer/Chunk.antt =====
-- The writer's chunk while it fills.
use mathlib.Core.List.{perm_middle, perm_append_singleton}
use mathlib.Core.List.Perm
use reth_trie_rebuild_bench.Base.{
  ◌≡◌, ◌≢◌, refl, sym, ◌∙◌, Option, none, some, List, [], ◌∷◌, ◌++◌, Perm, Option-cases, inl, inr,
}
use reth_trie_rebuild_bench.Base.Dict
use reth_trie_rebuild_bench.Base.Dict.{Dict, override}
use reth_trie_rebuild_bench.Trie.{
  B256, Nibbles, StorageTrieUpdates, TrieUpdates, no_updates, Node, digits_eq,
}
use reth_trie_rebuild_bench.Trie.Nodes.{
  insert_node, node_at, nodes, emitted_at, storage_of, node_at-insert_node, nodes-insert_node,
}
use reth_trie_rebuild_bench.Trie.Distinct.{
  Distinct, Distinct-perm, emitted_at-append, override-none,
}
use reth_trie_rebuild_bench.Database.{AddsOnly, AddsNodes, NoRoot}

-- A node that the tables can hold: not the root of a trie.
abbrev pub IsStored : Node → Type 0
IsStored e = e.1 ≢ []

-- The chunk holds the nodes that were received since the last commit.
pub record Holds (chunk : TrieUpdates) (cs : List Node) : Type 0 where
  pub at : (a : Option B256) (p : Nibbles) → node_at chunk a p ≡ emitted_at cs a p
  pub perm : Perm (nodes chunk) cs
  pub adds : AddsOnly chunk
  pub no_root : NoRoot chunk.account_nodes

pub no_updates-Holds : Holds no_updates []
unfolding node_at emitted_at nodes Dict.lookup
no_updates-Holds = record {
  at = nowhere;
  perm = Perm.nil;
  adds = record { accounts = refl; tries = tt };
  no_root = tt;
}
  where
    nowhere : (a : Option B256) (p : Nibbles) → node_at no_updates a p ≡ emitted_at [] a p
    nowhere none p = refl
    nowhere (some a) p = refl

insert_node-AddsOnly :
    (u : TrieUpdates) (e : Node) → IsStored e → AddsOnly u → AddsOnly (insert_node u e).0
unfolding insert_node
insert_node-AddsOnly u (none, p, n) w h = record { accounts = h.accounts; tries = h.tries }
insert_node-AddsOnly u (some a, p, n) w h = record {
  accounts = h.accounts;
  tries = Dict.All-insert (λ e. AddsNodes e.1) a _ u.storage_tries (λ j v _. grown) grown h.tries;
}
  where
    t : StorageTrieUpdates
    t = storage_of a u.storage_tries

    old : AddsNodes t
    old = elim (Option-cases (Dict.lookup a u.storage_tries)) [
      | inl absent ↦ rw absent ((refl, refl), tt)
      | inr (t, found) ↦ rw found (Dict.All-lookup AddsNodes a t u.storage_tries h.tries found)
    ]

    grown : AddsNodes (record t { storage_nodes = Dict.insert p n t.storage_nodes })
    grown = (old.0, Dict.All-insert (λ e. e.0 ≢ []) p n t.storage_nodes (λ j m k. k) w old.1)

insert_node-NoRoot :
    (u : TrieUpdates) (e : Node)
    → IsStored e
    → NoRoot u.account_nodes
    → NoRoot (insert_node u e).0.account_nodes
unfolding insert_node
insert_node-NoRoot u (none, p, n) w h =
    Dict.All-insert (λ e. e.0 ≢ []) p n u.account_nodes (λ j m k. k) w h
insert_node-NoRoot u (some a, p, n) w h = h

-- In a run with no place twice, the next node's place is free.
pub next_fresh :
    (cs : List Node) (e : Node) (es : List Node)
    → Distinct (cs ++ e ∷ es)
    → emitted_at cs e.0 e.1 ≡ none
next_fresh cs e es d =
    let d' = Distinct-perm (cs ++ e ∷ es) (e ∷ (cs ++ es)) (perm_middle cs es) d in
    override-none (emitted_at cs e.0 e.1) (emitted_at es e.0 e.1)
      (sym (emitted_at-append cs es e.0 e.1) ∙ d'.0)

pub insert_node-Holds :
    (chunk : TrieUpdates) (cs : List Node) (e : Node)
    → IsStored e
    → emitted_at cs e.0 e.1 ≡ none
    → Holds chunk cs
    → Holds (insert_node chunk e).0 (cs ++ e ∷ [])
insert_node-Holds chunk cs e w fresh h = record {
  at = λ a p.
      node_at-insert_node chunk e a p ∙ rw (h.at a p) (sym (emitted_at-append cs (e ∷ []) a p));
  perm =
      Perm.trans (nodes-insert_node chunk e (h.at e.0 e.1 ∙ fresh))
        (Perm.trans (Perm.cons e h.perm) (Perm.symm (perm_append_singleton e cs)));
  adds = insert_node-AddsOnly chunk e w h.adds;
  no_root = insert_node-NoRoot chunk e w h.no_root;
}
