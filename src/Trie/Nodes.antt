-- ===== src/Trie/Nodes.antt =====
-- The nodes of a `TrieUpdates`, as a map from account and path, and as a list; and how one more
-- node changes both.
use mathlib.Core.List.{append_assoc, append-nil, perm_middle}
use reth_trie_rebuild_bench.Base.{
  ◌≡◌, refl, sym, ap, Option, none, some, List, [], ◌∷◌, ◌++◌, Perm, arith, ite, Option-cases, inl,
  inr,
}
use reth_trie_rebuild_bench.Base.Dict
use reth_trie_rebuild_bench.Base.Dict.{Dict, Eq, NodupKeys, override}
use reth_trie_rebuild_bench.Trie.{
  B256, Nibbles, BranchNodeCompact, StorageTrieUpdates, TrieUpdates, no_storage, Node,
  digits_discrete, digits_eq,
}

-- `map.get(&k).unwrap_or_default()`
abbrev pub or_default : Option StorageTrieUpdates → StorageTrieUpdates
or_default none = no_storage
or_default (some t) = t

-- What `entry(hashed_address).or_default().storage_nodes` reads.
abbrev pub storage_of : B256 → Dict B256 StorageTrieUpdates → StorageTrieUpdates
storage_of a tries = or_default (Dict.lookup a tries)

abbrev insert_storage_node : StorageTrieUpdates → Nibbles → BranchNodeCompact → StorageTrieUpdates
insert_storage_node t p n = record t { storage_nodes = Dict.insert p n t.storage_nodes }

-- The node map with one more node, and the node that stood in its place: both sinks' `match`.
unfoldable pub insert_node : TrieUpdates → Node → TrieUpdates × Option BranchNodeCompact
insert_node u (none, p, n) =
    (record u { account_nodes = Dict.insert p n u.account_nodes }, Dict.lookup p u.account_nodes)
insert_node u (some a, p, n) =
    let t = storage_of a u.storage_tries in
    (
      record u { storage_tries = Dict.insert a (insert_storage_node t p n) u.storage_tries },
      Dict.lookup p t.storage_nodes,
    )

-- The node at an account and path.
unfoldable pub node_at : TrieUpdates → Option B256 → Nibbles → Option BranchNodeCompact
node_at u none p = Dict.lookup p u.account_nodes
node_at u (some a) p = Dict.lookup p (storage_of a u.storage_tries).storage_nodes

-- All nodes under one account, and all nodes.
abbrev pub nodes_under : Option B256 → Dict Nibbles BranchNodeCompact → List Node
nodes_under a [] = []
nodes_under a ((p, n) ∷ d) = (a, p, n) ∷ nodes_under a d

abbrev pub storage_nodes_of : Dict B256 StorageTrieUpdates → List Node
storage_nodes_of [] = []
storage_nodes_of ((a, t) ∷ d) = nodes_under (some a) t.storage_nodes ++ storage_nodes_of d

unfoldable pub nodes : TrieUpdates → List Node
nodes u = nodes_under none u.account_nodes ++ storage_nodes_of u.storage_tries

-- Whether two nodes stand in the same place.
abbrev pub SamePlace : Option B256 → Nibbles → Option B256 → Nibbles → Type 0
SamePlace a p b q = (a ≡ b) × (p ≡ q)

-- The last node that a list of emissions has for an account and path.
unfoldable pub emitted_at : List Node → Option B256 → Nibbles → Option BranchNodeCompact
emitted_at [] a p = none
emitted_at ((none, q, n) ∷ es) none p =
    override (ite (digits_discrete q p) (some n) none) (emitted_at es none p)
emitted_at ((none, q, n) ∷ es) (some a) p = emitted_at es (some a) p
emitted_at ((some b, q, n) ∷ es) none p = emitted_at es none p
emitted_at ((some b, q, n) ∷ es) (some a) p =
    override (ite (digits_discrete b a) (ite (digits_discrete q p) (some n) none) none)
      (emitted_at es (some a) p)

pub none-override : {V : Type 0} (x : Option V) → override none x ≡ x
none-override none = refl
none-override (some x) = refl

pub override_assoc :
    {V : Type 0} (x y z : Option V) → override (override x y) z ≡ override x (override y z)
override_assoc x y none = refl
override_assoc x y (some z) = refl

pub emitted_at-cons :
    (e : Node) (es : List Node) (a : Option B256) (p : Nibbles)
    → emitted_at (e ∷ es) a p ≡ override (emitted_at (e ∷ []) a p) (emitted_at es a p)
unfolding emitted_at
emitted_at-cons (none, q, n) es none p = refl
emitted_at-cons (none, q, n) es (some a) p = ground arith
emitted_at-cons (some b, q, n) es none p = ground arith
emitted_at-cons (some b, q, n) es (some a) p = refl

-- One node changes the map at its own place and nowhere else, and hands back what stood there.
pub node_at-insert_node :
    (u : TrieUpdates) (e : Node) (a : Option B256) (p : Nibbles)
    → node_at (insert_node u e).0 a p ≡ override (node_at u a p) (emitted_at (e ∷ []) a p)
unfolding node_at insert_node emitted_at
node_at-insert_node u (none, q, n) none p = ground (arith, Dict.lookup-insert p q n u.account_nodes)
node_at-insert_node u (none, q, n) (some a) p = refl
node_at-insert_node u (some b, q, n) none p = refl
node_at-insert_node u (some b, q, n) (some a) p = ground (
  arith,
  Dict.lookup-insert a b (insert_storage_node (storage_of b u.storage_tries) q n) u.storage_tries,
  Dict.lookup-insert p q n (storage_of b u.storage_tries).storage_nodes,
)

pub insert_node-prev : (u : TrieUpdates) (e : Node) → (insert_node u e).1 ≡ node_at u e.0 e.1
unfolding node_at insert_node
insert_node-prev u (none, q, n) = refl
insert_node-prev u (some b, q, n) = refl

pub nodes_under-append :
    (a : Option B256) (d e : Dict Nibbles BranchNodeCompact)
    → nodes_under a (d ++ e) ≡ nodes_under a d ++ nodes_under a e
nodes_under-append a [] e = refl
nodes_under-append a ((p, n) ∷ d) e = ap (◌∷◌ (a, p, n)) (nodes_under-append a d e)

pub storage_nodes_of-append :
    (d e : Dict B256 StorageTrieUpdates)
    → storage_nodes_of (d ++ e) ≡ storage_nodes_of d ++ storage_nodes_of e
storage_nodes_of-append [] e = refl
storage_nodes_of-append ((a, t) ∷ d) e = rw (storage_nodes_of-append d e) (
    sym (
      append_assoc (nodes_under (some a) t.storage_nodes) (storage_nodes_of d)
        (storage_nodes_of e)))

perm_at :
    (l r : List Node) (e : Node) {xs ys : List Node}
    → xs ≡ l ++ e ∷ r
    → ys ≡ l ++ r
    → Perm xs (e ∷ ys)
perm_at l r e p q = rw (p, q) (perm_middle l r)

ruleset list_laws = (storage_nodes_of-append, nodes_under-append, append_assoc, append-nil)

module _ (u : TrieUpdates) (b : B256) (q : Nibbles) (n : BranchNodeCompact) where
  open u use {account_nodes, storage_tries}

  abbrev here : List Node
  here = nodes_under none account_nodes

  new_account-perm :
      Dict.lookup b storage_tries ≡ none
      → Perm (nodes (insert_node u (some b, q, n)).0) ((some b, q, n) ∷ nodes u)
  unfolding nodes insert_node
  new_account-perm h =
      perm_at (here ++ storage_nodes_of storage_tries) [] (some b, q, n)
        (rw (h, insert_node, Dict.insert_fresh b _ storage_tries h)
          (unfold Dict.insert in simp list_laws))
        (simp list_laws)

  old_account-perm :
      (t : StorageTrieUpdates)
      → Dict.lookup b storage_tries ≡ some t
      → Dict.lookup q t.storage_nodes ≡ none
      → Perm (nodes (insert_node u (some b, q, n)).0) ((some b, q, n) ∷ nodes u)
  unfolding nodes insert_node
  old_account-perm t h fresh =
      let (l, r, p, i) = Dict.insert_present b t (insert_storage_node t q n) storage_tries h in
      perm_at (here ++ storage_nodes_of l ++ nodes_under (some b) t.storage_nodes)
        (storage_nodes_of r) (some b, q, n)
        (rw (h, insert_node, i) (simp (list_laws, Dict.insert_fresh q n t.storage_nodes fresh)))
        (rw p (simp list_laws))

-- A node in a new place is one more node, and disturbs no other.
pub nodes-insert_node :
    (u : TrieUpdates) (e : Node)
    → node_at u e.0 e.1 ≡ none
    → Perm (nodes (insert_node u e).0) (e ∷ nodes u)
unfolding nodes insert_node node_at
nodes-insert_node u (none, q, n) h =
    perm_at (nodes_under none u.account_nodes) (storage_nodes_of u.storage_tries) (none, q, n)
      (rw (Dict.insert_fresh q n u.account_nodes h) (simp list_laws)) refl
nodes-insert_node u (some b, q, n) h = elim (Option-cases (Dict.lookup b u.storage_tries)) [
  | inl new ↦ new_account-perm u b q n new
  | inr (t, old) ↦ old_account-perm u b q n t old (rw old at h)
]
