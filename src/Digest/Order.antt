-- ===== src/Digest/Order.antt =====
-- The digest does not depend on the order of the nodes.
use mathlib.Core.Logic.{∥∥₁_elim}
use mathlib.Core.List.{Permᴰ}
use reth_trie_rebuild_bench.Base.{
  ℕ, ◌≡◌, refl, sym, ap, ◌∙◌, bit_xor, Option, none, some, List, [], ◌∷◌, ◌++◌, Perm, arith,
}
use reth_trie_rebuild_bench.Base.Bits.{xor_comm, xor_assoc}
use reth_trie_rebuild_bench.Base.Dict.{Dict}
use reth_trie_rebuild_bench.Trie.{
  B256, Nibbles, BranchNodeCompact, StorageTrieUpdates, TrieUpdates, Node,
}
use reth_trie_rebuild_bench.Trie.Nodes.{nodes, nodes_under, storage_nodes_of}
use reth_trie_rebuild_bench.Digest.{
  Hashing, NodeDigest, new_digest, seed_hi, seed_lo, buffer, push, push_all, push_nodes, push_tries,
  snapshot, of_trie_updates,
}

pub NodeDigest-set : IsSet NodeDigest
NodeDigest-set = hlevel

-- Two terms may be folded in in either order.
pub xor_right_comm : (a b c : ℕ) → bit_xor (bit_xor a b) c ≡ bit_xor (bit_xor a c) b
xor_right_comm a b c = xor_assoc a b c ∙ (ap (bit_xor a) (xor_comm b c) ∙ sym (xor_assoc a c b))

module _ (x : Hashing) where
  push_comm : (d : NodeDigest) (e f : Node) → push x (push x d e) f ≡ push x (push x d f) e
  unfolding push
  push_comm d e f = ground (
    arith,
    xor_right_comm d.fold.0 (x.hash_one seed_hi (buffer x e)) (x.hash_one seed_hi (buffer x f)),
    xor_right_comm d.fold.1 (x.hash_one seed_lo (buffer x e)) (x.hash_one seed_lo (buffer x f)),
  )

  push_all-permᴰ :
      (d : NodeDigest) {es fs : List Node} → Permᴰ es fs → push_all x d es ≡ push_all x d fs
  unfolding push_all
  push_all-permᴰ d Permᴰ.nil = refl
  push_all-permᴰ d (Permᴰ.cons {b = f} e p) = rw e (push_all-permᴰ (push x d f) p)
  push_all-permᴰ d (Permᴰ.swap {a' = f} {b' = e} {l = l} p q) =
      rw (p, q) (ap (λ t. push_all x t l) (push_comm d e f))
  push_all-permᴰ d (Permᴰ.trans p q) = push_all-permᴰ d p ∙ push_all-permᴰ d q

  -- From any state of the counters, pushing the same nodes in any two orders leaves the same state.
  pub push_all-perm :
      (d : NodeDigest) (es fs : List Node) → Perm es fs → push_all x d es ≡ push_all x d fs
  push_all-perm d es fs p = ∥∥₁_elim p (NodeDigest-set _ _) (push_all-permᴰ d)

  pub push_all-append :
      (d : NodeDigest) (es fs : List Node)
      → push_all x d (es ++ fs) ≡ push_all x (push_all x d es) fs
  unfolding push_all
  push_all-append d [] fs = refl
  push_all-append d (e ∷ es) fs = push_all-append (push x d e) es fs

  push_nodes-eq :
      (d : NodeDigest) (a : Option B256) (ns : Dict Nibbles BranchNodeCompact)
      → push_nodes x d a ns ≡ push_all x d (nodes_under a ns)
  unfolding push_nodes push_all
  push_nodes-eq d a [] = refl
  push_nodes-eq d a ((p, n) ∷ ns) = push_nodes-eq (push x d (a, p, n)) a ns

  push_tries-eq :
      (d : NodeDigest) (ts : Dict B256 StorageTrieUpdates)
      → push_tries x d ts ≡ push_all x d (storage_nodes_of ts)
  unfolding push_tries push_all
  push_tries-eq d [] = refl
  push_tries-eq d ((a, t) ∷ ts) =
      push_tries-eq (push_nodes x d (some a) t.storage_nodes) ts
      ∙ rw (push_nodes-eq d (some a) t.storage_nodes)
          (sym (push_all-append d (nodes_under (some a) t.storage_nodes) (storage_nodes_of ts)))

  -- `of_trie_updates` pushes each node of the maps once.
  pub of_trie_updates-push_all :
      (u : TrieUpdates) → of_trie_updates x u ≡ snapshot (push_all x new_digest (nodes u))
  unfolding of_trie_updates nodes
  of_trie_updates-push_all u = ap snapshot (
      rw (push_nodes-eq new_digest none u.account_nodes) (
        push_tries-eq _ u.storage_tries
        ∙ sym (
            push_all-append new_digest (nodes_under none u.account_nodes)
              (storage_nodes_of u.storage_tries))))
