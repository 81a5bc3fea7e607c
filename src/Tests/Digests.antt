-- ===== src/Tests/Digests.antt =====
-- The digest.
use mathlib.Core.List.Perm
use reth_trie_rebuild_bench.Base.{
  true, ◌+◌, ◌*◌, ◌/◌, ◌≤◌, ◌≡◌, refl, ap, some, List, [], ◌∷◌, map, length,
}
use reth_trie_rebuild_bench.Trie.{Node}
use reth_trie_rebuild_bench.Updates.{TrieUpdatesSink, empty_sink, collect, into_trie_updates}
use reth_trie_rebuild_bench.Digest.{
  new_digest, seed_hi, seed_lo, push_all, snapshot, of_trie_updates, buffer,
}
use reth_trie_rebuild_bench.Digest.Order.{push_all-perm}
use reth_trie_rebuild_bench.Digest.Atomics.{
  Op, xor_hi, xor_lo, add_one, Schedule, finished, step, apply_all, thread_ops, push_ops,
  Schedule-push_all,
}
use reth_trie_rebuild_bench.Digest.Encoding.{buffer_injective, length-buffer}
use reth_trie_rebuild_bench.Digest.Snapshot.{
  push_all-IsWords, new_digest-IsWords, snapshot_injective,
}
use reth_trie_rebuild_bench.Digest.Parity.{digest_parity}
use reth_trie_rebuild_bench.Tests.Data.{
  emitted, account_node, deep_node, toy_hashing, toy-IsPacking, account_node-IsNode,
  emitted-IsEmitted, emitted-Distinct,
}

digest_parity_example :
    (sink : TrieUpdatesSink) × (collect true empty_sink emitted ≡ some sink)
    × (snapshot (push_all toy_hashing new_digest emitted)
        ≡ of_trie_updates toy_hashing (into_trie_updates sink))
digest_parity_example = digest_parity toy_hashing true emitted emitted-IsEmitted emitted-Distinct

swapped_pushes :
    push_all toy_hashing new_digest (account_node ∷ deep_node ∷ [])
    ≡ push_all toy_hashing new_digest (deep_node ∷ account_node ∷ [])
swapped_pushes =
    push_all-perm toy_hashing new_digest (account_node ∷ deep_node ∷ [])
      (deep_node ∷ account_node ∷ []) (Perm.swap deep_node account_node [])

-- Two workers with one node each, the second between the operations of the first.
abbrev account_hi : Op
account_hi = xor_hi (toy_hashing.hash_one seed_hi (buffer toy_hashing account_node))

abbrev account_lo : Op
account_lo = xor_lo (toy_hashing.hash_one seed_lo (buffer toy_hashing account_node))

abbrev deep_hi : Op
deep_hi = xor_hi (toy_hashing.hash_one seed_hi (buffer toy_hashing deep_node))

abbrev deep_lo : Op
deep_lo = xor_lo (toy_hashing.hash_one seed_lo (buffer toy_hashing deep_node))

abbrev workers : List (List Node)
workers = (account_node ∷ []) ∷ (deep_node ∷ []) ∷ []

abbrev interleaved : List Op
interleaved = account_hi ∷ deep_hi ∷ deep_lo ∷ account_lo ∷ add_one ∷ add_one ∷ []

interleaved-Schedule : Schedule (map (thread_ops toy_hashing) workers) interleaved
unfolding thread_ops push_ops
interleaved-Schedule =
    step [] ((deep_hi ∷ deep_lo ∷ add_one ∷ []) ∷ []) account_hi (account_lo ∷ add_one ∷ []) refl (
      step ((account_lo ∷ add_one ∷ []) ∷ []) [] deep_hi (deep_lo ∷ add_one ∷ []) refl (
        step ((account_lo ∷ add_one ∷ []) ∷ []) [] deep_lo (add_one ∷ []) refl (
          step [] ((add_one ∷ []) ∷ []) account_lo (add_one ∷ []) refl (
            step ((add_one ∷ []) ∷ []) [] add_one [] refl
              (step [] ([] ∷ []) add_one [] refl (finished refl))))))

Schedule-push_all_example :
    apply_all new_digest interleaved
    ≡ push_all toy_hashing new_digest (account_node ∷ deep_node ∷ [])
Schedule-push_all_example =
    Schedule-push_all toy_hashing new_digest workers interleaved interleaved-Schedule

snapshot_injective_example :
    push_all toy_hashing new_digest (account_node ∷ deep_node ∷ [])
    ≡ push_all toy_hashing new_digest (deep_node ∷ account_node ∷ [])
snapshot_injective_example =
    snapshot_injective (push_all toy_hashing new_digest (account_node ∷ deep_node ∷ []))
      (push_all toy_hashing new_digest (deep_node ∷ account_node ∷ []))
      (push_all-IsWords toy_hashing new_digest (account_node ∷ deep_node ∷ []) new_digest-IsWords)
      (push_all-IsWords toy_hashing new_digest (deep_node ∷ account_node ∷ []) new_digest-IsWords)
      (ap snapshot swapped_pushes)

buffer_injective_example : account_node ≡ account_node
buffer_injective_example =
    buffer_injective toy_hashing account_node account_node toy-IsPacking account_node-IsNode
      account_node-IsNode refl

length-buffer_example :
    (length (buffer toy_hashing account_node) ≡ 73 + (1 + 1) / 2 + 32 * 1)
    × (1 ≤ 17 → length (buffer toy_hashing account_node) ≤ 32 + 1 + 1 + 32 + 6 + 32 * 17 + 33)
length-buffer_example = length-buffer toy_hashing account_node toy-IsPacking account_node-IsNode
