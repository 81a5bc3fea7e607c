-- ===== src/Digest/Parity.antt =====
-- The digest of a run against the digest of the `TrieUpdates` that the same run collects.
use reth_trie_rebuild_bench.Base.{◌≡◌, sym, ap, ◌∙◌, Bool, some, List, All}
use reth_trie_rebuild_bench.Trie.{Node}
use reth_trie_rebuild_bench.Updates.{TrieUpdatesSink, empty_sink, collect, into_trie_updates}
use reth_trie_rebuild_bench.Updates.Shards.{IsEmitted}
use reth_trie_rebuild_bench.Trie.Distinct.{Distinct}
use reth_trie_rebuild_bench.Updates.Distinct.{into_trie_updates-perm}
use reth_trie_rebuild_bench.Digest.{Hashing, new_digest, push_all, snapshot, of_trie_updates}
use reth_trie_rebuild_bench.Digest.Order.{push_all-perm, of_trie_updates-push_all}

-- A run of nodes whose account has 32 bytes, or which have none and a path of nibbles that is not
-- empty, with no account and path twice, feeds both sinks without a panic, and the digest fed
-- by the run is the digest of the updates that the collecting sink hands out.
pub digest_parity :
    (x : Hashing) (debug : Bool) (es : List Node)
    → All IsEmitted es
    → Distinct es
    → (sink : TrieUpdatesSink) × (collect debug empty_sink es ≡ some sink)
      × (snapshot (push_all x new_digest es) ≡ of_trie_updates x (into_trie_updates sink))
digest_parity x debug es h d =
    let (sink, run, p) = into_trie_updates-perm debug es h d in
    (
      sink,
      run,
      ap snapshot (sym (push_all-perm x new_digest _ es p))
          ∙ sym (of_trie_updates-push_all x (into_trie_updates sink)),
    )
