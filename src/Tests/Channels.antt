-- ===== src/Tests/Channels.antt =====
-- The writer behind its channel.
use reth_trie_rebuild_bench.Base.{◌≡◌, refl, Bool, List, [], ◌∷◌, concat, arith, max}
use reth_trie_rebuild_bench.Base.Result.{ok}
use reth_trie_rebuild_bench.Trie.{Node}
use reth_trie_rebuild_bench.Rebuild.{uses_packed_trie_keys}
use reth_trie_rebuild_bench.Writer.{Outcome, write_sink}
use reth_trie_rebuild_bench.Writer.Committed.{DbExtends, chunks_of}
use reth_trie_rebuild_bench.Writer.Channel.{Traffic, closed, sent, received, write_sink-Traffic}
use reth_trie_rebuild_bench.Tests.Data.{
  account_node, storage_node, deep_node, emitted-IsStored, emitted-Distinct,
}
use reth_trie_rebuild_bench.Tests.Tables.{log_db, log_db-IsTrieDb, log_db-NeverFails}

abbrev workers : List (List Node)
workers = (account_node ∷ storage_node ∷ []) ∷ (deep_node ∷ []) ∷ []

-- The second worker sends between the nodes of the first, and the writer lags by two.
lagging : Traffic workers [] (account_node ∷ deep_node ∷ storage_node ∷ [])
lagging = sent [] ((deep_node ∷ []) ∷ []) account_node (storage_node ∷ []) refl (omega arith) (
    sent ((storage_node ∷ []) ∷ []) [] deep_node [] refl (omega arith) (
      received account_node (
        sent [] ([] ∷ []) storage_node [] refl (omega arith)
          (received deep_node (received storage_node (closed refl))))))

write_sink-Traffic_example :
    (tx : List Node) × (k : Bool) × (o : Outcome log_db) × (log_db.tx [] ≡ ok tx)
    × (uses_packed_trie_keys log_db tx ≡ ok k)
    × (write_sink log_db 2 [] (account_node ∷ deep_node ∷ storage_node ∷ []) ≡ ok o)
    × (o.result ≡ ok (record { nodes = 3; chunks = chunks_of (max 2 1) 3 }))
    × DbExtends log_db log_db-IsTrieDb k [] (concat workers) o.db
write_sink-Traffic_example =
    write_sink-Traffic log_db log_db-IsTrieDb log_db-NeverFails 2 [] workers
      (account_node ∷ deep_node ∷ storage_node ∷ []) emitted-IsStored emitted-Distinct lagging
