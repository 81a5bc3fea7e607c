-- ===== src/Tests/Rebuilds.antt =====
-- reth's rebuild, with a walk of three rounds.
use reth_trie_rebuild_bench.Base.{
  All, Option, ℕ, zero, suc, ◌/◌, ◌≡◌, refl, false, none, some, List, [], ◌∷◌, ◌++◌, length,
  replicate, arith,
}
use reth_trie_rebuild_bench.Base.Ordered.{sort_by_key}
use reth_trie_rebuild_bench.Base.Result.{Result, ok, err}
use reth_trie_rebuild_bench.Trie.{B256, Nibbles, digits_discrete, TrieUpdates, no_updates, Node}
use reth_trie_rebuild_bench.Rebuild.{
  uses_packed_trie_keys, clear_trie_tables, write_account, write_accounts, write_storages,
  write_trie_updates_with,
}
use reth_trie_rebuild_bench.Rebuild.Serial.{
  reth_rebuild, StateRootProgress, progress, complete, Walk, no_totals, round, Rebuild, rebuild,
}
use reth_trie_rebuild_bench.Rebuild.Serial.Totals.{
  Chunk, Completes, last, more, Fails, stop, more_first, totals_of, rebuild-Completes,
  rebuild-Fails,
}
use reth_trie_rebuild_bench.Rebuild.Serial.Contents.{OnlyAdds, all_nodes, reth_rebuild_lem}
use reth_trie_rebuild_bench.Trie.Nodes.{nodes, emitted_at}
use reth_trie_rebuild_bench.Trie.Distinct.{Distinct}
use reth_trie_rebuild_bench.Tests.Data.{branch}
use reth_trie_rebuild_bench.Tests.Tables.{log_db, log_db-IsTrieDb}

abbrev one_update : ℕ → TrieUpdates
one_update x = record no_updates { account_nodes = (x ∷ [], branch) ∷ [] }

-- The state is the number of rounds made; with a threshold the third round fails.
abbrev third : Option ℕ → Result ℕ (StateRootProgress ℕ)
third none = ok (complete (replicate 32 9) 5 (one_update 3))
third (some _) = err 404

abbrev rounds : Option ℕ → Option ℕ → Result ℕ (StateRootProgress ℕ)
rounds t none = ok (progress 1 10 (one_update 1))
rounds t (some zero) = err 500
rounds t (some (suc zero)) = ok (progress 2 20 (one_update 2))
rounds t (some (suc (suc n))) = third t

abbrev pub three_rounds : Walk log_db
three_rounds = record {
  State = ℕ;
  root_with_progress = λ k threshold tx state. rounds threshold state;
}

abbrev chunk : ℕ → ℕ → Chunk
chunk entries x = record { entries = entries; updates = one_update x; written = 1 }

abbrev rows : List ℕ → List Node
rows [] = []
rows (x ∷ xs) = rows xs ++ (none, x ∷ [], branch) ∷ []

all_rounds :
    Completes log_db three_rounds false none [] none
      (chunk 10 1 ∷ chunk 20 2 ∷ chunk 5 3 ∷ [])
      (replicate 32 9)
      (rows (3 ∷ 2 ∷ 1 ∷ []))
unfolding round write_trie_updates_with write_accounts write_account write_storages sort_by_key
all_rounds = more refl (more refl (last refl))

rebuild-Completes_example :
    (o : Rebuild log_db three_rounds) × (rebuild log_db three_rounds false none 3 [] ≡ some o)
    × (o.db ≡ rows (3 ∷ 2 ∷ 1 ∷ []))
    × (o.result
        ≡ ok (totals_of no_totals (chunk 10 1 ∷ chunk 20 2 ∷ chunk 5 3 ∷ []) (replicate 32 9)))
    × (length o.log ≡ 3 / 100)
rebuild-Completes_example =
    rebuild-Completes log_db three_rounds false none 3 all_rounds (omega arith)

two_rounds :
    Fails log_db three_rounds false
      (some 1)
      []
      none
      (chunk 10 1 ∷ chunk 20 2 ∷ [])
      404
      (rows (2 ∷ 1 ∷ []))
unfolding round write_trie_updates_with write_accounts write_account write_storages sort_by_key
two_rounds = more_first refl (more_first refl (stop refl))

rebuild-Fails_example :
    (o : Rebuild log_db three_rounds) × (rebuild log_db three_rounds false (some 1) 3 [] ≡ some o)
    × (o.db ≡ rows (2 ∷ 1 ∷ []))
    × (o.result ≡ err 404)
    × (length o.log ≡ 2 / 100)
rebuild-Fails_example = rebuild-Fails log_db three_rounds false (some 1) 3 two_rounds (omega arith)

three_chunks-OnlyAdds : All OnlyAdds (chunk 10 1 ∷ chunk 20 2 ∷ chunk 5 3 ∷ [])
three_chunks-OnlyAdds = (
  (record { accounts = refl; tries = tt }, ((λ e. cc), tt)),
  (
    (record { accounts = refl; tries = tt }, ((λ e. cc), tt)),
    ((record { accounts = refl; tries = tt }, ((λ e. cc), tt)), tt),
  ),
)

three_chunks-Distinct : Distinct (all_nodes (chunk 10 1 ∷ chunk 20 2 ∷ chunk 5 3 ∷ []))
unfolding nodes emitted_at digits_discrete
three_chunks-Distinct = (refl, (refl, (refl, tt)))

reth_rebuild_lem_example :
    (o : Rebuild log_db three_rounds) × (reth_rebuild log_db three_rounds none 3 [] ≡ ok (some o))
    × (o.result
        ≡ ok (record {
          root = replicate 32 9;
          entries = 35;
          written = length (all_nodes (chunk 10 1 ∷ chunk 20 2 ∷ chunk 5 3 ∷ []));
          chunks = 3;
        }))
    × ((a : Option B256) (p : Nibbles)
        → log_db-IsTrieDb.db_at false o.db a p
          ≡ emitted_at (all_nodes (chunk 10 1 ∷ chunk 20 2 ∷ chunk 5 3 ∷ [])) a p)
unfolding uses_packed_trie_keys clear_trie_tables
reth_rebuild_lem_example =
    reth_rebuild_lem log_db log_db-IsTrieDb three_rounds false none 3 [] [] [] refl refl refl
      all_rounds (omega arith) three_chunks-OnlyAdds three_chunks-Distinct
