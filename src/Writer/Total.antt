-- ===== src/Writer/Total.antt =====
-- Where no database operation fails, the writer returns.
use mathlib.Core.List.{append-nil}
use reth_trie_rebuild_bench.Base.{
  ℕ, ◌+◌, ◌<◌, ◌≡◌, refl, sym, subst, ◌∙◌, ap, max, ℕ_discrete, dec_lt, Option-cases, Bool, Option,
  none, some, List, [], ◌∷◌, All, length, arith, inl, inr,
}
use reth_trie_rebuild_bench.Base.Dict.{Dict}
use reth_trie_rebuild_bench.Base.Ordered.{sort_by_key}
use reth_trie_rebuild_bench.Base.Result.{ok}
use reth_trie_rebuild_bench.Trie.{B256, Nibbles, BranchNodeCompact, TrieUpdates, Node}
use reth_trie_rebuild_bench.Trie.Distinct.{Distinct}
use reth_trie_rebuild_bench.Database.{TrieDb, IsTrieDb, NeverFails}
use reth_trie_rebuild_bench.Rebuild.{
  settings_packed, write_account, write_accounts, write_storages, write_trie_updates_with,
  uses_packed_trie_keys,
}
use reth_trie_rebuild_bench.Writer.{
  Written, Progress, Outcome, commit_chunk, flush, next_chunk, receive, write_loop, start,
  write_chunks, write_sink,
}
use reth_trie_rebuild_bench.Writer.Chunk.{IsStored}
use reth_trie_rebuild_bench.Writer.Committed.{DbExtends, chunks_of}
use reth_trie_rebuild_bench.Writer.Loop.{
  write_chunks_lem, write_loop-idle, write_loop-last, write_loop-more, write_loop-full,
}

module _ (D : TrieDb) (L : IsTrieDb D) (F : NeverFails D) where
  module _ (k : Bool) where
    write_account_total :
        (tx : D.Tx) (p : Nibbles) (n : Option BranchNodeCompact)
        → (r : ℕ × D.Tx) × (write_account D k tx p n ≡ ok r)
    unfolding write_account
    write_account_total tx [] (some n) = ((0, tx), refl)
    write_account_total tx (x ∷ p) (some n) =
        let (tx', e) = F.upsert_ok k tx (D.account_key k (x ∷ p)) n in ((1, tx'), rw e)
    write_account_total tx p none =
        let (found, e) = F.seek_exact_ok k tx (D.account_key k p) in
        elim (Option-cases found) [
          | inl absent ↦ ((0, tx), rw (e ∙ ap ok absent))
          | inr (n, present) ↦
              let (tx', e') = F.delete_current_ok k tx (D.account_key k p) in
              ((1, tx'), rw (e ∙ ap ok present) (rw e'))
        ]

    write_accounts_total :
        (d : Dict Nibbles (Option BranchNodeCompact)) (tx : D.Tx) (w : ℕ)
        → (r : ℕ × D.Tx) × (write_accounts D k tx w d ≡ ok r)
    unfolding write_accounts
    write_accounts_total [] tx w = ((w, tx), refl)
    write_accounts_total ((p, n) ∷ d) tx w =
        let ((c, tx'), e) = write_account_total tx p n in
        let (r, e') = write_accounts_total d tx' (w + c) in (r, rw e e')

    write_storages_total :
        (d : Dict B256 D.SortedStorage) (tx : D.Tx) (w : ℕ)
        → (r : ℕ × D.Tx) × (write_storages D k tx w d ≡ ok r)
    unfolding write_storages
    write_storages_total [] tx w = ((w, tx), refl)
    write_storages_total ((a, t) ∷ d) tx w =
        let ((c, tx'), e) = F.write_storage_ok k tx a t in
        let (r, e') = write_storages_total d tx' (w + c) in (r, rw e e')

    commit_chunk_total :
        (db : D.Db) (u : TrieUpdates) → (r : ℕ × D.Db) × (commit_chunk D k db u ≡ ok r)
    unfolding commit_chunk write_trie_updates_with
    commit_chunk_total db u =
        let (tx, e₁) = F.tx_mut_ok db in
        let (_, f₁) = F.cursor_write_ok k tx in
        let ((c, tx₁), e₂) = write_accounts_total (D.sorted_accounts u) tx 0 in
        let (_, f₂) = F.cursor_dup_write_ok k tx₁ in
        let ((n, tx₂), e₃) = write_storages_total (sort_by_key (D.sorted_tries u)) tx₁ c in
        let (db', e₄) = F.commit_ok tx₂ in ((n, db'), rw e₁ (rw f₁ (rw e₂ (rw f₂ (rw e₃ (rw e₄))))))

    flush_total : (s : Progress D) → (t : Progress D) × (flush D k s ≡ ok t)
    unfolding flush
    flush_total s =
        let ((n, db'), e) = commit_chunk_total s.db s.chunk in (next_chunk D s n db', rw e)

    write_loop_total :
        (n : ℕ) (s : Progress D) (es : List Node)
        → (w : Written) × ((write_loop D k n s es).result ≡ ok w)
    write_loop_total n s [] = elim (ℕ_discrete s.pending 0) [
      | yes none_left ↦ (s.written, rw (write_loop-idle D L k n s none_left))
      | no some_left ↦
          let (t, f) = flush_total s in
          (t.written, rw (write_loop-last D L k n s (omega arith)) (rw f))
    ]
    write_loop_total n s (e ∷ es) = elim (dec_lt (s.pending + 1) n) [
      | yes short ↦
          let (w, r) = write_loop_total n (receive D s e) es in
          (w, rw (write_loop-more D L k n s e es short) r)
      | no full ↦
          let (t, f) = flush_total (receive D s e) in
          let (w, r) = write_loop_total n t es in
          (w, rw (write_loop-full D L k n s t e es (omega arith) f) r)
    ]

  uses_packed_trie_keys_total : (tx : D.Tx) → (k : Bool) × (uses_packed_trie_keys D tx ≡ ok k)
  unfolding uses_packed_trie_keys
  uses_packed_trie_keys_total tx =
      let (found, e) = F.storage_settings_ok tx in (settings_packed D found, rw e)

  -- All of the received nodes, counted once each, in full chunks and a last one.
  abbrev pub all_written : ℕ → List Node → Written
  all_written n es = record { nodes = length es; chunks = chunks_of n (length es) }

  write_chunks_returns :
      (k : Bool) (n : ℕ) (db : D.Db) (es : List Node)
      → (w : Written) × ((write_chunks D k n db es).result ≡ ok w)
  unfolding write_chunks
  write_chunks_returns k n db es = write_loop_total k n (start D db) es

  write_chunks_total :
      (k : Bool) (n : ℕ) (db : D.Db) (es : List Node)
      → 0 < n
      → All IsStored es
      → Distinct es
      → ((write_chunks D k n db es).result ≡ ok (all_written n es))
        × DbExtends D L k db es (write_chunks D k n db es).db
  write_chunks_total k n db es pos w d =
      let c = write_chunks_lem D L k n db es pos w d in
      let (r, e) = write_chunks_returns k n db es in
      let (nothing_left, nodes, chunks) = c.finished r e in
      let totals : r ≡ all_written n es = ground (arith, nodes, chunks) in
      let all_done : c.done ≡ es = sym (c.split ∙ rw nothing_left (append-nil c.done)) in
      (
        e ∙ ap ok totals,
        subst (λ t. DbExtends D L k db t (write_chunks D k n db es).db) all_done c.rows,
      )

  -- From opening to `finish`: where no database operation fails, the sink returns. It has counted
  -- each node that the build sent, in as few commits of at most `chunk_nodes` (but at least one)
  -- nodes as that takes, and the tables, in the key encoding that the settings name, have those
  -- nodes over what they had. The nodes have different places, and none is the root of a trie.
  pub write_sink_total :
      (chunk_nodes : ℕ) (db : D.Db) (es : List Node)
      → All IsStored es
      → Distinct es
      → (tx : D.Tx) × (k : Bool) × (o : Outcome D) × (D.tx db ≡ ok tx)
        × (uses_packed_trie_keys D tx ≡ ok k)
        × (write_sink D chunk_nodes db es ≡ ok o)
        × (o.result ≡ ok (all_written (max chunk_nodes 1) es))
        × DbExtends D L k db es o.db
  unfolding write_sink
  write_sink_total chunk_nodes db es w d =
      let (tx, opened) = F.tx_ok db in
      let (k, settings) = uses_packed_trie_keys_total tx in
      let n = max chunk_nodes 1 in
      let (result, rows) = write_chunks_total k n db es (omega arith) w d in
      (tx, k, write_chunks D k n db es, opened, settings, rw opened (rw settings), result, rows)
