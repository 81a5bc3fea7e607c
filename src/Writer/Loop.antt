-- ===== src/Writer/Loop.antt =====
-- What the writer leaves in the tables, and what it returns, on every outcome.
use mathlib.Core.List.{append_assoc, append-nil}
use reth_trie_rebuild_bench.Base.{
  ℕ, ◌+◌, ◌≤◌, ◌<◌, ◌≡◌, refl, Bool, true, false, List, [], ◌∷◌, ◌++◌, All, length, length-append,
  arith, leb, inl, inr, dec_lt,
}
use reth_trie_rebuild_bench.Base.Result.{ok, err, Result-cases}
use reth_trie_rebuild_bench.Trie.{Node}
use reth_trie_rebuild_bench.Trie.Distinct.{Distinct, Distinct-append}
use reth_trie_rebuild_bench.Database.{TrieDb, IsTrieDb}
use reth_trie_rebuild_bench.Writer.{
  Progress, flush, returned, receive, write_loop, start, write_chunks,
}
use reth_trie_rebuild_bench.Writer.Chunk.{
  IsStored, Holds, no_updates-Holds, next_fresh, insert_node-Holds,
}
use reth_trie_rebuild_bench.Writer.Committed.{
  Flushed, flush-Flushed, Committed, failed-Committed, idle-Committed, last-Committed,
  full-Committed,
}

module _ (D : TrieDb) (L : IsTrieDb D) (k : Bool) where
  -- The rounds of the loop, one equation for each branch.
  pub write_loop-idle :
      (n : ℕ) (s : Progress D)
      → s.pending ≡ 0
      → write_loop D k n s [] ≡ record { db = s.db; result = ok s.written }
  unfolding write_loop
  write_loop-idle n s h = ground arith

  pub write_loop-last :
      (n : ℕ) (s : Progress D) → 0 < s.pending → write_loop D k n s [] ≡ returned D s (flush D k s)
  unfolding write_loop
  write_loop-last n s h = ground arith

  pub write_loop-more :
      (n : ℕ) (s : Progress D) (e : Node) (es : List Node)
      → s.pending + 1 < n
      → write_loop D k n s (e ∷ es) ≡ write_loop D k n (receive D s e) es
  unfolding write_loop
  write_loop-more n s e es h =
      let short : leb n (s.pending + 1) ≡ false = ground arith in rw (short, write_loop)

  pub write_loop-full :
      (n : ℕ) (s t : Progress D) (e : Node) (es : List Node)
      → n ≤ s.pending + 1
      → flush D k (receive D s e) ≡ ok t
      → write_loop D k n s (e ∷ es) ≡ write_loop D k n t es
  unfolding write_loop
  write_loop-full n s t e es h f =
      let full : leb n (s.pending + 1) ≡ true = ground arith in
      rw (full, write_loop) (rw (f, write_loop))

  write_loop-failed :
      (n : ℕ) (s : Progress D) (e : Node) (es : List Node) (failure : D.Error)
      → n ≤ s.pending + 1
      → flush D k (receive D s e) ≡ err failure
      → write_loop D k n s (e ∷ es) ≡ record { db = s.db; result = err failure }
  unfolding write_loop
  write_loop-failed n s e es failure h f =
      let full : leb n (s.pending + 1) ≡ true = ground arith in
      rw (full, write_loop) (rw (f, write_loop))

  end-Committed :
      (n : ℕ) (s : Progress D) (cs : List Node)
      → 0 < n
      → length cs < n
      → s.pending ≡ length cs
      → Holds s.chunk cs
      → Distinct cs
      → Committed D L k n s.db s.written cs (write_loop D k n s [])
  end-Committed n s [] pos small count h d =
      rw (write_loop-idle n s count) (idle-Committed D L k n s pos)
  end-Committed n s (c ∷ cs) pos small count h d =
      rw (write_loop-last n s (omega (arith, count))) (elim (Result-cases (flush D k s)) [
        | inl (e, failed) ↦ rw failed (failed-Committed D L k n s (c ∷ cs) e)
        | inr (t, flushed) ↦ rw flushed (
            last-Committed D L k n s t (c ∷ cs) (omega arith) small
              (flush-Flushed D L k s (c ∷ cs) t h d flushed))
      ])

  abbrev Ready : ℕ → Progress D → List Node → Type 0
  Ready n s cs = (length cs < n) × (s.pending ≡ length cs) × Holds s.chunk cs

  Ready-Flushed :
      (n : ℕ) (s t : Progress D) (cs : List Node) → 0 < n → Flushed D L k s cs t → Ready n t []
  Ready-Flushed n s t cs pos f = (pos, f.1, rw f.0 no_updates-Holds)

  write_loop-Committed :
      (n : ℕ) (s : Progress D) (cs es : List Node)
      → 0 < n
      → Ready n s cs
      → All IsStored es
      → Distinct (cs ++ es)
      → Committed D L k n s.db s.written (cs ++ es) (write_loop D k n s es)
  write_loop-Committed n s cs [] pos (small, count, h) w d =
      rw (append-nil cs) (end-Committed n s cs pos small count h (Distinct-append cs [] d).0)
  write_loop-Committed n s cs (e ∷ es) pos (small, count, h) w d =
      let h' = insert_node-Holds s.chunk cs e w.0 (next_fresh cs e es d) h in
      let regroup = append_assoc cs (e ∷ []) es in
      let d' : Distinct ((cs ++ e ∷ []) ++ es) = rw regroup d in
      let size = length-append cs (e ∷ []) in
      rw (← regroup) (elim (dec_lt (s.pending + 1) n) [
        | yes short ↦ rw (write_loop-more n s e es short) (
            write_loop-Committed n (receive D s e) (cs ++ e ∷ []) es pos
              (omega (arith, size, short, count), omega (arith, size, count), h') w.1 d')
        | no full ↦ elim (Result-cases (flush D k (receive D s e))) [
          | inl (failure, failed) ↦
              rw (write_loop-failed n s e es failure (omega arith) failed)
                (failed-Committed D L k n s ((cs ++ e ∷ []) ++ es) failure)
          | inr (t, flushed) ↦
              let f =
                flush-Flushed D L k (receive D s e) (cs ++ e ∷ []) t h'
                  (Distinct-append (cs ++ e ∷ []) es d').0 flushed in
              rw (write_loop-full n s t e es (omega arith) flushed) (
                full-Committed D L k n s t (cs ++ e ∷ []) es (write_loop D k n t es) pos
                  (omega (arith, size, count, small)) f
                  (write_loop-Committed n t [] es pos
                    (Ready-Flushed n (receive D s e) t (cs ++ e ∷ []) pos f) w.1
                    (Distinct-append (cs ++ e ∷ []) es d').1))
        ]
      ])

  pub write_chunks_lem :
      (n : ℕ) (db : D.Db) (es : List Node)
      → 0 < n
      → All IsStored es
      → Distinct es
      → Committed D L k n db (record { nodes = 0; chunks = 0 }) es (write_chunks D k n db es)
  unfolding write_chunks
  write_chunks_lem n db es pos w d =
      write_loop-Committed n (start D db) [] es pos (pos, refl, no_updates-Holds) w d
