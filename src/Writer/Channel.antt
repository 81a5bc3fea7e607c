-- ===== src/Writer/Channel.antt =====
-- The bounded channel between the workers of a build and the writer.
use mathlib.Core.List.{append_assoc, perm_middle}
use mathlib.Core.List.Perm
use reth_trie_rebuild_bench.Base.{
  ℕ, ◌<◌, ◌≡◌, ap, ◌∙◌, max, Bool, List, [], ◌∷◌, ◌++◌, Perm, All, length, concat, concat-append,
}
use reth_trie_rebuild_bench.Base.Perms.{All-perm, length-perm}
use reth_trie_rebuild_bench.Base.Result.{ok}
use reth_trie_rebuild_bench.Trie.{Node}
use reth_trie_rebuild_bench.Trie.Distinct.{Distinct, Distinct-perm, emitted_at-perm}
use reth_trie_rebuild_bench.Database.{TrieDb, IsTrieDb, NeverFails}
use reth_trie_rebuild_bench.Rebuild.{uses_packed_trie_keys}
use reth_trie_rebuild_bench.Writer.{channel_capacity, Outcome, write_sink}
use reth_trie_rebuild_bench.Writer.Chunk.{IsStored}
use reth_trie_rebuild_bench.Writer.Committed.{DbExtends, chunks_of}
use reth_trie_rebuild_bench.Writer.Total.{write_sink_total}

-- A run from here to the end: the nodes that each worker has yet to send, those in the channel, and
-- those that the writer goes on to receive. A worker sends when there is room, and the writer
-- receives what was sent first; `finish` closes the channel once the workers are done.
pub data Traffic : List (List Node) → List Node → List Node → Type 0 where
  closed : {ws : List (List Node)} → concat ws ≡ [] → Traffic ws [] []
  sent :
      {ws : List (List Node)} {q rs : List Node} (l r : List (List Node)) (e : Node) (t : List Node)
      → ws ≡ l ++ (e ∷ t) ∷ r
      → length q < channel_capacity
      → Traffic (l ++ t ∷ r) (q ++ e ∷ []) rs
      → Traffic ws q rs
  received :
      {ws : List (List Node)} {q rs : List Node} (e : Node)
      → Traffic ws q rs
      → Traffic ws (e ∷ q) (e ∷ rs)

-- The writer receives what is in the channel and what the workers have, each node once.
Traffic-perm :
    {ws : List (List Node)} {q rs : List Node} → Traffic ws q rs → Perm rs (q ++ concat ws)
Traffic-perm (closed h) = rw h Perm.nil
Traffic-perm (received e run) = Perm.cons e (Traffic-perm run)
Traffic-perm (sent {q = q} l r e t h room run) =
    let later = concat l ++ (t ++ concat r) in
    let regroup : (q ++ e ∷ []) ++ later ≡ q ++ e ∷ later = append_assoc q (e ∷ []) later in
    rw (h, concat-append l ((e ∷ t) ∷ r))
      (Perm.trans (rw (concat-append l (t ∷ r), regroup) at (Traffic-perm run))
        (Perm.append_left q (Perm.symm (perm_middle (concat l) (t ++ concat r)))))

pub IsStored-prop : (e : Node) → IsProp (IsStored e)
IsStored-prop e = hlevel

module _ (D : TrieDb) (L : IsTrieDb D) (F : NeverFails D) where
  -- However the workers' sends interleave with one another and with the writer, where no database
  -- operation fails: the sink returns, has counted every node of every worker once, in as few
  -- commits of at most `chunk_nodes` (but at least one) nodes as that takes, and the tables, in the
  -- key encoding that the settings name, have those nodes over what they had. No two nodes
  -- have the same place, and none is the root of a trie.
  pub write_sink-Traffic :
      (chunk_nodes : ℕ) (db : D.Db) (ws : List (List Node)) (rs : List Node)
      → All IsStored (concat ws)
      → Distinct (concat ws)
      → Traffic ws [] rs
      → (tx : D.Tx) × (k : Bool) × (o : Outcome D) × (D.tx db ≡ ok tx)
        × (uses_packed_trie_keys D tx ≡ ok k)
        × (write_sink D chunk_nodes db rs ≡ ok o)
        × (o.result
            ≡ ok (record {
              nodes = length (concat ws);
              chunks = chunks_of (max chunk_nodes 1) (length (concat ws));
            }))
        × DbExtends D L k db (concat ws) o.db
  write_sink-Traffic chunk_nodes db ws rs stored distinct run =
      let p = Traffic-perm run in
      let stored' = All-perm IsStored IsStored-prop (concat ws) rs (Perm.symm p) stored in
      let distinct' = Distinct-perm (concat ws) rs (Perm.symm p) distinct in
      let (tx, k, o, opened, settings, returned, result, rows) =
        write_sink_total D L F chunk_nodes db rs stored' distinct' in
      let size = length-perm rs (concat ws) p in
      (
        tx,
        k,
        o,
        opened,
        settings,
        returned,
        result
            ∙ ap (λ (n : ℕ). ok (record { nodes = n; chunks = chunks_of (max chunk_nodes 1) n }))
                size,
        λ a b. rows a b ∙ rw (emitted_at-perm rs (concat ws) p distinct' a b),
      )
