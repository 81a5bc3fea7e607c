-- ===== src/Writer/Session.antt =====
-- The channel between the workers and a writer that may stop at a failed commit: a send then finds
-- no receiver, and panics.
use mathlib.Core.List.Perm
use reth_trie_rebuild_bench.Base.{
  ℕ, ◌<◌, ◌≡◌, Bool, true, false, List, [], ◌∷◌, ◌++◌, Perm, length, concat, leb, ◌⊎◌,
}
use reth_trie_rebuild_bench.Base.Result.{Result, ok, err}
use reth_trie_rebuild_bench.Trie.{Node}
use reth_trie_rebuild_bench.Trie.Distinct.{Distinct}
use reth_trie_rebuild_bench.Database.{TrieDb, IsTrieDb}
use reth_trie_rebuild_bench.Writer.{
  channel_capacity, Progress, Outcome, receive, flush, write_loop, write_chunks,
}
use reth_trie_rebuild_bench.Writer.Committed.{Committed}

module _ (D : TrieDb) (packed : Bool) (chunk_nodes : ℕ) where
  -- The writer in its loop, or stopped by an error, with the database as it was last committed.
  pub data Writer : Type 0 where
    running : Progress D → Writer
    stopped : D.Db → D.Error → Writer

  abbrev pub after_flush : Progress D → Result D.Error (Progress D) → Writer
  after_flush s (ok t) = running t
  after_flush s (err failure) = stopped s.db failure

  -- The body of the loop.
  unfoldable pub take_one : Progress D → Node → Writer
  take_one s e =
      let s' = receive D s e in
      elim (leb chunk_nodes s'.pending) [
        | true ↦ after_flush s' (flush D packed s')
        | false ↦ running s'
      ]

  -- How a session ends: `finish` returns, or a worker's send panics.
  pub data Ending : Type 0 where
    finished : Outcome D → Ending
    panicked : D.Db → Ending

  -- A session from here to its end, as the runs of `Traffic`, with a writer that may have stopped.
  pub data Session : List (List Node) → List Node → Writer → Ending → Type 0 where
    closed :
        {ws : List (List Node)} {s : Progress D}
        → concat ws ≡ []
        → Session ws [] (running s) (finished (write_loop D packed chunk_nodes s []))
    failed :
        {ws : List (List Node)} {q : List Node} {db : D.Db} {failure : D.Error}
        → concat ws ≡ []
        → Session ws q (stopped db failure) (finished (record { db = db; result = err failure }))
    no_receiver :
        {ws : List (List Node)} {q : List Node} {db : D.Db} {failure : D.Error}
        (l r : List (List Node)) (e : Node) (t : List Node)
        → ws ≡ l ++ (e ∷ t) ∷ r
        → Session ws q (stopped db failure) (panicked db)
    sent :
        {ws : List (List Node)} {q : List Node} {s : Progress D} {end : Ending}
        (l r : List (List Node)) (e : Node) (t : List Node)
        → ws ≡ l ++ (e ∷ t) ∷ r
        → length q < channel_capacity
        → Session (l ++ t ∷ r) (q ++ e ∷ []) (running s) end
        → Session ws q (running s) end
    received :
        {ws : List (List Node)} {q : List Node} {s : Progress D} {end : Ending} (e : Node)
        → Session ws q (take_one s e) end
        → Session ws (e ∷ q) (running s) end

  -- What the writer returns if it receives these nodes and then the end.
  abbrev goes_on : Writer → List Node → Outcome D
  goes_on (running s) rs = write_loop D packed chunk_nodes s rs
  goes_on (stopped db failure) rs = record { db = db; result = err failure }

  abbrev pub Failed : Outcome D → Type 0
  Failed o = (failure : D.Error) × (o.result ≡ err failure)

  -- The end agrees with what the writer makes of the nodes that it receives.
  abbrev pub Agrees : Outcome D → List Node → Ending → Type 0
  Agrees o dropped (finished o') = (o ≡ o') × ((dropped ≡ []) ⊎ Failed o)
  Agrees o dropped (panicked db) = (o.db ≡ db) × Failed o

module _ (D : TrieDb) (L : IsTrieDb D) (k : Bool) where
  -- What a session that ends so has received of the workers' nodes, and dropped.
  pub record Settled (n : ℕ) (db : D.Db) (all : List Node) (end : Ending D k n) : Type 0 where
    pub received : List Node
    pub dropped : List Node
    pub perm : Perm (received ++ dropped) all
    pub committed :
        Committed D L k n db
          (record { nodes = 0; chunks = 0 })
          received
          (write_chunks D k n db received)
    pub agrees : Agrees D k n (write_chunks D k n db received) dropped end
