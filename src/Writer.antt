-- ===== src/Writer.antt =====
-- crates/bench/src/writer.rs: the sink that commits emitted nodes in chunks from a thread of its
-- own. The counters of `Written` are not bounded.
pub mod Chunk
pub mod Committed
pub mod Loop
pub mod Total
pub mod Channel
pub mod Session
use reth_trie_rebuild_bench.Base.{
  ℕ, zero, suc, ◌+◌, max, Bool, List, [], ◌∷◌, ltb, leb, if◌then◌else◌, true, false,
}
use reth_trie_rebuild_bench.Base.Result.{Result, ok, err, ◌>>=◌}
use reth_trie_rebuild_bench.Trie.{TrieUpdates, no_updates, Node}
use reth_trie_rebuild_bench.Trie.Nodes.{insert_node}
use reth_trie_rebuild_bench.Database.{TrieDb}
use reth_trie_rebuild_bench.Rebuild.{write_trie_updates_with, uses_packed_trie_keys}

abbrev pub default_chunk_nodes : ℕ
default_chunk_nodes = 100_000

abbrev pub channel_capacity : ℕ
channel_capacity = 65_536

pub record Written : Type 0 where
  pub nodes : ℕ
  pub chunks : ℕ

module _ (D : TrieDb) where
  -- The closure `commit`.
  unfoldable pub commit_chunk : Bool → D.Db → TrieUpdates → Result D.Error (ℕ × D.Db)
  commit_chunk packed db chunk = do
    tx ← D.tx_mut db
    (nodes, tx) ← write_trie_updates_with D packed tx chunk
    db ← D.commit tx
    ok (nodes, db)

  -- The locals of `write_chunks`, and the database as it was last committed.
  pub record Progress : Type 0 where
    pub db : D.Db
    pub written : Written
    pub chunk : TrieUpdates
    pub pending : ℕ

  -- After a commit of `nodes` entries that left `db`: an empty chunk.
  abbrev pub next_chunk : Progress → ℕ → D.Db → Progress
  next_chunk s nodes db = record {
    db = db;
    written = record { nodes = s.written.nodes + nodes; chunks = s.written.chunks + 1 };
    chunk = no_updates;
    pending = 0;
  }

  -- `written.nodes += commit(chunk)?; written.chunks += 1;`
  unfoldable pub flush : Bool → Progress → Result D.Error Progress
  flush packed s = do (nodes, db) ← commit_chunk packed s.db s.chunk; ok (next_chunk s nodes db)

  -- What the writer thread leaves in the database, and what it returns.
  pub record Outcome : Type 0 where
    pub db : D.Db
    pub result : Result D.Error Written

  abbrev pub returned : Progress → Result D.Error Progress → Outcome
  returned s (ok t) = record { db = t.db; result = ok t.written }
  returned s (err e) = record { db = s.db; result = err e }

  -- A node goes into the chunk.
  abbrev pub receive : Progress → Node → Progress
  receive s e = record s { chunk = (insert_node s.chunk e).0; pending = s.pending + 1 }

  -- The loop over the receiver, and what follows it once the channel is closed.
  unfoldable pub write_loop : Bool → ℕ → Progress → List Node → Outcome
  write_loop packed chunk_nodes s [] =
      if ltb 0 s.pending
      then returned s (flush packed s)
      else record { db = s.db; result = ok s.written }
  write_loop packed chunk_nodes s (e ∷ es) =
      let s' = receive s e in
      elim (leb chunk_nodes s'.pending) [
        | true ↦ elim (flush packed s') [
          | ok t ↦ write_loop packed chunk_nodes t es
          | err failure ↦ record { db = s'.db; result = err failure }
        ]
        | false ↦ write_loop packed chunk_nodes s' es
      ]

  abbrev pub start : D.Db → Progress
  start db = record {
    db = db;
    written = record { nodes = 0; chunks = 0 };
    chunk = no_updates;
    pending = 0;
  }

  unfoldable pub write_chunks : Bool → ℕ → D.Db → List Node → Outcome
  write_chunks packed chunk_nodes db received = write_loop packed chunk_nodes (start db) received

  -- `MdbxWriteSink::new`, then a build that sends its nodes, then `finish`. The key encoding is
  -- read before the thread starts, from a transaction that is dropped.
  unfoldable pub write_sink : ℕ → D.Db → List Node → Result D.Error Outcome
  write_sink chunk_nodes db sent = do
    tx ← D.tx db
    packed ← uses_packed_trie_keys D tx
    ok (write_chunks packed (max chunk_nodes 1) db sent)
