-- ===== src/Bench/Main/Left.antt =====
-- The trie tables after a run that writes them.
use reth_trie_rebuild_bench.Base.{
  ℕ, zero, suc, ◌≡◌, refl, ap, subst, sym, ◌∙◌, ◌||◌, Bool, true, false, Option, none, List, All,
  arith, max,
}
use reth_trie_rebuild_bench.Base.Result.{ok, >>=-eq-ok}
use reth_trie_rebuild_bench.Trie.{B256, Nibbles, Node}
use reth_trie_rebuild_bench.Trie.Nodes.{emitted_at, none-override}
use reth_trie_rebuild_bench.Trie.Distinct.{Distinct}
use reth_trie_rebuild_bench.Database.{TrieDb, IsTrieDb}
use reth_trie_rebuild_bench.Rebuild.{uses_packed_trie_keys}
use reth_trie_rebuild_bench.Writer.{Written, Outcome, write_chunks, write_sink}
use reth_trie_rebuild_bench.Writer.Chunk.{IsStored}
use reth_trie_rebuild_bench.Writer.Committed.{DbExtends}
use mathlib.Core.List.{append-nil}
use reth_trie_rebuild_bench.Writer.Loop.{write_chunks_lem}
use reth_trie_rebuild_bench.Bench.Args.{Args}
use reth_trie_rebuild_bench.Bench.Host.{Host}
use reth_trie_rebuild_bench.Bench.Steps.{writes}
use reth_trie_rebuild_bench.Bench.Main.Sent.{nodes_of}

pub writes-write : (args : Args) → args.write ≡ true → writes args ≡ true
unfolding writes
writes-write args writing = rw writing (either args.clear_trie_tables args.reth_rebuild)
  where
    either : (a b : Bool) → (a || b || true) ≡ true
    either true b = refl
    either false true = refl
    either false false = refl

module _ (D : TrieDb) (L : IsTrieDb D) (H : Host D) (args : Args) where
  open L use {db_at}

  -- The trie tables have no node, in either key encoding.
  abbrev pub IsCleared : D.Db → Type 0
  IsCleared db = (packed : Bool) (a : Option B256) (p : Nibbles) → db_at packed db a p ≡ none

  -- The trie tables, in the key encoding that the settings name, have exactly the nodes that the
  -- build of the last of `k` runs sent, which started from cleared tables.
  abbrev pub Left : ℕ → D.Db → Type 0
  Left zero db = Unit {0}
  Left (suc k) db =
      (before : D.Db) × (tx : D.Tx) × (packed : Bool) × IsCleared before
      × (D.tx before ≡ ok tx)
      × (uses_packed_trie_keys D tx ≡ ok packed)
      × ((a : Option B256) (p : Nibbles)
          → db_at packed db a p ≡ emitted_at (nodes_of (H.build (suc k) before).events) a p)

  -- Where the writer returns, the tables have what it was sent.
  pub write_sink-Left :
      (before : D.Db) (sent : List Node) (o : Outcome D) (w : Written)
      → IsCleared before
      → All IsStored sent
      → Distinct sent
      → write_sink D args.chunk_nodes before sent ≡ ok o
      → o.result ≡ ok w
      → (tx : D.Tx) × (packed : Bool) × (D.tx before ≡ ok tx)
        × (uses_packed_trie_keys D tx ≡ ok packed)
        × ((a : Option B256) (p : Nibbles) → db_at packed o.db a p ≡ emitted_at sent a p)
  unfolding write_sink
  write_sink-Left before sent o w cleared stored distinct e r =
      let (tx, opened, e') = >>=-eq-ok (D.tx before) _ e in
      let (packed, settings, e'') = >>=-eq-ok (uses_packed_trie_keys D tx) _ e' in
      let n = max args.chunk_nodes 1 in
      let outcome : write_chunks D packed n before sent ≡ o = cc in
      let c = write_chunks_lem D L packed n before sent (omega arith) stored distinct in
      let (nothing_left, _, _) = c.finished w (ap (λ t. t.result) outcome ∙ r) in
      let all_done : c.done ≡ sent = sym (c.split ∙ rw nothing_left (append-nil c.done)) in
      let rows =
        subst (λ t. DbExtends D L packed before t (write_chunks D packed n before sent).db) all_done
          c.rows in
      (
        tx,
        packed,
        opened,
        settings,
        λ a p.
            ap (λ t. db_at packed t.db a p) (sym outcome)
            ∙ rows a p
            ∙ rw (cleared packed a p) (none-override (emitted_at sent a p)),
      )

  -- Every build sends nodes in different places, and none at the root of a trie.
  pub record SendsStored : Type 0 where
    pub stored : (run : ℕ) (db : D.Db) → All IsStored (nodes_of (H.build run db).events)
    pub distinct : (run : ℕ) (db : D.Db) → Distinct (nodes_of (H.build run db).events)
