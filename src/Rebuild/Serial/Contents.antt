-- ===== src/Rebuild/Serial/Contents.antt =====
-- What a completed rebuild leaves in the trie tables.
use reth_trie_rebuild_bench.Base.{
  ℕ, ◌+◌, ◌≤◌, ◌≡◌, refl, sym, subst, ◌∙◌, Bool, Option, none, some, List, [], ◌∷◌, ◌++◌, All,
  length, length-append, arith,
}
use reth_trie_rebuild_bench.Base.Dict.{override}
use reth_trie_rebuild_bench.Base.Result.{ok, >>=-eq-ok}
use reth_trie_rebuild_bench.Trie.{B256, Nibbles, Node}
use reth_trie_rebuild_bench.Trie.Nodes.{nodes, emitted_at, override_assoc, none-override}
use reth_trie_rebuild_bench.Trie.Distinct.{Distinct, Distinct-append, emitted_at-append}
use reth_trie_rebuild_bench.Database.{TrieDb, IsTrieDb, AddsOnly, NoRoot}
use reth_trie_rebuild_bench.Rebuild.{
  uses_packed_trie_keys, clear_trie_tables, write_trie_updates_with,
}
use reth_trie_rebuild_bench.Rebuild.Clear.{clear_trie_tables-empty}
use reth_trie_rebuild_bench.Rebuild.Write.{write_trie_updates_with-adds}
use reth_trie_rebuild_bench.Rebuild.Serial.{
  StateRootProgress, progress, complete, Walk, updates_of, round, Rebuild, reth_rebuild,
}
use reth_trie_rebuild_bench.Rebuild.Serial.Totals.{
  Chunk, Completes, last, more, all_entries, all_written, rebuild-Completes,
}

-- The nodes of all chunks.
abbrev pub all_nodes : List Chunk → List Node
all_nodes [] = []
all_nodes (c ∷ cs) = nodes c.updates ++ all_nodes cs

-- The walk's updates only add nodes, mark no storage trie as deleted, and no node at the root of a trie.
abbrev pub OnlyAdds : Chunk → Type 0
OnlyAdds c = AddsOnly c.updates × NoRoot c.updates.account_nodes

module _ (D : TrieDb) (L : IsTrieDb D) (W : Walk D) (k : Bool) (threshold : Option ℕ) where
  open L use {db_at}

  abbrev Rows : D.Db → List Node → D.Db → Type 0
  Rows db es db' =
      (a : Option B256) (p : Nibbles)
      → db_at k db' a p ≡ override (db_at k db a p) (emitted_at es a p)

  round-Rows :
      (db db' : D.Db) (state : Option W.State) (p : StateRootProgress W.State) (n : ℕ)
      → AddsOnly (updates_of D W p)
      → NoRoot (updates_of D W p).account_nodes
      → Distinct (nodes (updates_of D W p))
      → round D W k threshold db state ≡ ok (p, n, db')
      → (n ≡ length (nodes (updates_of D W p))) × Rows db (nodes (updates_of D W p)) db'
  unfolding round
  round-Rows db db' state p n adds no_root distinct e =
      let (tx, opened, r₁) = >>=-eq-ok (D.tx_mut db) _ e in
      let (q, walked, r₂) = >>=-eq-ok (W.root_with_progress k threshold tx state) _ r₁ in
      let ((m, tx'), wrote, r₃) =
        >>=-eq-ok (write_trie_updates_with D k tx (updates_of D W q)) _ r₂ in
      let (db₁, committed, r₄) = >>=-eq-ok (D.commit tx') _ r₃ in
      let same : q ≡ p = cc in
      let count : m ≡ n = cc in
      let left : db₁ ≡ db' = cc in
      let wrote' =
        subst (λ t. write_trie_updates_with D k tx (updates_of D W t) ≡ ok (m, tx')) same wrote in
      let (size, rows) =
        write_trie_updates_with-adds D L k (updates_of D W p) tx m tx' adds no_root distinct
          wrote' in
      (
        sym count ∙ size,
        λ a b.
            subst (λ t. db_at k t a b ≡ L.tx_at k tx' a b) left
              (L.commit-at k tx' db₁ committed a b)
            ∙ rows a b
            ∙ rw (L.tx_mut-at k db tx opened a b) refl,
      )

  Rows-append :
      (es fs : List Node) (db db' db'' : D.Db)
      → Rows db es db'
      → Rows db' fs db''
      → Rows db (es ++ fs) db''
  Rows-append es fs db db' db'' h h' a p =
      h' a p
      ∙ rw (h a p, emitted_at-append es fs a p)
          (override_assoc (db_at k db a p) (emitted_at es a p) (emitted_at fs a p))

  Rows-nil : (db : D.Db) → Rows db [] db
  unfolding emitted_at
  Rows-nil db a p = refl

  Completes-Rows :
      {db db' : D.Db} {state : Option W.State} {cs : List Chunk} {root : B256}
      → Completes D W k threshold db state cs root db'
      → All OnlyAdds cs
      → Distinct (all_nodes cs)
      → (all_written cs ≡ length (all_nodes cs)) × Rows db (all_nodes cs) db'
  Completes-Rows (last {db} {db'} {state} {root} {entries} {written} {u} e) adds d =
      let (d', _) = Distinct-append (nodes u) [] d in
      let (size, rows) =
        round-Rows db db' state (complete root entries u) written adds.0.0 adds.0.1 d' e in
      (
        omega (arith, size, length-append (nodes u) []),
        Rows-append (nodes u) [] db db' db' rows (Rows-nil db'),
      )
  Completes-Rows (more {db} {db'} {db''} {state} {next} {root} {entries} {written} {u} {cs} e rest)
        adds d =
      let (d', d'') = Distinct-append (nodes u) (all_nodes cs) d in
      let (size, rows) =
        round-Rows db db' state (progress next entries u) written adds.0.0 adds.0.1 d' e in
      let (later, rows') = Completes-Rows rest adds.1 d'' in
      (
        omega (arith, size, later, length-append (nodes u) (all_nodes cs)),
        Rows-append (nodes u) (all_nodes cs) db db' db'' rows rows',
      )

  -- A rebuild whose settings name an encoding, whose clearing succeeds and whose rounds complete,
  -- with as much fuel as rounds: it returns the walk's root and counts, and the trie tables have
  -- exactly the nodes that the wThey mark no trie as deleted and only add
  -- nodes, each in its own place and none at the root of a trie.
  pub reth_rebuild_lem :
      {db' : D.Db} {cs : List Chunk} {root : B256} (fuel : ℕ) (db db₀ : D.Db) (tx : D.Tx)
      → D.tx db ≡ ok tx
      → uses_packed_trie_keys D tx ≡ ok k
      → clear_trie_tables D db ≡ ok db₀
      → Completes D W k threshold db₀ none cs root db'
      → length cs ≤ fuel
      → All OnlyAdds cs
      → Distinct (all_nodes cs)
      → (o : Rebuild D W) × (reth_rebuild D W threshold fuel db ≡ ok (some o))
        × (o.result
            ≡ ok (record {
              root = root;
              entries = all_entries cs;
              written = length (all_nodes cs);
              chunks = length cs;
            }))
        × ((a : Option B256) (p : Nibbles) → db_at k o.db a p ≡ emitted_at (all_nodes cs) a p)
  unfolding reth_rebuild
  reth_rebuild_lem {db'} {cs} {root} fuel db db₀ tx opened settings cleared rounds enough adds d =
      let (o, ends, left, result, log) = rebuild-Completes D W k threshold fuel rounds enough in
      let (size, rows) = Completes-Rows rounds adds d in
      let entries : 0 + all_entries cs ≡ all_entries cs = omega arith in
      let written : 0 + all_written cs ≡ length (all_nodes cs) = omega (arith, size) in
      let chunks : 0 + length cs ≡ length cs = omega arith in
      (
        o,
        rw opened (rw settings (rw cleared (rw ends refl))),
        result ∙ (λ i.
            ok (record {
              root = root;
              entries = entries i;
              written = written i;
              chunks = chunks i;
            })),
        λ a p. rw left (
            rows a p
            ∙ rw (clear_trie_tables-empty D L k db db₀ cleared a p)
                (none-override (emitted_at (all_nodes cs) a p))),
      )
