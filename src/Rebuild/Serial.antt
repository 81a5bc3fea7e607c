-- ===== src/Rebuild/Serial.antt =====
-- crates/bench/src/rebuild.rs: reth's serial rebuild, committed in chunks. The walk itself,
-- `StateRoot::root_with_progress`, is reth's and a parameter. Time is left out of the log lines.
pub mod Totals
pub mod Contents
use reth_trie_rebuild_bench.Base.{
  ℕ, zero, suc, ◌+◌, ◌%◌, Bool, true, false, Option, none, some, List, [], ◌∷◌, ◌==◌, if◌then◌else◌,
  replicate,
}
use reth_trie_rebuild_bench.Base.Result.{Result, ok, err, ◌>>=◌}
use reth_trie_rebuild_bench.Trie.{B256, TrieUpdates}
use reth_trie_rebuild_bench.Database.{TrieDb}
use reth_trie_rebuild_bench.Rebuild.{
  uses_packed_trie_keys, clear_trie_tables, write_trie_updates_with,
}

-- `StateRootProgress`
pub data StateRootProgress (State : Type 0) : Type 0 where
  progress : (next : State) (entries : ℕ) (updates : TrieUpdates) → StateRootProgress State
  complete : (root : B256) (entries : ℕ) (updates : TrieUpdates) → StateRootProgress State

pub record Walk (D : TrieDb) : Type 1 where
  pub State : Type 0
  -- with the error already made a `DatabaseError`
  pub root_with_progress :
      Bool → Option ℕ → D.Tx → Option State → Result D.Error (StateRootProgress State)

pub record Rebuilt : Type 0 where
  pub root : B256
  pub entries : ℕ
  pub written : ℕ
  pub chunks : ℕ

-- The numbers of a log line.
pub record ChunkLine : Type 0 where
  pub chunk : ℕ
  pub entries : ℕ
  pub written : ℕ

abbrev pub no_totals : Rebuilt
no_totals = record { root = replicate 32 0; entries = 0; written = 0; chunks = 0 }

abbrev pub add_chunk : Rebuilt → ℕ → ℕ → Rebuilt
add_chunk t entries written = record t {
  entries = t.entries + entries;
  written = t.written + written;
  chunks = t.chunks + 1;
}

-- `totals.chunks.is_multiple_of(100)`; the last line stands first.
unfoldable pub log_chunk : Rebuilt → List ChunkLine → List ChunkLine
log_chunk t log =
    if t.chunks % 100 == 0
    then record { chunk = t.chunks; entries = t.entries; written = t.written } ∷ log
    else log

module _ (D : TrieDb) (W : Walk D) where
  -- The three values that a round takes from the walk: the root when it is done, or the state to go
  -- on from.
  abbrev pub root_of : StateRootProgress W.State → Option B256
  root_of (progress next entries updates) = none
  root_of (complete root entries updates) = some root

  abbrev pub next_of : StateRootProgress W.State → Option W.State
  next_of (progress next entries updates) = some next
  next_of (complete root entries updates) = none

  abbrev pub entries_of : StateRootProgress W.State → ℕ
  entries_of (progress next entries updates) = entries
  entries_of (complete root entries updates) = entries

  abbrev pub updates_of : StateRootProgress W.State → TrieUpdates
  updates_of (progress next entries updates) = updates
  updates_of (complete root entries updates) = updates

  -- A round up to its commit: what the walk yielded, the nodes written, and the database.
  unfoldable pub round :
      Bool
      → Option ℕ
      → D.Db
      → Option W.State
      → Result D.Error (StateRootProgress W.State × ℕ × D.Db)
  round packed threshold db state = do
    tx ← D.tx_mut db
    p ← W.root_with_progress packed threshold tx state
    (written, tx) ← write_trie_updates_with D packed tx (updates_of p)
    db ← D.commit tx
    ok (p, written, db)

  -- What the rebuild leaves in the database, what it returns and what it has logged.
  pub record Rebuild : Type 0 where
    pub db : D.Db
    pub result : Result D.Error Rebuilt
    pub log : List ChunkLine

  -- The loop, for at most `fuel` rounds.
  unfoldable pub rebuild_loop :
      Bool → Option ℕ → ℕ → D.Db → Option W.State → Rebuilt → List ChunkLine → Option Rebuild
  rebuild_loop packed threshold zero db state totals log = none
  rebuild_loop packed threshold (suc fuel) db state totals log =
      elim (round packed threshold db state) [
        | err e ↦ some (record { db = db; result = err e; log = log })
        | ok (p, written, db') ↦
            let totals' = add_chunk totals (entries_of p) written in
            let log' = log_chunk totals' log in
            elim (root_of p) [
              | some root ↦
                  some
                    (record { db = db'; result = ok (record totals' { root = root }); log = log' })
              | none ↦ rebuild_loop packed threshold fuel db' (next_of p) totals' log'
            ]
      ]

  unfoldable pub rebuild : Bool → Option ℕ → ℕ → D.Db → Option Rebuild
  rebuild packed threshold fuel db = rebuild_loop packed threshold fuel db none no_totals []

  unfoldable pub reth_rebuild : Option ℕ → ℕ → D.Db → Result D.Error (Option Rebuild)
  reth_rebuild threshold fuel db = do
    tx ← D.tx db
    packed ← uses_packed_trie_keys D tx
    db ← clear_trie_tables D db
    ok (rebuild packed threshold fuel db)
