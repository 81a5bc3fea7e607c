-- ===== src/Rebuild/Serial/Totals.antt =====
-- How the loop ends, and what it counts.
use reth_trie_rebuild_bench.Base.{
  ℕ, zero, suc, ◌+◌, ◌/◌, ◌%◌, ◌≤◌, ◌<◌, ◌≡◌, refl, ap, ◌∙◌, Bool, true, false, Option, none, some,
  List, [], ◌∷◌, ◌==◌, length, arith, ℕ_discrete,
}
use reth_trie_rebuild_bench.Base.Result.{Result, ok, err}
use reth_trie_rebuild_bench.Trie.{B256, TrieUpdates}
use reth_trie_rebuild_bench.Database.{TrieDb}
use reth_trie_rebuild_bench.Rebuild.Serial.{
  progress, complete, Walk, Rebuilt, ChunkLine, no_totals, add_chunk, log_chunk, round, Rebuild,
  rebuild_loop, rebuild,
}

-- A round that committed: the entries it walked and the nodes it wrote.
pub record Chunk : Type 0 where
  pub entries : ℕ
  pub updates : TrieUpdates
  pub written : ℕ

abbrev pub all_entries : List Chunk → ℕ
all_entries [] = 0
all_entries (c ∷ cs) = c.entries + all_entries cs

abbrev pub all_written : List Chunk → ℕ
all_written [] = 0
all_written (c ∷ cs) = c.written + all_written cs

-- What a completed rebuild returns, with the totals `t` of the rounds before.
abbrev pub totals_of : Rebuilt → List Chunk → B256 → Rebuilt
totals_of t cs root = record {
  root = root;
  entries = t.entries + all_entries cs;
  written = t.written + all_written cs;
  chunks = t.chunks + length cs;
}

log_chunk-length :
    (t : Rebuilt) (log : List ChunkLine) (n : ℕ)
    → length log ≡ n / 100
    → t.chunks ≡ n + 1
    → length (log_chunk t log) ≡ (n + 1) / 100
unfolding log_chunk
log_chunk-length t log n h e = elim (ℕ_discrete (t.chunks % 100) 0) [
  | yes multiple ↦
      let test : (t.chunks % 100 == 0) ≡ true = ground arith in
      rw (test, log_chunk) (omega (arith, h, e, multiple))
  | no other ↦
      let test : (t.chunks % 100 == 0) ≡ false = ground arith in
      rw (test, log_chunk) (omega (arith, h, e, other))
]

module _ (D : TrieDb) (W : Walk D) (k : Bool) (threshold : Option ℕ) where
  -- Rounds from a database and a walk's state that all commit, to the one that completes with a
  -- root; or to the one that fails, which leaves the database as it was before it.
  pub data Completes : D.Db → Option W.State → List Chunk → B256 → D.Db → Type 0 where
    last :
        {db db' : D.Db} {state : Option W.State} {root : B256} {entries written : ℕ}
        {u : TrieUpdates}
        → round D W k threshold db state ≡ ok (complete root entries u, written, db')
        → Completes db state
            (record { entries = entries; updates = u; written = written } ∷ [])
            root
            db'
    more :
        {db db' db'' : D.Db} {state : Option W.State} {next : W.State} {root : B256}
        {entries written : ℕ} {u : TrieUpdates} {cs : List Chunk}
        → round D W k threshold db state ≡ ok (progress next entries u, written, db')
        → Completes db' (some next) cs root db''
        → Completes db state
            (record { entries = entries; updates = u; written = written } ∷ cs)
            root
            db''

  pub data Fails : D.Db → Option W.State → List Chunk → D.Error → D.Db → Type 0 where
    stop :
        {db : D.Db} {state : Option W.State} {e : D.Error}
        → round D W k threshold db state ≡ err e
        → Fails db state [] e db
    more_first :
        {db db' db'' : D.Db} {state : Option W.State} {next : W.State} {e : D.Error}
        {entries written : ℕ} {u : TrieUpdates} {cs : List Chunk}
        → round D W k threshold db state ≡ ok (progress next entries u, written, db')
        → Fails db' (some next) cs e db''
        → Fails db state (record { entries = entries; updates = u; written = written } ∷ cs) e db''

  loop-last :
      (fuel : ℕ) (db db' : D.Db) (state : Option W.State) (root : B256) (entries written : ℕ)
      (u : TrieUpdates) (t : Rebuilt) (log : List ChunkLine)
      → round D W k threshold db state ≡ ok (complete root entries u, written, db')
      → rebuild_loop D W k threshold (suc fuel) db state t log
        ≡ some (record {
          db = db';
          result = ok (record (add_chunk t entries written) { root = root });
          log = log_chunk (add_chunk t entries written) log;
        })
  unfolding rebuild_loop
  loop-last fuel db db' state root entries written u t log e = rw (e, rebuild_loop) refl

  loop-more :
      (fuel : ℕ) (db db' : D.Db) (state : Option W.State) (next : W.State) (entries written : ℕ)
      (u : TrieUpdates) (t : Rebuilt) (log : List ChunkLine)
      → round D W k threshold db state ≡ ok (progress next entries u, written, db')
      → rebuild_loop D W k threshold (suc fuel) db state t log
        ≡ rebuild_loop D W k threshold fuel db'
            (some next)
            (add_chunk t entries written)
            (log_chunk (add_chunk t entries written) log)
  unfolding rebuild_loop
  loop-more fuel db db' state next entries written u t log e = rw (e, rebuild_loop) refl

  loop-failed :
      (fuel : ℕ) (db : D.Db) (state : Option W.State) (t : Rebuilt) (log : List ChunkLine)
      (e : D.Error)
      → round D W k threshold db state ≡ err e
      → rebuild_loop D W k threshold (suc fuel) db state t log
        ≡ some (record { db = db; result = err e; log = log })
  unfolding rebuild_loop
  loop-failed fuel db state t log e h = rw (h, rebuild_loop) refl

  record Ended (t : Rebuilt) (n : ℕ) (left : D.Db) (returned : Result D.Error Rebuilt)
      (o : Option (Rebuild D W)) : Type 0 where
    outcome : Rebuild D W
    ends : o ≡ some outcome
    db : outcome.db ≡ left
    result : outcome.result ≡ returned
    log : length outcome.log ≡ (t.chunks + n) / 100

  totals_of-last :
      (t : Rebuilt) (root : B256) (entries written : ℕ) (u : TrieUpdates)
      → record (add_chunk t entries written) { root = root }
        ≡ totals_of t (record { entries = entries; updates = u; written = written } ∷ []) root
  totals_of-last t root entries written u =
      let p : t.entries + entries ≡ t.entries + (entries + 0) = omega arith in
      let q : t.written + written ≡ t.written + (written + 0) = omega arith in
      λ i. record { root = root; entries = p i; written = q i; chunks = t.chunks + 1 }

  totals_of-more :
      (t : Rebuilt) (root : B256) (c : Chunk) (cs : List Chunk)
      → totals_of (add_chunk t c.entries c.written) cs root ≡ totals_of t (c ∷ cs) root
  totals_of-more t root c cs =
      let p : t.entries + c.entries + all_entries cs ≡ t.entries + (c.entries + all_entries cs) =
        omega arith in
      let q : t.written + c.written + all_written cs ≡ t.written + (c.written + all_written cs) =
        omega arith in
      let n : t.chunks + 1 + length cs ≡ t.chunks + length (c ∷ cs) = omega arith in
      λ i. record { root = root; entries = p i; written = q i; chunks = n i }

  rebuild_loop-Completes :
      {db db' : D.Db} {state : Option W.State} {cs : List Chunk} {root : B256} (fuel : ℕ)
      (t : Rebuilt) (log : List ChunkLine)
      → Completes db state cs root db'
      → length cs ≤ fuel
      → length log ≡ t.chunks / 100
      → Ended t
          (length cs)
          db'
          (ok (totals_of t cs root))
          (rebuild_loop D W k threshold fuel db state t log)
  rebuild_loop-Completes zero t log (last e) enough h = absurd (omega arith)
  rebuild_loop-Completes zero t log (more e rest) enough h = absurd (omega arith)
  rebuild_loop-Completes (suc fuel) t log (last {db} {db'} {state} {root} {entries} {written} {u} e)
        enough h =
      record {
        outcome = record {
          db = db';
          result = ok (record (add_chunk t entries written) { root = root });
          log = log_chunk (add_chunk t entries written) log;
        };
        ends = loop-last fuel db db' state root entries written u t log e;
        db = refl;
        result = ap ok (totals_of-last t root entries written u);
        log = log_chunk-length (add_chunk t entries written) log t.chunks h refl;
      }
  rebuild_loop-Completes (suc fuel) t log
        (more {db} {db'} {db''} {state} {next} {root} {entries} {written} {u} {cs} e rest) enough
        h =
      let t' = add_chunk t entries written in
      let ih =
        rebuild_loop-Completes {db = db'} {db' = db''} {state = some next} {cs = cs} {root = root}
          fuel t' (log_chunk t' log) rest (omega arith) (log_chunk-length t' log t.chunks h refl) in
      record {
        outcome = ih.outcome;
        ends = loop-more fuel db db' state next entries written u t log e ∙ ih.ends;
        db = ih.db;
        result =
            ih.result
            ∙ ap ok (
                totals_of-more t root (record { entries = entries; updates = u; written = written })
                  cs);
        log = ih.log ∙ ap (λ (n : ℕ). n / 100) (omega arith);
      }

  rebuild_loop-Fails :
      {db db' : D.Db} {state : Option W.State} {cs : List Chunk} {e : D.Error} (fuel : ℕ)
      (t : Rebuilt) (log : List ChunkLine)
      → Fails db state cs e db'
      → length cs < fuel
      → length log ≡ t.chunks / 100
      → Ended t (length cs) db' (err e) (rebuild_loop D W k threshold fuel db state t log)
  rebuild_loop-Fails zero t log f enough h = absurd (omega arith)
  rebuild_loop-Fails (suc fuel) t log (stop {db} {state} {e} p) enough h = record {
    outcome = record { db = db; result = err e; log = log };
    ends = loop-failed fuel db state t log e p;
    db = refl;
    result = refl;
    log = h ∙ ap (λ (n : ℕ). n / 100) (omega arith);
  }
  rebuild_loop-Fails (suc fuel) t log
        (more_first {db} {db'} {db''} {state} {next} {e} {entries} {written} {u} {cs} p rest) enough
        h =
      let t' = add_chunk t entries written in
      let ih =
        rebuild_loop-Fails {db = db'} {db' = db''} {state = some next} {cs = cs} {e = e} fuel t'
          (log_chunk t' log) rest (omega arith) (log_chunk-length t' log t.chunks h refl) in
      record {
        outcome = ih.outcome;
        ends = loop-more fuel db db' state next entries written u t log p ∙ ih.ends;
        db = ih.db;
        result = ih.result;
        log = ih.log ∙ ap (λ (n : ℕ). n / 100) (omega arith);
      }

  -- If rounds from the database complete with a root, the rebuild, with as many rounds of fuel,
  -- returns that root and leaves that database; it counts the entries walked, the nodes written and
  -- the chunks of all rounds, and logs a line for every hundredth chunk.
  pub rebuild-Completes :
      {db db' : D.Db} {cs : List Chunk} {root : B256} (fuel : ℕ)
      → Completes db none cs root db'
      → length cs ≤ fuel
      → (o : Rebuild D W) × (rebuild D W k threshold fuel db ≡ some o)
        × (o.db ≡ db')
        × (o.result ≡ ok (totals_of no_totals cs root))
        × (length o.log ≡ length cs / 100)
  unfolding rebuild
  rebuild-Completes {cs = cs} fuel c enough =
      let e = rebuild_loop-Completes fuel no_totals [] c enough refl in
      (e.outcome, e.ends, e.db, e.result, e.log ∙ ap (λ (n : ℕ). n / 100) (omega arith))

  -- If a round fails after some that committed, the rebuild returns its error, and leaves the
  -- database as the last commit made it.
  pub rebuild-Fails :
      {db db' : D.Db} {cs : List Chunk} {e : D.Error} (fuel : ℕ)
      → Fails db none cs e db'
      → length cs < fuel
      → (o : Rebuild D W) × (rebuild D W k threshold fuel db ≡ some o)
        × (o.db ≡ db')
        × (o.result ≡ err e)
        × (length o.log ≡ length cs / 100)
  unfolding rebuild
  rebuild-Fails {cs = cs} fuel c enough =
      let e = rebuild_loop-Fails fuel no_totals [] c enough refl in
      (e.outcome, e.ends, e.db, e.result, e.log ∙ ap (λ (n : ℕ). n / 100) (omega arith))
