-- ===== src/Bench/Main/Sound.antt =====
-- What the printed lines say, and when they say nothing wrong.
use reth_trie_rebuild_bench.Base.{
  ℕ, zero, suc, ◌≡◌, ◌≢◌, refl, ap, ◌∙◌, Bool, true, false, Option, none, some, List, [], ◌∷◌, ◌++◌,
  map, All,
}
use reth_trie_rebuild_bench.Trie.{B256}
use reth_trie_rebuild_bench.Rebuild.Serial.{ChunkLine}
use reth_trie_rebuild_bench.Progress
use reth_trie_rebuild_bench.Bench.Host.{
  Label, Line, progressed, chunk_committed, rebuilt, run_written, run_digested, serial_root,
  walk_matches, walk_mismatch, root_mismatch,
}

-- What a line says of the roots.
pub record Reading : Type 0 where
  -- the computed root that it shows
  pub root : Option B256
  -- the root of trie tables that were written
  pub written : Option B256
  -- the root that reth's walk found in written tables
  pub confirmed : Option B256
  -- the number of a run
  pub run : Option ℕ
  pub mismatch : Bool

abbrev pub plain : Reading
plain = record { root = none; written = none; confirmed = none; run = none; mismatch = false }

unfoldable pub reading : Line → Reading
reading (rebuilt done peak) = record plain { root = some done.root; written = some done.root }
reading (run_written run root walked written peak) = record plain {
  root = some root;
  written = some root;
  run = some run;
}
reading (run_digested run root walked digest peak) = record plain {
  root = some root;
  run = some run;
}
reading (serial_root root peak) = record plain { root = some root }
reading (walk_matches root) = record plain { confirmed = some root }
reading (root_mismatch label expected) = record plain { mismatch = true }
reading (walk_mismatch got expected) = record plain { mismatch = true }
reading _ = plain

abbrev pub gather_into : {A : Type 0} → Option A → List A → List A
gather_into none rest = rest
gather_into (some a) rest = a ∷ rest

abbrev pub gather : {A : Type 0} → (Reading → Option A) → List Line → List A
gather f [] = []
gather f (line ∷ lines) = gather_into (f (reading line)) (gather f lines)

-- What the lines are judged by: the root that is expected, and which roots reth's walk has found.
pub record Truth : Type 1 where
  pub expected : Option B256
  pub walked : B256 → Type 0

-- The expected root, if there is one, is the one shown.
abbrev pub Meets : Option B256 → Option B256 → Type 0
Meets none shown = Unit {0}
Meets (some expected) none = Unit {0}
Meets (some expected) (some root) = root ≡ expected

abbrev pub countdown : ℕ → List ℕ
countdown zero = []
countdown (suc k) = suc k ∷ countdown k

-- A root that is said to be confirmed is one that the walk has found.
abbrev pub Found : Truth → Option B256 → Type 0
Found truth none = Unit {0}
Found truth (some root) = truth.walked root

abbrev pub IsRight : Truth → Line → Type 0
IsRight truth line =
    ((reading line).mismatch ≡ false)
    × Meets truth.expected (reading line).root
    × Found truth (reading line).confirmed

-- No line is wrong, the runs are the first `k`, each once and in order, and reth's walk has
-- confirmed the roots of the written tables, in order, but those of `pending`.
pub record Sound (truth : Truth) (k : ℕ) (pending : List B256) (lines : List Line) : Type 0 where
  pub right : All (IsRight truth) lines
  pub runs : gather (λ r. r.run) lines ≡ countdown k
  pub confirmed : gather (λ r. r.written) lines ≡ pending ++ gather (λ r. r.confirmed) lines

-- A last line that says what is wrong, and is true.
pub data Refuted (truth : Truth) : List Line → Type 0 where
  wrong_root :
      (label : Label) (e r : B256) (line : Line) (lines : List Line)
      → truth.expected ≡ some e
      → (reading line).root ≡ some r
      → r ≢ e
      → Refuted truth (root_mismatch label e ∷ line ∷ lines)
  wrong_walk :
      (got root : B256) (lines : List Line)
      → gather (λ r. r.written) lines ≡ root ∷ gather (λ r. r.confirmed) lines
      → got ≢ root
      → truth.walked got
      → Refuted truth (walk_mismatch got root ∷ lines)

Meets-none : (expected : Option B256) → Meets expected none
Meets-none none = tt
Meets-none (some e) = tt

-- The number of runs after a line, which may show the next one.
abbrev pub Counts : Option ℕ → ℕ → ℕ → Type 0
Counts none k k' = k ≡ k'
Counts (some run) k k' = (run ≡ suc k) × (k' ≡ suc k)

module _ (truth : Truth) (k : ℕ) where
  -- A line that neither shows nor judges a root.
  pub plain-Sound :
      (pending : List B256) (line : Line) (lines : List Line)
      → reading line ≡ plain
      → Sound truth k pending lines
      → Sound truth k pending (line ∷ lines)
  plain-Sound pending line lines p h = record {
    right = (rw p (refl, Meets-none truth.expected, tt), h.right);
    runs = rw p h.runs;
    confirmed = rw p h.confirmed;
  }

  pub progress-Sound :
      (pending : List B256) (log : List Progress.Line) (lines : List Line)
      → Sound truth k pending lines
      → Sound truth k pending (map progressed log ++ lines)
  unfolding reading
  progress-Sound pending [] lines h = h
  progress-Sound pending (line ∷ log) lines h =
      plain-Sound pending (progressed line) (map progressed log ++ lines) refl
        (progress-Sound pending log lines h)

  pub chunks-Sound :
      (pending : List B256) (log : List ChunkLine) (lines : List Line)
      → Sound truth k pending lines
      → Sound truth k pending (map chunk_committed log ++ lines)
  unfolding reading
  chunks-Sound pending [] lines h = h
  chunks-Sound pending (line ∷ log) lines h =
      plain-Sound pending (chunk_committed line) (map chunk_committed log ++ lines) refl
        (chunks-Sound pending log lines h)

  -- A line that shows a computed root, which is the expected one.
  pub shown-Sound :
      (k' : ℕ) (root : B256) (written : Option B256) (run : Option ℕ) (line : Line)
      (lines : List Line)
      → reading line ≡ record plain { root = some root; written = written; run = run }
      → Meets truth.expected (some root)
      → Counts run k k'
      → Sound truth k [] lines
      → Sound truth k' (gather_into written []) (line ∷ lines)
  shown-Sound k' root written run line lines p meets counts h = record {
    right = (rw p (refl, meets, tt), h.right);
    runs = rw p (counted run counts);
    confirmed = rw p (awaited written);
  }
    where
      counted :
          (run : Option ℕ)
          → Counts run k k'
          → gather_into run (gather (λ r. r.run) lines) ≡ countdown k'
      counted none e = h.runs ∙ ap countdown e
      counted (some run) (e, e') = rw (e', e) (ap (◌∷◌ (suc k)) h.runs)

      awaited :
          (written : Option B256)
          → gather_into written (gather (λ r. r.written) lines)
            ≡ gather_into written [] ++ gather (λ r. r.confirmed) lines
      awaited none = h.confirmed
      awaited (some root) = ap (◌∷◌ root) h.confirmed

  -- reth's walk has found the pending root.
  pub walk_matches-Sound :
      (walked root : B256) (lines : List Line)
      → walked ≡ root
      → truth.walked walked
      → Sound truth k (root ∷ []) lines
      → Sound truth k [] (walk_matches walked ∷ lines)
  unfolding reading
  walk_matches-Sound walked root lines e found h = record {
    right = ((refl, Meets-none truth.expected, found), h.right);
    runs = h.runs;
    confirmed = rw e h.confirmed;
  }
