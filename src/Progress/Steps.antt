-- ===== src/Progress/Steps.antt =====
-- The steps that calls of several threads to the progress sink interleave.
use reth_trie_rebuild_bench.Base.{ℕ, ◌+◌, ◌≤◌, ◌<◌, ◌≡◌, List, ◌∷◌, ◌++◌}
use reth_trie_rebuild_bench.Trie.{Node}
use reth_trie_rebuild_bench.Progress.{ProgressSink, on_branch_node, count_entries, log_if_due}

-- A step of some thread: the sink, the walked counts of the calls that wait for the lock, the
-- entries reported so far, and the clock.
pub data Step {S : Type 0} (inner_on_branch_node : S → Node → S)
    : ProgressSink S → List ℕ → ℕ → ℕ → ProgressSink S → List ℕ → ℕ → ℕ → Type 0 where
  noded :
      {s : ProgressSink S} {ws : List ℕ} {sum clock : ℕ} (e : Node)
      → Step inner_on_branch_node s ws sum clock
          (on_branch_node inner_on_branch_node s e)
          ws
          sum
          clock
  counted :
      {s : ProgressSink S} {ws : List ℕ} {sum clock : ℕ} (entries : ℕ)
      → 0 < entries
      → Step inner_on_branch_node s ws sum clock
          (count_entries s entries).0
          ((count_entries s entries).1 ∷ ws)
          (sum + entries)
          clock
  locked :
      {s : ProgressSink S} {ws : List ℕ} {sum clock : ℕ} (l r : List ℕ)
      (walked now relogged logged : ℕ)
      → ws ≡ l ++ walked ∷ r
      → clock ≤ now
      → now ≤ relogged
      → relogged ≤ logged
      → Step inner_on_branch_node s ws sum clock
          (log_if_due s walked now relogged logged)
          (l ++ r)
          sum
          logged

pub data Steps {S : Type 0} (f : S → Node → S)
    : ProgressSink S → List ℕ → ℕ → ℕ → ProgressSink S → List ℕ → ℕ → ℕ → Type 0 where
  done : {s : ProgressSink S} {ws : List ℕ} {sum clock : ℕ} → Steps f s ws sum clock s ws sum clock
  step :
      {s t u : ProgressSink S} {ws vs us : List ℕ} {sum sum' sum'' clock clock' clock'' : ℕ}
      → Step f s ws sum clock t vs sum' clock'
      → Steps f t vs sum' clock' u us sum'' clock''
      → Steps f s ws sum clock u us sum'' clock''
