-- ===== src/Progress.antt =====
-- crates/bench/src/progress.rs: the sink that logs a line at most once per interval. An `Instant`
-- is a number of nanoseconds, each reading of the clock an argument. A line is kept as the numbers
-- it prints; the percentage and the time remaining, which are floats, are left out.
pub mod Steps
pub mod Lines
use reth_trie_rebuild_bench.Base.{
  ℕ, ◌+◌, ◌-◌, ◌%◌, ◌^◌, max, Bool, true, false, Option, none, some, List, [], ◌∷◌, ltb, ◌==◌,
  if◌then◌else◌,
}
use reth_trie_rebuild_bench.Trie.{Node}

pub record Line : Type 0 where
  pub walked : ℕ
  pub total : ℕ
  pub elapsed : ℕ
  pub remaining : ℕ

pub record ProgressSink (S : Type 0) : Type 0 where
  pub inner : S
  pub total : ℕ
  pub walked : ℕ
  pub started : ℕ
  pub interval : ℕ
  pub last_log : ℕ
  -- what `log` was called with, the last line first
  pub log : List Line

abbrev pub new_progress : {S : Type 0} → S → ℕ → ℕ → ℕ → ProgressSink S
new_progress inner total interval now = record {
  inner = inner;
  total = total;
  walked = 0;
  started = now;
  interval = interval;
  last_log = now;
  log = [];
}

-- The inner sink's `on_branch_node` is a parameter.
unfoldable pub on_branch_node :
    {S : Type 0} → (S → Node → S) → ProgressSink S → Node → ProgressSink S
on_branch_node inner_on_branch_node s e = record s { inner = inner_on_branch_node s.inner e }

-- `walked.fetch_add(entries)`, and the local `walked`.
unfoldable pub count_entries : {S : Type 0} → ProgressSink S → ℕ → ProgressSink S × ℕ
count_entries s entries =
    let walked = (s.walked + entries) % 2 ^ 64 in (record s { walked = walked }, walked)

-- `Instant::elapsed`, which is zero for an instant to come.
abbrev pub elapsed : ℕ → ℕ → ℕ
elapsed since now = now - since

abbrev pub log_line : {S : Type 0} → ProgressSink S → ℕ → ℕ → ℕ → ProgressSink S
log_line s walked relogged logged = record s {
  last_log = relogged;
  log =
      record {
        walked = walked;
        total = s.total;
        elapsed = elapsed s.started logged;
        remaining = s.total - walked;
      }
      ∷ s.log;
}

-- What is done under the lock: the interval is tested at `now`, the log is marked at `relogged`
-- and the line is made at `logged`.
unfoldable pub log_if_due : {S : Type 0} → ProgressSink S → ℕ → ℕ → ℕ → ℕ → ProgressSink S
log_if_due s walked now relogged logged =
    if ltb (elapsed s.last_log now) s.interval then s else log_line s walked relogged logged

unfoldable pub on_progress : {S : Type 0} → ProgressSink S → ℕ → ℕ → ℕ → ℕ → ProgressSink S
on_progress s entries now relogged logged =
    if entries == 0
    then s
    else (let (t, walked) = count_entries s entries in log_if_due t walked now relogged logged)
