-- ===== src/Bench/Main/Reported.antt =====
-- The progress of a whole build: the lines of the sink that `main` wraps around the build's own.
use reth_trie_rebuild_bench.Base.{
  ℕ, zero, suc, ◌+◌, ◌-◌, ◌*◌, ◌^◌, ◌≤◌, ◌<◌, ◌≡◌, refl, subst, false, List, [], ◌∷◌, All, length,
  ◌==◌, arith,
}
use reth_trie_rebuild_bench.Trie.{Node}
use reth_trie_rebuild_bench.Progress.{
  ProgressSink, new_progress, count_entries, log_if_due, on_progress,
}
use reth_trie_rebuild_bench.Progress.Steps.{noded, counted, locked, Steps, done, step}
use reth_trie_rebuild_bench.Progress.Lines.{IsLine, Steps-new_progress}
use reth_trie_rebuild_bench.Bench.Host.{Event, emits, walks, on_event, on_events}

-- The entries that the events report.
abbrev pub reported : List Event → ℕ
reported [] = 0
reported (emits e ∷ events) = reported events
reported (walks entries now relogged logged ∷ events) = entries + reported events

-- The clock does not go back. A call that reports no entries does not read it.
abbrev pub Timed : ℕ → List Event → Type 0
Timed clock [] = Unit {0}
Timed clock (emits e ∷ events) = Timed clock events
Timed clock (walks zero now relogged logged ∷ events) = Timed clock events
Timed clock (walks (suc n) now relogged logged ∷ events) =
    ((clock ≤ now) × (now ≤ relogged)) × ((relogged ≤ logged) × Timed logged events)

-- The last reading of the clock.
abbrev pub last_reading : ℕ → List Event → ℕ
last_reading clock [] = clock
last_reading clock (emits e ∷ events) = last_reading clock events
last_reading clock (walks zero now relogged logged ∷ events) = last_reading clock events
last_reading clock (walks (suc n) now relogged logged ∷ events) = last_reading logged events

module _ {S : Type 0} (f : S → Node → S) where
  on_progress-zero :
      (s : ProgressSink S) (now relogged logged : ℕ) → on_progress s zero now relogged logged ≡ s
  unfolding on_progress
  on_progress-zero s now relogged logged = refl

  on_progress-suc :
      (s : ProgressSink S) (n now relogged logged : ℕ)
      → on_progress s (suc n) now relogged logged
        ≡ log_if_due (count_entries s (suc n)).0 (count_entries s (suc n)).1 now relogged logged
  unfolding on_progress
  on_progress-suc s n now relogged logged =
      let some_entries : (suc n == 0) ≡ false = ground arith in rw (some_entries, on_progress) refl

  -- Whole calls, one after another, are a run of the steps that calls of several threads interleave.
  on_events-Steps :
      (s : ProgressSink S) (sum clock : ℕ) (events : List Event)
      → Timed clock events
      → Steps f s [] sum clock
          (on_events f s events)
          []
          (sum + reported events)
          (last_reading clock events)
  unfolding on_events on_event
  on_events-Steps s sum clock [] h = let same : sum + 0 ≡ sum = omega arith in rw same done
  on_events-Steps s sum clock (emits e ∷ events) h =
      step (noded e) (on_events-Steps _ sum clock events h)
  on_events-Steps s sum clock (walks zero now relogged logged ∷ events) h =
      let same : sum + (0 + reported events) ≡ sum + reported events = omega arith in
      rw (on_progress-zero s now relogged logged, same) (on_events-Steps s sum clock events h)
  on_events-Steps s sum clock (walks (suc n) now relogged logged ∷ events) h =
      let same : sum + (suc n + reported events) ≡ (sum + suc n) + reported events = omega arith in
      let (t, walked) = count_entries s (suc n) in
      rw (on_progress-suc s n now relogged logged, same)
        (step (counted (suc n) (omega arith)) (
          step (locked [] [] walked now relogged logged refl h.0.0 h.0.1 h.1.0) (
            on_events-Steps (log_if_due t walked now relogged logged) (sum + suc n) logged events
              h.1.1)))

  -- A build's calls of its progress sink, one after another, with a clock that does not go back and
  -- fewer than 2^64 entries in all: `walked` ends as the number of entries reported, every line has a
  -- positive count that is no more than that and the expected entries less it as remaining, and the
  -- lines take up an interval each of the time from the start to the last reading.
  pub on_events-new_progress :
      (inner : S) (total interval started : ℕ) (events : List Event)
      → Timed started events
      → reported events < 2 ^ 64
      → ((on_events f (new_progress inner total interval started) events).walked ≡ reported events)
        × All
            (IsLine total (reported events))
            (on_events f (new_progress inner total interval started) events).log
        × (length (on_events f (new_progress inner total interval started) events).log * interval
            ≤ last_reading started events - started)
  on_events-new_progress inner total interval started events timed fits =
      let s = new_progress inner total interval started in
      let same : 0 + reported events ≡ reported events = omega arith in
      Steps-new_progress f total interval started inner
        (subst
          (λ sum.
            Steps f s [] 0 started (on_events f s events) [] sum (last_reading started events))
          same (on_events-Steps s 0 started events timed))
        fits
