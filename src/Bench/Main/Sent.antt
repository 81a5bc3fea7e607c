-- ===== src/Bench/Main/Sent.antt =====
-- The nodes that reach the inner sink of a build's progress sink.
use mathlib.Core.List.{append_assoc, append-nil}
use reth_trie_rebuild_bench.Base.{
  ℕ, ◌≡◌, refl, sym, ap, ◌∙◌, Bool, true, false, List, [], ◌∷◌, ◌++◌, if◌then◌else◌, ltb, ◌==◌,
}
use reth_trie_rebuild_bench.Trie.{Node}
use reth_trie_rebuild_bench.Progress
use reth_trie_rebuild_bench.Progress.{
  ProgressSink, on_progress, count_entries, log_if_due, log_line, elapsed,
}
use reth_trie_rebuild_bench.Bench.Host.{Event, emits, walks, on_event, on_events}
use reth_trie_rebuild_bench.Bench.Steps.{send}

-- The nodes of a build's events, in their order.
abbrev pub nodes_of : List Event → List Node
nodes_of [] = []
nodes_of (emits e ∷ events) = e ∷ nodes_of events
nodes_of (walks entries now relogged logged ∷ events) = nodes_of events

log_if_due-inner :
    {S : Type 0} (s : ProgressSink S) (walked now relogged logged : ℕ)
    → (log_if_due s walked now relogged logged).inner ≡ s.inner
unfolding log_if_due
log_if_due-inner s walked now relogged logged = either (ltb (elapsed s.last_log now) s.interval)
  where
    either : (b : Bool) → (if b then s else log_line s walked relogged logged).inner ≡ s.inner
    either true = refl
    either false = refl

on_progress-inner :
    {S : Type 0} (s : ProgressSink S) (entries now relogged logged : ℕ)
    → (on_progress s entries now relogged logged).inner ≡ s.inner
unfolding on_progress count_entries
on_progress-inner {S = S} s entries now relogged logged = either (entries == 0)
  where
    counted : (t : ProgressSink S × ℕ) → ProgressSink S
    counted (t, walked) = log_if_due t walked now relogged logged

    either : (b : Bool) → (if b then s else counted (count_entries s entries)).inner ≡ s.inner
    either true = refl
    either false = log_if_due-inner _ _ now relogged logged

-- A sink that lists what it is sent has the nodes of the events behind what it had.
pub on_events-inner :
    (s : ProgressSink (List Node)) (events : List Event)
    → (on_events send s events).inner ≡ s.inner ++ nodes_of events
unfolding on_events on_event Progress.on_branch_node
on_events-inner s [] = sym (append-nil s.inner)
on_events-inner s (emits e ∷ events) =
    on_events-inner (Progress.on_branch_node send s e) events
    ∙ append_assoc s.inner (e ∷ []) (nodes_of events)
on_events-inner s (walks entries now relogged logged ∷ events) =
    on_events-inner (on_progress s entries now relogged logged) events
    ∙ ap (λ t. t ++ nodes_of events) (on_progress-inner s entries now relogged logged)
