-- ===== src/Tests/Heaps.antt =====
-- The allocator's counters and the progress sink.
use reth_trie_rebuild_bench.Alloc.Human.{
  round_half_even, excess_bits, to_f64, pick_unit, human_size, human_bytes, human_text, Human,
}
use reth_trie_rebuild_bench.Alloc.Human.Printed.{Shows, human_bytes-Shows}
use reth_trie_rebuild_bench.Base.{
  ℕ, ◌+◌, ◌-◌, ◌*◌, ◌≤◌, ◌≡◌, refl, none, some, List, [], ◌∷◌, All, length, arith,
}
use reth_trie_rebuild_bench.Trie.{Node}
use reth_trie_rebuild_bench.Alloc.{
  PeakAlloc, new_alloc, add_current, raise_peak, on_calls, Call, alloc, dealloc, realloc, reset,
}
use reth_trie_rebuild_bench.Alloc.Heap
use reth_trie_rebuild_bench.Alloc.Heap.{
  Run, call, allocated, no_memory, moved, peak_reset, live, on_calls_lem,
}
use reth_trie_rebuild_bench.Alloc.Race
use reth_trie_rebuild_bench.Alloc.Race.{Atomics, counted, raised, peak-Atomics}
use reth_trie_rebuild_bench.Progress.{ProgressSink, new_progress, count_entries, log_if_due}
use reth_trie_rebuild_bench.Progress.Steps
use reth_trie_rebuild_bench.Progress.Steps.{Steps}
use reth_trie_rebuild_bench.Progress.Lines.{IsLine, Steps-new_progress}

-- A block grows, another one cannot be had, the peak is reset, and the block is freed.
abbrev calls : List Call
calls = alloc 100 (some 1) ∷ realloc 1 100 300 (some 2) ∷ alloc 50 none ∷ reset ∷ dealloc 2 300 ∷ []

calls-Run : Run [] 0 calls [] 300
unfolding live
calls-Run = call (allocated 100 1) (omega arith) (
    call (moved [] [] 1 100 300 2 refl) (omega arith) (
      call (no_memory 50) (omega arith) (
        call peak_reset (omega arith)
          (call (Heap.freed [] [] 2 300 refl) (omega arith) Heap.done))))

on_calls_lem_example :
    ((on_calls new_alloc calls).current ≡ live []) × ((on_calls new_alloc calls).peak ≡ 300)
on_calls_lem_example = on_calls_lem calls calls-Run

abbrev two_counts : PeakAlloc
two_counts = record { current = 12; peak = 12 }

-- Two threads: the second counts its bytes before the first has raised the peak.
two_threads : Atomics new_alloc [] 0 two_counts [] 12
unfolding add_current raise_peak
two_threads = Race.step (counted 5) (
    Race.step (counted 7)
      (Race.step (raised (12 ∷ []) [] 5 refl) (Race.step (raised [] [] 12 refl) Race.done)))

peak-Atomics_example : two_counts.peak ≡ 12
peak-Atomics_example = peak-Atomics two_threads

-- A sink that counts its nodes; 100 entries are expected, a line is due every 10.
abbrev count_node : ℕ → Node → ℕ
count_node n e = n + 1

abbrev new_sink : ProgressSink ℕ
new_sink = new_progress 0 100 10 1000

-- One call of another thread is halfway through when the first one logs.
abbrev after_a_line : ProgressSink ℕ
after_a_line = record new_sink {
  walked = 50;
  last_log = 1012;
  log = record { walked = 30; total = 100; elapsed = 13; remaining = 70 } ∷ [];
}

a_line : Steps count_node new_sink [] 0 1000 after_a_line (50 ∷ []) 50 1013
unfolding count_entries log_if_due
a_line = Steps.step (Steps.counted 30 (omega arith)) (
    Steps.step (Steps.counted 20 (omega arith)) (
      Steps.step
        (Steps.locked (50 ∷ []) [] 30 1011 1012 1013 refl (omega arith) (omega arith) (omega arith))
        Steps.done))

Steps-new_progress_example :
    (after_a_line.walked ≡ 50)
    × All (IsLine 100 50) after_a_line.log
    × (length after_a_line.log * 10 ≤ 1013 - 1000)
Steps-new_progress_example = Steps-new_progress count_node 100 10 1000 0 a_line (omega arith)

-- 1.5 GiB, and a byte less than a MiB, which is printed in the smaller unit.
printed_gib : human_bytes 1_610_612_736 ≡ "1.50 GiB"
unfolding human_bytes human_size to_f64 pick_unit round_half_even excess_bits
printed_gib = refl

printed_kib : human_bytes 1_048_575 ≡ "1024.00 KiB"
unfolding human_bytes human_size to_f64 pick_unit round_half_even excess_bits
printed_kib = refl

human_bytes-Shows_example :
    (h : Human) × (human_bytes 1_610_612_736 ≡ human_text h) × Shows 1_610_612_736 h
human_bytes-Shows_example = human_bytes-Shows 1_610_612_736 (omega arith)
