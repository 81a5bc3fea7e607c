-- ===== src/Alloc.antt =====
-- crates/bench/src/alloc.rs: the counting allocator. Counters are 64-bit; a pointer that the system
-- allocator returns is an argument, `none` for null. Alloc/Human has `human_bytes`.
pub mod Heap
pub mod Human
pub mod Race
use reth_trie_rebuild_bench.Base.{ℕ, ◌+◌, ◌-◌, ◌%◌, ◌^◌, max, Option, none, some, List, [], ◌∷◌}

pub record PeakAlloc : Type 0 where
  pub current : ℕ
  pub peak : ℕ

abbrev pub new_alloc : PeakAlloc
new_alloc = record { current = 0; peak = 0 }

-- The two atomic operations of `add`: `current.fetch_add(bytes)`, with `now`, and
-- `peak.fetch_max(now)`.
unfoldable pub add_current : PeakAlloc → ℕ → PeakAlloc × ℕ
add_current s bytes = let now = (s.current + bytes) % 2 ^ 64 in (record s { current = now }, now)

unfoldable pub raise_peak : PeakAlloc → ℕ → PeakAlloc
raise_peak s now = record s { peak = max s.peak now }

unfoldable pub add : PeakAlloc → ℕ → PeakAlloc
add s bytes = let (t, now) = add_current s bytes in raise_peak t now

unfoldable pub sub : PeakAlloc → ℕ → PeakAlloc
sub s bytes = record s { current = (s.current + (2 ^ 64 - bytes)) % 2 ^ 64 }

-- The load and the store of `reset_peak`.
unfoldable pub load_current : PeakAlloc → ℕ
load_current s = s.current

unfoldable pub store_peak : PeakAlloc → ℕ → PeakAlloc
store_peak s live = record s { peak = live }

unfoldable pub reset_peak : PeakAlloc → PeakAlloc
reset_peak s = store_peak s (load_current s)

-- The calls of the allocator, with the sizes of their layouts.
pub data Call : Type 0 where
  alloc alloc_zeroed : (size : ℕ) (ptr : Option ℕ) → Call
  dealloc : (ptr size : ℕ) → Call
  realloc : (ptr size new_size : ℕ) (new : Option ℕ) → Call
  reset : Call

-- `if !ptr.is_null()`
unfoldable pub add_unless_null : PeakAlloc → Option ℕ → ℕ → PeakAlloc
add_unless_null s none size = s
add_unless_null s (some _) size = add s size

unfoldable pub on_call : PeakAlloc → Call → PeakAlloc
on_call s (alloc size ptr) = add_unless_null s ptr size
on_call s (alloc_zeroed size ptr) = add_unless_null s ptr size
on_call s (dealloc ptr size) = sub s size
on_call s (realloc ptr size new_size none) = s
on_call s (realloc ptr size new_size (some _)) = add (sub s size) new_size
on_call s reset = reset_peak s

unfoldable pub on_calls : PeakAlloc → List Call → PeakAlloc
on_calls s [] = s
on_calls s (c ∷ cs) = on_calls (on_call s c) cs
