-- ===== src/Alloc/Heap.antt =====
-- The counters against the heap itself, for one thread after another.
use reth_trie_rebuild_bench.Base.{
  ℕ, ◌+◌, ◌^◌, ◌≤◌, ◌<◌, ◌≡◌, refl, max, none, some, List, [], ◌∷◌, ◌++◌, arith,
}
use reth_trie_rebuild_bench.Alloc.{
  PeakAlloc, new_alloc, add_current, raise_peak, add, sub, load_current, store_peak, reset_peak,
  add_unless_null, on_call, on_calls, Call, alloc, alloc_zeroed, dealloc, realloc, reset,
}

-- The live blocks, each with the size of its layout.
abbrev pub Heap : Type 0
Heap = List (ℕ × ℕ)

unfoldable pub live : Heap → ℕ
live [] = 0
live ((_, size) ∷ h) = size + live h

-- The contract of `GlobalAlloc`: a block is freed or reallocated while it lives and with its own
-- layout, and a failed call leaves the heap as it is.
pub data Contract : Heap → Call → Heap → Type 0 where
  allocated : {h : Heap} (size ptr : ℕ) → Contract h (alloc size (some ptr)) ((ptr, size) ∷ h)
  zeroed : {h : Heap} (size ptr : ℕ) → Contract h (alloc_zeroed size (some ptr)) ((ptr, size) ∷ h)
  no_memory : {h : Heap} (size : ℕ) → Contract h (alloc size none) h
  no_zeroed : {h : Heap} (size : ℕ) → Contract h (alloc_zeroed size none) h
  freed :
      {h : Heap} (l r : Heap) (ptr size : ℕ)
      → h ≡ l ++ (ptr, size) ∷ r
      → Contract h (dealloc ptr size) (l ++ r)
  moved :
      {h : Heap} (l r : Heap) (ptr size new_size new : ℕ)
      → h ≡ l ++ (ptr, size) ∷ r
      → Contract h (realloc ptr size new_size (some new)) ((new, new_size) ∷ (l ++ r))
  not_moved : {h : Heap} (ptr size new_size : ℕ) → Contract h (realloc ptr size new_size none) h
  peak_reset : {h : Heap} → Contract h reset h

-- The most live bytes since the last reset, one call later.
abbrev pub next_high : ℕ → Call → Heap → ℕ
next_high m reset h = live h
next_high m (alloc _ _) h = max m (live h)
next_high m (alloc_zeroed _ _) h = max m (live h)
next_high m (dealloc _ _) h = max m (live h)
next_high m (realloc _ _ _ _) h = max m (live h)

-- A run of calls that keep the contract, from a heap and its high-water mark to another. The heap
-- never exceeds the address space.
pub data Run : Heap → ℕ → List Call → Heap → ℕ → Type 0 where
  done : {h : Heap} {m : ℕ} → Run h m [] h m
  call :
      {h h' k : Heap} {m n : ℕ} {c : Call} {cs : List Call}
      → Contract h c h'
      → live h' < 2 ^ 64
      → Run h' (next_high m c h') cs k n
      → Run h m (c ∷ cs) k n

-- The counters are those of the heap.
pub record Counts (s : PeakAlloc) (h : Heap) (m : ℕ) : Type 0 where
  pub current : s.current ≡ live h
  pub peak : s.peak ≡ m
  pub fits : live h < 2 ^ 64
  pub high : live h ≤ m

live-middle : (l r : Heap) (ptr size : ℕ) → live (l ++ (ptr, size) ∷ r) ≡ size + live (l ++ r)
unfolding live
live-middle [] r ptr size = refl
live-middle ((_, n) ∷ l) r ptr size = omega (arith, live-middle l r ptr size)

add-Counts :
    (s : PeakAlloc) (h : Heap) (m ptr size : ℕ)
    → Counts s h m
    → size + live h < 2 ^ 64
    → Counts (add s size) ((ptr, size) ∷ h) (max m (size + live h))
unfolding add add_current raise_peak live
add-Counts s h m ptr size c fits = record {
  current = ground (arith, c.current);
  peak = ground (arith, c.current, c.peak);
  fits = fits;
  high = ground arith;
}

sub-Counts :
    (s : PeakAlloc) (l r : Heap) (h : Heap) (m ptr size : ℕ)
    → h ≡ l ++ (ptr, size) ∷ r
    → Counts s h m
    → Counts (sub s size) (l ++ r) m
unfolding sub
sub-Counts s l r h m ptr size e c =
    let less : live h ≡ size + live (l ++ r) = rw e (live-middle l r ptr size) in
    record {
      current = omega (arith, c.current, c.fits, less);
      peak = c.peak;
      fits = omega (arith, c.fits, less);
      high = omega (arith, c.high, less);
    }

-- A call that leaves the heap no larger leaves the high-water mark.
settled : {s : PeakAlloc} {h : Heap} {m : ℕ} → Counts s h m → Counts s h (max m (live h))
settled {s} {h} {m} c = record {
  current = c.current;
  peak = ground (arith, c.peak, c.high);
  fits = c.fits;
  high = ground arith;
}

on_call-Counts :
    {h h' : Heap} {c : Call} (s : PeakAlloc) (m : ℕ)
    → Contract h c h'
    → live h' < 2 ^ 64
    → Counts s h m
    → Counts (on_call s c) h' (next_high m c h')
unfolding on_call add_unless_null reset_peak store_peak load_current live
on_call-Counts {h} s m (allocated size ptr) fits c = add-Counts s h m ptr size c fits
on_call-Counts {h} s m (zeroed size ptr) fits c = add-Counts s h m ptr size c fits
on_call-Counts s m (no_memory size) fits c = settled c
on_call-Counts s m (no_zeroed size) fits c = settled c
on_call-Counts {h} s m (freed l r ptr size e) fits c = settled (sub-Counts s l r h m ptr size e c)
on_call-Counts {h} s m (moved l r ptr size new_size new e) fits c =
    add-Counts (sub s size) (l ++ r) m new new_size (sub-Counts s l r h m ptr size e c) fits
on_call-Counts s m (not_moved ptr size new_size) fits c = settled c
on_call-Counts s m peak_reset fits c = record {
  current = c.current;
  peak = c.current;
  fits = fits;
  high = omega arith;
}

on_calls-Counts :
    {h k : Heap} {m n : ℕ} {cs : List Call} (s : PeakAlloc)
    → Run h m cs k n
    → Counts s h m
    → Counts (on_calls s cs) k n
unfolding on_calls
on_calls-Counts s done c = c
on_calls-Counts s (call {m = m} {c = o} step fits rest) c =
    on_calls-Counts (on_call s o) rest (on_call-Counts s m step fits c)

-- After any calls of one thread that keep the allocator's contract, failed ones and resets among
-- them, `current` is the number of live bytes and `peak` the most there were after any call since
-- the last reset, as long as the live bytes fit 64 bits.
pub on_calls_lem :
    {k : Heap} {n : ℕ} (cs : List Call)
    → Run [] 0 cs k n
    → ((on_calls new_alloc cs).current ≡ live k) × ((on_calls new_alloc cs).peak ≡ n)
unfolding live
on_calls_lem cs r = let c = on_calls-Counts new_alloc r empty in (c.current, c.peak)
  where
    empty : Counts new_alloc [] 0
    empty = record { current = refl; peak = refl; fits = omega arith; high = omega arith }
