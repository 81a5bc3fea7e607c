-- ===== src/Alloc/Race.antt =====
-- The counters with calls of several threads interleaved, one atomic operation at a time.
use reth_trie_rebuild_bench.Base.{ℕ, ◌≤◌, ◌≡◌, refl, max, List, [], ◌∷◌, ◌++◌, arith}
use reth_trie_rebuild_bench.Alloc.{PeakAlloc, new_alloc, add_current, raise_peak, sub}

-- The largest `now` of the calls to `add` that have made their first operation only.
largest : List ℕ → ℕ
largest [] = 0
largest (now ∷ ps) = max now (largest ps)

-- One atomic operation of some thread: the counters, the values `now` in flight, and the largest
-- `current` there has been.
pub data Atomic : PeakAlloc → List ℕ → ℕ → PeakAlloc → List ℕ → ℕ → Type 0 where
  counted :
      {s : PeakAlloc} {ps : List ℕ} {high : ℕ} (bytes : ℕ)
      → Atomic s ps high
          (add_current s bytes).0
          ((add_current s bytes).1 ∷ ps)
          (max high (add_current s bytes).0.current)
  raised :
      {s : PeakAlloc} {ps : List ℕ} {high : ℕ} (l r : List ℕ) (now : ℕ)
      → ps ≡ l ++ now ∷ r
      → Atomic s ps high (raise_peak s now) (l ++ r) high
  freed :
      {s : PeakAlloc} {ps : List ℕ} {high : ℕ} (bytes : ℕ)
      → bytes ≤ s.current
      → Atomic s ps high (sub s bytes) ps high

pub data Atomics : PeakAlloc → List ℕ → ℕ → PeakAlloc → List ℕ → ℕ → Type 0 where
  done : {s : PeakAlloc} {ps : List ℕ} {high : ℕ} → Atomics s ps high s ps high
  step :
      {s t u : PeakAlloc} {ps qs rs : List ℕ} {high top mark : ℕ}
      → Atomic s ps high t qs top
      → Atomics t qs top u rs mark
      → Atomics s ps high u rs mark

largest-middle : (l r : List ℕ) (now : ℕ) → largest (l ++ now ∷ r) ≡ max now (largest (l ++ r))
unfolding largest
largest-middle [] r now = refl
largest-middle (p ∷ l) r now = ground (arith, largest-middle l r now)

-- What is not in `peak` yet is in flight.
Caught : PeakAlloc → List ℕ → ℕ → Type 0
Caught s ps high = max s.peak (largest ps) ≡ high

Atomic-Caught :
    {s t : PeakAlloc} {ps qs : List ℕ} {high top : ℕ}
    → Atomic s ps high t qs top
    → Caught s ps high
    → Caught t qs top
unfolding Caught add_current raise_peak sub largest
Atomic-Caught (counted bytes) c = ground (arith, c)
Atomic-Caught {s} (raised l r now e) c =
    let split : max s.peak (max now (largest (l ++ r))) ≡ max s.peak (largest (l ++ now ∷ r)) =
      rw (largest-middle l r now) in
    ground (arith, split, c, e)
Atomic-Caught (freed bytes h) c = c

Atomics-Caught :
    {s t : PeakAlloc} {ps qs : List ℕ} {high top : ℕ}
    → Atomics s ps high t qs top
    → Caught s ps high
    → Caught t qs top
Atomics-Caught done c = c
Atomics-Caught (step a ops) c = Atomics-Caught ops (Atomic-Caught a c)

-- However the operations of `add` and `sub` interleave, once no call is halfway through, `peak` is
-- the largest value that `current` has had. There is no reset among them.
pub peak-Atomics : {t : PeakAlloc} {top : ℕ} → Atomics new_alloc [] 0 t [] top → t.peak ≡ top
unfolding Caught largest
peak-Atomics {t} {top} ops = caught (Atomics-Caught ops start)
  where
    start : Caught new_alloc [] 0
    start = refl

    caught : Caught t [] top → t.peak ≡ top
    caught c = ground (arith, c)
