-- ===== src/Bench/Program.antt =====
-- A program that prints, works on one database and may stop before its end, as state passing.
use Prim.Native.String.{String}
use reth_trie_rebuild_bench.Base.{ℕ, List, ◌∷◌}
use reth_trie_rebuild_bench.Base.Result.{Result, ok, err}
use reth_trie_rebuild_bench.Alloc.{PeakAlloc}

-- How a program stops early: by `exit`, by a panic with its message, or out of the model's fuel.
pub data Status : Type 0 where
  exited : ℕ → Status
  panicked : String → Status
  unfinished : Status

-- The database on disk, the lines printed (the last one first), and the allocator's counters.
pub record Machine (Db Line : Type 0) : Type 0 where
  pub db : Db
  pub lines : List Line
  pub heap : PeakAlloc

pub data Flow (Db Line A : Type 0) : Type 0 where
  returned : A → Machine Db Line → Flow Db Line A
  stopped : Status → Machine Db Line → Flow Db Line A

abbrev pub Program : Type 0 → Type 0 → Type 0 → Type 0
Program Db Line A = Machine Db Line → Flow Db Line A

unfoldable pub and_then :
    {Db Line A B : Type 0} → Flow Db Line A → (A → Program Db Line B) → Flow Db Line B
and_then (returned a s) next = next a s
and_then (stopped why s) next = stopped why s

infixl 5 ◌>>=◌
unfoldable pub ◌>>=◌ :
    {Db Line A B : Type 0} → Program Db Line A → (A → Program Db Line B) → Program Db Line B
m >>= next = λ s. and_then (m s) next

unfoldable pub pure : {Db Line A : Type 0} → A → Program Db Line A
pure a = λ s. returned a s

unfoldable pub stop : {Db Line A : Type 0} → Status → Program Db Line A
stop why = λ s. stopped why s

unfoldable pub println : {Db Line : Type 0} → Line → Program Db Line (Unit {0})
println line = λ s. returned tt (record s { lines = line ∷ s.lines })

-- `result.expect(message)`
unfoldable pub expect : {Db Line E A : Type 0} → Result E A → String → Program Db Line A
expect (ok a) message = pure a
expect (err e) message = stop (panicked message)

-- Where a program ends: what it has returned, or how it has stopped.
abbrev pub machine_of : {Db Line A : Type 0} → Flow Db Line A → Machine Db Line
machine_of (returned a s) = s
machine_of (stopped why s) = s
