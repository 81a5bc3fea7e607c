-- ===== src/Bench/Triple.antt =====
-- Rules for what holds at the end of a program of Bench.Program.
use Prim.Native.String.{String}
use reth_trie_rebuild_bench.Base.{◌≡◌, refl, ◌∷◌}
use reth_trie_rebuild_bench.Base.Result.{Result, ok, err}
use reth_trie_rebuild_bench.Bench.Program.{
  Status, panicked, Machine, Flow, returned, stopped, Program, and_then, ◌>>=◌, pure, stop, println,
  expect,
}

-- What holds of the end of a program: `R` if it returns, `E` if it stops.
abbrev pub Ends :
    {Db Line A : Type 0}
    → (Status → Machine Db Line → Type 0)
    → (A → Machine Db Line → Type 0)
    → Flow Db Line A
    → Type 0
Ends E R (returned a s) = R a s
Ends E R (stopped why s) = E why s

-- From where `P` holds, the program ends so.
pub record Triple {Db Line A : Type 0} (E : Status → Machine Db Line → Type 0)
    (P : Machine Db Line → Type 0) (R : A → Machine Db Line → Type 0) (m : Program Db Line A)
    : Type 0 where
  pub ends : (s : Machine Db Line) → P s → Ends E R (m s)

module _ {Db Line : Type 0} {E : Status → Machine Db Line → Type 0} where
  and_then-Ends :
      {A B : Type 0} (R : A → Machine Db Line → Type 0) (R' : B → Machine Db Line → Type 0)
      (f : Flow Db Line A) (next : A → Program Db Line B)
      → Ends E R f
      → ((a : A) → Triple E (R a) R' (next a))
      → Ends E R' (and_then f next)
  unfolding and_then
  and_then-Ends R R' (returned a s) next h k = (k a).ends s h
  and_then-Ends R R' (stopped why s) next h k = h

  pub >>=-Triple :
      {A B : Type 0} {P : Machine Db Line → Type 0} {R : A → Machine Db Line → Type 0}
      {R' : B → Machine Db Line → Type 0} {m : Program Db Line A} {next : A → Program Db Line B}
      → Triple E P R m
      → ((a : A) → Triple E (R a) R' (next a))
      → Triple E P R' (m >>= next)
  unfolding ◌>>=◌
  >>=-Triple {R} {R'} {m} {next} h k = record {
    ends = λ s p. and_then-Ends R R' (m s) next (h.ends s p) k;
  }

  pub pure-Triple :
      {A : Type 0} {P : Machine Db Line → Type 0} {R : A → Machine Db Line → Type 0} (a : A)
      → ((s : Machine Db Line) → P s → R a s)
      → Triple E P R (pure a)
  unfolding pure
  pure-Triple a h = record { ends = h }

  pub stop-Triple :
      {A : Type 0} {P : Machine Db Line → Type 0} {R : A → Machine Db Line → Type 0} (why : Status)
      → ((s : Machine Db Line) → P s → E why s)
      → Triple E P R (stop why)
  unfolding stop
  stop-Triple why h = record { ends = h }

  pub println-Triple :
      {P : Machine Db Line → Type 0} {R : Unit {0} → Machine Db Line → Type 0} (line : Line)
      → ((s : Machine Db Line) → P s → R tt (record s { lines = line ∷ s.lines }))
      → Triple E P R (println line)
  unfolding println
  println-Triple line h = record { ends = h }

  pub expect-Triple :
      {F A : Type 0} {P : Machine Db Line → Type 0} {R : A → Machine Db Line → Type 0}
      (result : Result F A) (message : String)
      → ((a : A) → result ≡ ok a → (s : Machine Db Line) → P s → R a s)
      → ((e : F) → result ≡ err e → (s : Machine Db Line) → P s → E (panicked message) s)
      → Triple E P R (expect result message)
  unfolding expect
  expect-Triple (ok a) message h k = pure-Triple a (h a refl)
  expect-Triple (err e) message h k = stop-Triple (panicked message) (k e refl)
