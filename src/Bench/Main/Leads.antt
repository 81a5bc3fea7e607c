-- ===== src/Bench/Main/Leads.antt =====
-- The steps of the program of crates/bench/src/bin/datadir_bench.rs, as they lead from printed lines to
-- printed lines.
use Prim.Native.String.{String}
use reth_trie_rebuild_bench.Base.{
  ℕ, ◌≡◌, ◌≢◌, refl, ap, subst, sym, Bool, true, false, Option, none, some, List, [], ◌∷◌,
}
use reth_trie_rebuild_bench.Base.Result.{Result, ok}
use reth_trie_rebuild_bench.Trie.{B256, digits_discrete}
use reth_trie_rebuild_bench.Database.{TrieDb}
use reth_trie_rebuild_bench.Rebuild.{clear_trie_tables}
use reth_trie_rebuild_bench.Bench.Host.{Label, Line, root_matches, root_mismatch, Heap}
use reth_trie_rebuild_bench.Bench.Program.{
  Status, exited, panicked, unfinished, Machine, ◌>>=◌, pure, stop, println, expect,
}
use reth_trie_rebuild_bench.Bench.Triple.{Ends, Triple, >>=-Triple, expect-Triple}
use reth_trie_rebuild_bench.Bench.Steps.{
  Bench, read_tx, set_db, reset_heap, read_peak, mismatch, report, check_root, clear_tables, when,
}
use reth_trie_rebuild_bench.Bench.Main.Sound.{
  Truth, reading, plain, Sound, Refuted, wrong_root, Meets, Counts, gather_into, plain-Sound,
  shown-Sound,
}

module _ (D : TrieDb) (truth : Truth) where
  -- If the program exits, it is with status 1, and its last line is right that something is wrong.
  abbrev pub Stops : Status → Machine D.Db Line → Type 0
  Stops (exited n) t = (n ≡ 1) × Refuted truth t.lines
  Stops (panicked message) t = Unit {0}
  Stops unfinished t = Unit {0}

  -- A step that leads from lines with `V` to lines with `W`.
  pub record Leads {A : Type 0} (V W : List Line → Type 0) (m : Bench D A) : Type 0 where
    pub ends : (s : Machine D.Db Line) → V s.lines → Ends Stops (λ a t. W t.lines) (m s)

-- A root was shown by the line just printed, and is not judged yet.
abbrev pub Shown : Truth → ℕ → Line → List Line → Type 0
Shown truth k line lines = (rest : List Line) × (lines ≡ line ∷ rest) × Sound truth k [] rest

module _ {D : TrieDb} {truth : Truth} where
  pub >>=-Leads :
      {A B : Type 0} {V W X : List Line → Type 0} {m : Bench D A} {next : A → Bench D B}
      → Leads D truth V W m
      → ((a : A) → Leads D truth W X (next a))
      → Leads D truth V X (m >>= next)
  >>=-Leads {V} {W} {X} h k = record {
    ends =
        (>>=-Triple {E = Stops D truth} {P = λ s. V s.lines} {R = λ a s. W s.lines}
          {R' = λ b s. X s.lines} (record { ends = h.ends })
          (λ a. record { ends = (k a).ends })).ends;
  }

  pub expect-Leads :
      {E A : Type 0} {V : List Line → Type 0} (result : Result E A) (message : String)
      → Leads D truth V V (expect result message)
  expect-Leads {V} result message = record {
    ends =
        (expect-Triple {E = Stops D truth} {P = λ s. V s.lines} {R = λ a s. V s.lines} result
          message (λ a e s v. v) (λ f e s v. tt)).ends;
  }

  pub pure-Leads : {A : Type 0} {V : List Line → Type 0} (a : A) → Leads D truth V V (pure a)
  unfolding pure
  pure-Leads a = record { ends = λ s v. v }

  pub println-Leads :
      {V W : List Line → Type 0} (line : Line)
      → ((lines : List Line) → V lines → W (line ∷ lines))
      → Leads D truth V W (println line)
  unfolding println
  println-Leads line h = record { ends = λ s v. h s.lines v }

  pub read_tx-Leads : {V : List Line → Type 0} → Leads D truth V V (read_tx D)
  unfolding read_tx
  read_tx-Leads = record { ends = λ s v. (expect-Leads (D.tx s.db) _).ends s v }

  -- What follows a transaction knows that it was opened.
  pub opened-Leads :
      {A : Type 0} {V W : List Line → Type 0} {next : D.Tx → Bench D A}
      → ((db : D.Db) (tx : D.Tx) → D.tx db ≡ ok tx → Leads D truth V W (next tx))
      → Leads D truth V W (read_tx D >>= next)
  unfolding read_tx
  opened-Leads {V} {W} {next} h = record { ends = reads.ends }
    where
      Opened : D.Tx → Machine D.Db Line → Type 0
      Opened tx s = V s.lines × ((db : D.Db) × (D.tx db ≡ ok tx))

      opens : (s : Machine D.Db Line) → V s.lines → Ends (Stops D truth) Opened (read_tx D s)
      opens s v =
          (expect-Triple {E = Stops D truth} {P = λ t. V t.lines} {R = Opened} (D.tx s.db)
              "read transaction" (λ tx e t v. (v, (s.db, e))) (λ f e t v. tt)).ends
            s v

      reads : Triple (Stops D truth) (λ s. V s.lines) (λ a s. W s.lines) (read_tx D >>= next)
      reads =
          >>=-Triple {E = Stops D truth} {P = λ s. V s.lines} {R = Opened} {R' = λ a s. W s.lines}
            (record { ends = opens })
            (λ tx. record { ends = λ s (v, (db, e)). (h db tx e).ends s v })

  -- So does what follows a result, and can be told of it.
  pub known-Leads :
      {E A B : Type 0} {V W : List Line → Type 0} {next : A → Bench D B} (result : Result E A)
      (message : String)
      → ((a : A) → result ≡ ok a → Leads D truth V W (next a))
      → Leads D truth V W (expect result message >>= next)
  known-Leads {A} {V} {W} {next} result message h = record { ends = known.ends }
    where
      Known : A → Machine D.Db Line → Type 0
      Known a s = V s.lines × (result ≡ ok a)

      known :
          Triple
            (Stops D truth)
            (λ s. V s.lines)
            (λ b s. W s.lines)
            (expect result message >>= next)
      known =
          >>=-Triple {E = Stops D truth} {P = λ s. V s.lines} {R = Known} {R' = λ b s. W s.lines}
            (expect-Triple result message (λ a e s v. (v, e)) (λ f e s v. tt))
            (λ a. record { ends = λ s (v, e). (h a e).ends s v })

  pub set_db-Leads : {V : List Line → Type 0} (db : D.Db) → Leads D truth V V (set_db D db)
  unfolding set_db
  set_db-Leads db = record { ends = λ s v. v }

  pub reset_heap-Leads :
      {V : List Line → Type 0} (heap : Heap) → Leads D truth V V (reset_heap D heap)
  unfolding reset_heap
  reset_heap-Leads heap = record { ends = λ s v. v }

  pub read_peak-Leads :
      {V : List Line → Type 0} (heap : Heap) → Leads D truth V V (read_peak D heap)
  unfolding read_peak
  read_peak-Leads heap = record { ends = λ s v. v }

  pub clear_tables-Leads : {V : List Line → Type 0} → Leads D truth V V (clear_tables D)
  unfolding clear_tables
  clear_tables-Leads {V} = record { ends = λ s v. (cleared s).ends s v }
    where
      cleared :
          (s : Machine D.Db Line)
          → Leads D truth V V (expect (clear_trie_tables D s.db) "clear trie tables" >>= set_db D)
      cleared s = >>=-Leads (expect-Leads _ _) set_db-Leads

  pub when-Leads :
      {V : List Line → Type 0} (b : Bool) (m : Bench D (Unit {0}))
      → Leads D truth V V m
      → Leads D truth V V (when D b m)
  unfolding when
  when-Leads true m h = h
  when-Leads false m h = pure-Leads tt

  pub say :
      {k : ℕ} {pending : List B256} (line : Line)
      → reading line ≡ plain
      → Leads D truth (Sound truth k pending) (Sound truth k pending) (println line)
  say {k} {pending} line p =
      println-Leads line (λ lines v. plain-Sound truth k pending line lines p v)

  pub show-Leads :
      {k : ℕ} (line : Line) → Leads D truth (Sound truth k []) (Shown truth k line) (println line)
  show-Leads line = println-Leads line (λ lines v. (lines, refl, v))

  -- A mismatch that is one.
  pub mismatch-Leads :
      {V W : List Line → Type 0} (line : Line)
      → ((lines : List Line) → V lines → Refuted truth (line ∷ lines))
      → Leads D truth V W (mismatch D line)
  unfolding mismatch stop
  mismatch-Leads {V} {W} line h =
      >>=-Leads (println-Leads {W = Refuted truth} line h) (λ _. exit-Leads)
    where
      exit-Leads : Leads D truth (Refuted truth) W (stop {A = Unit {0}} (exited 1))
      exit-Leads = record { ends = λ s v. (refl, v) }

  pub report-Leads :
      {V W : List Line → Type 0} {a b : B256} (d : Dec (a ≡ b)) (good bad : Line)
      → (a ≡ b → (lines : List Line) → V lines → W (good ∷ lines))
      → (a ≢ b → (lines : List Line) → V lines → Refuted truth (bad ∷ lines))
      → Leads D truth V W (report D d good bad)
  unfolding report
  report-Leads (yes p) good bad h k = println-Leads good (h p)
  report-Leads (no n) good bad h k = mismatch-Leads bad (k n)

  pub check_root-Leads :
      {k k' : ℕ} {line : Line} (written : Option B256) (run : Option ℕ) (root : B256)
      (e : Option B256) (label : Label)
      → e ≡ truth.expected
      → reading line ≡ record plain { root = some root; written = written; run = run }
      → Counts run k k'
      → Leads D truth
          (Shown truth k line)
          (Sound truth k' (gather_into written []))
          (check_root D root e label)
  unfolding check_root reading
  check_root-Leads {k} {k'} {line} written run root none label same p counts = record {
    ends = λ s v.
        (pure-Leads {V = Sound truth k' (gather_into written [])} tt).ends s (shown s.lines v);
  }
    where
      shown :
          (lines : List Line)
          → Shown truth k line lines
          → Sound truth k' (gather_into written []) lines
      shown lines (rest, e, v) = rw e (
          shown-Sound truth k k' root written run line rest p
            (subst (λ t. Meets t (some root)) same tt) counts v)
  check_root-Leads {k} {k'} {line} written run root (some x) label same p counts =
      report-Leads (digits_discrete root x) (root_matches label) (root_mismatch label x)
        (λ q lines (rest, e, v). good q lines rest e v)
        (λ n lines (rest, e, v).
          rw e (wrong_root label x root line rest (sym same) (ap (λ t. t.root) p) n))
    where
      good :
          root ≡ x
          → (lines rest : List Line) → lines ≡ line ∷ rest
          → Sound truth k [] rest
          → Sound truth k' (gather_into written []) (root_matches label ∷ lines)
      good q lines rest e v =
          plain-Sound truth k' (gather_into written []) (root_matches label) lines refl (
            rw e (
              shown-Sound truth k k' root written run line rest p
                (subst (λ t. Meets t (some root)) same q) counts v))
