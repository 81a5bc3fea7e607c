-- ===== src/Bench/Main/Works.antt =====
-- The steps of the program of crates/bench/src/bin/datadir_bench.rs, as they lead from database to
-- database or stop since something failed.
use Prim.Native.String.{String}
use reth_trie_rebuild_bench.Base.{
  ◌≡◌, ◌≢◌, refl, ap, sym, ◌∙◌, Bool, true, false, Option, none, some, List,
}
use reth_trie_rebuild_bench.Base.Result.{Result, ok, err}
use reth_trie_rebuild_bench.Trie.{B256, digits_discrete}
use reth_trie_rebuild_bench.Database.{TrieDb}
use reth_trie_rebuild_bench.Rebuild.{clear_trie_tables}
use reth_trie_rebuild_bench.Tables.{digest_trie_tables}
use reth_trie_rebuild_bench.Mdbx.{reth_serial_root}
use reth_trie_rebuild_bench.Bench.Args.{Args}
use reth_trie_rebuild_bench.Bench.Host.{
  Label, Line, tip_is, tables_digested, walk_matches, walk_mismatch, root_matches, root_mismatch,
  Heap, Host,
}
use reth_trie_rebuild_bench.Bench.Program.{
  exited, Machine, Flow, returned, stopped, ◌>>=◌, pure, stop, println, expect,
}
use reth_trie_rebuild_bench.Bench.Triple.{Ends, >>=-Triple, expect-Triple}
use reth_trie_rebuild_bench.Bench.Steps.{
  Bench, read_tx, set_db, reset_heap, read_peak, print_all, mismatch, report, check_root,
  clear_tables, when,
}
use reth_trie_rebuild_bench.Bench.Main.{
  print_tip, hashed_entries, print_trie_tables_digest, compare_walk, check_written_tables,
}
use reth_trie_rebuild_bench.Bench.Main.Failed.{
  Failed, no_transaction, no_tip, no_accounts, no_storages, no_digest, no_walk, not_cleared,
  wrong_root, wrong_walk, Computed,
}

module _ (D : TrieDb) (H : Host D) (args : Args) where
  -- A step that leads from a database with `V` to one with `W`, or stops since something failed.
  pub record Works {A : Type 0} (V : D.Db → Type 0) (W : A → D.Db → Type 0) (m : Bench D A)
      : Type 0 where
    pub ends :
        (s : Machine D.Db Line)
        → V s.db
        → Ends (λ why t. Failed D H args t.db) (λ a t. W a t.db) (m s)

-- What holds of a database, of which a transaction is open.
abbrev pub On : (D : TrieDb) → D.Tx → (D.Db → Type 0) → D.Db → Type 0
On D tx V db = (D.tx db ≡ ok tx) × V db

module _ {D : TrieDb} {H : Host D} {args : Args} where
  pub >>=-Works :
      {A B : Type 0} {V : D.Db → Type 0} {W : A → D.Db → Type 0} {X : B → D.Db → Type 0}
      {m : Bench D A} {next : A → Bench D B}
      → Works D H args V W m
      → ((a : A) → Works D H args (W a) X (next a))
      → Works D H args V X (m >>= next)
  >>=-Works {V} {W} {X} h k = record {
    ends =
        (>>=-Triple {E = λ why t. Failed D H args t.db} {P = λ s. V s.db} {R = λ a s. W a s.db}
          {R' = λ b s. X b s.db} (record { ends = h.ends })
          (λ a. record { ends = (k a).ends })).ends;
  }

  pub expect-Works :
      {A : Type 0} {V : D.Db → Type 0} (result : Result D.Error A) (message : String)
      → ((e : D.Error) (db : D.Db) → result ≡ err e → V db → Failed D H args db)
      → Works D H args V (λ a db. (result ≡ ok a) × V db) (expect result message)
  expect-Works {V} result message fails = record {
    ends =
        (expect-Triple {E = λ why t. Failed D H args t.db} {P = λ s. V s.db}
          {R = λ a s. (result ≡ ok a) × V s.db} result message (λ a e s v. (e, v))
          (λ f e s v. fails f s.db e v)).ends;
  }

  pub pure-Works :
      {A : Type 0} {V : D.Db → Type 0} (a : A) → Works D H args V (λ b db. V db) (pure a)
  unfolding pure
  pure-Works a = record { ends = λ s v. v }

  pub println-Works :
      {V : D.Db → Type 0} (line : Line) → Works D H args V (λ _ db. V db) (println line)
  unfolding println
  println-Works line = record { ends = λ s v. v }

  pub print_all-Works :
      {V : D.Db → Type 0} (lines : List Line) → Works D H args V (λ _ db. V db) (print_all D lines)
  unfolding print_all
  print_all-Works lines = record { ends = λ s v. v }

  pub reset_heap-Works :
      {V : D.Db → Type 0} (heap : Heap) → Works D H args V (λ _ db. V db) (reset_heap D heap)
  unfolding reset_heap
  reset_heap-Works heap = record { ends = λ s v. v }

  pub read_peak-Works :
      {V : D.Db → Type 0} (heap : Heap) → Works D H args V (λ _ db. V db) (read_peak D heap)
  unfolding read_peak
  read_peak-Works heap = record { ends = λ s v. v }

  pub set_db-Works :
      {V : D.Db → Type 0} {W : Unit {0} → D.Db → Type 0} (db : D.Db)
      → ((old : D.Db) → V old → W tt db)
      → Works D H args V W (set_db D db)
  unfolding set_db
  set_db-Works db h = record { ends = λ s v. h s.db v }

  pub read_tx-Works :
      {V : D.Db → Type 0} → Works D H args V (λ tx db. (D.tx db ≡ ok tx) × V db) (read_tx D)
  unfolding read_tx expect pure stop
  read_tx-Works {V} = record { ends = λ s v. opened s (D.tx s.db) refl v }
    where
      opened :
          (s : Machine D.Db Line) (r : Result D.Error D.Tx)
          → D.tx s.db ≡ r
          → V s.db
          → Ends
              (λ why t. Failed D H args t.db)
              (λ tx t. (D.tx t.db ≡ ok tx) × V t.db)
              (expect r "read transaction" s)
      opened s (ok tx) e v = (e, v)
      opened s (err f) e v = no_transaction f e

  pub weaken :
      {A : Type 0} {V V' : D.Db → Type 0} {W W' : A → D.Db → Type 0} {m : Bench D A}
      → ((db : D.Db) → V db → V' db)
      → ((a : A) (db : D.Db) → W' a db → W a db)
      → Works D H args V' W' m
      → Works D H args V W m
  weaken {A = A} {W} {W'} {m} f g h = record { ends = λ s v. weakened (m s) (h.ends s (f s.db v)) }
    where
      weakened :
          (end : Flow D.Db Line A)
          → Ends (λ why t. Failed D H args t.db) (λ a t. W' a t.db) end
          → Ends (λ why t. Failed D H args t.db) (λ a t. W a t.db) end
      weakened (returned a s) v = g a s.db v
      weakened (stopped why s) v = v

  pub print_tip-Works :
      {V : D.Db → Type 0} (tx : D.Tx) → Works D H args (On D tx V) (λ _ db. V db) (print_tip D H tx)
  unfolding print_tip
  print_tip-Works tx =
      >>=-Works
        (expect-Works (H.finish_block tx) _ (λ e db failed (opened, v). no_tip tx e opened failed))
        (λ block. weaken (λ db (e, (o, v)). v) (λ _ db v. v) (println-Works (tip_is block)))

  pub hashed_entries-Works :
      {V : D.Db → Type 0} (tx : D.Tx)
      → Works D H args (On D tx V) (λ n db. V db) (hashed_entries D H tx)
  unfolding hashed_entries
  hashed_entries-Works {V} tx =
      >>=-Works
        (expect-Works (H.entries_of_accounts tx) _
          (λ e db failed (opened, v). no_accounts tx e opened failed))
        (λ accounts.
          >>=-Works
            (expect-Works (H.entries_of_storages tx) _
              (λ e db failed (e', (opened, v)). no_storages tx e opened failed))
            (λ storages.
              weaken {V' = V} {W' = λ _ db. V db} (λ db (e, (e', (o, v))). v) (λ _ db v. v)
                (pure-Works _)))

  pub digest-Works :
      {V : D.Db → Type 0} (tx : D.Tx)
      → Works D H args (On D tx V) (λ _ db. On D tx V db) (print_trie_tables_digest D H tx)
  unfolding print_trie_tables_digest
  digest-Works tx =
      >>=-Works
        (expect-Works (digest_trie_tables D H.tables H.hashing tx) _
          (λ e db failed (opened, v). no_digest tx e opened failed))
        (λ tables. weaken (λ db (e, v). v) (λ _ db v. v) (println-Works (tables_digested tables)))

  pub report-Works :
      {V : D.Db → Type 0} {a b : B256} (d : Dec (a ≡ b)) (good bad : Line)
      → ((db : D.Db) → a ≢ b → V db → Failed D H args db)
      → Works D H args V (λ _ db. V db) (report D d good bad)
  unfolding report mismatch stop
  report-Works (yes p) good bad fails = println-Works good
  report-Works {V} (no n) good bad fails = >>=-Works (println-Works bad) (λ _. exit-Works)
    where
      exit-Works : Works D H args V (λ _ db. V db) (stop {A = Unit {0}} (exited 1))
      exit-Works = record { ends = λ s v. fails s.db n v }

  pub check_root-Works :
      {V : D.Db → Type 0} (root : B256) (label : Label)
      → ((db : D.Db) → V db → Computed D H args db root)
      → Works D H args V (λ _ db. V db) (check_root D root args.expected_root label)
  unfolding check_root
  check_root-Works {V} root label computed = checked args.expected_root refl
    where
      checked :
          (e : Option B256)
          → args.expected_root ≡ e
          → Works D H args V (λ _ db. V db) (check_root D root e label)
      checked none e = pure-Works tt
      checked (some x) e =
          report-Works (digits_discrete root x) (root_matches label) (root_mismatch label x)
            (λ db n v. wrong_root root x (computed db v) e n)

  pub check_written_tables-Works :
      {V : D.Db → Type 0} (tx : D.Tx) (root : B256)
      → ((db : D.Db) → V db → Computed D H args db root)
      → Works D H args (On D tx V) (λ _ db. V db) (check_written_tables D H tx root)
  unfolding check_written_tables compare_walk
  check_written_tables-Works {V} tx root computed = >>=-Works (digest-Works tx) (λ _.
      >>=-Works
        (expect-Works (reth_serial_root D H.state_root tx) _
          (λ e db failed (opened, v). no_walk tx e opened failed))
        (λ walked.
          weaken (λ db v. v) (λ _ db (e, (opened, v)). v)
            (report-Works (digits_discrete walked root) (walk_matches walked)
              (walk_mismatch walked root)
              (λ db n (e, (opened, v)). wrong_walk tx walked root (computed db v) opened e n))))

  pub clear_tables-Works :
      {V : D.Db → Type 0}
      → Works D H args V
          (λ _ db. (before : D.Db) × (clear_trie_tables D before ≡ ok db))
          (clear_tables D)
  unfolding clear_tables
  clear_tables-Works {V} = record { ends = λ s v. (cleared s).ends s refl }
    where
      cleared :
          (s : Machine D.Db Line)
          → Works D H args
              (λ db. s.db ≡ db)
              (λ _ db. (before : D.Db) × (clear_trie_tables D before ≡ ok db))
              (expect (clear_trie_tables D s.db) "clear trie tables" >>= set_db D)
      cleared s =
          >>=-Works
            (expect-Works (clear_trie_tables D s.db) _
              (λ e db failed same. not_cleared e (ap (clear_trie_tables D) (sym same) ∙ failed)))
            (λ db. set_db-Works db (λ old (e, same). (s.db, e)))

  pub when-Works :
      {V : D.Db → Type 0} (b : Bool) (m : Bench D (Unit {0}))
      → Works D H args V (λ _ db. V db) m
      → Works D H args V (λ _ db. V db) (when D b m)
  unfolding when
  when-Works true m h = h
  when-Works false m h = pure-Works tt
