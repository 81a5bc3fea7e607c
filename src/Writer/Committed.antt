-- ===== src/Writer/Committed.antt =====
-- What an outcome of the writer says, and how each kind of commit makes it so.
use mathlib.Core.List.{append_assoc, append-nil}
use reth_trie_rebuild_bench.Base.{
  ℕ, suc, ◌+◌, ◌-◌, ◌*◌, ◌/◌, ◌<◌, ◌≡◌, refl, sym, ap, subst, ◌∙◌, Bool, Option, List, [], ◌++◌,
  length, length-append, arith,
}
use reth_trie_rebuild_bench.Base.Dict.{override}
use reth_trie_rebuild_bench.Base.Perms.{length-perm}
use reth_trie_rebuild_bench.Base.Result.{ok, err, >>=-eq-ok}
use reth_trie_rebuild_bench.Trie.{B256, Nibbles, TrieUpdates, no_updates, Node}
use reth_trie_rebuild_bench.Trie.Nodes.{nodes, emitted_at, override_assoc}
use reth_trie_rebuild_bench.Trie.Distinct.{
  Distinct, Distinct-perm, emitted_at-append, emitted_at-perm,
}
use mathlib.Core.List.Perm
use reth_trie_rebuild_bench.Database.{TrieDb, IsTrieDb}
use reth_trie_rebuild_bench.Rebuild.{write_trie_updates_with}
use reth_trie_rebuild_bench.Rebuild.Write.{write_trie_updates_with-adds}
use reth_trie_rebuild_bench.Writer.{Written, Progress, Outcome, commit_chunk, flush}
use reth_trie_rebuild_bench.Writer.Chunk.{Holds}

-- How many chunks of `n` nodes `m` nodes take, the last one perhaps not full.
abbrev pub chunks_of : ℕ → ℕ → ℕ
chunks_of n m = (m + (n - 1)) / n

chunks_of-add : (n m : ℕ) → 0 < n → chunks_of n (n + m) ≡ suc (chunks_of n m)
chunks_of-add n m h = grind arith

chunks_of-zero : (n : ℕ) → 0 < n → chunks_of n 0 ≡ 0
chunks_of-zero n h = grind arith

chunks_of-partial : (n m : ℕ) → 0 < m → m < n → chunks_of n m ≡ 1
chunks_of-partial n m h k = grind arith

module _ (D : TrieDb) (L : IsTrieDb D) (k : Bool) where
  open L use {db_at}

  -- `db'` has the rows of `db` and, over them, the nodes of `es`.
  abbrev pub DbExtends : D.Db → List Node → D.Db → Type 0
  DbExtends db es db' =
      (a : Option B256) (p : Nibbles)
      → db_at k db' a p ≡ override (db_at k db a p) (emitted_at es a p)

  DbExtends-nil : (db : D.Db) → DbExtends db [] db
  unfolding emitted_at
  DbExtends-nil db a p = refl

  DbExtends-append :
      (es fs : List Node) (db db' db'' : D.Db)
      → DbExtends db es db'
      → DbExtends db' fs db''
      → DbExtends db (es ++ fs) db''
  DbExtends-append es fs db db' db'' h h' a p =
      h' a p
      ∙ rw (h a p, emitted_at-append es fs a p)
          (override_assoc (db_at k db a p) (emitted_at es a p) (emitted_at fs a p))

  -- A commit that succeeds adds the chunk's nodes and counts them.
  commit_chunk-Holds :
      (db : D.Db) (chunk : TrieUpdates) (cs : List Node) (n : ℕ) (db' : D.Db)
      → Holds chunk cs
      → Distinct cs
      → commit_chunk D k db chunk ≡ ok (n, db')
      → (n ≡ length cs) × DbExtends db cs db'
  unfolding commit_chunk
  commit_chunk-Holds db chunk cs n db' h d e =
      let (tx, opened, r) = >>=-eq-ok (D.tx_mut db) _ e in
      let ((m, tx'), wrote, r') = >>=-eq-ok (write_trie_updates_with D k tx chunk) _ r in
      let (db'', committed, r'') = >>=-eq-ok (D.commit tx') _ r' in
      let same : db'' ≡ db' = cc in
      let count : m ≡ n = cc in
      let d' = Distinct-perm cs (nodes chunk) (Perm.symm h.perm) d in
      let (size, rows) =
        write_trie_updates_with-adds D L k chunk tx m tx' h.adds h.no_root d' wrote in
      (
        sym count ∙ size ∙ length-perm (nodes chunk) cs h.perm,
        λ a p.
            subst (λ t. db_at k t a p ≡ L.tx_at k tx' a p) same
              (L.commit-at k tx' db'' committed a p)
            ∙ rows a p
            ∙ rw (L.tx_mut-at k db tx opened a p, emitted_at-perm (nodes chunk) cs h.perm d' a p),
      )

  abbrev pub Flushed : Progress D → List Node → Progress D → Type 0
  Flushed s cs t =
      (t.chunk ≡ no_updates)
      × (t.pending ≡ 0)
      × (t.written.nodes ≡ s.written.nodes + length cs)
      × (t.written.chunks ≡ s.written.chunks + 1)
      × DbExtends s.db cs t.db

  pub flush-Flushed :
      (s : Progress D) (cs : List Node) (t : Progress D)
      → Holds s.chunk cs
      → Distinct cs
      → flush D k s ≡ ok t
      → Flushed s cs t
  unfolding flush
  flush-Flushed s cs t h d e =
      let ((n, db'), committed, r) = >>=-eq-ok (commit_chunk D k s.db s.chunk) _ e in
      let (size, rows) = commit_chunk-Holds s.db s.chunk cs n db' h d committed in
      let same : db' ≡ t.db = cc in
      let wrote : s.written.nodes + n ≡ t.written.nodes = cc in
      (cc, cc, omega (arith, wrote, size), cc, subst (DbExtends s.db cs) same rows)

  -- What an outcome says of the nodes `all` that were pending or to come: `done` of them were
  -- committed, and the tables have those and no others. Without a failure that is all of them, in
  -- as few chunks as there can be; after one, it is a whole number of full chunks.
  pub record Committed (n : ℕ) (db : D.Db) (before : Written) (all : List Node) (o : Outcome D)
      : Type 0 where
    pub done : List Node
    pub rest : List Node
    pub split : all ≡ done ++ rest
    pub rows : DbExtends db done o.db
    pub finished :
        (w : Written)
        → o.result ≡ ok w
        → (rest ≡ [])
          × (w.nodes ≡ before.nodes + length all)
          × (w.chunks ≡ before.chunks + chunks_of n (length all))
    pub failed : (e : D.Error) → o.result ≡ err e → (j : ℕ) × (length done ≡ j * n)

  -- A failed commit leaves the database as it was.
  pub failed-Committed :
      (n : ℕ) (s : Progress D) (all : List Node) (e : D.Error)
      → Committed n s.db s.written all (record { db = s.db; result = err e })
  failed-Committed n s all e = record {
    done = [];
    rest = all;
    split = refl;
    rows = DbExtends-nil s.db;
    finished = λ w h. absurd (cc);
    failed = λ e h. (0, omega arith);
  }

  pub idle-Committed :
      (n : ℕ) (s : Progress D)
      → 0 < n
      → Committed n s.db s.written [] (record { db = s.db; result = ok s.written })
  idle-Committed n s pos = record {
    done = [];
    rest = [];
    split = refl;
    rows = DbExtends-nil s.db;
    finished = λ w h.
        let same : s.written ≡ w = cc in (refl, ground arith, ground (arith, chunks_of-zero n pos));
    failed = λ e h. absurd (cc);
  }

  -- A flush of the last, partial chunk.
  pub last-Committed :
      (n : ℕ) (s t : Progress D) (cs : List Node)
      → 0 < length cs
      → length cs < n
      → Flushed s cs t
      → Committed n s.db s.written cs (record { db = t.db; result = ok t.written })
  last-Committed n s t cs some_left partial f = record {
    done = cs;
    rest = [];
    split = sym (append-nil cs);
    rows = f.4;
    finished = λ w h.
        let same : t.written ≡ w = cc in
        (
          refl,
          ground (arith, f.2),
          ground (arith, f.3, chunks_of-partial n (length cs) some_left partial),
        );
    failed = λ e h. absurd (cc);
  }

  -- A full chunk, and then what the rest of the loop does.
  pub full-Committed :
      (n : ℕ) (s t : Progress D) (cs es : List Node) (o : Outcome D)
      → 0 < n
      → length cs ≡ n
      → Flushed s cs t
      → Committed n t.db t.written es o
      → Committed n s.db s.written (cs ++ es) o
  full-Committed n s t cs es o pos full f c = record {
    done = cs ++ c.done;
    rest = c.rest;
    split = rw c.split (sym (append_assoc cs c.done c.rest));
    rows = DbExtends-append cs c.done s.db t.db o.db f.4 c.rows;
    finished = λ w h.
        let (none_left, nodes, chunks) = c.finished w h in
        (
          none_left,
          omega (arith, nodes, f.2, length-append cs es),
          omega (
            arith,
            chunks,
            f.3,
            ap (chunks_of n) (length-append cs es ∙ ap (λ (t : ℕ). t + length es) full),
            chunks_of-add n (length es) pos,
          ),
        );
    failed = λ e h.
        let (j, eq) = c.failed e h in (suc j, grind (arith, length-append cs c.done, eq, full));
  }
