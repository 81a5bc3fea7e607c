-- ===== src/Progress/Lines.antt =====
-- What the lines say, and how many there are, with calls of several threads interleaved.
use reth_trie_rebuild_bench.Base.{
  ℕ, suc, ◌+◌, ◌-◌, ◌*◌, ◌%◌, ◌^◌, ◌≤◌, ◌<◌, ◌≡◌, refl, subst, true, false, List, [], ◌∷◌, ◌++◌,
  All, length, ltb, dec_lt, arith,
}
use reth_trie_rebuild_bench.Trie.{Node}
use reth_trie_rebuild_bench.Progress.{
  log_line, Line, ProgressSink, new_progress, on_branch_node, count_entries, log_if_due,
}
use reth_trie_rebuild_bench.Progress.Steps.{Step, noded, counted, locked, Steps, done, step}

-- What a line of a sink with `total` expected entries says, `sum` of them walked.
pub record IsLine (expected sum : ℕ) (l : Line) : Type 0 where
  pub some_walked : 0 < l.walked
  pub walked : l.walked ≤ sum
  pub total : l.total ≡ expected
  pub remaining : l.remaining ≡ expected - l.walked

pub record Sound {S : Type 0} (s : ProgressSink S) (ws : List ℕ)
    (sum clock expected every start : ℕ) : Type 0 where
  pub walked : s.walked ≡ sum
  pub waiting : All (λ w. (0 < w) × (w ≤ sum)) ws
  pub lines : All (IsLine expected sum) s.log
  pub spaced : length s.log * every ≤ s.last_log - start
  pub after_start : start ≤ s.last_log
  pub now : s.last_log ≤ clock
  pub total : s.total ≡ expected
  pub interval : s.interval ≡ every
  pub started : s.started ≡ start

All-middle :
    {A : Type 0} (P : A → Type 0) (l r : List A) (x : A) → All P (l ++ x ∷ r) → P x × All P (l ++ r)
All-middle P [] r x h = h
All-middle P (y ∷ l) r x h = let (here, rest) = All-middle P l r x h.1 in (here, (h.0, rest))

All-imp :
    {A : Type 0} (P Q : A → Type 0) (xs : List A) → ((x : A) → P x → Q x) → All P xs → All Q xs
All-imp P Q [] f h = tt
All-imp P Q (x ∷ xs) f h = (f x h.0, All-imp P Q xs f h.1)

IsLine-mono :
    {total sum sum' : ℕ} → sum ≤ sum' → (l : Line) → IsLine total sum l → IsLine total sum' l
IsLine-mono h l i = record {
  some_walked = i.some_walked;
  walked = omega (arith, h, i.walked);
  total = i.total;
  remaining = i.remaining;
}

module _ {S : Type 0} (f : S → Node → S) (total interval started : ℕ) where
  log_if_due-early :
      (s : ProgressSink S) (walked now relogged logged : ℕ)
      → now - s.last_log < s.interval
      → log_if_due s walked now relogged logged ≡ s
  unfolding log_if_due
  log_if_due-early s walked now relogged logged h =
      let test : ltb (now - s.last_log) s.interval ≡ true = ground arith in rw (test, log_if_due)

  log_if_due-late :
      (s : ProgressSink S) (walked now relogged logged : ℕ)
      → s.interval ≤ now - s.last_log
      → log_if_due s walked now relogged logged ≡ log_line s walked relogged logged
  unfolding log_if_due
  log_if_due-late s walked now relogged logged h =
      let test : ltb (now - s.last_log) s.interval ≡ false = ground arith in rw (test, log_if_due)

  new_progress-Sound :
      (inner : S)
      → Sound (new_progress inner total interval started) [] 0 started total interval started
  new_progress-Sound inner = record {
    walked = refl;
    waiting = tt;
    lines = tt;
    spaced = omega arith;
    after_start = omega arith;
    now = omega arith;
    total = refl;
    interval = refl;
    started = refl;
  }

  -- Time passes, and calls stop waiting.
  Sound-later :
      (s : ProgressSink S) (ws vs : List ℕ) (sum clock clock' : ℕ)
      → clock ≤ clock'
      → All (λ w. (0 < w) × (w ≤ sum)) vs
      → Sound s ws sum clock total interval started
      → Sound s vs sum clock' total interval started
  Sound-later s ws vs sum clock clock' later waiting h = record {
    walked = h.walked;
    waiting = waiting;
    lines = h.lines;
    spaced = h.spaced;
    after_start = h.after_start;
    now = omega (arith, h.now, later);
    total = h.total;
    interval = h.interval;
    started = h.started;
  }

  log_if_due-Sound :
      (s : ProgressSink S) (ws : List ℕ) (sum clock walked now relogged logged : ℕ)
      → 0 < walked
      → walked ≤ sum
      → clock ≤ now
      → now ≤ relogged
      → relogged ≤ logged
      → Sound s ws sum clock total interval started
      → Sound (log_if_due s walked now relogged logged) ws sum logged total interval started
  log_if_due-Sound s ws sum clock walked now relogged logged pos le a b c h =
      elim (dec_lt (now - s.last_log) s.interval) [
        | yes early ↦
            rw (log_if_due-early s walked now relogged logged early)
              (Sound-later s ws ws sum clock logged (omega arith) h.waiting h)
        | no late ↦
            let more : (suc (length s.log)) * interval ≤ relogged - started =
              grind (arith, h.spaced, h.interval, h.after_start, h.now) in
            rw (log_if_due-late s walked now relogged logged (omega arith)) record {
              walked = h.walked;
              waiting = h.waiting;
              total = h.total;
              interval = h.interval;
              started = h.started;
              lines = (
                record { some_walked = pos; walked = le; total = h.total; remaining = rw h.total },
                h.lines,
              );
              spaced = more;
              after_start = omega (arith, h.after_start, h.now);
              now = c;
            }
      ]

  Step-Sound :
      {s t : ProgressSink S} {ws vs : List ℕ} {sum sum' clock clock' : ℕ}
      → Step f s ws sum clock t vs sum' clock'
      → sum' < 2 ^ 64
      → Sound s ws sum clock total interval started
      → Sound t vs sum' clock' total interval started
  unfolding on_branch_node count_entries
  Step-Sound (noded e) fits h = record {
    walked = h.walked;
    waiting = h.waiting;
    lines = h.lines;
    spaced = h.spaced;
    after_start = h.after_start;
    now = h.now;
    total = h.total;
    interval = h.interval;
    started = h.started;
  }
  Step-Sound {s} {ws = ws} {sum = sum} (counted entries pos) fits h =
      let walked : (s.walked + entries) % 2 ^ 64 ≡ sum + entries = omega (arith, h.walked, fits) in
      record {
        walked = walked;
        waiting = (
          (omega (arith, walked), omega (arith, walked)),
          All-imp (λ w. (0 < w) × (w ≤ sum)) (λ w. (0 < w) × (w ≤ sum + entries)) ws
              (λ w k. (k.0, omega (arith, k.1))) h.waiting,
        );
        lines =
            All-imp (IsLine total sum) (IsLine total (sum + entries)) s.log
              (IsLine-mono (omega arith)) h.lines;
        spaced = h.spaced;
        after_start = h.after_start;
        now = h.now;
        total = h.total;
        interval = h.interval;
        started = h.started;
      }
  Step-Sound {s} {ws = ws} {sum = sum} {clock = clock}
        (locked l r walked now relogged logged e a b c) fits h =
      let waiting = subst (All (λ w. (0 < w) × (w ≤ sum))) e h.waiting in
      let ((pos, le), rest) = All-middle (λ w. (0 < w) × (w ≤ sum)) l r walked waiting in
      log_if_due-Sound s (l ++ r) sum clock walked now relogged logged pos le a b c
        (Sound-later s ws (l ++ r) sum clock clock (omega arith) rest h)

  Step-grows :
      {s t : ProgressSink S} {ws vs : List ℕ} {sum sum' clock clock' : ℕ}
      → Step f s ws sum clock t vs sum' clock'
      → sum ≤ sum'
  Step-grows (noded e) = omega arith
  Step-grows (counted entries pos) = omega arith
  Step-grows (locked l r walked now relogged logged e a b c) = omega arith

  Steps-grow :
      {s t : ProgressSink S} {ws vs : List ℕ} {sum sum' clock clock' : ℕ}
      → Steps f s ws sum clock t vs sum' clock'
      → sum ≤ sum'
  Steps-grow done = omega arith
  Steps-grow (step a rest) = omega (arith, Step-grows a, Steps-grow rest)

  Steps-Sound :
      {s t : ProgressSink S} {ws vs : List ℕ} {sum sum' clock clock' : ℕ}
      → Steps f s ws sum clock t vs sum' clock'
      → sum' < 2 ^ 64
      → Sound s ws sum clock total interval started
      → Sound t vs sum' clock' total interval started
  Steps-Sound done fits h = h
  Steps-Sound (step a rest) fits h =
      Steps-Sound rest fits (Step-Sound a (omega (arith, Steps-grow rest, fits)) h)

  -- In any interleaving of calls, with a clock that does not go back and fewer than 2^64 entries in
  -- all: `walked` is the number of entries reported, every line has a positive count that is no
  -- more than that and the expected entries less it as remaining, and the lines take up an interval
  -- each of the time since the start.
  pub Steps-new_progress :
      {t : ProgressSink S} {vs : List ℕ} {sum clock : ℕ} (inner : S)
      → Steps f (new_progress inner total interval started) [] 0 started t vs sum clock
      → sum < 2 ^ 64
      → (t.walked ≡ sum)
        × All (IsLine total sum) t.log
        × (length t.log * interval ≤ clock - started)
  Steps-new_progress inner steps fits =
      let h = Steps-Sound steps fits (new_progress-Sound inner) in
      (h.walked, h.lines, omega (arith, h.spaced, h.now))
