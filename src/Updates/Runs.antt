-- ===== src/Updates/Runs.antt =====
-- Runs of calls from the empty sink: what the sink then holds, and when a run panics.
use mathlib.Core.Option.{some-injective}
use reth_trie_rebuild_bench.Base.{
  ℕ, ◌<◌, ◌≡◌, ◌≢◌, ◌↔◌, refl, sym, ap, ◌∙◌, Bool, true, false, Option, none, some, List, [], ◌∷◌,
  All, arith, ℕ_discrete, get_or, length, get_or-set_self, get_or-set_ne, get_or-replicate, if_neg,
  Option-cases, inl, inr,
}
use reth_trie_rebuild_bench.Base.Dict
use reth_trie_rebuild_bench.Base.Dict.{override}
use reth_trie_rebuild_bench.Trie.{
  B256, Nibbles, BranchNodeCompact, no_updates, Node, digits_eq, digits_discrete,
}
use reth_trie_rebuild_bench.Trie.Nodes.{
  node_at, emitted_at, emitted_at-cons, override_assoc, none-override, node_at-insert_node,
  insert_node-prev,
}
use reth_trie_rebuild_bench.Trie.Distinct.{Distinct, emitted_at_symm, override-none}
use reth_trie_rebuild_bench.Updates.{
  TrieUpdatesSink, empty_sink, insert_at, check_prev, on_branch_node, collect,
}
use reth_trie_rebuild_bench.Updates.Shards.{
  IsEmitted, IsSharded, path_nibble, address_nibble, node_shard, on_branch_node_total,
  insert_at-IsSharded, empty_sink-IsSharded, shard_of-IsEmitted,
}

abbrev pub place_nibble : Option B256 → Nibbles → ℕ
place_nibble none p = path_nibble p
place_nibble (some a) p = address_nibble a

-- The node that the sink holds for an account and path.
abbrev pub sink_at : TrieUpdatesSink → Option B256 → Nibbles → Option BranchNodeCompact
sink_at sink a p = node_at (get_or sink.shards (place_nibble a p) no_updates) a p

pub sink_at-empty : (a : Option B256) (p : Nibbles) → sink_at empty_sink a p ≡ none
unfolding node_at Dict.lookup
sink_at-empty none p = rw (get_or-replicate 16 (path_nibble p) no_updates)
sink_at-empty (some a) p = rw (get_or-replicate 16 (address_nibble a) no_updates)

emitted_elsewhere :
    (e : Node) (a : Option B256) (p : Nibbles)
    → node_shard e ≢ place_nibble a p
    → emitted_at (e ∷ []) a p ≡ none
unfolding emitted_at
emitted_elsewhere (none, q, n) none p h =
    rw (if_neg (digits_discrete q p) (λ e. h (ap path_nibble e)))
emitted_elsewhere (none, q, n) (some a) p h = refl
emitted_elsewhere (some b, q, n) none p h = refl
emitted_elsewhere (some b, q, n) (some a) p h =
    rw (if_neg (digits_discrete b a) (λ e. h (ap address_nibble e)))

pub node_shard-place_nibble : (e : Node) → node_shard e ≡ place_nibble e.0 e.1
node_shard-place_nibble (none, p, n) = refl
node_shard-place_nibble (some a, p, n) = refl

pub sink_at-insert_at :
    (sink : TrieUpdatesSink) (e : Node) (a : Option B256) (p : Nibbles)
    → node_shard e < length sink.shards
    → sink_at (insert_at sink (node_shard e) e).0 a p
      ≡ override (sink_at sink a p) (emitted_at (e ∷ []) a p)
sink_at-insert_at sink e a p lt = elim (ℕ_discrete (node_shard e) (place_nibble a p)) [
  | yes same ↦ rw (← same) (
      rw (get_or-set_self sink.shards (node_shard e) _ no_updates lt)
        (node_at-insert_node (get_or sink.shards (node_shard e) no_updates) e a p))
  | no other ↦ rw (
    get_or-set_ne sink.shards (node_shard e) (place_nibble a p) _ no_updates other,
    emitted_elsewhere e a p other,
  )
]

pub in_range :
    (sink : TrieUpdatesSink) (e : Node)
    → IsEmitted e
    → IsSharded sink
    → node_shard e < length sink.shards
in_range sink e h s = omega (arith, (shard_of-IsEmitted e h).1, s.sixteen)

insert_at-prev :
    (sink : TrieUpdatesSink) (e : Node) → (insert_at sink (node_shard e) e).1 ≡ sink_at sink e.0 e.1
insert_at-prev sink (none, p, n) = insert_node-prev _ (none, p, n)
insert_at-prev sink (some a, p, n) = insert_node-prev _ (some a, p, n)

-- The nodes yet to come have no place in the sink.
abbrev pub AllFresh : TrieUpdatesSink → List Node → Type 0
AllFresh sink = All (λ e. sink_at sink e.0 e.1 ≡ none)

pub AllFresh-empty : (es : List Node) → AllFresh empty_sink es
AllFresh-empty [] = tt
AllFresh-empty (e ∷ es) = (sink_at-empty e.0 e.1, AllFresh-empty es)

pub AllFresh-insert_at :
    (sink : TrieUpdatesSink) (e : Node) (es : List Node)
    → node_shard e < length sink.shards
    → emitted_at es e.0 e.1 ≡ none
    → AllFresh sink es
    → AllFresh (insert_at sink (node_shard e) e).0 es
AllFresh-insert_at sink e [] lt h fresh = tt
AllFresh-insert_at sink e (f ∷ es) lt h fresh =
    let (x, y) = emitted_at_symm e f es h in
    (
      sink_at-insert_at sink e f.0 f.1 lt ∙ rw (x, fresh.0),
      AllFresh-insert_at sink e es lt y fresh.1,
    )

override-none_right : {V : Type 0} (x y : Option V) → override x y ≡ none → y ≡ none
override-none_right x none h = refl
override-none_right x (some v) h = absurd (cc)

emitted_at-nil : (a : Option B256) (p : Nibbles) → emitted_at [] a p ≡ none
unfolding emitted_at
emitted_at-nil a p = refl

-- Nodes whose places are free after one more node were free before, and none is in its place.
AllFresh-before :
    (sink : TrieUpdatesSink) (e : Node) (es : List Node)
    → node_shard e < length sink.shards
    → AllFresh (insert_at sink (node_shard e) e).0 es
    → AllFresh sink es × (emitted_at es e.0 e.1 ≡ none)
AllFresh-before sink e [] lt fresh = (tt, emitted_at-nil e.0 e.1)
AllFresh-before sink e (f ∷ es) lt fresh =
    let both : override (sink_at sink f.0 f.1) (emitted_at (e ∷ []) f.0 f.1) ≡ none =
      sym (sink_at-insert_at sink e f.0 f.1 lt) ∙ fresh.0 in
    let apart = override-none_right (sink_at sink f.0 f.1) (emitted_at (e ∷ []) f.0 f.1) both in
    let (there, _) = emitted_at_symm f e [] apart in
    let (free, none_later) = AllFresh-before sink e es lt fresh.1 in
    (
      (override-none (sink_at sink f.0 f.1) (emitted_at (e ∷ []) f.0 f.1) both, free),
      emitted_at-cons f es e.0 e.1 ∙ rw (there, none_later),
    )

check_prev-passes :
    (debug : Bool) (r : TrieUpdatesSink × Option BranchNodeCompact)
    → (debug ≡ true → r.1 ≡ none)
    → check_prev debug r ≡ some r.0
unfolding check_prev
check_prev-passes false (sink, prev) h = refl
check_prev-passes true (sink, none) h = refl
check_prev-passes true (sink, some prev) h = absurd (let e = h refl in cc)

check_prev-passed :
    (r : TrieUpdatesSink × Option BranchNodeCompact) (sink : TrieUpdatesSink)
    → check_prev true r ≡ some sink
    → (r.1 ≡ none) × (r.0 ≡ sink)
unfolding check_prev
check_prev-passed (sink', none) sink e = (refl, some-injective sink' sink e)
check_prev-passed (sink', some prev) sink e = absurd (cc)

-- The call does not panic where no assertion is checked, or nothing is in the node's place.
pub on_branch_node-passes :
    (debug : Bool) (sink : TrieUpdatesSink) (e : Node)
    → IsEmitted e
    → (debug ≡ true → sink_at sink e.0 e.1 ≡ none)
    → on_branch_node debug sink e ≡ some (insert_at sink (node_shard e) e).0
on_branch_node-passes debug sink e h free =
    on_branch_node_total debug sink e h
    ∙ check_prev-passes debug (insert_at sink (node_shard e) e)
        (λ t. insert_at-prev sink e ∙ free t)

-- A run of calls from a sharded sink that does not panic.
pub record Collected (debug : Bool) (sink : TrieUpdatesSink) (es : List Node) : Type 0 where
  pub result : TrieUpdatesSink
  pub run : collect debug sink es ≡ some result
  pub sharded : IsSharded result
  pub at :
      (a : Option B256) (p : Nibbles)
      → sink_at result a p ≡ override (sink_at sink a p) (emitted_at es a p)

pub collect-Collected :
    (debug : Bool) (sink : TrieUpdatesSink) (es : List Node)
    → All IsEmitted es
    → (debug ≡ true → Distinct es × AllFresh sink es)
    → IsSharded sink
    → Collected debug sink es
unfolding collect
collect-Collected debug sink [] h once s = record {
  result = sink;
  run = refl;
  sharded = s;
  at = λ a p. unfold emitted_at in refl;
}
collect-Collected debug sink (e ∷ es) h once s =
    let lt = in_range sink e h.0 s in
    let rest =
      collect-Collected debug (insert_at sink (node_shard e) e).0 es h.1
        (λ t. let (d, fresh) = once t in (d.1, AllFresh-insert_at sink e es lt d.0 fresh.1))
        (insert_at-IsSharded sink e h.0 s) in
    record {
      result = rest.result;
      run =
          rw
            (
              on_branch_node-passes debug sink e h.0 (λ t. let (_, fresh) = once t in fresh.0),
              collect,
            )
            rest.run;
      sharded = rest.sharded;
      at = λ a p.
          rest.at a p
          ∙ rw (sink_at-insert_at sink e a p lt, emitted_at-cons e es a p)
              (override_assoc (sink_at sink a p) (emitted_at (e ∷ []) a p) (emitted_at es a p));
    }

pub collect-empty :
    (debug : Bool) (es : List Node)
    → All IsEmitted es
    → (debug ≡ true → Distinct es)
    → Collected debug empty_sink es
collect-empty debug es h once =
    collect-Collected debug empty_sink es h (λ t. (once t, AllFresh-empty es)) empty_sink-IsSharded

pub from_empty :
    (debug : Bool) (es : List Node) (c : Collected debug empty_sink es) (a : Option B256)
    (p : Nibbles)
    → sink_at c.result a p ≡ emitted_at es a p
from_empty debug es c a p = c.at a p ∙ rw (sink_at-empty a p) (none-override (emitted_at es a p))

-- With assertions, a run that does not panic has no place twice, and none that was taken.
collect-once :
    (sink t : TrieUpdatesSink) (es : List Node)
    → All IsEmitted es
    → IsSharded sink
    → collect true sink es ≡ some t
    → Distinct es × AllFresh sink es
unfolding collect
collect-once sink t [] h s run = (tt, tt)
collect-once sink t (e ∷ es) h s run = elim (Option-cases (on_branch_node true sink e)) [
  | inl panic ↦ absurd (let stuck = rw (panic, collect) at run in cc)
  | inr (sink', went) ↦
      let (free, same) =
        check_prev-passed (insert_at sink (node_shard e) e) sink'
          (sym (on_branch_node_total true sink e h.0) ∙ went) in
      let rest : collect true (insert_at sink (node_shard e) e).0 es ≡ some t =
        ap (λ u. collect true u es) same ∙ (rw (went, collect) at run) in
      let (d, fresh) =
        collect-once (insert_at sink (node_shard e) e).0 t es h.1 (insert_at-IsSharded sink e h.0 s)
          rest in
      let (before, apart) = AllFresh-before sink e es (in_range sink e h.0 s) fresh in
      ((apart, d), (sym (insert_at-prev sink e) ∙ free, before))
]

-- A run from the empty sink, of nodes whose account has 32 bytes, or which have none and a path of
-- nibbles that is not empty, panics exactly if assertions are checked and an account and path is
-- emitted twice.
pub collect-panics :
    (debug : Bool) (es : List Node)
    → All IsEmitted es
    → (collect debug empty_sink es ≡ none) ↔ ((debug ≡ true) × (¬ Distinct es))
collect-panics false es h = (
  λ panic. absurd (let c = collect-empty false es h (λ t. absurd (cc)) in let run = c.run in cc),
  λ (t, twice). absurd (cc),
)
collect-panics true es h = (
  λ panic. (refl, λ d. let c = collect-empty true es h (λ t. d) in let run = c.run in cc),
  λ (t, twice). elim (Option-cases (collect true empty_sink es)) [
    | inl panic ↦ panic
    | inr (sink, run) ↦
        absurd (twice (collect-once empty_sink sink es h empty_sink-IsSharded run).0)
  ],
)
