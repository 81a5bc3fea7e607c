-- ===== src/Digest/Atomics.antt =====
-- The atomic operations of `push`, interleaved between threads in any way.
use mathlib.Core.Logic.{∥∥₁_elim}
use mathlib.Core.List.{Permᴰ, perm_middle}
use mathlib.Core.List.Perm
use reth_trie_rebuild_bench.Base.{
  ℕ, ◌+◌, ◌%◌, ◌^◌, ◌≡◌, refl, sym, ap, ◌∙◌, bit_xor, List, [], ◌∷◌, ◌++◌, map, Perm, concat,
  concat-append, arith,
}
use reth_trie_rebuild_bench.Trie.{Node}
use reth_trie_rebuild_bench.Digest.{Hashing, NodeDigest, seed_hi, seed_lo, buffer, push, push_all}
use reth_trie_rebuild_bench.Digest.Order.{NodeDigest-set, xor_right_comm, push_all-append}

-- `fold[0].fetch_xor(h)`, `fold[1].fetch_xor(h)` and `count.fetch_add(1)`. The returned values are
-- not used.
pub data Op : Type 0 where
  xor_hi xor_lo : ℕ → Op
  add_one : Op

unfoldable pub apply : NodeDigest → Op → NodeDigest
apply d (xor_hi h) = record d { fold = (bit_xor d.fold.0 h, d.fold.1) }
apply d (xor_lo h) = record d { fold = (d.fold.0, bit_xor d.fold.1 h) }
apply d add_one = record d { count = (d.count + 1) % 2 ^ 64 }

unfoldable pub apply_all : NodeDigest → List Op → NodeDigest
apply_all d [] = d
apply_all d (o ∷ os) = apply_all (apply d o) os

-- The operations of one `push`, in its order, and those of a thread that pushes some nodes.
unfoldable pub push_ops : Hashing → Node → List Op
push_ops x e =
    xor_hi (x.hash_one seed_hi (buffer x e))
    ∷ xor_lo (x.hash_one seed_lo (buffer x e))
    ∷ add_one
    ∷ []

unfoldable pub thread_ops : Hashing → List Node → List Op
thread_ops x [] = []
thread_ops x (e ∷ es) = push_ops x e ++ thread_ops x es

-- A schedule: some thread makes its next operation, until all are done.
pub data Schedule : List (List Op) → List Op → Type 0 where
  finished : {ts : List (List Op)} → concat ts ≡ [] → Schedule ts []
  step :
      {ts : List (List Op)} {os : List Op} (l r : List (List Op)) (o : Op) (t : List Op)
      → ts ≡ l ++ (o ∷ t) ∷ r
      → Schedule (l ++ t ∷ r) os
      → Schedule ts (o ∷ os)

-- A schedule makes the operations of all threads, each once.
Schedule-perm : {ts : List (List Op)} {os : List Op} → Schedule ts os → Perm os (concat ts)
Schedule-perm (finished e) = rw e Perm.nil
Schedule-perm (step l r o t e s) =
    rw (e, concat-append l ((o ∷ t) ∷ r))
      (Perm.trans (Perm.cons o (rw (concat-append l (t ∷ r)) at (Schedule-perm s)))
        (Perm.symm (perm_middle (concat l) (t ++ concat r))))

apply_comm : (d : NodeDigest) (o p : Op) → apply (apply d o) p ≡ apply (apply d p) o
unfolding apply
apply_comm d (xor_hi a) (xor_hi b) = ground (arith, xor_right_comm d.fold.0 a b)
apply_comm d (xor_lo a) (xor_lo b) = ground (arith, xor_right_comm d.fold.1 a b)
apply_comm d add_one add_one = refl
apply_comm d (xor_hi a) (xor_lo b) = refl
apply_comm d (xor_hi a) add_one = refl
apply_comm d (xor_lo a) (xor_hi b) = refl
apply_comm d (xor_lo a) add_one = refl
apply_comm d add_one (xor_hi b) = refl
apply_comm d add_one (xor_lo b) = refl

apply_all-permᴰ : (d : NodeDigest) {os ps : List Op} → Permᴰ os ps → apply_all d os ≡ apply_all d ps
unfolding apply_all
apply_all-permᴰ d Permᴰ.nil = refl
apply_all-permᴰ d (Permᴰ.cons {b = p} e q) = rw e (apply_all-permᴰ (apply d p) q)
apply_all-permᴰ d (Permᴰ.swap {a' = o} {b' = p} {l = l} e f) =
    rw (e, f) (ap (λ t. apply_all t l) (apply_comm d p o))
apply_all-permᴰ d (Permᴰ.trans p q) = apply_all-permᴰ d p ∙ apply_all-permᴰ d q

apply_all-append :
    (d : NodeDigest) (os ps : List Op) → apply_all d (os ++ ps) ≡ apply_all (apply_all d os) ps
unfolding apply_all
apply_all-append d [] ps = refl
apply_all-append d (o ∷ os) ps = apply_all-append (apply d o) os ps

module _ (x : Hashing) where
  apply_all-thread_ops :
      (d : NodeDigest) (es : List Node) → apply_all d (thread_ops x es) ≡ push_all x d es
  unfolding thread_ops push_ops apply_all apply push push_all
  apply_all-thread_ops d [] = refl
  apply_all-thread_ops d (e ∷ es) = apply_all-thread_ops (push x d e) es

  apply_all-threads :
      (d : NodeDigest) (workers : List (List Node))
      → apply_all d (concat (map (thread_ops x) workers)) ≡ push_all x d (concat workers)
  unfolding apply_all push_all
  apply_all-threads d [] = refl
  apply_all-threads d (es ∷ workers) =
      apply_all-append d (thread_ops x es) (concat (map (thread_ops x) workers))
      ∙ rw (apply_all-thread_ops d es) (
          apply_all-threads (push_all x d es) workers
          ∙ sym (push_all-append x d es (concat workers)))

  -- However the atomic operations of the workers' pushes interleave, the counters end as if the
  -- workers had pushed their nodes one worker after another.
  pub Schedule-push_all :
      (d : NodeDigest) (workers : List (List Node)) (os : List Op)
      → Schedule (map (thread_ops x) workers) os
      → apply_all d os ≡ push_all x d (concat workers)
  Schedule-push_all d workers os s =
      ∥∥₁_elim (Schedule-perm s) (NodeDigest-set _ _) (apply_all-permᴰ d)
      ∙ apply_all-threads d workers
