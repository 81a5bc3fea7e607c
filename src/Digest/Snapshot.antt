-- ===== src/Digest/Snapshot.antt =====
-- The snapshot joins the two 64-bit folds into one number and loses nothing.
use native.Mathlib.Nat.{mod-eq_of_lt}
use reth_trie_rebuild_bench.Base.{◌+◌, ◌*◌, ◌^◌, ◌<◌, ◌≡◌, ◌∙◌, sym, ap, List, [], ◌∷◌, arith}
use reth_trie_rebuild_bench.Base.Bits.{or-add, xor-lt}
use reth_trie_rebuild_bench.Trie.{Node}
use reth_trie_rebuild_bench.Digest.{
  Hashing, NodeDigest, Digest, new_digest, push, push_all, snapshot,
}

-- Every counter fits its atomic.
pub record IsWords (d : NodeDigest) : Type 0 where
  pub count : d.count < 2 ^ 64
  pub hi : d.fold.0 < 2 ^ 64
  pub lo : d.fold.1 < 2 ^ 64

pub new_digest-IsWords : IsWords new_digest
new_digest-IsWords = record { count = omega arith; hi = omega arith; lo = omega arith }

pub push-IsWords : (x : Hashing) (d : NodeDigest) (e : Node) → IsWords d → IsWords (push x d e)
unfolding push
push-IsWords x d e h = record {
  count = omega arith;
  hi = xor-lt 64 _ _ h.hi (x.hash_one-lt _ _);
  lo = xor-lt 64 _ _ h.lo (x.hash_one-lt _ _);
}

pub push_all-IsWords :
    (x : Hashing) (d : NodeDigest) (es : List Node) → IsWords d → IsWords (push_all x d es)
unfolding push_all
push_all-IsWords x d [] h = h
push_all-IsWords x d (e ∷ es) h = push_all-IsWords x (push x d e) es (push-IsWords x d e h)

-- The 128-bit fold is the first fold in the high half and the second in the low half.
pub fold-snapshot : (d : NodeDigest) → IsWords d → (snapshot d).fold ≡ d.fold.0 * 2 ^ 64 + d.fold.1
unfolding snapshot
fold-snapshot d h =
    rw (mod-eq_of_lt {n = d.fold.0 * 2 ^ 64} {m = 2 ^ 128} (omega (arith, h.hi)))
      (or-add 64 d.fold.0 d.fold.1 h.lo)

-- The halves come apart again: two digests in range with the same snapshot have equal counts and
-- equal folds.
pub snapshot_injective :
    (d e : NodeDigest) → IsWords d → IsWords e → snapshot d ≡ snapshot e → d ≡ e
snapshot_injective d e h k p =
    let folds : d.fold.0 * 2 ^ 64 + d.fold.1 ≡ e.fold.0 * 2 ^ 64 + e.fold.1 =
      sym (fold-snapshot d h) ∙ (ap (λ (t : Digest). t.fold) p ∙ fold-snapshot e k) in
    let counts : d.count ≡ e.count = unfold snapshot in ap (λ (t : Digest). t.count) p in
    let high : d.fold.0 ≡ e.fold.0 = omega (arith, folds, h.lo, k.lo) in
    let low : d.fold.1 ≡ e.fold.1 = omega (arith, folds, h.lo, k.lo) in
    λ i. record { count = counts i; fold = (high i, low i) }
