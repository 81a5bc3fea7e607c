-- ===== src/Tests/Data.antt =====
-- The data of the tests: three nodes, a hash, a packing, and a database held in a list.
use reth_trie_rebuild_bench.Base.{
  ℕ, ◌+◌, ◌*◌, ◌/◌, ◌%◌, ◌^◌, ◌<◌, ◌≡◌, refl, ap, ap₂, none, some, List, [], ◌∷◌, All, length,
  replicate, arith,
}
use reth_trie_rebuild_bench.Trie.{B256, Nibbles, BranchNodeCompact, Node, digits_discrete}
use reth_trie_rebuild_bench.Trie.Nodes.{emitted_at}
use reth_trie_rebuild_bench.Trie.Distinct.{Distinct}
use reth_trie_rebuild_bench.Updates.Shards.{IsEmitted}
use reth_trie_rebuild_bench.Writer.Chunk.{IsStored}
use reth_trie_rebuild_bench.Digest.{Hashing}
use reth_trie_rebuild_bench.Digest.Encoding.{IsPacking, IsNode}

abbrev pub address : B256
address = replicate 32 0x42

abbrev pub branch : BranchNodeCompact
branch = record {
  state_mask = 0x0011;
  tree_mask = 0;
  hash_mask = 0x0010;
  hashes = replicate 32 7 ∷ [];
  root_hash = none;
}

abbrev pub other_branch : BranchNodeCompact
other_branch = record branch { state_mask = 0x8001; root_hash = some (replicate 32 9) }

abbrev pub account_node : Node
account_node = (none, 4 ∷ [], branch)

abbrev pub deep_node : Node
deep_node = (none, 4 ∷ 2 ∷ [], other_branch)

abbrev pub storage_node : Node
storage_node = (some address, 4 ∷ [], branch)

abbrev pub emitted : List Node
emitted = account_node ∷ storage_node ∷ deep_node ∷ []

pub emitted-IsEmitted : All IsEmitted emitted
emitted-IsEmitted = (((λ e. cc), omega arith), (omega arith, (((λ e. cc), omega arith), tt)))

pub emitted-IsStored : All IsStored emitted
emitted-IsStored = ((λ e. cc), ((λ e. cc), ((λ e. cc), tt)))

pub emitted-Distinct : Distinct emitted
unfolding emitted_at digits_discrete
emitted-Distinct = (refl, (refl, (refl, tt)))

-- A hash by a multiplier, and the packing of nibbles into bytes.
pub toy_hash : ℕ → List ℕ → ℕ
toy_hash seed [] = seed % 2 ^ 64
toy_hash seed (b ∷ bytes) = toy_hash (seed * 31 + b) bytes

pub toy_hash-lt : (seed : ℕ) (bytes : List ℕ) → toy_hash seed bytes < 2 ^ 64
unfolding toy_hash
toy_hash-lt seed [] = omega arith
toy_hash-lt seed (b ∷ bytes) = toy_hash-lt (seed * 31 + b) bytes

pub pack_nibbles : Nibbles → List ℕ
pack_nibbles [] = []
pack_nibbles (x ∷ []) = (x * 16) ∷ []
pack_nibbles (x ∷ y ∷ p) = (x * 16 + y) ∷ pack_nibbles p

abbrev pub toy_hashing : Hashing
toy_hashing = record { hash_one = toy_hash; pack = pack_nibbles; hash_one-lt = toy_hash-lt }

length-pack_nibbles : (p : Nibbles) → length (pack_nibbles p) ≡ (length p + 1) / 2
unfolding pack_nibbles
length-pack_nibbles [] = refl
length-pack_nibbles (x ∷ []) = refl
length-pack_nibbles (x ∷ y ∷ p) = omega (arith, length-pack_nibbles p)

pack_nibbles_injective :
    (p q : Nibbles)
    → All (λ n. n < 16) p
    → All (λ n. n < 16) q
    → length p ≡ length q
    → pack_nibbles p ≡ pack_nibbles q
    → p ≡ q
unfolding pack_nibbles
pack_nibbles_injective [] [] hp hq l e = refl
pack_nibbles_injective [] (y ∷ q) hp hq l e = absurd (omega arith)
pack_nibbles_injective (x ∷ p) [] hp hq l e = absurd (omega arith)
pack_nibbles_injective (x ∷ []) (y ∷ []) hp hq l e =
    let same : x * 16 ≡ y * 16 = cc in
    let heads : x ≡ y = omega (arith, same) in ap (λ t. t ∷ []) heads
pack_nibbles_injective (x ∷ []) (y ∷ z ∷ q) hp hq l e = absurd (omega arith)
pack_nibbles_injective (x ∷ w ∷ p) (y ∷ []) hp hq l e = absurd (omega arith)
pack_nibbles_injective (x ∷ w ∷ p) (y ∷ z ∷ q) hp hq l e =
    let same : x * 16 + w ≡ y * 16 + z = cc in
    let rest : pack_nibbles p ≡ pack_nibbles q = cc in
    let heads : x ≡ y = omega (arith, same) in
    let seconds : w ≡ z = omega (arith, same) in
    ap₂ ◌∷◌ heads (ap₂ ◌∷◌ seconds (pack_nibbles_injective p q hp.1.1 hq.1.1 (omega arith) rest))

pub toy-IsPacking : IsPacking toy_hashing
toy-IsPacking = record {
  length-pack = length-pack_nibbles;
  pack_injective = pack_nibbles_injective;
}

pub account_node-IsNode : IsNode account_node
account_node-IsNode = record {
  address = tt;
  path = omega arith;
  path_length = omega arith;
  state_mask = omega arith;
  tree_mask = omega arith;
  hash_mask = omega arith;
  hashes = (refl, tt);
  root_hash = tt;
}
