-- ===== src/Digest.antt =====
-- crates/bench/src/digest.rs: the order-independent digest of a set of nodes.
pub mod Order
pub mod Atomics
pub mod Encoding
pub mod Snapshot
pub mod Parity
use reth_trie_rebuild_bench.Base.{
  ℕ, ◌+◌, ◌*◌, ◌/◌, ◌%◌, ◌^◌, ◌<◌, bit_or, bit_xor, Option, none, some, List, [], ◌∷◌, ◌++◌, length,
  replicate,
}
use reth_trie_rebuild_bench.Base.Dict.{Dict}
use reth_trie_rebuild_bench.Trie.{
  B256, Nibbles, BranchNodeCompact, StorageTrieUpdates, TrieUpdates, Node,
}

-- What the digest takes from other crates: foldhash's `FixedState::with_seed(seed).hash_one(buf)`,
-- a 64-bit hash of a seed and a buffer, and the packing of a path into bytes.
pub record Hashing : Type 0 where
  pub hash_one : ℕ → List ℕ → ℕ
  pub pack : Nibbles → List ℕ
  pub hash_one-lt : (seed : ℕ) (buf : List ℕ) → hash_one seed buf < 2 ^ 64

-- `SEEDS`
abbrev pub seed_hi : ℕ
seed_hi = 0x7472_6965_2d67_656e

abbrev pub seed_lo : ℕ
seed_lo = 0x6e6f_6465_2d64_6967

-- The counters, each a 64-bit atomic.
pub record NodeDigest : Type 0 where
  pub count : ℕ
  pub fold : ℕ × ℕ

pub record Digest : Type 0 where
  pub count : ℕ
  pub fold : ℕ

abbrev pub new_digest : NodeDigest
new_digest = record { count = 0; fold = (0, 0) }

-- `B256::ZERO`, `hash.unwrap_or(B256::ZERO)` and `hash.is_some() as u8`
abbrev pub zero_hash : B256
zero_hash = replicate 32 0

abbrev pub or_zero : Option B256 → B256
or_zero none = zero_hash
or_zero (some h) = h

abbrev pub is_some_byte : Option B256 → ℕ
is_some_byte none = 0
is_some_byte (some h) = 1

-- `u16::to_be_bytes`
abbrev pub be_bytes : ℕ → List ℕ
be_bytes x = (x / 256) ∷ (x % 256) ∷ []

-- The loop over `node.hashes`, in front of what follows it.
abbrev pub hash_bytes : List B256 → List ℕ → List ℕ
hash_bytes [] rest = rest
hash_bytes (h ∷ hs) rest = h ++ hash_bytes hs rest

-- The part of the buffer behind the path.
abbrev pub node_bytes : BranchNodeCompact → List ℕ
node_bytes node =
    be_bytes node.state_mask
    ++ (be_bytes node.tree_mask
        ++ (be_bytes node.hash_mask
            ++ hash_bytes node.hashes (or_zero node.root_hash ++ is_some_byte node.root_hash ∷ [])))

module _ (x : Hashing) where
  -- `buf`, as `push` fills it.
  unfoldable pub buffer : Node → List ℕ
  buffer (hashed_address, path, node) =
      or_zero hashed_address
      ++ is_some_byte hashed_address ∷ (length path % 256) ∷ (x.pack path ++ node_bytes node)

  unfoldable pub push : NodeDigest → Node → NodeDigest
  push d e =
      let buf = buffer e in
      record {
        count = (d.count + 1) % 2 ^ 64;
        fold =
            (bit_xor d.fold.0 (x.hash_one seed_hi buf), bit_xor d.fold.1 (x.hash_one seed_lo buf));
      }

  -- A run of pushes, as a sink that receives the nodes makes them.
  unfoldable pub push_all : NodeDigest → List Node → NodeDigest
  push_all d [] = d
  push_all d (e ∷ es) = push_all (push d e) es

  -- The two loops of `of_trie_updates`.
  unfoldable pub push_nodes : NodeDigest → Option B256 → Dict Nibbles BranchNodeCompact → NodeDigest
  push_nodes d a [] = d
  push_nodes d a ((path, node) ∷ nodes) = push_nodes (push d (a, path, node)) a nodes

  unfoldable pub push_tries : NodeDigest → Dict B256 StorageTrieUpdates → NodeDigest
  push_tries d [] = d
  push_tries d ((hashed_address, trie) ∷ tries) =
      push_tries (push_nodes d (some hashed_address) trie.storage_nodes) tries

-- `(u128::from(hi) << 64) | u128::from(lo)`
unfoldable pub snapshot : NodeDigest → Digest
snapshot d = record { count = d.count; fold = bit_or (d.fold.0 * 2 ^ 64 % 2 ^ 128) d.fold.1 }

unfoldable pub of_trie_updates : Hashing → TrieUpdates → Digest
of_trie_updates x updates =
    snapshot
      (push_tries x (push_nodes x new_digest none updates.account_nodes) updates.storage_tries)
