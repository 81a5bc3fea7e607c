-- ===== src/Tables.antt =====
-- crates/bench/src/mdbx.rs: the digest of the committed trie tables. The sixteen ranges are scanned
-- one after another, which gives the same digest as in parallel; if several ranges fail, rayon may
-- return another of their errors. The cursors and the key encodings are reth's and parameters.
pub mod Ranges
pub mod Scan
use reth_trie_rebuild_bench.Base.{
  ℕ, zero, suc, ◌+◌, ◌*◌, bit_or, Bool, Option, none, some, List, [], ◌∷◌, replicate,
}
use reth_trie_rebuild_bench.Base.Result.{Result, ok, err, ◌>>=◌}
use reth_trie_rebuild_bench.Trie.{B256, Nibbles, BranchNodeCompact}
use reth_trie_rebuild_bench.Digest.{Hashing, NodeDigest, Digest, new_digest, push, snapshot}
use reth_trie_rebuild_bench.Database.{TrieDb}
use reth_trie_rebuild_bench.Rebuild.{uses_packed_trie_keys}

-- The walks of the two tables: opening one may fail, and so may reading an entry.
pub record TableWalks (D : TrieDb) : Type 0 where
  pub walk_accounts :
      Bool → D.Tx → Result D.Error (List (Result D.Error (List ℕ × BranchNodeCompact)))
  pub walk_storages :
      Bool
      → D.Tx
      → B256
      → B256
      → Result D.Error (List (Result D.Error (B256 × List ℕ × BranchNodeCompact)))
  pub account_key_to_nibbles : Bool → List ℕ → Nibbles
  pub subkey_to_nibbles : Bool → List ℕ → Nibbles

pub record TrieTablesDigest : Type 0 where
  pub account_nodes : ℕ
  pub storage_nodes : ℕ
  pub digest : Digest

-- `B256::right_padding_from(&[nibble << 4])`
abbrev pub low : ℕ → B256
low nibble = (nibble * 16) ∷ replicate 31 0

-- `B256::repeat_byte(0xff)` with `nibble << 4 | 0xf` in front
abbrev pub high : ℕ → B256
high nibble = bit_or (nibble * 16) 0xf ∷ replicate 31 0xff

module _ (D : TrieDb) (T : TableWalks D) (x : Hashing) (packed : Bool) where
  unfoldable pub scan_accounts :
      NodeDigest
      → ℕ
      → List (Result D.Error (List ℕ × BranchNodeCompact))
      → Result D.Error (NodeDigest × ℕ)
  scan_accounts digest count [] = ok (digest, count)
  scan_accounts digest count (entry ∷ entries) = do
    (key, node) ← entry
    scan_accounts (push x digest (none, T.account_key_to_nibbles packed key, node)) (count + 1)
        entries

  unfoldable pub scan_storages :
      NodeDigest
      → ℕ
      → List (Result D.Error (B256 × List ℕ × BranchNodeCompact))
      → Result D.Error (NodeDigest × ℕ)
  scan_storages digest count [] = ok (digest, count)
  scan_storages digest count (entry ∷ entries) = do
    (hashed_address, subkey, node) ← entry
    scan_storages (push x digest (some hashed_address, T.subkey_to_nibbles packed subkey, node))
        (count + 1) entries

  -- The ranges of the nibbles below `k`, and the sum of their counts.
  unfoldable pub scan_ranges : D.Tx → NodeDigest → ℕ → Result D.Error (NodeDigest × ℕ)
  scan_ranges tx digest zero = ok (digest, 0)
  scan_ranges tx digest (suc k) = do
    (digest, total) ← scan_ranges tx digest k
    entries ← T.walk_storages packed tx (low k) (high k)
    (digest, count) ← scan_storages digest 0 entries
    ok (digest, total + count)

  unfoldable pub digest_tables : D.Tx → Result D.Error TrieTablesDigest
  digest_tables tx = do
    entries ← T.walk_accounts packed tx
    (digest, account_nodes) ← scan_accounts new_digest 0 entries
    (digest, storage_nodes) ← scan_ranges tx digest 16
    ok (record {
      account_nodes = account_nodes;
      storage_nodes = storage_nodes;
      digest = snapshot digest;
    })

unfoldable pub digest_trie_tables :
    (D : TrieDb) → TableWalks D → Hashing → D.Tx → Result D.Error TrieTablesDigest
digest_trie_tables D T x tx = do packed ← uses_packed_trie_keys D tx; digest_tables D T x packed tx
