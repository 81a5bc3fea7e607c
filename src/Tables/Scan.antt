-- ===== src/Tables/Scan.antt =====
-- What the digest of the tables is.
use mathlib.Core.List.{Permᴰ}
use mathlib.Core.List.Perm
use mathlib.Core.Logic.{∥∥₁_elim, ∥∥₁_prop}
use reth_trie_rebuild_bench.Base.{
  ℕ, zero, suc, ◌+◌, ◌/◌, ◌<◌, ◌≡◌, refl, sym, ap, ◌∙◌, Bool, none, some, List, [], ◌∷◌, ◌++◌, map,
  Perm, All, length, length-append, arith, get_or, ◌==◌,
}
use reth_trie_rebuild_bench.Base.Perms.{length-perm}
use reth_trie_rebuild_bench.Base.Result.{ok}
use reth_trie_rebuild_bench.Trie.{B256, BranchNodeCompact, Node, IsB256}
use reth_trie_rebuild_bench.Digest.{Hashing, NodeDigest, new_digest, push, push_all, snapshot}
use reth_trie_rebuild_bench.Digest.Order.{push_all-append, push_all-perm}
use reth_trie_rebuild_bench.Database.{TrieDb}
use reth_trie_rebuild_bench.Tables.{
  TableWalks, low, high, scan_accounts, scan_storages, scan_ranges, digest_tables,
}
use reth_trie_rebuild_bench.Tables.Ranges.{
  in_range, in_range-nibble, filter, filter-cong, buckets, buckets-perm,
}

abbrev pub AccountRow : Type 0
AccountRow = List ℕ × BranchNodeCompact

abbrev pub StorageRow : Type 0
StorageRow = B256 × List ℕ × BranchNodeCompact

module _ (D : TrieDb) (T : TableWalks D) (packed : Bool) where
  -- The tables of a transaction have these rows, and their walks read them all: the one over a
  -- range of addresses those in it.
  pub record Reads (tx : D.Tx) (al : List AccountRow) (sl : List StorageRow) : Type 0 where
    pub accounts : T.walk_accounts packed tx ≡ ok (map ok al)
    pub storages :
        (l h : B256)
        → T.walk_storages packed tx l h ≡ ok (map ok (filter (λ e. in_range l h e.0) sl))
    pub addresses : All (λ e. IsB256 e.0) sl

  abbrev pub account_node : AccountRow → Node
  account_node (key, node) = (none, T.account_key_to_nibbles packed key, node)

  abbrev pub storage_node : StorageRow → Node
  storage_node (a, subkey, node) = (some a, T.subkey_to_nibbles packed subkey, node)

  module _ (x : Hashing) where
    scan_accounts_lem :
        (al : List AccountRow) (d : NodeDigest) (count : ℕ)
        → scan_accounts D T x packed d count (map ok al)
          ≡ ok (push_all x d (map account_node al), count + length al)
    unfolding scan_accounts push_all
    scan_accounts_lem [] d count =
        let same : count ≡ count + 0 = omega arith in ap (λ (n : ℕ). ok (d, n)) same
    scan_accounts_lem ((key, node) ∷ al) d count =
        let shifted : count + 1 + length al ≡ count + suc (length al) = omega arith in
        let d' = push x d (account_node (key, node)) in
        scan_accounts_lem al d' (count + 1)
        ∙ ap (λ (n : ℕ). ok (push_all x d' (map account_node al), n)) shifted

    scan_storages_lem :
        (sl : List StorageRow) (d : NodeDigest) (count : ℕ)
        → scan_storages D T x packed d count (map ok sl)
          ≡ ok (push_all x d (map storage_node sl), count + length sl)
    unfolding scan_storages push_all
    scan_storages_lem [] d count =
        let same : count ≡ count + 0 = omega arith in ap (λ (n : ℕ). ok (d, n)) same
    scan_storages_lem ((a, subkey, node) ∷ sl) d count =
        let shifted : count + 1 + length sl ≡ count + suc (length sl) = omega arith in
        let d' = push x d (storage_node (a, subkey, node)) in
        scan_storages_lem sl d' (count + 1)
        ∙ ap (λ (n : ℕ). ok (push_all x d' (map storage_node sl), n)) shifted

    abbrev nibble_of : StorageRow → ℕ
    nibble_of e = get_or e.0 0 0 / 16

    map-append :
        (xs ys : List StorageRow)
        → map storage_node (xs ++ ys) ≡ map storage_node xs ++ map storage_node ys
    map-append [] ys = refl
    map-append (e ∷ xs) ys = ap (◌∷◌ (storage_node e)) (map-append xs ys)

    scan_ranges_lem :
        (k : ℕ) (tx : D.Tx) (al : List AccountRow) (sl : List StorageRow) (d : NodeDigest)
        → Reads tx al sl
        → scan_ranges D T x packed tx d k
          ≡ ok (
            push_all x d (map storage_node (buckets nibble_of k sl)),
            length (buckets nibble_of k sl),
          )
    unfolding scan_ranges buckets
    scan_ranges_lem zero tx al sl d h = unfold push_all in refl
    scan_ranges_lem (suc k) tx al sl d h =
        let before = buckets nibble_of k sl in
        let here = filter (λ e. nibble_of e == k) sl in
        let range : filter (λ e. in_range (low k) (high k) e.0) sl ≡ here =
          filter-cong (λ e. IsB256 e.0) (λ e. in_range (low k) (high k) e.0) (λ e. nibble_of e == k)
            sl (λ e w. in_range-nibble k e.0 w) h.addresses in
        let digests : push_all x (push_all x d (map storage_node before)) (map storage_node here)
            ≡ push_all x d (map storage_node (before ++ here)) =
          sym (push_all-append x d (map storage_node before) (map storage_node here))
          ∙ ap (push_all x d) (sym (map-append before here)) in
        let counts : length before + (0 + length here) ≡ length (before ++ here) =
          omega (arith, length-append before here) in
        rw (scan_ranges_lem k tx al sl d h) (
          rw (h.storages (low k) (high k), range)
            (rw (scan_storages_lem here (push_all x d (map storage_node before)) 0)
              (λ i. ok (digests i, counts i))))

    map-permᴰ :
        {xs ys : List StorageRow} → Permᴰ xs ys → Perm (map storage_node xs) (map storage_node ys)
    map-permᴰ Permᴰ.nil = Perm.nil
    map-permᴰ (Permᴰ.cons {b = e} h p) = rw h (Perm.cons (storage_node e) (map-permᴰ p))
    map-permᴰ (Permᴰ.swap {a' = f} {b' = e} {l = l} g h) =
        rw (g, h) (Perm.swap (storage_node f) (storage_node e) (map storage_node l))
    map-permᴰ (Permᴰ.trans p q) = Perm.trans (map-permᴰ p) (map-permᴰ q)

    first_nibble-lt :
        (sl : List StorageRow) → All (λ e. IsB256 e.0) sl → All (λ e. nibble_of e < 16) sl
    first_nibble-lt [] w = tt
    first_nibble-lt (e ∷ sl) w = (byte e.0 w.0, first_nibble-lt sl w.1)
      where
        byte : (a : B256) → IsB256 a → get_or a 0 0 / 16 < 16
        byte [] w = absurd (omega arith)
        byte (b ∷ a) w = omega (arith, w.1.0)

    -- Where the walks read all rows, the digest of the tables counts each account and each storage
    -- row once, and its digest is that of a sink that received all of their nodes.
    pub digest_tables_lem :
        (tx : D.Tx) (al : List AccountRow) (sl : List StorageRow)
        → Reads tx al sl
        → digest_tables D T x packed tx
          ≡ ok (record {
            account_nodes = length al;
            storage_nodes = length sl;
            digest = snapshot (push_all x new_digest (map account_node al ++ map storage_node sl));
          })
    unfolding digest_tables
    digest_tables_lem tx al sl h =
        let d = push_all x new_digest (map account_node al) in
        let rows = buckets nibble_of 16 sl in
        let p : Perm rows sl = buckets-perm nibble_of 16 sl (first_nibble-lt sl h.addresses) in
        let digests : push_all x d (map storage_node rows)
            ≡ push_all x new_digest (map account_node al ++ map storage_node sl) =
          push_all-perm x d (map storage_node rows) (map storage_node sl)
            (∥∥₁_elim p (∥∥₁_prop) map-permᴰ)
          ∙ sym (push_all-append x new_digest (map account_node al) (map storage_node sl)) in
        let counted : 0 + length al ≡ length al = omega arith in
        rw (h.accounts, scan_accounts_lem al new_digest 0)
          (rw (scan_ranges_lem 16 tx al sl d h) (λ i. ok (record {
            account_nodes = counted i;
            storage_nodes = length-perm rows sl p i;
            digest = snapshot (digests i);
          })))
