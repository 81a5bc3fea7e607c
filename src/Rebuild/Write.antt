-- ===== src/Rebuild/Write.antt =====
-- What `write_trie_updates_with` leaves in the trie tables, for updates that only add nodes.
use mathlib.Core.List.{Permᴰ, perm_append_comm, append_assoc}
use mathlib.Core.List.Perm
use mathlib.Core.HLevel.{×_prop}
use mathlib.Core.Logic.{∥∥₁_elim, ∥∥₁_map, ∥∥₁_prop}
use reth_trie_rebuild_bench.Base.{
  ℕ, suc, ◌+◌, ◌≡◌, ◌≢◌, refl, ap, subst, ◌∙◌, Bool, false, Option, none, some, List, [], ◌∷◌, ◌++◌,
  map, Perm, All, arith, length, length-append,
}
use reth_trie_rebuild_bench.Base.Dict.{Dict, override}
use reth_trie_rebuild_bench.Base.Ordered.{sort_by_key, sort_by_key-perm, sort_by_key-map}
use reth_trie_rebuild_bench.Base.Perms.{All-prop, All-perm, length-perm}
use reth_trie_rebuild_bench.Base.Result.{ok, >>=-eq-ok}
use reth_trie_rebuild_bench.Trie.{
  B256, Nibbles, BranchNodeCompact, StorageTrieUpdates, TrieUpdates, Node,
}
use reth_trie_rebuild_bench.Trie.Nodes.{
  emitted_at, nodes, nodes_under, storage_nodes_of, override_assoc,
}
use reth_trie_rebuild_bench.Trie.Distinct.{
  Distinct, Distinct-append, Distinct-perm, emitted_at-append, emitted_at-perm,
}
use reth_trie_rebuild_bench.Database.{TrieDb, IsTrieDb, AddsOnly, AddsNodes, NoRoot, added}
use reth_trie_rebuild_bench.Rebuild.{
  write_account, write_accounts, write_storages, write_trie_updates_with,
}

length-nodes_under :
    (a : Option B256) (d : Dict Nibbles BranchNodeCompact) → length (nodes_under a d) ≡ length d
length-nodes_under a [] = refl
length-nodes_under a ((p, n) ∷ d) = ap suc (length-nodes_under a d)

nodes_under-permᴰ :
    (a : Option B256) {d e : Dict Nibbles BranchNodeCompact}
    → Permᴰ d e
    → Permᴰ (nodes_under a d) (nodes_under a e)
nodes_under-permᴰ a Permᴰ.nil = Permᴰ.nil
nodes_under-permᴰ a (Permᴰ.cons h p) =
    Permᴰ.cons (ap (λ t. (a, t.0, t.1)) h) (nodes_under-permᴰ a p)
nodes_under-permᴰ a (Permᴰ.swap g h) =
    Permᴰ.swap (ap (λ t. (a, t.0, t.1)) g) (ap (λ t. (a, t.0, t.1)) h)
nodes_under-permᴰ a (Permᴰ.trans p q) = Permᴰ.trans (nodes_under-permᴰ a p) (nodes_under-permᴰ a q)

abbrev trie_nodes : B256 × StorageTrieUpdates → List Node
trie_nodes (a, t) = nodes_under (some a) t.storage_nodes

two_tries :
    (e f : B256 × StorageTrieUpdates) (r : List Node)
    → Perm (trie_nodes e ++ (trie_nodes f ++ r)) (trie_nodes f ++ (trie_nodes e ++ r))
two_tries e f r =
    rw
      (
        ← append_assoc (trie_nodes e) (trie_nodes f) r,
        ← append_assoc (trie_nodes f) (trie_nodes e) r,
      )
      (Perm.append_right r (perm_append_comm (trie_nodes e) (trie_nodes f)))

storage_nodes_of-permᴰ :
    {d e : Dict B256 StorageTrieUpdates}
    → Permᴰ d e
    → Perm (storage_nodes_of d) (storage_nodes_of e)
storage_nodes_of-permᴰ Permᴰ.nil = Perm.nil
storage_nodes_of-permᴰ (Permᴰ.cons {b = f} h p) =
    rw h (Perm.append_left (trie_nodes f) (storage_nodes_of-permᴰ p))
storage_nodes_of-permᴰ (Permᴰ.swap {a' = f} {b' = e} {l = l} g h) =
    rw (g, h) (two_tries e f (storage_nodes_of l))
storage_nodes_of-permᴰ (Permᴰ.trans p q) =
    Perm.trans (storage_nodes_of-permᴰ p) (storage_nodes_of-permᴰ q)

-- The order in which the sorted updates are written.
written_order :
    (u : TrieUpdates) (al : Dict Nibbles BranchNodeCompact) (tl : Dict B256 StorageTrieUpdates)
    → Perm al u.account_nodes
    → Perm tl u.storage_tries
    → Perm (nodes u) (nodes_under none al ++ storage_nodes_of tl)
unfolding nodes
written_order u al tl p q = Perm.symm (
    Perm.append (∥∥₁_map p (nodes_under-permᴰ none)) (∥∥₁_elim q (∥∥₁_prop) storage_nodes_of-permᴰ))

≢-prop : (p : Nibbles) → IsProp (p ≢ [])
≢-prop p = hlevel

AddsNodes-prop : (e : B256 × StorageTrieUpdates) → IsProp (AddsNodes e.1)
AddsNodes-prop (a, t) =
    ×_prop (×_prop {A = t.is_deleted ≡ false} {B = t.removed_nodes ≡ []} (hlevel) (hlevel))
      (All-prop _ (λ f. ≢-prop f.0) t.storage_nodes)

module _ (D : TrieDb) (L : IsTrieDb D) (k : Bool) where
  open L use {tx_at, sort_storage}

  -- `tx'` has the rows of `tx` and, over them, the nodes of `es`.
  abbrev pub Extends : D.Tx → List Node → D.Tx → Type 0
  Extends tx es tx' =
      (a : Option B256) (p : Nibbles)
      → tx_at k tx' a p ≡ override (tx_at k tx a p) (emitted_at es a p)

  Extends-nil : (tx : D.Tx) → Extends tx [] tx
  unfolding emitted_at
  Extends-nil tx a p = refl

  Extends-append :
      (es fs : List Node) (tx tx' tx'' : D.Tx)
      → Extends tx es tx'
      → Extends tx' fs tx''
      → Extends tx (es ++ fs) tx''
  Extends-append es fs tx tx' tx'' h h' a p =
      h' a p
      ∙ rw (h a p, emitted_at-append es fs a p)
          (override_assoc (tx_at k tx a p) (emitted_at es a p) (emitted_at fs a p))

  write_account-adds :
      (tx : D.Tx) (p : Nibbles) (n : BranchNodeCompact) (count : ℕ) (tx' : D.Tx)
      → p ≢ []
      → write_account D k tx p (some n) ≡ ok (count, tx')
      → (count ≡ 1) × Extends tx ((none, p, n) ∷ []) tx'
  unfolding write_account
  write_account-adds tx [] n count tx' h e = absurd (h refl)
  write_account-adds tx (x ∷ p) n count tx' h e =
      let (t, upserted, r) = >>=-eq-ok (D.upsert k tx (D.account_key k (x ∷ p)) n) _ e in
      let same : t ≡ tx' = cc in
      (cc, subst (Extends tx ((none, x ∷ p, n) ∷ [])) same (L.upsert-at k tx t (x ∷ p) n upserted))

  write_accounts-adds :
      (al : Dict Nibbles BranchNodeCompact) (tx : D.Tx) (written count : ℕ) (tx' : D.Tx)
      → NoRoot al
      → write_accounts D k tx written (added al) ≡ ok (count, tx')
      → (count ≡ written + length al) × Extends tx (nodes_under none al) tx'
  unfolding write_accounts
  write_accounts-adds [] tx written count tx' h e =
      let same : tx ≡ tx' = cc in (ground arith, subst (Extends tx []) same (Extends-nil tx))
  write_accounts-adds ((p, n) ∷ al) tx written count tx' h e =
      let ((c, t), first, r) = >>=-eq-ok (write_account D k tx p (some n)) _ e in
      let (one, step) = write_account-adds tx p n c t h.0 first in
      let (more, rest) = write_accounts-adds al t (written + c) count tx' h.1 r in
      (
        omega (arith, one, more),
        Extends-append ((none, p, n) ∷ []) (nodes_under none al) tx t tx' step rest,
      )

  write_storages-adds :
      (tl : Dict B256 StorageTrieUpdates) (tx : D.Tx) (written count : ℕ) (tx' : D.Tx)
      → All (λ e. AddsNodes e.1) tl
      → Distinct (storage_nodes_of tl)
      → write_storages D k tx written (map (λ (a, t). (a, sort_storage t)) tl) ≡ ok (count, tx')
      → (count ≡ written + length (storage_nodes_of tl)) × Extends tx (storage_nodes_of tl) tx'
  unfolding write_storages
  write_storages-adds [] tx written count tx' h d e =
      let same : tx ≡ tx' = cc in (ground arith, subst (Extends tx []) same (Extends-nil tx))
  write_storages-adds ((b, t) ∷ tl) tx written count tx' h d e =
      let here = nodes_under (some b) t.storage_nodes in
      let (d₁, d₂) = Distinct-append here (storage_nodes_of tl) d in
      let ((c, u), first, r) = >>=-eq-ok (D.write_storage k tx b (sort_storage t)) _ e in
      let (some_count, step) = L.write_storage-at k tx u b t c h.0 d₁ first in
      let (more, rest) = write_storages-adds tl u (written + c) count tx' h.1 d₂ r in
      (
        omega (
          arith,
          some_count,
          more,
          length-append here (storage_nodes_of tl),
          length-nodes_under (some b) t.storage_nodes,
        ),
        Extends-append here (storage_nodes_of tl) tx u tx' step rest,
      )

  -- Where writing updates that mark no trie as deleted and only add nodes, each in its own place and none at the root of
  -- a trie, succeeds, the tables have those nodes over what they had, and the count is theirs.
  pub write_trie_updates_with-adds :
      (u : TrieUpdates) (tx : D.Tx) (count : ℕ) (tx' : D.Tx)
      → AddsOnly u
      → NoRoot u.account_nodes
      → Distinct (nodes u)
      → write_trie_updates_with D k tx u ≡ ok (count, tx')
      → (count ≡ length (nodes u)) × Extends tx (nodes u) tx'
  unfolding write_trie_updates_with
  write_trie_updates_with-adds u tx count tx' adds no_root d e =
      let (al, same_accounts, p) = L.sorted_accounts-adds u adds in
      let (tl, same_tries, q) = L.sorted_tries-adds u adds in
      let all = nodes_under none al ++ storage_nodes_of (sort_by_key tl) in
      let tries = Perm.trans (sort_by_key-perm tl) q in
      let order = written_order u al (sort_by_key tl) p tries in
      let d' : Distinct all = Distinct-perm (nodes u) all order d in
      let (_, _, r₁) = >>=-eq-ok (D.cursor_write k tx) _ e in
      let ((c, t), first, r₂) = >>=-eq-ok (write_accounts D k tx 0 (D.sorted_accounts u)) _ r₁ in
      let (_, _, r) = >>=-eq-ok (D.cursor_dup_write k t) _ r₂ in
      let (c_eq, step) =
        write_accounts-adds al tx 0 c t
          (All-perm _ (λ e. ≢-prop e.0) u.account_nodes al (Perm.symm p) no_root)
          (rw same_accounts at first) in
      let (n_eq, rest) =
        write_storages-adds (sort_by_key tl) t c count tx'
          (All-perm _ AddsNodes-prop u.storage_tries (sort_by_key tl) (Perm.symm tries) adds.tries)
          (Distinct-append (nodes_under none al) (storage_nodes_of (sort_by_key tl)) d').1
          (subst (λ s. write_storages D k t c s ≡ ok (count, tx'))
            (ap sort_by_key same_tries ∙ sort_by_key-map sort_storage tl) r) in
      (
        omega (
          arith,
          c_eq,
          n_eq,
          length-append (nodes_under none al) (storage_nodes_of (sort_by_key tl)),
          length-nodes_under none al,
          length-perm (nodes u) all order,
        ),
        λ a b.
            Extends-append (nodes_under none al) (storage_nodes_of (sort_by_key tl)) tx t tx' step
              rest a b
            ∙ rw (emitted_at-perm (nodes u) all order d a b),
      )
