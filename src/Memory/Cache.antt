-- ===== src/Memory/Cache.antt =====
-- What `sorted` hands out.
use reth_trie_rebuild_bench.Base.{
  ◌≡◌, refl, sym, subst, ap, ◌∙◌, Option, none, some, List, [], ◌∷◌, Option-cases, inl, inr, if_pos,
  if_neg,
}
use reth_trie_rebuild_bench.Base.Dict
use reth_trie_rebuild_bench.Base.Dict.{Dict, override}
use reth_trie_rebuild_bench.Base.SortedMap.{get, Sorted, get-first, get-cons_ne, get-cons_self}
use reth_trie_rebuild_bench.Trie.{B256, digits_discrete, digits_eq}
use reth_trie_rebuild_bench.Trie.Nodes.{none-override}
use reth_trie_rebuild_bench.Memory.{
  Sorting, MemoryState, Account, Slots, new_state, insert_account, insert_storage, sorted,
  post_accounts, post_storages, post_state, Use, account, slot, sort, apply, apply_all, Cursors,
  cursor_factory, provider_factory,
}
use reth_trie_rebuild_bench.Memory.Slots.{apply_all_lem}

-- What the post-state has for an account, and for its storage: none if it has no slots.
abbrev pub as_account : Option Account → Option (Option Account)
as_account none = none
as_account (some v) = some (some v)

abbrev pub as_storage : Option Slots → Option Slots
as_storage none = none
as_storage (some []) = none
as_storage (some (e ∷ slots)) = some (Dict.extend [] (e ∷ slots))

lookup-post_accounts :
    (post : Dict B256 (Option Account)) (d : Dict B256 Account) (a : B256)
    → Sorted d
    → Dict.lookup a (post_accounts post d) ≡ override (Dict.lookup a post) (as_account (get a d))
unfolding post_accounts
lookup-post_accounts post [] a s = unfold get in refl
lookup-post_accounts post ((j, w) ∷ d) a s =
    let rest = lookup-post_accounts (Dict.insert j (some w) post) d a s.1 in
    let at_a = Dict.lookup-insert a j (some w) post in
    elim (digits_discrete j a) [
      | yes same ↦
          let gone : get a d ≡ none = subst (λ t. get t d ≡ none) same (get-first j w d s) in
          let here : get a ((j, w) ∷ d) ≡ some w =
            subst (λ t. get t ((j, w) ∷ d) ≡ some w) same (get-cons_self j w d) in
          rest
          ∙ rw
              (
                at_a,
                gone,
                here,
                if_pos (digits_discrete j a) same (some (some w)) (Dict.lookup a post),
              )
              refl
      | no other ↦
          rest
          ∙ rw
              (
                at_a,
                get-cons_ne a j w d s (λ e. other (sym e)),
                if_neg (digits_discrete j a) other (some (some w)) (Dict.lookup a post),
              )
              refl
    ]

lookup-post_storages :
    (post d : Dict B256 Slots) (a : B256)
    → Sorted d
    → Dict.lookup a (post_storages post d) ≡ override (Dict.lookup a post) (as_storage (get a d))
unfolding post_storages
lookup-post_storages post [] a s = unfold get in refl
lookup-post_storages post ((j, []) ∷ d) a s =
    let rest = lookup-post_storages post d a s.1 in
    elim (digits_discrete j a) [
      | yes same ↦
          let gone : get a d ≡ none = subst (λ t. get t d ≡ none) same (get-first j [] d s) in
          let here : get a ((j, []) ∷ d) ≡ some [] =
            subst (λ t. get t ((j, []) ∷ d) ≡ some []) same (get-cons_self j [] d) in
          rest ∙ rw (gone, here) refl
      | no other ↦ rest ∙ rw (get-cons_ne a j [] d s (λ e. other (sym e))) refl
    ]
lookup-post_storages post ((j, x ∷ xs) ∷ d) a s =
    let kept = Dict.extend [] (x ∷ xs) in
    let rest = lookup-post_storages (Dict.insert j kept post) d a s.1 in
    let at_a = Dict.lookup-insert a j kept post in
    elim (digits_discrete j a) [
      | yes same ↦
          let gone : get a d ≡ none = subst (λ t. get t d ≡ none) same (get-first j (x ∷ xs) d s) in
          let here : get a ((j, x ∷ xs) ∷ d) ≡ some (x ∷ xs) =
            subst (λ t. get t ((j, x ∷ xs) ∷ d) ≡ some (x ∷ xs)) same
              (get-cons_self j (x ∷ xs) d) in
          rest
          ∙ rw
              (at_a, gone, here, if_pos (digits_discrete j a) same (some kept) (Dict.lookup a post))
              refl
      | no other ↦
          rest
          ∙ rw
              (
                at_a,
                get-cons_ne a j (x ∷ xs) d s (λ e. other (sym e)),
                if_neg (digits_discrete j a) other (some kept) (Dict.lookup a post),
              )
              refl
    ]

module _ (r : Sorting) where
  -- The cache is empty or up to date.
  Fresh : MemoryState r → Type 0
  Fresh s = (b : r.HashedPostStateSorted) → s.sorted ≡ some b → b ≡ r.into_sorted (post_state r s)

  sorted-Fresh :
      (s : MemoryState r)
      → Fresh s
      → ((sorted r s).1 ≡ r.into_sorted (post_state r s)) × Fresh (sorted r s).0
  unfolding Fresh sorted
  sorted-Fresh s h = elim (Option-cases s.sorted) [
    | inl empty ↦ rw (empty, sorted) (refl, λ b e. cc)
    | inr (b, full) ↦ rw (full, sorted) (h b full, h)
  ]

  apply-Fresh : (s : MemoryState r) (u : Use r) → Fresh s → Fresh (apply r s u)
  unfolding Fresh apply insert_account insert_storage
  apply-Fresh s (account a v) h b e = cc
  apply-Fresh s (slot a k v) h b e = cc
  apply-Fresh s sort h b e = (sorted-Fresh s h).1 b e

  apply_all-Fresh : (s : MemoryState r) (us : List (Use r)) → Fresh s → Fresh (apply_all r s us)
  unfolding apply_all
  apply_all-Fresh s [] h = h
  apply_all-Fresh s (u ∷ us) h = apply_all-Fresh (apply r s u) us (apply-Fresh s u h)

  new_state-Fresh : Fresh (new_state r)
  unfolding Fresh
  new_state-Fresh b e = cc

  provider_factory-Fresh :
      (C : Cursors r) (s : MemoryState r)
      → Fresh s
      → (provider_factory r C s).1.factory ≡ C.over (r.into_sorted (post_state r s))
  unfolding provider_factory cursor_factory
  provider_factory-Fresh C s h = ap C.over (sorted-Fresh s h).0

  -- After any uses of a new state, `sorted` hands out the sorted form of what the maps hold now,
  -- whether it was built before or not, and `provider_factory` a factory over that form: every
  -- account is in the post-state it is made of, and the storage of exactly the addresses with a
  -- slot.
  pub sorted_lem :
      (C : Cursors r) (us : List (Use r))
      → (let s = apply_all r (new_state r) us in
          ((sorted r s).1 ≡ r.into_sorted (post_state r s))
          × ((provider_factory r C s).1.factory ≡ C.over (r.into_sorted (post_state r s)))
          × ((a : B256) → Dict.lookup a (post_state r s).accounts ≡ as_account (get a s.accounts))
          × ((a : B256) → Dict.lookup a (post_state r s).storages ≡ as_storage (get a s.storages)))
  sorted_lem C us =
      let s = apply_all r (new_state r) us in
      let good = (apply_all_lem r us).0 in
      let fresh = apply_all-Fresh (new_state r) us new_state-Fresh in
      (
        (sorted-Fresh s fresh).0,
        provider_factory-Fresh C s fresh,
        λ a.
            lookup-post_accounts [] s.accounts a good.accounts
            ∙ from_empty (as_account (get a s.accounts)) a,
        λ a.
            lookup-post_storages [] s.storages a good.storages
            ∙ from_empty (as_storage (get a s.storages)) a,
      )
    where
      from_empty : {V : Type 0} (x : Option V) (a : B256) → override (Dict.lookup a []) x ≡ x
      from_empty x a = unfold Dict.lookup in none-override x
