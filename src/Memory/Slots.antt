-- ===== src/Memory/Slots.antt =====
-- The maps of the state against the last write for each account and slot.
use reth_trie_rebuild_bench.Base.{
  ℕ, zero, suc, ◌<◌, ◌≡◌, ◌≢◌, refl, sym, ap, ◌∙◌, Option, none, some, List, [], ◌∷◌, All, arith,
  Option-cases, inl, inr, ite, if_pos, if_neg,
}
use reth_trie_rebuild_bench.Base.Dict.{Dict}
use reth_trie_rebuild_bench.Base.SortedMap.{
  get, Sorted, get-insert_self, get-insert_ne, get-remove_self, get-remove_ne, insert-Sorted,
  remove-Sorted, All-insert, All-remove,
}
use reth_trie_rebuild_bench.Trie.{B256, digits_discrete}
use reth_trie_rebuild_bench.Memory.{
  Sorting, MemoryState, Account, Slots, or_empty, set_slot, new_state, insert_account,
  insert_storage, sorted, iter_storage, iter_accounts, Use, account, slot, sort, apply, apply_all,
}

-- The value of a slot, zero where it has none.
abbrev pub or_zero : Option ℕ → ℕ
or_zero none = 0
or_zero (some v) = v

abbrev value_in : B256 → Slots → ℕ
value_in k slots = or_zero (get k slots)

-- Slots in order, none of them zero.
abbrev pub GoodSlots : Slots → Type 0
GoodSlots slots = Sorted slots × All (λ e. 0 < e.1) slots

pub record WellFormed (r : Sorting) (s : MemoryState r) : Type 0 where
  pub accounts : Sorted s.accounts
  pub storages : Sorted s.storages
  pub slots : All (λ e. GoodSlots e.1) s.storages

value_in-set_slot_self : (k : B256) (v : ℕ) (d : Slots) → Sorted d → value_in k (set_slot d k v) ≡ v
unfolding set_slot
value_in-set_slot_self k zero d s = ap or_zero (get-remove_self k d s)
value_in-set_slot_self k (suc n) d s = ap or_zero (get-insert_self k (suc n) d)

value_in-set_slot_ne :
    (j k : B256) (v : ℕ) (d : Slots) → Sorted d → j ≢ k → value_in j (set_slot d k v) ≡ value_in j d
unfolding set_slot
value_in-set_slot_ne j k zero d s h = ap or_zero (get-remove_ne j k d s h)
value_in-set_slot_ne j k (suc n) d s h = ap or_zero (get-insert_ne j k (suc n) d h)

set_slot-GoodSlots : (d : Slots) (k : B256) (v : ℕ) → GoodSlots d → GoodSlots (set_slot d k v)
unfolding set_slot
set_slot-GoodSlots d k zero (s, pos) = (remove-Sorted k d s, All-remove (λ e. 0 < e.1) k d pos)
set_slot-GoodSlots d k (suc n) (s, pos) = (
  insert-Sorted k (suc n) d s,
  All-insert (λ e. 0 < e.1) k (suc n) d (λ j w p e. omega arith) (omega arith) pos,
)

get-All :
    {V : Type 0} (P : V → Type 0) (k : B256) (v : V) (d : Dict B256 V)
    → All (λ e. P e.1) d
    → get k d ≡ some v
    → P v
unfolding get
get-All P k v [] h e = absurd (cc)
get-All P k v ((j, w) ∷ d) h e = ground (arith, h.0, get-All P k v d h.1)

pub or_empty-GoodSlots :
    (a : B256) (d : Dict B256 Slots) → All (λ e. GoodSlots e.1) d → GoodSlots (or_empty (get a d))
or_empty-GoodSlots a d h = elim (Option-cases (get a d)) [
  | inl absent ↦ rw absent (tt, tt)
  | inr (slots, found) ↦ rw found (get-All GoodSlots a slots d h found)
]

-- The abstract state: the last write to an account, and to a slot.
abbrev pub last_account : {r : Sorting} → B256 → Option Account → List (Use r) → Option Account
last_account a old [] = old
last_account a old (account b v ∷ us) = last_account a (ite (digits_discrete b a) (some v) old) us
last_account a old (slot b k v ∷ us) = last_account a old us
last_account a old (sort ∷ us) = last_account a old us

abbrev pub last_value : {r : Sorting} → B256 → B256 → ℕ → List (Use r) → ℕ
last_value a k old [] = old
last_value a k old (account b v ∷ us) = last_value a k old us
last_value a k old (slot b j v ∷ us) =
    last_value a k (ite (digits_discrete b a) (ite (digits_discrete j k) v old) old) us
last_value a k old (sort ∷ us) = last_value a k old us

module _ (r : Sorting) where
  abbrev pub value_of : MemoryState r → B256 → B256 → ℕ
  value_of s a k = value_in k (iter_storage r s a)

  -- Filling the cache leaves the maps.
  sorted-accounts : (s : MemoryState r) → (sorted r s).0.accounts ≡ s.accounts
  unfolding sorted
  sorted-accounts s = ground arith

  sorted-storages : (s : MemoryState r) → (sorted r s).0.storages ≡ s.storages
  unfolding sorted
  sorted-storages s = ground arith

  pub apply-WellFormed :
      (s : MemoryState r) (u : Use r) → WellFormed r s → WellFormed r (apply r s u)
  unfolding apply insert_account insert_storage sorted
  apply-WellFormed s (account a v) h = record {
    accounts = insert-Sorted a v s.accounts h.accounts;
    storages = h.storages;
    slots = h.slots;
  }
  apply-WellFormed s (slot a k v) h =
      let good =
        set_slot-GoodSlots (or_empty (get a s.storages)) k v
          (or_empty-GoodSlots a s.storages h.slots) in
      record {
        accounts = h.accounts;
        storages = insert-Sorted a _ s.storages h.storages;
        slots = All-insert (λ e. GoodSlots e.1) a _ s.storages (λ j w p e. good) good h.slots;
      }
  apply-WellFormed s sort h = record {
    accounts = rw (sorted-accounts s) h.accounts;
    storages = rw (sorted-storages s) h.storages;
    slots = rw (sorted-storages s) h.slots;
  }

  apply_all-WellFormed :
      (s : MemoryState r) (us : List (Use r)) → WellFormed r s → WellFormed r (apply_all r s us)
  unfolding apply_all
  apply_all-WellFormed s [] h = h
  apply_all-WellFormed s (u ∷ us) h = apply_all-WellFormed (apply r s u) us (apply-WellFormed s u h)

  pub new_state-WellFormed : WellFormed r (new_state r)
  new_state-WellFormed = record { accounts = tt; storages = tt; slots = tt }

  get-apply :
      (s : MemoryState r) (u : Use r) (a : B256)
      → get a (apply r s u).accounts ≡ last_account a (get a s.accounts) (u ∷ [])
  unfolding apply insert_account insert_storage
  get-apply s (account b v) a = elim (digits_discrete b a) [
    | yes same ↦ rw (if_pos (digits_discrete b a) same, ← same) (get-insert_self b v s.accounts)
    | no other ↦
        rw (if_neg (digits_discrete b a) other)
          (get-insert_ne a b v s.accounts (λ e. other (sym e)))
  ]
  get-apply s (slot b k v) a = refl
  get-apply s sort a = rw (sorted-accounts s) refl

  value_of-apply :
      (s : MemoryState r) (u : Use r) (a k : B256)
      → WellFormed r s
      → value_of (apply r s u) a k ≡ last_value a k (value_of s a k) (u ∷ [])
  unfolding apply insert_account insert_storage iter_storage
  value_of-apply s (account b v) a k h = refl
  value_of-apply s (slot b j v) a k h =
      let old = or_empty (get b s.storages) in
      let good = or_empty-GoodSlots b s.storages h.slots in
      elim (digits_discrete b a) [
        | no other ↦
            rw
              (
                if_neg (digits_discrete b a) other,
                get-insert_ne a b (set_slot old j v) s.storages (λ e. other (sym e)),
              )
              refl
        | yes same ↦
            rw
              (
                if_pos (digits_discrete b a) same,
                ← same,
                get-insert_self b (set_slot old j v) s.storages,
              )
              (elim (digits_discrete j k) [
                | yes here ↦
                    rw (if_pos (digits_discrete j k) here v (value_in k old), ← here)
                      (value_in-set_slot_self j v old good.0)
                | no there ↦
                    rw (if_neg (digits_discrete j k) there v (value_in k old))
                      (value_in-set_slot_ne k j v old good.0 (λ e. there (sym e)))
              ])
      ]
  value_of-apply s sort a k h = rw (sorted-storages s) refl

  last_account-append :
      (a : B256) (old : Option Account) (u : Use r) (us : List (Use r))
      → last_account a old (u ∷ us) ≡ last_account a (last_account a old (u ∷ [])) us
  last_account-append a old (account b v) us = refl
  last_account-append a old (slot b k v) us = refl
  last_account-append a old sort us = refl

  last_value-append :
      (a k : B256) (old : ℕ) (u : Use r) (us : List (Use r))
      → last_value a k old (u ∷ us) ≡ last_value a k (last_value a k old (u ∷ [])) us
  last_value-append a k old (account b v) us = refl
  last_value-append a k old (slot b j v) us = refl
  last_value-append a k old sort us = refl

  apply_all-last :
      (s : MemoryState r) (us : List (Use r)) (a k : B256)
      → WellFormed r s
      → (get a (apply_all r s us).accounts ≡ last_account a (get a s.accounts) us)
        × (value_of (apply_all r s us) a k ≡ last_value a k (value_of s a k) us)
  unfolding apply_all
  apply_all-last s [] a k h = (refl, refl)
  apply_all-last s (u ∷ us) a k h =
      let (p, q) = apply_all-last (apply r s u) us a k (apply-WellFormed s u h) in
      (
        p ∙ rw (get-apply s u a) (sym (last_account-append a (get a s.accounts) u us)),
        q ∙ rw (value_of-apply s u a k h) (sym (last_value-append a k (value_of s a k) u us)),
      )

  -- After any uses of a new state, both maps and the slots of every account are in key order with
  -- no key twice and no slot that is zero; an account is the last one inserted at its address, and
  -- a slot has the last value set for it, zero where none was.
  pub apply_all_lem :
      (us : List (Use r))
      → WellFormed r (apply_all r (new_state r) us)
        × ((a : B256)
            → get a (iter_accounts r (apply_all r (new_state r) us)) ≡ last_account a none us)
        × ((a k : B256) → value_of (apply_all r (new_state r) us) a k ≡ last_value a k 0 us)
  unfolding iter_accounts iter_storage get
  apply_all_lem us = (
    apply_all-WellFormed (new_state r) us new_state-WellFormed,
    λ a. (apply_all-last (new_state r) us a [] new_state-WellFormed).0,
    λ a k. (apply_all-last (new_state r) us a k new_state-WellFormed).1,
  )
