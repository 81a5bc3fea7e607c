-- ===== src/Mdbx/Hashed.antt =====
-- What writing a state leaves in the hashed state tables.
use reth_trie_rebuild_bench.Base.{
  ℕ, ◌≡◌, ◌≢◌, refl, sym, ap, ◌∙◌, ◌⊎◌, inl, inr, Option, none, some, List, [], ◌∷◌,
}
use reth_trie_rebuild_bench.Base.Dict.{Dict, override}
use reth_trie_rebuild_bench.Base.Result.{ok, >>=-eq-ok}
use reth_trie_rebuild_bench.Base.SortedMap.{get, Sorted, get-first, get-cons_ne, get-cons_self}
use reth_trie_rebuild_bench.Trie.{B256, digits_discrete}
use reth_trie_rebuild_bench.Database.{TrieDb}
use reth_trie_rebuild_bench.Memory.{Account, Sorting, MemoryState, iter_accounts, iter_storage}
use reth_trie_rebuild_bench.Memory.Slots.{WellFormed, or_empty-GoodSlots}
use reth_trie_rebuild_bench.Mdbx.{HashedTables, put_slots, put_accounts, write_hashed_state}

-- The slot of an account that is written, and what there was for others.
abbrev pub slot_after : Option Account → Option ℕ → Option ℕ → Option ℕ
slot_after none old new = old
slot_after (some account) old new = new

found : {V : Type 0} (k : B256) (v : V) (d : Dict B256 V) → get k ((k, v) ∷ d) ≢ none
found k v d p = let some_none : some v ≡ none = sym (get-cons_self k v d) ∙ p in cc

sorted_storage :
    (r : Sorting) (state : MemoryState r)
    → WellFormed r state
    → (a : B256) → Sorted (iter_storage r state a)
unfolding iter_storage
sorted_storage r state w a = (or_empty-GoodSlots a state.storages w.slots).0

module _ (D : TrieDb) (T : HashedTables D) where
  -- The hashed state tables as maps, and what the puts do to them. A put into the storage table adds
  -- an entry, so its slot must be new.
  pub record IsHashedTables : Type 0 where
    pub account_in : D.Db → B256 → Option Account
    pub slot_in : D.Db → B256 → B256 → Option ℕ
    pub account_at : D.Tx → B256 → Option Account
    pub slot_at : D.Tx → B256 → B256 → Option ℕ
    pub tx_mut-at :
        (db : D.Db) (tx : D.Tx)
        → D.tx_mut db ≡ ok tx
        → ((a : B256) → account_at tx a ≡ account_in db a)
          × ((a s : B256) → slot_at tx a s ≡ slot_in db a s)
    pub commit-at :
        (tx : D.Tx) (db : D.Db)
        → D.commit tx ≡ ok db
        → ((a : B256) → account_in db a ≡ account_at tx a)
          × ((a s : B256) → slot_in db a s ≡ slot_at tx a s)
    pub put_account-at :
        (tx tx' : D.Tx) (a : B256) (v : Account)
        → T.put_account tx a v ≡ ok tx'
        → (account_at tx' a ≡ some v)
          × ((b : B256) → b ≢ a → account_at tx' b ≡ account_at tx b)
          × ((b s : B256) → slot_at tx' b s ≡ slot_at tx b s)
    pub put_storage-at :
        (tx tx' : D.Tx) (a k : B256) (v : ℕ)
        → slot_at tx a k ≡ none
        → T.put_storage tx a k v ≡ ok tx'
        → (slot_at tx' a k ≡ some v)
          × ((b s : B256) → (b ≢ a) ⊎ (s ≢ k) → slot_at tx' b s ≡ slot_at tx b s)
          × ((b : B256) → account_at tx' b ≡ account_at tx b)

  module _ (L : IsHashedTables) where
    open L use {account_at, slot_at}

    -- None of the slots is in the table yet.
    abbrev NewSlots : D.Tx → B256 → List (B256 × ℕ) → Type 0
    NewSlots tx a sl = (s : B256) → get s sl ≢ none → slot_at tx a s ≡ none

    record SlotsPut (tx tx' : D.Tx) (a : B256) (sl : List (B256 × ℕ)) : Type 0 where
      accounts : (b : B256) → account_at tx' b ≡ account_at tx b
      others : (b s : B256) → b ≢ a → slot_at tx' b s ≡ slot_at tx b s
      slots : (s : B256) → slot_at tx' a s ≡ override (slot_at tx a s) (get s sl)

    put_slots-SlotsPut :
        (tx tx' : D.Tx) (a : B256) (sl : List (B256 × ℕ))
        → Sorted sl
        → NewSlots tx a sl
        → put_slots D T tx a sl ≡ ok tx'
        → SlotsPut tx tx' a sl
    unfolding put_slots
    put_slots-SlotsPut tx tx' a [] w new e =
        let same : tx ≡ tx' = cc in
        record {
          accounts = λ b. ap (λ t. account_at t b) (sym same);
          others = λ b s n. ap (λ t. slot_at t b s) (sym same);
          slots = λ s. unfold get in ap (λ t. slot_at t a s) (sym same);
        }
    put_slots-SlotsPut tx tx' a ((k, v) ∷ sl) w new e =
        let (tx₁, put, rest) = >>=-eq-ok (T.put_storage tx a k v) _ e in
        let first : get k ((k, v) ∷ sl) ≢ none = found k v sl in
        let (here, others, accounts) = L.put_storage-at tx tx₁ a k v (new k first) put in
        let later : (s : B256) → get s sl ≢ none → s ≢ k =
          λ s p q. p (ap (λ t. get t sl) q ∙ get-first k v sl w) in
        let new₁ : NewSlots tx₁ a sl = λ s p.
          others a s (inr (later s p))
          ∙ new s (λ z. p (sym (get-cons_ne s k v sl w (later s p)) ∙ z)) in
        let h = put_slots-SlotsPut tx₁ tx' a sl w.1 new₁ rest in
        record {
          accounts = λ b. h.accounts b ∙ accounts b;
          others = λ b s n. h.others b s n ∙ others b s (inl n);
          slots = λ s. elim (digits_discrete s k) [
            | yes q ↦
                let gone : get s sl ≡ none = ap (λ t. get t sl) q ∙ get-first k v sl w in
                h.slots s
                ∙ ap (override (slot_at tx₁ a s)) gone
                ∙ ap (slot_at tx₁ a) q
                ∙ here
                ∙ ap (override (slot_at tx a s))
                    (sym (ap (λ t. get t ((k, v) ∷ sl)) q ∙ get-cons_self k v sl))
            | no n ↦
                h.slots s
                ∙ ap (λ t. override t (get s sl)) (others a s (inr n))
                ∙ ap (override (slot_at tx a s)) (sym (get-cons_ne s k v sl w n))
          ];
        }

    -- None of the accounts has a slot in the table yet.
    abbrev NewAccounts : D.Tx → List (B256 × Account) → Type 0
    NewAccounts tx al = (a : B256) → get a al ≢ none → (s : B256) → slot_at tx a s ≡ none

    record AccountsPut (r : Sorting) (state : MemoryState r) (tx tx' : D.Tx)
        (al : List (B256 × Account)) : Type 0 where
      accounts : (a : B256) → account_at tx' a ≡ override (account_at tx a) (get a al)
      slots :
          (a s : B256)
          → slot_at tx' a s
            ≡ slot_after (get a al) (slot_at tx a s) (get s (iter_storage r state a))

    put_accounts-AccountsPut :
        (r : Sorting) (state : MemoryState r) (tx tx' : D.Tx) (al : List (B256 × Account))
        → ((a : B256) → Sorted (iter_storage r state a))
        → Sorted al
        → NewAccounts tx al
        → put_accounts D T r state tx al ≡ ok tx'
        → AccountsPut r state tx tx' al
    unfolding put_accounts
    put_accounts-AccountsPut r state tx tx' [] ws w new e =
        let same : tx ≡ tx' = cc in
        unfold get in
        record {
          accounts = λ b. ap (λ t. account_at t b) (sym same);
          slots = λ a s. ap (λ t. slot_at t a s) (sym same);
        }
    put_accounts-AccountsPut r state tx tx' ((b, v) ∷ al) ws w new e =
        let sl = iter_storage r state b in
        let (tx₁, put, rest) = >>=-eq-ok (T.put_account tx b v) _ e in
        let (tx₂, put_all, rest₂) = >>=-eq-ok (put_slots D T tx₁ b sl) _ rest in
        let (here, others, kept) = L.put_account-at tx tx₁ b v put in
        let fresh : (s : B256) → slot_at tx₁ b s ≡ none = λ s. kept b s ∙ new b (found b v al) s in
        let p = put_slots-SlotsPut tx₁ tx₂ b sl (ws b) (λ s _. fresh s) put_all in
        let later : (a : B256) → get a al ≢ none → a ≢ b =
          λ a q z. q (ap (λ t. get t al) z ∙ get-first b v al w) in
        let new₂ : NewAccounts tx₂ al = λ a q s.
          p.others a s (later a q)
          ∙ kept a s
          ∙ new a (λ z. q (sym (get-cons_ne a b v al w (later a q)) ∙ z)) s in
        let h = put_accounts-AccountsPut r state tx₂ tx' al ws w.1 new₂ rest₂ in
        record {
          accounts = λ a. elim (digits_discrete a b) [
            | yes q ↦
                let gone : get a al ≡ none = ap (λ t. get t al) q ∙ get-first b v al w in
                h.accounts a
                ∙ ap (override (account_at tx₂ a)) gone
                ∙ p.accounts a
                ∙ ap (account_at tx₁) q
                ∙ here
                ∙ ap (override (account_at tx a))
                    (sym (ap (λ t. get t ((b, v) ∷ al)) q ∙ get-cons_self b v al))
            | no n ↦
                h.accounts a
                ∙ ap (λ t. override t (get a al)) (p.accounts a ∙ others a n)
                ∙ ap (override (account_at tx a)) (sym (get-cons_ne a b v al w n))
          ];
          slots = λ a s. elim (digits_discrete a b) [
            | yes q ↦
                let gone : get a al ≡ none = ap (λ t. get t al) q ∙ get-first b v al w in
                h.slots a s
                ∙ ap (λ t. slot_after t (slot_at tx₂ a s) (get s (iter_storage r state a))) gone
                ∙ ap (λ t. slot_at tx₂ t s) q
                ∙ p.slots s
                ∙ ap (λ t. override t (get s sl)) (fresh s)
                ∙ all_new (get s sl)
                ∙ ap (λ t. get s (iter_storage r state t)) (sym q)
                ∙ ap (λ t. slot_after t (slot_at tx a s) (get s (iter_storage r state a)))
                    (sym (ap (λ t. get t ((b, v) ∷ al)) q ∙ get-cons_self b v al))
            | no n ↦
                h.slots a s
                ∙ ap (λ t. slot_after (get a al) t (get s (iter_storage r state a)))
                    (p.others a s n ∙ kept a s)
                ∙ ap (λ t. slot_after t (slot_at tx a s) (get s (iter_storage r state a)))
                    (sym (get-cons_ne a b v al w n))
          ];
        }
      where
        all_new : (x : Option ℕ) → override none x ≡ x
        all_new none = refl
        all_new (some y) = refl

    -- Into tables without rows, writing a well-formed state that succeeds puts each account, and the
    -- storage of exactly the addresses with an account: a storage without one is left out.
    pub write_hashed_state_lem :
        (r : Sorting) (state : MemoryState r) (db db' : D.Db)
        → WellFormed r state
        → ((a : B256) → L.account_in db a ≡ none)
        → ((a s : B256) → L.slot_in db a s ≡ none)
        → write_hashed_state D T r db state ≡ ok db'
        → ((a : B256) → L.account_in db' a ≡ get a (iter_accounts r state))
          × ((a s : B256)
              → L.slot_in db' a s
                ≡ slot_after (get a (iter_accounts r state)) none (get s (iter_storage r state a)))
    unfolding write_hashed_state iter_accounts
    write_hashed_state_lem r state db db' w no_accounts no_slots e =
        let (tx, opened, e₁) = >>=-eq-ok (D.tx_mut db) _ e in
        let (tx', put, committed) = >>=-eq-ok (put_accounts D T r state tx state.accounts) _ e₁ in
        let (accounts, slots) = L.tx_mut-at db tx opened in
        let (accounts', slots') = L.commit-at tx' db' committed in
        let none_yet : (a s : B256) → slot_at tx a s ≡ none = λ a s. slots a s ∙ no_slots a s in
        let h =
          put_accounts-AccountsPut r state tx tx' state.accounts (sorted_storage r state w)
            w.accounts (λ a _ s. none_yet a s) put in
        (
          λ a.
              accounts' a
              ∙ h.accounts a
              ∙ ap (λ t. override t (get a state.accounts)) (accounts a ∙ no_accounts a)
              ∙ all_new (get a state.accounts),
          λ a s.
              slots' a s
              ∙ h.slots a s
              ∙ ap (λ t. slot_after (get a state.accounts) t (get s (iter_storage r state a)))
                  (none_yet a s),
        )
      where
        all_new : (x : Option Account) → override none x ≡ x
        all_new none = refl
        all_new (some y) = refl
