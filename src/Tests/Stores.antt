-- ===== src/Tests/Stores.antt =====
-- Storage settings and hashed state, in a database that is two functions and the settings' bytes.
use reth_trie_rebuild_bench.Base.{
  ℕ, ◌≡◌, ◌≢◌, refl, ◌⊎◌, inl, inr, Bool, true, false, Option, none, some, List, [], ◌∷◌, replicate,
  ite, if_pos, if_neg, arith, ◌∙◌,
}
use reth_trie_rebuild_bench.Base.Ordered.{compare_bytes}
use reth_trie_rebuild_bench.Base.Result.{ok}
use reth_trie_rebuild_bench.Base.SortedMap.{get}
use reth_trie_rebuild_bench.Trie.{B256, digits_discrete}
use reth_trie_rebuild_bench.Database.{TrieDb}
use reth_trie_rebuild_bench.Rebuild.{uses_packed_trie_keys}
use reth_trie_rebuild_bench.Memory.{Account, Sorting, MemoryState, iter_accounts, iter_storage}
use reth_trie_rebuild_bench.Memory.Slots.{WellFormed}
use reth_trie_rebuild_bench.Mdbx.{
  Metadata, put_bytes, write_storage_settings, HashedTables, put_slots, put_accounts,
  write_hashed_state,
}
use reth_trie_rebuild_bench.Mdbx.Settings.{IsMetadata, write_storage_settings-uses_packed_trie_keys}
use reth_trie_rebuild_bench.Mdbx.Hashed.{IsHashedTables, slot_after, write_hashed_state_lem}
use reth_trie_rebuild_bench.Tests.Data.{address}

record Store : Type 0 where
  settings : Option (List ℕ)
  accounts : B256 → Option Account
  slots : B256 → B256 → Option ℕ

abbrev store_db : TrieDb
store_db = record {
  Error = ℕ;
  Db = Store;
  Tx = Store;
  SortedStorage = ℕ;
  tx = ok;
  tx_mut = ok;
  commit = ok;
  sorted_accounts = λ u. [];
  sorted_tries = λ u. [];
  account_key = λ k p. p;
  cursor_write = λ k tx. ok tt;
  cursor_dup_write = λ k tx. ok tt;
  upsert = λ k tx key n. ok tx;
  seek_exact = λ k tx key. ok none;
  delete_current = λ k tx key. ok tx;
  write_storage = λ k tx a t. ok (0, tx);
  clear_accounts = ok;
  clear_storages = ok;
  storage_settings = λ tx. ok tx.settings;
  parse_settings =
      λ bytes. elim (digits_discrete bytes (b'2' ∷ [])) [ yes _ ↦ some true | no _ ↦ some false ];
}

abbrev version_bytes : Bool → List ℕ
version_bytes true = b'2' ∷ []
version_bytes false = b'1' ∷ []

abbrev store_metadata : Metadata store_db
store_metadata = record {
  StorageSettings = Bool;
  is_v2 = λ v2. v2;
  to_vec = λ v2. some (version_bytes v2);
  put_settings = λ tx bytes. ok (record tx { settings = some bytes });
}

to_vec-parse :
    (v2 : Bool) (bytes : List ℕ)
    → some (version_bytes v2) ≡ some bytes
    → store_db.parse_settings bytes ≡ some v2
unfolding digits_discrete
to_vec-parse true bytes e = let same : version_bytes true ≡ bytes = cc in rw (← same) refl
to_vec-parse false bytes e = let same : version_bytes false ≡ bytes = cc in rw (← same) refl

store-IsMetadata : IsMetadata store_db store_metadata
store-IsMetadata = record {
  put-get = λ tx tx' bytes db later put committed opened.
      let a : record tx { settings = some bytes } ≡ tx' = cc in
      let b : tx' ≡ db = cc in let c : db ≡ later = cc in rw (← c, ← b, ← a) refl;
  to_vec-parse = to_vec-parse;
}

abbrev empty : Store
empty = record { settings = none; accounts = λ a. none; slots = λ a s. none }

v2_written :
    write_storage_settings store_db store_metadata empty true
    ≡ some (ok (record empty { settings = some (b'2' ∷ []) }))
unfolding write_storage_settings put_bytes
v2_written = refl

write_storage_settings-uses_packed_trie_keys_example :
    uses_packed_trie_keys store_db (record empty { settings = some (b'2' ∷ []) }) ≡ ok true
write_storage_settings-uses_packed_trie_keys_example =
    write_storage_settings-uses_packed_trie_keys store_db store_metadata store-IsMetadata empty
      (record empty { settings = some (b'2' ∷ []) }) true
      (record empty { settings = some (b'2' ∷ []) }) v2_written refl

-- A function with one more value.
set : {V : Type 0} → (B256 → Option V) → B256 → V → B256 → Option V
set f a v b = ite (digits_discrete b a) (some v) (f b)

set_slot : (B256 → B256 → Option ℕ) → B256 → B256 → ℕ → B256 → B256 → Option ℕ
set_slot g a k v b s = ite (digits_discrete b a) (set (g b) k v s) (g b s)

abbrev store_tables : HashedTables store_db
store_tables = record {
  put_account = λ tx a v. ok (record tx { accounts = set tx.accounts a v });
  put_storage = λ tx a k v. ok (record tx { slots = set_slot tx.slots a k v });
}

set_self : {V : Type 0} (f : B256 → Option V) (a : B256) (v : V) → set f a v a ≡ some v
unfolding set
set_self f a v = if_pos (digits_discrete a a) refl (some v) (f a)

set_other :
    {V : Type 0} (f : B256 → Option V) (a : B256) (v : V) (b : B256) → b ≢ a → set f a v b ≡ f b
unfolding set
set_other f a v b n = if_neg (digits_discrete b a) n (some v) (f b)

set_slot_self : (g : B256 → B256 → Option ℕ) (a k : B256) (v : ℕ) → set_slot g a k v a k ≡ some v
unfolding set_slot
set_slot_self g a k v =
    if_pos (digits_discrete a a) refl (set (g a) k v k) (g a k) ∙ set_self (g a) k v

set_slot_other :
    (g : B256 → B256 → Option ℕ) (a k : B256) (v : ℕ) (b s : B256)
    → (b ≢ a) ⊎ (s ≢ k)
    → set_slot g a k v b s ≡ g b s
unfolding set_slot
set_slot_other g a k v b s (inl n) = if_neg (digits_discrete b a) n (set (g b) k v s) (g b s)
set_slot_other g a k v b s (inr n) = either (digits_discrete b a)
  where
    either : (d : Dec (b ≡ a)) → ite d (set (g b) k v s) (g b s) ≡ g b s
    either (yes _) = set_other (g b) k v s n
    either (no _) = refl

same_store :
    (x y : Store)
    → store_db.tx_mut x ≡ ok y
    → ((a : B256) → y.accounts a ≡ x.accounts a) × ((a s : B256) → y.slots a s ≡ x.slots a s)
same_store x y e = let p : x ≡ y = cc in rw (← p) (λ a. refl, λ a s. refl)

abbrev store_tables-IsHashedTables : IsHashedTables store_db store_tables
store_tables-IsHashedTables = record {
  account_in = λ db. db.accounts;
  slot_in = λ db. db.slots;
  account_at = λ tx. tx.accounts;
  slot_at = λ tx. tx.slots;
  tx_mut-at = same_store;
  commit-at = same_store;
  put_account-at = λ tx tx' a v e.
      let made : record tx { accounts = set tx.accounts a v } ≡ tx' = cc in
      rw (← made) (set_self tx.accounts a v, set_other tx.accounts a v, λ b s. refl);
  put_storage-at = λ tx tx' a k v _ e.
      let made : record tx { slots = set_slot tx.slots a k v } ≡ tx' = cc in
      rw (← made) (set_slot_self tx.slots a k v, set_slot_other tx.slots a k v, λ b. refl);
}

abbrev plain_sorting : Sorting
plain_sorting = record { HashedPostStateSorted = ℕ; into_sorted = λ post. 0 }

abbrev rich : Account
rich = record { nonce = 1; balance = 1000; bytecode_hash = none }

-- One account with a slot, and a slot whose address has no account.
abbrev small_state : MemoryState plain_sorting
small_state = record {
  accounts = (address, rich) ∷ [];
  storages =
      (address, (replicate 32 1, 5) ∷ []) ∷ (replicate 32 0x43, (replicate 32 2, 6) ∷ []) ∷ [];
  sorted = none;
}

small_state-WellFormed : WellFormed plain_sorting small_state
unfolding compare_bytes
small_state-WellFormed = record {
  accounts = (tt, tt);
  storages = ((refl, tt), (tt, tt));
  slots = (((tt, tt), (omega arith, tt)), (((tt, tt), (omega arith, tt)), tt));
}

abbrev small_store : Store
small_store = record empty {
  accounts = set (λ a. none) address rich;
  slots = set_slot (λ a s. none) address (replicate 32 1) 5;
}

small_state-written :
    write_hashed_state store_db store_tables plain_sorting empty small_state ≡ ok small_store
unfolding write_hashed_state put_accounts put_slots iter_accounts iter_storage get compare_bytes
small_state-written = refl

write_hashed_state_lem_example :
    ((a : B256) → small_store.accounts a ≡ get a (iter_accounts plain_sorting small_state))
    × ((a s : B256)
        → small_store.slots a s
          ≡ slot_after
              (get a (iter_accounts plain_sorting small_state))
              none
              (get s (iter_storage plain_sorting small_state a)))
write_hashed_state_lem_example =
    write_hashed_state_lem store_db store_tables store_tables-IsHashedTables plain_sorting
      small_state empty small_store small_state-WellFormed (λ a. refl) (λ a s. refl)
      small_state-written
