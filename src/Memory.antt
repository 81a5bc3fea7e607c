-- ===== src/Memory.antt =====
-- crates/bench/src/memory.rs: the hashed state held in ordered maps. `HashedPostState::into_sorted`
-- is reth's and a parameter, as are the type of what it makes and the cursor factory over that.
pub mod Slots
pub mod Cache
use reth_trie_rebuild_bench.Base.{
  ℕ, zero, suc, ◌+◌, Bool, true, false, Option, none, some, List, [], ◌∷◌, length, ◌==◌,
  if◌then◌else◌,
}
use reth_trie_rebuild_bench.Base.Dict
use reth_trie_rebuild_bench.Base.Dict.{Dict}
use reth_trie_rebuild_bench.Base.SortedMap.{get, insert, remove}
use reth_trie_rebuild_bench.Trie.{B256, digits_eq}

-- reth's account
pub record Account : Type 0 where
  pub nonce : ℕ
  pub balance : ℕ
  pub bytecode_hash : Option B256

abbrev pub Slots : Type 0
Slots = Dict B256 ℕ

-- `HashedPostState`, of which the storages are not wiped
pub record HashedPostState : Type 0 where
  pub accounts : Dict B256 (Option Account)
  pub storages : Dict B256 Slots

-- `HashedPostState::into_sorted`
pub record Sorting : Type 1 where
  pub HashedPostStateSorted : Type 0
  pub into_sorted : HashedPostState → HashedPostStateSorted

abbrev pub or_empty : Option Slots → Slots
or_empty none = []
or_empty (some slots) = slots

-- `if value.is_zero()`
unfoldable pub set_slot : Slots → B256 → ℕ → Slots
set_slot slots hashed_slot zero = remove hashed_slot slots
set_slot slots hashed_slot (suc n) = insert hashed_slot (suc n) slots

-- The loops of `sorted`, over the accounts and over the storages.
unfoldable pub post_accounts :
    Dict B256 (Option Account) → Dict B256 Account → Dict B256 (Option Account)
post_accounts post [] = post
post_accounts post ((addr, account) ∷ accounts) =
    post_accounts (Dict.insert addr (some account) post) accounts

unfoldable pub post_storages : Dict B256 Slots → Dict B256 Slots → Dict B256 Slots
post_storages post [] = post
post_storages post ((addr, []) ∷ storages) = post_storages post storages
post_storages post ((addr, slot ∷ slots) ∷ storages) =
    post_storages (Dict.insert addr (Dict.extend [] (slot ∷ slots)) post) storages

-- The sum of `storage_count`.
unfoldable pub count_slots : Dict B256 Slots → ℕ
count_slots [] = 0
count_slots ((_, slots) ∷ storages) = length slots + count_slots storages

module _ (r : Sorting) where
  pub record MemoryState : Type 0 where
    pub accounts : Dict B256 Account
    pub storages : Dict B256 Slots
    -- the `OnceLock`
    pub sorted : Option r.HashedPostStateSorted

  abbrev pub new_state : MemoryState
  new_state = record { accounts = []; storages = []; sorted = none }

  unfoldable pub insert_account : MemoryState → B256 → Account → MemoryState
  insert_account s hashed_address account = record s {
    sorted = none;
    accounts = insert hashed_address account s.accounts;
  }

  unfoldable pub insert_storage : MemoryState → B256 → B256 → ℕ → MemoryState
  insert_storage s hashed_address hashed_slot value =
      let slots = or_empty (get hashed_address s.storages) in
      record s {
        sorted = none;
        storages = insert hashed_address (set_slot slots hashed_slot value) s.storages;
      }

  unfoldable pub account_count : MemoryState → ℕ
  account_count s = length s.accounts

  unfoldable pub storage_count : MemoryState → ℕ
  storage_count s = count_slots s.storages

  unfoldable pub iter_accounts : MemoryState → List (B256 × Account)
  iter_accounts s = s.accounts

  unfoldable pub iter_storage : MemoryState → B256 → List (B256 × ℕ)
  iter_storage s hashed_address = or_empty (get hashed_address s.storages)

  abbrev pub post_state : MemoryState → HashedPostState
  post_state s = record {
    accounts = post_accounts [] s.accounts;
    storages = post_storages [] s.storages;
  }

  -- `get_or_init`: the state with the cache filled, and what the cache holds.
  unfoldable pub sorted : MemoryState → MemoryState × r.HashedPostStateSorted
  sorted s = elim s.sorted [
    | some built ↦ (s, built)
    | none ↦ let built = r.into_sorted (post_state s) in (record s { sorted = some built }, built)
  ]

  -- A use of the state by its owner.
  pub data Use : Type 0 where
    account : (hashed_address : B256) (account : Account) → Use
    slot : (hashed_address hashed_slot : B256) (value : ℕ) → Use
    sort : Use

  unfoldable pub apply : MemoryState → Use → MemoryState
  apply s (account hashed_address value) = insert_account s hashed_address value
  apply s (slot hashed_address hashed_slot value) =
      insert_storage s hashed_address hashed_slot value
  apply s sort = (sorted s).0

  unfoldable pub apply_all : MemoryState → List Use → MemoryState
  apply_all s [] = s
  apply_all s (u ∷ us) = apply_all (apply s u) us

  -- reth's `HashedPostStateCursorFactory` over no cursors and a sorted state, and a factory that
  -- serves every partition with a clone of one.
  pub record Cursors : Type 1 where
    pub CursorFactory : Type 0
    pub over : r.HashedPostStateSorted → CursorFactory

  pub record SharedCursorFactory (H : Type 0) : Type 0 where
    pub factory : H

  -- The state with its cache filled, and the factory over what the cache holds.
  unfoldable pub cursor_factory : (C : Cursors) → MemoryState → MemoryState × C.CursorFactory
  cursor_factory C s = let (t, built) = sorted s in (t, C.over built)

  unfoldable pub provider_factory :
      (C : Cursors) → MemoryState → MemoryState × SharedCursorFactory C.CursorFactory
  provider_factory C s = let (t, factory) = cursor_factory C s in (t, record { factory = factory })
