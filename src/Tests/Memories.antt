-- ===== src/Tests/Memories.antt =====
-- The in-memory state.
use reth_trie_rebuild_bench.Base.{◌≡◌, none, List, [], ◌∷◌}
use reth_trie_rebuild_bench.Base.Dict
use reth_trie_rebuild_bench.Base.SortedMap.{get}
use reth_trie_rebuild_bench.Trie.{B256, digits_eq}
use reth_trie_rebuild_bench.Memory.{
  Sorting, Account, HashedPostState, new_state, sorted, post_state, iter_accounts, Use, account,
  slot, sort, apply_all, Cursors, provider_factory,
}
use reth_trie_rebuild_bench.Memory.Slots.{
  WellFormed, last_account, last_value, value_of, apply_all_lem,
}
use reth_trie_rebuild_bench.Memory.Cache.{as_account, as_storage, sorted_lem}
use reth_trie_rebuild_bench.Tests.Data.{address}

-- A sorted post-state that is the post-state.
abbrev pub unsorted : Sorting
unsorted = record { HashedPostStateSorted = HashedPostState; into_sorted = λ post. post }

-- A cursor factory that is the post-state.
abbrev whole : Cursors unsorted
whole = record { CursorFactory = HashedPostState; over = λ post. post }

abbrev owner : Account
owner = record { nonce = 1; balance = 5; bytecode_hash = none }

-- A slot is set, read in sorted form and cleared again.
abbrev uses : List (Use unsorted)
uses =
    account address owner
    ∷ slot address (9 ∷ []) 7
    ∷ slot address (3 ∷ []) 4
    ∷ sort
    ∷ slot address (9 ∷ []) 0
    ∷ []

apply_all_lem_example :
    WellFormed unsorted (apply_all unsorted (new_state unsorted) uses)
    × ((a : B256)
        → get a (iter_accounts unsorted (apply_all unsorted (new_state unsorted) uses))
          ≡ last_account a none uses)
    × ((a k : B256)
        → value_of unsorted (apply_all unsorted (new_state unsorted) uses) a k
          ≡ last_value a k 0 uses)
apply_all_lem_example = apply_all_lem unsorted uses

sorted_lem_example :
    let s = apply_all unsorted (new_state unsorted) uses in
    ((sorted unsorted s).1 ≡ post_state unsorted s)
    × ((provider_factory unsorted whole s).1.factory ≡ post_state unsorted s)
    × ((a : B256) → Dict.lookup a (post_state unsorted s).accounts ≡ as_account (get a s.accounts))
    × ((a : B256) → Dict.lookup a (post_state unsorted s).storages ≡ as_storage (get a s.storages))
sorted_lem_example = sorted_lem unsorted whole uses
