-- ===== src/Synth/Shape.antt =====
-- A synthetic state exists, and how large it is.
use reth_trie_rebuild_bench.Base.{
  ℕ, zero, suc, ◌+◌, ◌*◌, ◌%◌, ◌≤◌, ◌<◌, ◌≡◌, refl, none, some, List, [], ◌∷◌, ◌++◌, length,
  length-append, arith,
}
use reth_trie_rebuild_bench.Base.Dict.{Dict}
use reth_trie_rebuild_bench.Base.SortedMap.{get, insert}
use reth_trie_rebuild_bench.Trie.{B256}
use reth_trie_rebuild_bench.Memory.{
  Account, Sorting, MemoryState, Slots, or_empty, set_slot, new_state, insert_account,
  insert_storage, account_count, storage_count, count_slots, account, slot, apply,
}
use reth_trie_rebuild_bench.Memory.Slots.{WellFormed, apply-WellFormed, new_state-WellFormed}
use reth_trie_rebuild_bench.Synth.{
  SynthConfig, next_u64, next_b256, below, small_sizes, insert_eoas, insert_slots, insert_contracts,
  synthesize,
}

length-insert :
    {V : Type 0} (k : B256) (v : V) (d : Dict B256 V) → length (insert k v d) ≤ length d + 1
unfolding insert
length-insert k v [] = omega arith
length-insert k v ((j, w) ∷ d) = ground (arith, length-insert k v d)

length-set_slot : (d : Slots) (k : B256) (v : ℕ) → length (set_slot d k (suc v)) ≤ length d + 1
unfolding set_slot
length-set_slot d k v = length-insert k (suc v) d

-- An insertion puts one account's slots in place of those it had.
count_slots-insert :
    (a : B256) (slots : Slots) (d : Dict B256 Slots)
    → count_slots (insert a slots d) + length (or_empty (get a d)) ≡ count_slots d + length slots
unfolding count_slots insert get
count_slots-insert a slots [] = omega arith
count_slots-insert a slots ((j, old) ∷ d) = ground (arith, count_slots-insert a slots d)

below_total : (rng n : ℕ) → (t : ℕ × ℕ) × (below rng (suc n) ≡ some t) × (t.1 ≤ n)
unfolding below
below_total rng n = (((next_u64 rng).0, (next_u64 rng).1 % suc n), refl, omega arith)

abbrev pub sum : List ℕ → ℕ
sum [] = 0
sum (x ∷ xs) = x + sum xs

sum-append : (xs ys : List ℕ) → sum (xs ++ ys) ≡ sum xs + sum ys
sum-append [] ys = omega arith
sum-append (x ∷ xs) ys = omega (arith, sum-append xs ys)

small_sizes_total :
    (n max rng : ℕ)
    → (t : ℕ × List ℕ) × (small_sizes n (suc max) rng ≡ some t)
      × (length t.1 ≡ n)
      × (sum t.1 ≤ n * suc max)
unfolding small_sizes
small_sizes_total zero max rng = ((rng, []), refl, refl, omega arith)
small_sizes_total (suc n) max rng =
    let ((rng₁, slots), e, le) = below_total rng max in
    let ((rng₂, rest), f, count, total) = small_sizes_total n max rng₁ in
    ((rng₂, (1 + slots) ∷ rest), rw e (rw f), omega (arith, count), grind (arith, total, le))

small_sizes_pos :
    (n max rng : ℕ)
    → 0 < max
    → (t : ℕ × List ℕ) × (small_sizes n max rng ≡ some t) × (length t.1 ≡ n) × (sum t.1 ≤ n * max)
small_sizes_pos n zero rng pos = absurd (omega arith)
small_sizes_pos n (suc max) rng pos = small_sizes_total n max rng

small_sizes-none : (n rng : ℕ) → 0 < n → small_sizes n 0 rng ≡ none
unfolding small_sizes below
small_sizes-none zero rng pos = absurd (omega arith)
small_sizes-none (suc n) rng pos = refl

module _ (r : Sorting) where
  -- The state after no more than `n` insertions of accounts and `m` of slots.
  pub record Within (n m : ℕ) (s : MemoryState r) : Type 0 where
    pub well_formed : WellFormed r s
    pub accounts : account_count r s ≤ n
    pub slots : storage_count r s ≤ m

  new_state-Within : Within 0 0 (new_state r)
  unfolding account_count storage_count count_slots
  new_state-Within = record {
    well_formed = new_state-WellFormed r;
    accounts = omega arith;
    slots = omega arith;
  }

  insert_account-Within :
      (n m : ℕ) (s : MemoryState r) (a : B256) (v : Account)
      → Within n m s
      → Within (n + 1) m (insert_account r s a v)
  unfolding account_count storage_count insert_account
  insert_account-Within n m s a v h = record {
    well_formed = unfold apply in apply-WellFormed r s (account a v) h.well_formed;
    accounts = omega (arith, length-insert a v s.accounts, h.accounts);
    slots = h.slots;
  }

  insert_storage-Within :
      (n m : ℕ) (s : MemoryState r) (a k : B256) (v : ℕ)
      → Within n m s
      → Within n (m + 1) (insert_storage r s a k (suc v))
  unfolding account_count storage_count insert_storage
  insert_storage-Within n m s a k v h =
      let old = or_empty (get a s.storages) in
      record {
        well_formed = unfold apply in apply-WellFormed r s (slot a k (suc v)) h.well_formed;
        accounts = h.accounts;
        slots = omega (
          arith,
          count_slots-insert a (set_slot old k (suc v)) s.storages,
          length-set_slot old k v,
          h.slots,
        );
      }

  insert_eoas_total :
      (n a m rng : ℕ) (s : MemoryState r)
      → Within a m s
      → (t : ℕ × MemoryState r) × (insert_eoas r n rng s ≡ some t) × Within (a + n) m t.1
  unfolding insert_eoas
  insert_eoas_total zero a m rng s h =
      let same : a + 0 ≡ a = omega arith in ((rng, s), refl, rw same h)
  insert_eoas_total (suc n) a m rng s h =
      let (rng₁, address) = next_b256 rng in
      let ((rng₂, nonce), e, le) = below_total rng₁ 49 in
      let (rng₃, balance) = next_u64 rng₂ in
      let owner =
        insert_account r s address
          (record { nonce = nonce; balance = balance; bytecode_hash = none }) in
      let (t, f, w) =
        insert_eoas_total n (a + 1) m rng₃ owner (insert_account-Within a m s address _ h) in
      let total : a + 1 + n ≡ a + suc n = omega arith in (t, rw e f, rw total at w)

  insert_slots_total :
      (n : ℕ) (address : B256) (a m rng : ℕ) (s : MemoryState r)
      → Within a m s
      → (t : ℕ × MemoryState r) × (insert_slots r n address rng s ≡ some t) × Within a (m + n) t.1
  unfolding insert_slots
  insert_slots_total zero address a m rng s h =
      let same : m + 0 ≡ m = omega arith in ((rng, s), refl, rw same h)
  insert_slots_total (suc n) address a m rng s h =
      let ((rng₁, value), e, le) = below_total rng 0xFFFF_FFFE in
      let (rng₂, hashed_slot) = next_b256 rng₁ in
      let one_more : 1 + value ≡ suc value = omega arith in
      let t = insert_storage r s address hashed_slot (1 + value) in
      let within : Within a (m + 1) t =
        rw one_more (insert_storage-Within a m s address hashed_slot value h) in
      let (u, f, w) = insert_slots_total n address a (m + 1) rng₂ t within in
      let total : m + 1 + n ≡ m + suc n = omega arith in (u, rw e f, rw total at w)

  insert_contracts_total :
      (sizes : List ℕ) (a m rng : ℕ) (s : MemoryState r)
      → Within a m s
      → (t : ℕ × MemoryState r) × (insert_contracts r sizes rng s ≡ some t)
        × Within (a + length sizes) (m + sum sizes) t.1
  unfolding insert_contracts
  insert_contracts_total [] a m rng s h =
      let no_account : a + 0 ≡ a = omega arith in
      let no_slot : m + 0 ≡ m = omega arith in ((rng, s), refl, rw (no_account, no_slot) h)
  insert_contracts_total (slots ∷ sizes) a m rng s h =
      let (rng₁, address) = next_b256 rng in
      let ((rng₂, balance), e, le) = below_total rng₁ 999_999 in
      let (rng₃, code) = next_b256 rng₂ in
      let owner =
        insert_account r s address
          (record { nonce = 1; balance = balance; bytecode_hash = some code }) in
      let (t, f, w) =
        insert_slots_total slots address (a + 1) m rng₃ owner
          (insert_account-Within a m s address _ h) in
      let (u, g, v) = insert_contracts_total sizes (a + 1) (m + slots) t.0 t.1 w in
      let accounts : a + 1 + length sizes ≡ a + length (slots ∷ sizes) = omega arith in
      let total : m + slots + sum sizes ≡ m + sum (slots ∷ sizes) = omega arith in
      (u, rw e (rw f g), rw (accounts, total) at v)

  Within-mono : (a b m n : ℕ) (s : MemoryState r) → a ≤ b → m ≤ n → Within a m s → Within b n s
  Within-mono a b m n s h k w = record {
    well_formed = w.well_formed;
    accounts = omega (arith, h, w.accounts);
    slots = omega (arith, k, w.slots);
  }

  -- A configuration with a positive bound for small contracts gives a state. It is well formed, has
  -- no more accounts than the configuration names, and no more slots than the small contracts at
  -- their bound and the large ones.
  pub synthesize_total :
      (config : SynthConfig)
      → 0 < config.small_slots_max
      → (s : MemoryState r) × (synthesize r config ≡ some s)
        × Within
            (config.eoas + config.small_contracts + length config.large_contracts)
            (config.small_contracts * config.small_slots_max + sum config.large_contracts)
            s
  unfolding synthesize
  synthesize_total config pos =
      let ((rng₁, s₁), e₁, w₁) =
        insert_eoas_total config.eoas 0 0 config.seed (new_state r) new_state-Within in
      let ((rng₂, sizes), e₂, count, total) =
        small_sizes_pos config.small_contracts config.small_slots_max rng₁ pos in
      let all = sizes ++ config.large_contracts in
      let ((rng₃, s₃), e₃, w₃) = insert_contracts_total all (0 + config.eoas) 0 rng₂ s₁ w₁ in
      (
        s₃,
        rw e₁ (rw e₂ (rw e₃)),
        Within-mono (0 + config.eoas + length all) _ (0 + sum all) _ s₃
            (omega (arith, count, length-append sizes config.large_contracts))
            (omega (arith, total, sum-append sizes config.large_contracts)) w₃,
      )

  -- With small contracts and no slots for them, there is a panic.
  pub synthesize-none :
      (config : SynthConfig)
      → 0 < config.small_contracts
      → config.small_slots_max ≡ 0
      → synthesize r config ≡ none
  unfolding synthesize
  synthesize-none config pos e =
      let ((rng₁, s₁), e₁, w₁) =
        insert_eoas_total config.eoas 0 0 config.seed (new_state r) new_state-Within in
      rw e₁ (rw (e, small_sizes-none config.small_contracts rng₁ pos))
