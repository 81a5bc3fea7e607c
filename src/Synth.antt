-- ===== src/Synth.antt =====
-- crates/bench/src/synth.rs: synthetic states from a seed. `none` is the panic of a remainder by
-- zero, which `small_slots_max: 0` causes.
pub mod Period
pub mod Shape
use reth_trie_rebuild_bench.Base.{
  ℕ, zero, suc, ◌+◌, ◌*◌, ◌/◌, ◌%◌, ◌^◌, bit_xor, Option, none, some, List, [], ◌∷◌, ◌++◌,
}
use reth_trie_rebuild_bench.Base.Options.{◌>>=◌}
use reth_trie_rebuild_bench.Trie.{B256}
use reth_trie_rebuild_bench.Memory.{
  Account, Sorting, MemoryState, new_state, insert_account, insert_storage,
}

pub record SynthConfig : Type 0 where
  pub seed : ℕ
  pub eoas : ℕ
  pub small_contracts : ℕ
  pub small_slots_max : ℕ
  pub large_contracts : List ℕ

abbrev pub default_config : SynthConfig
default_config = record {
  seed = 1;
  eoas = 2_000;
  small_contracts = 200;
  small_slots_max = 16;
  large_contracts = 5_000 ∷ [];
}

abbrev pub golden : ℕ
golden = 0x9E37_79B9_7F4A_7C15

abbrev pub mul_first : ℕ
mul_first = 0xBF58_476D_1CE4_E5B9

abbrev pub mul_second : ℕ
mul_second = 0x94D0_49BB_1331_11EB

-- `z ^ (z >> k)`
abbrev pub xor_shift : ℕ → ℕ → ℕ
xor_shift k z = bit_xor z (z / 2 ^ k)

-- `z.wrapping_mul(m)`
abbrev pub wrapping_mul : ℕ → ℕ → ℕ
wrapping_mul m z = z * m % 2 ^ 64

-- What `next_u64` makes of the state that it has advanced to.
unfoldable pub mix : ℕ → ℕ
mix z =
    xor_shift 31 (wrapping_mul mul_second (xor_shift 27 (wrapping_mul mul_first (xor_shift 30 z))))

unfoldable pub advance : ℕ → ℕ
advance rng = (rng + golden) % 2 ^ 64

-- The generator after the call comes first, as with all that draw from it.
unfoldable pub next_u64 : ℕ → ℕ × ℕ
next_u64 rng = let rng' = advance rng in (rng', mix rng')

-- `u64::to_le_bytes`, for the lowest `n` bytes
unfoldable pub le_bytes : ℕ → ℕ → List ℕ
le_bytes zero z = []
le_bytes (suc n) z = (z % 256) ∷ le_bytes n (z / 256)

-- The loop over `n` chunks of eight bytes.
unfoldable pub chunks : ℕ → ℕ → ℕ × B256
chunks zero rng = (rng, [])
chunks (suc n) rng =
    let (rng', z) = next_u64 rng in
    let (rng'', rest) = chunks n rng' in (rng'', le_bytes 8 z ++ rest)

unfoldable pub next_b256 : ℕ → ℕ × B256
next_b256 rng = chunks 4 rng

unfoldable pub below : ℕ → ℕ → Option (ℕ × ℕ)
below rng zero = none
below rng (suc n) = let (rng', z) = next_u64 rng in some (rng', z % suc n)

-- The map and `collect` of `contract_sizes`.
unfoldable pub small_sizes : ℕ → ℕ → ℕ → Option (ℕ × List ℕ)
small_sizes zero max rng = some (rng, [])
small_sizes (suc n) max rng = do
  (rng, slots) ← below rng max
  (rng, rest) ← small_sizes n max rng
  some (rng, (1 + slots) ∷ rest)

module _ (r : Sorting) where
  -- The loop over the externally owned accounts.
  unfoldable pub insert_eoas : ℕ → ℕ → MemoryState r → Option (ℕ × MemoryState r)
  insert_eoas zero rng s = some (rng, s)
  insert_eoas (suc n) rng s = do
    let (rng, hashed_address) = next_b256 rng
    (rng, nonce) ← below rng 50
    let (rng, balance) = next_u64 rng
    insert_eoas n rng (
        insert_account r s hashed_address
          (record { nonce = nonce; balance = balance; bytecode_hash = none }))

  -- The loop over a contract's slots.
  unfoldable pub insert_slots : ℕ → B256 → ℕ → MemoryState r → Option (ℕ × MemoryState r)
  insert_slots zero hashed_address rng s = some (rng, s)
  insert_slots (suc n) hashed_address rng s = do
    (rng, value) ← below rng 0xFFFF_FFFF
    let (rng, hashed_slot) = next_b256 rng
    insert_slots n hashed_address rng (insert_storage r s hashed_address hashed_slot (1 + value))

  -- The loop over the contracts' sizes.
  unfoldable pub insert_contracts : List ℕ → ℕ → MemoryState r → Option (ℕ × MemoryState r)
  insert_contracts [] rng s = some (rng, s)
  insert_contracts (slots ∷ sizes) rng s = do
    let (rng, hashed_address) = next_b256 rng
    (rng, balance) ← below rng 1_000_000
    let (rng, code) = next_b256 rng
    (rng, s) ← insert_slots slots hashed_address rng (
        insert_account r s hashed_address
          (record { nonce = 1; balance = balance; bytecode_hash = some code }))
    insert_contracts sizes rng s

  unfoldable pub synthesize : SynthConfig → Option (MemoryState r)
  synthesize config = do
    (rng, s) ← insert_eoas config.eoas config.seed (new_state r)
    (rng, sizes) ← small_sizes config.small_contracts config.small_slots_max rng
    (rng, s) ← insert_contracts (sizes ++ config.large_contracts) rng s
    some s
