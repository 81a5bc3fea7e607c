-- ===== src/Tests/Synths.antt =====
-- The generator and synthetic states.
use reth_trie_rebuild_bench.Base.{ℕ, ◌+◌, ◌*◌, ◌≡◌, refl, none, some, [], ◌∷◌, arith}
use reth_trie_rebuild_bench.Memory.{MemoryState}
use reth_trie_rebuild_bench.Synth.{SynthConfig, default_config, mix, advance, next_u64, synthesize}
use reth_trie_rebuild_bench.Synth.Period.{word, word_injective}
use reth_trie_rebuild_bench.Synth.Shape.{Within, sum, synthesize_total, synthesize-none}
use reth_trie_rebuild_bench.Tests.Memories.{unsorted}

-- The first words from the seed 1234567 that SplitMix64's reference implementation prints.
words :
    (word 0 1234567 ≡ 6457827717110365317)
    × (word 1 1234567 ≡ 3203168211198807973)
    × (word 2 1234567 ≡ 9817491932198370423)
unfolding next_u64 mix advance
words = (refl, refl, refl)

word_injective_example : ◌≡◌ {A = ℕ} 1 1
word_injective_example = word_injective 7 1 1 (omega arith) (omega arith) (omega arith) refl

synthesize_total_example :
    (s : MemoryState unsorted) × (synthesize unsorted default_config ≡ some s)
    × Within unsorted (2_000 + 200 + 1) (200 * 16 + sum (5_000 ∷ [])) s
synthesize_total_example = synthesize_total unsorted default_config (omega arith)

abbrev no_slots : SynthConfig
no_slots = record default_config { small_slots_max = 0 }

synthesize-none_example : synthesize unsorted no_slots ≡ none
synthesize-none_example = synthesize-none unsorted no_slots (omega arith) refl
