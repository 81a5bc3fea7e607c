-- ===== src/Alloc/Human.antt =====
-- `human_bytes` of crates/bench/src/alloc.rs. An `f64` that holds a byte count is the natural number
-- that it is; dividing it by 1024 is exact, so the value is kept as that number over a power of 1024.
pub mod Float
pub mod Printed
use Prim.Native.String.{String, ◌++◌ as ◌<>◌}
use native.Mathlib.Nat.{
  pow-suc, div-add-mod, mod-lt, mul_comm, suc-mul, mul-one, one-le-pow, mul-le-mul_right,
}
use reth_trie_rebuild_bench.Base.Decimal.{text_of, decimal}
use reth_trie_rebuild_bench.Base.{
  List, [], ◌∷◌, get_or, ℕ, zero, suc, ◌+◌, ◌*◌, ◌/◌, ◌%◌, ◌^◌, ◌≤◌, ◌<◌, ◌≡◌, refl, sym, ap, ◌∙◌,
  true, false, ltb, leb, ◌==◌, if◌then◌else◌, arith, dec_lt, ◌⊎◌, inl, inr, Bool-cases,
}

-- `n / d`, rounded to the nearest number, and between two of them to the even one.
unfoldable pub round_half_even : ℕ → ℕ → ℕ
round_half_even n d =
    let q = n / d in
    let r = n % d in
    if ltb (2 * r) d
    then q
    else (if ltb d (2 * r) then q + 1 else (if q % 2 == 0 then q else q + 1))

-- How many low bits a number below `2 ^ (53 + fuel)` has over the 53 of an `f64`'s mantissa.
unfoldable pub excess_bits : ℕ → ℕ → ℕ
excess_bits zero n = 0
excess_bits (suc fuel) n =
    let more = excess_bits fuel (n / 2) in if ltb n (2 ^ 53) then 0 else suc more

-- `bytes as f64`
unfoldable pub to_f64 : ℕ → ℕ
to_f64 bytes = let step = 2 ^ excess_bits 11 bytes in round_half_even bytes step * step

-- What is printed: hundredths of a unit, and the unit's place in `UNITS`.
pub record Human : Type 0 where
  pub hundredths : ℕ
  pub unit : ℕ

-- The loop, for at most `left` rounds: the value is `value` over `scale`.
unfoldable pub pick_unit : ℕ → ℕ → ℕ → ℕ → ℕ × ℕ
pick_unit zero value scale unit = (scale, unit)
pick_unit (suc left) value scale unit =
    let next = pick_unit left value (scale * 1024) (unit + 1) in
    if leb (1024 * scale) value then next else (scale, unit)

unfoldable pub human_size : ℕ → Human
human_size bytes =
    let value = to_f64 bytes in
    let (scale, unit) = pick_unit 4 value 1 0 in
    record { hundredths = round_half_even (value * 100) scale; unit = unit }

-- `UNITS`
abbrev pub units : List String
units = "B" ∷ "KiB" ∷ "MiB" ∷ "GiB" ∷ "TiB" ∷ []

-- `format!("{value:.2} {}", UNITS[unit])`
abbrev pub human_text : Human → String
human_text h =
    let cents = h.hundredths % 100 in
    decimal (h.hundredths / 100)
    <> ("." <> (text_of (cents / 10 ∷ cents % 10 ∷ []) <> (" " <> get_or units h.unit "")))

unfoldable pub human_bytes : ℕ → String
human_bytes bytes = human_text (human_size bytes)
