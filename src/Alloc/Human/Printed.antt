-- ===== src/Alloc/Human/Printed.antt =====
-- What the printed size says of the byte count.
use native.Mathlib.Nat.{pow-suc, one-le-pow}
use reth_trie_rebuild_bench.Base.{
  ℕ, zero, suc, ◌+◌, ◌*◌, ◌^◌, ◌≤◌, ◌<◌, ◌≡◌, refl, sym, ap, ◌∙◌, true, false, leb, arith, dec_lt,
  ◌⊎◌, inl, inr,
}
use reth_trie_rebuild_bench.Alloc.Human.{
  to_f64, Human, pick_unit, human_size, human_text, human_bytes,
}
use reth_trie_rebuild_bench.Alloc.Human.Float.{round_half_even_lem, IsFloatOf, to_f64-IsFloatOf}

-- A scale and its unit, from `unit` to `top`: the largest of these that the value reaches.
record Picked (value unit top scale u : ℕ) : Type 0 where
  power : scale ≡ 1024 ^ u
  low : unit ≤ u
  high : u ≤ top
  reached : (u ≡ unit) ⊎ (scale ≤ value)
  largest : (u ≡ top) ⊎ (value < 1024 * scale)

pick_unit-Picked :
    (left value scale unit top : ℕ)
    → scale ≡ 1024 ^ unit
    → unit + left ≡ top
    → Picked value unit top (pick_unit left value scale unit).0 (pick_unit left value scale unit).1
unfolding pick_unit
pick_unit-Picked zero value scale unit top e t = record {
  power = e;
  low = omega arith;
  high = omega (arith, t);
  reached = inl refl;
  largest = inl (omega (arith, t));
}
pick_unit-Picked (suc left) value scale unit top e t = elim (dec_lt value (1024 * scale)) [
  | yes below ↦
      let test : leb (1024 * scale) value ≡ false = ground arith in
      rw test (record {
        power = e;
        low = omega arith;
        high = omega (arith, t);
        reached = inl refl;
        largest = inr below;
      })
  | no over ↦
      let test : leb (1024 * scale) value ≡ true = ground arith in
      let power : scale * 1024 ≡ 1024 ^ (unit + 1) =
        ap (λ n. n * 1024) e ∙ sym (pow-suc 1024 unit) ∙ ap (λ n. 1024 ^ n) (omega arith) in
      let next =
        pick_unit-Picked left value (scale * 1024) (unit + 1) top power (omega (arith, t)) in
      rw test (record {
        power = next.power;
        low = omega (arith, next.low);
        high = next.high;
        reached = inr (elim next.reached [
          | inl first ↦ omega (arith, over, next.power ∙ ap (λ n. 1024 ^ n) first ∙ sym power)
          | inr r ↦ r
        ]);
        largest = next.largest;
      })
]

-- What a printed size says of a byte count: in the largest of five units that its float reaches, the
-- nearest number of hundredths.
pub record Shows (bytes : ℕ) (h : Human) : Type 0 where
  pub value : ℕ
  pub float : IsFloatOf bytes value
  pub unit : h.unit ≤ 4
  pub reached : (h.unit ≡ 0) ⊎ (1024 ^ h.unit ≤ value)
  pub largest : (h.unit ≡ 4) ⊎ (value < 1024 * 1024 ^ h.unit)
  pub hundredths :
      (2 * (value * 100) ≤ 2 * (h.hundredths * 1024 ^ h.unit) + 1024 ^ h.unit)
      × (2 * (h.hundredths * 1024 ^ h.unit) ≤ 2 * (value * 100) + 1024 ^ h.unit)

human_size-Shows : (bytes : ℕ) → bytes < 2 ^ 64 → Shows bytes (human_size bytes)
unfolding human_size
human_size-Shows bytes fits =
    let value = to_f64 bytes in
    let (scale, u) = pick_unit 4 value 1 0 in
    let picked = pick_unit-Picked 4 value 1 0 4 refl refl in
    record {
      value = value;
      float = to_f64-IsFloatOf bytes fits;
      unit = picked.high;
      reached = rw picked.power at picked.reached;
      largest = rw picked.power at picked.largest;
      hundredths =
          rw picked.power
            (round_half_even_lem (value * 100) (1024 ^ u) (one-le-pow u 1024 (omega arith)));
    }

-- What is printed for a 64-bit byte count: the count as a float, which is exact below 2^53 and the
-- nearest float above, in the largest unit up to TiB that it reaches, to the nearest hundredth of
-- the unit.
pub human_bytes-Shows :
    (bytes : ℕ) → bytes < 2 ^ 64 → (h : Human) × (human_bytes bytes ≡ human_text h) × Shows bytes h
unfolding human_bytes
human_bytes-Shows bytes fits = (human_size bytes, refl, human_size-Shows bytes fits)
