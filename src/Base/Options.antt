-- ===== src/Base/Options.antt =====
-- `Option<T>` and `?`.
use mathlib.Core.Path.{◌≡◌, refl}
use mathlib.Core.Option.{Option, none, some}

infixl 5 ◌>>=◌
abbrev pub ◌>>=◌ {ℓ κ} : {A : Type ℓ} {B : Type κ} → Option A → (A → Option B) → Option B
none >>= next = none
some value >>= next = next value

-- A chain that gives a value has a first step that does.
pub >>=-eq-some {ℓ κ} :
    {A : Type ℓ} {B : Type κ} (first : Option A) (next : A → Option B) {result : B}
    → (first >>= next) ≡ some result
    → (value : A) × (first ≡ some value) × (next value ≡ some result)
>>=-eq-some none next h = cc
>>=-eq-some (some value) next h = (value, refl, h)
