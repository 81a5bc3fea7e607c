-- ===== src/Trie/Distinct.antt =====
-- Lists of nodes in which no account and path stands twice: their order does not matter.
use mathlib.Core.HLevel.{×_prop}
use mathlib.Core.Logic.{∥∥₁_elim}
use mathlib.Core.List.{Permᴰ}
use reth_trie_rebuild_bench.Base.{
  ◌≡◌, refl, sym, subst, ◌∙◌, ◌⊎◌, inl, inr, Option, none, some, List, [], ◌∷◌, ◌++◌, Perm, arith,
}
use reth_trie_rebuild_bench.Base.Dict.{override}
use reth_trie_rebuild_bench.Trie.{B256, Nibbles, Node}
use reth_trie_rebuild_bench.Trie.Nodes.{emitted_at, emitted_at-cons, override_assoc, none-override}

-- No account and path is emitted twice.
abbrev pub Distinct : List Node → Type 0
Distinct [] = Unit
Distinct (e ∷ es) = (emitted_at es e.0 e.1 ≡ none) × Distinct es

pub emitted_at_symm :
    (e : Node) (f : Node) (fs : List Node)
    → emitted_at (f ∷ fs) e.0 e.1 ≡ none
    → (emitted_at (e ∷ []) f.0 f.1 ≡ none) × (emitted_at fs e.0 e.1 ≡ none)
unfolding emitted_at
emitted_at_symm (none, p, n) (none, q, m) fs h = ground arith
emitted_at_symm (none, p, n) (some b, q, m) fs h = ground arith
emitted_at_symm (some a, p, n) (none, q, m) fs h = ground arith
emitted_at_symm (some a, p, n) (some b, q, m) fs h = ground arith

pub emitted_at-append :
    (es fs : List Node) (a : Option B256) (p : Nibbles)
    → emitted_at (es ++ fs) a p ≡ override (emitted_at es a p) (emitted_at fs a p)
emitted_at-append [] fs a p = sym (none-override (emitted_at fs a p)) ∙ unfold emitted_at in refl
emitted_at-append (e ∷ es) fs a p =
    emitted_at-cons e (es ++ fs) a p
    ∙ rw (emitted_at-append es fs a p, emitted_at-cons e es a p)
        (sym (override_assoc (emitted_at (e ∷ []) a p) (emitted_at es a p) (emitted_at fs a p)))

pub override-none : {V : Type 0} (x y : Option V) → override x y ≡ none → x ≡ none
override-none x none h = h
override-none x (some v) h = cc

pub Distinct-append : (es fs : List Node) → Distinct (es ++ fs) → Distinct es × Distinct fs
Distinct-append [] fs h = (tt, h)
Distinct-append (e ∷ es) fs h =
    let (d, d') = Distinct-append es fs h.1 in
    let both : override (emitted_at es e.0 e.1) (emitted_at fs e.0 e.1) ≡ none =
      sym (emitted_at-append es fs e.0 e.1) ∙ h.0 in
    ((override-none (emitted_at es e.0 e.1) (emitted_at fs e.0 e.1) both, d), d')

-- Two nodes in different places do not both have a given place.
one_place :
    (e f : Node) (a : Option B256) (p : Nibbles)
    → emitted_at (f ∷ []) e.0 e.1 ≡ none
    → (emitted_at (e ∷ []) a p ≡ none) ⊎ (emitted_at (f ∷ []) a p ≡ none)
unfolding emitted_at
one_place (none, q, n) (none, r, m) none p h = ground arith
one_place (some b, q, n) (some c, r, m) (some a) p h = ground arith
one_place (some b, q, n) f none p h = inl refl
one_place (none, q, n) f (some a) p h = inl refl
one_place (none, q, n) (some c, r, m) none p h = inr refl
one_place (some b, q, n) (none, r, m) (some a) p h = inr refl

override_comm :
    {V : Type 0} (x y z : Option V)
    → (x ≡ none) ⊎ (y ≡ none)
    → override x (override y z) ≡ override y (override x z)
override_comm x y none (inl h) = rw (h, none-override y)
override_comm x y none (inr h) = rw (h, none-override x)
override_comm x y (some z) h = refl

swapped :
    (e f : Node) (l : List Node)
    → Distinct (e ∷ f ∷ l)
    → Distinct (f ∷ e ∷ l)
      × ((a : Option B256) (p : Nibbles) → emitted_at (e ∷ f ∷ l) a p ≡ emitted_at (f ∷ e ∷ l) a p)
swapped e f l d =
    let (x, y) = emitted_at_symm e f l d.0 in
    let apart : override (emitted_at (f ∷ []) e.0 e.1) (emitted_at l e.0 e.1) ≡ none =
      sym (emitted_at-cons f l e.0 e.1) ∙ d.0 in
    (
      (emitted_at-cons e l f.0 f.1 ∙ rw (x, d.1.0), (y, d.1.1)),
      λ a p.
          emitted_at-cons e (f ∷ l) a p
          ∙ rw (emitted_at-cons f l a p) (
              override_comm (emitted_at (e ∷ []) a p) (emitted_at (f ∷ []) a p) (emitted_at l a p) (
                one_place e f a p
                  (override-none (emitted_at (f ∷ []) e.0 e.1) (emitted_at l e.0 e.1) apart))
              ∙ rw (← emitted_at-cons e l a p) (sym (emitted_at-cons f (e ∷ l) a p))),
    )

emitted_at-set :
    (es fs : List Node) (a : Option B256) (p : Nibbles)
    → IsProp (emitted_at es a p ≡ emitted_at fs a p)
emitted_at-set es fs a p = hlevel

Distinct-prop : (es : List Node) → IsProp (Distinct es)
Distinct-prop [] = hlevel
Distinct-prop (e ∷ es) = ×_prop (hlevel) (Distinct-prop es)

emitted_at-permᴰ :
    {es fs : List Node}
    → Permᴰ es fs
    → Distinct es
    → Distinct fs × ((a : Option B256) (p : Nibbles) → emitted_at es a p ≡ emitted_at fs a p)
emitted_at-permᴰ Permᴰ.nil d = (tt, λ a p. refl)
emitted_at-permᴰ (Permᴰ.cons {a = e} {b = f} {l₁ = es} {l₂ = fs} h q) d =
    let (d', same) = emitted_at-permᴰ q d.1 in
    (
      (sym (same f.0 f.1) ∙ subst (λ t. emitted_at es t.0 t.1 ≡ none) h d.0, d'),
      λ a p. emitted_at-cons e es a p ∙ rw (h, same a p) (sym (emitted_at-cons f fs a p)),
    )
emitted_at-permᴰ (Permᴰ.swap {a = e} {b = f} {a' = f'} {b' = e'} {l = l} h q) d =
    rw (← h, ← q) (swapped e f l d)
emitted_at-permᴰ (Permᴰ.trans p q) d =
    let (d', same) = emitted_at-permᴰ p d in
    let (d'', same') = emitted_at-permᴰ q d' in (d'', λ a p. same a p ∙ same' a p)

pub emitted_at-perm :
    (es fs : List Node)
    → Perm es fs
    → Distinct es
    → (a : Option B256) (p : Nibbles) → emitted_at es a p ≡ emitted_at fs a p
emitted_at-perm es fs q d a p =
    ∥∥₁_elim q (emitted_at-set es fs a p) (λ t. (emitted_at-permᴰ t d).1 a p)

pub Distinct-perm : (es fs : List Node) → Perm es fs → Distinct es → Distinct fs
Distinct-perm es fs q d = ∥∥₁_elim q (Distinct-prop fs) (λ t. (emitted_at-permᴰ t d).0)
