-- ===== src/Digest/Encoding.antt =====
-- The buffer that `push` hashes: what it tells apart, and how long it gets.
use reth_trie_rebuild_bench.Base.{
  ℕ, ◌+◌, ◌*◌, ◌/◌, ◌%◌, ◌^◌, ◌≤◌, ◌<◌, ◌≡◌, refl, sym, ap, ap₂, ◌∙◌, Option, none, some, List, [],
  ◌∷◌, ◌++◌, arith, All, length, length-append,
}
use reth_trie_rebuild_bench.Trie.{B256, Nibbles, BranchNodeCompact, Node}
use reth_trie_rebuild_bench.Digest.{
  Hashing, or_zero, is_some_byte, be_bytes, hash_bytes, node_bytes, buffer,
}

-- What the packing of a path is documented to do: two nibbles to a byte, the odd one padded.
pub record IsPacking (x : Hashing) : Type 0 where
  pub length-pack : (p : Nibbles) → length (x.pack p) ≡ (length p + 1) / 2
  pub pack_injective :
      (p q : Nibbles)
      → All (λ n. n < 16) p
      → All (λ n. n < 16) q
      → length p ≡ length q
      → x.pack p ≡ x.pack q
      → p ≡ q

abbrev Has32 : Option B256 → Type 0
Has32 none = Unit {0}
Has32 (some h) = length h ≡ 32

-- The ranges of a node's parts: 32-byte hashes, 16-bit masks, a path of at most 64 nibbles.
pub record IsNode (e : Node) : Type 0 where
  pub address : Has32 e.0
  pub path : All (λ n. n < 16) e.1
  pub path_length : length e.1 ≤ 64
  pub state_mask : e.2.state_mask < 2 ^ 16
  pub tree_mask : e.2.tree_mask < 2 ^ 16
  pub hash_mask : e.2.hash_mask < 2 ^ 16
  pub hashes : All (λ h. length h ≡ 32) e.2.hashes
  pub root_hash : Has32 e.2.root_hash

append_injective :
    {A : Type 0} (xs ys : List A) {us vs : List A}
    → length xs ≡ length ys
    → xs ++ us ≡ ys ++ vs
    → (xs ≡ ys) × (us ≡ vs)
append_injective [] [] h e = (refl, e)
append_injective [] (y ∷ ys) h e = absurd (omega arith)
append_injective (x ∷ xs) [] h e = absurd (omega arith)
append_injective (x ∷ xs) (y ∷ ys) {us} {vs} h e =
    let tails : xs ++ us ≡ ys ++ vs = cc in
    let (p, q) = append_injective xs ys (omega arith) tails in (ap₂ ◌∷◌ (cc) p, q)

length-or_zero : (h : Option B256) → Has32 h → length (or_zero h) ≡ 32
length-or_zero none h = refl
length-or_zero (some a) h = h

-- A hash that may be missing is told apart by the flag behind it.
optional_injective :
    (g h : Option B256) {us vs : List ℕ}
    → Has32 g
    → Has32 h
    → or_zero g ++ is_some_byte g ∷ us ≡ or_zero h ++ is_some_byte h ∷ vs
    → (g ≡ h) × (us ≡ vs)
optional_injective g h wg wh e =
    let (p, q) =
      append_injective (or_zero g) (or_zero h) (length-or_zero g wg ∙ sym (length-or_zero h wh))
        e in
    go g h p q
  where
    go :
        (g h : Option B256) {us vs : List ℕ}
        → or_zero g ≡ or_zero h
        → is_some_byte g ∷ us ≡ is_some_byte h ∷ vs
        → (g ≡ h) × (us ≡ vs)
    go none none p q = (refl, cc)
    go none (some b) p q = cc
    go (some a) none p q = cc
    go (some a) (some b) p q = (ap some p, cc)

be_bytes_injective :
    (m n : ℕ) {us vs : List ℕ} → be_bytes m ++ us ≡ be_bytes n ++ vs → (m ≡ n) × (us ≡ vs)
be_bytes_injective m n {us} {vs} e =
    let high : m / 256 ≡ n / 256 = cc in let low : m % 256 ≡ n % 256 = cc in (omega arith, cc)

hash_bytes-ge : (hs : List B256) (vs : List ℕ) → length vs ≡ 33 → 33 ≤ length (hash_bytes hs vs)
hash_bytes-ge [] vs v = omega arith
hash_bytes-ge (h ∷ hs) vs v =
    omega (arith, length-append h (hash_bytes hs vs), hash_bytes-ge hs vs v)

-- The number of hashes is not written; the length of what follows them gives it.
hash_bytes_injective :
    (gs hs : List B256) {us vs : List ℕ}
    → All (λ h. length h ≡ 32) gs
    → All (λ h. length h ≡ 32) hs
    → length us ≡ 33
    → length vs ≡ 33
    → hash_bytes gs us ≡ hash_bytes hs vs
    → (gs ≡ hs) × (us ≡ vs)
hash_bytes_injective [] [] wg wh u v e = (refl, e)
hash_bytes_injective [] (h ∷ hs) {us} {vs} wg wh u v e =
    absurd
      (omega (arith, ap length e, length-append h (hash_bytes hs vs), wh.0, hash_bytes-ge hs vs v))
hash_bytes_injective (g ∷ gs) [] {us} {vs} wg wh u v e =
    absurd
      (omega (arith, ap length e, length-append g (hash_bytes gs us), wg.0, hash_bytes-ge gs us u))
hash_bytes_injective (g ∷ gs) (h ∷ hs) wg wh u v e =
    let (p, q) = append_injective g h (wg.0 ∙ sym wh.0) e in
    let (r, t) = hash_bytes_injective gs hs wg.1 wh.1 u v q in (ap₂ ◌∷◌ p r, t)

length-hash_bytes :
    (hs : List B256) (vs : List ℕ)
    → All (λ h. length h ≡ 32) hs
    → length (hash_bytes hs vs) ≡ 32 * length hs + length vs
length-hash_bytes [] vs w = omega arith
length-hash_bytes (h ∷ hs) vs w =
    omega (arith, length-append h (hash_bytes hs vs), w.0, length-hash_bytes hs vs w.1)

root_bytes : (r : Option B256) → Has32 r → length (or_zero r ++ is_some_byte r ∷ []) ≡ 33
root_bytes r w = omega (arith, length-append (or_zero r) (is_some_byte r ∷ []), length-or_zero r w)

node_bytes_injective :
    (m n : BranchNodeCompact)
    → All (λ h. length h ≡ 32) m.hashes
    → All (λ h. length h ≡ 32) n.hashes
    → Has32 m.root_hash
    → Has32 n.root_hash
    → node_bytes m ≡ node_bytes n
    → m ≡ n
node_bytes_injective m n hm hn rm rn e =
    let (state, e₁) = be_bytes_injective m.state_mask n.state_mask e in
    let (tree, e₂) = be_bytes_injective m.tree_mask n.tree_mask e₁ in
    let (hash, e₃) = be_bytes_injective m.hash_mask n.hash_mask e₂ in
    let (hashes, e₄) =
      hash_bytes_injective m.hashes n.hashes hm hn (root_bytes m.root_hash rm)
        (root_bytes n.root_hash rn) e₃ in
    let (root, _) = optional_injective m.root_hash n.root_hash rm rn e₄ in
    λ i. record {
      state_mask = state i;
      tree_mask = tree i;
      hash_mask = hash i;
      hashes = hashes i;
      root_hash = root i;
    }

module _ (x : Hashing) where
  -- Where packing does what it is documented to do, two nodes with parts in range and the same
  -- buffer have the same account, path, masks, hashes and root hash.
  pub buffer_injective :
      (e f : Node) → IsPacking x → IsNode e → IsNode f → buffer x e ≡ buffer x f → e ≡ f
  unfolding buffer
  buffer_injective (a, p, m) (b, q, n) pk we wf h =
      let (addresses, h₁) = optional_injective a b we.address wf.address h in
      let lengths : length p % 256 ≡ length q % 256 = cc in
      let same : length p ≡ length q = omega (arith, we.path_length, wf.path_length, lengths) in
      let bodies : x.pack p ++ node_bytes m ≡ x.pack q ++ node_bytes n = cc in
      let (packed, h₂) =
        append_injective (x.pack p) (x.pack q)
          (omega (arith, pk.length-pack p, pk.length-pack q, same)) bodies in
      let paths : p ≡ q = pk.pack_injective p q we.path wf.path same packed in
      let bodies_eq : m ≡ n =
        node_bytes_injective m n we.hashes wf.hashes we.root_hash wf.root_hash h₂ in
      λ i. (addresses i, paths i, bodies_eq i)

  -- The buffer of a node with parts in range has 73 bytes, the packed path and 32 bytes for each
  -- hash; with at most 17 hashes it fits the capacity that it is allocated with.
  pub length-buffer :
      (e : Node)
      → IsPacking x
      → IsNode e
      → (length (buffer x e) ≡ 73 + (length e.1 + 1) / 2 + 32 * length e.2.hashes)
        × (length e.2.hashes ≤ 17 → length (buffer x e) ≤ 32 + 1 + 1 + 32 + 6 + 32 * 17 + 33)
  unfolding buffer
  length-buffer (a, p, m) pk w =
      let size : length (buffer x (a, p, m)) ≡ 73 + (length p + 1) / 2 + 32 * length m.hashes =
        omega (
          arith,
          length-append (or_zero a)
              (is_some_byte a ∷ (length p % 256) ∷ (x.pack p ++ node_bytes m)),
          length-or_zero a w.address,
          length-append (x.pack p) (node_bytes m),
          pk.length-pack p,
          length-hash_bytes m.hashes (or_zero m.root_hash ++ is_some_byte m.root_hash ∷ [])
              w.hashes,
          root_bytes m.root_hash w.root_hash,
        ) in
      (size, λ fits. omega (arith, size, w.path_length, fits))
