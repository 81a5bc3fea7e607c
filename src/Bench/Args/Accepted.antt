-- ===== src/Bench/Args/Accepted.antt =====
-- What the command line takes is words, and nothing else.
use Prim.Native.String.{String}
use text.Mathlib.Text.{◌==◌}
use text.Mathlib.TextEquality.{eq_iff}
use reth_trie_rebuild_bench.Base.{
  ◌≡◌, ◌≢◌, refl, sym, ap, ap₂, ◌∙◌, Option, none, some, List, [], ◌∷◌, Option-cases, inl, inr, ◌⊎◌,
  Bool-cases,
}
use reth_trie_rebuild_bench.Trie.{B256}
use reth_trie_rebuild_bench.Bench.Args.{
  Args, default_args, Setting, Switch, Flag, takes, sets, unknown, flag_of, switch_on, parsed,
  check_datadir, store_value, parse_flags, parse_args,
}
use reth_trie_rebuild_bench.Bench.Args.Words.{
  setting_name, switch_name, takes-name, sets-name, Word, switch, setting, words, apply_words,
  after_value, parse_flags-sets, parse_flags-takes, parse_flags-last, parse_flags-unknown,
  apply_words-setting, apply_words-bad,
}

module _ (parse_root : String → Option B256) where
  -- `argv` is words that give `b`.
  abbrev Means : List String → Args → Args → Type 0
  Means argv args b =
      (ws : List Word) × (argv ≡ words ws) × (apply_words parse_root ws args ≡ parsed b)

  Means-switch :
      (s : Switch) (flag : String) (rest : List String) (args b : Args)
      → flag ≡ switch_name s
      → Means rest (switch_on s args) b
      → Means (flag ∷ rest) args b
  Means-switch s flag rest args b name (ws, text, means) = (switch s ∷ ws, ap₂ ◌∷◌ name text, means)

  Means-setting :
      (s : Setting) (flag value : String) (rest : List String) (args args' b : Args)
      → flag ≡ setting_name s
      → store_value parse_root s value args ≡ some args'
      → Means rest args' b
      → Means (flag ∷ value ∷ rest) args b
  Means-setting s flag value rest args args' b name stored (ws, text, means) = (
    setting s value ∷ ws,
    ap₂ ◌∷◌ name (ap (◌∷◌ value) text),
    apply_words-setting parse_root s value ws args args' stored ∙ means,
  )

  Flag-cases :
      (f : Flag) → ((s : Setting) × (f ≡ takes s)) ⊎ (((s : Switch) × (f ≡ sets s)) ⊎ (f ≡ unknown))
  Flag-cases (takes s) = inl (s, refl)
  Flag-cases (sets s) = inr (inl (s, refl))
  Flag-cases unknown = inr (inr refl)

  parse_flags-Means :
      (argv : List String) (args b : Args)
      → parse_flags parse_root argv args ≡ parsed b
      → Means argv args b
  parse_flags-Means [] args b e = unfold parse_flags in ([], refl, e)
  parse_flags-Means (flag ∷ []) args b e = elim (Flag-cases (flag_of flag)) [
    | inl (s, f) ↦ let refused = sym e ∙ parse_flags-last parse_root flag s args f in absurd (cc)
    | inr (inl (s, f)) ↦ Means-switch s flag [] args b (sets-name flag s f) (
        parse_flags-Means [] (switch_on s args) b
          (sym (parse_flags-sets parse_root flag s [] args f) ∙ e))
    | inr (inr f) ↦
        let refused = sym e ∙ parse_flags-unknown parse_root flag [] args f in absurd (cc)
  ]
  parse_flags-Means (flag ∷ value ∷ rest) args b e = elim (Flag-cases (flag_of flag)) [
    | inl (s, f) ↦
        let next = sym (parse_flags-takes parse_root flag s value rest args f) ∙ e in
        elim (Option-cases (store_value parse_root s value args)) [
          | inl bad ↦
              let refused : after_value parse_root s none rest ≡ parsed b = rw bad at next in
              absurd (unfold after_value in cc)
          | inr (args', stored) ↦
              let later : after_value parse_root s (some args') rest ≡ parsed b =
                rw stored at next in
              Means-setting s flag value rest args args' b (takes-name flag s f) stored
                (parse_flags-Means rest args' b (unfold after_value in later))
        ]
    | inr (inl (s, f)) ↦ Means-switch s flag (value ∷ rest) args b (sets-name flag s f) (
        parse_flags-Means (value ∷ rest) (switch_on s args) b
          (sym (parse_flags-sets parse_root flag s (value ∷ rest) args f) ∙ e))
    | inr (inr f) ↦
        let refused = sym e ∙ parse_flags-unknown parse_root flag (value ∷ rest) args f in
        absurd (cc)
  ]

  check_datadir-parsed :
      (args b : Args) → check_datadir args ≡ parsed b → (args ≡ b) × (b.datadir ≢ "")
  unfolding check_datadir
  check_datadir-parsed args b e = elim (Bool-cases (args.datadir == "")) [
    | inl missing ↦ absurd (let refused = rw missing at e in cc)
    | inr named ↦
        let same : parsed args ≡ parsed b = rw named at e in
        let equal : args ≡ b = cc in
        (
          equal,
          λ empty.
              let found = (eq_iff args.datadir "").1 (ap (λ (t : Args). t.datadir) equal ∙ empty) in
              cc,
        )
  ]

  apply_words-datadir :
      (ws : List Word) (args b : Args) → apply_words parse_root ws args ≡ parsed b → b.datadir ≢ ""
  apply_words-datadir [] args b e = (check_datadir-parsed args b e).1
  apply_words-datadir (switch s ∷ ws) args b e = apply_words-datadir ws (switch_on s args) b e
  apply_words-datadir (setting s value ∷ ws) args b e =
      elim (Option-cases (store_value parse_root s value args)) [
        | inl bad ↦
            absurd (let refused = sym e ∙ apply_words-bad parse_root s value ws args bad in cc)
        | inr (args', stored) ↦
            apply_words-datadir ws args' b
              (sym (apply_words-setting parse_root s value ws args args' stored) ∙ e)
      ]

  -- Nothing else is taken: a command line that gives arguments is words that do, and names a data
  -- directory.
  pub parse_args-accepted :
      (argv : List String) (args : Args)
      → parse_args parse_root argv ≡ parsed args
      → ((ws : List Word) × (argv ≡ words ws)
          × (apply_words parse_root ws default_args ≡ parsed args))
        × (args.datadir ≢ "")
  unfolding parse_args
  parse_args-accepted argv args e =
      let (ws, text, means) = parse_flags-Means argv default_args args e in
      ((ws, text, means), apply_words-datadir ws default_args args means)
