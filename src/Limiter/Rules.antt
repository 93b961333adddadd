-- ===== src/Limiter/Rules.antt =====
-- limiter/rule.go: the destinations and protocols that a node blocks. The compiled expressions are
-- a parameter, with `compile` for `regexp.MustCompile` (`none` where it panics) and `matches` for
-- `MatchString`.
use v2b_x_turbo.Base.{
  Option-cases, subst, String, Bool, true, false, Option, none, some, List, [], ◌∷◌, ◌==◌,
  string_eq, if◌then◌else◌, ◌≡◌, ◌↔◌, In, inl, inr, refl, arith, Bool-cases,
}
use text.Mathlib.TextEquality.{eq_iff}
use v2b_x_turbo.Panel.Types.{Rules}
use v2b_x_turbo.Limiter.Types.{Limiter}

-- The loop that stops at the first match.
any_matches : {Regex : Type 0} → (Regex → String → Bool) → List Regex → String → Bool
any_matches matches [] destination = false
any_matches matches (r ∷ rs) destination =
    let rest = any_matches matches rs destination in if matches r destination then true else rest

any_equal : List String → String → Bool
any_equal [] protocol = false
any_equal (p ∷ ps) protocol =
    let rest = any_equal ps protocol in if p == protocol then true else rest

-- `none` is the panic of `MustCompile`.
compile_all : {Regex : Type 0} → (String → Option Regex) → List String → Option (List Regex)
compile_all compile [] = some []
compile_all compile (s ∷ ss) = elim (compile s) [
  | none ↦ none
  | some r ↦ elim (compile_all compile ss) [ none ↦ none | some rs ↦ some (r ∷ rs) ]
]

module _ {Regex Bucket : Type 0} where
  unfoldable pub check_domain_rule : (Regex → String → Bool) → String → Limiter Regex Bucket → Bool
  unfolding any_matches
  check_domain_rule matches destination l = any_matches matches l.domain_rules destination

  unfoldable pub check_protocol_rule : String → Limiter Regex Bucket → Bool
  unfolding any_equal
  check_protocol_rule protocol l = any_equal l.protocol_rules protocol

  unfoldable pub update_rule :
      (String → Option Regex) → Rules → Limiter Regex Bucket → Option (Limiter Regex Bucket)
  unfolding compile_all
  update_rule compile rule l = elim (compile_all compile rule.regexp) [
    | none ↦ none
    | some rs ↦ some (record l { domain_rules = rs; protocol_rules = rule.protocol })
  ]

-- An expression of the list matches the destination.
unfoldable pub Blocks :
    {Regex : Type 0}
    → (String → Option Regex)
    → (Regex → String → Bool)
    → List String
    → String
    → Type 0
Blocks {Regex} compile matches regexps destination =
    (s : String) × In s regexps
    × ((r : Regex) × (compile s ≡ some r) × (matches r destination ≡ true))

compile_all-cons :
    {Regex : Type 0} (compile : String → Option Regex) (s : String) (ss : List String)
    (rs : List Regex)
    → compile_all compile (s ∷ ss) ≡ some rs
    → (r : Regex) × (rest : List Regex) × (compile s ≡ some r)
      × (compile_all compile ss ≡ some rest)
      × (rs ≡ r ∷ rest)
unfolding compile_all
compile_all-cons compile s ss rs h = elim (Option-cases (compile s)) [
  | inl e ↦ absurd (ground arith)
  | inr (r, e) ↦ elim (Option-cases (compile_all compile ss)) [
    | inl e' ↦ absurd (ground arith)
    | inr (rest, e') ↦ (r, rest, e, e', ground arith)
  ]
]

module _ {Regex : Type 0} (compile : String → Option Regex) (matches : Regex → String → Bool) where
  -- A blocking expression behind one that does not match.
  Blocks-tail :
      (s : String) (ss : List String) (r : Regex) (destination : String)
      → compile s ≡ some r
      → matches r destination ≡ false
      → Blocks compile matches (s ∷ ss) destination
      → Blocks compile matches ss destination
  unfolding Blocks
  Blocks-tail s ss r destination c miss (x, inl here, (r', c', hit)) =
      absurd (miss_hit (subst (λ y. compile y ≡ some r') here c'))
    where
      miss_hit : compile s ≡ some r' → ⊥
      miss_hit e = ground arith
  Blocks-tail s ss r destination c miss (x, inr later, w) = (x, later, w)

  any_matches_compiled :
      (regexps : List String) (rs : List Regex) (destination : String)
      → compile_all compile regexps ≡ some rs
      → (any_matches matches rs destination ≡ true) ↔ Blocks compile matches regexps destination
  unfolding any_matches Blocks compile_all
  any_matches_compiled [] [] destination h = (λ m. cc, λ b. absurd b.1)
  any_matches_compiled [] (r ∷ rs) destination h = cc
  any_matches_compiled (s ∷ ss) rs destination h =
      let (r, rest, c, e, eq) = compile_all-cons compile s ss rs h in
      let ih = any_matches_compiled ss rest destination e in
      rw eq (elim (Bool-cases (matches r destination)) [
        | inl hit ↦ (λ _. (s, inl refl, (r, c, hit)), λ _. rw hit)
        | inr miss ↦ rw miss (
          λ m. let (x, i, w) = ih.0 m in (x, inr i, w),
          λ b. ih.1 (Blocks-tail s ss r destination c miss b),
        )
      ])

any_equal_iff :
    (ps : List String) (protocol : String) → (any_equal ps protocol ≡ true) ↔ In protocol ps
unfolding any_equal
any_equal_iff [] protocol = (λ h. cc, λ h. absurd h)
any_equal_iff (p ∷ ps) protocol = ground (arith, eq_iff p protocol, any_equal_iff ps protocol)

module _ {Regex Bucket : Type 0} (compile : String → Option Regex)
    (matches : Regex → String → Bool) where
  -- After `UpdateRule` a destination is rejected exactly when some expression of the rules matches
  -- it, and a protocol exactly when the rules list it.
  pub check-update_rule :
      (rule : Rules) (l l' : Limiter Regex Bucket) (destination protocol : String)
      → update_rule compile rule l ≡ some l'
      → ((check_domain_rule matches destination l' ≡ true)
          ↔ Blocks compile matches rule.regexp destination)
        × ((check_protocol_rule protocol l' ≡ true) ↔ In protocol rule.protocol)
  unfolding update_rule check_domain_rule check_protocol_rule
  check-update_rule rule l l' destination protocol h =
      elim (Option-cases (compile_all compile rule.regexp)) [
        | inl e ↦ absurd (ground arith)
        | inr (rs, e) ↦
            let d : l'.domain_rules ≡ rs = ground arith in
            let p : l'.protocol_rules ≡ rule.protocol = ground arith in
            rw (d, p)
              (
                any_matches_compiled compile matches rule.regexp rs destination e,
                any_equal_iff rule.protocol protocol,
              )
      ]
