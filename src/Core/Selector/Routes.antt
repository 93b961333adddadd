-- ===== src/Core/Selector/Routes.antt =====
-- Where the selector routes a node: which core `AddNode` takes, and what the other methods do then.
use text.Mathlib.TextEquality.{eq_iff}
use v2b_x_turbo.Base.{
  String, true, false, Option, none, some, [], ◌∷◌, Map, lookup, string_eq, ◌==◌, In, All, inl, inr,
  ◌⊎◌, ◌↔◌, List, false, ◌≡◌, ◌≢◌, arith, Option-cases, Bool-cases,
}
use v2b_x_turbo.Conf.Types.{Options}
use v2b_x_turbo.Panel.Types.{NodeInfo}
use v2b_x_turbo.Core.Interface.{CoreOps}
use v2b_x_turbo.Core.Selector.{Selector, is_supported, fits, last_fitting, select_core}

is_supported-In : (kind : String) (ps : List String) → (is_supported kind ps ≡ true) ↔ In kind ps
unfolding is_supported
is_supported-In kind [] = (λ h. cc, λ i. absurd i)
is_supported-In kind (p ∷ ps) =
    let ih = is_supported-In kind ps in
    let same = eq_iff kind p in
    elim (Bool-cases (kind == p)) [
      | inl e ↦ (λ h. inl (same.0 e), λ i. ground arith)
      | inr e ↦ (
        λ h. inr (ih.0 (ground arith)),
        λ i. elim i [
          | inl here ↦ ground (arith, same.1 here)
          | inr more ↦ ground (arith, ih.1 more)
        ],
      )
    ]

module _ {C : Type 0} (ops : CoreOps C) where
  -- With no type of core in the options, a core that has the protocol of the node; else a core of
  -- that type.
  unfoldable pub Fits : NodeInfo → Options → C → Type 0
  Fits info option c =
      (option.core ≡ "") × In info.kind (ops.protocols c)
      ⊎ (option.core ≢ "") × (option.core ≡ ops.kind c)

  -- What `AddNode` may take: with no core name, a core that fits; else the core of that name.
  unfoldable pub Eligible : NodeInfo → Options → Selector C → String → C → Type 0
  Eligible info option s name c =
      (option.core_name ≡ "") × In (name, c) s.cores × Fits info option c
      ⊎ (option.core_name ≢ "") × (name ≡ option.core_name) × (lookup name s.cores ≡ some c)

  -- There is no such core.
  unfoldable pub NoneEligible : NodeInfo → Options → Selector C → Type 0
  NoneEligible info option s =
      (option.core_name ≡ "") × All (λ e. ¬ Fits info option e.1) s.cores
      ⊎ (option.core_name ≢ "") × (lookup option.core_name s.cores ≡ none)

  fits-Fits :
      (info : NodeInfo) (option : Options) (c : C)
      → (fits ops info option c ≡ true) ↔ Fits info option c
  unfolding fits Fits
  fits-Fits info option c =
      let supported = is_supported-In info.kind (ops.protocols c) in
      let unnamed = eq_iff option.core "" in
      let same = eq_iff option.core (ops.kind c) in
      elim (Bool-cases (option.core == "")) [
        | inl e ↦ (
          λ h. inl (unnamed.0 e, supported.0 (ground arith)),
          λ w. elim w [
            | inl (n, i) ↦ ground (arith, supported.1 i)
            | inr (n, k) ↦ absurd (n (unnamed.0 e))
          ],
        )
        | inr e ↦ (
          λ h. inr (λ n. ground (arith, unnamed.1 n), same.0 (ground arith)),
          λ w. elim w [
            | inl (n, i) ↦ absurd (ground (arith, unnamed.1 n))
            | inr (n, k) ↦ ground (arith, same.1 k)
          ],
        )
      ]

  none_fits :
      (info : NodeInfo) (option : Options) (cs : Map String C)
      → All (λ e. fits ops info option e.1 ≡ false) cs
      → All (λ e. ¬ Fits info option e.1) cs
  none_fits info option [] h = tt
  none_fits info option ((n, c) ∷ cs) (here, rest) =
      (λ f. ground (arith, (fits-Fits info option c).1 f), none_fits info option cs rest)

  last_fitting_sound :
      (info : NodeInfo) (option : Options) (cs : Map String C) (found : Option (String × C))
      (name : String) (c : C)
      → last_fitting ops info option cs found ≡ some (name, c)
      → (found ≡ some (name, c)) ⊎ (In (name, c) cs × (fits ops info option c ≡ true))
  unfolding last_fitting
  last_fitting_sound info option [] found name c h = inl h
  last_fitting_sound info option ((n, d) ∷ cs) found name c h =
      elim (last_fitting_sound info option cs _ name c h) [
        | inl e ↦ elim (Bool-cases (fits ops info option d)) [
          | inl fit ↦ inr (inl (ground arith), ground arith)
          | inr no_fit ↦ inl (ground arith)
        ]
        | inr (i, fit) ↦ inr (inr i, fit)
      ]

  last_fitting-none :
      (info : NodeInfo) (option : Options) (cs : Map String C) (found : Option (String × C))
      → last_fitting ops info option cs found ≡ none
      → (found ≡ none) × All (λ e. fits ops info option e.1 ≡ false) cs
  unfolding last_fitting
  last_fitting-none info option [] found h = (h, tt)
  last_fitting-none info option ((n, d) ∷ cs) found h =
      let ih = last_fitting-none info option cs _ h in
      elim (Bool-cases (fits ops info option d)) [
        | inl fit ↦ absurd (ground arith)
        | inr no_fit ↦ (ground arith, (no_fit, ih.1))
      ]

  not_found_lem :
      (info : NodeInfo) (option : Options) (cs : Map String C) (name : String) (c : C)
      → last_fitting ops info option cs none ≡ some (name, c)
      → In (name, c) cs × (fits ops info option c ≡ true)
  not_found_lem info option cs name c h = elim (last_fitting_sound info option cs none name c h) [
    | inl e ↦ cc
    | inr w ↦ w
  ]

  -- The core that `AddNode` selects is eligible; it selects none only where none is.
  pub select_core-Eligible :
      (info : NodeInfo) (option : Options) (s : Selector C)
      → ((name : String) (c : C)
          → select_core ops info option s ≡ some (name, c)
          → Eligible info option s name c)
        × (select_core ops info option s ≡ none → NoneEligible info option s)
  unfolding select_core Eligible NoneEligible
  select_core-Eligible info option s = elim (Bool-cases (option.core_name == "")) [
    | inl unnamed ↦
        let e = (eq_iff option.core_name "").0 unnamed in
        (
          λ name c h.
              let w = not_found_lem info option s.cores name c (ground arith) in
              inl (e, w.0, (fits-Fits info option c).0 w.1),
          λ h. inl (
            e,
            none_fits info option s.cores
                (last_fitting-none info option s.cores none (ground arith)).1,
          ),
        )
    | inr named ↦
        let ne : option.core_name ≢ "" = λ e. ground (arith, (eq_iff option.core_name "").1 e) in
        (
          λ name c h. elim (Option-cases (lookup option.core_name s.cores)) [
            | inl e ↦ absurd (ground arith)
            | inr (d, e) ↦ inr (ne, ground arith, ground arith)
          ],
          λ h. elim (Option-cases (lookup option.core_name s.cores)) [
            | inl e ↦ inr (ne, e)
            | inr (d, e) ↦ absurd (ground arith)
          ],
        )
  ]
