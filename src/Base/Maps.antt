-- ===== src/Base/Maps.antt =====
-- Go maps and `sync.Map`s, as association lists. A store replaces the entry of a key in its place,
-- or adds it at the end; a delete removes every entry of its key. A range visits the entries in an
-- order that Go leaves open: here, the list's. `LoadOrStore` is a lookup, and a store if it misses.
use mathlib.Core.Path.{◌≡◌, refl}
use mathlib.Core.Logic.{◌≢◌}
use mathlib.Core.Bool.{Bool, true, false}
use mathlib.Core.Option.{Option, none, some}
use mathlib.Core.List.{List, [], ◌∷◌}
use native.Mathlib.Omega.{arith}
use mathlib.Core.Logic.{inl, inr}
use v2b_x_turbo.Base.Lists.{In}
use v2b_x_turbo.Base.Tests.{Bool-cases, if◌then◌else◌, Eq, ◌==◌, ==_refl}

abbrev pub Map {ℓ κ} : Type ℓ → Type κ → Type (ℓ ⊔ κ)
Map K V = List (K × V)

abbrev pub is_some {ℓ} : {A : Type ℓ} → Option A → Bool
is_some none = false
is_some (some a) = true

abbrev pub or_else {ℓ} : {A : Type ℓ} → A → Option A → A
or_else a none = a
or_else a (some b) = b

module _ {ℓ κ} {K : Type ℓ} {V : Type κ} ⦃e : Eq K⦄ where
  unfoldable pub lookup : K → Map K V → Option V
  lookup k [] = none
  lookup k ((j, v) ∷ m) = if j == k then some v else lookup k m

  unfoldable pub store : K → V → Map K V → Map K V
  store k v [] = (k, v) ∷ []
  store k v ((j, w) ∷ m) = let rest = store k v m in if j == k then (k, v) ∷ m else (j, w) ∷ rest

  unfoldable pub delete : K → Map K V → Map K V
  delete k [] = []
  delete k ((j, w) ∷ m) = let rest = delete k m in if j == k then rest else (j, w) ∷ rest

  pub lookup-store :
      (k j : K) (v : V) (m : Map K V)
      → lookup j (store k v m) ≡ (if k == j then some v else lookup j m)
  unfolding lookup store
  lookup-store k j v [] = refl
  lookup-store k j v ((i, w) ∷ m) =
      ground (arith, e.test_iff k j, e.test_iff i k, e.test_iff i j, lookup-store k j v m)

  pub lookup-delete :
      (k j : K) (m : Map K V) → lookup j (delete k m) ≡ (if k == j then none else lookup j m)
  unfolding lookup delete
  lookup-delete k j [] = ground arith
  lookup-delete k j ((i, w) ∷ m) =
      ground (arith, e.test_iff k j, e.test_iff i k, e.test_iff i j, lookup-delete k j m)

  pub lookup-store_self : (k : K) (v : V) (m : Map K V) → lookup k (store k v m) ≡ some v
  lookup-store_self k v m = ground (arith, lookup-store k k v m, e.test_iff k k)

  pub lookup-store_ne :
      (k j : K) (v : V) (m : Map K V) → k ≢ j → lookup j (store k v m) ≡ lookup j m
  lookup-store_ne k j v m h = ground (arith, lookup-store k j v m, e.test_iff k j)

  pub lookup-delete_self : (k : K) (m : Map K V) → lookup k (delete k m) ≡ none
  lookup-delete_self k m = ground (arith, lookup-delete k k m, e.test_iff k k)

  pub lookup-delete_ne : (k j : K) (m : Map K V) → k ≢ j → lookup j (delete k m) ≡ lookup j m
  lookup-delete_ne k j m h = ground (arith, lookup-delete k j m, e.test_iff k j)

  -- A delete of a key that is not there changes nothing.
  pub delete_absent : (k : K) (m : Map K V) → lookup k m ≡ none → delete k m ≡ m
  unfolding lookup delete
  delete_absent k [] h = refl
  delete_absent k ((i, w) ∷ m) h = ground (arith, delete_absent k m)

  -- What a store of a new key added, a delete takes away.
  pub delete-store_new :
      (k : K) (v : V) (m : Map K V) → lookup k m ≡ none → delete k (store k v m) ≡ m
  unfolding lookup store delete
  delete-store_new k v [] h = ground (arith, e.test_iff k k)
  delete-store_new k v ((i, w) ∷ m) h = ground (arith, delete-store_new k v m)

  pub lookup-single : (k j : K) (v : V) → lookup j ((k, v) ∷ []) ≡ (if k == j then some v else none)
  unfolding lookup
  lookup-single k j v = refl

pub ruleset map_laws = (lookup-store, lookup-delete, ==_refl)

-- A map holds one entry for a key; every operation keeps this.
abbrev pub OneEntry {ℓ} : {K : Type 0} {V : Type ℓ} ⦃e : Eq K⦄ → Map K V → Type ℓ
OneEntry [] = Unit
OneEntry ((k, v) ∷ m) = (lookup k m ≡ none) × OneEntry m

module _ {K V : Type 0} ⦃e : Eq K⦄ where
  pub OneEntry-store : (k : K) (v : V) (m : Map K V) → OneEntry m → OneEntry (store k v m)
  unfolding store lookup
  OneEntry-store k v [] h = (refl, tt)
  OneEntry-store k v ((j, w) ∷ m) h =
      ground (arith, OneEntry-store k v m h.1, lookup-store k j v m, e.test_iff j k, e.test_iff k j)

  pub OneEntry-delete : (k : K) (m : Map K V) → OneEntry m → OneEntry (delete k m)
  unfolding delete
  OneEntry-delete k [] h = tt
  OneEntry-delete k ((j, w) ∷ m) h =
      ground (arith, OneEntry-delete k m h.1, lookup-delete k j m, e.test_iff j k, e.test_iff k j)

  pub In-lookup : (k : K) (v : V) (m : Map K V) → lookup k m ≡ some v → In (k, v) m
  unfolding lookup
  In-lookup k v [] h = cc
  In-lookup k v ((j, w) ∷ m) h = elim (Bool-cases (j == k)) [
    | inl same ↦ inl (ground (arith, e.test_iff j k))
    | inr other ↦ inr (In-lookup k v m (ground arith))
  ]

  pub lookup_of_In : (k : K) (v : V) (m : Map K V) → OneEntry m → In (k, v) m → lookup k m ≡ some v
  unfolding lookup
  lookup_of_In k v [] h i = absurd i
  lookup_of_In k v ((j, w) ∷ m) h (inl here) = ground (arith, e.test_iff j k)
  lookup_of_In k v ((j, w) ∷ m) h (inr later) =
      ground (arith, lookup_of_In k v m h.1 later, e.test_iff j k)
