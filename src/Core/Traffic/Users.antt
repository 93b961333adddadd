-- ===== src/Core/Traffic/Users.antt =====
-- What `GetUserTrafficSlice` reports and leaves for each user.
use text.Mathlib.TextEquality.{eq_iff}
use v2b_x_turbo.Base.{
  ℕ, ℤ, pos, String, Bool, none, some, ok, List, [], ◌∷◌, Map, lookup, or_else, All, In, OneEntry,
  lookup-store, lookup_of_In, string_eq, int_eq, ◌==◌, ◌&&◌, ◌||◌, if◌then◌else◌, ◌≡◌, ◌≢◌, refl,
  sym, ap, ◌∙◌, arith, Option-cases, inl, inr,
}
use v2b_x_turbo.Counter.{Counters, new_storage}
use v2b_x_turbo.Counter.Traffic.{IsValid, view}
use v2b_x_turbo.Core.Traffic.{uid_of, is_over, range, user_traffic_slice}
use v2b_x_turbo.Core.Traffic.Slices.{
  reports, Apart, range-reports, heap-range, counters-range, drops_lem, clears_lem,
}

All_of_In : {A : Type 0} (P : A → Type 0) (xs : List A) → ((x : A) → In x xs → P x) → All P xs
All_of_In P [] h = tt
All_of_In P (x ∷ xs) h = (h x (inl refl), All_of_In P xs (λ y i. h y (inr i)))

lookup_tail :
    (u w : String) (a b : ℕ) (es : Map String ℕ)
    → lookup u es ≡ none
    → lookup w es ≡ some b
    → lookup w ((u, a) ∷ es) ≡ some b
unfolding lookup
lookup_tail u w a b es h e = ground (arith, eq_iff u w)

-- Where no two users share a storage, no two entries do.
Apart-of_unshared :
    (es : Map String ℕ)
    → OneEntry es
    → ((u v : String) (a : ℕ) → lookup u es ≡ some a → lookup v es ≡ some a → u ≡ v)
    → Apart es
unfolding lookup
Apart-of_unshared [] one unshared = tt
Apart-of_unshared ((u, a) ∷ es) one unshared = (
  All_of_In _ es (λ (v, b) i e.
      let there : lookup v es ≡ some b = lookup_of_In v b es one.1 i in
      let same : u ≡ v =
        unshared u v a (ground (arith, eq_iff u u))
          (lookup_tail u v a a es one.0 (there ∙ ap some (sym e))) in
      absurd (ground (arith, ap (λ x. lookup x es) same))),
  Apart-of_unshared es one.1 (λ v w b e e'.
      unshared v w b (lookup_tail u v a b es one.0 e) (lookup_tail u w a b es one.0 e')),
)

module _ (least : ℤ) (reset : Bool) (uids : Map String ℤ) (c : Counters) where
  view-range :
      (w : String)
      → Apart c.counters
      → OneEntry c.counters
      → view (range least reset uids c.counters c).1 w ≡ (
          if is_over least (view c w) && (reset || uid_of w uids == pos 0)
          then new_storage
          else view c w)
  unfolding view
  view-range w apart one = elim (Option-cases (lookup w c.counters)) [
    | inl e ↦ ground (
      arith,
      counters-range least reset uids w c.counters c apart,
      drops_lem least reset uids w c.counters c.heap one,
    )
    | inr (b, e) ↦ ground (
      arith,
      counters-range least reset uids w c.counters c apart,
      drops_lem least reset uids w c.counters c.heap one,
      heap-range least reset uids b c.counters c apart,
      clears_lem least reset uids w b c.counters c.heap apart e,
    )
  ]

  -- `GetUserTrafficSlice` reports the known users whose traffic is above the least, each with the
  -- numbers that it had; behind it those numbers are 0 if they are reset, as are those of the unknown
  -- users above the least, and the numbers of every other user and of every other node stay.
  pub user_traffic_slice_lem :
      (tag : String) (counter : Map String Counters)
      → lookup tag counter ≡ some c
      → IsValid c
      → OneEntry c.counters
      → let r = user_traffic_slice least reset uids tag counter in
        let c' = or_else c (lookup tag r.1) in
        (r.0 ≡ ok (reports least uids c.counters c.heap))
        × ((w : String)
            → view c' w ≡ (
                if is_over least (view c w) && (reset || uid_of w uids == pos 0)
                then new_storage
                else view c w))
        × ((other : String) → tag ≢ other → lookup other r.1 ≡ lookup other counter)
  unfolding user_traffic_slice
  user_traffic_slice_lem tag counter e v one =
      let apart = Apart-of_unshared c.counters one v.unshared in
      let c' = (range least reset uids c.counters c).1 in
      (
        ground (arith, range-reports least reset uids c.counters c apart),
        λ w.
            ground (arith, lookup-store tag tag c' counter, eq_iff tag tag, view-range w apart one),
        λ other ne. ground (arith, lookup-store tag other c' counter, eq_iff tag other),
      )
