-- ===== src/Node/Users/Index.antt =====
-- The map of node/user.go from the keys of the old users to their places in the list.
use v2b_x_turbo.Base.{
  zero, OneEntry-store, OneEntry, ℕ, suc, ◌+◌, String, Bool, true, false, Option, none, some, List,
  [], ◌∷◌, Map, lookup, store, string_eq, get_elem?, lookup-store, ◌==◌, ◌||◌, In, inl, inr, ◌≡◌,
  ◌↔◌, refl, sym, ap, ◌∙◌, arith, Bool-cases, is_some,
}
use text.Mathlib.TextEquality.{eq_iff}
use v2b_x_turbo.Panel.Types.{UserInfo}
use v2b_x_turbo.Node.Users.{key, index_from}

unfoldable pub has_key : String → List UserInfo → Bool
has_key k [] = false
has_key k (user ∷ users) = key user == k || has_key k users

pub is_some-none : (o : Option ℕ) → is_some o ≡ false → o ≡ none
is_some-none none h = refl
is_some-none (some n) h = cc

-- No two users of the list have one key.
abbrev pub DistinctKeys : List UserInfo → Type 0
DistinctKeys [] = Unit
DistinctKeys (user ∷ users) = (has_key (key user) users ≡ false) × DistinctKeys users

-- A range visits the entries of a map, in some order.
abbrev pub Visits : (Map String ℕ → Map String ℕ) → Type 0
Visits visit = (m : Map String ℕ) (e : String × ℕ) → In e (visit m) ↔ In e m

-- The entries of the first map: for each key, a place where a user with that key stands.
pub lookup-index_from :
    (i : ℕ) (users : List UserInfo) (m : Map String ℕ) (k : String)
    → is_some (lookup k (index_from i users m)) ≡ (has_key k users || is_some (lookup k m))
unfolding index_from has_key
lookup-index_from i [] m k = refl
lookup-index_from i (user ∷ users) m k =
    lookup-index_from (i + 1) users (store (key user) i m) k
    ∙ ground (arith, lookup-store (key user) k i m, eq_iff (key user) k)

-- Each entry of a map points to a user with its key.
abbrev pub Points : List UserInfo → Map String ℕ → Type 0
Points users m =
    (k : String) (j : ℕ)
    → lookup k m ≡ some j
    → (u : UserInfo) × (get_elem? users j ≡ some u) × (key u ≡ k)

pub index_from-Points :
    (all : List UserInfo) (i : ℕ) (users : List UserInfo) (m : Map String ℕ)
    → ((n : ℕ) → get_elem? users n ≡ get_elem? all (i + n))
    → Points all m
    → Points all (index_from i users m)
unfolding index_from
index_from-Points all i [] m suffix h = h
index_from-Points all i (user ∷ users) m suffix h =
    index_from-Points all (i + 1) users (store (key user) i m)
      (λ n. suffix (suc n) ∙ ap (get_elem? all) (omega arith))
      (λ k j e. elim (Bool-cases (key user == k)) [
        | inl same ↦ (
          user,
          sym (suffix 0 ∙ ap (get_elem? all) (ground (arith, lookup-store (key user) k i m))),
          (eq_iff (key user) k).0 same,
        )
        | inr other ↦ h k j (ground (arith, lookup-store (key user) k i m))
      ])

pub index_from-OneEntry :
    (i : ℕ) (users : List UserInfo) (m : Map String ℕ)
    → OneEntry m
    → OneEntry (index_from i users m)
unfolding index_from
index_from-OneEntry i [] m h = h
index_from-OneEntry i (user ∷ users) m h =
    index_from-OneEntry (i + 1) users _ (OneEntry-store (key user) i m h)

pub has_key_of_In :
    (u : UserInfo) (users : List UserInfo) → In u users → has_key (key u) users ≡ true
unfolding has_key
has_key_of_In u [] h = absurd h
has_key_of_In u (user ∷ users) (inl e) = ground (arith, eq_iff (key user) (key u), ap key e)
has_key_of_In u (user ∷ users) (inr h) = ground (arith, has_key_of_In u users h)

pub In-of_get : (us : List UserInfo) (j : ℕ) (u : UserInfo) → get_elem? us j ≡ some u → In u us
In-of_get [] j u h = cc
In-of_get (x ∷ us) zero u h = inl (ground arith)
In-of_get (x ∷ us) (suc j) u h = inr (In-of_get us j u h)

pub same_of_key :
    (us : List UserInfo) (u v : UserInfo)
    → DistinctKeys us
    → In u us
    → In v us
    → key u ≡ key v
    → u ≡ v
same_of_key [] u v d i i' e = absurd i
same_of_key (x ∷ us) u v d (inl p) (inl q) e = p ∙ sym q
same_of_key (x ∷ us) u v d (inl p) (inr i') e =
    absurd (ground (arith, has_key_of_In v us i', ap key p, d.0))
same_of_key (x ∷ us) u v d (inr i) (inl q) e =
    absurd (ground (arith, has_key_of_In u us i, ap key q, d.0))
same_of_key (x ∷ us) u v d (inr i) (inr i') e = same_of_key us u v d.1 i i' e

abbrev pub old_map : List UserInfo → Map String ℕ
old_map old = index_from 0 old []

pub is_some-old_map :
    (old : List UserInfo) (k : String) → is_some (lookup k (old_map old)) ≡ has_key k old
is_some-old_map old k = lookup-index_from 0 old [] k ∙ unfold lookup in ground arith

pub old_map-Points : (old : List UserInfo) → Points old (old_map old)
unfolding lookup
old_map-Points old =
    index_from-Points old 0 old [] (λ n. ap (get_elem? old) (omega arith)) (λ k j h. cc)

pub old_map-OneEntry : (old : List UserInfo) → OneEntry (old_map old)
old_map-OneEntry old = index_from-OneEntry 0 old [] tt
