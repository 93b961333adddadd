-- ===== src/Node/Users/Difference.antt =====
-- `compareUserList` of node/user.go against the difference of two lists of users by their keys.
use v2b_x_turbo.Base.{
  In-lookup, lookup_of_In, OneEntry-delete, OneEntry, ℕ, String, false, Option, none, some, List,
  [], ◌∷◌, Map, lookup, delete, string_eq, get_elem?, lookup-delete, if◌then◌else◌, In, inl, inr,
  ◌⊎◌, ◌≡◌, ◌↔◌, refl, sym, ap, ◌∙◌, arith, Option-cases,
}
use v2b_x_turbo.Node.Users.{compare_user_list}
use text.Mathlib.TextEquality.{eq_iff}
use v2b_x_turbo.Panel.Types.{UserInfo}
use v2b_x_turbo.Node.Users.{key, subtract, gather}
use v2b_x_turbo.Node.Users.Index.{
  is_some-none, has_key_of_In, In-of_get, same_of_key, old_map, is_some-old_map, old_map-Points,
  old_map-OneEntry, has_key, DistinctKeys, Visits,
}

subtract_new :
    (user : UserInfo) (users : List UserInfo) (m : Map String ℕ)
    → lookup (key user) m ≡ none
    → subtract (user ∷ users) m ≡ (user ∷ (subtract users m).0, (subtract users m).1)
unfolding subtract
subtract_new user users m h = ground arith

subtract_old :
    (user : UserInfo) (users : List UserInfo) (m : Map String ℕ) (j : ℕ)
    → lookup (key user) m ≡ some j
    → subtract (user ∷ users) m ≡ subtract users (delete (key user) m)
unfolding subtract
subtract_old user users m j h = ground arith

subtract-OneEntry :
    (users : List UserInfo) (m : Map String ℕ) → OneEntry m → OneEntry (subtract users m).1
unfolding subtract
subtract-OneEntry [] m h = h
subtract-OneEntry (user ∷ users) m h = elim (Option-cases (lookup (key user) m)) [
  | inl e ↦ rw (subtract_new user users m e) (subtract-OneEntry users m h)
  | inr (j, e) ↦
      rw (subtract_old user users m j e)
        (subtract-OneEntry users _ (OneEntry-delete (key user) m h))
]

-- The keys that are left are those that the new users do not have.
lookup-subtract :
    (users : List UserInfo) (m : Map String ℕ) (k : String)
    → lookup k (subtract users m).1 ≡ (if has_key k users then none else lookup k m)
unfolding subtract has_key
lookup-subtract [] m k = refl
lookup-subtract (user ∷ users) m k = ground (
  arith,
  lookup-subtract users m k,
  lookup-subtract users (delete (key user) m) k,
  lookup-delete (key user) k m,
  eq_iff (key user) k,
)

In-subtract :
    (u : UserInfo) (users : List UserInfo) (m : Map String ℕ)
    → DistinctKeys users
    → In u (subtract users m).0 ↔ In u users × (lookup (key u) m ≡ none)
unfolding subtract has_key
In-subtract u [] m d = (λ h. absurd h, λ h. absurd h.0)
In-subtract u (user ∷ users) m d = elim (Option-cases (lookup (key user) m)) [
  | inl e ↦
      let ih = In-subtract u users m d.1 in
      rw (subtract_new user users m e) (
        λ h. elim h [
          | inl here ↦ (inl here, ap (λ x. lookup (key x) m) here ∙ e)
          | inr i ↦ (inr (ih.0 i).0, (ih.0 i).1)
        ],
        λ h. elim h.0 [ inl here ↦ inl here | inr i ↦ inr (ih.1 (i, h.1)) ],
      )
  | inr (j, e) ↦
      let ih = In-subtract u users (delete (key user) m) d.1 in
      let fresh : In u users → lookup (key u) (delete (key user) m) ≡ lookup (key u) m = λ i.
        ground (
          arith,
          has_key_of_In u users i,
          lookup-delete (key user) (key u) m,
          eq_iff (key user) (key u),
          ap (λ k. has_key k users),
        ) in
      rw (subtract_old user users m j e) (
        λ h. let r = ih.0 h in (inr r.0, sym (fresh r.0) ∙ r.1),
        λ h. elim h.0 [
          | inl here ↦ absurd (clash (ap (λ x. lookup (key x) m) here) h.1 e)
          | inr i ↦ ih.1 (i, fresh i ∙ h.1)
        ],
      )
]
  where
    clash : {o o' : Option ℕ} {j : ℕ} → o ≡ o' → o ≡ none → o' ≡ some j → ⊥
    clash p q r = cc

In-gather :
    (u : UserInfo) (all : List UserInfo) (m : Map String ℕ)
    → In u (gather all m)
    → (k : String) × (j : ℕ) × In (k, j) m × (get_elem? all j ≡ some u)
unfolding gather
In-gather u all [] h = absurd h
In-gather u all ((k, j) ∷ m) h = elim (Option-cases (get_elem? all j)) [
  | inl e ↦ let (k', j', i, g) = In-gather u all m (gather_gone h e) in (k', j', inr i, g)
  | inr (v, e) ↦ elim (gather_here h e) [
    | inl here ↦ (k, j, inl refl, e ∙ ap some (sym here))
    | inr later ↦ let (k', j', i, g) = In-gather u all m later in (k', j', inr i, g)
  ]
]
  where
    gather_gone : In u (gather all ((k, j) ∷ m)) → get_elem? all j ≡ none → In u (gather all m)
    gather_gone h e = rw (e, gather) at h

    gather_here :
        {v : UserInfo}
        → In u (gather all ((k, j) ∷ m))
        → get_elem? all j ≡ some v
        → (u ≡ v) ⊎ In u (gather all m)
    gather_here h e = rw (e, gather) at h

gather-some :
    (all : List UserInfo) (k : String) (j : ℕ) (m : Map String ℕ) (u : UserInfo)
    → get_elem? all j ≡ some u
    → gather all ((k, j) ∷ m) ≡ u ∷ gather all m
unfolding gather
gather-some all k j m u h = ground arith

gather-none :
    (all : List UserInfo) (k : String) (j : ℕ) (m : Map String ℕ)
    → get_elem? all j ≡ none
    → gather all ((k, j) ∷ m) ≡ gather all m
unfolding gather
gather-none all k j m h = ground arith

gather-In :
    (u : UserInfo) (all : List UserInfo) (k : String) (j : ℕ) (m : Map String ℕ)
    → In (k, j) m
    → get_elem? all j ≡ some u
    → In u (gather all m)
gather-In u all k j [] i e = absurd i
gather-In u all k j ((k', j') ∷ m) (inl here) e =
    rw (gather-some all k' j' m u (ap (λ (p : String × ℕ). get_elem? all p.1) (sym here) ∙ e))
      (inl refl)
gather-In u all k j ((k', j') ∷ m) (inr later) e = elim (Option-cases (get_elem? all j')) [
  | inl none' ↦ rw (gather-none all k' j' m none') (gather-In u all k j m later e)
  | inr (v, some') ↦ rw (gather-some all k' j' m v some') (inr (gather-In u all k j m later e))
]

-- A deleted user was in the old list, and its key is not in the new one.
deleted_sound :
    (visit : Map String ℕ → Map String ℕ) (old new : List UserInfo) (u : UserInfo)
    → Visits visit
    → In u (gather old (visit (subtract new (old_map old)).1))
    → In u old × (has_key (key u) new ≡ false)
deleted_sound visit old new u v i =
    let rest = (subtract new (old_map old)).1 in
    let (k, j, e, g) = In-gather u old (visit rest) i in
    let left = subtract-OneEntry new (old_map old) (old_map-OneEntry old) in
    let here : lookup k rest ≡ some j = lookup_of_In k j rest left ((v rest (k, j)).0 e) in
    let old_entry : lookup k (old_map old) ≡ some j =
      ground (arith, lookup-subtract new (old_map old) k) in
    let (u', g', same) = old_map-Points old k j old_entry in
    let same_user : u ≡ u' = ground arith in
    let key_u : key u ≡ k = ap key same_user ∙ same in
    (In-of_get old j u g, rw key_u (ground (arith, lookup-subtract new (old_map old) k)))

deleted_complete :
    (visit : Map String ℕ → Map String ℕ) (old new : List UserInfo) (u : UserInfo)
    → Visits visit
    → DistinctKeys old
    → In u old
    → has_key (key u) new ≡ false
    → In u (gather old (visit (subtract new (old_map old)).1))
deleted_complete visit old new u v d i fresh = elim (Option-cases (lookup (key u) (old_map old))) [
  | inl e ↦ absurd (ground (arith, is_some-old_map old (key u), has_key_of_In u old i))
  | inr (j, e) ↦
      let (u', g, same) = old_map-Points old (key u) j e in
      let rest = (subtract new (old_map old)).1 in
      let here : lookup (key u) rest ≡ some j =
        ground (arith, lookup-subtract new (old_map old) (key u)) in
      let u_is : u' ≡ u = same_of_key old u' u d (In-of_get old j u' g) i same in
      gather-In u old (key u) j (visit rest) ((v rest (key u, j)).1 (In-lookup (key u) j rest here))
        (g ∙ ap some u_is)
]

-- Where neither list has two users with one key, whatever the order of the range over the map: the
-- added users are the new ones whose key no old one has, and the deleted users are the old ones
-- whose key no new one has.
pub compare_user_list_lem :
    (visit : Map String ℕ → Map String ℕ) (old new : List UserInfo) (u : UserInfo)
    → Visits visit
    → DistinctKeys old
    → DistinctKeys new
    → let (deleted, added) = compare_user_list visit old new in
      (In u added ↔ In u new × (has_key (key u) old ≡ false))
      × (In u deleted ↔ In u old × (has_key (key u) new ≡ false))
unfolding compare_user_list
compare_user_list_lem visit old new u v d d' =
    let added = In-subtract u new (old_map old) d' in
    (
      (
        λ i. ((added.0 i).0, ground (arith, is_some-old_map old (key u), (added.0 i).1)),
        λ h. added.1 (h.0, is_some-none _ (is_some-old_map old (key u) ∙ h.1)),
      ),
      (deleted_sound visit old new u v, λ h. deleted_complete visit old new u v d h.0 h.1),
    )
