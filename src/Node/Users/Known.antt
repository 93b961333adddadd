-- ===== src/Node/Users/Known.antt =====
-- That the limiter knows the users of the new list once it has followed `compareUserList`.
use text.Mathlib.TextEquality.{eq_iff}
use v2b_x_turbo.Base.{
  ℕ, ℤ, String, true, false, not, Option, none, some, List, [], ◌∷◌, Map, lookup, is_some, In,
  string_eq, ◌==◌, ◌&&◌, ◌||◌, if◌then◌else◌, ◌≡◌, ◌⊎◌, ◌↔◌, refl, sym, ap, ◌∙◌, arith, Bool-cases,
  inl, inr,
}
use v2b_x_turbo.Format.{user_tag}
use v2b_x_turbo.Panel.Types.{UserInfo}
use v2b_x_turbo.Limiter.Types.{UserLimitInfo, Limiter}
use v2b_x_turbo.Limiter.Users.{update_user, new_limiter}
use v2b_x_turbo.Limiter.Users.Update.{
  has_uuid, find_last, entry_of, lookup-update_user, lookup-new_limiter,
}
use v2b_x_turbo.Node.Users.{key, compare_user_list}
use v2b_x_turbo.Node.Users.Index.{has_key, has_key_of_In, DistinctKeys, Visits}
use v2b_x_turbo.Node.Users.Difference.{compare_user_list_lem}

-- The limiter has an entry for the users of the list, and for no others.
abbrev pub KnowsExactly :
    {Regex Bucket : Type 0} → String → List UserInfo → Limiter Regex Bucket → Type 0
KnowsExactly tag users l =
    (uuid : String) → is_some (lookup (user_tag tag uuid) l.user_limit_info) ≡ has_uuid uuid users

abbrev pub DistinctUuids : List UserInfo → Type 0
DistinctUuids [] = Unit
DistinctUuids (u ∷ us) = (has_uuid u.uuid us ≡ false) × DistinctUuids us

-- The keys of the two lists tell the UUIDs, as they do where all UUIDs have the same length.
abbrev pub TellsUuids : List UserInfo → List UserInfo → Type 0
TellsUuids old new =
    (u v : UserInfo) → In u old ⊎ In u new → In v old ⊎ In v new → key u ≡ key v → u.uuid ≡ v.uuid

In-of_has_uuid :
    (uuid : String) (us : List UserInfo)
    → has_uuid uuid us ≡ true
    → (u : UserInfo) × In u us × (u.uuid ≡ uuid)
unfolding has_uuid
In-of_has_uuid uuid [] h = cc
In-of_has_uuid uuid (u ∷ us) h = elim (Bool-cases (u.uuid == uuid)) [
  | inl same ↦ (u, inl refl, (eq_iff u.uuid uuid).0 same)
  | inr other ↦ let (v, i, e) = In-of_has_uuid uuid us (ground arith) in (v, inr i, e)
]

has_uuid-of_In :
    (uuid : String) (u : UserInfo) (us : List UserInfo)
    → In u us
    → u.uuid ≡ uuid
    → has_uuid uuid us ≡ true
unfolding has_uuid
has_uuid-of_In uuid u [] i e = absurd i
has_uuid-of_In uuid u (x ∷ us) (inl here) e =
    ground (arith, eq_iff x.uuid uuid, ap (λ (y : UserInfo). y.uuid) here)
has_uuid-of_In uuid u (x ∷ us) (inr later) e = ground (arith, has_uuid-of_In uuid u us later e)

In-of_has_key :
    (k : String) (us : List UserInfo) → has_key k us ≡ true → (u : UserInfo) × In u us × (key u ≡ k)
unfolding has_key
In-of_has_key k [] h = cc
In-of_has_key k (u ∷ us) h = elim (Bool-cases (key u == k)) [
  | inl same ↦ (u, inl refl, (eq_iff (key u) k).0 same)
  | inr other ↦ let (v, i, e) = In-of_has_key k us (ground arith) in (v, inr i, e)
]

same_user :
    (u v : UserInfo) (us : List UserInfo)
    → DistinctUuids us
    → In u us
    → In v us
    → u.uuid ≡ v.uuid
    → u ≡ v
same_user u v [] d i j e = absurd i
same_user u v (x ∷ us) d (inl a) (inl b) e = a ∙ sym b
same_user u v (x ∷ us) d (inl a) (inr j) e =
    absurd
      (ground (arith, has_uuid-of_In x.uuid v us j (sym e ∙ ap (λ (y : UserInfo). y.uuid) a), d.0))
same_user u v (x ∷ us) d (inr i) (inl b) e =
    absurd (ground (arith, has_uuid-of_In x.uuid u us i (e ∙ ap (λ (y : UserInfo). y.uuid) b), d.0))
same_user u v (x ∷ us) d (inr i) (inr j) e = same_user u v us d.1 i j e

DistinctKeys-of_uuids :
    (us : List UserInfo)
    → DistinctUuids us
    → ((u v : UserInfo) → In u us → In v us → key u ≡ key v → u.uuid ≡ v.uuid)
    → DistinctKeys us
DistinctKeys-of_uuids [] d t = tt
DistinctKeys-of_uuids (u ∷ us) d t = (
  elim (Bool-cases (has_key (key u) us)) [
    | inr without ↦ without
    | inl found ↦
        let (v, i, e) = In-of_has_key (key u) us found in
        absurd (ground (arith, has_uuid-of_In u.uuid v us i (t v u (inr i) (inl refl) e), d.0))
  ],
  DistinctKeys-of_uuids us d.1 (λ x y i j. t x y (inr i) (inr j)),
)

is_some-find_last :
    (uuid : String) (us : List UserInfo) → is_some (find_last uuid us) ≡ has_uuid uuid us
unfolding find_last has_uuid
is_some-find_last uuid [] = refl
is_some-find_last uuid (u ∷ us) = ground (arith, is_some-find_last uuid us)

is_some-entry_of :
    (f : Option UserInfo) (o : Option UserLimitInfo)
    → is_some (entry_of f o) ≡ (is_some f || is_some o)
is_some-entry_of none o = refl
is_some-entry_of (some u) o = refl

-- Which UUIDs the added and the deleted users have.
module _ (visit : Map String ℕ → Map String ℕ) (visits : Visits visit) (old new : List UserInfo)
    (tells : TellsUuids old new) (distinct : DistinctUuids old)
    (distinct' : DistinctUuids new) where
  members :
      (u : UserInfo)
      → let (deleted, added) = compare_user_list visit old new in
        (In u added ↔ In u new × (has_key (key u) old ≡ false))
        × (In u deleted ↔ In u old × (has_key (key u) new ≡ false))
  members u =
      compare_user_list_lem visit old new u visits
        (DistinctKeys-of_uuids old distinct (λ x y i j. tells x y (inl i) (inl j)))
        (DistinctKeys-of_uuids new distinct' (λ x y i j. tells x y (inr i) (inr j)))

  -- A new user that is not added has an old user's UUID, which is not deleted.
  stays :
      (uuid : String) (u : UserInfo)
      → In u new
      → u.uuid ≡ uuid
      → let (deleted, added) = compare_user_list visit old new in
        (has_uuid uuid added || not (has_uuid uuid deleted) && has_uuid uuid old) ≡ true
  stays uuid u i e =
      let (deleted, added) = compare_user_list visit old new in
      elim (Bool-cases (has_key (key u) old)) [
        | inr fresh ↦ ground (arith, has_uuid-of_In uuid u added ((members u).0.1 (i, fresh)) e)
        | inl kept ↦
            let (v, j, k) = In-of_has_key (key u) old kept in
            let same : v.uuid ≡ uuid = tells v u (inl j) (inr i) k ∙ e in
            elim (Bool-cases (has_uuid uuid deleted)) [
              | inr safe ↦ ground (arith, has_uuid-of_In uuid v old j same)
              | inl bad ↦
                  let (w, d, f) = In-of_has_uuid uuid deleted bad in
                  let (o, gone) = (members w).1.0 d in
                  let is_v : w ≡ v = same_user w v old distinct o j (f ∙ sym same) in
                  absurd (ground (arith, has_key_of_In u new i, gone, ap key is_v, k))
            ]
      ]

  -- A UUID of no new user is not added, and it is deleted if an old user had it.
  leaves :
      (uuid : String)
      → has_uuid uuid new ≡ false
      → let (deleted, added) = compare_user_list visit old new in
        (has_uuid uuid added || not (has_uuid uuid deleted) && has_uuid uuid old) ≡ false
  leaves uuid n =
      let (deleted, added) = compare_user_list visit old new in
      elim (Bool-cases (has_uuid uuid added)) [
        | inl a ↦
            let (u, i, e) = In-of_has_uuid uuid added a in
            absurd (ground (arith, has_uuid-of_In uuid u new ((members u).0.0 i).0 e, n))
        | inr a ↦ elim (Bool-cases (has_uuid uuid old)) [
          | inr o ↦ ground arith
          | inl o ↦
              let (v, i, e) = In-of_has_uuid uuid old o in
              elim (Bool-cases (has_key (key v) new)) [
                | inr gone ↦
                    ground (arith, has_uuid-of_In uuid v deleted ((members v).1.1 (i, gone)) e)
                | inl kept ↦
                    let (u, j, k) = In-of_has_key (key v) new kept in
                    absurd (
                      ground
                        (arith, has_uuid-of_In uuid u new j (tells u v (inr j) (inl i) k ∙ e), n))
              ]
        ]
      ]

  pub update_user-KnowsExactly :
      {Regex Bucket : Type 0} (tag : String) (l : Limiter Regex Bucket)
      → KnowsExactly tag old l
      → let (deleted, added) = compare_user_list visit old new in
        KnowsExactly tag new (update_user tag added deleted l)
  update_user-KnowsExactly tag l knows uuid =
      let (deleted, added) = compare_user_list visit old new in
      let after = (lookup-update_user tag uuid added deleted l).0 in
      let known : is_some
            (lookup (user_tag tag uuid) (update_user tag added deleted l).user_limit_info)
          ≡ (has_uuid uuid added || not (has_uuid uuid deleted) && has_uuid uuid old) =
        ap is_some after
        ∙ ground (
          arith,
          is_some-entry_of (find_last uuid added) (
              if has_uuid uuid deleted then none else lookup (user_tag tag uuid) l.user_limit_info),
          is_some-find_last uuid added,
          knows uuid,
        ) in
      elim (Bool-cases (has_uuid uuid new)) [
        | inl here ↦
            let (u, i, e) = In-of_has_uuid uuid new here in known ∙ stays uuid u i e ∙ sym here
        | inr away ↦ known ∙ leaves uuid away ∙ sym away
      ]

-- A new limiter knows its users.
pub new_limiter-KnowsExactly :
    (Regex Bucket : Type 0) (tag : String) (speed_limit : ℤ) (users : List UserInfo)
    (alive_list : Map ℤ ℤ)
    → KnowsExactly tag users
        (new_limiter {Regex = Regex} {Bucket = Bucket} tag speed_limit users alive_list)
new_limiter-KnowsExactly Regex Bucket tag speed_limit users alive_list uuid =
    ap is_some (lookup-new_limiter Regex Bucket tag uuid speed_limit users alive_list).0
    ∙ ground (arith, is_some-entry_of (find_last uuid users) none, is_some-find_last uuid users)
