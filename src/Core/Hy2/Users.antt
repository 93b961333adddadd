-- ===== src/Core/Hy2/Users.antt =====
-- Whom the authenticator of core/hy2 lets in behind `AddUsers` and `DelUsers`.
use v2b_x_turbo.Base.{
  ℤ, String, Bool, true, false, not, Option, none, some, List, [], ◌∷◌, Map, lookup, store, delete,
  is_some, In, lookup-store, lookup-delete, string_eq, ◌==◌, ◌&&◌, ◌||◌, if◌then◌else◌, ◌≡◌, ◌↔◌,
  refl, ap, arith, Option-cases, Bool-cases, inl, inr,
}
use v2b_x_turbo.Panel.Types.{UserInfo}
use v2b_x_turbo.Core.Interface.{AddUsersParams}
use v2b_x_turbo.Core.Sing.{learn, unlearn}
use v2b_x_turbo.Core.Hy2.{Hysteria2, authenticate, add_users, del_users}
use text.Mathlib.TextEquality.{eq_iff}

-- Whether a user of the list has the UUID.
unfoldable pub mentions : String → List UserInfo → Bool
mentions uuid [] = false
mentions uuid (u ∷ us) = let rest = mentions uuid us in if u.uuid == uuid then true else rest

mentions-In :
    (uuid : String) (us : List UserInfo)
    → mentions uuid us ≡ true
    → (u : UserInfo) × In u us × (u.uuid ≡ uuid)
unfolding mentions
mentions-In uuid [] h = cc
mentions-In uuid (u ∷ us) h = elim (Bool-cases (u.uuid == uuid)) [
  | inl same ↦ (u, inl refl, ground (arith, eq_iff u.uuid uuid))
  | inr other ↦ let (v, i, e) = mentions-In uuid us (ground arith) in (v, inr i, e)
]

mentions-of_In : (u : UserInfo) (us : List UserInfo) → In u us → mentions u.uuid us ≡ true
unfolding mentions
mentions-of_In u [] i = absurd i
mentions-of_In u (x ∷ us) (inl here) =
    ground (arith, eq_iff x.uuid u.uuid, ap (λ (y : UserInfo). y.uuid) here)
mentions-of_In u (x ∷ us) (inr later) = ground (arith, mentions-of_In u us later)

-- Two lists with the same members mention the same users.
mentions_same :
    (uuid : String) (us vs : List UserInfo)
    → ((u : UserInfo) → In u us ↔ In u vs)
    → mentions uuid us ≡ mentions uuid vs
mentions_same uuid us vs h = elim (Bool-cases (mentions uuid us)) [
  | inl a ↦
      let (u, i, e) = mentions-In uuid us a in
      ground (arith, mentions-of_In u vs ((h u).0 i), ap (λ x. mentions x vs) e)
  | inr a ↦ elim (Bool-cases (mentions uuid vs)) [
    | inr b ↦ ground arith
    | inl b ↦
        let (u, i, e) = mentions-In uuid vs b in
        ground (arith, mentions-of_In u us ((h u).1 i), ap (λ x. mentions x us) e)
  ]
]

is_some-learn :
    (uuid : String) (us : List UserInfo) (m : Map String ℤ)
    → is_some (lookup uuid (learn us m)) ≡ (mentions uuid us || is_some (lookup uuid m))
unfolding learn mentions
is_some-learn uuid [] m = refl
is_some-learn uuid (u ∷ us) m =
    ground (arith, is_some-learn uuid us (store u.uuid u.id m), lookup-store u.uuid uuid u.id m)

is_some-unlearn :
    (uuid : String) (us : List UserInfo) (m : Map String ℤ)
    → is_some (lookup uuid (unlearn us m)) ≡ (not (mentions uuid us) && is_some (lookup uuid m))
unfolding unlearn mentions
is_some-unlearn uuid [] m = refl
is_some-unlearn uuid (u ∷ us) m =
    ground (arith, is_some-unlearn uuid us (delete u.uuid m), lookup-delete u.uuid uuid m)

module _ {S : Type 0} (spawned : List UserInfo → List UserInfo)
    (all_run : (us : List UserInfo) (u : UserInfo) → In u (spawned us) ↔ In u us) where
  is_some-del_users :
      (auth : String) (us : List UserInfo) (tag : String) (h h' : Hysteria2 S) (e : Option String)
      → del_users spawned us tag h ≡ some (e, h')
      → (is_some (lookup auth h'.users_map)
          ≡ (not (mentions auth us) && is_some (lookup auth h.users_map)))
        × (e ≡ none)
  unfolding del_users mentions
  is_some-del_users auth [] tag h h' e d = (ground arith, ground arith)
  is_some-del_users auth (u ∷ us) tag h h' e d = elim (Option-cases (lookup tag h.hy2_nodes)) [
    | inl n ↦ ground arith
    | inr (n, f) ↦ (
      ground (
        arith,
        is_some-unlearn auth (spawned (u ∷ us)) h.users_map,
        mentions_same auth (spawned (u ∷ us)) (u ∷ us) (all_run (u ∷ us)),
      ),
      ground arith,
    )
  ]

  -- Whatever the order in which the goroutines run: behind `AddUsers` the authenticator accepts the
  -- texts that it accepted and the UUIDs of the added users, and no others. Behind a `DelUsers` that
  -- returns, which returns no error, it accepts those that it accepted except the UUIDs of the
  -- deleted users, whichever node of the core they were deleted at. An accepted text is the user's name.
  pub authenticate_lem :
      (auth : String) (p : AddUsersParams) (us : List UserInfo) (tag : String) (h h' : Hysteria2 S)
      (e : Option String)
      → del_users spawned us tag h ≡ some (e, h')
      → ((authenticate auth (add_users spawned p h).1).0
          ≡ (mentions auth p.users || (authenticate auth h).0))
        × ((authenticate auth h').0 ≡ (not (mentions auth us) && (authenticate auth h).0))
        × (e ≡ none)
        × ((authenticate auth h).0 ≡ true → (authenticate auth h).1 ≡ auth)
  unfolding add_users authenticate
  authenticate_lem auth p us tag h h' e d =
      let deleted = is_some-del_users auth us tag h h' e d in
      (
        ground (
          arith,
          is_some-learn auth (spawned p.users) h.users_map,
          mentions_same auth (spawned p.users) p.users (all_run p.users),
        ),
        ground (arith, deleted.0),
        deleted.1,
        λ a. ground arith,
      )
