-- ===== src/Limiter/Users/Update.antt =====
-- Which entries a limiter has after `AddLimiter` and `UpdateUser`.
use text.Mathlib.TextEquality.{eq_iff}
use v2b_x_turbo.Base.{
  ℤ, pos, String, Bool, false, Option, none, some, List, [], ◌∷◌, Map, lookup, lookup-store,
  lookup-delete, ◌==◌, ◌||◌, int_eq, string_eq, if◌then◌else◌, ◌≡◌, refl, arith, ap, int_beq_iff,
  ◌∙◌,
}
use v2b_x_turbo.Format.{user_tag, user_tag-injective}
use v2b_x_turbo.Panel.Types.{UserInfo}
use v2b_x_turbo.Limiter.Types.{UserLimitInfo, Limiter}
use v2b_x_turbo.Limiter.Users.{
  new_info, added_info, register, register_all, new_limiter, drop_user, drop_users, add_user,
  add_users, update_user,
}

-- The last user of a list with a UUID.
unfoldable pub find_last : String → List UserInfo → Option UserInfo
find_last uuid [] = none
find_last uuid (user ∷ users) = elim (find_last uuid users) [
  | some v ↦ some v
  | none ↦ if user.uuid == uuid then some user else none
]

unfoldable pub has_uuid : String → List UserInfo → Bool
has_uuid uuid [] = false
has_uuid uuid (user ∷ users) = user.uuid == uuid || has_uuid uuid users

unfoldable pub has_id : ℤ → List UserInfo → Bool
has_id n [] = false
has_id n (user ∷ users) = user.id == n || has_id n users

-- The user's own limits, and no dynamic one.
abbrev pub entry : UserInfo → UserLimitInfo
entry user = record {
  uid = user.id;
  speed_limit = user.speed_limit;
  device_limit = user.device_limit;
  dynamic_speed_limit = pos 0;
  expire_time = pos 0;
  over_limit = false;
}

abbrev pub entry_of : Option UserInfo → Option UserLimitInfo → Option UserLimitInfo
entry_of none old = old
entry_of (some user) old = some (entry user)

abbrev pub id_of : Option UserInfo → Option ℤ → Option ℤ
id_of none old = old
id_of (some user) old = some user.id

new_info_lem : (user : UserInfo) → new_info user ≡ entry user
unfolding new_info
new_info_lem user =
    ground (arith, int_beq_iff user.speed_limit (pos 0), int_beq_iff user.device_limit (pos 0))

added_info_lem : (user : UserInfo) → added_info user ≡ entry user
unfolding added_info
added_info_lem user =
    ground (arith, int_beq_iff user.speed_limit (pos 0), int_beq_iff user.device_limit (pos 0))

user_tag_eq : (tag u v : String) → (user_tag tag u == user_tag tag v) ≡ (u == v)
user_tag_eq tag u v =
    ground (arith, eq_iff (user_tag tag u) (user_tag tag v), eq_iff u v, user_tag-injective tag u v)

module _ {Regex Bucket : Type 0} (tag uuid : String) where
  info-register_all :
      (users : List UserInfo) (l : Limiter Regex Bucket)
      → lookup (user_tag tag uuid) (register_all tag users l).user_limit_info
        ≡ entry_of (find_last uuid users) (lookup (user_tag tag uuid) l.user_limit_info)
  unfolding register_all find_last
  info-register_all [] l = refl
  info-register_all (user ∷ users) l =
      info-register_all users (register tag user l)
      ∙ ground (
        arith,
        lookup-store (user_tag tag user.uuid) (user_tag tag uuid) (new_info user) l.user_limit_info,
        user_tag_eq tag user.uuid uuid,
        new_info_lem user,
      )

  uid-register_all :
      (users : List UserInfo) (l : Limiter Regex Bucket)
      → lookup uuid (register_all tag users l).uuid_to_uid
        ≡ id_of (find_last uuid users) (lookup uuid l.uuid_to_uid)
  unfolding register_all find_last
  uid-register_all [] l = refl
  uid-register_all (user ∷ users) l =
      uid-register_all users (register tag user l)
      ∙ ground (arith, lookup-store user.uuid uuid user.id l.uuid_to_uid, eq_iff user.uuid uuid)

  info-add_users :
      (users : List UserInfo) (l : Limiter Regex Bucket)
      → lookup (user_tag tag uuid) (add_users tag users l).user_limit_info
        ≡ entry_of (find_last uuid users) (lookup (user_tag tag uuid) l.user_limit_info)
  unfolding add_users find_last
  info-add_users [] l = refl
  info-add_users (user ∷ users) l =
      info-add_users users (add_user tag user l)
      ∙ ground (
        arith,
        lookup-store (user_tag tag user.uuid) (user_tag tag uuid) (added_info user)
            l.user_limit_info,
        user_tag_eq tag user.uuid uuid,
        added_info_lem user,
      )

  uid-add_users :
      (users : List UserInfo) (l : Limiter Regex Bucket)
      → lookup uuid (add_users tag users l).uuid_to_uid
        ≡ id_of (find_last uuid users) (lookup uuid l.uuid_to_uid)
  unfolding add_users find_last
  uid-add_users [] l = refl
  uid-add_users (user ∷ users) l =
      uid-add_users users (add_user tag user l)
      ∙ ground (arith, lookup-store user.uuid uuid user.id l.uuid_to_uid, eq_iff user.uuid uuid)

  online-add_users :
      (users : List UserInfo) (l : Limiter Regex Bucket)
      → ((add_users tag users l).user_online_ip ≡ l.user_online_ip)
        × ((add_users tag users l).speed_limiter ≡ l.speed_limiter)
        × ((add_users tag users l).alive_list ≡ l.alive_list)
  unfolding add_users
  online-add_users [] l = (refl, refl, refl)
  online-add_users (user ∷ users) l = online-add_users users (add_user tag user l)

  drop_users_lem :
      (users : List UserInfo) (l : Limiter Regex Bucket)
      → let l' = drop_users tag users l in
        let gone = has_uuid uuid users in
        (lookup (user_tag tag uuid) l'.user_limit_info
          ≡ (if gone then none else lookup (user_tag tag uuid) l.user_limit_info))
        × (lookup (user_tag tag uuid) l'.user_online_ip
            ≡ (if gone then none else lookup (user_tag tag uuid) l.user_online_ip))
        × (lookup (user_tag tag uuid) l'.speed_limiter
            ≡ (if gone then none else lookup (user_tag tag uuid) l.speed_limiter))
        × (lookup uuid l'.uuid_to_uid ≡ (if gone then none else lookup uuid l.uuid_to_uid))
  unfolding drop_users has_uuid
  drop_users_lem [] l = (refl, refl, refl, refl)
  drop_users_lem (user ∷ users) l =
      let ih = drop_users_lem users (drop_user tag user l) in
      let same = user_tag_eq tag user.uuid uuid in
      let info = lookup-delete (user_tag tag user.uuid) (user_tag tag uuid) l.user_limit_info in
      let online = lookup-delete (user_tag tag user.uuid) (user_tag tag uuid) l.user_online_ip in
      let limiter = lookup-delete (user_tag tag user.uuid) (user_tag tag uuid) l.speed_limiter in
      let uid = lookup-delete user.uuid uuid l.uuid_to_uid in
      (
        ih.0 ∙ ground (arith, same, info),
        ih.1 ∙ ground (arith, same, online),
        ih.2 ∙ ground (arith, same, limiter),
        ih.3 ∙ ground (arith, uid),
      )

  alive-drop_users :
      (n : ℤ) (users : List UserInfo) (l : Limiter Regex Bucket)
      → lookup n (drop_users tag users l).alive_list
        ≡ (if has_id n users then none else lookup n l.alive_list)
  unfolding drop_users has_id
  alive-drop_users n [] l = refl
  alive-drop_users n (user ∷ users) l =
      alive-drop_users n users (drop_user tag user l)
      ∙ ground (arith, lookup-delete user.id n l.alive_list, int_beq_iff user.id n)

  -- After `UpdateUser` a UUID has the entry and the number of the last added user with it; else
  -- none if a user with it was deleted; else what it had. The online addresses and the bucket of a
  -- deleted UUID are gone, also where it is added again, and those of any other stay. The count of live addresses is gone for the numbers of the
  -- deleted users, and for no others.
  pub lookup-update_user :
      (added deleted : List UserInfo) (l : Limiter Regex Bucket)
      → let l' = update_user tag added deleted l in
        let gone = has_uuid uuid deleted in
        (lookup (user_tag tag uuid) l'.user_limit_info
          ≡ entry_of
              (find_last uuid added)
              (if gone then none else lookup (user_tag tag uuid) l.user_limit_info))
        × (lookup uuid l'.uuid_to_uid
            ≡ id_of (find_last uuid added) (if gone then none else lookup uuid l.uuid_to_uid))
        × (lookup (user_tag tag uuid) l'.user_online_ip
            ≡ (if gone then none else lookup (user_tag tag uuid) l.user_online_ip))
        × (lookup (user_tag tag uuid) l'.speed_limiter
            ≡ (if gone then none else lookup (user_tag tag uuid) l.speed_limiter))
        × ((n : ℤ)
            → lookup n l'.alive_list ≡ (if has_id n deleted then none else lookup n l.alive_list))
  unfolding update_user
  lookup-update_user added deleted l =
      let dropped = drop_users_lem deleted l in
      let l' = drop_users tag deleted l in
      (
        info-add_users added l' ∙ ap (entry_of (find_last uuid added)) dropped.0,
        uid-add_users added l' ∙ ap (id_of (find_last uuid added)) dropped.3,
        ap (lookup (user_tag tag uuid)) (online-add_users added l').0 ∙ dropped.1,
        ap (lookup (user_tag tag uuid)) (online-add_users added l').1 ∙ dropped.2,
        λ n. ap (lookup n) (online-add_users added l').2 ∙ alive-drop_users n deleted l,
      )

module _ (Regex Bucket : Type 0) (tag uuid : String) where
  -- A new limiter has, for each user of the list, the entry and the number of the last user with
  -- that UUID, and no other entry under its tag.
  pub lookup-new_limiter :
      (speed_limit : ℤ) (users : List UserInfo) (alive_list : Map ℤ ℤ)
      → let l = new_limiter {Regex = Regex} {Bucket = Bucket} tag speed_limit users alive_list in
        (lookup (user_tag tag uuid) l.user_limit_info ≡ entry_of (find_last uuid users) none)
        × (lookup uuid l.uuid_to_uid ≡ id_of (find_last uuid users) none)
  unfolding new_limiter lookup
  lookup-new_limiter speed_limit users alive_list =
      (info-register_all tag uuid users _, uid-register_all tag uuid users _)
