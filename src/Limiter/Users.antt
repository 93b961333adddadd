-- ===== src/Limiter/Users.antt =====
-- The users of a limiter: `AddLimiter`, `UpdateUser`, `UpdateDynamicSpeedLimit` and
-- `AddDynamicSpeedLimit` of limiter/limiter.go and limiter/dynamic.go.
pub mod Update
use v2b_x_turbo.Base.{
  ℤ, pos, ◌+ℤ◌, unix, seconds, String, Bool, false, not, Option, none, some, Result, ok, err, List,
  [], ◌∷◌, Map, lookup, store, delete, ◌==◌, int_eq, string_eq, if◌then◌else◌,
}
use v2b_x_turbo.Format.{user_tag}
use v2b_x_turbo.Panel.Types.{UserInfo}
use v2b_x_turbo.Limiter.Types.{UserLimitInfo, Limiter}

-- The zero value of the struct.
abbrev zero_info : UserLimitInfo
zero_info = record {
  uid = pos 0;
  speed_limit = pos 0;
  device_limit = pos 0;
  dynamic_speed_limit = pos 0;
  expire_time = pos 0;
  over_limit = false;
}

-- The entry of a user that the panel has sent, as `AddLimiter` fills it in.
unfoldable pub new_info : UserInfo → UserLimitInfo
new_info user =
    let info = record zero_info { uid = user.id } in
    let info =
      if not (user.speed_limit == pos 0)
      then record info { speed_limit = user.speed_limit }
      else info in
    let info =
      if not (user.device_limit == pos 0)
      then record info { device_limit = user.device_limit }
      else info in
    record info { over_limit = false }

-- The entry that `UpdateUser` fills in.
added_info : UserInfo → UserLimitInfo
added_info user =
    let info = record zero_info { uid = user.id } in
    let info =
      if not (user.speed_limit == pos 0)
      then record info { speed_limit = user.speed_limit; expire_time = pos 0 }
      else info in
    let info =
      if not (user.device_limit == pos 0)
      then record info { device_limit = user.device_limit }
      else info in
    record info { over_limit = false }

module _ {Regex Bucket : Type 0} where
  -- One round of the loop of `AddLimiter`.
  register : String → UserInfo → Limiter Regex Bucket → Limiter Regex Bucket
  unfolding new_info
  register tag user l = record l {
    uuid_to_uid = store user.uuid user.id l.uuid_to_uid;
    user_limit_info = store (user_tag tag user.uuid) (new_info user) l.user_limit_info;
  }

  register_all : String → List UserInfo → Limiter Regex Bucket → Limiter Regex Bucket
  unfolding register
  register_all tag [] l = l
  register_all tag (user ∷ users) l = register_all tag users (register tag user l)

  -- The limiter that `AddLimiter` makes, before it is entered under its tag.
  unfoldable pub new_limiter : String → ℤ → List UserInfo → Map ℤ ℤ → Limiter Regex Bucket
  unfolding register_all
  new_limiter tag speed_limit users alive_list = register_all tag users (record {
    domain_rules = [];
    protocol_rules = [];
    speed_limit = speed_limit;
    user_online_ip = [];
    old_user_online = [];
    uuid_to_uid = [];
    user_limit_info = [];
    speed_limiter = [];
    alive_list = alive_list;
  })

  -- One round of the first loop of `UpdateUser`.
  drop_user : String → UserInfo → Limiter Regex Bucket → Limiter Regex Bucket
  drop_user tag user l = record l {
    user_limit_info = delete (user_tag tag user.uuid) l.user_limit_info;
    user_online_ip = delete (user_tag tag user.uuid) l.user_online_ip;
    speed_limiter = delete (user_tag tag user.uuid) l.speed_limiter;
    uuid_to_uid = delete user.uuid l.uuid_to_uid;
    alive_list = delete user.id l.alive_list;
  }

  drop_users : String → List UserInfo → Limiter Regex Bucket → Limiter Regex Bucket
  unfolding drop_user
  drop_users tag [] l = l
  drop_users tag (user ∷ users) l = drop_users tag users (drop_user tag user l)

  -- One round of the second.
  add_user : String → UserInfo → Limiter Regex Bucket → Limiter Regex Bucket
  unfolding added_info
  add_user tag user l = record l {
    user_limit_info = store (user_tag tag user.uuid) (added_info user) l.user_limit_info;
    uuid_to_uid = store user.uuid user.id l.uuid_to_uid;
  }

  add_users : String → List UserInfo → Limiter Regex Bucket → Limiter Regex Bucket
  unfolding add_user
  add_users tag [] l = l
  add_users tag (user ∷ users) l = add_users tag users (add_user tag user l)

  unfoldable pub update_user :
      String → List UserInfo → List UserInfo → Limiter Regex Bucket → Limiter Regex Bucket
  unfolding drop_users add_users
  update_user tag added deleted l = add_users tag added (drop_users tag deleted l)

  -- `expire` is the Unix time of the argument.
  unfoldable pub update_dynamic_speed_limit :
      String → String → ℤ → ℤ → Limiter Regex Bucket → Result (Limiter Regex Bucket)
  update_dynamic_speed_limit tag uuid limit expire l =
      elim (lookup (user_tag tag uuid) l.user_limit_info) [
        | none ↦ err "not found"
        | some info ↦ ok (record l {
          user_limit_info =
              store (user_tag tag uuid)
                (record info { dynamic_speed_limit = limit; expire_time = expire })
                l.user_limit_info;
        })
      ]

  -- `now` is the time at which it runs, in nanoseconds; `expire` counts seconds.
  unfoldable pub add_dynamic_speed_limit :
      ℤ → String → UserInfo → ℤ → ℤ → Limiter Regex Bucket → Limiter Regex Bucket
  add_dynamic_speed_limit now tag user_info limit_num expire l = record l {
    user_limit_info =
        store (user_tag tag user_info.uuid)
          (record zero_info {
            dynamic_speed_limit = limit_num;
            expire_time = unix (now +ℤ seconds expire);
          })
          l.user_limit_info;
  }
