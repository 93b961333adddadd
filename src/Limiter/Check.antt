-- ===== src/Limiter/Check.antt =====
-- `Limiter.CheckLimit` and `Limiter.GetOnlineDevice` of limiter/limiter.go, each as one atomic step.
-- A `*UserLimitInfo` stands in one entry of the map only, so a write through it is a store.
pub mod View
pub mod Unchanged
pub mod Admission
pub mod Online
pub mod Bucket
pub mod Speed
use v2b_x_turbo.Base.{
  ℤ, pos, lt_ℤ, le_ℤ, int64, ◌*ℤ◌, quot, String, Bool, true, false, not, Option, none, some, List,
  [], ◌∷◌, ◌++◌, Map, lookup, store, delete, ◌==◌, int_eq, string_eq, ◌&&◌, if◌then◌else◌,
  trim_prefix, map,
}
use v2b_x_turbo.Panel.Types.{OnlineUser}
use v2b_x_turbo.Limiter.Types.{UserLimitInfo, Limiter, determine_speed_limit}

-- What Go's `m[k]` gives for a missing key: 0.
abbrev pub or_zero : Option ℤ → ℤ
or_zero none = pos 0
or_zero (some n) = n

-- `time.Second`, in nanoseconds
abbrev pub second : ℤ
second = pos 1000000000

-- Megabits a second to bytes a second, in `int64`.
unfoldable pub byte_rate : ℤ → ℤ → ℤ
byte_rate node_limit limit = quot (int64 (determine_speed_limit node_limit limit *ℤ pos 1000000)) 8

-- What `CheckLimit` answers, with the limiter after it.
pub record Verdict (Regex Bucket : Type 0) : Type 0 where
  pub bucket : Option Bucket
  pub reject : Bool
  pub after : Limiter Regex Bucket

module _ {Regex Bucket : Type 0} where
  -- The limit that applies to a user now. A dynamic limit that has expired is cleared; the entry
  -- of a user with no limit but that is deleted.
  unfoldable pub user_limit :
      ℤ → String → UserLimitInfo → Limiter Regex Bucket → ℤ × Limiter Regex Bucket
  user_limit now taguuid u l =
      if lt_ℤ u.expire_time now && not (u.expire_time == pos 0)
      then (if not (u.speed_limit == pos 0)
          then (
            u.speed_limit,
            record l {
              user_limit_info =
                  store taguuid (record u { dynamic_speed_limit = pos 0; expire_time = pos 0 })
                    l.user_limit_info;
            },
          )
          else (pos 0, record l { user_limit_info = delete taguuid l.user_limit_info }))
      else (determine_speed_limit u.speed_limit u.dynamic_speed_limit, l)

  -- An address that is in the report of the last round is not held against the limit again.
  unfoldable pub take_old : String → ℤ → ℤ → Limiter Regex Bucket → Limiter Regex Bucket
  take_old ip uid v l =
      if v == uid then record l { old_user_online = delete ip l.old_user_online } else l

  -- The part under `if noSSUDP`: the online addresses of the user, and whether to reject.
  unfoldable pub track :
      String → String → ℤ → ℤ → Limiter Regex Bucket → Bool × Limiter Regex Bucket
  unfolding take_old
  track taguuid ip uid device_limit l =
      let alive_ip = or_zero (lookup uid l.alive_list) in
      elim (lookup taguuid l.user_online_ip) [
        | some old_ip_map ↦ elim (lookup ip old_ip_map) [
          | some _ ↦ (false, l)
          | none ↦
              let ip_map = store ip uid old_ip_map in
              let l' = record l { user_online_ip = store taguuid ip_map l.user_online_ip } in
              elim (lookup ip l.old_user_online) [
                | some v ↦ (false, take_old ip uid v l')
                | none ↦
                    if lt_ℤ (pos 0) device_limit && le_ℤ device_limit alive_ip
                    then (
                      true,
                      record l {
                        user_online_ip = store taguuid (delete ip ip_map) l.user_online_ip;
                      },
                    )
                    else (false, l')
              ]
        ]
        | none ↦
            let online = store taguuid ((ip, uid) ∷ []) l.user_online_ip in
            let l' = record l { user_online_ip = online } in
            elim (lookup ip l.old_user_online) [
              | some v ↦ (false, take_old ip uid v l')
              | none ↦
                  if lt_ℤ (pos 0) device_limit && le_ℤ device_limit alive_ip
                  then (true, record l { user_online_ip = delete taguuid online })
                  else (false, l')
            ]
      ]

  -- The bucket of the user's connections: the one that is there, or a new one.
  unfoldable pub bucket_for :
      (ℤ → ℤ → ℤ → Bucket)
      → String
      → ℤ
      → Limiter Regex Bucket
      → Option Bucket × Limiter Regex Bucket
  bucket_for new_bucket taguuid limit l =
      if lt_ℤ (pos 0) limit
      then (elim (lookup taguuid l.speed_limiter) [
        | some b ↦ (some b, l)
        | none ↦
            let b = new_bucket second limit limit in
            (some b, record l { speed_limiter = store taguuid b l.speed_limiter })
      ])
      else (none, l)

  pub admit : (ℤ → ℤ → ℤ → Bucket) → String → ℤ → Bool × Limiter Regex Bucket → Verdict Regex Bucket
  admit new_bucket taguuid limit (true, l) = record { bucket = none; reject = true; after = l }
  admit new_bucket taguuid limit (false, l) =
      let (b, l') = bucket_for new_bucket taguuid limit l in
      record { bucket = b; reject = false; after = l' }

  -- `CheckLimit` at the time `now`; its argument `isTcp` is not used.
  unfoldable pub check_limit :
      (ℤ → ℤ → ℤ → Bucket)
      → ℤ
      → String
      → String
      → Bool
      → Limiter Regex Bucket
      → Verdict Regex Bucket
  unfolding user_limit track bucket_for byte_rate admit
  check_limit new_bucket now taguuid address no_ssudp l =
      let ip = trim_prefix address "::ffff:" in
      elim (lookup taguuid l.user_limit_info) [
        | none ↦ record { bucket = none; reject = true; after = l }
        | some u ↦
            let (limit, l') = user_limit now taguuid u l in
            admit new_bucket taguuid (byte_rate l.speed_limit limit)
              (if no_ssudp then track taguuid ip u.uid u.device_limit l' else (false, l'))
      ]

report_ips : Map String ℤ → List OnlineUser
report_ips [] = []
report_ips ((ip, uid) ∷ m) = record { uid = uid; ip = ip } ∷ report_ips m

-- The two nested ranges of `GetOnlineDevice`: what they append to the report.
unfoldable pub report : Map String (Map String ℤ) → List OnlineUser
unfolding report_ips
report [] = []
report ((taguuid, ip_map) ∷ m) = report_ips ip_map ++ report m

delete_all : List String → Map String (Map String ℤ) → Map String (Map String ℤ)
delete_all [] m = m
delete_all (k ∷ ks) m = delete_all ks (delete k m)

store_all : List OnlineUser → Map String ℤ → Map String ℤ
store_all [] m = m
store_all (o ∷ os) m = store_all os (store o.ip o.uid m)

-- The report of the round. Each address is stored in the new `OldUserOnline` in the order in
-- which it is appended, and the entry of each user is deleted after its addresses.
unfoldable pub get_online_device :
    {Regex Bucket : Type 0} → Limiter Regex Bucket → List OnlineUser × Limiter Regex Bucket
unfolding store_all delete_all
get_online_device l =
    let online_user = report l.user_online_ip in
    (
      online_user,
      record l {
        old_user_online = store_all online_user [];
        user_online_ip = delete_all (map (λ e. e.0) l.user_online_ip) l.user_online_ip;
      },
    )
