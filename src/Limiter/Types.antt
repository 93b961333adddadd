-- ===== src/Limiter/Types.antt =====
-- limiter/limiter.go: the state of a node's limiter. The compiled expressions of `regexp` and the
-- buckets of `juju/ratelimit` are parameters.
use v2b_x_turbo.Base.{ℤ, pos, lt_ℤ, String, Bool, List, Map, ◌==◌, int_eq, ◌||◌, if◌then◌else◌}

pub record UserLimitInfo : Type 0 where
  pub uid : ℤ
  pub speed_limit : ℤ
  pub device_limit : ℤ
  pub dynamic_speed_limit : ℤ
  pub expire_time : ℤ
  pub over_limit : Bool

pub record Limiter (Regex Bucket : Type 0) : Type 0 where
  pub domain_rules : List Regex
  pub protocol_rules : List String
  pub speed_limit : ℤ
  pub user_online_ip : Map String (Map String ℤ)
  pub old_user_online : Map String ℤ
  pub uuid_to_uid : Map String ℤ
  pub user_limit_info : Map String UserLimitInfo
  pub speed_limiter : Map String Bucket
  pub alive_list : Map ℤ ℤ

-- limiter/dynamic.go
unfoldable pub determine_speed_limit : ℤ → ℤ → ℤ
determine_speed_limit limit1 limit2 =
    if limit1 == pos 0 || limit2 == pos 0
    then (if lt_ℤ limit2 limit1 then limit1 else if lt_ℤ limit1 limit2 then limit2 else pos 0)
    else (if lt_ℤ limit2 limit1 then limit2 else if lt_ℤ limit1 limit2 then limit1 else limit1)
