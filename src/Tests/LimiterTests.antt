-- ===== src/Tests/LimiterTests.antt =====
-- limiter/: the theorems on two users, one of whom has a device limit that is reached.
use v2b_x_turbo.Base.{
  arith, ℤ, pos, String, true, false, none, some, List, [], ◌∷◌, lookup, In, ◌≡◌, refl, is_some,
  string_eq, int_eq, trim_prefix, quot, int64, ◌*ℤ◌,
}
use v2b_x_turbo.Limiter.Types.{UserLimitInfo, Limiter, determine_speed_limit}
use v2b_x_turbo.Limiter.Check.{check_limit, get_online_device, byte_rate}
use v2b_x_turbo.Limiter.Check.View.{online, refused}
use v2b_x_turbo.Limiter.Check.Admission.{reject-check_limit, online-check_limit}
use v2b_x_turbo.Limiter.Check.Bucket.{effective_limit}
use v2b_x_turbo.Limiter.Check.Speed.{
  Attempt, attempts, bucket-check_limit, expired_dynamic_limit_rejects,
}
use v2b_x_turbo.Limiter.Check.Online.{online-get_online_device}

abbrev new_bucket : ℤ → ℤ → ℤ → ℤ
new_bucket interval capacity quantum = capacity

abbrev limited : UserLimitInfo
limited = record {
  uid = pos 1;
  speed_limit = pos 8;
  device_limit = pos 1;
  dynamic_speed_limit = pos 0;
  expire_time = pos 0;
  over_limit = false;
}

abbrev slowed : UserLimitInfo
slowed = record {
  uid = pos 2;
  speed_limit = pos 0;
  device_limit = pos 0;
  dynamic_speed_limit = pos 3;
  expire_time = pos 10;
  over_limit = false;
}

abbrev node_limiter : Limiter String ℤ
node_limiter = record {
  domain_rules = [];
  protocol_rules = [];
  speed_limit = pos 5;
  user_online_ip = ("a", ("1.1.1.1", pos 1) ∷ []) ∷ [];
  old_user_online = [];
  uuid_to_uid = ("a", pos 1) ∷ ("b", pos 2) ∷ [];
  user_limit_info = ("a", limited) ∷ ("b", slowed) ∷ [];
  speed_limiter = [];
  alive_list = (pos 1, pos 1) ∷ [];
}

reject-check_limit_example :
    (check_limit new_bucket (pos 20) "a" "::ffff:2.2.2.2" true node_limiter).reject ≡ true
unfolding refused lookup online trim_prefix
reject-check_limit_example =
    reject-check_limit new_bucket (pos 20) "a" "::ffff:2.2.2.2" true node_limiter

online-check_limit_example :
    online
      (check_limit new_bucket (pos 20) "b" "2.2.2.2" true node_limiter).after.user_online_ip
      "b"
      "2.2.2.2"
    ≡ some (pos 2)
unfolding lookup online check_limit trim_prefix
online-check_limit_example =
    online-check_limit new_bucket (pos 20) "b" "2.2.2.2" true slowed node_limiter "b" "2.2.2.2" refl

bucket-check_limit_example :
    let v = check_limit new_bucket (pos 20) "a" "1.1.1.1" true node_limiter in
    (v.bucket ≡ some (pos 625000)) × (lookup "a" v.after.speed_limiter ≡ v.bucket)
unfolding lookup check_limit byte_rate effective_limit trim_prefix quot int64 ◌*ℤ◌
    determine_speed_limit
bucket-check_limit_example =
    bucket-check_limit new_bucket (pos 20) "a" "1.1.1.1" true limited node_limiter "a" refl refl

abbrev later : List Attempt
later = record { now = pos 20; taguuid = "a"; address = "1.1.1.1"; no_ssudp = true } ∷ []

expired_dynamic_limit_rejects_example :
    (check_limit new_bucket (pos 21) "b" "2.2.2.2" true (
      attempts new_bucket later
        (check_limit new_bucket (pos 20) "b" "2.2.2.2" true node_limiter).after)).reject
    ≡ true
unfolding lookup
expired_dynamic_limit_rejects_example =
    expired_dynamic_limit_rejects new_bucket (pos 20) "b" "2.2.2.2" "2.2.2.2" true true (pos 21)
      slowed node_limiter later refl refl (λ e. cc) (omega arith)

online-get_online_device_example :
    let r = get_online_device node_limiter in
    (online r.1.user_online_ip "a" "1.1.1.1" ≡ none)
    × ((v : ℤ)
        → online node_limiter.user_online_ip "a" "1.1.1.1" ≡ some v
        → In (record { uid = v; ip = "1.1.1.1" }) r.0
          × (is_some (lookup "1.1.1.1" r.1.old_user_online) ≡ true))
    × ((v : ℤ)
        → lookup "1.1.1.1" r.1.old_user_online ≡ some v
        → In (record { uid = v; ip = "1.1.1.1" }) r.0)
online-get_online_device_example = online-get_online_device node_limiter "a" "1.1.1.1"
