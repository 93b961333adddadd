-- ===== src/Limiter/Check/Bucket.antt =====
-- The steps of `CheckLimit` that choose the limit of a user and its bucket, each by itself.
use Prim.Native.Nat.{min}
use text.Mathlib.TextEquality.{eq_iff}
use v2b_x_turbo.Base.{
  or_else, ap, not, ◌&&◌, ◌==◌, int_eq, ℕ, ◌*◌, ◌<◌, ℤ, pos, lt_ℤ, ◌*ℤ◌, int64_of_range, quot,
  String, Bool, false, Option, none, some, lookup, lookup-store, lookup-delete, string_eq, nat_beq,
  if◌then◌else◌, ◌≡◌, refl, arith, trim_prefix,
}
use v2b_x_turbo.Limiter.Types.{UserLimitInfo, Limiter, determine_speed_limit}
use v2b_x_turbo.Limiter.Check.{second, user_limit, track, admit, bucket_for, byte_rate, check_limit}

-- 0 stands for no limit.
abbrev pub stricter : ℕ → ℕ → ℕ
stricter a b = if nat_beq a 0 then b else if nat_beq b 0 then a else min a b

determine_speed_limit_comm : (a b : ℤ) → determine_speed_limit a b ≡ determine_speed_limit b a
unfolding determine_speed_limit
determine_speed_limit_comm a b = ground arith

pub determine-stricter : (a b : ℕ) → determine_speed_limit (pos a) (pos b) ≡ pos (stricter a b)
unfolding determine_speed_limit
determine-stricter a b = ground arith

mul_pos : (a b : ℕ) → pos a *ℤ pos b ≡ pos (a * b)
unfolding ◌*ℤ◌
mul_pos a b = ground arith

pub byte_rate-stricter :
    (a b : ℕ)
    → stricter a b < 9000000000000
    → byte_rate (pos a) (pos b) ≡ pos (stricter a b * 125000)
unfolding byte_rate quot
byte_rate-stricter a b h =
    rw (determine-stricter, mul_pos, int64_of_range (stricter a b * 1000000) (omega arith))
      (ap pos (omega arith))

-- The limit that applies to a user at a time.
unfoldable pub effective_limit : ℤ → UserLimitInfo → ℤ
effective_limit now u =
    if lt_ℤ u.expire_time now && not (u.expire_time == pos 0)
    then u.speed_limit
    else determine_speed_limit u.speed_limit u.dynamic_speed_limit

-- The entry of a user after a check.
unfoldable pub info_after : ℤ → UserLimitInfo → Option UserLimitInfo
info_after now u =
    if lt_ℤ u.expire_time now && not (u.expire_time == pos 0)
    then (if u.speed_limit == pos 0
        then none
        else some (record u { dynamic_speed_limit = pos 0; expire_time = pos 0 }))
    else some u

module _ {Regex Bucket : Type 0} where
  speed_limiter-user_limit :
      (now : ℤ) (taguuid : String) (u : UserLimitInfo) (l : Limiter Regex Bucket)
      → (user_limit now taguuid u l).1.speed_limiter ≡ l.speed_limiter
  unfolding user_limit
  speed_limiter-user_limit now taguuid u l = ground arith

  speed_limiter-track :
      (taguuid ip : String) (uid device_limit : ℤ) (l : Limiter Regex Bucket)
      → (track taguuid ip uid device_limit l).1.speed_limiter ≡ l.speed_limiter
  unfolding track
  speed_limiter-track taguuid ip uid device_limit l = ground arith

  pub user_limit_info-track :
      (taguuid ip : String) (uid device_limit : ℤ) (l : Limiter Regex Bucket)
      → (track taguuid ip uid device_limit l).1.user_limit_info ≡ l.user_limit_info
  unfolding track
  user_limit_info-track taguuid ip uid device_limit l = ground arith

  pub user_limit_info-admit :
      (new_bucket : ℤ → ℤ → ℤ → Bucket) (taguuid : String) (limit : ℤ)
      (r : Bool × Limiter Regex Bucket)
      → (admit new_bucket taguuid limit r).after.user_limit_info ≡ r.1.user_limit_info
  unfolding admit bucket_for
  user_limit_info-admit new_bucket taguuid limit r = ground arith

  user_limit-effective :
      (now : ℤ) (taguuid : String) (u : UserLimitInfo) (l : Limiter Regex Bucket)
      → (user_limit now taguuid u l).0 ≡ effective_limit now u
  unfolding user_limit effective_limit determine_speed_limit
  user_limit-effective now taguuid u l = ground arith

  pub user_limit_info-user_limit :
      (now : ℤ) (taguuid : String) (u : UserLimitInfo) (l : Limiter Regex Bucket) (k : String)
      → lookup taguuid l.user_limit_info ≡ some u
      → lookup k (user_limit now taguuid u l).1.user_limit_info
        ≡ (if taguuid == k then info_after now u else lookup k l.user_limit_info)
  unfolding user_limit info_after
  user_limit_info-user_limit now taguuid u l k e = ground (
    arith,
    lookup-store taguuid k (record u { dynamic_speed_limit = pos 0; expire_time = pos 0 })
        l.user_limit_info,
    lookup-delete taguuid k l.user_limit_info,
    eq_iff taguuid k,
  )

  pub bucket-admit :
      (new_bucket : ℤ → ℤ → ℤ → Bucket) (taguuid k : String) (rate : ℤ)
      (r : Bool × Limiter Regex Bucket)
      → r.0 ≡ false
      → let v = admit new_bucket taguuid rate r in
        (v.bucket ≡ (
          if lt_ℤ (pos 0) rate
          then some (or_else (new_bucket second rate rate) (lookup taguuid r.1.speed_limiter))
          else none))
        × (lookup k v.after.speed_limiter
            ≡ (if lt_ℤ (pos 0) rate && taguuid == k then v.bucket else lookup k r.1.speed_limiter))
  unfolding admit bucket_for
  bucket-admit new_bucket taguuid k rate r h = ground (
    arith,
    lookup-store taguuid k (new_bucket second rate rate) r.1.speed_limiter,
    eq_iff taguuid k,
  )

  -- The two steps before the bucket.
  unfoldable pub tracked :
      ℤ
      → String
      → String
      → Bool
      → UserLimitInfo
      → Limiter Regex Bucket
      → Bool × Limiter Regex Bucket
  tracked now taguuid address no_ssudp u l =
      let l' = (user_limit now taguuid u l).1 in
      if no_ssudp
      then track taguuid (trim_prefix address "::ffff:") u.uid u.device_limit l'
      else (false, l')

  pub check_limit_known :
      (new_bucket : ℤ → ℤ → ℤ → Bucket) (now : ℤ) (taguuid address : String) (no_ssudp : Bool)
      (u : UserLimitInfo) (l : Limiter Regex Bucket)
      → lookup taguuid l.user_limit_info ≡ some u
      → check_limit new_bucket now taguuid address no_ssudp l
        ≡ admit new_bucket taguuid
            (byte_rate l.speed_limit (effective_limit now u))
            (tracked now taguuid address no_ssudp u l)
  unfolding check_limit tracked
  check_limit_known new_bucket now taguuid address no_ssudp u l e =
      rw (e, check_limit, ← user_limit-effective now taguuid u l) refl

  pub speed_limiter-tracked :
      (now : ℤ) (taguuid address : String) (no_ssudp : Bool) (u : UserLimitInfo)
      (l : Limiter Regex Bucket)
      → (tracked now taguuid address no_ssudp u l).1.speed_limiter ≡ l.speed_limiter
  unfolding tracked
  speed_limiter-tracked now taguuid address no_ssudp u l = ground (
    arith,
    speed_limiter-track taguuid (trim_prefix address "::ffff:") u.uid u.device_limit
        (user_limit now taguuid u l).1,
    speed_limiter-user_limit now taguuid u l,
  )

  pub reject-admit :
      (new_bucket : ℤ → ℤ → ℤ → Bucket) (taguuid : String) (limit : ℤ)
      (r : Bool × Limiter Regex Bucket)
      → (admit new_bucket taguuid limit r).reject ≡ r.0
  unfolding admit
  reject-admit new_bucket taguuid limit r = ground arith
