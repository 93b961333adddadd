-- ===== src/Limiter/Check/Admission.antt =====
-- When `CheckLimit` rejects, and what a rejection leaves behind.
use v2b_x_turbo.Base.{
  ℤ, String, Bool, some, lookup, store, lookup-store, delete-store_new, lookup-single, Option-cases,
  inl, inr, string_eq, ◌==◌, ◌&&◌, not, [], ◌∷◌, if◌then◌else◌, ◌≡◌, arith, trim_prefix,
}
use text.Mathlib.TextEquality.{eq_iff}
use v2b_x_turbo.Limiter.Types.{UserLimitInfo, Limiter}
use v2b_x_turbo.Limiter.Check.{user_limit, track, admit, bucket_for, check_limit}
use v2b_x_turbo.Limiter.Check.View.{holder, online, over_devices, refused}

module _ {Regex Bucket : Type 0} where
  reject-track :
      (taguuid ip : String) (u : UserLimitInfo) (l : Limiter Regex Bucket)
      → (track taguuid ip u.uid u.device_limit l).0 ≡ over_devices u taguuid ip l
  unfolding track over_devices
  reject-track taguuid ip u l = ground arith

  over_devices-user_limit :
      (now : ℤ) (taguuid ip : String) (u u' : UserLimitInfo) (l : Limiter Regex Bucket)
      → over_devices u taguuid ip (user_limit now taguuid u' l).1 ≡ over_devices u taguuid ip l
  unfolding user_limit over_devices
  over_devices-user_limit now taguuid ip u u' l = ground arith

  reject-admit :
      (new_bucket : ℤ → ℤ → ℤ → Bucket) (taguuid : String) (limit : ℤ)
      (r : Bool × Limiter Regex Bucket)
      → (admit new_bucket taguuid limit r).reject ≡ r.0
  unfolding admit
  reject-admit new_bucket taguuid limit r = ground arith

  module _ (new_bucket : ℤ → ℤ → ℤ → Bucket) (now : ℤ) where
    -- `CheckLimit` rejects a connection exactly when the user is unknown, or the device limit is
    -- checked and the address is new to the user and absent from the last report, while the user's
    -- positive device limit is at most the panel's count of live addresses.
    pub reject-check_limit :
        (taguuid address : String) (no_ssudp : Bool) (l : Limiter Regex Bucket)
        → (check_limit new_bucket now taguuid address no_ssudp l).reject
          ≡ refused taguuid (trim_prefix address "::ffff:") no_ssudp l
    unfolding check_limit refused
    reject-check_limit taguuid address no_ssudp l =
        elim (Option-cases (lookup taguuid l.user_limit_info)) [
          | inl absent ↦ rw (absent, check_limit, refused)
          | inr (u, e) ↦
              rw (e, check_limit, refused, reject-admit)
                (ground (
                  arith,
                  reject-track taguuid (trim_prefix address "::ffff:") u
                      (user_limit now taguuid u l).1,
                  over_devices-user_limit now taguuid (trim_prefix address "::ffff:") u u l,
                ))
        ]

  -- The view after `track`: an admitted address is recorded, under the user who holds it already
  -- or under this one, and nothing else changes.
  pub online-track :
      (taguuid ip : String) (uid device_limit : ℤ) (l : Limiter Regex Bucket) (j k : String)
      → let r = track taguuid ip uid device_limit l in
        online r.1.user_online_ip j k ≡ (
          if taguuid == j && ip == k && not r.0
          then some (holder uid (online l.user_online_ip j k))
          else online l.user_online_ip j k)
  unfolding track online
  online-track taguuid ip uid device_limit l j k =
      elim (Option-cases (lookup taguuid l.user_online_ip)) [
        | inl e ↦ ground (
          arith,
          lookup-store taguuid j ((ip, uid) ∷ []) l.user_online_ip,
          lookup-single ip k uid,
          delete-store_new taguuid ((ip, uid) ∷ []) l.user_online_ip,
          eq_iff taguuid j,
          eq_iff ip k,
        )
        | inr (old, e) ↦ ground (
          arith,
          lookup-store taguuid j old l.user_online_ip,
          lookup-store taguuid j (store ip uid old) l.user_online_ip,
          lookup-store ip k uid old,
          delete-store_new ip uid old,
          eq_iff taguuid j,
          eq_iff ip k,
        )
      ]

  user_online_ip-admit :
      (new_bucket : ℤ → ℤ → ℤ → Bucket) (taguuid : String) (limit : ℤ)
      (r : Bool × Limiter Regex Bucket)
      → (admit new_bucket taguuid limit r).after.user_online_ip ≡ r.1.user_online_ip
  unfolding admit bucket_for
  user_online_ip-admit new_bucket taguuid limit r = ground arith

  user_online_ip-user_limit :
      (now : ℤ) (taguuid : String) (u : UserLimitInfo) (l : Limiter Regex Bucket)
      → (user_limit now taguuid u l).1.user_online_ip ≡ l.user_online_ip
  unfolding user_limit
  user_online_ip-user_limit now taguuid u l = ground arith

  module _ (new_bucket : ℤ → ℤ → ℤ → Bucket) (now : ℤ) where
    -- For a known user `CheckLimit` records the address of a connection that it admits under the
    -- device limit, for the user who holds it already or else for this one. Every other address of
    -- every user stays as it was: all of them where the connection is rejected, or where the device
    -- limit is not checked.
    pub online-check_limit :
        (taguuid address : String) (no_ssudp : Bool) (u : UserLimitInfo) (l : Limiter Regex Bucket)
        (j k : String)
        → lookup taguuid l.user_limit_info ≡ some u
        → let v = check_limit new_bucket now taguuid address no_ssudp l in
          online v.after.user_online_ip j k ≡ (
            if no_ssudp && not v.reject && taguuid == j && trim_prefix address "::ffff:" == k
            then some (holder u.uid (online l.user_online_ip j k))
            else online l.user_online_ip j k)
    unfolding check_limit
    online-check_limit taguuid address no_ssudp u l j k e =
        let ip = trim_prefix address "::ffff:" in
        let l' = (user_limit now taguuid u l).1 in
        rw (e, check_limit, reject-admit, user_online_ip-admit)
          (ground (
            arith,
            online-track taguuid ip u.uid u.device_limit l' j k,
            user_online_ip-user_limit now taguuid u l,
          ))
