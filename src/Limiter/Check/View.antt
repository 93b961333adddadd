-- ===== src/Limiter/Check/View.antt =====
-- What a client of the limiter can see: which addresses of a user are online, and by which rule a
-- connection is refused, said without the steps of `CheckLimit`.
use v2b_x_turbo.Base.{
  ℤ, pos, lt_ℤ, le_ℤ, String, Bool, true, not, Option, none, some, Map, lookup, string_eq, int_eq,
  is_some, ◌&&◌,
}
use v2b_x_turbo.Limiter.Types.{UserLimitInfo, Limiter}
use v2b_x_turbo.Limiter.Check.{or_zero}

abbrev pub ip_of : Option (Map String ℤ) → String → Option ℤ
ip_of none ip = none
ip_of (some m) ip = lookup ip m

-- Whom a recorded address belongs to, or else this user.
abbrev pub holder : ℤ → Option ℤ → ℤ
holder uid none = uid
holder uid (some v) = v

-- The user whom an address is recorded for, under a user's key.
unfoldable pub online : Map String (Map String ℤ) → String → String → Option ℤ
online m taguuid ip = ip_of (lookup taguuid m) ip

module _ {Regex Bucket : Type 0} where
  -- A new address of a user with a device limit that the reported count has reached.
  unfoldable pub over_devices : UserLimitInfo → String → String → Limiter Regex Bucket → Bool
  unfolding online
  over_devices u taguuid ip l =
      not (is_some (online l.user_online_ip taguuid ip))
      && not (is_some (lookup ip l.old_user_online))
      && lt_ℤ (pos 0) u.device_limit
      && le_ℤ u.device_limit (or_zero (lookup u.uid l.alive_list))

  unfoldable pub refused : String → String → Bool → Limiter Regex Bucket → Bool
  unfolding over_devices
  refused taguuid ip no_ssudp l = elim (lookup taguuid l.user_limit_info) [
    | none ↦ true
    | some u ↦ no_ssudp && over_devices u taguuid ip l
  ]
