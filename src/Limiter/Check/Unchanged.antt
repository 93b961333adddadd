-- ===== src/Limiter/Check/Unchanged.antt =====
-- What `CheckLimit` leaves as it is: the rules of the limiter.
use v2b_x_turbo.Base.{
  false, ℤ, String, Bool, lookup, trim_prefix, ◌≡◌, refl, arith, Option-cases, inl, inr, string_eq,
}
use v2b_x_turbo.Limiter.Types.{UserLimitInfo, Limiter}
use v2b_x_turbo.Limiter.Check.{check_limit, user_limit, track, bucket_for, byte_rate, admit}

module _ {Regex Bucket : Type 0} where
  abbrev pub SameRules : Limiter Regex Bucket → Limiter Regex Bucket → Type 0
  SameRules l l' = (l'.domain_rules ≡ l.domain_rules) × (l'.protocol_rules ≡ l.protocol_rules)

  user_limit-SameRules :
      (now : ℤ) (taguuid : String) (u : UserLimitInfo) (l : Limiter Regex Bucket)
      → SameRules l (user_limit now taguuid u l).1
  unfolding user_limit
  user_limit-SameRules now taguuid u l = ground arith

  track-SameRules :
      (taguuid ip : String) (uid limit : ℤ) (l : Limiter Regex Bucket)
      → SameRules l (track taguuid ip uid limit l).1
  unfolding track
  track-SameRules taguuid ip uid limit l = ground arith

  admit-SameRules :
      (new_bucket : ℤ → ℤ → ℤ → Bucket) (taguuid : String) (limit : ℤ)
      (r : Bool × Limiter Regex Bucket)
      → SameRules r.1 (admit new_bucket taguuid limit r).after
  unfolding admit bucket_for
  admit-SameRules new_bucket taguuid limit r = ground arith

  pub check_limit-SameRules :
      (new_bucket : ℤ → ℤ → ℤ → Bucket) (now : ℤ) (taguuid address : String) (no_ssudp : Bool)
      (l : Limiter Regex Bucket)
      → SameRules l (check_limit new_bucket now taguuid address no_ssudp l).after
  unfolding check_limit
  check_limit-SameRules new_bucket now taguuid address no_ssudp l =
      elim (Option-cases (lookup taguuid l.user_limit_info)) [
        | inl e ↦ rw (e, check_limit) (refl, refl)
        | inr (u, e) ↦
            let ip = trim_prefix address "::ffff:" in
            let l' = (user_limit now taguuid u l).1 in
            let t = track taguuid ip u.uid u.device_limit l' in
            rw (e, check_limit)
              (ground (
                arith,
                user_limit-SameRules now taguuid u l,
                track-SameRules taguuid ip u.uid u.device_limit l',
                admit-SameRules new_bucket taguuid
                    (byte_rate l.speed_limit (user_limit now taguuid u l).0) t,
                admit-SameRules new_bucket taguuid
                    (byte_rate l.speed_limit (user_limit now taguuid u l).0) (false, l'),
              ))
      ]
