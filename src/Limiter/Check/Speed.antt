-- ===== src/Limiter/Check/Speed.antt =====
-- The speed limits that `CheckLimit` applies, and how long.
use text.Mathlib.TextEquality.{eq_iff}
use v2b_x_turbo.Base.{
  sym, ◌∙◌, lt_ℤ_iff, int_beq_iff, or_else, ap, ◌&&◌, ◌==◌, int_eq, ℕ, ◌*◌, ◌<◌, ℤ, pos, lt_ℤ, ◌<ℤ◌,
  String, Bool, true, false, none, some, List, [], ◌∷◌, Option-cases, inl, inr, lookup, string_eq,
  nat_beq, if◌then◌else◌, ◌≡◌, ◌≢◌, arith, trim_prefix,
}
use v2b_x_turbo.Limiter.Types.{UserLimitInfo, Limiter}
use v2b_x_turbo.Limiter.Check.{second, user_limit, byte_rate, check_limit}
use v2b_x_turbo.Limiter.Check.View.{refused}
use v2b_x_turbo.Limiter.Check.Admission.{reject-check_limit}
use v2b_x_turbo.Limiter.Check.Bucket.{
  stricter, determine-stricter, byte_rate-stricter, effective_limit, info_after,
  user_limit_info-track, user_limit_info-admit, user_limit_info-user_limit, bucket-admit, tracked,
  check_limit_known, speed_limiter-tracked, reject-admit,
}

-- A call of `CheckLimit`.
pub record Attempt : Type 0 where
  pub now : ℤ
  pub taguuid : String
  pub address : String
  pub no_ssudp : Bool

-- The limiter behind some calls, one after the other.
abbrev pub attempts :
    {Regex Bucket : Type 0}
    → (ℤ → ℤ → ℤ → Bucket)
    → List Attempt
    → Limiter Regex Bucket
    → Limiter Regex Bucket
attempts new_bucket [] l = l
attempts new_bucket (a ∷ later) l =
    attempts new_bucket later (check_limit new_bucket a.now a.taguuid a.address a.no_ssudp l).after

module _ {Regex Bucket : Type 0} where
  module _ (new_bucket : ℤ → ℤ → ℤ → Bucket) (now : ℤ) where
    -- A known user's check that admits returns the bucket that is stored for the user, or else a
    -- new one at the rate of the node's and the user's effective limits together, or none where
    -- that rate is not positive; a bucket that is returned is stored, and other users' buckets stay.
    pub bucket-check_limit :
        (taguuid address : String) (no_ssudp : Bool) (u : UserLimitInfo) (l : Limiter Regex Bucket)
        (k : String)
        → lookup taguuid l.user_limit_info ≡ some u
        → (check_limit new_bucket now taguuid address no_ssudp l).reject ≡ false
        → let v = check_limit new_bucket now taguuid address no_ssudp l in
          let rate = byte_rate l.speed_limit (effective_limit now u) in
          (v.bucket ≡ (
            if lt_ℤ (pos 0) rate
            then some (or_else (new_bucket second rate rate) (lookup taguuid l.speed_limiter))
            else none))
          × (lookup k v.after.speed_limiter
              ≡ (if lt_ℤ (pos 0) rate && taguuid == k then v.bucket else lookup k l.speed_limiter))
    unfolding tracked
    bucket-check_limit taguuid address no_ssudp u l k e r =
        let t = tracked now taguuid address no_ssudp u l in
        let rate = byte_rate l.speed_limit (effective_limit now u) in
        let known = check_limit_known new_bucket now taguuid address no_ssudp u l e in
        let admitted : t.0 ≡ false =
          sym (reject-admit new_bucket taguuid rate t) ∙ ap (λ v. v.reject) (sym known) ∙ r in
        rw known (
          rw (speed_limiter-tracked now taguuid address no_ssudp u l) at
            (bucket-admit new_bucket taguuid k rate t admitted))

    -- The entries of the users after a check: an expired dynamic limit is cleared, and the entry of
    -- a user with no limit but an expired dynamic one is deleted.
    pub user_limit_info-check_limit :
        (taguuid address : String) (no_ssudp : Bool) (u : UserLimitInfo) (l : Limiter Regex Bucket)
        (k : String)
        → lookup taguuid l.user_limit_info ≡ some u
        → lookup k (check_limit new_bucket now taguuid address no_ssudp l).after.user_limit_info
          ≡ (if taguuid == k then info_after now u else lookup k l.user_limit_info)
    unfolding tracked
    user_limit_info-check_limit taguuid address no_ssudp u l k e =
        rw (check_limit_known new_bucket now taguuid address no_ssudp u l e, user_limit_info-admit)
          (ground (
            arith,
            user_limit_info-track taguuid (trim_prefix address "::ffff:") u.uid u.device_limit
                (user_limit now taguuid u l).1,
            user_limit_info-user_limit now taguuid u l k e,
          ))

    -- A check enters no user.
    unknown_stays :
        (taguuid address : String) (no_ssudp : Bool) (l : Limiter Regex Bucket) (k : String)
        → lookup k l.user_limit_info ≡ none
        → lookup k (check_limit new_bucket now taguuid address no_ssudp l).after.user_limit_info
          ≡ none
    unfolding check_limit
    unknown_stays taguuid address no_ssudp l k gone =
        elim (Option-cases (lookup taguuid l.user_limit_info)) [
          | inl e ↦ rw (check_limit, e) gone
          | inr (u, e) ↦ ground (
            arith,
            user_limit_info-check_limit taguuid address no_ssudp u l k e,
            eq_iff taguuid k,
          )
        ]

  unknown_after :
      (new_bucket : ℤ → ℤ → ℤ → Bucket) (later : List Attempt) (l : Limiter Regex Bucket)
      (k : String)
      → lookup k l.user_limit_info ≡ none
      → lookup k (attempts new_bucket later l).user_limit_info ≡ none
  unknown_after new_bucket [] l k gone = gone
  unknown_after new_bucket (a ∷ later) l k gone =
      unknown_after new_bucket later
        (check_limit new_bucket a.now a.taguuid a.address a.no_ssudp l).after k
        (unknown_stays new_bucket a.now a.taguuid a.address a.no_ssudp l k gone)

  module _ (new_bucket : ℤ → ℤ → ℤ → Bucket) (now : ℤ) where
    -- A user with no limit but a dynamic one that has expired: behind one check of the user, and
    -- whatever checks of it and of others follow, each further check of it rejects.
    pub expired_dynamic_limit_rejects :
        (taguuid address address' : String) (no_ssudp no_ssudp' : Bool) (now' : ℤ)
        (u : UserLimitInfo) (l : Limiter Regex Bucket) (between : List Attempt)
        → lookup taguuid l.user_limit_info ≡ some u
        → u.speed_limit ≡ pos 0
        → u.expire_time ≢ pos 0
        → u.expire_time <ℤ now
        → (check_limit new_bucket now' taguuid address' no_ssudp' (
            attempts new_bucket between
              (check_limit new_bucket now taguuid address no_ssudp l).after)).reject
          ≡ true
    unfolding refused info_after
    expired_dynamic_limit_rejects taguuid address address' no_ssudp no_ssudp' now' u l between e s x
          lt =
        let l' = (check_limit new_bucket now taguuid address no_ssudp l).after in
        let gone : lookup taguuid l'.user_limit_info ≡ none = ground (
          arith,
          user_limit_info-check_limit new_bucket now taguuid address no_ssudp u l taguuid e,
          eq_iff taguuid taguuid,
          lt_ℤ_iff u.expire_time now,
          int_beq_iff u.expire_time (pos 0),
        ) in
        rw reject-check_limit (ground (arith, unknown_after new_bucket between l' taguuid gone))

  bucket_after :
      (new_bucket : ℤ → ℤ → ℤ → Bucket) (now : ℤ) (taguuid address : String) (no_ssudp : Bool)
      (u : UserLimitInfo) (l : Limiter Regex Bucket)
      → lookup taguuid l.user_limit_info ≡ some u
      → (check_limit new_bucket now taguuid address no_ssudp l).reject ≡ false
      → (check_limit new_bucket now taguuid address no_ssudp l).bucket ≡ (
          let rate = byte_rate l.speed_limit (effective_limit now u) in
          if lt_ℤ (pos 0) rate
          then some (or_else (new_bucket second rate rate) (lookup taguuid l.speed_limiter))
          else none)
  bucket_after new_bucket now taguuid address no_ssudp u l e r =
      (bucket-check_limit new_bucket now taguuid address no_ssudp u l taguuid e r).0

  module _ (new_bucket : ℤ → ℤ → ℤ → Bucket) (now : ℤ) where
    -- The first admitted connection of a user fixes the bucket: any later admitted one, whatever
    -- limits the node and the user have by then, gets the same bucket or none, as long as the
    -- stored buckets are not changed in between.
    pub bucket_stays :
        (taguuid address address' : String) (no_ssudp no_ssudp' : Bool) (now' : ℤ)
        (u u' : UserLimitInfo) (l l' : Limiter Regex Bucket) (b b' : Bucket)
        → lookup taguuid l.user_limit_info ≡ some u
        → (check_limit new_bucket now taguuid address no_ssudp l).reject ≡ false
        → (check_limit new_bucket now taguuid address no_ssudp l).bucket ≡ some b
        → l'.speed_limiter
          ≡ (check_limit new_bucket now taguuid address no_ssudp l).after.speed_limiter
        → lookup taguuid l'.user_limit_info ≡ some u'
        → (check_limit new_bucket now' taguuid address' no_ssudp' l').reject ≡ false
        → (check_limit new_bucket now' taguuid address' no_ssudp' l').bucket ≡ some b'
        → b' ≡ b
    bucket_stays taguuid address address' no_ssudp no_ssudp' now' u u' l l' b b' e r h s e' r' h' =
        ground (
          arith,
          bucket-check_limit new_bucket now taguuid address no_ssudp u l taguuid e r,
          bucket_after new_bucket now' taguuid address' no_ssudp' u' l' e' r',
          eq_iff taguuid taguuid,
        )

    -- The first admitted connection of a user without a dynamic limit: its bucket has the stricter
    -- of the node's and the user's limits, 0 standing for none, as bytes in a second, and there is
    -- no bucket where neither limits. Limits stay below nine million megabits.
    first_bucket :
        (taguuid address : String) (no_ssudp : Bool) (u : UserLimitInfo) (l : Limiter Regex Bucket)
        (node_limit user_limit : ℕ)
        → lookup taguuid l.user_limit_info ≡ some u
        → l.speed_limit ≡ pos node_limit
        → u.speed_limit ≡ pos user_limit
        → u.dynamic_speed_limit ≡ pos 0
        → stricter node_limit user_limit < 9000000000000
        → lookup taguuid l.speed_limiter ≡ none
        → (check_limit new_bucket now taguuid address no_ssudp l).reject ≡ false
        → let rate = stricter node_limit user_limit * 125000 in
          (check_limit new_bucket now taguuid address no_ssudp l).bucket
          ≡ (if nat_beq rate 0 then none else some (new_bucket second (pos rate) (pos rate)))
    unfolding effective_limit
    first_bucket taguuid address no_ssudp u l node_limit user_limit e n s d fits new r = ground (
      arith,
      bucket_after new_bucket now taguuid address no_ssudp u l e r,
      byte_rate-stricter node_limit user_limit fits,
      determine-stricter user_limit 0,
    )
