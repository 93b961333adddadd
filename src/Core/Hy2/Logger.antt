-- ===== src/Core/Hy2/Logger.antt =====
-- core/hy2/logger.go: the checks of `serverLogger`, and what `LogTraffic` makes of them. What the log
-- itself writes is left out; a missing limiter is logged at panic level, which panics: `none`. The
-- bucket of the check is dropped by the code.
use v2b_x_turbo.Base.{
  ℕ, ℤ, String, Bool, true, false, not, Option, none, some, ok, err, lookup, store,
  lookup-store_self, get_elem?, set, get_elem?-set_self, trim_prefix, string_eq, is_some, ◌≡◌, refl,
  ap, ◌∙◌, arith, Option-cases, Bool-cases, inl, inr,
}
use v2b_x_turbo.Format.{user_tag}
use v2b_x_turbo.Limiter.Types.{UserLimitInfo, Limiter}
use v2b_x_turbo.Limiter.Check.{check_limit}
use v2b_x_turbo.Limiter.Check.View.{refused}
use v2b_x_turbo.Limiter.Check.Admission.{reject-check_limit}
use v2b_x_turbo.Limiter.Registry.{Limiters, get_limiter}
use v2b_x_turbo.Core.Hy2.{Hysteria2Node, take_over_limit, log_traffic}

module _ {Regex Bucket : Type 0} where
  -- A write through the pointer in the map, if there is one.
  unfoldable pub mark_over_limit : Bool → String → Limiter Regex Bucket → Limiter Regex Bucket
  mark_over_limit over taguuid l = elim (lookup taguuid l.user_limit_info) [
    | none ↦ l
    | some info ↦ record l {
      user_limit_info = store taguuid (record info { over_limit = over }) l.user_limit_info;
    }
  ]

module _ {Regex Bucket : Type 0} where
  -- The limiter of a tag knows a user, with this mark.
  abbrev Marked : Bool → String → String → Limiters Regex Bucket → Type 0
  Marked over taguuid tag ls =
      (k : ℕ) × (l : Limiter Regex Bucket) × (u : UserLimitInfo) × (get_limiter tag ls ≡ ok k)
      × (get_elem? ls.objects k ≡ some l)
      × (lookup taguuid l.user_limit_info ≡ some u)
      × (u.over_limit ≡ over)

  log_traffic-Marked :
      {S : Type 0} (over : Bool) (uuid : String) (sent received : ℤ) (ls : Limiters Regex Bucket)
      (n : Hysteria2Node S)
      → Marked over (user_tag n.tag uuid) n.tag ls
      → let r = log_traffic uuid sent received ls n in
        (r.0 ≡ not over)
        × (over ≡ true → r.2 ≡ n)
        × Marked false (user_tag r.2.tag uuid) r.2.tag r.1
  unfolding log_traffic take_over_limit get_limiter
  log_traffic-Marked over uuid sent received ls n (k, l, u, g, e, known, marked) =
      elim (Bool-cases u.over_limit) [
        | inl yes_ ↦
            let u' = record u { over_limit = false } in
            let l' = record l {
              user_limit_info = store (user_tag n.tag uuid) u' l.user_limit_info;
            } in
            (
              ground arith,
              λ h. ground arith,
              (
                k,
                l',
                u',
                ground arith,
                ground (arith, get_elem?-set_self ls.objects k l' l e),
                ground (arith, lookup-store_self (user_tag n.tag uuid) u' l.user_limit_info),
                refl,
              ),
            )
        | inr no_ ↦ (
          ground arith,
          λ h. absurd (ground arith),
          (
            k,
            l,
            u,
            ground arith,
            ground (arith, get_elem?-set_self ls.objects k l l e),
            ground arith,
            no_,
          ),
        )
      ]

module _ {Regex Bucket : Type 0} (new_bucket : ℤ → ℤ → ℤ → Bucket) (now : ℤ) where
  -- `Connect`, `TCPRequest` and `UDPRequest` of the logger of a tag: the same check in each.
  unfoldable pub connect :
      String → String → String → Limiters Regex Bucket → Option (Limiters Regex Bucket)
  unfolding mark_over_limit
  connect tag uuid ip ls = elim (get_limiter tag ls) [
    | err e ↦ none
    | ok k ↦ elim (get_elem? ls.objects k) [
      | none ↦ none
      | some l ↦
          let v = check_limit new_bucket now (user_tag tag uuid) ip true l in
          some (record ls {
            objects = set ls.objects k (mark_over_limit v.reject (user_tag tag uuid) v.after);
          })
    ]
  ]

  unfoldable pub tcp_request :
      String → String → String → Limiters Regex Bucket → Option (Limiters Regex Bucket)
  unfolding connect
  tcp_request tag uuid ip ls = connect tag uuid ip ls

  unfoldable pub udp_request :
      String → String → String → Limiters Regex Bucket → Option (Limiters Regex Bucket)
  unfolding connect
  udp_request tag uuid ip ls = connect tag uuid ip ls

  connect-Marked :
      (tag uuid ip : String) (k : ℕ) (l : Limiter Regex Bucket) (ls ls' : Limiters Regex Bucket)
      → get_limiter tag ls ≡ ok k
      → get_elem? ls.objects k ≡ some l
      → is_some (
          lookup
            (user_tag tag uuid)
            (check_limit new_bucket now (user_tag tag uuid) ip true l).after.user_limit_info)
        ≡ true
      → connect tag uuid ip ls ≡ some ls'
      → Marked
          (check_limit new_bucket now (user_tag tag uuid) ip true l).reject
          (user_tag tag uuid)
          tag
          ls'
  unfolding connect mark_over_limit get_limiter
  connect-Marked tag uuid ip k l ls ls' g e known h =
      let v = check_limit new_bucket now (user_tag tag uuid) ip true l in
      elim (Option-cases (lookup (user_tag tag uuid) v.after.user_limit_info)) [
        | inl gone ↦ absurd (ground arith)
        | inr (u, there) ↦
            let l' = mark_over_limit v.reject (user_tag tag uuid) v.after in
            let u' = record u { over_limit = v.reject } in
            let made : ls' ≡ record ls { objects = set ls.objects k l' } = ground arith in
            (
              k,
              l',
              u',
              ground (arith, made),
              ground (arith, made, get_elem?-set_self ls.objects k l' l e),
              ground (arith, lookup-store_self (user_tag tag uuid) u' v.after.user_limit_info),
              refl,
            )
      ]

  -- A user of a node that the limiter still knows behind the check of a connection or of a request:
  -- the next `LogTraffic` disconnects it exactly when the limiter refused the user and its address,
  -- and counts nothing then. The one behind it does not, where nothing is checked in between.
  pub log_traffic-connect :
      {S : Type 0} (uuid ip : String) (sent received sent' received' : ℤ) (k : ℕ)
      (l : Limiter Regex Bucket) (ls ls' : Limiters Regex Bucket) (n : Hysteria2Node S)
      → get_limiter n.tag ls ≡ ok k
      → get_elem? ls.objects k ≡ some l
      → is_some (
          lookup
            (user_tag n.tag uuid)
            (check_limit new_bucket now (user_tag n.tag uuid) ip true l).after.user_limit_info)
        ≡ true
      → connect n.tag uuid ip ls ≡ some ls'
      → let refuses = refused (user_tag n.tag uuid) (trim_prefix ip "::ffff:") true l in
        let r = log_traffic uuid sent received ls' n in
        (r.0 ≡ not refuses)
        × (refuses ≡ true → r.2 ≡ n)
        × ((log_traffic uuid sent' received' r.1 r.2).0 ≡ true)
  log_traffic-connect uuid ip sent received sent' received' k l ls ls' n g e known h =
      let v = check_limit new_bucket now (user_tag n.tag uuid) ip true l in
      let rejects = reject-check_limit new_bucket now (user_tag n.tag uuid) ip true l in
      let first =
        log_traffic-Marked v.reject uuid sent received ls' n
          (connect-Marked n.tag uuid ip k l ls ls' g e known h) in
      let r = log_traffic uuid sent received ls' n in
      let second = log_traffic-Marked false uuid sent' received' r.1 r.2 first.2 in
      (first.0 ∙ ap not rejects, λ over. first.1 (rejects ∙ over), second.0)
