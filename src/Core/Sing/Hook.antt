-- ===== src/Core/Sing/Hook.antt =====
-- core/sing/hook.go: what the core does with each connection before it is routed.
use v2b_x_turbo.Base.{
  ℕ, ℤ, String, Bool, true, false, not, Option, none, some, ok, err, Map, lookup, store, or_else,
  get_elem?, set, string_eq, ◌==◌, ◌&&◌, ◌||◌, if◌then◌else◌,
}
use v2b_x_turbo.Format.{user_tag}
use v2b_x_turbo.Limiter.Types.{Limiter}
use v2b_x_turbo.Limiter.Check.{check_limit}
use v2b_x_turbo.Limiter.Registry.{Limiters, get_limiter}
use v2b_x_turbo.Limiter.Rules.{check_domain_rule, check_protocol_rule}
use v2b_x_turbo.Counter.{Counters, new_traffic_counter, get_counter}

-- What the hook reads of `adapter.InboundContext`: the address of the source, the destination and its
-- network as texts.
pub record Metadata : Type 0 where
  pub inbound : String
  pub user : String
  pub source : String
  pub destination : String
  pub network : String
  pub protocol : String

-- What the hook makes of a connection: it leaves it alone; closes it; or wraps it, with the bucket of
-- its rate limiter and with the address of its user's counter.
pub data Routed (Bucket : Type 0) : Type 0 where
  untouched : Routed Bucket
  closed : Routed Bucket
  wrapped : Option Bucket → ℕ → Routed Bucket

-- The limiters, and the counters of the nodes.
pub record Tracker (Regex Bucket : Type 0) : Type 0 where
  pub limiters : Limiters Regex Bucket
  pub counter : Map String Counters

-- The counter of the node, new if it has none, and in it that of the user.
unfoldable pub count_user : String → String → Map String Counters → ℕ × Map String Counters
count_user tag user counter =
    let (a, t) = get_counter user (or_else new_traffic_counter (lookup tag counter)) in
    (a, store tag t counter)

module _ {Regex Bucket : Type 0} (matches : Regex → String → Bool) where
  -- Whether a rule of the limiter blocks the connection; an unknown protocol is the empty text.
  unfoldable pub is_blocked : String → String → Limiter Regex Bucket → Bool
  unfolding check_domain_rule check_protocol_rule
  is_blocked destination protocol l =
      check_domain_rule matches destination l
      || not (protocol == "") && check_protocol_rule protocol l

module _ {Regex Bucket : Type 0} (new_bucket : ℤ → ℤ → ℤ → Bucket) (matches : Regex → String → Bool)
    (now : ℤ) where
  -- The two methods up to the kind of connection: with the device limit or without it, and with the
  -- bucket or without it. A number in the map of limiters is that of an object.
  unfoldable pub track_connection :
      Bool → Bool → String → Metadata → Tracker Regex Bucket → Routed Bucket × Tracker Regex Bucket
  unfolding is_blocked count_user
  track_connection no_ssudp limits protocol m t = elim (get_limiter m.inbound t.limiters) [
    | err e ↦ (untouched, t)
    | ok k ↦ elim (get_elem? t.limiters.objects k) [
      | none ↦ (untouched, t)
      | some l ↦
          let v = check_limit new_bucket now (user_tag m.inbound m.user) m.source no_ssudp l in
          let t' = record t {
            limiters = record t.limiters { objects = set t.limiters.objects k v.after };
          } in
          if v.reject || is_blocked matches m.destination protocol v.after
          then (closed, t')
          else (let (a, counter) = count_user m.inbound m.user t.counter in
              (wrapped (if limits then v.bucket else none) a, record t' { counter = counter }))
    ]
  ]

  unfoldable pub routed_connection :
      Metadata → Tracker Regex Bucket → Routed Bucket × Tracker Regex Bucket
  unfolding track_connection
  routed_connection m t = track_connection true true m.protocol m t

  -- Packets are checked without the device limit, and the bucket is not used.
  unfoldable pub routed_packet_connection :
      Metadata → Tracker Regex Bucket → Routed Bucket × Tracker Regex Bucket
  unfolding track_connection
  routed_packet_connection m t = track_connection false false m.network m t
