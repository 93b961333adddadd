-- ===== src/Core/Hy2.antt =====
-- core/hy2: the core over hysteria. A server of hysteria is a parameter, with the error of its `Close`.
-- The goroutines of `AddUsers` and `DelUsers` take the lock one by one, in an order that Go leaves open:
-- `spawned` gives it. `none` is a panic.
pub mod ServerConfig
pub mod Quic
pub mod Outbounds
pub mod Masquerade
pub mod Configure
pub mod Users
pub mod Logger
use v2b_x_turbo.Base.{
  ℕ, ℤ, pos, ◌*ℤ◌, int64, String, Bool, true, false, Option, none, some, Result, ok, err, List, [],
  ◌∷◌, Map, lookup, store, delete, is_some, or_else, length, get_elem?, set, string_eq, ◌==◌,
  if◌then◌else◌,
}
use v2b_x_turbo.Format.{user_tag}
use v2b_x_turbo.Conf.Types.{Options}
use v2b_x_turbo.Panel.Types.{UserInfo, UserTraffic}
use v2b_x_turbo.Limiter.Types.{UserLimitInfo, Limiter}
use v2b_x_turbo.Limiter.Registry.{Limiters, get_limiter}
use v2b_x_turbo.Counter.{Counters, new_traffic_counter, rx, tx}
use v2b_x_turbo.Core.Interface.{AddUsersParams}
use v2b_x_turbo.Core.Traffic.{user_traffic_slice}
use v2b_x_turbo.Core.Sing.{learn, unlearn, drop_at}

-- A `Hysteria2node` with its `HookServer`: `counter` and `report_min_traffic_bytes` are the hook's.
pub record Hysteria2Node (S : Type 0) : Type 0 where
  pub hy2_server : S
  pub tag : String
  pub counter : Map String Counters
  pub report_min_traffic_bytes : ℤ

-- `users_map` is that of the authenticator.
pub record Hysteria2 (S : Type 0) : Type 0 where
  pub hy2_nodes : Map String (Hysteria2Node S)
  pub users_map : Map String ℤ

module _ {S : Type 0} where
  unfoldable pub authenticate : String → Hysteria2 S → Bool × String
  authenticate auth h = if is_some (lookup auth h.users_map) then (true, auth) else (false, "")

  unfoldable pub add_users :
      (List UserInfo → List UserInfo) → AddUsersParams → Hysteria2 S → Result ℤ × Hysteria2 S
  unfolding learn
  add_users spawned p h =
      (ok (pos (length p.users)), record h { users_map = learn (spawned p.users) h.users_map })

  -- With a user to delete, a tag without a node panics.
  unfoldable pub del_users :
      (List UserInfo → List UserInfo)
      → List UserInfo
      → String
      → Hysteria2 S
      → Option (Option String × Hysteria2 S)
  unfolding unlearn drop_at
  del_users spawned [] tag h = some (none, h)
  del_users spawned (u ∷ us) tag h = elim (lookup tag h.hy2_nodes) [
    | none ↦ none
    | some n ↦ some (
      none,
      record h {
        hy2_nodes = store tag (record n { counter = drop_at tag (u ∷ us) n.counter }) h.hy2_nodes;
        users_map = unlearn (spawned (u ∷ us)) h.users_map;
      },
    )
  ]

  unfoldable pub get_user_traffic_slice :
      String → Bool → Hysteria2 S → Result (List UserTraffic) × Hysteria2 S
  get_user_traffic_slice tag reset h = elim (lookup tag h.hy2_nodes) [
    | none ↦ (ok [], h)
    | some n ↦
        let (slice, counter) =
          user_traffic_slice n.report_min_traffic_bytes reset h.users_map tag n.counter in
        (slice, record h { hy2_nodes = store tag (record n { counter = counter }) h.hy2_nodes })
  ]

  -- `made` is the server that hysteria makes from the node's configuration, or the error.
  unfoldable pub add_node : String → Result S → Options → Hysteria2 S → Option String × Hysteria2 S
  add_node tag made config h = elim made [
    | err m ↦ (some m, h)
    | ok s ↦ (
      none,
      record h {
        hy2_nodes =
            store tag
              (record {
                hy2_server = s;
                tag = tag;
                counter = [];
                report_min_traffic_bytes = int64 (config.report_min_traffic *ℤ pos 1024);
              })
              h.hy2_nodes;
      },
    )
  ]

  -- A tag without a node panics.
  unfoldable pub del_node :
      (S → Option String) → String → Hysteria2 S → Option (Option String × Hysteria2 S)
  del_node close_server tag h = elim (lookup tag h.hy2_nodes) [
    | none ↦ none
    | some n ↦ some (elim (close_server n.hy2_server) [
      | some m ↦ (some m, h)
      | none ↦ (none, record h { hy2_nodes = delete tag h.hy2_nodes })
    ])
  ]

  -- `Close`: it stops at the first error.
  unfoldable pub close_nodes : (S → Option String) → Map String (Hysteria2Node S) → Option String
  close_nodes close_server [] = none
  close_nodes close_server ((tag, n) ∷ ns) =
      let rest = close_nodes close_server ns in
      elim (close_server n.hy2_server) [ some m ↦ some m | none ↦ rest ]

module _ {Regex Bucket : Type 0} where
  -- A user over its limit is let go once.
  unfoldable pub take_over_limit : String → Limiter Regex Bucket → Bool × Limiter Regex Bucket
  take_over_limit taguuid l = elim (lookup taguuid l.user_limit_info) [
    | none ↦ (false, l)
    | some info ↦
        if info.over_limit
        then (
          true,
          record l {
            user_limit_info = store taguuid (record info { over_limit = false }) l.user_limit_info;
          },
        )
        else (false, l)
  ]

  -- `LogTraffic`: false disconnects the user. A number in the map of limiters is that of an object.
  unfoldable pub log_traffic :
      {S : Type 0}
      → String
      → ℤ
      → ℤ
      → Limiters Regex Bucket
      → Hysteria2Node S
      → Bool × Limiters Regex Bucket × Hysteria2Node S
  unfolding take_over_limit
  log_traffic id sent received ls n = elim (get_limiter n.tag ls) [
    | err e ↦ (false, ls, n)
    | ok k ↦ elim (get_elem? ls.objects k) [
      | none ↦ (false, ls, n)
      | some l ↦
          let (over, l') = take_over_limit (user_tag n.tag id) l in
          let ls' = record ls { objects = set ls.objects k l' } in
          if over
          then (false, ls', n)
          else (let c = or_else new_traffic_counter (lookup n.tag n.counter) in
              let c' = tx id (int64 sent) (rx id (int64 received) c) in
              (true, ls', record n { counter = store n.tag c' n.counter }))
    ]
  ]

abbrev pub protocols : List String
protocols = "hysteria2" ∷ []
