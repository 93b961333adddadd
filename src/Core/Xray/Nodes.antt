-- ===== src/Core/Xray/Nodes.antt =====
-- core/xray/node.go, `GetUserTrafficSlice` of user.go, and `Start` and `Close` of xray.go. A nil
-- manager panics: `none`.
use v2b_x_turbo.Base.{
  [], pos, ◌*ℤ◌, int64, String, Bool, true, false, Option, none, some, Result, ok, err, List, store,
  lookup, or_else, string_eq, if◌then◌else◌,
}
use Prim.Native.String.{◌++◌}
use v2b_x_turbo.Conf.Types.{Options}
use v2b_x_turbo.Panel.Types.{UserTraffic}
use v2b_x_turbo.Core.Call.{Call}
use v2b_x_turbo.Core.Traffic.{user_traffic_slice}
use v2b_x_turbo.Core.Dispatcher.{new_dispatcher}
use v2b_x_turbo.Core.Xray.{Instance, Xray}

-- An error with what `fmt.Errorf` puts before it.
unfoldable pub prefixed : String → Option String → Option String
prefixed s none = none
prefixed s (some m) = some (s ++ m)

-- `New`, of the instance that `getCore` makes.
unfoldable pub new : {X : Type 0} → X → Xray X
new server = record {
  server = server;
  is_started = false;
  dispatcher = new_dispatcher;
  uid_map = [];
  node_report_min_traffic_bytes = [];
}

module _ {X I O H M N : Type 0} (x : Instance X I O H M N) where
  -- With nil managers, the call behind the creation of the handler panics.
  unfoldable pub add_inbound : I → Xray X → Option (Option String × Xray X)
  add_inbound config c = elim (x.create_inbound config c.server) [
    | err m ↦ some (some m, c)
    | ok none ↦ some (some "not an InboundHandler: %!s(<nil>)", c)
    | ok (some h) ↦
        let (e, s) = x.add_inbound_handler h c.server in
        if c.is_started then some (e, record c { server = s }) else none
  ]

  unfoldable pub add_outbound : O → Xray X → Option (Option String × Xray X)
  add_outbound config c = elim (x.create_outbound config c.server) [
    | err m ↦ some (some m, c)
    | ok none ↦ some (some "not an InboundHandler: %!s(<nil>)", c)
    | ok (some h) ↦
        let (e, s) = x.add_outbound_handler h c.server in
        if c.is_started then some (e, record c { server = s }) else none
  ]

  unfoldable pub finish_outbound : Call O → Xray X → Option (Option String × Xray X)
  unfolding add_outbound prefixed
  finish_outbound none c = none
  finish_outbound (some (err m)) c = some (some ("build outbound error: " ++ m), c)
  finish_outbound (some (ok o)) c = elim (add_outbound o c) [
    | none ↦ none
    | some (e, c') ↦ some (prefixed "add outbound error: " e, c')
  ]

  -- The steps behind the DNS. An outbound that fails leaves the inbound.
  unfoldable pub add_handlers : Call I → Call O → Xray X → Option (Option String × Xray X)
  unfolding add_inbound finish_outbound
  add_handlers none built_out c = none
  add_handlers (some (err m)) built_out c = some (some ("build inbound error: " ++ m), c)
  add_handlers (some (ok i)) built_out c = elim (add_inbound i c) [
    | none ↦ none
    | some (some m, c') ↦ some (some ("add inbound error: " ++ m), c')
    | some (none, c') ↦ finish_outbound built_out c'
  ]

  -- The answers of `updateDNSConfig`, `buildInbound` and `buildOutbound` are arguments.
  unfoldable pub add_node :
      String → Option String → Call I → Call O → Options → Xray X → Option (Option String × Xray X)
  unfolding add_handlers
  add_node tag dns built_in built_out config c =
      let c' = record c {
        node_report_min_traffic_bytes =
            store tag (int64 (config.report_min_traffic *ℤ pos 1024))
              c.node_report_min_traffic_bytes;
      } in
      elim dns [
        | some m ↦ some (some ("build dns error: " ++ m), c')
        | none ↦ add_handlers built_in built_out c'
      ]

  unfoldable pub del_node : String → Xray X → Option (Option String × Xray X)
  unfolding prefixed
  del_node tag c =
      if c.is_started
      then (let (e, s) = x.remove_inbound_handler tag c.server in
          elim e [
            | some m ↦ some (some ("remove in error: " ++ m), record c { server = s })
            | none ↦
                let (e', s') = x.remove_outbound_handler tag s in
                some (prefixed "remove out error: " e', record c { server = s' })
          ])
      else none

  -- The dispatcher is that of the instance, which has it from the beginning.
  unfoldable pub start : Xray X → Option String × Xray X
  start c =
      let (e, s) = x.start c.server in
      elim e [
        | some m ↦ (some m, record c { server = s })
        | none ↦ (none, record c { server = s; is_started = true; dispatcher = new_dispatcher })
      ]

  unfoldable pub close : Xray X → Option String × Xray X
  close c = let (e, s) = x.close c.server in (e, record c { server = s; is_started = false })

unfoldable pub get_user_traffic_slice :
    {X : Type 0} → String → Bool → Xray X → Option (Result (List UserTraffic) × Xray X)
get_user_traffic_slice tag wants_reset c =
    if c.is_started
    then (let least = or_else (pos 0) (lookup tag c.node_report_min_traffic_bytes) in
        let (slice, counter) =
          user_traffic_slice least wants_reset c.uid_map tag c.dispatcher.counter in
        some (slice, record c { dispatcher = record c.dispatcher { counter = counter } }))
    else none
