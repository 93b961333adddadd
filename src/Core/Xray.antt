-- ===== src/Core/Xray.antt =====
-- core/xray: the core over xray-core. The instance of xray-core is a parameter: a state, which holds
-- the managers of inbounds and outbounds, and the calls that the core makes of it. The answers of
-- `updateDNSConfig`, `buildInbound` and `buildOutbound` are arguments of `add_node`; Adding makes them.
-- `none` is a panic.
pub mod Nodes
pub mod Stream
pub mod Inbound
pub mod Dns
pub mod Emails
pub mod Removal
pub mod Adding
use Prim.Native.String.{◌++◌}
use v2b_x_turbo.Base.{
  ℤ, pos, ◌*ℤ◌, int64, String, Bool, true, false, Option, none, some, Result, ok, err, List, [],
  ◌∷◌, Map, lookup, store, delete, or_else, length, string_eq, ◌==◌, if◌then◌else◌,
}
use v2b_x_turbo.Format.{user_tag}
use v2b_x_turbo.Conf.Types.{Options}
use v2b_x_turbo.Panel.Types.{NodeInfo, UserInfo, UserTraffic, Protocol, vallss, shadowsocks}
use v2b_x_turbo.Counter.{delete_counter}
use v2b_x_turbo.Core.Interface.{AddUsersParams}
use v2b_x_turbo.Core.Traffic.{user_traffic_slice}
use v2b_x_turbo.Core.Accounts.{
  User, build_vmess_users, build_vless_users, build_trojan_users, build_ss_users,
}
use v2b_x_turbo.Core.Dispatcher.{Dispatcher, close_user}

-- `X` is an instance, `I` and `O` the configurations of handlers, `H` the handlers, `M` the user
-- managers, `N` the users in memory. `none` is an object that does not have the interface.
pub record Instance (X I O H M N : Type 0) : Type 0 where
  pub start : X → Option String × X
  pub close : X → Option String × X
  pub create_inbound : I → X → Result (Option H)
  pub create_outbound : O → X → Result (Option H)
  pub add_inbound_handler : H → X → Option String × X
  pub add_outbound_handler : H → X → Option String × X
  pub remove_inbound_handler : String → X → Option String × X
  pub remove_outbound_handler : String → X → Option String × X
  pub get_handler : String → X → Result H
  pub get_inbound : H → Bool
  pub user_manager : H → Option M
  pub to_memory_user : User → Result N
  pub add_user : M → N → X → Option String × X
  pub remove_user : M → String → X → Option String × X

-- `is_started` tells that the managers and the dispatcher are not nil.
pub record Xray (X : Type 0) : Type 0 where
  pub server : X
  pub is_started : Bool
  pub dispatcher : Dispatcher
  pub uid_map : Map String ℤ
  pub node_report_min_traffic_bytes : Map String ℤ

abbrev pub protocols : List String
protocols = "vmess" ∷ "vless" ∷ "shadowsocks" ∷ "trojan" ∷ []

learn_tagged : String → List UserInfo → Map String ℤ → Map String ℤ
learn_tagged tag [] m = m
learn_tagged tag (u ∷ us) m = learn_tagged tag us (store (user_tag tag u.uuid) u.id m)

-- The switch of `AddUsers`. A nil `VAllss` or `Shadowsocks` panics.
vless_users : String → List UserInfo → Protocol → Option (List User)
unfolding build_vless_users
vless_users tag us (vallss n) = some (build_vless_users tag n.flow us)
vless_users tag us _ = none

ss_users :
    (String → String) → (String → String) → String → List UserInfo → Protocol → Option (List User)
unfolding build_ss_users
ss_users lower base64 tag us (shadowsocks n) =
    build_ss_users lower base64 tag n.cipher n.server_key us
ss_users lower base64 tag us _ = none

unfoldable pub build_users :
    (String → String) → (String → String) → AddUsersParams → Option (Result (List User))
unfolding vless_users ss_users build_vmess_users build_trojan_users
build_users lower base64 p =
    let kind = p.node_info.kind in
    if kind == "vmess"
    then some (ok (build_vmess_users p.tag p.users))
    else if kind == "vless"
    then (elim (vless_users p.tag p.users p.node_info.protocol) [
      | none ↦ none
      | some us ↦ some (ok us)
    ])
    else if kind == "trojan"
    then some (ok (build_trojan_users p.tag p.users))
    else if kind == "shadowsocks"
    then (elim (ss_users lower base64 p.tag p.users p.node_info.protocol) [
      | none ↦ none
      | some us ↦ some (ok us)
    ])
    else some (err ("unsupported node type: " ++ kind))

-- `fmt.Errorf` around an error.
wrap : String → Option String × Bool → Option String
wrap s (none, b) = none
wrap s (some m, b) = some (s ++ m)

-- An iteration of `DelUsers` behind the call of `RemoveUser`.
unfoldable pub forget : {X : Type 0} → String → String → Xray X → Xray X
forget tag user c =
    let d = c.dispatcher in
    let d' : Dispatcher = elim (lookup tag d.counter) [
      | none ↦ d
      | some t ↦ record d { counter = store tag (delete_counter user t) d.counter }
    ] in
    record c { uid_map = delete user c.uid_map; dispatcher = close_user user d' }

module _ {X I O H M N : Type 0} (x : Instance X I O H M N) where
  unfoldable pub get_user_manager : String → X → Result M
  get_user_manager tag s = elim (x.get_handler tag s) [
    | err m ↦ err ("no such inbound tag: " ++ m)
    | ok h ↦
        if x.get_inbound h
        then (elim (x.user_manager h) [
          | none ↦ err ("handler " ++ tag ++ " is not implement proxy.UserManager")
          | some m ↦ ok m
        ])
        else err ("handler " ++ tag ++ " is not implement proxy.GetInbound")
  ]

  -- The loop of `AddUsers`: it stops at the first error.
  unfoldable pub add_each : M → List User → X → Option String × X
  add_each m [] s = (none, s)
  add_each m (u ∷ us) s = elim (x.to_memory_user u) [
    | err e ↦ (some e, s)
    | ok n ↦
        let (e, s') = x.add_user m n s in
        let rest = add_each m us s' in elim e [ some e ↦ (some e, s') | none ↦ rest ]
  ]

  -- The numbers of the users are entered before anything can fail.
  unfoldable pub add_users :
      (String → String) → (String → String) → AddUsersParams → Xray X → Option (Result ℤ × Xray X)
  unfolding learn_tagged build_users get_user_manager add_each
  add_users lower base64 p c =
      let c = record c { uid_map = learn_tagged p.tag p.users c.uid_map } in
      elim (build_users lower base64 p) [
        | none ↦ none
        | some (err m) ↦ some (err m, c)
        | some (ok us) ↦
            if c.is_started
            then (elim (get_user_manager p.tag c.server) [
              | err m ↦ some (err ("get user manager error: " ++ m), c)
              | ok man ↦
                  let (e, s) = add_each man us c.server in
                  some (
                    elim e [ some m ↦ err m | none ↦ ok (pos (length us)) ],
                    record c { server = s },
                  )
            ])
            else none
      ]

  -- The loop of `DelUsers`: an error ends it, and the users before it stay deleted.
  unfoldable pub del_each : M → String → List UserInfo → Xray X → Option String × Xray X
  unfolding forget
  del_each m tag [] c = (none, c)
  del_each m tag (u ∷ us) c =
      let user = user_tag tag u.uuid in
      let (e, s) = x.remove_user m user c.server in
      let rest = del_each m tag us (forget tag user (record c { server = s })) in
      elim e [ some e ↦ (some e, record c { server = s }) | none ↦ rest ]

  unfoldable pub del_users : List UserInfo → String → Xray X → Option (Option String × Xray X)
  unfolding get_user_manager del_each
  del_users users tag c =
      if c.is_started
      then (elim (get_user_manager tag c.server) [
        | err m ↦ some (some ("get user manager error: " ++ m), c)
        | ok man ↦ some (del_each man tag users c)
      ])
      else none
