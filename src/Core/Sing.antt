-- ===== src/Core/Sing.antt =====
-- core/sing: the core over sing-box. The box, which holds the inbounds, is a parameter: a state and the
-- calls that the core makes of it. The answer of `getInboundOptions` is an argument of `add_node`, of a
-- type `O` that only the box reads; Adding makes it. `none` is a panic.
pub mod Hook
pub mod Transport
pub mod Tls
pub mod Inbound
pub mod Tracking
pub mod Shared
pub mod Adding
use v2b_x_turbo.Base.{
  ℕ, zero, suc, ℤ, pos, ◌*ℤ◌, int64, String, Bool, true, false, not, Option, none, some, Result, ok,
  err, List, [], ◌∷◌, Map, lookup, store, delete, or_else, length, map, string_eq, ◌==◌,
  if◌then◌else◌,
}
use Prim.Native.String.{◌++◌}
use v2b_x_turbo.Conf.Types.{Options}
use v2b_x_turbo.Panel.Types.{NodeInfo, UserInfo, UserTraffic, Protocol, vallss, shadowsocks}
use v2b_x_turbo.Core.Interface.{AddUsersParams}
use v2b_x_turbo.Core.Selector.{is_supported}
use v2b_x_turbo.Core.Traffic.{user_traffic_slice}
use v2b_x_turbo.Counter.{Counters, get_up_count, get_down_count, reset, delete_counter}

-- The users that the inbounds of sing-box take.
pub data Account : Type 0 where
  vless_user : (name flow uuid : String) → Account
  vmess_user : (name uuid : String) → Account
  shadowsocks_user : (name password : String) → Account
  trojan_user : (name password : String) → Account
  tuic_user : (name uuid password : String) (id : ℤ) → Account
  hysteria_user : (name auth_string : String) → Account
  hysteria2_user : (name password : String) (id : ℤ) → Account
  any_tls_user : (name password : String) → Account

pub record BoxOps (B O : Type 0) : Type 0 where
  pub found : String → B → Bool
  pub create : String → String → O → B → Option String × B
  pub remove : String → B → Option String × B
  pub add_users : String → List Account → B → Option String × B
  pub del_users : String → List String → B → Option String × B
  pub start : B → Option String × B
  pub close : B → Option String × B

-- `counter` is the map of the hook server.
pub record Sing (B : Type 0) : Type 0 where
  pub box : B
  pub counter : Map String Counters
  pub uid_map : Map String ℤ
  pub node_report_min_traffic_bytes : Map String ℤ

-- `Protocols`; the cases of `AddUsers` and `DelUsers` are the same.
abbrev pub protocols : List String
protocols =
    "vmess" ∷ "vless" ∷ "shadowsocks" ∷ "trojan" ∷ "tuic" ∷ "anytls" ∷ "hysteria" ∷ "hysteria2" ∷ []

-- `s[:n]`, of a text in ASCII.
unfoldable pub prefix : ℕ → String → Option String
prefix zero s = some ""
prefix (suc n) String.[] = none
prefix (suc n) (String.◌∷◌ c s) = elim (prefix n s) [ none ↦ none | some t ↦ some (String.◌∷◌ c t) ]

-- `base64` is the standard encoding.
unfoldable pub password_of : (String → String) → String → String → Option String
unfolding prefix
password_of base64 cipher uuid =
    if cipher == "2022-blake3-aes-128-gcm"
    then (elim (prefix 16 uuid) [ none ↦ none | some t ↦ some (base64 t) ])
    else if cipher == "2022-blake3-aes-256-gcm"
    then (elim (prefix 32 uuid) [ none ↦ none | some t ↦ some (base64 t) ])
    else some uuid

-- A nil `VAllss` or `Shadowsocks` panics at the first user.
vless_account : Protocol → UserInfo → Option Account
vless_account (vallss n) u = some (vless_user u.uuid n.flow u.uuid)
vless_account _ u = none

shadowsocks_account : (String → String) → Protocol → UserInfo → Option Account
unfolding password_of
shadowsocks_account base64 (shadowsocks n) u = elim (password_of base64 n.cipher u.uuid) [
  | none ↦ none
  | some p ↦ some (shadowsocks_user u.uuid p)
]
shadowsocks_account base64 _ u = none

-- The user of the inbound for one user of the panel; the outer `none` is a type with no case.
unfoldable pub account_of : (String → String) → NodeInfo → Option (UserInfo → Option Account)
unfolding vless_account shadowsocks_account
account_of base64 info =
    if info.kind == "vless"
    then some (vless_account info.protocol)
    else if info.kind == "vmess"
    then some (λ u. some (vmess_user u.uuid u.uuid))
    else if info.kind == "shadowsocks"
    then some (shadowsocks_account base64 info.protocol)
    else if info.kind == "trojan"
    then some (λ u. some (trojan_user u.uuid u.uuid))
    else if info.kind == "tuic"
    then some (λ u. some (tuic_user u.uuid u.uuid u.uuid u.id))
    else if info.kind == "hysteria"
    then some (λ u. some (hysteria_user u.uuid u.uuid))
    else if info.kind == "hysteria2"
    then some (λ u. some (hysteria2_user u.uuid u.uuid u.id))
    else if info.kind == "anytls"
    then some (λ u. some (any_tls_user u.uuid u.uuid))
    else none

unfoldable pub accounts : (UserInfo → Option Account) → List UserInfo → Option (List Account)
accounts f [] = some []
accounts f (u ∷ us) = elim (f u) [
  | none ↦ none
  | some a ↦ elim (accounts f us) [ none ↦ none | some rest ↦ some (a ∷ rest) ]
]

unfoldable pub learn : List UserInfo → Map String ℤ → Map String ℤ
learn [] m = m
learn (u ∷ us) m = learn us (store u.uuid u.id m)

-- The loop of `DelUsers`, over the map of user numbers and over the counters of the node.
unfoldable pub unlearn : List UserInfo → Map String ℤ → Map String ℤ
unlearn [] m = m
unlearn (u ∷ us) m = unlearn us (delete u.uuid m)

unfoldable pub drop_counters : List UserInfo → Counters → Counters
drop_counters [] c = c
drop_counters (u ∷ us) c = drop_counters us (delete_counter u.uuid c)

unfoldable pub drop_at : String → List UserInfo → Map String Counters → Map String Counters
unfolding drop_counters
drop_at tag users counter = elim (lookup tag counter) [
  | none ↦ counter
  | some c ↦ store tag (drop_counters users c) counter
]

module _ {B O : Type 0} (box : BoxOps B O) where
  unfoldable pub add_users :
      (String → String) → AddUsersParams → Sing B → Option (Result ℤ × Sing B)
  unfolding learn account_of accounts
  add_users base64 p s =
      if box.found p.tag s.box
      then (let s = record s { uid_map = learn p.users s.uid_map } in
          elim (account_of base64 p.node_info) [
            | none ↦ some (ok (pos (length p.users)), s)
            | some f ↦ elim (accounts f p.users) [
              | none ↦ none
              | some us ↦
                  let (e, b) = box.add_users p.tag us s.box in
                  some (
                    elim e [ some m ↦ err m | none ↦ ok (pos (length p.users)) ],
                    record s { box = b },
                  )
            ]
          ])
      else some (err "the inbound not found", s)

  -- A type with no case leaves the deleter nil, which panics behind the loop.
  unfoldable pub del_users :
      List UserInfo → String → NodeInfo → Sing B → Option (Option String × Sing B)
  unfolding unlearn drop_at
  del_users users tag info s =
      if not (box.found tag s.box)
      then some (some "the inbound not found", s)
      else if not (is_supported info.kind protocols)
      then none
      else (let (e, b) = box.del_users tag (map (λ (u : UserInfo). u.uuid) users) s.box in
          some (
            e,
            record s {
              box = b;
              counter = drop_at tag users s.counter;
              uid_map = unlearn users s.uid_map;
            },
          ))

  -- `built` is what `getInboundOptions` returns: the inbound's type with its options.
  unfoldable pub add_node : String → Result (String × O) → Options → Sing B → Option String × Sing B
  add_node tag built config s =
      let s = record s {
        node_report_min_traffic_bytes =
            store tag (int64 (config.report_min_traffic *ℤ pos 1024))
              s.node_report_min_traffic_bytes;
      } in
      elim built [
        | err m ↦ (some m, s)
        | ok (kind, options) ↦
            let (e, b) = box.create tag kind options s.box in
            (
              elim e [ none ↦ none | some m ↦ some ("add inbound error: " ++ m) ],
              record s { box = b },
            )
      ]

  unfoldable pub del_node : String → Sing B → Option String × Sing B
  del_node tag s =
      let (e, b) = box.remove tag s.box in
      (elim e [ none ↦ none | some m ↦ some ("delete inbound error: " ++ m) ], record s { box = b })

  unfoldable pub start : Sing B → Option String × Sing B
  start s = let (e, b) = box.start s.box in (e, record s { box = b })

  unfoldable pub close : Sing B → Option String × Sing B
  close s = let (e, b) = box.close s.box in (e, record s { box = b })

module _ {B : Type 0} where
  unfoldable pub get_user_traffic : String → String → Bool → Sing B → (ℤ × ℤ) × Sing B
  get_user_traffic tag uuid wants_reset s = elim (lookup tag s.counter) [
    | none ↦ ((pos 0, pos 0), s)
    | some c ↦ (
      (get_up_count uuid c, get_down_count uuid c),
      if wants_reset then record s { counter = store tag (reset uuid c) s.counter } else s,
    )
  ]

  unfoldable pub get_user_traffic_slice :
      String → Bool → Sing B → Result (List UserTraffic) × Sing B
  get_user_traffic_slice tag wants_reset s =
      let least = or_else (pos 0) (lookup tag s.node_report_min_traffic_bytes) in
      let (slice, counter) = user_traffic_slice least wants_reset s.uid_map tag s.counter in
      (slice, record s { counter = counter })
