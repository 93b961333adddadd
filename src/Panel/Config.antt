-- ===== src/Panel/Config.antt =====
-- `GetNodeInfo` of api/panel/node.go behind the request: the node that an answer describes. The
-- decoder of `encoding/json` is a parameter, one function for each type that it fills. `none` is a
-- panic: of a type assertion, or of an index out of range.
use Prim.Native.Char.{code}
use Prim.Native.String.{◌++◌}
use v2b_x_turbo.Base.{
  ℕ, ◌+◌, ℤ, pos, ◌*ℤ◌, int64, String, not, Option, none, some, Result, ok, err, List, [], ◌∷◌,
  snoc, store, itoa, nat_eq, string_eq, ◌==◌, ◌||◌, if◌then◌else◌, has_prefix, trim_prefix, atoi,
}
use v2b_x_turbo.Panel.Types.{
  Any, Anys, float64, string, array, end, item, Route, CommonNode, VallssNode, ShadowsocksNode,
  TrojanNode, TuicNode, AnyTlsNode, HysteriaNode, Hysteria2Node, Protocol, vallss, shadowsocks,
  trojan, tuic, any_tls, hysteria, hysteria2, RawDns, Rules, security_none, security_tls,
}

cons_part : String → List String → List String
cons_part c [] = c ∷ []
cons_part c (part ∷ parts) = (c ++ part) ∷ parts

-- `strings.Split(s, ",")`
unfoldable pub split_comma : String → List String
unfolding cons_part
split_comma String.[] = "" ∷ []
split_comma (String.◌∷◌ c s) =
    let rest = split_comma s in if code c == 44 then "" ∷ rest else cons_part (String.◌∷◌ c "") rest

-- `strings.Join(s, "")`
unfoldable pub join : List String → String
join [] = ""
join (s ∷ ss) = s ++ join ss

strings_of : Anys → Option (List String)
strings_of end = some []
strings_of (item (string s) rest) = elim (strings_of rest) [ none ↦ none | some ss ↦ some (s ∷ ss) ]
strings_of (item _ rest) = none

-- `matchs`
unfoldable pub matches_of : Any → Option (List String)
unfolding strings_of split_comma
matches_of (string s) = some (split_comma s)
matches_of (array xs) = strings_of xs
matches_of _ = none

-- The loop of `block`.
unfoldable pub block : List String → Rules → Rules
block [] rules = rules
block (v ∷ vs) rules = block vs (
    if has_prefix v "protocol:"
    then record rules { protocol = snoc rules.protocol (trim_prefix v "protocol:") }
    else record rules { regexp = snoc rules.regexp (trim_prefix v "regexp:") })

-- The case of `dns`, for the route at `i`.
unfoldable pub dns : ℕ → String → List String → RawDns → Option RawDns
unfolding join
dns i value [] raw = none
dns i value (m ∷ ms) raw = some (
    if not (m == "main")
    then record raw {
      dns_map = store (itoa (pos i)) (record { address = value; domains = m ∷ ms }) raw.dns_map;
    }
    else record raw { dns_json = join ms })

-- One round of the loop over the routes.
unfoldable pub route : ℕ → Route → Rules × RawDns → Option (Rules × RawDns)
unfolding block dns matches_of
route i r (rules, raw) = elim (matches_of r.match) [
  | none ↦ none
  | some ms ↦
      if r.action == "block"
      then some (block ms rules, raw)
      else if r.action == "dns"
      then elim (dns i r.action_value ms raw) [ none ↦ none | some raw' ↦ some (rules, raw') ]
      else some (rules, raw)
]

unfoldable pub all_routes : ℕ → List Route → Rules × RawDns → Option (Rules × RawDns)
unfolding route
all_routes i [] acc = some acc
all_routes i (r ∷ rs) acc = elim (route i r acc) [
  | none ↦ none
  | some acc' ↦ all_routes (i + 1) rs acc'
]

-- `intervalToTime`, in nanoseconds: `encoding/json` gives no `int`, and `reflect` panics at nil and
-- at what is no integer.
unfoldable pub interval_to_time : Any → Option ℤ
interval_to_time (float64 n) = some (int64 (n *ℤ pos 1000000000))
interval_to_time (string s) = some (int64 (atoi s *ℤ pos 1000000000))
interval_to_time _ = none

pub record Decoder : Type 0 where
  pub to_vallss : String → Result VallssNode
  pub to_shadowsocks : String → Result ShadowsocksNode
  pub to_trojan : String → Result TrojanNode
  pub to_tuic : String → Result TuicNode
  pub to_any_tls : String → Result AnyTlsNode
  pub to_hysteria : String → Result HysteriaNode
  pub to_hysteria2 : String → Result Hysteria2Node

-- The two kinds of a V2Ray node's settings are read from either of two fields.
unfoldable pub settle : VallssNode → VallssNode
settle rsp =
    let rsp =
      if not (rsp.network_settings_back == "")
      then record rsp { network_settings = rsp.network_settings_back; network_settings_back = "" }
      else rsp in
    elim rsp.tls_settings_back [
      | none ↦ rsp
      | some tls ↦ record rsp { tls_settings = tls; tls_settings_back = none }
    ]

-- The protocol's parameters, as they are around their common part, with that part and the security.
pub record Params : Type 0 where
  pub protocol : CommonNode → Protocol
  pub common : CommonNode
  pub security : ℤ

params_of : {N : Type 0} → (N → Params) → String → Result N → Result Params
params_of f what (ok rsp) = ok (f rsp)
params_of f what (err m) = err ("decode " ++ what ++ " params error: " ++ m)

-- The `switch` over the node's type. `none`: no case takes it, and `cm` stays nil.
unfoldable pub parse_params : Decoder → String → String → Option (Result Params)
unfolding params_of settle
parse_params d node_type body =
    if node_type == "vmess" || node_type == "vless"
    then some (
        params_of
          (λ n.
            let rsp = settle n in
            record {
              protocol = λ c. vallss (record rsp { common_node = c });
              common = rsp.common_node;
              security = rsp.tls;
            })
          "v2ray" (d.to_vallss body))
    else if node_type == "shadowsocks"
    then some (
        params_of
          (λ n. record {
            protocol = λ c. shadowsocks (record n { common_node = c });
            common = n.common_node;
            security = security_none;
          })
          "shadowsocks" (d.to_shadowsocks body))
    else if node_type == "trojan"
    then some (
        params_of
          (λ n. record {
            protocol = λ c. trojan (record n { common_node = c });
            common = n.common_node;
            security = security_tls;
          })
          "trojan" (d.to_trojan body))
    else if node_type == "tuic"
    then some (
        params_of
          (λ n. record {
            protocol = λ c. tuic (record n { common_node = c });
            common = n.common_node;
            security = security_tls;
          })
          "tuic" (d.to_tuic body))
    else if node_type == "anytls"
    then some (
        params_of
          (λ n. record {
            protocol = λ c. any_tls (record n { common_node = c });
            common = n.common_node;
            security = security_tls;
          })
          "anytls" (d.to_any_tls body))
    else if node_type == "hysteria"
    then some (
        params_of
          (λ n. record {
            protocol = λ c. hysteria (record n { common_node = c });
            common = n.common_node;
            security = security_tls;
          })
          "hysteria" (d.to_hysteria body))
    else if node_type == "hysteria2"
    then some (
        params_of
          (λ n. record {
            protocol = λ c. hysteria2 (record n { common_node = c });
            common = n.common_node;
            security = security_tls;
          })
          "hysteria2" (d.to_hysteria2 body))
    else none
