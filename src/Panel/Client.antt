-- ===== src/Panel/Client.antt =====
-- api/panel: what the client makes of the panel's answers to `GetNodeInfo`, and what it keeps of
-- them. An answer is what `resty` returns: with an error, its status is 0 and its body is empty.
-- `hash` stands for SHA-256 in hexadecimal.
pub mod Repeats
pub mod Blocked
use v2b_x_turbo.Base.{
  true, false, ◌||◌, ℕ, ℤ, pos, String, Bool, Option, none, some, Result, ok, err, List, [], ◌∷◌,
  Map, store, nat_eq, leb, string_eq, int_eq, ◌==◌, if◌then◌else◌,
}
use Prim.Native.String.{◌++◌}
use v2b_x_turbo.Conf.Types.{ApiConfig}
use v2b_x_turbo.Panel.Types.{CommonNode, BaseConfig, Rules, RawDns, NodeInfo, UserTraffic}
use v2b_x_turbo.Panel.Config.{Decoder, Params, parse_params, all_routes, interval_to_time}

-- The fields of `Client` that `GetNodeInfo` reads and writes.
pub record Client : Type 0 where
  pub api_host : String
  pub node_type : String
  pub node_id : ℤ
  pub node_etag : String
  pub response_body_hash : String

pub record Response : Type 0 where
  pub error : Option String
  pub status : ℕ
  pub body : String
  pub etag : String

-- `checkResponse`; `assemble` is `path.Join` behind `assembleURL`.
unfoldable pub check_response : (String → String) → Client → Response → String → Option String
check_response assemble c r path = elim r.error [
  | some m ↦ some ("request " ++ assemble (c.api_host ++ path) ++ " failed: " ++ m)
  | none ↦
      if leb 400 r.status
      then some ("request " ++ assemble (c.api_host ++ path) ++ " failed: " ++ r.body)
      else none
]

-- From the decoded parameters to the node. `Routes` and `BaseConfig` of the common part are cleared.
unfoldable pub complete : Client → Params → Option NodeInfo
complete c p =
    elim (all_routes 0 p.common.routes
      (record { regexp = []; protocol = [] }, record { dns_map = []; dns_json = "" })) [
        | none ↦ none
        | some (rules, raw) ↦ elim p.common.base_config [
          | none ↦ none
          | some base ↦ elim (interval_to_time base.push_interval) [
            | none ↦ none
            | some push ↦ elim (interval_to_time base.pull_interval) [
              | none ↦ none
              | some pull ↦
                  let cleared : CommonNode = record p.common { routes = []; base_config = none } in
                  some (record {
                    id = c.node_id;
                    kind = c.node_type;
                    security = p.security;
                    push_interval = push;
                    pull_interval = pull;
                    raw_dns = raw;
                    rules = rules;
                    protocol = p.protocol cleared;
                    common = some cleared;
                  })
            ]
          ]
        ]
      ]

-- `GetNodeInfo`: what it returns, and the client behind it. The outer `none` is a panic, the inner
-- one a nil node.
unfoldable pub get_node_info :
    (String → String)
    → (String → String)
    → Decoder
    → Client
    → Response
    → Option (Result (Option NodeInfo)) × Client
unfolding check_response complete
get_node_info assemble hash d c r =
    if r.status == 304 || hash r.body == c.response_body_hash
    then (some (ok none), c)
    else (let c' = record c { response_body_hash = hash r.body; node_etag = r.etag } in
        elim (check_response assemble c' r "/api/v1/server/UniProxy/config") [
          | some m ↦ (some (err m), c')
          | none ↦ elim (parse_params d c.node_type r.body) [
            | none ↦ (none, c')
            | some (err m) ↦ (some (err m), c')
            | some (ok p) ↦
                (elim (complete c' p) [ none ↦ none | some node ↦ some (ok (some node)) ], c')
          ]
        ])

-- The body of `ReportUserTraffic`.
unfoldable pub traffic_report : List UserTraffic → Map ℤ (List ℤ) → Map ℤ (List ℤ)
traffic_report [] sent = sent
traffic_report (t ∷ ts) sent = traffic_report ts (store t.uid (t.upload ∷ t.download ∷ []) sent)

-- The types of nodes that `New` takes, by their own names.
abbrev pub known_types : List String
known_types =
    "vmess" ∷ "trojan" ∷ "shadowsocks" ∷ "hysteria" ∷ "hysteria2" ∷ "tuic" ∷ "anytls" ∷ "vless" ∷ []

is_one_of : String → List String → Bool
is_one_of s [] = false
is_one_of s (x ∷ xs) = let rest = is_one_of s xs in if s == x then true else rest

-- `New`, without the settings of the HTTP client; `to_lower` is `strings.ToLower`.
unfoldable pub new_client : (String → String) → ApiConfig → Result Client
unfolding is_one_of
new_client to_lower c =
    let lower = to_lower c.node_type in
    let node_type = if lower == "v2ray" then "vmess" else lower in
    if is_one_of node_type known_types
    then ok (record {
      api_host = c.api_host;
      node_type = node_type;
      node_id = c.node_id;
      node_etag = "";
      response_body_hash = "";
    })
    else err ("unsupported Node type: " ++ node_type)
