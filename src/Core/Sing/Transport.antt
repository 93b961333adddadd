-- ===== src/Core/Sing/Transport.antt =====
-- core/sing/node.go and utils.go: the options of sing-box for the transport and the fallback of an
-- inbound. The decoders of `encoding/json`, and the parsers of addresses and durations, are parameters.
use v2b_x_turbo.Base.{
  ℕ, ◌%◌, ℤ, residue64, String, Option, none, some, Result, ok, err, List, [], ◌∷◌, Map, store,
  atoi, is_int, map, string_eq, int_eq, ◌==◌, if◌then◌else◌,
}
use Prim.Native.String.{◌++◌}
use v2b_x_turbo.Conf.Sing.{FallBack}
use v2b_x_turbo.Panel.Types.{VallssNode, TrojanNode}
use v2b_x_turbo.Core.Call.{Call, ◌>>=◌, return, wrap}

-- A header's `request` is its JSON text, if it is there.
pub record HttpNetworkConfig : Type 0 where
  pub kind : String
  pub request : Option String
  pub response : Option String

pub record HttpRequest : Type 0 where
  pub version : String
  pub method : String
  pub path : List String
  pub host : List String

pub record WsNetworkConfig : Type 0 where
  pub path : String
  pub headers : Map String String

pub record HttpupgradeNetworkConfig : Type 0 where
  pub path : String
  pub host : String

-- `parse_path` gives the path of an address, and the parameter `ed` of its query. The configuration of
-- gRPC is its service name.
pub record Parsers (Addr : Type 0) : Type 0 where
  pub http_network : String → Result HttpNetworkConfig
  pub http_request : String → Result HttpRequest
  pub ws_network : String → Result WsNetworkConfig
  pub grpc_network : String → Result String
  pub httpupgrade_network : String → Result HttpupgradeNetworkConfig
  pub parse_path : String → Result (String × String)
  pub parse_addr : String → Option Addr
  pub parse_duration : String → ℤ

abbrev pub uint16 : ℤ → ℕ
uint16 n = residue64 n % 65536

abbrev pub uint32 : ℤ → ℕ
uint32 n = residue64 n % 4294967296

pub record WebsocketOptions : Type 0 where
  pub path : String
  pub early_data_header_name : String
  pub max_early_data : ℕ
  pub headers : Map String (List String)

pub record TransportOptions : Type 0 where
  pub kind : String
  pub http_host : List String
  pub http_path : String
  pub http_method : String
  pub websocket : Option WebsocketOptions
  pub grpc_service_name : String
  pub httpupgrade_path : String
  pub httpupgrade_host : String

abbrev pub new_transport : String → TransportOptions
new_transport kind = record {
  kind = kind;
  http_host = [];
  http_path = "";
  http_method = "";
  websocket = none;
  grpc_service_name = "";
  httpupgrade_path = "";
  httpupgrade_host = "";
}

decode_error : String → String
decode_error m = "decode NetworkSettings error: " ++ m

module _ {Addr : Type 0} (p : Parsers Addr) where
  -- An empty list of paths panics.
  unfoldable pub http_header : HttpNetworkConfig → TransportOptions → Call TransportOptions
  http_header network t = elim network.request [
    | none ↦ return t
    | some text ↦ do
      request ← wrap (λ m. "decode HttpRequest error: " ++ m) (p.http_request text)
      path ← elim request.path [ [] ↦ none | x ∷ xs ↦ return x ]
      return (record t { http_host = request.host; http_path = path; http_method = request.method })
  ]

  unfoldable pub tcp_transport : String → Call TransportOptions
  unfolding http_header decode_error
  tcp_transport settings = if settings == "" then return (new_transport "") else do
    network ← wrap decode_error (p.http_network settings)
    if network.kind == "http"
        then http_header network (new_transport network.kind)
        else return (new_transport "")

  unfoldable pub ws_transport : String → String → Call TransportOptions
  unfolding decode_error
  ws_transport kind settings = do
    o ←
        if settings == ""
        then return (record {
          path = "";
          early_data_header_name = "Sec-WebSocket-Protocol";
          max_early_data = 0;
          headers = [];
        })
        else do
          network ← wrap decode_error (p.ws_network settings)
          (path, ed) ← wrap (λ m. "parse path error: " ++ m) (p.parse_path network.path)
          return (record {
            path = path;
            early_data_header_name = "Sec-WebSocket-Protocol";
            max_early_data = uint32 (atoi ed);
            headers = map (λ (h : String × String). (h.0, h.1 ∷ [])) network.headers;
          })
    return (record (new_transport kind) { websocket = some o })

  unfoldable pub grpc_transport : String → String → Call TransportOptions
  unfolding decode_error
  grpc_transport kind settings = do
    service ← if settings == "" then return "" else wrap decode_error (p.grpc_network settings)
    return (record (new_transport kind) { grpc_service_name = service })

  unfoldable pub httpupgrade_transport : String → String → Call TransportOptions
  unfolding decode_error
  httpupgrade_transport kind settings = do
    network ←
        if settings == ""
        then return (record { path = ""; host = "" })
        else wrap decode_error (p.httpupgrade_network settings)
    return (record (new_transport kind) {
      httpupgrade_path = network.path;
      httpupgrade_host = network.host;
    })

  -- The switches over `n.Network`: of vmess and vless, and of trojan.
  unfoldable pub v2ray_transport : VallssNode → Call TransportOptions
  unfolding tcp_transport ws_transport grpc_transport httpupgrade_transport
  v2ray_transport n =
      if n.network == "tcp"
      then tcp_transport n.network_settings
      else if n.network == "ws"
      then ws_transport n.network n.network_settings
      else if n.network == "grpc"
      then grpc_transport n.network n.network_settings
      else if n.network == "httpupgrade"
      then httpupgrade_transport n.network n.network_settings
      else return (new_transport n.network)

  unfoldable pub trojan_transport : TrojanNode → Call TransportOptions
  unfolding ws_transport grpc_transport
  trojan_transport n =
      if n.network == "ws"
      then ws_transport n.network n.network_settings
      else if n.network == "grpc"
      then grpc_transport n.network n.network_settings
      else return (new_transport "")

pub record ServerOptions : Type 0 where
  pub server : String
  pub server_port : ℕ

-- The order of Go's range is that of the list. Nothing reads the text of the error.
unfoldable pub process_fallback :
    Map String FallBack → Map String ServerOptions → Result (Map String ServerOptions)
process_fallback [] done = ok done
process_fallback ((k, v) ∷ more) done =
    let rest =
      process_fallback more
        (store k (record { server = v.server; server_port = uint16 (atoi v.server_port) }) done) in
    if is_int v.server_port then rest else err "unable to parse fallbackForALPN server port error"
