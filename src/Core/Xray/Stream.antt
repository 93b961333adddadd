-- ===== src/Core/Xray/Stream.antt =====
-- core/xray/inbound.go: the settings of the stream of an inbound, in the words of xray-core: those of
-- its transport, its socket and its security.
pub mod Secured
use v2b_x_turbo.Base.{
  ℕ, ◌+◌, ◌%◌, ℤ, pos, residue64, quot, String, Bool, true, false, not, Option, none, some, Result,
  ok, err, List, [], ◌∷◌, map, snoc, or_else, string_eq, int_eq, nat_eq, ◌==◌, ◌&&◌, ◌||◌,
  if◌then◌else◌, ◌≡◌, refl,
}
use Prim.Native.String.{◌++◌}
use v2b_x_turbo.Conf.Types.{Options, CertConfig}
use v2b_x_turbo.Conf.Xray.{XrayOptions, FallBackConfigForXray}
use v2b_x_turbo.Panel.Types.{
  Protocol, NodeInfo, VallssNode, TrojanNode, ShadowsocksNode, vallss, shadowsocks, trojan,
  security_tls, security_reality,
}
use v2b_x_turbo.Panel.Protocols.{vallss_of, trojan_of, shadowsocks_of}
use v2b_x_turbo.Core.Call.{Call, ◌>>=◌, return, fail, deref, wrap}

-- The settings of one transport: the JSON text that they were decoded from, empty where the code
-- makes them, and the one field that the code writes.
pub record TransportConfig : Type 0 where
  pub text : String
  pub accept_proxy_protocol : Bool

pub record SocketConfig : Type 0 where
  pub accept_proxy_protocol : Bool
  pub tfo : Bool

pub record TlsConfig : Type 0 where
  pub cert_file : String
  pub key_file : String
  pub ocsp_stapling : ℕ
  pub reject_unknown_sni : Bool

pub record RealityConfig : Type 0 where
  pub dest : String
  pub xver : ℕ
  pub server_names : List String
  pub private_key : String
  pub min_client_ver : String
  pub max_client_ver : String
  pub max_time_diff : ℕ
  pub short_ids : List String
  pub mldsa65_seed : String

pub record StreamConfig : Type 0 where
  pub network : String
  pub tcp_settings : Option TransportConfig
  pub ws_settings : Option TransportConfig
  pub grpc_settings : Option TransportConfig
  pub httpupgrade_settings : Option TransportConfig
  pub split_http_settings : Option TransportConfig
  pub socket_settings : Option SocketConfig
  pub security : String
  pub tls_settings : Option TlsConfig
  pub reality_settings : Option RealityConfig

abbrev pub new_stream : String → StreamConfig
new_stream network = record {
  network = network;
  tcp_settings = none;
  ws_settings = none;
  grpc_settings = none;
  httpupgrade_settings = none;
  split_http_settings = none;
  socket_settings = none;
  security = "";
  tls_settings = none;
  reality_settings = none;
}

-- `decode` is `json.Unmarshal` into the pointer to the settings of a transport, nil behind a null.
-- `random` are the random bytes in hexadecimal, `base64` is the standard encoding.
pub record Library : Type 0 where
  pub decode : String → String → Result (Option TransportConfig)
  pub random : Result String
  pub base64 : String → String
  pub parse_duration : String → ℤ

module _ (lib : Library) where
  -- The switch over the network, with the settings decoded into its field.
  unfoldable pub decode_stream : String → String → String → Call StreamConfig
  decode_stream message network text =
      wrap (λ m. "unmarshal " ++ message ++ " settings error: " ++ m)
        (elim (lib.decode network text) [
          | err m ↦ err m
          | ok t ↦ ok (
              if network == "tcp"
              then record (new_stream network) { tcp_settings = t }
              else if network == "ws"
              then record (new_stream network) { ws_settings = t }
              else if network == "grpc"
              then record (new_stream network) { grpc_settings = t }
              else if network == "httpupgrade"
              then record (new_stream network) { httpupgrade_settings = t }
              else record (new_stream network) { split_http_settings = t })
        ])

  unfoldable pub v2ray_stream : VallssNode → Call (Option StreamConfig)
  v2ray_stream v =
      if v.network_settings == ""
      then return none
      else if v.network == "tcp"
          || v.network == "ws"
          || v.network == "grpc"
          || v.network == "httpupgrade"
      then (do s ← decode_stream v.network v.network v.network_settings; return (some s))
      else if v.network == "splithttp" || v.network == "xhttp"
      then (do s ← decode_stream "xhttp" v.network v.network_settings; return (some s))
      else fail "the network type is not vail"

-- `AcceptProxyProtocol` of the settings that are there, or of new ones.
abbrev accept : Bool → Option TransportConfig → Option TransportConfig
accept b none = some (record { text = ""; accept_proxy_protocol = b })
accept b (some t) = some (record t { accept_proxy_protocol = b })

-- The second switch. A nil `StreamSetting` panics.
unfoldable pub enable_proxy : XrayOptions → String → StreamConfig → StreamConfig
enable_proxy c network s =
    if network == "tcp"
    then record s { tcp_settings = accept c.enable_proxy_protocol s.tcp_settings }
    else if network == "ws"
    then record s { ws_settings = accept c.enable_proxy_protocol s.ws_settings }
    else record s {
      socket_settings =
          some (record { accept_proxy_protocol = c.enable_proxy_protocol; tfo = c.enable_tfo });
    }

unfoldable pub use_cert : CertConfig → StreamConfig → StreamConfig
use_cert c s = if c.cert_mode == "none" || c.cert_mode == "" then s else record s {
  security = "tls";
  tls_settings = some (record {
    cert_file = c.cert_file;
    key_file = c.key_file;
    ocsp_stapling = 3600;
    reject_unknown_sni = c.reject_unknown_sni;
  });
}

-- `mtd.Microseconds()` as a `uint64`.
unfoldable pub use_reality : (String → ℤ) → VallssNode → StreamConfig → StreamConfig
use_reality parse_duration v s =
    let t = v.tls_settings in
    record s {
      security = "reality";
      reality_settings = some (record {
        dest = (if t.dest == "" then t.server_name else t.dest) ++ ":" ++ t.server_port;
        xver = if t.xver == 0 then v.reality_config.xver else t.xver;
        server_names = t.server_name ∷ [];
        private_key = t.private_key;
        min_client_ver = v.reality_config.min_client_ver;
        max_client_ver = v.reality_config.max_client_ver;
        max_time_diff = residue64 (quot (parse_duration v.reality_config.max_time_diff) 1000);
        short_ids = t.short_id ∷ [];
        mldsa65_seed = t.mldsa65_seed;
      });
    }

unfoldable pub secure :
    (String → ℤ) → NodeInfo → Option CertConfig → StreamConfig → Call StreamConfig
secure parse_duration info cert s =
    if info.security == security_tls
    then elim cert [ none ↦ fail "the CertConfig is not vail" | some c ↦ return (use_cert c s) ]
    else if info.security == security_reality
    then (do v ← deref (vallss_of info.protocol); return (use_reality parse_duration v s))
    else return s
