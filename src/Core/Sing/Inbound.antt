-- ===== src/Core/Sing/Inbound.antt =====
-- core/sing/node.go: `getInboundOptions`, the inbound of sing-box for a node of the panel. The random
-- password of an inbound without users is the parameter `random`, of its length.
pub mod Agreement
use v2b_x_turbo.Base.{
  ℕ, ◌+◌, ◌%◌, ℤ, pos, residue64, String, Bool, true, false, not, Option, none, some, Result, ok,
  err, List, [], ◌∷◌, Map, store, atoi, is_int, map, snoc, string_eq, int_eq, ◌==◌, ◌&&◌, ◌||◌,
  if◌then◌else◌, ◌≡◌, refl, has_prefix,
}
use v2b_x_turbo.Conf.Types.{Options, CertConfig}
use v2b_x_turbo.Conf.Sing.{SingOptions, FallBackConfigForSing, MultiplexConfig, BrutalOptions}
use v2b_x_turbo.Panel.Types.{
  Protocol, NodeInfo, vallss, shadowsocks, trojan, tuic, any_tls, hysteria, hysteria2,
  ShadowsocksNode, TrojanNode, TuicNode, AnyTlsNode, HysteriaNode, Hysteria2Node,
}
use v2b_x_turbo.Panel.Protocols.{
  vallss_of, shadowsocks_of, trojan_of, tuic_of, any_tls_of, hysteria_of, hysteria2_of,
}
use v2b_x_turbo.Core.Call.{Call, ◌>>=◌, return, fail, deref, wrap}
use v2b_x_turbo.Core.Sing.Transport.{
  Parsers, TransportOptions, ServerOptions, v2ray_transport, trojan_transport, process_fallback,
  uint16,
}
use v2b_x_turbo.Core.Sing.Tls.{TlsOptions, tls_options}

pub record ListenOptions (Addr : Type 0) : Type 0 where
  pub listen : Addr
  pub listen_port : ℕ
  pub tcp_fast_open : Bool

-- What the code copies of the settings is the settings.
abbrev pub InboundMultiplexOptions : Type 0
InboundMultiplexOptions = MultiplexConfig

pub record Hysteria2Obfs : Type 0 where
  pub kind : String
  pub password : String

pub data InboundOptions : Type 0 where
  vless_options : TlsOptions → TransportOptions → Option MultiplexConfig → InboundOptions
  vmess_options : TlsOptions → TransportOptions → Option MultiplexConfig → InboundOptions
  shadowsocks_options :
      (method password : String) (user_passwords : List String)
      → Option MultiplexConfig
      → InboundOptions
  trojan_options :
      TlsOptions
      → TransportOptions
      → Option MultiplexConfig
      → (fallback : Option ServerOptions) → (fallback_for_alpn : Option (Map String ServerOptions))
      → InboundOptions
  tuic_options : TlsOptions → (congestion_control : String) → Bool → InboundOptions
  any_tls_options : TlsOptions → (padding_scheme : List String) → InboundOptions
  hysteria_options : TlsOptions → (up_mbps down_mbps : ℤ) → (obfs : String) → InboundOptions
  hysteria2_options :
      TlsOptions
      → (up_mbps down_mbps : ℤ) → (ignore_client_bandwidth : Bool) → Option Hysteria2Obfs
      → InboundOptions

-- A type with no case leaves the type empty and the options nil.
pub record Inbound (Addr : Type 0) : Type 0 where
  pub tag : String
  pub kind : String
  pub listen : ListenOptions Addr
  pub options : Option InboundOptions

unfoldable pub hysteria2_obfs : Hysteria2Node → Option Hysteria2Obfs
hysteria2_obfs n =
    if n.obfs_type == ""
    then none
    else if n.obfs_password == ""
    then some (record { kind = "salamander"; password = n.obfs_type })
    else some (record { kind = n.obfs_type; password = n.obfs_password })

-- `keyLength`
abbrev pub key_length : String → ℕ
key_length cipher =
    if cipher == "2022-blake3-aes-256-gcm" || cipher == "2022-blake3-chacha20-poly1305"
    then 32
    else 16

unfoldable pub contains_2022 : String → Bool
contains_2022 String.[] = false
contains_2022 (String.◌∷◌ c s) =
    let rest = contains_2022 s in if has_prefix (String.◌∷◌ c s) "2022" then true else rest

unfoldable pub shadowsocks_inbound :
    (ℕ → String) → (String → String) → ShadowsocksNode → Option MultiplexConfig → InboundOptions
unfolding contains_2022
shadowsocks_inbound random base64 n multiplex =
    let password = random (key_length n.cipher) in
    if contains_2022 n.cipher
    then shadowsocks_options n.cipher n.server_key (base64 password ∷ []) multiplex
    else shadowsocks_options n.cipher "" (password ∷ []) multiplex

unfoldable pub trojan_inbound : TlsOptions → TransportOptions → SingOptions → InboundOptions
unfolding process_fallback
trojan_inbound tls t c = elim c.fall_back_configs [
  | none ↦ trojan_options tls t c.multiplex none none
  | some f ↦
      trojan_options tls t c.multiplex
        (if is_int f.fall_back.server_port
          then some (record {
            server = f.fall_back.server;
            server_port = uint16 (atoi f.fall_back.server_port);
          })
          else none)
        (elim (process_fallback f.fall_back_for_alpn []) [ ok m ↦ some m | err e ↦ none ])
]

module _ {Addr : Type 0} (p : Parsers Addr) (random : ℕ → String) (base64 : String → String) where
  -- The switch over `info.Type`.
  unfoldable pub protocol_options :
      NodeInfo → TlsOptions → SingOptions → Call (String × Option InboundOptions)
  unfolding vallss_of shadowsocks_of trojan_of tuic_of any_tls_of hysteria_of hysteria2_of
      hysteria2_obfs trojan_inbound shadowsocks_inbound
  protocol_options info tls c =
      if info.kind == "vmess" || info.kind == "vless"
      then (do
        n ← deref (vallss_of info.protocol)
        t ← v2ray_transport p n
        if info.kind == "vless"
            then return ("vless", some (vless_options tls t c.multiplex))
            else return ("vmess", some (vmess_options tls t c.multiplex)))
      else if info.kind == "shadowsocks"
      then (do
        n ← deref (shadowsocks_of info.protocol)
        return ("shadowsocks", some (shadowsocks_inbound random base64 n c.multiplex)))
      else if info.kind == "trojan"
      then (do
        n ← deref (trojan_of info.protocol)
        t ← trojan_transport p n
        return ("trojan", some (trojan_inbound tls t c)))
      else if info.kind == "tuic"
      then (do
        n ← deref (tuic_of info.protocol)
        let tls = record tls { alpn = snoc tls.alpn "h3" }
        return ("tuic", some (tuic_options tls n.congestion_control n.zero_rtt_handshake)))
      else if info.kind == "anytls"
      then (do
        n ← deref (any_tls_of info.protocol)
        return ("anytls", some (any_tls_options tls n.padding_scheme)))
      else if info.kind == "hysteria"
      then (do
        n ← deref (hysteria_of info.protocol)
        return ("hysteria", some (hysteria_options tls n.up_mbps n.down_mbps n.obfs)))
      else if info.kind == "hysteria2"
      then (do
        n ← deref (hysteria2_of info.protocol)
        return (
          "hysteria2",
          some (
              hysteria2_options tls n.up_mbps n.down_mbps n.ignore_client_bandwidth
                (hysteria2_obfs n)),
        ))
      else return ("", none)

  -- `c` is what the pointer `SingOptions` of the options points at.
  unfoldable pub get_inbound_options :
      String → NodeInfo → String → Option CertConfig → Option SingOptions → Call (Inbound Addr)
  get_inbound_options tag info listen_ip cert c = elim (p.parse_addr listen_ip) [
    | none ↦ fail "the listen ip not vail"
    | some addr ↦ do
      common ← deref info.common
      c ← deref c
      tls ← tls_options p.parse_duration info cert
      (kind, options) ← protocol_options info tls c
      return (record {
        tag = tag;
        kind = kind;
        listen = record {
          listen = addr;
          listen_port = uint16 common.server_port;
          tcp_fast_open = c.tcp_fast_open;
        };
        options = options;
      })
  ]
