-- ===== src/Core/Hy2/Configure.antt =====
-- core/hy2/config.go: `getHyConfig`, the whole configuration of a server of hysteria, and `AddNode`
-- with it. The network is a state `N`. The calls into hysteria and the system are parameters, the
-- reading of the configuration file is done. `none` is a panic.
pub mod Sockets
use v2b_x_turbo.Base.{
  ℕ, ℤ, pos, String, Bool, true, false, not, Option, none, some, Result, ok, err, List, [], ◌∷◌,
  string_eq, int_eq, ◌==◌, ◌>>=◌, ◌&&◌, ◌||◌, if◌then◌else◌, ◌≡◌, ◌≢◌, ◌⊎◌, refl, sym, ap, subst,
  arith, Option-cases, Result-cases, Bool-cases, inl, inr,
}
use v2b_x_turbo.Conf.Types.{Options, CertConfig}
use v2b_x_turbo.Panel.Types.{NodeInfo, Protocol, Hysteria2Node, hysteria2}
use v2b_x_turbo.Panel.Protocols.{hysteria2_of}
use v2b_x_turbo.Core.Hy2.{Hysteria2}
use v2b_x_turbo.Core.Hy2 as Hy2
use v2b_x_turbo.Core.Hy2.ServerConfig.{ServerConfig, ServerConfigSniff}
use v2b_x_turbo.Core.Hy2.Quic.{QuicConfig, BandwidthConfig, get_quic_config, get_bandwidth_config}
use v2b_x_turbo.Core.Hy2.Outbounds.{Outbounds, get_outbound_config}
use v2b_x_turbo.Core.Hy2.Masquerade.{
  Url, MasqHandler, MasqTcpServer, format_address, get_masq_handler,
}

-- A certificate that was loaded once, and the two files that each later handshake loads again.
pub record TlsConfig (Cert : Type 0) : Type 0 where
  pub certificates : List Cert
  pub cert_file : String
  pub key_file : String

pub data PacketConn (Conn Obfs : Type 0) : Type 0 where
  plain : Conn → PacketConn Conn Obfs
  obfuscated : Conn → Obfs → PacketConn Conn Obfs

-- A port union that is not set is nil.
pub record Sniffer (Ports : Type 0) : Type 0 where
  pub timeout : ℤ
  pub rewrite_domain : Bool
  pub tcp_ports : Option Ports
  pub udp_ports : Option Ports

pub record System (Cert Addr Conn Obfs Ports N : Type 0) : Type 0 where
  pub load_key_pair : String → String → Result Cert
  pub resolve_udp_addr : String → Result Addr
  pub listen_udp : Addr → N → Result Conn × N
  pub salamander : String → Result Obfs
  pub local_addr : PacketConn Conn Obfs → String
  pub parse_port_union : String → Option Ports
  pub parse_url : String → Result Url
  pub to_lower : String → String

pub record HyConfig (Cert Conn Obfs Ports Ob : Type 0) : Type 0 where
  pub tls_config : TlsConfig Cert
  pub quic_config : QuicConfig
  pub conn : PacketConn Conn Obfs
  pub request_hook : Option (Sniffer Ports)
  pub outbound : Ob
  pub bandwidth_config : BandwidthConfig
  pub ignore_client_bandwidth : Bool
  pub disable_udp : Bool
  pub udp_idle_timeout : ℤ
  pub masq_handler : MasqHandler
  pub masq_tcp_server : Option MasqTcpServer

module _ {Cert Addr Conn Obfs Ports N Ob Ip : Type 0} (sys : System Cert Addr Conn Obfs Ports N)
    (parse_ip : String → Option Ip) (obs : Outbounds Ob Ip) where
  unfoldable pub get_tls_config : Option CertConfig → Result (TlsConfig Cert)
  get_tls_config none = err "the CertConfig is not vail"
  get_tls_config (some c) =
      if c.cert_mode == "none" || c.cert_mode == "" then err "the CertMode cannot be none" else do
        cert ← sys.load_key_pair c.cert_file c.key_file
        ok (record { certificates = cert ∷ []; cert_file = c.cert_file; key_file = c.key_file })

  -- Neither error closes the connection.
  unfoldable pub obfuscate : Hysteria2Node → Conn → Result (PacketConn Conn Obfs)
  obfuscate n conn =
      let kind = sys.to_lower n.obfs_type in
      if kind == "" || kind == "plain"
      then ok (plain conn)
      else if kind == "salamander"
      then (do ob ← sys.salamander n.obfs_password; ok (obfuscated conn ob))
      else err "unsupported obfuscation type"

  unfoldable pub get_conn : NodeInfo → Options → N → Option (Result (PacketConn Conn Obfs) × N)
  unfolding obfuscate
  get_conn info config net = elim info.common [
    | none ↦ none
    | some common ↦
        elim (sys.resolve_udp_addr (format_address config.listen_ip common.server_port)) [
          | err m ↦ some (err m, net)
          | ok addr ↦
              let (r, net') = sys.listen_udp addr net in
              elim r [
                | err m ↦ some (err m, net')
                | ok conn ↦ elim (hysteria2_of info.protocol) [
                  | none ↦ none
                  | some n ↦ some (obfuscate n conn, net')
                ]
              ]
        ]
  ]

  unfoldable pub port_union : String → String → Result (Option Ports)
  port_union message ports =
      if ports == ""
      then ok none
      else elim (sys.parse_port_union ports) [ none ↦ err message | some p ↦ ok (some p) ]

  unfoldable pub get_request_hook : ServerConfigSniff → Result (Option (Sniffer Ports))
  unfolding port_union
  get_request_hook c =
      if c.enable
      then (do
        tcp ← port_union "sniff.tcpPorts: invalid port union" c.tcp_ports
        udp ← port_union "sniff.udpPorts: invalid port union" c.udp_ports
        ok (
            some (record {
              timeout = c.timeout;
              rewrite_domain = c.rewrite_domain;
              tcp_ports = tcp;
              udp_ports = udp;
            })))
      else ok none

  -- What follows the connection; none of its errors closes the connection.
  unfoldable pub finish_config :
      Hysteria2Node
      → ServerConfig
      → TlsConfig Cert
      → QuicConfig
      → PacketConn Conn Obfs
      → Result (HyConfig Cert Conn Obfs Ports Ob)
  unfolding get_request_hook
  finish_config n c tls quic conn = do
    hook ← get_request_hook c.sniff
    outbound ← get_outbound_config sys.to_lower parse_ip obs c
    (masq, tcp) ← get_masq_handler sys.to_lower sys.parse_url (sys.local_addr conn) c.masquerade
    ok (record {
      tls_config = tls;
      quic_config = quic;
      conn = conn;
      request_hook = hook;
      outbound = outbound;
      bandwidth_config = get_bandwidth_config n;
      ignore_client_bandwidth = n.ignore_client_bandwidth;
      disable_udp = c.disable_udp;
      udp_idle_timeout = c.udp_idle_timeout;
      masq_handler = masq;
      masq_tcp_server = tcp;
    })

  unfoldable pub get_hy_config :
      NodeInfo
      → Option CertConfig
      → Options
      → ServerConfig
      → N
      → Option (Result (HyConfig Cert Conn Obfs Ports Ob) × N)
  get_hy_config info cert config c net = elim (get_tls_config cert) [
    | err m ↦ some (err m, net)
    | ok tls ↦ elim (get_quic_config c.quic) [
      | err m ↦ some (err m, net)
      | ok quic ↦ elim (get_conn info config net) [
        | none ↦ none
        | some (r, net') ↦ elim r [
          | err m ↦ some (err m, net')
          | ok conn ↦ elim (hysteria2_of info.protocol) [
            | none ↦ none
            | some n ↦ some (finish_config n c tls quic conn, net')
          ]
        ]
      ]
    ]
  ]

  -- `new_server` is `server.NewServer`, which may close the connection where it fails.
  unfoldable pub add_configured_node :
      {S : Type 0}
      → (HyConfig Cert Conn Obfs Ports Ob → N → Result S × N)
      → String
      → NodeInfo
      → Options
      → ServerConfig
      → N
      → Hysteria2 S
      → Option ((Option String × Hysteria2 S) × N)
  add_configured_node new_server tag info config c net h =
      elim (get_hy_config info (some config.cert_config) config c net) [
        | none ↦ none
        | some (r, net') ↦ elim r [
          | err m ↦ some (Hy2.add_node tag (err m) config h, net')
          | ok c ↦
              let (made, net'') = new_server c net' in some (Hy2.add_node tag made config h, net'')
        ]
      ]
