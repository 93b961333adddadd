-- ===== src/Core/Hy2/Configure/Sockets.antt =====
-- The socket that `getConn` of core/hy2 opens, behind an error of `getHyConfig` in `AddNode`.
use v2b_x_turbo.Base.{
  String, Option, some, Result, ok, err, string_eq, int_eq, ◌≡◌, arith, Option-cases, inl, inr,
}
use v2b_x_turbo.Conf.Types.{Options}
use v2b_x_turbo.Panel.Types.{NodeInfo, CommonNode}
use v2b_x_turbo.Core.Hy2.{Hysteria2, Hysteria2Node}
use v2b_x_turbo.Core.Hy2 as Hy2
use v2b_x_turbo.Core.Hy2.ServerConfig.{ServerConfig}
use v2b_x_turbo.Core.Hy2.Quic.{QuicConfig, get_quic_config}
use v2b_x_turbo.Core.Hy2.Outbounds.{Outbounds}
use v2b_x_turbo.Core.Hy2.Masquerade.{format_address}
use v2b_x_turbo.Core.Hy2.Configure.{
  PacketConn, get_conn, TlsConfig, System, HyConfig, get_tls_config, get_hy_config,
  add_configured_node,
}

module _ {Cert Addr Conn Obfs Ports N Ob Ip S : Type 0} (sys : System Cert Addr Conn Obfs Ports N)
    (parse_ip : String → Option Ip) (obs : Outbounds Ob Ip)
    (new_server : HyConfig Cert Conn Obfs Ports Ob → N → Result S × N) (config : Options)
    (common : CommonNode) (tls : TlsConfig Cert) (addr : Addr) (conn : Conn) (net bound : N)
    (loads : get_tls_config sys parse_ip obs (some config.cert_config) ≡ ok tls)
    (resolves : sys.resolve_udp_addr (format_address config.listen_ip common.server_port) ≡ ok addr)
    (listens : sys.listen_udp addr net ≡ (ok conn, bound)) where
  get_conn-bound :
      (info : NodeInfo) (r : Result (PacketConn Conn Obfs)) (net' : N)
      → info.common ≡ some common
      → get_conn sys parse_ip obs info config net ≡ some (r, net')
      → net' ≡ bound
  unfolding get_conn
  get_conn-bound info r net' co h = ground (arith, co, resolves, listens)

  get_conn-busy :
      (info : NodeInfo) (m : String)
      → info.common ≡ some common
      → sys.listen_udp addr bound ≡ (err m, bound)
      → get_conn sys parse_ip obs info config bound ≡ some (err m, bound)
  unfolding get_conn
  get_conn-busy info m co busy = ground (arith, co, resolves, listens, busy)

  get_hy_config-bound :
      (info : NodeInfo) (c : ServerConfig) (q : QuicConfig)
      (r : Result (HyConfig Cert Conn Obfs Ports Ob)) (net' : N)
      → info.common ≡ some common
      → get_quic_config c.quic ≡ ok q
      → get_hy_config sys parse_ip obs info (some config.cert_config) config c net ≡ some (r, net')
      → net' ≡ bound
  unfolding get_hy_config
  get_hy_config-bound info c q r net' co qu h =
      elim (Option-cases (get_conn sys parse_ip obs info config net)) [
        | inl panics ↦ absurd (ground arith)
        | inr ((k, n), done) ↦ ground (arith, get_conn-bound info k n co done)
      ]

  get_hy_config-busy :
      (info : NodeInfo) (c : ServerConfig) (q : QuicConfig) (m : String)
      → info.common ≡ some common
      → get_quic_config c.quic ≡ ok q
      → sys.listen_udp addr bound ≡ (err m, bound)
      → get_hy_config sys parse_ip obs info (some config.cert_config) config c bound
        ≡ some (err m, bound)
  unfolding get_hy_config
  get_hy_config-busy info c q m co qu h = ground (arith, get_conn-busy info m co h)

  add_configured_node-busy :
      (tag : String) (info : NodeInfo) (c : ServerConfig) (q : QuicConfig) (m : String)
      (h : Hysteria2 S)
      → info.common ≡ some common
      → get_quic_config c.quic ≡ ok q
      → sys.listen_udp addr bound ≡ (err m, bound)
      → add_configured_node sys parse_ip obs new_server tag info config c bound h
        ≡ some ((some m, h), bound)
  unfolding add_configured_node Hy2.add_node
  add_configured_node-busy tag info c q m h co qu busy =
      ground (arith, get_hy_config-busy info c q m co qu busy)

  -- Where the certificate loads, the settings of QUIC are accepted and the address can be listened at:
  -- if `getHyConfig` refuses what follows, `AddNode` answers its error, adds no node and leaves the
  -- address bound. As long as the address is refused while it is bound, the next `AddNode` at the same
  -- address and port fails with that refusal, whatever was corrected in the node or the file.
  pub add_configured_node-leaks :
      (tag : String) (info info' : NodeInfo) (c c' : ServerConfig) (q q' : QuicConfig)
      (m refusal : String) (h : Hysteria2 S) (net' : N)
      → info.common ≡ some common
      → info'.common ≡ some common
      → get_quic_config c.quic ≡ ok q
      → get_quic_config c'.quic ≡ ok q'
      → sys.listen_udp addr bound ≡ (err refusal, bound)
      → get_hy_config sys parse_ip obs info (some config.cert_config) config c net
        ≡ some (err m, net')
      → let add = add_configured_node sys parse_ip obs new_server tag in
        (add info config c net h ≡ some ((some m, h), bound))
        × (add info' config c' bound h ≡ some ((some refusal, h), bound))
  unfolding add_configured_node Hy2.add_node
  add_configured_node-leaks tag info info' c c' q q' m refusal h net' co co' qu qu' busy fails = (
    ground (arith, get_hy_config-bound info c q (err m) net' co qu fails),
    add_configured_node-busy tag info' c' q' refusal h co' qu' busy,
  )
