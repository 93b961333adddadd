-- ===== src/Core/Hy2/ServerConfig.antt =====
-- core/hy2/serverConfig.go: the configuration of one server of hysteria, as viper reads it. A
-- duration is in nanoseconds.
use v2b_x_turbo.Base.{ℕ, ℤ, String, Bool, Option, List, Map}

pub record ServerConfigObfsSalamander : Type 0 where
  pub password : String

pub record ServerConfigObfs : Type 0 where
  pub kind : String
  pub salamander : ServerConfigObfsSalamander

pub record ServerConfigTls : Type 0 where
  pub cert : String
  pub key : String

pub record ServerConfigAcme : Type 0 where
  pub domains : List String
  pub email : String
  pub ca : String
  pub disable_http : Bool
  pub disable_tls_alpn : Bool
  pub alt_http_port : ℤ
  pub alt_tls_alpn_port : ℤ
  pub dir : String

pub record ServerConfigQuic : Type 0 where
  pub init_stream_receive_window : ℕ
  pub max_stream_receive_window : ℕ
  pub init_connection_receive_window : ℕ
  pub max_connection_receive_window : ℕ
  pub max_idle_timeout : ℤ
  pub max_incoming_streams : ℤ
  pub disable_path_mtu_discovery : Bool

pub record ServerConfigBandwidth : Type 0 where
  pub up : String
  pub down : String

pub record ServerConfigAuthHttp : Type 0 where
  pub url : String
  pub insecure : Bool

pub record ServerConfigAuth : Type 0 where
  pub kind : String
  pub password : String
  pub user_pass : Map String String
  pub http : ServerConfigAuthHttp
  pub command : String

pub record ServerConfigResolverTcp : Type 0 where
  pub addr : String
  pub timeout : ℤ

pub record ServerConfigResolverUdp : Type 0 where
  pub addr : String
  pub timeout : ℤ

pub record ServerConfigResolverTls : Type 0 where
  pub addr : String
  pub timeout : ℤ
  pub sni : String
  pub insecure : Bool

pub record ServerConfigResolverHttps : Type 0 where
  pub addr : String
  pub timeout : ℤ
  pub sni : String
  pub insecure : Bool

pub record ServerConfigResolver : Type 0 where
  pub kind : String
  pub tcp : ServerConfigResolverTcp
  pub udp : ServerConfigResolverUdp
  pub tls : ServerConfigResolverTls
  pub https : ServerConfigResolverHttps

pub record ServerConfigSniff : Type 0 where
  pub enable : Bool
  pub timeout : ℤ
  pub rewrite_domain : Bool
  pub tcp_ports : String
  pub udp_ports : String

pub record ServerConfigAcl : Type 0 where
  pub file : String
  pub inline : List String
  pub geo_ip : String
  pub geo_site : String
  pub geo_update_interval : ℤ

pub record ServerConfigOutboundDirect : Type 0 where
  pub mode : String
  pub bind_ipv4 : String
  pub bind_ipv6 : String
  pub bind_device : String

pub record ServerConfigOutboundSocks5 : Type 0 where
  pub addr : String
  pub username : String
  pub password : String

pub record ServerConfigOutboundHttp : Type 0 where
  pub url : String
  pub insecure : Bool

pub record ServerConfigOutboundEntry : Type 0 where
  pub name : String
  pub kind : String
  pub direct : ServerConfigOutboundDirect
  pub socks5 : ServerConfigOutboundSocks5
  pub http : ServerConfigOutboundHttp

pub record ServerConfigTrafficStats : Type 0 where
  pub listen : String
  pub secret : String

pub record ServerConfigMasqueradeFile : Type 0 where
  pub dir : String

pub record ServerConfigMasqueradeProxy : Type 0 where
  pub url : String
  pub rewrite_host : Bool

pub record ServerConfigMasqueradeString : Type 0 where
  pub content : String
  pub headers : Map String String
  pub status_code : ℤ

pub record ServerConfigMasquerade : Type 0 where
  pub kind : String
  pub file : ServerConfigMasqueradeFile
  pub proxy : ServerConfigMasqueradeProxy
  pub string : ServerConfigMasqueradeString
  pub listen_http : String
  pub listen_https : String
  pub force_https : Bool

pub record ServerConfig : Type 0 where
  pub listen : String
  pub obfs : ServerConfigObfs
  pub tls : Option ServerConfigTls
  pub acme : Option ServerConfigAcme
  pub quic : ServerConfigQuic
  pub bandwidth : ServerConfigBandwidth
  pub ignore_client_bandwidth : Bool
  pub speed_test : Bool
  pub disable_udp : Bool
  pub udp_idle_timeout : ℤ
  pub auth : ServerConfigAuth
  pub resolver : ServerConfigResolver
  pub sniff : ServerConfigSniff
  pub acl : ServerConfigAcl
  pub outbounds : List ServerConfigOutboundEntry
  pub traffic_stats : ServerConfigTrafficStats
  pub masquerade : ServerConfigMasquerade
