-- ===== src/Tests/Hy2Tests.antt =====
-- core/hy2: the theorems on the configuration of a server, at a sample node.
use v2b_x_turbo.Base.{
  pos, String, Bool, true, false, none, some, Result, ok, err, [], ◌∷◌, nat_eq, string_eq, int_eq,
  ◌≡◌, ◌⊎◌, refl, itoa, has_char, if◌then◌else◌,
}
use v2b_x_turbo.Conf.Types.{Options, new_cert_config}
use v2b_x_turbo.Panel.Types.{NodeInfo, CommonNode, hysteria2}
use v2b_x_turbo.Panel.Protocols.{hysteria2_of}
use v2b_x_turbo.Core.Hy2.{Hysteria2}
use v2b_x_turbo.Core.Hy2.ServerConfig.{
  ServerConfig, ServerConfigQuic, ServerConfigMasquerade, ServerConfigOutboundEntry,
}
use v2b_x_turbo.Core.Hy2.Quic.{QuicConfig, get_quic_config}
use v2b_x_turbo.Core.Hy2.Quic.Bounds.{IsConfigured, IsBounded, get_quic_config-IsBounded}
use v2b_x_turbo.Core.Hy2.Outbounds.{Outbounds}
use v2b_x_turbo.Core.Hy2.Masquerade.{format_address}
use v2b_x_turbo.Core.Hy2.Configure.{
  System, HyConfig, get_tls_config, get_conn, get_hy_config, add_configured_node,
}
use v2b_x_turbo.Core.Hy2.Configure.Sockets.{add_configured_node-leaks}
use v2b_x_turbo.Tests.Samples.{trojan_info, no_options}

abbrev quic : ServerConfigQuic
quic = record {
  init_stream_receive_window = 20000;
  max_stream_receive_window = 0;
  init_connection_receive_window = 0;
  max_connection_receive_window = 0;
  max_idle_timeout = pos 0;
  max_incoming_streams = pos 0;
  disable_path_mtu_discovery = false;
}

get_quic_config-IsBounded_example :
    ((q : QuicConfig) × (get_quic_config quic ≡ ok q) × IsConfigured quic × IsBounded quic q)
    ⊎ ((m : String) × (get_quic_config quic ≡ err m) × ¬ IsConfigured quic)
get_quic_config-IsBounded_example = get_quic_config-IsBounded quic

abbrev masquerade : ServerConfigMasquerade
masquerade = record {
  kind = "string";
  file = record { dir = "" };
  proxy = record { url = ""; rewrite_host = false };
  string = record { content = "hello"; headers = []; status_code = pos 404 };
  listen_http = "";
  listen_https = ":443";
  force_https = false;
}

abbrev exit_entry : ServerConfigOutboundEntry
exit_entry = record {
  name = "exit";
  kind = "socks5";
  direct = record { mode = ""; bind_ipv4 = ""; bind_ipv6 = ""; bind_device = "" };
  socks5 = record { addr = "127.0.0.1:1080"; username = ""; password = "" };
  http = record { url = ""; insecure = false };
}

abbrev server_config : ServerConfigMasquerade → ServerConfig
server_config m = record {
  listen = "";
  obfs = record { kind = ""; salamander = record { password = "" } };
  tls = none;
  acme = none;
  quic = quic;
  bandwidth = record { up = ""; down = "" };
  ignore_client_bandwidth = false;
  speed_test = false;
  disable_udp = false;
  udp_idle_timeout = pos 0;
  auth = record {
    kind = "";
    password = "";
    user_pass = [];
    http = record { url = ""; insecure = false };
    command = "";
  };
  resolver = record {
    kind = "";
    tcp = record { addr = ""; timeout = pos 0 };
    udp = record { addr = ""; timeout = pos 0 };
    tls = record { addr = ""; timeout = pos 0; sni = ""; insecure = false };
    https = record { addr = ""; timeout = pos 0; sni = ""; insecure = false };
  };
  sniff = record {
    enable = false;
    timeout = pos 0;
    rewrite_domain = false;
    tcp_ports = "";
    udp_ports = "";
  };
  acl = record {
    file = "";
    inline = "reject(all)" ∷ [];
    geo_ip = "";
    geo_site = "";
    geo_update_interval = pos 0;
  };
  outbounds = exit_entry ∷ [];
  traffic_stats = record { listen = ""; secret = "" };
  masquerade = m;
}

abbrev outbounds : Outbounds String String
outbounds = record {
  direct_simple = λ m. "direct";
  direct_bind_to_ips = λ m a b. ok "ips";
  direct_bind_to_device = λ m d. ok d;
  socks5 = λ a u p. a;
  http = λ u i. ok u;
  acl_from_file = λ f os g. ok f;
  acl_from_string = λ s os g. ok s;
  system_resolver = λ o. "resolved";
  resolver_tcp = λ a t o. a;
  resolver_udp = λ a t o. a;
  resolver_tls = λ a t s i o. a;
  doh_resolver = λ a t s i o. a;
}

abbrev same : String → String
same s = s

-- A network with one address, which is bound or not.
abbrev system : System String String String String String Bool
system = record {
  load_key_pair = λ c k. ok c;
  resolve_udp_addr = λ a. ok a;
  listen_udp =
      λ a bound. if bound then (err "address already in use", true) else (ok "socket", true);
  salamander = λ p. ok p;
  local_addr = λ c. "0.0.0.0:443";
  parse_port_union = λ s. some s;
  parse_url = λ s. ok (record { scheme = "http"; host = s });
  to_lower = same;
}

abbrev common : CommonNode
common = record {
  host = "";
  server_port = pos 443;
  server_name = "";
  routes = [];
  base_config = none;
}

-- A node with an obfuscation of some type.
abbrev hysteria2_info : String → NodeInfo
hysteria2_info obfs = record trojan_info {
  kind = "hysteria2";
  protocol = hysteria2 (record {
    common_node = common;
    ignore_client_bandwidth = false;
    up_mbps = pos 0;
    down_mbps = pos 0;
    obfs_type = obfs;
    obfs_password = "";
  });
  common = some common;
}

abbrev with_cert : Options
with_cert = record no_options {
  listen_ip = "0.0.0.0";
  cert_config = record new_cert_config { cert_mode = "file"; cert_file = "c"; key_file = "k" };
}

abbrev accepted_quic : QuicConfig
accepted_quic = record {
  initial_stream_receive_window = 0;
  max_stream_receive_window = 8388608;
  initial_connection_receive_window = 20971520;
  max_connection_receive_window = 20971520;
  max_idle_timeout = pos 30000000000;
  max_incoming_streams = pos 4096;
  disable_path_mtu_discovery = false;
}

abbrev serve : HyConfig String String String String String → Bool → Result String × Bool
serve config bound = (ok "server", bound)

abbrev no_nodes : Hysteria2 String
no_nodes = record { hy2_nodes = []; users_map = [] }

add_configured_node-leaks_example :
    let add = add_configured_node system some outbounds serve "t" in
    (add (hysteria2_info "xor") with_cert (server_config masquerade) false no_nodes
      ≡ some ((some "unsupported obfuscation type", no_nodes), true))
    × (add (hysteria2_info "") with_cert (server_config masquerade) true no_nodes
        ≡ some ((some "address already in use", no_nodes), true))
unfolding get_hy_config get_tls_config get_quic_config get_conn hysteria2_of format_address has_char
    itoa
add_configured_node-leaks_example =
    add_configured_node-leaks system some outbounds serve with_cert common
      (record { certificates = "c" ∷ []; cert_file = "c"; key_file = "k" }) "0.0.0.0:443" "socket"
      false true refl refl refl "t" (hysteria2_info "xor") (hysteria2_info "")
      (server_config masquerade) (server_config masquerade) accepted_quic accepted_quic
      "unsupported obfuscation type" "address already in use" no_nodes true refl refl refl refl refl
      refl
