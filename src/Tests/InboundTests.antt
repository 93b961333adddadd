-- ===== src/Tests/InboundTests.antt =====
-- core/sing and core/xray: the theorems on the inbounds and the DNS of a node, at a sample node.
use v2b_x_turbo.Base.{
  ℕ, ℤ, pos, Map, List, store, String, true, false, none, some, ok, err, [], ◌∷◌, string_eq, int_eq,
  int64, ◌*ℤ◌, refl, residue64,
}
use v2b_x_turbo.Conf.Types.{Options, CertConfig, new_cert_config}
use v2b_x_turbo.Conf.Sing.{new_sing_options}
use v2b_x_turbo.Conf.Xray.{XrayOptions, new_xray_options}
use v2b_x_turbo.Panel.Types.{NodeInfo, CommonNode, VallssNode, vallss}
use v2b_x_turbo.Panel.Protocols.{vallss_of}
use v2b_x_turbo.Core.Sing.{BoxOps, Sing, add_node}
use v2b_x_turbo.Core.Sing.Transport.{Parsers, new_transport, v2ray_transport}
use v2b_x_turbo.Core.Sing.Tls.{no_tls, tls_options}
use v2b_x_turbo.Core.Sing.Inbound.{Inbound, vless_options, protocol_options, get_inbound_options}
use v2b_x_turbo.Core.Sing.Adding.{IsCreated, add_configured_node-IsCreated}
use v2b_x_turbo.Core.Sing.Adding as Adding
use v2b_x_turbo.Core.Dispatcher.{new_dispatcher}
use v2b_x_turbo.Core.Xray.{Instance, Xray}
use v2b_x_turbo.Core.Xray.Nodes.{prefixed, add_handlers, add_inbound, add_outbound, finish_outbound}
use v2b_x_turbo.Core.Xray.Nodes as Nodes
use v2b_x_turbo.Core.Xray.Adding.{IsAdded, add_configured_node-IsAdded}
use v2b_x_turbo.Core.Xray.Adding as XrayAdding
use v2b_x_turbo.Core.Xray.Stream.{
  Library, v2ray_stream, decode_stream, secure, use_cert, enable_proxy,
}
use v2b_x_turbo.Core.Xray.Inbound.{vless_of, build_detour, build_draft, build_v2ray, build_outbound}
use v2b_x_turbo.Core.Xray.Dns.{each_rule, parse_port, save_dns_config, update_dns_config}
use v2b_x_turbo.Core.Xray.Dns as Dns
use v2b_x_turbo.Tests.Samples.{trojan_info, no_options}

abbrev common : CommonNode
common = record {
  host = "";
  server_port = pos 443;
  server_name = "";
  routes = [];
  base_config = none;
}

abbrev vless_node : String → VallssNode
vless_node settings = record {
  common_node = common;
  tls = pos 1;
  tls_settings = record {
    server_name = "";
    dest = "";
    server_port = "";
    short_id = "";
    private_key = "";
    mldsa65_seed = "";
    xver = 0;
  };
  tls_settings_back = none;
  network = "tcp";
  network_settings = settings;
  network_settings_back = "";
  encryption = "";
  encryption_settings = record { mode = ""; ticket = ""; server_padding = ""; private_key = "" };
  server_name = "";
  flow = "";
  reality_config = record {
    xver = 0;
    min_client_ver = "";
    max_client_ver = "";
    max_time_diff = "";
  };
}

-- A node of VLESS over TLS, with some settings of its network.
abbrev vless_info : String → NodeInfo
vless_info settings = record trojan_info {
  kind = "vless";
  security = pos 1;
  protocol = vallss (vless_node settings);
  common = some common;
}

abbrev cert : CertConfig
cert = record new_cert_config { cert_mode = "file"; cert_file = "c"; key_file = "k" }

abbrev parsers : Parsers String
parsers = record {
  http_network = λ s. err s;
  http_request = λ s. err s;
  ws_network = λ s. err s;
  grpc_network = λ s. ok s;
  httpupgrade_network = λ s. err s;
  parse_path = λ s. ok (s, "");
  parse_addr = λ s. some s;
  parse_duration = λ s. pos 0;
}

abbrev same : String → String
same s = s

abbrev zeros : ℕ → String
zeros n = "0"

abbrev inbound : Inbound String
inbound = record {
  tag = "t";
  kind = "vless";
  listen = record { listen = "::"; listen_port = 443; tcp_fast_open = false };
  options = some (
      vless_options (record no_tls { enabled = true; certificate_path = "c"; key_path = "k" })
        (new_transport "") new_sing_options.multiplex);
}

abbrev config : Options
config = record no_options { listen_ip = "::"; cert_config = cert; report_min_traffic = pos 2 }

-- A box that keeps the ports of its inbounds.
abbrev box : BoxOps (List ℕ) (Inbound String)
box = record {
  found = λ tag b. true;
  create = λ tag kind i b. (none, i.listen.listen_port ∷ b);
  remove = λ tag b. (none, b);
  add_users = λ tag us b. (none, b);
  del_users = λ tag us b. (none, b);
  start = λ b. (none, b);
  close = λ b. (none, b);
}

abbrev sing : List ℕ → Map String ℤ → Sing (List ℕ)
sing ports least = record {
  box = ports;
  counter = [];
  uid_map = [];
  node_report_min_traffic_bytes = least;
}

add_configured_node-IsCreated_example :
    (i : Inbound String) × IsCreated box parsers zeros same "t"
      (vless_info "")
      config
      (sing [] [])
      (sing (443 ∷ []) (("t", pos 2048) ∷ []))
      i
unfolding Adding.add_configured_node add_node get_inbound_options tls_options protocol_options
    v2ray_transport residue64 store int64 ◌*ℤ◌
add_configured_node-IsCreated_example =
    add_configured_node-IsCreated box parsers zeros same "t" (vless_info "") config
      (some new_sing_options) (sing [] []) (sing (443 ∷ []) (("t", pos 2048) ∷ [])) refl

abbrev library : Library
library = record {
  decode = λ network text. ok none;
  random = ok "0";
  base64 = same;
  parse_duration = λ s. pos 0;
}

abbrev xray_options : XrayOptions
xray_options = record new_xray_options { enable_proxy_protocol = true }

-- A file system of one file, which cannot be written.
abbrev read_only : Dns.System String
read_only = record {
  read_file = λ path f. ok f;
  truncate = λ path f. (some "read-only file system", f);
  write_file = λ path text f. (some "read-only file system", f);
  unmarshal = λ text. none;
  build = λ text. none;
  indent = λ text. ok text;
  marshal = λ c. ok c.tag;
}

-- An instance that keeps the numbers of its handlers.
abbrev instance_of_handlers : Instance (List ℕ) ℕ ℕ ℕ ℕ ℕ
instance_of_handlers = record {
  start = λ s. (none, s);
  close = λ s. (none, s);
  create_inbound = λ i s. ok (some i);
  create_outbound = λ o s. ok (some o);
  add_inbound_handler = λ h s. (none, h ∷ s);
  add_outbound_handler = λ h s. (none, h ∷ s);
  remove_inbound_handler = λ tag s. (none, s);
  remove_outbound_handler = λ tag s. (none, s);
  get_handler = λ tag s. ok 0;
  get_inbound = λ h. true;
  user_manager = λ h. some h;
  to_memory_user = λ u. ok 0;
  add_user = λ m n s. (none, s);
  remove_user = λ m user s. (none, s);
}

abbrev xray : List ℕ → Map String ℤ → Xray (List ℕ)
xray handlers least = record {
  server = handlers;
  is_started = true;
  dispatcher = new_dispatcher;
  uid_map = [];
  node_report_min_traffic_bytes = least;
}

add_configured_node-IsAdded_example :
    IsAdded instance_of_handlers read_only library
      (λ d. ok d.port_from)
      (λ d. ok 7)
      "t"
      (vless_info "null")
      config
      xray_options
      (xray [] [])
      (xray (7 ∷ 443 ∷ []) (("t", pos 2048) ∷ []))
unfolding XrayAdding.add_configured_node Nodes.add_node add_handlers add_inbound add_outbound
    finish_outbound prefixed update_dns_config build_outbound build_detour build_draft vallss_of
    build_v2ray vless_of v2ray_stream decode_stream secure residue64 use_cert enable_proxy store
    int64 ◌*ℤ◌
add_configured_node-IsAdded_example =
    add_configured_node-IsAdded instance_of_handlers read_only library (λ d. ok d.port_from)
      (λ d. ok 7) "dns.json" "t" (vless_info "null") config xray_options "{}" "{}" (xray [] [])
      (xray (7 ∷ 443 ∷ []) (("t", pos 2048) ∷ [])) refl
