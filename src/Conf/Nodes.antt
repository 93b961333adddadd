-- ===== src/Conf/Nodes.antt =====
-- conf/node.go: `UnmarshalJSON` of `NodeConfig` and of `Options`. The decoders of JSON, the files and
-- the requests are parameters; a decoder takes what it decodes into. An error leaves no settings.
use v2b_x_turbo.Base.{
  pos, String, Option, none, some, Result, ok, err, ◌>>=◌, or_else, cut_prefix, ◌||◌, string_eq,
  ◌==◌, if◌then◌else◌, false,
}
use Prim.Native.String.{◌++◌}
use v2b_x_turbo.Conf.Types.{LimitConfig, Options, ApiConfig, NodeConfig, new_cert_config}

-- A `json.RawMessage` is its text, empty where it is absent.
pub record RawNodeConfig : Type 0 where
  pub include : String
  pub api_raw : String
  pub opt_raw : String

-- What `json.Unmarshal` makes of a text. `plain_options` is that into `opt`, which has no method;
-- the options of a core are kept as their text, and `xray_error` and `sing_error` are the errors.
pub record Decoders : Type 0 where
  pub raw_node : String → RawNodeConfig → Result RawNodeConfig
  pub api : String → ApiConfig → Result ApiConfig
  pub plain_options : String → Options → Result Options
  pub xray_error : String → Option String
  pub sing_error : String → Option String

-- `http.Get` and `os.Open`, each with the reading through `NewTrimNodeReader` of what it opened.
pub record Sources : Type 0 where
  pub get_url : String → Result (Result String)
  pub open_file : String → Result (Result String)

abbrev pub no_limit : LimitConfig
no_limit = record {
  enable_realtime = false;
  speed_limit = pos 0;
  ip_limit = pos 0;
  conn_limit = pos 0;
  enable_ip_recorder = false;
  ip_recorder_config = none;
  enable_dynamic_speed_limit = false;
  dynamic_speed_limit_config = none;
}

-- The options before the text is decoded into them.
abbrev pub new_options : Options
new_options = record {
  name = "";
  core = "";
  core_name = "";
  listen_ip = "0.0.0.0";
  send_ip = "0.0.0.0";
  device_online_min_traffic = pos 0;
  report_min_traffic = pos 0;
  limit_config = no_limit;
  raw_options = none;
  xray_options = none;
  sing_options = none;
  hysteria2_config_path = "";
  cert_config = new_cert_config;
}

abbrev pub new_api_config : ApiConfig
new_api_config = record {
  api_host = "http://127.0.0.1";
  api_send_ip = "";
  node_id = pos 0;
  key = "";
  node_type = "";
  timeout = pos 30;
  rule_list_path = "";
}

-- Decoded options, unless the decoding failed.
unless : Option String → Options → Result Options
unless none o = ok o
unless (some m) o = err m

-- The rest of `Options.UnmarshalJSON`: an unknown core is no core.
unfoldable pub core_options : Decoders → String → Options → Result Options
unfolding unless
core_options d text o =
    if o.core == "xray"
    then unless (d.xray_error text) (record o { xray_options = some text })
    else if o.core == "sing"
    then unless (d.sing_error text) (record o { sing_options = some text })
    else if o.core == "hysteria2"
    then ok (record o { raw_options = some text })
    else ok (record o { core = ""; raw_options = some text })

unfoldable pub unmarshal_options : Decoders → String → Options → Result Options
unfolding core_options
unmarshal_options d text o = d.plain_options text o >>= core_options d text

wrapped : String → Result String → Result String
wrapped s (ok text) = ok text
wrapped s (err m) = err (s ++ m)

flattened : String → Result (Result String) → Result String
unfolding wrapped
flattened s (ok r) = wrapped s r
flattened s (err m) = err (s ++ m)

-- The text of an include. `CutPrefix` cuts a colon off its front, so that a URL is opened as a file.
unfoldable pub included : Sources → String → Result String
unfolding wrapped flattened
included s include =
    let file = or_else include (cut_prefix include ":") in
    if file == "http" || file == "https"
    then (elim (s.get_url file) [ err m ↦ err m | ok r ↦ wrapped "open include file error: " r ])
    else flattened "open include file error: " (s.open_file include)

-- The text that is decoded, with its raw parts.
unfoldable pub node_text :
    Decoders → Sources → String → RawNodeConfig → Result (String × RawNodeConfig)
unfolding included
node_text d s text rn =
    if rn.include == ""
    then ok (text, rn)
    else (included s rn.include >>= (λ inner. elim (d.raw_node inner rn) [
      | err m ↦ err ("unmarshal include file error: " ++ m)
      | ok rn' ↦ ok (inner, rn')
    ]))

unfoldable pub unmarshal_node : Decoders → Sources → String → Result NodeConfig
unfolding node_text unmarshal_options
unmarshal_node d s text =
    d.raw_node text (record { include = ""; api_raw = ""; opt_raw = "" })
    >>= node_text d s text
    >>= (λ ((text', rn) : String × RawNodeConfig).
        d.api (if rn.api_raw == "" then text' else rn.api_raw) new_api_config >>= (λ api.
          unmarshal_options d (if rn.opt_raw == "" then text' else rn.opt_raw) new_options
          >>= (λ o. ok (record { api_config = api; options = o }))))
