-- ===== src/Core/Sing/Tls.antt =====
-- core/sing/node.go: the options of sing-box for the TLS of an inbound. The parser of durations is a
-- parameter.
pub mod Secured
use v2b_x_turbo.Base.{
  ℕ, ◌%◌, ℤ, String, Bool, true, false, Option, none, some, Result, ok, err, List, [], ◌∷◌, atoi,
  string_eq, int_eq, ◌==◌, ◌||◌, if◌then◌else◌,
}
use v2b_x_turbo.Conf.Types.{CertConfig}
use v2b_x_turbo.Panel.Types.{VallssNode, NodeInfo, security_tls, security_reality}
use v2b_x_turbo.Panel.Protocols.{vallss_of}
use v2b_x_turbo.Core.Call.{Call, ◌>>=◌, return, deref}
use v2b_x_turbo.Core.Sing.Transport.{uint16}

pub record RealityOptions : Type 0 where
  pub short_id : List String
  pub private_key : String
  pub xver : ℕ
  pub server : String
  pub server_port : ℕ
  pub max_time_difference : ℤ

pub record TlsOptions : Type 0 where
  pub enabled : Bool
  pub certificate_path : String
  pub key_path : String
  pub server_name : String
  pub alpn : List String
  pub reality : Option RealityOptions

abbrev pub no_tls : TlsOptions
no_tls = record {
  enabled = false;
  certificate_path = "";
  key_path = "";
  server_name = "";
  alpn = [];
  reality = none;
}

unfoldable pub cert_tls : Option CertConfig → Result TlsOptions
cert_tls none = err "the CertConfig is not vail"
cert_tls (some c) =
    if c.cert_mode == "none" || c.cert_mode == ""
    then ok no_tls
    else ok
        (record no_tls { enabled = true; certificate_path = c.cert_file; key_path = c.key_file })

unfoldable pub reality_tls : (String → ℤ) → VallssNode → TlsOptions
reality_tls parse_duration v =
    let s = v.tls_settings in
    record no_tls {
      enabled = true;
      server_name = s.server_name;
      reality = some (record {
        short_id = s.short_id ∷ [];
        private_key = s.private_key;
        xver = s.xver % 256;
        server = if s.dest == "" then s.server_name else s.dest;
        server_port = uint16 (atoi s.server_port);
        max_time_difference = parse_duration v.reality_config.max_time_diff;
      });
    }

unfoldable pub tls_options : (String → ℤ) → NodeInfo → Option CertConfig → Call TlsOptions
unfolding cert_tls reality_tls vallss_of
tls_options parse_duration info cert =
    if info.security == security_tls
    then some (cert_tls cert)
    else if info.security == security_reality
    then (do v ← deref (vallss_of info.protocol); return (reality_tls parse_duration v))
    else return no_tls
