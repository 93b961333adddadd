-- ===== src/Conf/Xray.antt =====
-- conf/xray.go: the options of a node of the core xray. A nil slice is `none`.
use v2b_x_turbo.Base.{ℕ, String, Bool, false, Option, none, List}

pub record FallBackConfigForXray : Type 0 where
  pub sni : String
  pub alpn : String
  pub path : String
  pub dest : String
  pub proxy_protocol_ver : ℕ

pub record XrayOptions : Type 0 where
  pub enable_proxy_protocol : Bool
  pub enable_dns : Bool
  pub dns_type : String
  pub enable_uot : Bool
  pub enable_tfo : Bool
  pub disable_iv_check : Bool
  pub disable_sniffing : Bool
  pub enable_fallback : Bool
  pub fall_back_configs : Option (List FallBackConfigForXray)

abbrev pub new_xray_options : XrayOptions
new_xray_options = record {
  enable_proxy_protocol = false;
  enable_dns = false;
  dns_type = "AsIs";
  enable_uot = false;
  enable_tfo = false;
  disable_iv_check = false;
  disable_sniffing = false;
  enable_fallback = false;
  fall_back_configs = none;
}
