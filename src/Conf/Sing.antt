-- ===== src/Conf/Sing.antt =====
-- conf/sing.go: the options of a node of the core sing.
use v2b_x_turbo.Base.{ℕ, ℤ, pos, String, Bool, true, false, Option, some, [], Map}

pub record FallBack : Type 0 where
  pub server : String
  pub server_port : String

pub record FallBackConfigForSing : Type 0 where
  pub fall_back : FallBack
  pub fall_back_for_alpn : Map String FallBack

pub record BrutalOptions : Type 0 where
  pub enabled : Bool
  pub up_mbps : ℤ
  pub down_mbps : ℤ

pub record MultiplexConfig : Type 0 where
  pub enabled : Bool
  pub padding : Bool
  pub brutal : BrutalOptions

-- `domain_strategy` is a number of sing-box.
pub record SingOptions : Type 0 where
  pub tcp_fast_open : Bool
  pub sniff_enabled : Bool
  pub sniff_override_destination : Bool
  pub enable_dns : Bool
  pub domain_strategy : ℕ
  pub fall_back_configs : Option FallBackConfigForSing
  pub multiplex : Option MultiplexConfig

abbrev pub new_sing_options : SingOptions
new_sing_options = record {
  tcp_fast_open = false;
  sniff_enabled = true;
  sniff_override_destination = true;
  enable_dns = false;
  domain_strategy = 0;
  fall_back_configs =
      some
        (record { fall_back = record { server = ""; server_port = "" }; fall_back_for_alpn = [] });
  multiplex = some (record {
    enabled = false;
    padding = false;
    brutal = record { enabled = false; up_mbps = pos 0; down_mbps = pos 0 };
  });
}
