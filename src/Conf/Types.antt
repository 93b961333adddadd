-- ===== src/Conf/Types.antt =====
-- conf/limit.go, conf/cert.go, conf/core.go and the options of conf/node.go. A JSON text is kept as
-- text. The options of one core, which only that core reads, are kept as the text that they were
-- decoded from.
use v2b_x_turbo.Base.{ℤ, String, Bool, false, Option, [], Map}

pub record RecorderConfig : Type 0 where
  pub url : String
  pub token : String
  pub timeout : ℤ

pub record RedisConfig : Type 0 where
  pub address : String
  pub password : String
  pub db : ℤ
  pub expiry : ℤ

pub record IpReportConfig : Type 0 where
  pub periodic : ℤ
  pub kind : String
  pub recorder_config : Option RecorderConfig
  pub redis_config : Option RedisConfig
  pub enable_ip_sync : Bool

pub record DynamicSpeedLimitConfig : Type 0 where
  pub periodic : ℤ
  pub traffic : ℤ
  pub speed_limit : ℤ
  pub expire_time : ℤ

pub record LimitConfig : Type 0 where
  pub enable_realtime : Bool
  pub speed_limit : ℤ
  pub ip_limit : ℤ
  pub conn_limit : ℤ
  pub enable_ip_recorder : Bool
  pub ip_recorder_config : Option IpReportConfig
  pub enable_dynamic_speed_limit : Bool
  pub dynamic_speed_limit_config : Option DynamicSpeedLimitConfig

pub record CertConfig : Type 0 where
  pub cert_mode : String
  pub reject_unknown_sni : Bool
  pub cert_domain : String
  pub cert_file : String
  pub key_file : String
  pub provider : String
  pub email : String
  pub dns_env : Map String String

abbrev pub new_cert_config : CertConfig
new_cert_config = record {
  cert_mode = "none";
  reject_unknown_sni = false;
  cert_domain = "";
  cert_file = "";
  key_file = "";
  provider = "";
  email = "";
  dns_env = [];
}

pub record Options : Type 0 where
  pub name : String
  pub core : String
  pub core_name : String
  pub listen_ip : String
  pub send_ip : String
  pub device_online_min_traffic : ℤ
  pub report_min_traffic : ℤ
  pub limit_config : LimitConfig
  pub raw_options : Option String
  pub xray_options : Option String
  pub sing_options : Option String
  pub hysteria2_config_path : String
  pub cert_config : CertConfig

pub record ApiConfig : Type 0 where
  pub api_host : String
  pub api_send_ip : String
  pub node_id : ℤ
  pub key : String
  pub node_type : String
  pub timeout : ℤ
  pub rule_list_path : String

pub record CoreConfig : Type 0 where
  pub kind : String
  pub name : String
  pub raw : String

pub record NodeConfig : Type 0 where
  pub api_config : ApiConfig
  pub options : Options
