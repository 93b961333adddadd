-- ===== src/Panel/Types.antt =====
-- The records of api/panel/user.go and the rules of api/panel/node.go.
use v2b_x_turbo.Base.{ℕ, ℤ, pos, String, Bool, Option, List, Map}

pub record OnlineUser : Type 0 where
  pub uid : ℤ
  pub ip : String

pub record UserInfo : Type 0 where
  pub id : ℤ
  pub uuid : String
  pub speed_limit : ℤ
  pub device_limit : ℤ

pub record UserTraffic : Type 0 where
  pub uid : ℤ
  pub upload : ℤ
  pub download : ℤ

pub record Rules : Type 0 where
  pub regexp : List String
  pub protocol : List String

-- What `encoding/json` puts into an `any`. Of a number, a `float64`, only the integer part is kept,
-- which is all that the code reads.
mutual
  pub data Any : Type 0 where
    nil : Any
    bool : Bool → Any
    float64 : ℤ → Any
    string : String → Any
    array : Anys → Any
    object : Fields → Any

  pub data Anys : Type 0 where
    end : Anys
    item : Any → Anys → Anys

  pub data Fields : Type 0 where
    last : Fields
    field : String → Any → Fields → Fields

pub record Route : Type 0 where
  pub id : ℤ
  pub match : Any
  pub action : String
  pub action_value : String

pub record BaseConfig : Type 0 where
  pub push_interval : Any
  pub pull_interval : Any

pub record CommonNode : Type 0 where
  pub host : String
  pub server_port : ℤ
  pub server_name : String
  pub routes : List Route
  pub base_config : Option BaseConfig

pub record TlsSettings : Type 0 where
  pub server_name : String
  pub dest : String
  pub server_port : String
  pub short_id : String
  pub private_key : String
  pub mldsa65_seed : String
  pub xver : ℕ

pub record EncSettings : Type 0 where
  pub mode : String
  pub ticket : String
  pub server_padding : String
  pub private_key : String

pub record RealityConfig : Type 0 where
  pub xver : ℕ
  pub min_client_ver : String
  pub max_client_ver : String
  pub max_time_diff : String

-- A `json.RawMessage` is its text, empty where it is absent.
pub record VallssNode : Type 0 where
  pub common_node : CommonNode
  pub tls : ℤ
  pub tls_settings : TlsSettings
  pub tls_settings_back : Option TlsSettings
  pub network : String
  pub network_settings : String
  pub network_settings_back : String
  pub encryption : String
  pub encryption_settings : EncSettings
  pub server_name : String
  pub flow : String
  pub reality_config : RealityConfig

pub record ShadowsocksNode : Type 0 where
  pub common_node : CommonNode
  pub cipher : String
  pub server_key : String

pub record TrojanNode : Type 0 where
  pub common_node : CommonNode
  pub network : String
  pub network_settings : String

pub record TuicNode : Type 0 where
  pub common_node : CommonNode
  pub congestion_control : String
  pub zero_rtt_handshake : Bool

pub record AnyTlsNode : Type 0 where
  pub common_node : CommonNode
  pub padding_scheme : List String

pub record HysteriaNode : Type 0 where
  pub common_node : CommonNode
  pub up_mbps : ℤ
  pub down_mbps : ℤ
  pub obfs : String

pub record Hysteria2Node : Type 0 where
  pub common_node : CommonNode
  pub ignore_client_bandwidth : Bool
  pub up_mbps : ℤ
  pub down_mbps : ℤ
  pub obfs_type : String
  pub obfs_password : String

-- The one of the pointers `VAllss`, `Shadowsocks`, … of a `NodeInfo` that is not nil.
pub data Protocol : Type 0 where
  unset : Protocol
  vallss : VallssNode → Protocol
  shadowsocks : ShadowsocksNode → Protocol
  trojan : TrojanNode → Protocol
  tuic : TuicNode → Protocol
  any_tls : AnyTlsNode → Protocol
  hysteria : HysteriaNode → Protocol
  hysteria2 : Hysteria2Node → Protocol

-- The DNS rule of a route: its address and its domains.
pub record DnsRule : Type 0 where
  pub address : String
  pub domains : List String

pub record RawDns : Type 0 where
  pub dns_map : Map String DnsRule
  pub dns_json : String

-- Intervals are in nanoseconds. `common` is the `CommonNode` of the protocol.
pub record NodeInfo : Type 0 where
  pub id : ℤ
  pub kind : String
  pub security : ℤ
  pub push_interval : ℤ
  pub pull_interval : ℤ
  pub raw_dns : RawDns
  pub rules : Rules
  pub protocol : Protocol
  pub common : Option CommonNode

abbrev pub security_none : ℤ
security_none = pos 0

abbrev pub security_tls : ℤ
security_tls = pos 1

abbrev pub security_reality : ℤ
security_reality = pos 2
