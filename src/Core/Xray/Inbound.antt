-- ===== src/Core/Xray/Inbound.antt =====
-- core/xray/inbound.go and outbound.go: the configurations of xray-core for a node of the panel, up to
-- the `Build` of xray-core. What the code marshals as JSON are texts and numbers, which
-- `encoding/json` cannot refuse: the settings stand here as they are. `none` is a panic.
pub mod Built
pub mod Unset
use v2b_x_turbo.Base.{
  ℕ, ◌+◌, ◌%◌, ℤ, pos, residue64, quot, String, Bool, true, false, not, Option, none, some, Result,
  ok, err, List, [], ◌∷◌, map, snoc, or_else, string_eq, int_eq, nat_eq, ◌==◌, ◌&&◌, ◌||◌,
  if◌then◌else◌, ◌≡◌, refl,
}
use Prim.Native.String.{◌++◌}
use v2b_x_turbo.Conf.Types.{Options, CertConfig}
use v2b_x_turbo.Conf.Xray.{XrayOptions, FallBackConfigForXray}
use v2b_x_turbo.Panel.Types.{
  Protocol, NodeInfo, VallssNode, TrojanNode, ShadowsocksNode, vallss, shadowsocks, trojan,
  security_tls, security_reality,
}
use v2b_x_turbo.Panel.Protocols.{vallss_of, trojan_of, shadowsocks_of}
use v2b_x_turbo.Core.Call.{Call, ◌>>=◌, return, fail, deref, wrap}
use v2b_x_turbo.Core.Xray.Stream.{
  StreamConfig, new_stream, Library, decode_stream, v2ray_stream, enable_proxy, secure,
}

pub record InboundFallback : Type 0 where
  pub name : String
  pub alpn : String
  pub path : String
  pub dest : String
  pub xver : ℕ

pub data InboundSettings : Type 0 where
  vless_settings : (decryption : String) → List InboundFallback → InboundSettings
  vmess_settings : InboundSettings
  trojan_settings : List InboundFallback → InboundSettings
  shadowsocks_settings :
      (cipher password user_cipher user_password : String) → (iv_check : Bool) → InboundSettings

-- What one of `buildV2ray`, `buildTrojan` and `buildShadowsocks` fills.
pub record Draft : Type 0 where
  pub protocol : String
  pub settings : InboundSettings
  pub stream_setting : Option StreamConfig

pub record InboundDetour : Type 0 where
  pub tag : String
  pub protocol : String
  pub settings : InboundSettings
  pub port_from : ℕ
  pub port_to : ℕ
  pub listen_on : String
  pub sniffing : Bool
  pub stream_setting : StreamConfig

-- The loop of `buildVlessFallbacks` and of `buildTrojanFallbacks`, which are the same.
unfoldable pub each_fallback : List FallBackConfigForXray → Result (List InboundFallback)
each_fallback [] = ok []
each_fallback (c ∷ cs) =
    let rest = each_fallback cs in
    if c.dest == "" then err "dest is required for fallback fialed" else elim rest [
      | err m ↦ err m
      | ok fs ↦ ok (
          record {
            name = c.sni;
            alpn = c.alpn;
            path = c.path;
            dest = c.dest;
            xver = c.proxy_protocol_ver;
          }
          ∷ fs)
    ]

unfoldable pub build_fallbacks : Option (List FallBackConfigForXray) → Result (List InboundFallback)
unfolding each_fallback
build_fallbacks none = err "you must provide FallBackConfigs"
build_fallbacks (some cs) = each_fallback cs

-- `strings.Join(parts, ".")`
unfoldable pub join_dots : List String → String
join_dots [] = ""
join_dots (p ∷ []) = p
join_dots (p ∷ q ∷ ps) = p ++ "." ++ join_dots (q ∷ ps)

unfoldable pub decryption_of : VallssNode → Result String
unfolding join_dots
decryption_of v =
    if v.encryption == ""
    then ok "none"
    else if v.encryption == "mlkem768x25519plus"
    then (let e = v.encryption_settings in
        let parts = "mlkem768x25519plus" ∷ e.mode ∷ e.ticket ∷ [] in
        let parts = if e.server_padding == "" then parts else snoc parts e.server_padding in
        ok (join_dots (snoc parts e.private_key)))
    else err ("vless decryption method " ++ v.encryption ++ " is not support")

unfoldable pub vless_of : XrayOptions → VallssNode → Result InboundSettings
unfolding build_fallbacks decryption_of
vless_of c v =
    if c.enable_fallback
    then elim (build_fallbacks c.fall_back_configs) [
      | err m ↦ err m
      | ok fs ↦ ok (vless_settings "none" fs)
    ]
    else elim (decryption_of v) [ err m ↦ err m | ok d ↦ ok (vless_settings d []) ]

unfoldable pub trojan_network : TrojanNode → String
trojan_network v = if v.network == "" then "tcp" else v.network

module _ (lib : Library) where
  unfoldable pub build_v2ray : String → Option XrayOptions → VallssNode → Call Draft
  build_v2ray kind options v = do
    settings ←
        if kind == "vless"
        then (do c ← deref options; some (vless_of c v))
        else return vmess_settings
    stream ← v2ray_stream lib v
    return (record {
      protocol = if kind == "vless" then "vless" else "vmess";
      settings = settings;
      stream_setting = stream;
    })

  unfoldable pub build_trojan : XrayOptions → TrojanNode → Call Draft
  build_trojan c v = do
    fallbacks ← if c.enable_fallback then some (build_fallbacks c.fall_back_configs) else return []
    let network = trojan_network v
    stream ←
        if network == "tcp" || network == "ws" || network == "grpc"
        then decode_stream lib network network v.network_settings
        else fail "the network type is not vail"
    return (record {
      protocol = "trojan";
      settings = trojan_settings fallbacks;
      stream_setting = some stream;
    })

  unfoldable pub build_shadowsocks : Option XrayOptions → ShadowsocksNode → Call Draft
  build_shadowsocks options s = do
    random ← wrap (λ m. "generate random password error: " ++ m) lib.random
    c ← deref options
    let keyed = not (s.server_key == "")
    return (record {
      protocol = "shadowsocks";
      settings =
          shadowsocks_settings s.cipher s.server_key (if keyed then "" else s.cipher)
            (if keyed then lib.base64 random else random) (not c.disable_iv_check);
      stream_setting = some (new_stream "tcp");
    })

  -- The first switch of `buildInbound`: the draft, and the network. A nil `VAllss`, `Trojan` or
  -- `Shadowsocks` panics, and so do nil options where the node is of Trojan.
  unfoldable pub build_draft : NodeInfo → Option XrayOptions → Call (Draft × String)
  build_draft info options =
      if info.kind == "vmess" || info.kind == "vless"
      then (do
        v ← deref (vallss_of info.protocol)
        d ← build_v2ray info.kind options v
        return (d, v.network))
      else if info.kind == "trojan"
      then (do
        c ← deref options
        v ← deref (trojan_of info.protocol)
        d ← build_trojan c v
        return (d, trojan_network v))
      else if info.kind == "shadowsocks"
      then (do
        s ← deref (shadowsocks_of info.protocol)
        d ← build_shadowsocks options s
        return (d, "tcp"))
      else fail
          ("unsupported node type: " ++ info.kind ++ ", Only support: V2ray, Trojan, Shadowsocks")

-- `buildInbound` without its last call, which is `in.Build()`.
unfoldable pub build_detour :
    Library
    → Option XrayOptions
    → Option CertConfig
    → String
    → NodeInfo
    → String
    → Call InboundDetour
build_detour lib options cert listen_ip info tag = do
  (d, network) ← build_draft lib info options
  common ← deref info.common
  c ← deref options
  stream ← deref d.stream_setting
  stream ← secure lib.parse_duration info cert (enable_proxy c network stream)
  return (record {
    tag = tag;
    protocol = d.protocol;
    settings = d.settings;
    port_from = residue64 common.server_port % 4294967296;
    port_to = residue64 common.server_port % 4294967296;
    listen_on = listen_ip;
    sniffing = not c.disable_sniffing;
    stream_setting = stream;
  })

pub record OutboundDetour : Type 0 where
  pub protocol : String
  pub tag : String
  pub send_through : Option String
  pub domain_strategy : String

-- `buildOutbound` without its last call. Nil options panic.
unfoldable pub build_outbound : Option XrayOptions → String → String → Call OutboundDetour
build_outbound options send_ip tag = do
  c ← deref options
  return (record {
    protocol = "freedom";
    tag = tag;
    send_through = if send_ip == "" then none else some send_ip;
    domain_strategy =
        if c.enable_dns then (if c.dns_type == "" then "UseIP" else c.dns_type) else "Asis";
  })
