-- ===== src/Core/Xray/Inbound/Built.antt =====
-- core/xray/inbound.go: what an inbound that `buildInbound` makes is, against the node, the certificate
-- and the options.
use text.Mathlib.TextEquality.{eq_iff}
use v2b_x_turbo.Base.{
  ◌<◌, String, true, not, Option, some, is_some, Option-cases, inl, inr, string_eq, int_eq, ◌==◌,
  ◌||◌, if◌then◌else◌, ◌≡◌, sym, ap, ◌∙◌, subst, arith,
}
use v2b_x_turbo.Conf.Types.{CertConfig}
use v2b_x_turbo.Conf.Xray.{XrayOptions}
use v2b_x_turbo.Panel.Types.{NodeInfo, VallssNode, TrojanNode, ShadowsocksNode}
use v2b_x_turbo.Core.Call.{
  Call, ◌>>=◌, return, deref, Call-cases, Returns, >>=-Returns, if-Returns, fail-Returns,
}
use v2b_x_turbo.Panel.Protocols.{vallss_of, trojan_of, shadowsocks_of}
use v2b_x_turbo.Core.Xray.Stream.{
  StreamConfig, Library, decode_stream, v2ray_stream, enable_proxy, secure,
}
use v2b_x_turbo.Core.Xray.Stream.Secured.{
  security_of, proxy_of, IsFresh, decode_stream-IsFresh, v2ray_stream-IsFresh, enable_proxy_lem,
  secure-IsSecured,
}
use v2b_x_turbo.Core.Xray.Inbound.{
  Draft, InboundDetour, build_v2ray, build_trojan, build_shadowsocks, trojan_network, build_draft,
  build_detour,
}

pub record IsServed (info : NodeInfo) (cert : Option CertConfig) (c : XrayOptions) (tag : String)
    (d : InboundDetour) : Type 0 where
  pub tagged : d.tag ≡ tag
  pub protocol : d.protocol ≡ info.kind
  pub one_port : d.port_from ≡ d.port_to
  pub port : d.port_from < 4294967296
  pub sniffing : d.sniffing ≡ not c.disable_sniffing
  pub security : d.stream_setting.security ≡ security_of info cert
  pub tls : is_some d.stream_setting.tls_settings ≡ (d.stream_setting.security == "tls")
  pub reality : is_some d.stream_setting.reality_settings ≡ (d.stream_setting.security == "reality")
  pub proxy : proxy_of d.stream_setting ≡ some c.enable_proxy_protocol

-- The settings of the stream of a draft, where it has some, and its protocol.
abbrev IsDraft : String → String → Draft → Type 0
IsDraft network kind d =
    (s : StreamConfig) → d.stream_setting ≡ some s → IsFresh network s × (d.protocol ≡ kind)

either :
    (kind : String)
    → (kind == "vmess" || kind == "vless") ≡ true
    → (kind == (if kind == "vless" then "vless" else "vmess")) ≡ true
either kind e = ground arith

module _ (lib : Library) where
  build_v2ray-IsFresh :
      (kind : String) (options : Option XrayOptions) (v : VallssNode)
      → Returns
          (IsDraft v.network (if kind == "vless" then "vless" else "vmess"))
          (build_v2ray lib kind options v)
  unfolding build_v2ray
  build_v2ray-IsFresh kind options v d h s e = elim (Call-cases (v2ray_stream lib v)) [
    | inl (a, f) ↦ (v2ray_stream-IsFresh lib v a f s (ground arith), ground arith)
    | inr g ↦ absurd (ground arith)
  ]

  build_trojan-IsFresh :
      (c : XrayOptions) (v : TrojanNode)
      → Returns (IsDraft (trojan_network v) "trojan") (build_trojan lib c v)
  unfolding build_trojan
  build_trojan-IsFresh c v d h s e =
      let network = trojan_network v in
      elim (Call-cases (decode_stream lib network network v.network_settings)) [
        | inl (a, f) ↦ (
          subst (IsFresh network) {x = a} (ground arith)
              (decode_stream-IsFresh lib network network v.network_settings a f),
          ground arith,
        )
        | inr g ↦ absurd (ground arith)
      ]

  build_shadowsocks-IsFresh :
      (options : Option XrayOptions) (v : ShadowsocksNode)
      → Returns (IsDraft "tcp" "shadowsocks") (build_shadowsocks lib options v)
  unfolding build_shadowsocks
  build_shadowsocks-IsFresh options v d h s e = (ground arith, ground arith)

  draft-IsFresh :
      (k network : String) (m : Call Draft)
      → Returns (IsDraft network k) m
      → (info : NodeInfo) → (info.kind == k) ≡ true
      → Returns (λ (r : Draft × String). IsDraft r.1 info.kind r.0) (m >>= λ d. return (d, network))
  draft-IsFresh k network m built info e =
      >>=-Returns (λ (r : Draft × String). IsDraft r.1 info.kind r.0) m _
        λ d made (d', n) h s there.
          let (fresh, kind) = built d made s (ground arith) in
          (
            subst (λ x. IsFresh x s) {x = network} (ground arith) fresh,
            ground (arith, kind, eq_iff info.kind k),
          )

  build_draft-IsFresh :
      (info : NodeInfo) (options : Option XrayOptions)
      → Returns (λ (r : Draft × String). IsDraft r.1 info.kind r.0) (build_draft lib info options)
  unfolding build_draft
  build_draft-IsFresh info options =
      let P : Draft × String → Type 0 = λ r. IsDraft r.1 info.kind r.0 in
      if-Returns P (info.kind == "vmess" || info.kind == "vless") _ _
        (λ e. >>=-Returns P (deref (vallss_of info.protocol)) _ λ v _.
          draft-IsFresh _ v.network (build_v2ray lib info.kind options v)
            (build_v2ray-IsFresh info.kind options v) info (either info.kind e))
        λ _.
          if-Returns P _ _ _
            (λ e. >>=-Returns P (deref options) _ λ c _.
              >>=-Returns P (deref (trojan_of info.protocol)) _ λ v _.
                draft-IsFresh "trojan" (trojan_network v) (build_trojan lib c v)
                  (build_trojan-IsFresh c v) info e)
            λ _.
              if-Returns P _ _ _
                (λ e. >>=-Returns P (deref (shadowsocks_of info.protocol)) _ λ v _.
                  draft-IsFresh "shadowsocks" "tcp" (build_shadowsocks lib options v)
                    (build_shadowsocks-IsFresh options v) info e)
                (λ _. fail-Returns P _)

-- An inbound that is made for a node carries the tag and the protocol of the node, and listens at one
-- port of 32 bits. It sniffs unless the options forbid it. TLS is on exactly where the panel asks for
-- it and a certificate is configured, REALITY where the panel asks for that, with the settings of
-- each where it is on and only there. The settings that the network reads, those of its transport for
-- tcp and ws and those of the socket for every other, accept the PROXY protocol as the options say.
pub build_detour-IsServed :
    (lib : Library) (c : XrayOptions) (cert : Option CertConfig) (listen_ip : String)
    (info : NodeInfo) (tag : String) (d : InboundDetour)
    → build_detour lib (some c) cert listen_ip info tag ≡ return d
    → IsServed info cert c tag d
unfolding build_detour
build_detour-IsServed lib c cert listen_ip info tag d h =
    elim (Call-cases (build_draft lib info (some c))) [
      | inr bad ↦ absurd (ground arith)
      | inl ((r, network), drafted) ↦ elim (Option-cases info.common) [
        | inl nil ↦ absurd (ground arith)
        | inr (common, there) ↦ elim (Option-cases r.stream_setting) [
          | inl nil ↦ absurd (ground arith)
          | inr (s, stream) ↦
              elim (Call-cases (secure lib.parse_duration info cert (enable_proxy c network s))) [
                | inr bad ↦ absurd (ground arith)
                | inl (t, secured) ↦
                    let (fresh, kind) =
                      build_draft-IsFresh lib info (some c) (r, network) drafted s stream in
                    let (still, proxy) = enable_proxy_lem c network s fresh in
                    let safe =
                      secure-IsSecured lib.parse_duration info cert network
                        (enable_proxy c network s) t still secured in
                    let made : t ≡ d.stream_setting = ground arith in
                    record {
                      tagged = ground arith;
                      protocol = ground (arith, kind);
                      one_port = ground arith;
                      port = ground arith;
                      sniffing = ground arith;
                      security = ap (λ (x : StreamConfig). x.security) (sym made) ∙ safe.security;
                      tls =
                          subst
                            (λ (x : StreamConfig). is_some x.tls_settings ≡ (x.security == "tls"))
                            made safe.tls;
                      reality =
                          subst
                            (λ (x : StreamConfig).
                              is_some x.reality_settings ≡ (x.security == "reality"))
                            made safe.reality;
                      proxy = ap proxy_of (sym made) ∙ safe.proxy ∙ proxy;
                    }
              ]
        ]
      ]
    ]
