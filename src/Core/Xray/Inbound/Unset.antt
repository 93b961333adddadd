-- ===== src/Core/Xray/Inbound/Unset.antt =====
-- core/xray/inbound.go: a node of V2Ray that has no settings for its network.
use text.Mathlib.TextEquality.{eq_iff}
use v2b_x_turbo.Base.{
  String, true, Option, none, some, ok, Option-cases, Bool-cases, inl, inr, string_eq, ◌==◌, ◌||◌,
  if◌then◌else◌, ◌≡◌, refl, ap, arith,
}
use v2b_x_turbo.Conf.Types.{CertConfig}
use v2b_x_turbo.Conf.Xray.{XrayOptions}
use v2b_x_turbo.Panel.Types.{NodeInfo, VallssNode, vallss}
use v2b_x_turbo.Core.Call.{return}
use v2b_x_turbo.Panel.Protocols.{vallss_of}
use v2b_x_turbo.Core.Xray.Stream.{Library, v2ray_stream}
use v2b_x_turbo.Core.Xray.Inbound.{
  Draft, InboundSettings, vless_of, vmess_settings, build_v2ray, build_draft, build_detour,
}

build_v2ray-unset :
    (lib : Library) (c : XrayOptions) (kind : String) (v : VallssNode) (s : InboundSettings)
    → v.network_settings ≡ ""
    → vless_of c v ≡ ok s
    → (d : Draft) × (build_v2ray lib kind (some c) v ≡ return d) × (d.stream_setting ≡ none)
unfolding build_v2ray v2ray_stream
build_v2ray-unset lib c kind v s e h =
    let empty : (v.network_settings == "") ≡ true = (eq_iff v.network_settings "").1 e in
    (
      record {
        protocol = if kind == "vless" then "vless" else "vmess";
        settings = if kind == "vless" then s else vmess_settings;
        stream_setting = none;
      },
      elim (Bool-cases (kind == "vless")) [ inl k ↦ rw (k, empty, h) | inr k ↦ rw (k, empty) ],
      refl,
    )

build_draft-vallss :
    (lib : Library) (c : XrayOptions) (info : NodeInfo) (v : VallssNode) (d : Draft)
    → (info.kind == "vmess" || info.kind == "vless") ≡ true
    → info.protocol ≡ vallss v
    → build_v2ray lib info.kind (some c) v ≡ return d
    → build_draft lib info (some c) ≡ return (d, v.network)
unfolding build_draft vallss_of
build_draft-vallss lib c info v d k p made = ground (arith, ap vallss_of p)

-- A node of V2Ray whose settings of the network are empty panics, whatever its network and its
-- security, where the settings of its protocol are sound: the settings of the stream are nil, and
-- `buildInbound` writes into them.
build_detour-panics :
    (lib : Library) (c : XrayOptions) (cert : Option CertConfig) (listen_ip tag : String)
    (info : NodeInfo) (v : VallssNode) (s : InboundSettings)
    → (info.kind == "vmess" || info.kind == "vless") ≡ true
    → info.protocol ≡ vallss v
    → v.network_settings ≡ ""
    → vless_of c v ≡ ok s
    → build_detour lib (some c) cert listen_ip info tag ≡ none
unfolding build_detour
build_detour-panics lib c cert listen_ip tag info v s k p e h =
    let (d, made, nil) = build_v2ray-unset lib c info.kind v s e h in
    let drafted = build_draft-vallss lib c info v d k p made in
    elim (Option-cases info.common) [ inl gone ↦ ground arith | inr (common, there) ↦ ground arith ]
