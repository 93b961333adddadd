-- ===== src/Core/Sing/Inbound/Agreement.antt =====
-- core/sing: the inbound of a node, against the users that `AddUsers` puts into it and the security
-- that the panel asks for.
use text.Mathlib.TextEquality.{eq_iff}
use v2b_x_turbo.Base.{
  sym, subst, ℕ, ◌<◌, String, Bool, true, false, Option, none, some, is_some, snoc, string_eq,
  int_eq, ◌==◌, ◌||◌, if◌then◌else◌, ◌≡◌, refl, arith, Option-cases, inl, inr,
}
use v2b_x_turbo.Conf.Types.{CertConfig}
use v2b_x_turbo.Conf.Sing.{SingOptions, MultiplexConfig}
use v2b_x_turbo.Panel.Types.{NodeInfo, ShadowsocksNode}
use v2b_x_turbo.Panel.Protocols.{
  vallss_of, shadowsocks_of, trojan_of, tuic_of, any_tls_of, hysteria_of, hysteria2_of,
}
use v2b_x_turbo.Core.Call.{return, deref, Call-cases, Returns, >>=-Returns, if-Returns}
use v2b_x_turbo.Core.Selector.{is_supported}
use v2b_x_turbo.Core.Sing.Inbound.{
  Inbound, InboundOptions, vless_options, vmess_options, shadowsocks_options, trojan_options,
  tuic_options, any_tls_options, hysteria_options, hysteria2_options, protocol_options,
  get_inbound_options, hysteria2_obfs, trojan_inbound, shadowsocks_inbound,
}
use v2b_x_turbo.Core.Sing.{account_of, protocols}
use v2b_x_turbo.Core.Sing.Transport.{Parsers, TransportOptions, v2ray_transport, trojan_transport}
use v2b_x_turbo.Core.Sing.Tls.{TlsOptions, tls_options}
use v2b_x_turbo.Core.Sing.Tls.Secured.{IsSecured, tls_options-IsSecured}

abbrev pub tls_of : InboundOptions → Option TlsOptions
tls_of (vless_options tls t m) = some tls
tls_of (vmess_options tls t m) = some tls
tls_of (shadowsocks_options a b us m) = none
tls_of (trojan_options tls t m f g) = some tls
tls_of (tuic_options tls c z) = some tls
tls_of (any_tls_options tls s) = some tls
tls_of (hysteria_options tls u d o) = some tls
tls_of (hysteria2_options tls u d i o) = some tls

-- The inbound of Shadowsocks has no TLS.
abbrev pub MaySecured : NodeInfo → Option CertConfig → Option TlsOptions → Type 0
MaySecured info cert none = info.kind ≡ "shadowsocks"
MaySecured info cert (some t) = IsSecured info cert t

abbrev pub AreSecured : NodeInfo → Option CertConfig → Option InboundOptions → Type 0
AreSecured info cert none = Unit {0}
AreSecured info cert (some o) = MaySecured info cert (tls_of o)

tls_of-trojan_inbound :
    (tls : TlsOptions) (t : TransportOptions) (c : SingOptions)
    → tls_of (trojan_inbound tls t c) ≡ some tls
unfolding trojan_inbound
tls_of-trojan_inbound tls t c = elim (Option-cases c.fall_back_configs) [
  | inl nil ↦ ground arith
  | inr (f, set) ↦ ground arith
]

tls_of-shadowsocks_inbound :
    (random : ℕ → String) (base64 : String → String) (n : ShadowsocksNode)
    (m : Option MultiplexConfig)
    → tls_of (shadowsocks_inbound random base64 n m) ≡ none
unfolding shadowsocks_inbound
tls_of-shadowsocks_inbound random base64 n m = ground arith

left : (a b : Bool) → (a || b) ≡ true → b ≡ false → a ≡ true
left a b h n = ground arith

-- A type with its options agrees with the node.
abbrev Agrees : NodeInfo → Option CertConfig → String × Option InboundOptions → Type 0
Agrees info cert r =
    (r.0 ≡ (if is_supported info.kind protocols then info.kind else ""))
    × (is_some r.1 ≡ is_supported info.kind protocols)
    × AreSecured info cert r.1

module _ (info : NodeInfo) (cert : Option CertConfig) where
  return-Agrees :
      (k : String) (x : InboundOptions)
      → (info.kind == k) ≡ true
      → is_supported k protocols ≡ true
      → AreSecured info cert (some x)
      → Returns (Agrees info cert) (return (k, some x))
  return-Agrees k x e sup sec (kind, o) h =
      let same : info.kind ≡ k = (eq_iff info.kind k).0 e in
      let supported : is_supported info.kind protocols ≡ true = rw same sup in
      (
        rw supported (ground arith),
        rw supported (ground arith),
        subst (AreSecured info cert) {x = some x} (ground arith) sec,
      )

  unsupported-Agrees :
      is_supported info.kind protocols ≡ false → Returns (Agrees info cert) (return ("", none))
  unsupported-Agrees n (kind, o) h = (
    rw n (ground arith),
    rw n (ground arith),
    subst (AreSecured info cert) {x = none} (ground arith) tt,
  )

module _ {Addr : Type 0} (p : Parsers Addr) (random : ℕ → String) (base64 : String → String) where
  protocol_options-Agrees :
      (info : NodeInfo) (cert : Option CertConfig) (tls : TlsOptions) (c : SingOptions)
      → IsSecured info cert tls
      → Returns (Agrees info cert) (protocol_options p random base64 info tls c)
  unfolding protocol_options is_supported
  protocol_options-Agrees info cert tls c s =
      let P = Agrees info cert in
      if-Returns P (info.kind == "vmess" || info.kind == "vless") _ _
        (λ v. >>=-Returns P (deref (vallss_of info.protocol)) _ λ n _.
          >>=-Returns P (v2ray_transport p n) _ λ t _.
            if-Returns P (info.kind == "vless") _ _
              (λ e. return-Agrees info cert "vless" (vless_options tls t c.multiplex) e refl s)
              (λ e.
                return-Agrees info cert "vmess" (vmess_options tls t c.multiplex) (left _ _ v e)
                  refl s))
        λ n1.
          if-Returns P _ _ _
            (λ e. >>=-Returns P (deref (shadowsocks_of info.protocol)) _ λ n _.
              return-Agrees info cert "shadowsocks"
                (shadowsocks_inbound random base64 n c.multiplex) e refl
                (subst (MaySecured info cert)
                  (sym (tls_of-shadowsocks_inbound random base64 n c.multiplex))
                  ((eq_iff info.kind "shadowsocks").0 e)))
            λ n2.
              if-Returns P _ _ _
                (λ e. >>=-Returns P (deref (trojan_of info.protocol)) _ λ n _.
                  >>=-Returns P (trojan_transport p n) _ λ t _.
                    return-Agrees info cert "trojan" (trojan_inbound tls t c) e refl
                      (subst (MaySecured info cert) (sym (tls_of-trojan_inbound tls t c)) s))
                λ n3.
                  if-Returns P _ _ _
                    (λ e. >>=-Returns P (deref (tuic_of info.protocol)) _ λ n _.
                      return-Agrees info cert "tuic"
                        (tuic_options (record tls { alpn = snoc tls.alpn "h3" })
                          n.congestion_control n.zero_rtt_handshake)
                        e refl
                        (record { on = s.on; reality = s.reality; certificate = s.certificate }))
                    λ n4.
                      if-Returns P _ _ _
                        (λ e. >>=-Returns P (deref (any_tls_of info.protocol)) _ λ n _.
                          return-Agrees info cert "anytls" (any_tls_options tls n.padding_scheme) e
                            refl s)
                        λ n5.
                          if-Returns P _ _ _
                            (λ e. >>=-Returns P (deref (hysteria_of info.protocol)) _ λ n _.
                              return-Agrees info cert "hysteria"
                                (hysteria_options tls n.up_mbps n.down_mbps n.obfs) e refl s)
                            λ n6.
                              if-Returns P _ _ _
                                (λ e. >>=-Returns P (deref (hysteria2_of info.protocol)) _ λ n _.
                                  return-Agrees info cert "hysteria2"
                                    (hysteria2_options tls n.up_mbps n.down_mbps
                                      n.ignore_client_bandwidth (hysteria2_obfs n))
                                    e refl s)
                                λ n7. unsupported-Agrees info cert (ground arith)

  is_some-account_of :
      (info : NodeInfo) → is_some (account_of base64 info) ≡ is_supported info.kind protocols
  unfolding account_of is_supported
  is_some-account_of info = ground arith

  -- The inbound that is made for a node carries the tag. Its type is the node's where the core
  -- supports that type, and then it has options and `AddUsers` has users for it; for every other type
  -- it is empty, without options, and `AddUsers` adds nobody to it. Its port fits 16 bits. But for
  -- Shadowsocks, which has no TLS, its TLS is on exactly where the panel asks for TLS and a
  -- certificate is configured, with that certificate's file, or for REALITY, with the settings of it.
  pub get_inbound_options-AreSecured :
      (tag : String) (info : NodeInfo) (listen_ip : String) (cert : Option CertConfig)
      (c : Option SingOptions) (i : Inbound Addr)
      → get_inbound_options p random base64 tag info listen_ip cert c ≡ return i
      → (i.tag ≡ tag)
        × (i.kind ≡ (if is_supported info.kind protocols then info.kind else ""))
        × (is_some i.options ≡ is_supported info.kind protocols)
        × (is_some (account_of base64 info) ≡ is_supported info.kind protocols)
        × (i.listen.listen_port < 65536)
        × AreSecured info cert i.options
  unfolding get_inbound_options
  get_inbound_options-AreSecured tag info listen_ip cert none i h =
      elim (Option-cases (p.parse_addr listen_ip)) [
        | inl refused ↦ absurd (ground arith)
        | inr (addr, parsed) ↦ elim (Option-cases info.common) [
          | inl nil ↦ absurd (ground arith)
          | inr (common, there) ↦ absurd (ground arith)
        ]
      ]
  get_inbound_options-AreSecured tag info listen_ip cert (some c) i h =
      elim (Option-cases (p.parse_addr listen_ip)) [
        | inl refused ↦ absurd (ground arith)
        | inr (addr, parsed) ↦ elim (Option-cases info.common) [
          | inl nil ↦ absurd (ground arith)
          | inr (common, there) ↦ elim (Call-cases (tls_options p.parse_duration info cert)) [
            | inr bad ↦ absurd (ground arith)
            | inl (tls, secure) ↦ elim (Call-cases (protocol_options p random base64 info tls c)) [
              | inr bad ↦ absurd (ground arith)
              | inl ((kind, o), built) ↦
                  let made : i.options ≡ o = ground arith in
                  let kinds =
                    protocol_options-Agrees info cert tls c
                      (tls_options-IsSecured p.parse_duration info cert tls secure) (kind, o)
                      built in
                  (
                    ground arith,
                    ground (arith, kinds.0),
                    ground (arith, kinds.1),
                    is_some-account_of info,
                    ground arith,
                    subst (AreSecured info cert) (sym made) kinds.2,
                  )
            ]
          ]
        ]
      ]
