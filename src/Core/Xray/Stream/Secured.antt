-- ===== src/Core/Xray/Stream/Secured.antt =====
-- core/xray/inbound.go: the settings of a stream are of its network, accept the PROXY protocol as the
-- options say, and have the security that the panel and the certificate ask for.
use v2b_x_turbo.Base.{
  ℤ, String, Bool, true, false, Option, none, some, is_some, Option-cases, Bool-cases, inl, inr,
  string_eq, int_eq, ◌==◌, ◌||◌, if◌then◌else◌, ◌≡◌, refl, ap, subst, arith,
}
use v2b_x_turbo.Conf.Types.{CertConfig}
use v2b_x_turbo.Conf.Xray.{XrayOptions}
use v2b_x_turbo.Panel.Types.{NodeInfo, VallssNode, security_tls, security_reality}
use v2b_x_turbo.Core.Call.{◌>>=◌, return, Returns, >>=-Returns, if-Returns, fail-Returns}
use v2b_x_turbo.Panel.Protocols.{vallss_of}
use v2b_x_turbo.Core.Xray.Stream.{
  StreamConfig, TransportConfig, SocketConfig, Library, decode_stream, v2ray_stream, enable_proxy,
  use_cert, use_reality, secure,
}

-- The security that the panel and the certificate ask for.
abbrev pub security_of : NodeInfo → Option CertConfig → String
security_of info cert =
    if info.security == security_tls
    then elim cert [
      | none ↦ ""
      | some c ↦ if c.cert_mode == "none" || c.cert_mode == "" then "" else "tls"
    ]
    else if info.security == security_reality
    then "reality"
    else ""

abbrev accepts : Option TransportConfig → Option Bool
accepts none = none
accepts (some t) = some t.accept_proxy_protocol

abbrev socket_accepts : Option SocketConfig → Option Bool
socket_accepts none = none
socket_accepts (some s) = some s.accept_proxy_protocol

-- Whether the part of the settings that the network reads accepts the PROXY protocol.
abbrev pub proxy_of : StreamConfig → Option Bool
proxy_of s =
    if s.network == "tcp"
    then accepts s.tcp_settings
    else if s.network == "ws"
    then accepts s.ws_settings
    else socket_accepts s.socket_settings

-- The settings that no security was put into, of a network.
pub record IsFresh (network : String) (s : StreamConfig) : Type 0 where
  pub named : s.network ≡ network
  pub insecure : s.security ≡ ""
  pub no_tls : s.tls_settings ≡ none
  pub no_reality : s.reality_settings ≡ none

module _ (lib : Library) where
  pub decode_stream-IsFresh :
      (message network text : String) (s : StreamConfig)
      → decode_stream lib message network text ≡ return s
      → IsFresh network s
  unfolding decode_stream
  decode_stream-IsFresh message network text s h = ground arith

  pub v2ray_stream-IsFresh :
      (v : VallssNode)
      → Returns
          (λ (r : Option StreamConfig). (s : StreamConfig) → r ≡ some s → IsFresh v.network s)
          (v2ray_stream lib v)
  unfolding v2ray_stream
  v2ray_stream-IsFresh v =
      let P : Option StreamConfig → Type 0 =
        λ r. (s : StreamConfig) → r ≡ some s → IsFresh v.network s in
      let text = v.network_settings in
      let decoded : (message : String)
          → Returns P (decode_stream lib message v.network text >>= λ s. return (some s)) =
        λ message. >>=-Returns P (decode_stream lib message v.network text) _ λ s made o h t e.
          subst (IsFresh v.network) {x = s} (ground arith)
            (decode_stream-IsFresh message v.network text s made) in
      let n = v.network in
      if-Returns P (text == "") _ _ (λ _ o h s e. absurd (ground arith))
        λ _.
          if-Returns P (n == "tcp" || n == "ws" || n == "grpc" || n == "httpupgrade") _ _
            (λ _. decoded n)
            λ _.
              if-Returns P (n == "splithttp" || n == "xhttp") _ _ (λ _. decoded "xhttp")
                λ _. fail-Returns P "the network type is not vail"

pub enable_proxy_lem :
    (c : XrayOptions) (network : String) (s : StreamConfig)
    → IsFresh network s
    → IsFresh network (enable_proxy c network s)
      × (proxy_of (enable_proxy c network s) ≡ some c.enable_proxy_protocol)
unfolding enable_proxy
enable_proxy_lem c network s f = elim (Bool-cases (network == "tcp")) [
  | inl t ↦ (ground arith, ground arith)
  | inr t ↦ elim (Bool-cases (network == "ws")) [
    | inl w ↦ (ground arith, ground arith)
    | inr w ↦ (ground arith, ground arith)
  ]
]

-- Behind the last switch, the security is in place and the network's part is as it was.
pub record IsSecured (info : NodeInfo) (cert : Option CertConfig) (s t : StreamConfig)
    : Type 0 where
  pub security : t.security ≡ security_of info cert
  pub tls : is_some t.tls_settings ≡ (t.security == "tls")
  pub reality : is_some t.reality_settings ≡ (t.security == "reality")
  pub proxy : proxy_of t ≡ proxy_of s

use_reality-IsSecured :
    (parse_duration : String → ℤ) (v : VallssNode) (info : NodeInfo) (cert : Option CertConfig)
    (network : String) (s : StreamConfig)
    → IsFresh network s
    → (info.security == security_tls) ≡ false
    → (info.security == security_reality) ≡ true
    → IsSecured info cert s (use_reality parse_duration v s)
unfolding use_reality
use_reality-IsSecured d v info cert network s f a b = record {
  security = ground arith;
  tls = ground arith;
  reality = ground arith;
  proxy = ground arith;
}

use_cert-IsSecured :
    (c : CertConfig) (info : NodeInfo) (network : String) (s : StreamConfig)
    → IsFresh network s
    → (info.security == security_tls) ≡ true
    → IsSecured info (some c) s (use_cert c s)
unfolding use_cert
use_cert-IsSecured c info network s f a =
    elim (Bool-cases (c.cert_mode == "none" || c.cert_mode == "")) [
      | inl m ↦ record {
        security = ground arith;
        tls = rw m (ground (arith, ap (λ (x : String). x == "tls") f.insecure));
        reality = rw m (ground (arith, ap (λ (x : String). x == "reality") f.insecure));
        proxy = ground arith;
      }
      | inr m ↦ record {
        security = ground arith;
        tls = rw m refl;
        reality = rw m (ground arith);
        proxy = ground arith;
      }
    ]

fresh-IsSecured :
    (info : NodeInfo) (cert : Option CertConfig) (network : String) (s : StreamConfig)
    → IsFresh network s
    → (info.security == security_tls) ≡ false
    → (info.security == security_reality) ≡ false
    → IsSecured info cert s s
fresh-IsSecured info cert network s f a b = record {
  security = ground arith;
  tls = ground (arith, ap (λ (x : String). x == "tls") f.insecure);
  reality = ground (arith, ap (λ (x : String). x == "reality") f.insecure);
  proxy = refl;
}

pub secure-IsSecured :
    (parse_duration : String → ℤ) (info : NodeInfo) (cert : Option CertConfig) (network : String)
    (s t : StreamConfig)
    → IsFresh network s
    → secure parse_duration info cert s ≡ return t
    → IsSecured info cert s t
unfolding secure
secure-IsSecured d info none network s t f h = elim (Bool-cases (info.security == security_tls)) [
  | inl a ↦ absurd (ground arith)
  | inr a ↦ elim (Bool-cases (info.security == security_reality)) [
    | inl b ↦ elim (Option-cases (vallss_of info.protocol)) [
      | inl nil ↦ absurd (ground arith)
      | inr (v, there) ↦
          subst (IsSecured info none s) {x = use_reality d v s} (ground arith)
            (use_reality-IsSecured d v info none network s f a b)
    ]
    | inr b ↦
        subst (IsSecured info none s) {x = s} (ground arith)
          (fresh-IsSecured info none network s f a b)
  ]
]
secure-IsSecured d info (some c) network s t f h =
    elim (Bool-cases (info.security == security_tls)) [
      | inl a ↦
          subst (IsSecured info (some c) s) {x = use_cert c s} (ground arith)
            (use_cert-IsSecured c info network s f a)
      | inr a ↦ elim (Bool-cases (info.security == security_reality)) [
        | inl b ↦ elim (Option-cases (vallss_of info.protocol)) [
          | inl nil ↦ absurd (ground arith)
          | inr (v, there) ↦
              subst (IsSecured info (some c) s) {x = use_reality d v s} (ground arith)
                (use_reality-IsSecured d v info (some c) network s f a b)
        ]
        | inr b ↦
            subst (IsSecured info (some c) s) {x = s} (ground arith)
              (fresh-IsSecured info (some c) network s f a b)
      ]
    ]
