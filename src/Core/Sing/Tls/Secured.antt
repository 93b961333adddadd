-- ===== src/Core/Sing/Tls/Secured.antt =====
-- core/sing: the TLS of an inbound is what the panel and the certificate ask for.
use v2b_x_turbo.Base.{
  ℤ, String, Bool, false, not, Option, none, some, is_some, string_eq, int_eq, ◌==◌, ◌||◌,
  if◌then◌else◌, ◌≡◌, arith, Bool-cases, inl, inr,
}
use v2b_x_turbo.Conf.Types.{CertConfig}
use v2b_x_turbo.Panel.Types.{NodeInfo, security_tls, security_reality}
use v2b_x_turbo.Core.Call.{return}
use v2b_x_turbo.Core.Sing.Tls.{TlsOptions, tls_options}

-- Whether the panel asks for TLS and a certificate is configured.
abbrev pub uses_cert : NodeInfo → Option CertConfig → Bool
uses_cert info none = false
uses_cert info (some c) =
    if info.security == security_tls
    then not (c.cert_mode == "none" || c.cert_mode == "")
    else false

-- The security of an inbound is what the panel and the certificate ask for.
pub record IsSecured (info : NodeInfo) (cert : Option CertConfig) (t : TlsOptions) : Type 0 where
  pub on : t.enabled ≡ (uses_cert info cert || info.security == security_reality)
  pub reality : is_some t.reality ≡ (info.security == security_reality)
  pub certificate :
      t.certificate_path
      ≡ elim cert [ none ↦ "" | some c ↦ if uses_cert info (some c) then c.cert_file else "" ]

pub tls_options-IsSecured :
    (parse_duration : String → ℤ) (info : NodeInfo) (cert : Option CertConfig) (t : TlsOptions)
    → tls_options parse_duration info cert ≡ return t
    → IsSecured info cert t
unfolding tls_options
tls_options-IsSecured d info none t h = elim (Bool-cases (info.security == security_tls)) [
  | inl e ↦ absurd (ground arith)
  | inr e ↦ record { on = ground arith; reality = ground arith; certificate = ground arith }
]
tls_options-IsSecured d info (some c) t h = record {
  on = ground arith;
  reality = ground arith;
  certificate = ground arith;
}
