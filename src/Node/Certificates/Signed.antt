-- ===== src/Node/Certificates/Signed.antt =====
-- node/cert.go: the files of a self-signed certificate.
use Prim.Native.String.{◌++◌}
use v2b_x_turbo.Base.{
  String, none, some, Result, ok, err, string_eq, ◌≡◌, ◌≢◌, refl, ap, ◌∙◌, subst,
}
use v2b_x_turbo.Conf.Types.{CertConfig}
use v2b_x_turbo.Node.Certificates.System.{call, try, Ends, after-Ends, try-Ends, System, Resource}
use v2b_x_turbo.Node.Certificates.Request.{generate_self_ssl_certificate}
use v2b_x_turbo.Node.Certificates.Written.{}

-- What a file does that is opened without a truncation and written from its beginning: the text stands
-- there, and behind it what the file had more. The calls leave the other files alone.
pub record Overwrites {W Key Reg Client Provider Cert : Type 0}
    (sys : System W Key Reg Client Provider Cert) : Type 0 where
  pub begins :
      (p t : String) (w : W)
      → (sys.open_create p w).0 ≡ none
      → let w1 = (sys.open_create p w).1 in
        (sys.write p t w1).0 ≡ none
        → (tail : String) × (sys.read_file p (sys.write p t w1).1 ≡ ok (t ++ tail))
  pub opens :
      (p q : String) (w : W) → p ≢ q → sys.read_file q (sys.open_create p w).1 ≡ sys.read_file q w
  pub writes :
      (p q t : String) (w : W) → p ≢ q → sys.read_file q (sys.write p t w).1 ≡ sys.read_file q w

pub answer-Ends : {W A : Type 0} (r : Result A) (w : W) → Ends (λ a _. r ≡ ok a) (some (r, w))
answer-Ends (ok a) w = refl
answer-Ends (err m) w = tt

module _ {W Key Reg Client Provider Cert : Type 0} (sys : System W Key Reg Client Provider Cert)
    (over : Overwrites sys) where
  -- Both files begin with what was signed for the domain.
  abbrev pub Signed : CertConfig → W → W → Type 0
  Signed config w w' =
      (r : Resource) × (tail : String) × (tail' : String) × ((sys.self_signed config.cert_domain
          w).0
        ≡ ok r)
      × (sys.read_file config.cert_file w' ≡ ok (r.certificate ++ tail))
      × (sys.read_file config.key_file w' ≡ ok (r.private_key ++ tail'))

  pub generate_self_ssl_certificate-Signed :
      (config : CertConfig) (w : W)
      → config.key_file ≢ config.cert_file
      → Ends
          (λ _ w'. Signed config w w')
          (generate_self_ssl_certificate sys config.cert_domain config.cert_file config.key_file w)
  unfolding generate_self_ssl_certificate
  generate_self_ssl_certificate-Signed config w apart =
      let cert = config.cert_file in
      let key = config.key_file in
      let P : Unit {0} → W → Type 0 = λ _ w'. Signed config w w' in
      let made = sys.self_signed config.cert_domain w in
      let Made : Resource → W → Type 0 = λ r _. made.0 ≡ ok r in
      after-Ends P Made (call (sys.self_signed config.cert_domain) w) _ (answer-Ends made.0 made.1)
        λ r w1 signed.
          let Opened : Unit {0} → W → Type 0 =
            λ _ w2. ((sys.open_create cert w1).0 ≡ none) × (w2 ≡ (sys.open_create cert w1).1) in
          after-Ends P Opened (try (sys.open_create cert) w1) _ (try-Ends Opened _ _ λ e. (e, refl))
            λ _ w2 (opened, here).
              let Begun : Unit {0} → W → Type 0 =
                λ _ w3. (tail : String) × (sys.read_file cert w3 ≡ ok (r.certificate ++ tail)) in
              after-Ends P Begun (try (sys.write cert r.certificate) w2) _
                (try-Ends Begun _ _ λ e.
                  let (tail, holds) =
                    over.begins cert r.certificate w1 opened
                      (subst (λ x. (sys.write cert r.certificate x).0 ≡ none) here e) in
                  (
                    tail,
                    ap (λ x. sys.read_file cert (sys.write cert r.certificate x).1) here ∙ holds,
                  ))
                λ _ w3 (tail, begun).
                  let Opened' : Unit {0} → W → Type 0 = λ _ w4.
                    ((sys.open_create key w3).0 ≡ none) × (w4 ≡ (sys.open_create key w3).1) in
                  after-Ends P Opened' (try (sys.open_create key) w3) _
                    (try-Ends Opened' _ _ λ e. (e, refl))
                    λ _ w4 (opened', here'). try-Ends P _ _ λ e.
                      let (tail', holds) =
                        over.begins key r.private_key w3 opened'
                          (subst (λ x. (sys.write key r.private_key x).0 ≡ none) here' e) in
                      (
                        r,
                        tail,
                        tail',
                        signed,
                        over.writes key cert r.private_key w4 apart
                            ∙ ap (sys.read_file cert) here'
                            ∙ over.opens key cert w3 apart
                            ∙ begun,
                        ap (λ x. sys.read_file key (sys.write key r.private_key x).1) here' ∙ holds,
                      )
