-- ===== src/Node/Certificates/Renewal.antt =====
-- node/lego.go: which certificates `RenewCert` renews, and the files behind a renewal.
use v2b_x_turbo.Base.{
  ℤ, pos, quot, lt_ℤ, Bool, true, false, String, some, ok, ◌≡◌, ◌≢◌, ◌⊎◌, subst, arith, Bool-cases,
  Result-cases, inl, inr, has_char,
}
use v2b_x_turbo.Node.Certificates.System.{at-Ends, System, Resource}
use v2b_x_turbo.Node.Certificates.Lego.{Lego, write_cert, check_cert, renew_if_due, renew_cert}
use v2b_x_turbo.Node.Certificates.Written.{Stores, Hold, write_cert-Hold_plain}

module _ {W Key Reg Client Provider Cert : Type 0} (sys : System W Key Reg Client Provider Cert)
    (until : Cert → W → ℤ) (stores : Stores sys) where
  -- Whether a certificate has more than thirty whole days left.
  abbrev pub is_fresh : Cert → W → Bool
  is_fresh c w = lt_ℤ (pos 30) (quot (until c w) 86400000000000)

  abbrev pub Renewed : Lego Client → String → W → W → Type 0
  Renewed l file w w' =
      (c : Cert) × (sys.parse_certificate file ≡ ok c)
      × (is_fresh c w ≡ false)
      × (r : Resource) × ((sys.renew l.client l.config.cert_domain file w).0 ≡ ok r)
      × (sys.read_file l.config.cert_file w' ≡ ok r.certificate)
      × (sys.read_file l.config.key_file w' ≡ ok r.private_key)

  abbrev pub Kept : String → W → W → Type 0
  Kept file w w' = ((c : Cert) → sys.parse_certificate file ≡ ok c → is_fresh c w ≡ true) × (w' ≡ w)

  -- Where a written file holds its text and a call leaves the other files alone: a `RenewCert` that
  -- returns nil has read the certificate, if the two paths differ and have no opening brace. If what
  -- it has read is a certificate with at most thirty whole days left, both files hold what the
  -- authority issued for it. If it is another, nothing has changed; nor has it if the file holds no
  -- certificate at all, which is no error either.
  pub renew_cert_lem :
      (l : Lego Client) (w w' : W)
      → has_char 123 l.config.cert_file ≡ false
      → has_char 123 l.config.key_file ≡ false
      → l.config.key_file ≢ l.config.cert_file
      → renew_cert sys until l w ≡ some (ok tt, w')
      → (file : String) × (sys.read_file l.config.cert_file w ≡ ok file)
        × (Renewed l file w w' ⊎ Kept file w w')
  unfolding renew_cert check_cert renew_if_due
  renew_cert_lem l w w' plain plain' apart h =
      let config = l.config in
      elim (Result-cases (sys.read_file config.cert_file w)) [
        | inr (m, bad) ↦ absurd (ground arith)
        | inl (file, read) ↦ elim (Result-cases (sys.parse_certificate file)) [
          | inr (m, bad) ↦ (file, read, inr (λ c good. absurd (ground arith), ground arith))
          | inl (c, parsed) ↦ elim (Bool-cases (is_fresh c w)) [
            | inl fresh ↦ (
              file,
              read,
              inr (
                λ c' good. let same : c ≡ c' = cc in subst (λ x. is_fresh x w ≡ true) same fresh,
                ground arith,
              ),
            )
            | inr due ↦
                let r = sys.renew l.client config.cert_domain file w in
                elim (Result-cases r.0) [
                  | inr (m, bad) ↦ absurd (ground arith)
                  | inl (issued, made) ↦
                      let wrote : write_cert sys config issued r.1 ≡ some (ok tt, w') =
                        ground arith in
                      let (a, b) =
                        at-Ends (Hold sys stores config.cert_file config.key_file issued) _ tt w'
                          wrote
                          (write_cert-Hold_plain sys stores config issued r.1 plain plain' apart) in
                      (file, read, inl (c, parsed, due, issued, made, a, b))
                ]
          ]
        ]
      ]
