-- ===== src/Node/Certificates/Present.antt =====
-- node/cert.go: the files of a certificate behind a request for it.
use text.Mathlib.TextEquality.{eq_iff}
use v2b_x_turbo.Base.{
  Bool, true, false, String, Option, some, Result, ok, string_eq, ◌==◌, ◌&&◌, ◌||◌, ◌≡◌, ◌≢◌, ◌⊎◌,
  refl, sym, ap, ◌∙◌, subst, arith, Bool-cases, inl, inr, has_char,
}
use v2b_x_turbo.Conf.Types.{CertConfig}
use v2b_x_turbo.Node.Certificates.System.{
  call, label, Ends, after-Ends, after-Ends_any, labelled-Ends, at-Ends, if-Ends, Ends-map, System,
  Resource,
}
use v2b_x_turbo.Node.Certificates.Account.{exists}
use v2b_x_turbo.Node.Certificates.Lego.{Lego, set_provider, new_lego, create_cert}
use v2b_x_turbo.Node.Certificates.Request.{
  generate_self_ssl_certificate, request_lego, unless_present, request_cert,
}
use v2b_x_turbo.Node.Certificates.Written.{Stores, Hold, write_cert-Hold_plain}
use v2b_x_turbo.Node.Certificates.Signed.{
  Overwrites, answer-Ends, Signed, generate_self_ssl_certificate-Signed,
}

-- The modes in which a certificate is made.
abbrev pub makes_cert : String → Bool
makes_cert mode = mode == "dns" || mode == "http" || mode == "self"

not_made :
    (mode k : String) → (mode == k) ≡ true → makes_cert k ≡ false → makes_cert mode ≡ true → ⊥
not_made mode k e kept made =
    let same : mode ≡ k = (eq_iff mode k).0 e in
    let yes' : makes_cert k ≡ true = subst (λ m. makes_cert m ≡ true) same made in cc

unmade : (mode : String) → (mode == "none" || mode == "") ≡ true → makes_cert mode ≡ true → ⊥
unmade mode e made = elim (Bool-cases (mode == "none")) [
  | inl none_ ↦ not_made mode "none" none_ refl made
  | inr other ↦ not_made mode "" (ground arith) refl made
]

abbrev by_authority : String → Bool
by_authority mode = mode == "dns" || mode == "http"

not_self : (mode : String) → by_authority mode ≡ true → mode ≢ "self"
not_self mode hit same =
    let hit' : by_authority "self" ≡ true = subst (λ m. by_authority m ≡ true) same hit in cc

module _ {W Key Reg Client Provider Cert : Type 0} (sys : System W Key Reg Client Provider Cert)
    (stores : Stores sys) (over : Overwrites sys) where
  -- Both files were there, and nothing was done.
  abbrev pub WasThere : CertConfig → W → W → Type 0
  WasThere config w w' =
      (exists sys config.cert_file w ≡ true) × (exists sys config.key_file w ≡ true) × (w' ≡ w)

  -- Both files hold what the authority issued for the domain.
  abbrev pub Obtained : CertConfig → W → Type 0
  Obtained config w' =
      (c : Client) × (w0 : W) × (r : Resource) × ((sys.obtain c config.cert_domain w0).0 ≡ ok r)
      × (sys.read_file config.cert_file w' ≡ ok r.certificate)
      × (sys.read_file config.key_file w' ≡ ok r.private_key)

  new_lego_config :
      (config : CertConfig) (w : W) → Ends (λ l _. l.config ≡ config) (new_lego sys config w)
  unfolding new_lego
  new_lego_config config w =
      let Same : Lego Client → W → Type 0 = λ l _. l.config ≡ config in
      after-Ends_any Same _ _ λ u w1.
        after-Ends_any Same (call (sys.new_client u.email u.registration u.key) w1) _ λ c w2.
          after-Ends_any Same (label "set provider error: " (set_provider sys c config) w2) _
            λ _ w3. refl

  create_cert-Obtained :
      (l : Lego Client) (w : W)
      → has_char 123 l.config.cert_file ≡ false
      → has_char 123 l.config.key_file ≡ false
      → l.config.key_file ≢ l.config.cert_file
      → Ends (λ _ w'. Obtained l.config w') (create_cert sys l w)
  unfolding create_cert
  create_cert-Obtained l w plain plain' apart =
      let config = l.config in
      let P : Unit {0} → W → Type 0 = λ _ w'. Obtained config w' in
      let made = sys.obtain l.client config.cert_domain w in
      let Made : Resource → W → Type 0 = λ r _. made.0 ≡ ok r in
      after-Ends P Made
        (label "obtain certificate error: " (call (sys.obtain l.client config.cert_domain)) w) _
        (labelled-Ends Made "obtain certificate error: "
          (call (sys.obtain l.client config.cert_domain) w) (answer-Ends made.0 made.1))
        λ r w1 issued. labelled-Ends P "write certificate error: " _ (
          Ends-map (Hold sys stores config.cert_file config.key_file r) P _
            (λ _ w2 (a, b). (l.client, w, r, issued, a, b))
            (write_cert-Hold_plain sys stores config r w1 plain plain' apart))

  request_lego-Obtained :
      (config : CertConfig) (w : W)
      → has_char 123 config.cert_file ≡ false
      → has_char 123 config.key_file ≡ false
      → config.key_file ≢ config.cert_file
      → Ends (λ _ w'. Obtained config w') (request_lego sys config w)
  unfolding request_lego
  request_lego-Obtained config w plain plain' apart =
      let Same : Lego Client → W → Type 0 = λ l _. l.config ≡ config in
      let P : CertConfig → Unit {0} → W → Type 0 = λ c _ w'. Obtained c w' in
      after-Ends (P config) Same (label "create lego object error: " (new_lego sys config) w) _
        (labelled-Ends Same "create lego object error: " (new_lego sys config w)
          (new_lego_config config w))
        λ l w1 same.
          let back = sym same in
          labelled-Ends (P config) "create lego cert error: " (create_cert sys l w1) (
            subst (λ c. Ends (P c) (create_cert sys l w1)) same
              (create_cert-Obtained l w1
                (ap (λ (c : CertConfig). has_char 123 c.cert_file) same ∙ plain)
                (ap (λ (c : CertConfig). has_char 123 c.key_file) same ∙ plain')
                (subst (λ (c : CertConfig). c.key_file ≢ c.cert_file) back apart)))

  -- What a request leaves.
  abbrev pub Requested : CertConfig → W → Unit {0} → W → Type 0
  Requested config w _ w' =
      WasThere config w w'
      ⊎ (config.cert_mode ≡ "self") × Signed sys over config w w'
      ⊎ (config.cert_mode ≢ "self") × Obtained config w'

  unless_present-Requested :
      (config : CertConfig) (make : W → Option (Result (Unit {0}) × W)) (w : W)
      → Ends (Requested config w) (make w)
      → Ends (Requested config w) (unless_present sys config make w)
  unfolding unless_present
  unless_present-Requested config make w made =
      let P = Requested config w in
      if-Ends P (config.cert_file == "" || config.key_file == "") _ _ (λ _. tt)
        λ _.
          if-Ends P (exists sys config.cert_file w && exists sys config.key_file w) _ _
            (λ both. inl (ground arith, ground arith, refl)) λ _. made

  -- Where a written file holds its text, a file that is opened and written begins with it, and a call
  -- leaves the other files alone: if a `requestCert` in a mode that makes a certificate returns nil, and
  -- the two paths differ and have no opening brace, then `IsExist` held of both files before and nothing
  -- has changed; or, for a self-signed certificate, both begin with the certificate and the key that
  -- were made for the domain; or else both hold what the authority issued for it.
  pub request_cert-Requested :
      (config : CertConfig) (w w' : W)
      → makes_cert config.cert_mode ≡ true
      → has_char 123 config.cert_file ≡ false
      → has_char 123 config.key_file ≡ false
      → config.key_file ≢ config.cert_file
      → request_cert sys config w ≡ some (ok tt, w')
      → Requested config w tt w'
  unfolding request_cert
  request_cert-Requested config w w' made plain plain' apart h =
      let mode = config.cert_mode in
      let P = Requested config w in
      let lego : mode ≢ "self" → Ends P (request_lego sys config w) = λ other.
        Ends-map (λ _ w1. Obtained config w1) P _ (λ _ w1 o. inr (inr (other, o)))
          (request_lego-Obtained config w plain plain' apart) in
      let self : mode ≡ "self"
          → Ends P (
              label "generate self cert error: "
                (generate_self_ssl_certificate sys config.cert_domain config.cert_file
                  config.key_file)
                w) =
        λ is_self. labelled-Ends P "generate self cert error: " _ (
          Ends-map (λ _ w1. Signed sys over config w w1) P _ (λ _ w1 s. inr (inl (is_self, s)))
            (generate_self_ssl_certificate-Signed sys over config w apart)) in
      at-Ends P (request_cert sys config w) tt w' h (
        if-Ends P (mode == "none" || mode == "") _ _ (λ hit. absurd (unmade mode hit made))
          λ _.
            if-Ends P (mode == "file") _ _ (λ hit. absurd (not_made mode "file" hit refl made))
              λ _.
                if-Ends P (mode == "dns" || mode == "http") _ _
                  (λ hit.
                    unless_present-Requested config (request_lego sys config) w
                      (lego (not_self mode hit)))
                  λ _.
                    if-Ends P (mode == "self") _ _
                      (λ hit.
                        unless_present-Requested config
                          (label "generate self cert error: " (
                            generate_self_ssl_certificate sys config.cert_domain config.cert_file
                              config.key_file))
                          w (self ((eq_iff mode "self").0 hit)))
                      λ _. tt)
