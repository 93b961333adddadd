-- ===== src/Node/Certificates/Written.antt =====
-- node/lego.go: the files behind a certificate that was written.
use v2b_x_turbo.Base.{
  false, String, none, ok, ◌≡◌, ◌≢◌, refl, sym, ap, ◌∙◌, arith, has_char, has_prefix,
}
use v2b_x_turbo.Conf.Types.{CertConfig}
use v2b_x_turbo.Node.Certificates.System.{
  try, label, Ends, after-Ends, after-Ends_any, labelled-Ends, if-Ends, Ends-map, try-Ends, System,
  Resource,
}
use v2b_x_turbo.Node.Certificates.Account.{exists, check_path}
use v2b_x_turbo.Node.Certificates.Lego.{replace_params, parse_params, write_cert}

pub replace_params-plain :
    (domain email s : String) → has_char 123 s ≡ false → replace_params domain email 0 s ≡ s
unfolding replace_params has_char has_prefix
replace_params-plain domain email String.[] h = refl
replace_params-plain domain email (String.◌∷◌ c s) h =
    ground (arith, replace_params-plain domain email s)

-- What files do: a written text is read, and a call leaves the other files alone.
pub record Stores {W Key Reg Client Provider Cert : Type 0}
    (sys : System W Key Reg Client Provider Cert) : Type 0 where
  pub reads :
      (p t : String) (w : W)
      → (sys.write_file p t w).0 ≡ none
      → sys.read_file p (sys.write_file p t w).1 ≡ ok t
  pub others :
      (p q t : String) (w : W)
      → p ≢ q
      → sys.read_file q (sys.write_file p t w).1 ≡ sys.read_file q w
  pub mkdirs : (p q : String) (w : W) → sys.read_file q (sys.mkdir_all p w).1 ≡ sys.read_file q w

module _ {W Key Reg Client Provider Cert : Type 0} (sys : System W Key Reg Client Provider Cert)
    (stores : Stores sys) where
  -- Both files hold what was issued.
  abbrev pub Hold : String → String → Resource → Unit {0} → W → Type 0
  Hold cert key r _ w =
      (sys.read_file cert w ≡ ok r.certificate) × (sys.read_file key w ≡ ok r.private_key)

  check_path-reads :
      (p q t s : String) (w : W)
      → sys.read_file q w ≡ ok t
      → Ends (λ _ w'. sys.read_file q w' ≡ ok t) (label s (check_path sys p) w)
  unfolding check_path
  check_path-reads p q t s w e =
      let Reads : Unit {0} → W → Type 0 = λ _ w'. sys.read_file q w' ≡ ok t in
      let made = sys.mkdir_all (sys.dir p) w in
      labelled-Ends Reads s (check_path sys p w) (
        if-Ends Reads (exists sys (sys.dir p) w) _ _ (λ _. e)
          λ _.
            labelled-Ends Reads "create dir error: " (try (sys.mkdir_all (sys.dir p)) w)
              (try-Ends Reads made.0 made.1 λ _. stores.mkdirs (sys.dir p) q w ∙ e))

  write_cert-Hold :
      (config : CertConfig) (r : Resource) (w : W)
      → parse_params config config.key_file ≢ parse_params config config.cert_file
      → Ends
          (Hold (parse_params config config.cert_file) (parse_params config config.key_file) r)
          (write_cert sys config r w)
  unfolding write_cert
  write_cert-Hold config r w apart =
      let cert = parse_params config config.cert_file in
      let key = parse_params config config.key_file in
      let Reads : Unit {0} → W → Type 0 = λ _ w'. sys.read_file cert w' ≡ ok r.certificate in
      let Both = Hold cert key r in
      after-Ends_any Both _ _ λ _ w1.
        after-Ends Both Reads (try (sys.write_file cert r.certificate) w1) _
          (try-Ends Reads _ _ (stores.reads cert r.certificate w1))
          λ _ w2 there.
            after-Ends Both Reads (label "check path error: " (check_path sys config.key_file) w2) _
              (check_path-reads config.key_file cert r.certificate "check path error: " w2 there)
              λ _ w3 there'. try-Ends Both _ _ λ done. (
                stores.others key cert r.private_key w3 apart ∙ there',
                stores.reads key r.private_key w3 done,
              )

  pub write_cert-Hold_plain :
      (config : CertConfig) (r : Resource) (w : W)
      → has_char 123 config.cert_file ≡ false
      → has_char 123 config.key_file ≡ false
      → config.key_file ≢ config.cert_file
      → Ends (Hold config.cert_file config.key_file r) (write_cert sys config r w)
  unfolding parse_params
  write_cert-Hold_plain config r w plain plain' apart =
      let cert = replace_params-plain config.cert_domain config.email config.cert_file plain in
      let key = replace_params-plain config.cert_domain config.email config.key_file plain' in
      Ends-map (Hold (parse_params config config.cert_file) (parse_params config config.key_file) r)
        (Hold config.cert_file config.key_file r) (write_cert sys config r w)
        (λ _ w1 both. (
          ap (λ p. sys.read_file p w1) (sym cert) ∙ both.0,
          ap (λ p. sys.read_file p w1) (sym key) ∙ both.1,
        ))
        (write_cert-Hold config r w λ same. apart (sym key ∙ same ∙ cert))
