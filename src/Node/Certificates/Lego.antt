-- ===== src/Node/Certificates/Lego.antt =====
-- node/lego.go: `Lego`, which obtains and renews the certificate of a node. `until` is
-- `time.Until` of a certificate's end, in nanoseconds; its hours are exact here.
use v2b_x_turbo.Base.{
  ℕ, zero, suc, ℤ, pos, quot, lt_ℤ, Bool, true, false, String, Option, none, some, ok, err, [], ◌∷◌,
  Map, string_eq, ◌==◌, if◌then◌else◌, has_prefix,
}
use Prim.Native.String.{◌++◌}
use v2b_x_turbo.Conf.Types.{CertConfig}
use v2b_x_turbo.Node.Certificates.System.{
  Run, ◌>>=◌, ◌>>◌, return, fail, call, ask, try, label, System, Resource,
}
use v2b_x_turbo.Node.Certificates.Account.{check_path, new_lego_user}

pub record Lego (Client : Type 0) : Type 0 where
  pub client : Client
  pub config : CertConfig

-- `strings.NewReplacer("{domain}", domain, "{email}", email).Replace`; the number counts the
-- characters that are left of a text that was replaced.
unfoldable pub replace_params : String → String → ℕ → String → String
replace_params domain email n String.[] = ""
replace_params domain email (suc n) (String.◌∷◌ c s) = replace_params domain email n s
replace_params domain email zero (String.◌∷◌ c s) =
    let past_domain = replace_params domain email 7 s in
    let past_email = replace_params domain email 6 s in
    let rest = replace_params domain email 0 s in
    if has_prefix (String.◌∷◌ c s) "{domain}"
    then domain ++ past_domain
    else if has_prefix (String.◌∷◌ c s) "{email}"
    then email ++ past_email
    else String.◌∷◌ c rest

unfoldable pub parse_params : CertConfig → String → String
unfolding replace_params
parse_params config path = replace_params config.cert_domain config.email 0 path

module _ {W Key Reg Client Provider Cert : Type 0}
    (sys : System W Key Reg Client Provider Cert) where
  -- The loop over `DNSEnv`, in the order of the list.
  unfoldable pub set_envs : Map String String → W → W
  set_envs [] w = w
  set_envs ((k, v) ∷ m) w = set_envs m (sys.set_env k v w)

  unfoldable pub set_provider : Client → CertConfig → Run W (Unit {0})
  unfolding set_envs
  set_provider client config =
      if config.cert_mode == "http"
      then try (sys.set_http client)
      else if config.cert_mode == "dns"
      then (do
        (λ w. some (ok tt, set_envs config.dns_env w))
        p ← label "create dns challenge provider error: " (call (sys.dns_provider config.provider))
        label "set dns provider error: " (try (sys.set_dns client p)))
      else return tt

  unfoldable pub user_path : CertConfig → String
  user_path config =
      sys.join (sys.dir config.cert_file ∷ "user" ∷ ("user-" ++ config.email ++ ".json") ∷ [])

  unfoldable pub new_lego : CertConfig → Run W (Lego Client)
  unfolding set_provider user_path
  new_lego config = do
    user ← label "create user error: " (new_lego_user sys (user_path config) config.email)
    client ← call (sys.new_client user.email user.registration user.key)
    label "set provider error: " (set_provider client config)
    return (record { client = client; config = config })

  unfoldable pub write_cert : CertConfig → Resource → Run W (Unit {0})
  unfolding parse_params
  write_cert config r = do
    label "check path error: " (check_path sys config.cert_file)
    try (sys.write_file (parse_params config config.cert_file) r.certificate)
    label "check path error: " (check_path sys config.key_file)
    try (sys.write_file (parse_params config config.key_file) r.private_key)

  unfoldable pub create_cert : Lego Client → Run W (Unit {0})
  unfolding write_cert
  create_cert l = do
    r ← label "obtain certificate error: " (call (sys.obtain l.client l.config.cert_domain))
    label "write certificate error: " (write_cert l.config r)

module _ {W Key Reg Client Provider Cert : Type 0} (sys : System W Key Reg Client Provider Cert)
    (until : Cert → W → ℤ) where
  -- Whether the certificate has at most thirty whole days left, and an error.
  unfoldable pub check_cert : String → W → Bool × Option String
  check_cert file w = elim (sys.parse_certificate file) [
    | err m ↦ (false, some m)
    | ok c ↦ (if lt_ℤ (pos 30) (quot (until c w) 86400000000000) then false else true, none)
  ]

  -- Behind the read, with the answer of `CheckCert`.
  unfoldable pub renew_if_due : Lego Client → String → Bool × Option String → Run W (Unit {0})
  unfolding write_cert
  renew_if_due l file (false, e) = return tt
  renew_if_due l file (true, some m) = fail ("check cert error: " ++ m)
  renew_if_due l file (true, none) = do
    r ← call (sys.renew l.client l.config.cert_domain file)
    label "write certificate error: " (write_cert sys l.config r)

  unfoldable pub renew_cert : Lego Client → Run W (Unit {0})
  unfolding check_cert renew_if_due
  renew_cert l = do
    file ← label "read cert file error: " (ask (sys.read_file l.config.cert_file))
    λ w. renew_if_due l file (check_cert file w) w
