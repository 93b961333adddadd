-- ===== src/Node/Certificates/Request.antt =====
-- node/cert.go: how a controller requests and renews the certificate of its node.
use v2b_x_turbo.Base.{
  ℤ, String, Option, none, some, ok, err, string_eq, ◌==◌, ◌&&◌, ◌||◌, if◌then◌else◌,
}
use Prim.Native.String.{◌++◌}
use v2b_x_turbo.Conf.Types.{CertConfig}
use v2b_x_turbo.Node.Certificates.System.{Run, ◌>>=◌, ◌>>◌, return, fail, call, try, label, System}
use v2b_x_turbo.Node.Certificates.Account.{exists}
use v2b_x_turbo.Node.Certificates.Lego.{new_lego, create_cert, renew_cert}

module _ {W Key Reg Client Provider Cert : Type 0}
    (sys : System W Key Reg Client Provider Cert) where
  -- Neither file is truncated. `self_signed` is the certificate of a new key.
  unfoldable pub generate_self_ssl_certificate : String → String → String → Run W (Unit {0})
  generate_self_ssl_certificate domain cert_path key_path = do
    r ← call (sys.self_signed domain)
    try (sys.open_create cert_path)
    try (sys.write cert_path r.certificate)
    try (sys.open_create key_path)
    try (sys.write key_path r.private_key)

  unfoldable pub request_lego : CertConfig → Run W (Unit {0})
  request_lego config = do
    l ← label "create lego object error: " (new_lego sys config)
    label "create lego cert error: " (create_cert sys l)

  -- The two files are set, and they are made unless both are there.
  unfoldable pub unless_present : CertConfig → Run W (Unit {0}) → Run W (Unit {0})
  unfolding exists
  unless_present config make w =
      if config.cert_file == "" || config.key_file == ""
      then some (err "cert file path or key file path not exist", w)
      else if exists sys config.cert_file w && exists sys config.key_file w
      then some (ok tt, w)
      else make w

  unfoldable pub request_cert : CertConfig → Run W (Unit {0})
  unfolding unless_present request_lego generate_self_ssl_certificate
  request_cert config w =
      let mode = config.cert_mode in
      if mode == "none" || mode == ""
      then return tt w
      else if mode == "file"
      then (if config.cert_file == "" || config.key_file == ""
          then fail "cert file path or key file path not exist" w
          else return tt w)
      else if mode == "dns" || mode == "http"
      then unless_present config (request_lego config) w
      else if mode == "self"
      then unless_present config
          (label "generate self cert error: "
            (generate_self_ssl_certificate config.cert_domain config.cert_file config.key_file))
          w
      else fail ("unsupported certmode: " ++ mode) w

  -- Every error is logged, and the task returns nil.
  unfoldable pub renew_cert_task : (Cert → W → ℤ) → CertConfig → W → Option (Option String × W)
  renew_cert_task until config w = elim ((new_lego sys config >>= renew_cert sys until) w) [
    | none ↦ none
    | some (r, w') ↦ some (none, w')
  ]
