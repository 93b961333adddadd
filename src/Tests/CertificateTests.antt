-- ===== src/Tests/CertificateTests.antt =====
-- node/cert.go and node/lego.go: the theorems over files that are a map, with an authority that issues
-- one certificate.
use Prim.Native.String.{◌++◌}
use text.Mathlib.TextEquality.{eq_iff}
use text.Mathlib.TextLemmas.{cons-append}
use v2b_x_turbo.Base.{
  ℤ, pos, quot, String, Option, none, some, is_some, ok, err, [], ◌∷◌, Map, lookup, store,
  lookup-store_self, lookup-store_ne, or_else, string_eq, ◌==◌, ◌&&◌, ◌≡◌, ◌≢◌, ◌⊎◌, refl, sym, ap,
  ◌∙◌, arith, Option-cases, inl, inr, if◌then◌else◌, has_char, has_prefix,
}
use v2b_x_turbo.Conf.Types.{CertConfig, new_cert_config}
use v2b_x_turbo.Node.Certificates.System.{System, StoredUser, Stat, found, missing, Resource}
use v2b_x_turbo.Node.Certificates.Account.{exists, check_path, new_lego_user}
use v2b_x_turbo.Node.Certificates.Lego.{Lego, new_lego, create_cert, renew_cert}
use v2b_x_turbo.Node.Certificates.Request.{request_cert}
use v2b_x_turbo.Node.Certificates.Written.{Stores}
use v2b_x_turbo.Node.Certificates.Signed.{Overwrites}
use v2b_x_turbo.Node.Certificates.Present.{Requested, request_cert-Requested}
use v2b_x_turbo.Node.Certificates.Saved.{ReadsBack, new_lego_user_again}
use v2b_x_turbo.Node.Certificates.Renewal.{Renewed, Kept, renew_cert_lem}

abbrev Files : Type 0
Files = Map String String

abbrev issued : Resource
issued = record { certificate = "new"; private_key = "key" }

abbrev stat_of : Option String → Stat
stat_of none = missing
stat_of (some t) = found

abbrev system : System Files String (Unit {0}) (Unit {0}) (Unit {0}) String
system = record {
  stat = λ p w. stat_of (lookup p w);
  read_file = λ p w. elim (lookup p w) [ none ↦ err "no such file" | some t ↦ ok t ];
  write_file = λ p t w. (none, store p t w);
  mkdir_all = λ p w. (none, w);
  open_create = λ p w. (none, store p (or_else "" (lookup p w)) w);
  open_truncate = λ p w. (none, store p "" w);
  write = λ p t w. (none, store p t w);
  set_env = λ k v w. w;
  dir = λ p. "";
  join = λ ps. "user";
  encode =
      λ u. if u.email == "a@b" && is_some u.registration then ok u.key_encoded else err "no user";
  decode = λ t. ok (record { email = "a@b"; registration = some tt; key_encoded = t });
  generate_key = λ w. (ok "k", w);
  marshal_key = λ k. ok k;
  parse_key = λ t. ok t;
  pem_encode = λ t. t;
  pem_decode = λ t. some t;
  new_client = λ email reg key w. (ok tt, w);
  register = λ c w. (ok tt, w);
  set_http = λ c w. (none, w);
  dns_provider = λ name w. (ok tt, w);
  set_dns = λ c p w. (none, w);
  obtain = λ c domain w. (ok issued, w);
  renew = λ c domain file w. (ok issued, w);
  parse_certificate = λ t. ok t;
  self_signed = λ domain w. (ok issued, w);
}

read_stored : (p t : String) (w : Files) → system.read_file p (store p t w) ≡ ok t
read_stored p t w = ground (arith, lookup-store_self p t w)

decoded : (u : StoredUser (Unit {0})) (t : String) → system.encode u ≡ ok t → system.decode t ≡ ok u
decoded u t h = elim (Option-cases u.registration) [
  | inl nil ↦ absurd (ground arith)
  | inr (tt_, reg) ↦ ground (arith, eq_iff u.email "a@b")
]

system-ReadsBack : ReadsBack system
system-ReadsBack = record {
  der = λ k. k;
  marshals = λ k. refl;
  parses = λ k. refl;
  pems = λ t. refl;
  decodes = decoded;
  holds = λ p t w w1 w2 opened wrote.
      ap (λ (x : Option String × Files). system.read_file p x.1) (sym wrote) ∙ read_stored p t w1;
}

system-Stores : Stores system
system-Stores = record {
  reads = λ p t w _. read_stored p t w;
  others = λ p q t w apart. ground (arith, lookup-store_ne p q t w apart);
  mkdirs = λ p q w. refl;
}

append_nothing : (t : String) → t ++ "" ≡ t
append_nothing String.[] = refl
append_nothing (String.◌∷◌ c t) = rw cons-append (ap (String.◌∷◌ c) (append_nothing t))

system-Overwrites : Overwrites system
system-Overwrites = record {
  begins = λ p t w _ _. ("", read_stored p t _ ∙ ap ok (sym (append_nothing t)));
  opens = λ p q w apart. ground (arith, lookup-store_ne p q (or_else "" (lookup p w)) w apart);
  writes = λ p q t w apart. ground (arith, lookup-store_ne p q t w apart);
}

-- A certificate from the authority, whose days are over.
abbrev config : CertConfig
config = record new_cert_config {
  cert_mode = "http";
  cert_file = "cert";
  key_file = "key";
  email = "a@b";
}

abbrev behind : Files
behind = ("user", "k") ∷ ("cert", "new") ∷ ("key", "key") ∷ []

apart : config.key_file ≢ config.cert_file
apart e = ground (arith, (eq_iff config.key_file config.cert_file).1 e)

request_cert-Requested_example :
    Requested system system-Stores system-Overwrites config [] tt behind
unfolding has_char request_cert store lookup new_lego new_lego_user create_cert has_prefix
request_cert-Requested_example =
    request_cert-Requested system system-Stores system-Overwrites config [] behind refl refl refl
      apart refl

new_lego_user_again_example :
    (text : String) × (new_lego_user system "user" "a@b" behind
      ≡ some (
        ok (record { email = "a@b"; registration = some tt; key = some "k"; key_encoded = text }),
        behind,
      ))
unfolding lookup exists new_lego_user store
new_lego_user_again_example =
    new_lego_user_again system system-ReadsBack "user" "a@b"
      (record { email = "a@b"; registration = some tt; key = some "k"; key_encoded = "" }) []
      (("user", "k") ∷ []) behind refl refl refl

abbrev expired : Files
expired = ("cert", "old") ∷ ("key", "key") ∷ []

abbrev renewed : Files
renewed = ("cert", "new") ∷ ("key", "key") ∷ []

abbrev lego : Lego (Unit {0})
lego = record { client = tt; config = config }

abbrev no_time : String → Files → ℤ
no_time c w = pos 0

renew_cert_lem_example :
    (file : String) × (system.read_file "cert" expired ≡ ok file)
    × (Renewed system no_time system-Stores lego file expired renewed
        ⊎ Kept system no_time system-Stores file expired renewed)
unfolding has_char renew_cert store lookup has_prefix quot check_path
renew_cert_lem_example =
    renew_cert_lem system no_time system-Stores lego expired renewed refl refl apart refl
