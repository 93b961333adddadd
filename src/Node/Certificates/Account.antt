-- ===== src/Node/Certificates/Account.antt =====
-- node/lego.go: `User`, the account at the authority, with its key in a file.
use v2b_x_turbo.Base.{
  Bool, String, Option, none, some, Result, ok, err, string_eq, ◌==◌, if◌then◌else◌,
}
use v2b_x_turbo.Node.Certificates.System.{
  Run, ◌>>=◌, ◌>>◌, return, call, ask, try, label, System, StoredUser, is_exist,
}

pub record User (Key Reg : Type 0) : Type 0 where
  pub email : String
  pub registration : Option Reg
  pub key : Option Key
  pub key_encoded : String

abbrev pub new_user : {Key Reg : Type 0} → String → User Key Reg
new_user email = record { email = email; registration = none; key = none; key_encoded = "" }

module _ {W Key Reg Client Provider Cert : Type 0}
    (sys : System W Key Reg Client Provider Cert) where
  unfoldable pub exists : String → W → Bool
  unfolding is_exist
  exists path w = is_exist (sys.stat path w)

  unfoldable pub check_path : String → Run W (Unit {0})
  unfolding exists
  check_path p w =
      if exists (sys.dir p) w
      then some (ok tt, w)
      else label "create dir error: " (try (sys.mkdir_all (sys.dir p))) w

  unfoldable pub encode_private : Key → Result String
  encode_private k = elim (sys.marshal_key k) [ err m ↦ err m | ok t ↦ ok (sys.pem_encode t) ]

  -- A text that is no PEM panics.
  unfoldable pub decode_private : String → Run W Key
  decode_private text w = elim (sys.pem_decode text) [
    | none ↦ none
    | some b ↦ some (sys.parse_key b, w)
  ]

  -- The error of `EncodePrivate` is dropped; its text is then empty.
  abbrev pub encoded : Result String → String
  encoded (ok t) = t
  encoded (err m) = ""

  unfoldable pub write_stored : String → StoredUser Reg → Run W (Unit {0})
  write_stored path u =
      label "marshal json error: " (do json ← ask (λ w. sys.encode u); try (sys.write path json))

  -- `Save`, for a user with a key; without one it panics.
  unfoldable pub save : String → User Key Reg → Run W (User Key Reg)
  unfolding check_path encode_private write_stored
  save path u = do
    label "check path error: " (check_path path)
    key ← (λ w. elim u.key [ none ↦ none | some k ↦ some (ok k, w) ])
    let text = encoded (encode_private key)
    try (sys.open_truncate path)
    write_stored path
        (record { email = u.email; registration = u.registration; key_encoded = text })
    return (record u { key_encoded = "" })

  -- `Load`, into a new user.
  unfoldable pub load : String → Run W (User Key Reg)
  unfolding decode_private
  load path = do
    text ← label "open file error: " (ask (sys.read_file path))
    stored ← label "unmarshal json error: " (ask (λ w. sys.decode text))
    key ← label "decode private key error: " (decode_private stored.key_encoded)
    return (record {
      email = stored.email;
      registration = stored.registration;
      key = some key;
      key_encoded = stored.key_encoded;
    })

  unfoldable pub register_user : User Key Reg → String → Run W (User Key Reg)
  unfolding save
  register_user u path = do
    key ← label "generate key error: " (call sys.generate_key)
    client ←
        label "create lego client error: " (call (sys.new_client u.email u.registration (some key)))
    reg ← call (sys.register client)
    label "save user error: " (save path (record u { registration = some reg; key = some key }))

  -- `NewLegoUser`: the account of the file if it is that of the email, else a new one.
  unfoldable pub new_lego_user : String → String → Run W (User Key Reg)
  unfolding load register_user exists
  new_lego_user path email w =
      if exists path w
      then (load path >>= λ u w'.
            if u.email == email
            then return u w'
            else register_user (record u { registration = none; email = email }) path w')
          w
      else register_user (new_user email) path w
