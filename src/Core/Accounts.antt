-- ===== src/Core/Accounts.antt =====
-- core/xray/vmess.go, trojan.go and ss.go: the users that the inbounds of xray-core take. A
-- `serial.ToTypedMessage` keeps the account that it is given.
use v2b_x_turbo.Base.{
  ℕ, String, Option, none, some, List, [], ◌∷◌, map, string_eq, ◌==◌, ◌||◌, if◌then◌else◌,
}
use v2b_x_turbo.Format.{user_tag}
use v2b_x_turbo.Panel.Types.{UserInfo}
use v2b_x_turbo.Core.Sing.{prefix}

pub data CipherType : Type 0 where
  aes_128_gcm : CipherType
  aes_256_gcm : CipherType
  chacha20_poly1305 : CipherType
  no_cipher : CipherType
  unknown : CipherType

pub data Account : Type 0 where
  vmess : (id security : String) → Account
  vless : (id flow : String) → Account
  trojan : (password : String) → Account
  shadowsocks : (password : String) → CipherType → Account
  shadowsocks_2022 : (key : String) → Account

-- A `protocol.User`; its level is 0.
pub record User : Type 0 where
  pub email : String
  pub account : Account

unfoldable pub build_vmess_user : String → UserInfo → User
build_vmess_user tag u = record { email = user_tag tag u.uuid; account = vmess u.uuid "auto" }

unfoldable pub build_vless_user : String → String → UserInfo → User
build_vless_user tag flow u = record { email = user_tag tag u.uuid; account = vless u.uuid flow }

unfoldable pub build_trojan_user : String → UserInfo → User
build_trojan_user tag u = record { email = user_tag tag u.uuid; account = trojan u.uuid }

-- `lower` is `strings.ToLower`.
unfoldable pub get_cipher_from_string : (String → String) → String → CipherType
get_cipher_from_string lower c =
    let s = lower c in
    if s == "aes-128-gcm" || s == "aead_aes_128_gcm"
    then aes_128_gcm
    else if s == "aes-256-gcm" || s == "aead_aes_256_gcm"
    then aes_256_gcm
    else if s == "chacha20-poly1305"
        || (s == "aead_chacha20_poly1305" || s == "chacha20-ietf-poly1305")
    then chacha20_poly1305
    else if s == "none" || s == "plain"
    then no_cipher
    else unknown

unfoldable pub key_length : String → ℕ
key_length cipher =
    if cipher == "2022-blake3-aes-128-gcm"
    then 16
    else if cipher == "2022-blake3-aes-256-gcm"
    then 32
    else if cipher == "2022-blake3-chacha20-poly1305"
    then 32
    else 0

module _ (lower base64 : String → String) where
  -- A UUID that is shorter than the key panics: `none`. `base64` is the standard encoding.
  unfoldable pub build_ss_user : String → String → String → UserInfo → Option User
  unfolding get_cipher_from_string key_length prefix
  build_ss_user tag cipher server_key u =
      if server_key == ""
      then some (record {
        email = user_tag tag u.uuid;
        account = shadowsocks u.uuid (get_cipher_from_string lower cipher);
      })
      else elim (prefix (key_length cipher) u.uuid) [
        | none ↦ none
        | some key ↦
            some (record { email = user_tag tag u.uuid; account = shadowsocks_2022 (base64 key) })
      ]

  unfoldable pub build_ss_users : String → String → String → List UserInfo → Option (List User)
  unfolding build_ss_user
  build_ss_users tag cipher server_key [] = some []
  build_ss_users tag cipher server_key (u ∷ us) = elim (build_ss_user tag cipher server_key u) [
    | none ↦ none
    | some x ↦ elim (build_ss_users tag cipher server_key us) [
      | none ↦ none
      | some xs ↦ some (x ∷ xs)
    ]
  ]

unfoldable pub build_vmess_users : String → List UserInfo → List User
unfolding build_vmess_user
build_vmess_users tag us = map (build_vmess_user tag) us

unfoldable pub build_vless_users : String → String → List UserInfo → List User
unfolding build_vless_user
build_vless_users tag flow us = map (build_vless_user tag flow) us

unfoldable pub build_trojan_users : String → List UserInfo → List User
unfolding build_trojan_user
build_trojan_users tag us = map (build_trojan_user tag) us
