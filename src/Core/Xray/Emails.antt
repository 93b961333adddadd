-- ===== src/Core/Xray/Emails.antt =====
-- Under which names core/xray enters its users.
use v2b_x_turbo.Base.{
  String, some, ok, List, [], ◌∷◌, map, ◌==◌, string_eq, ◌≡◌, refl, arith, Option-cases, Bool-cases,
  inl, inr,
}
use v2b_x_turbo.Format.{user_tag}
use v2b_x_turbo.Panel.Types.{UserInfo, Protocol, vallss, shadowsocks}
use v2b_x_turbo.Core.Interface.{AddUsersParams}
use v2b_x_turbo.Core.Accounts.{
  User, build_vmess_user, build_vless_user, build_trojan_user, build_vmess_users, build_vless_users,
  build_trojan_users, build_ss_user, build_ss_users,
}
use v2b_x_turbo.Core.Xray.{vless_users, ss_users, build_users}

abbrev pub names : String → List UserInfo → List String
names tag [] = []
names tag (u ∷ us) = user_tag tag u.uuid ∷ names tag us

abbrev pub emails : List User → List String
emails [] = []
emails (x ∷ xs) = x.email ∷ emails xs

email-build_ss_user :
    (lower base64 : String → String) (tag cipher server_key : String) (u : UserInfo) (x : User)
    → build_ss_user lower base64 tag cipher server_key u ≡ some x
    → x.email ≡ user_tag tag u.uuid
unfolding build_ss_user
email-build_ss_user lower base64 tag cipher server_key u x e = ground arith

emails-build_ss_users :
    (lower base64 : String → String) (tag cipher server_key : String) (us : List UserInfo)
    (xs : List User)
    → build_ss_users lower base64 tag cipher server_key us ≡ some xs
    → emails xs ≡ names tag us
unfolding build_ss_users
emails-build_ss_users lower base64 tag cipher server_key [] xs e = ground arith
emails-build_ss_users lower base64 tag cipher server_key (u ∷ us) xs e =
    elim (Option-cases (build_ss_user lower base64 tag cipher server_key u)) [
      | inl f ↦ ground arith
      | inr (y, f) ↦ elim (Option-cases (build_ss_users lower base64 tag cipher server_key us)) [
        | inl g ↦ ground arith
        | inr (ys, g) ↦ ground (
          arith,
          email-build_ss_user lower base64 tag cipher server_key u y f,
          emails-build_ss_users lower base64 tag cipher server_key us ys g,
        )
      ]
    ]

emails-map :
    (f : UserInfo → User) (tag : String) (us : List UserInfo)
    → ((u : UserInfo) → (f u).email ≡ user_tag tag u.uuid)
    → emails (map f us) ≡ names tag us
emails-map f tag [] h = refl
emails-map f tag (u ∷ us) h = ground (arith, h u, emails-map f tag us h)

emails-vless_users :
    (tag : String) (us : List UserInfo) (p : Protocol) (xs : List User)
    → vless_users tag us p ≡ some xs
    → emails xs ≡ names tag us
unfolding vless_users build_vless_users build_vless_user
emails-vless_users tag us (vallss n) xs e =
    ground (arith, emails-map (build_vless_user tag n.flow) tag us (λ u. refl))
emails-vless_users tag us _ xs e = absurd (ground arith)

emails-ss_users :
    (lower base64 : String → String) (tag : String) (us : List UserInfo) (p : Protocol)
    (xs : List User)
    → ss_users lower base64 tag us p ≡ some xs
    → emails xs ≡ names tag us
unfolding ss_users
emails-ss_users lower base64 tag us (shadowsocks n) xs e =
    emails-build_ss_users lower base64 tag n.cipher n.server_key us xs e
emails-ss_users lower base64 tag us _ xs e = absurd (ground arith)

-- Whatever the type of the node: each user that the core enters in the inbound has the name under
-- which the limiter of the node knows it, in the order of the list.
pub emails-build_users :
    (lower base64 : String → String) (p : AddUsersParams) (xs : List User)
    → build_users lower base64 p ≡ some (ok xs)
    → emails xs ≡ names p.tag p.users
unfolding build_users build_vmess_users build_trojan_users build_vmess_user build_trojan_user
emails-build_users lower base64 p xs e = elim (Bool-cases (p.node_info.kind == "vmess")) [
  | inl a ↦ ground (arith, emails-map (build_vmess_user p.tag) p.tag p.users (λ u. refl))
  | inr a ↦ elim (Bool-cases (p.node_info.kind == "vless")) [
    | inl b ↦ elim (Option-cases (vless_users p.tag p.users p.node_info.protocol)) [
      | inl f ↦ absurd (ground arith)
      | inr (ys, f) ↦ ground (arith, emails-vless_users p.tag p.users p.node_info.protocol ys f)
    ]
    | inr b ↦ elim (Bool-cases (p.node_info.kind == "trojan")) [
      | inl c ↦ ground (arith, emails-map (build_trojan_user p.tag) p.tag p.users (λ u. refl))
      | inr c ↦ elim (Option-cases (ss_users lower base64 p.tag p.users p.node_info.protocol)) [
        | inl f ↦ absurd (ground arith)
        | inr (ys, f) ↦
            ground (arith, emails-ss_users lower base64 p.tag p.users p.node_info.protocol ys f)
      ]
    ]
  ]
]
