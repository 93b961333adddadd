-- ===== src/Panel/Users.antt =====
-- api/panel/user.go: `GetUserList`, `GetUserAlive` and the two reports, behind the requests.
use v2b_x_turbo.Base.{
  ℤ, String, Bool, Option, none, some, Result, ok, err, List, [], Map, ◌||◌, is_some, leb, nat_eq,
  ◌==◌, if◌then◌else◌,
}
use v2b_x_turbo.Panel.Types.{UserInfo}
use v2b_x_turbo.Panel.Client.{Client, Response, check_response}
use Prim.Native.String.{◌++◌}

-- The fields of `Client` that are for users.
pub record UserClient : Type 0 where
  pub user_etag : String
  pub alive : Option (Map ℤ ℤ)

-- `decode` reads the users from a body, in MessagePack or in JSON; it gives `none` for a nil list, which
-- JSON without a user gives. A nil answer or a nil raw one is `none`.
unfoldable pub get_user_list :
    (String → String)
    → (Bool → String → Result (Option (List UserInfo)))
    → Client
    → Bool
    → Option Response
    → UserClient
    → Result (Option (List UserInfo)) × UserClient
unfolding check_response
get_user_list assemble decode c is_msgpack none u = (err "received nil response or raw response", u)
get_user_list assemble decode c is_msgpack (some r) u =
    if r.status == 304
    then (ok none, u)
    else elim (check_response assemble c r "/api/v1/server/UniProxy/user") [
      | some m ↦ (err m, u)
      | none ↦ elim (decode is_msgpack r.body) [
        | err m ↦ (err ("decode user list error: " ++ m), u)
        | ok us ↦ (ok us, record u { user_etag = r.etag })
      ]
    ]

-- `GetUserAlive` answers no error; `decode` gives `none` where the text has no map. A failed request
-- and a body that is not decoded give the empty map.
unfoldable pub get_user_alive :
    (String → Result (Option (Map ℤ ℤ))) → Response → UserClient → Option (Map ℤ ℤ) × UserClient
get_user_alive decode r u =
    let alive : Option (Map ℤ ℤ) =
      if is_some r.error || leb 399 r.status
      then some []
      else elim (decode r.body) [ err m ↦ some [] | ok m ↦ m ] in
    (alive, record u { alive = alive })

-- `ReportUserTraffic`, behind the answer to its body.
unfoldable pub report_user_traffic : (String → String) → Client → Response → Option String
unfolding check_response
report_user_traffic assemble c r = check_response assemble c r "/api/v1/server/UniProxy/push"

-- `ReportNodeOnlineUsers` swallows the error.
unfoldable pub report_node_online_users : (String → String) → Client → Response → Option String
report_node_online_users assemble c r = none
