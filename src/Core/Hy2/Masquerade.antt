-- ===== src/Core/Hy2/Masquerade.antt =====
-- core/hy2/config.go: what a server of hysteria shows to a browser. `parse` is `url.Parse`; a handler
-- of `net/http` for a directory is named by its directory.
use v2b_x_turbo.Base.{
  >>=-eq-ok, ◌∙◌, is_some, ℤ, pos, String, Bool, true, false, not, Option, none, some, Result, ok,
  err, [], ◌∷◌, Map, store, atoi, is_int, split_host_port, lt_ℤ, string_eq, int_eq, ◌==◌, ◌>>=◌,
  ◌&&◌, ◌||◌, ◌≤ℤ◌, if◌then◌else◌, ◌≡◌, ◌≢◌, ◌⊎◌, sym, ap, subst, arith, Bool-cases, inl, inr, itoa,
  has_char,
}
use Prim.Native.String.{◌++◌}
use v2b_x_turbo.Core.Hy2.ServerConfig.{ServerConfigMasquerade, ServerConfigMasqueradeString}

-- `scheme` and `host` of a parsed address.
pub record Url : Type 0 where
  pub scheme : String
  pub host : String

pub data Handler : Type 0 where
  not_found : Handler
  file_server : String → Handler
  reverse_proxy : Url → Bool → Handler
  fixed : ServerConfigMasqueradeString → Handler

-- `masqHandlerLogWrapper`: the log apart, it serves as its handler.
pub record MasqHandler : Type 0 where
  pub handler : Handler
  pub quic : Bool

-- The parts of a request that the proxy rewrites. `forwarded_for` is the header `X-Forwarded-For`.
pub record Request : Type 0 where
  pub url : Url
  pub remote_addr : String
  pub forwarded_for : String
  pub host : String

-- The `Director` of the proxy.
unfoldable pub direct : Url → Bool → Request → Request
direct u rewrite_host req =
    let req = record req { url = u } in
    let req : Request = elim (split_host_port req.remote_addr) [
      | none ↦ req
      | some (client_ip, port) ↦ record req {
        forwarded_for =
            if req.forwarded_for == "" then client_ip else req.forwarded_for ++ ", " ++ client_ip;
      }
    ] in
    if rewrite_host then record req { host = req.url.host } else req

pub record Response : Type 0 where
  pub headers : Map String String
  pub status : ℤ
  pub body : String

set_headers : Map String String → Map String String → Map String String
set_headers [] headers = headers
set_headers ((k, v) ∷ more) headers = set_headers more (store k v headers)

-- The handler of a fixed text.
unfoldable pub respond : ServerConfigMasqueradeString → Response → Response
unfolding set_headers
respond c r = record {
  headers = set_headers c.headers r.headers;
  status = if c.status_code == pos 0 then pos 200 else c.status_code;
  body = r.body ++ c.content;
}

unfoldable pub extract_port_from_addr : String → ℤ
extract_port_from_addr addr = elim (split_host_port addr) [
  | none ↦ pos 0
  | some (host, port) ↦ if is_int port then atoi port else pos 0
]

-- `[ip]:port` where the address has a colon.
unfoldable pub format_address : String → ℤ → String
format_address ip port =
    if has_char 58 ip then "[" ++ ip ++ "]:" ++ itoa port else ip ++ ":" ++ itoa port

-- The arguments of `runMasqTCPServer`, whose certificates are those of the node.
pub record MasqTcpServer : Type 0 where
  pub quic_port : ℤ
  pub https_port : ℤ
  pub handler : MasqHandler
  pub force_https : Bool
  pub http_addr : String
  pub https_addr : String

module _ (to_lower : String → String) (parse : String → Result Url) where
  unfoldable pub masq_handler : ServerConfigMasquerade → Result Handler
  masq_handler c =
      let kind = to_lower c.kind in
      if kind == "" || kind == "404"
      then ok not_found
      else if kind == "file"
      then (if c.file.dir == ""
          then err "masquerade.file.dir empty file directory"
          else ok (file_server c.file.dir))
      else if kind == "proxy"
      then (if c.proxy.url == ""
          then err "masquerade.proxy.url empty proxy url"
          else elim (parse c.proxy.url) [
            | err m ↦ err ("masquerade.proxy.url " ++ m)
            | ok u ↦ ok (reverse_proxy u c.proxy.rewrite_host)
          ])
      else if kind == "string"
      then (if c.string.content == ""
          then err "masquerade.string.content empty string content"
          else if not (c.string.status_code == pos 0)
              && (lt_ℤ c.string.status_code (pos 200)
                  || lt_ℤ (pos 599) c.string.status_code
                  || c.string.status_code == pos 233)
          then err "masquerade.string.statusCode invalid status code (must be 200-599, except 233)"
          else ok (fixed c.string))
      else err "masquerade.type unsupported masquerade type"

  -- The handler, and the servers over TCP that are started. `local_addr` is that of the connection.
  unfoldable pub get_masq_handler :
      String → ServerConfigMasquerade → Result (MasqHandler × Option MasqTcpServer)
  unfolding masq_handler
  get_masq_handler local_addr c = do
    h ← masq_handler c
    if c.listen_http == "" && c.listen_https == ""
        then ok (record { handler = h; quic = true }, none)
        else if not (c.listen_http == "") && c.listen_https == ""
        then err "masquerade.listenHTTPS having only HTTP server without HTTPS is not supported"
        else ok (
          record { handler = h; quic = true },
          some (record {
            quic_port = extract_port_from_addr local_addr;
            https_port = extract_port_from_addr c.listen_https;
            handler = record { handler = h; quic = false };
            force_https = c.force_https;
            http_addr = c.listen_http;
            https_addr = c.listen_https;
          }),
        )

  masq_handler-fixed :
      (c : ServerConfigMasquerade) (text : ServerConfigMasqueradeString)
      → masq_handler c ≡ ok (fixed text)
      → (text ≡ c.string)
        × ((text.status_code ≡ pos 0)
            ⊎ ((pos 200 ≤ℤ text.status_code)
                × (text.status_code ≤ℤ pos 599)
                × (text.status_code ≢ pos 233)))
  unfolding masq_handler
  masq_handler-fixed c text h =
      let same : text ≡ c.string = ground arith in
      let code : ℤ = c.string.status_code in
      let status : (code ≡ pos 0) ⊎ ((pos 200 ≤ℤ code) × (code ≤ℤ pos 599) × (code ≢ pos 233)) =
        elim (Bool-cases (code == pos 0)) [
          | inl e ↦ inl (ground arith)
          | inr e ↦ inr (ground arith, ground arith, ground arith)
        ] in
      (
        same,
        subst
            (λ (t : ServerConfigMasqueradeString).
              (t.status_code ≡ pos 0)
              ⊎ ((pos 200 ≤ℤ t.status_code)
                  × (t.status_code ≤ℤ pos 599)
                  × (t.status_code ≢ pos 233)))
            (sym same) status,
      )

  -- A masquerade that is accepted and answers with a text takes it from the configuration, and
  -- answers only under a status from 200 to 599 other than 233, which hysteria keeps for its
  -- authentication. Servers over TCP are then started exactly when an address for HTTPS is configured.
  pub get_masq_handler-bounds :
      (local_addr : String) (c : ServerConfigMasquerade) (m : MasqHandler)
      (s : Option MasqTcpServer) (text : ServerConfigMasqueradeString) (r : Response)
      → get_masq_handler local_addr c ≡ ok (m, s)
      → m.handler ≡ fixed text
      → (text ≡ c.string)
        × (pos 200 ≤ℤ (respond text r).status)
        × ((respond text r).status ≤ℤ pos 599)
        × ((respond text r).status ≢ pos 233)
        × (is_some s ≡ not (c.listen_https == ""))
  unfolding get_masq_handler respond
  get_masq_handler-bounds local_addr c m s text r h e =
      let (k, made, rest) = >>=-eq-ok _ (masq_handler c) h in
      let (same, status) = masq_handler-fixed c text (made ∙ ap ok (ground arith)) in
      (
        same,
        elim status [ inl z ↦ ground arith | inr w ↦ ground arith ],
        elim status [ inl z ↦ ground arith | inr w ↦ ground arith ],
        elim status [ inl z ↦ ground arith | inr w ↦ ground arith ],
        ground arith,
      )
