-- ===== src/Core/Hy2/Outbounds.antt =====
-- core/hy2: the outbound of a server, from config.go and serverConfig.go. The outbounds of hysteria
-- are of a type `Ob`, with its constructors and the ACL engine as parameters; so is `to_lower`,
-- which is `strings.ToLower`, and `parse_ip`, whose `none` is no address.
pub mod Chain
use v2b_x_turbo.Base.{
  ℤ, String, Bool, true, false, not, Option, is_some, Result, ok, err, List, [], ◌∷◌, string_eq,
  ◌==◌, ◌>>=◌, ◌&&◌, ◌||◌, if◌then◌else◌,
}
use Prim.Native.String.{◌++◌}
use v2b_x_turbo.Core.Hy2.ServerConfig.{
  ServerConfig, ServerConfigOutboundDirect, ServerConfigOutboundSocks5, ServerConfigOutboundHttp,
  ServerConfigOutboundEntry, ServerConfigAcl, ServerConfigResolver,
}

pub data DirectOutboundMode : Type 0 where
  auto : DirectOutboundMode
  mode_64 : DirectOutboundMode
  mode_46 : DirectOutboundMode
  mode_6 : DirectOutboundMode
  mode_4 : DirectOutboundMode

pub record OutboundEntry (Ob : Type 0) : Type 0 where
  pub name : String
  pub outbound : Ob

pub record GeoLoader : Type 0 where
  pub geo_ip_filename : String
  pub geo_site_filename : String
  pub update_interval : ℤ

-- The package `outbounds` of hysteria.
pub record Outbounds (Ob Ip : Type 0) : Type 0 where
  pub direct_simple : DirectOutboundMode → Ob
  pub direct_bind_to_ips : DirectOutboundMode → Option Ip → Option Ip → Result Ob
  pub direct_bind_to_device : DirectOutboundMode → String → Result Ob
  pub socks5 : String → String → String → Ob
  pub http : String → Bool → Result Ob
  pub acl_from_file : String → List (OutboundEntry Ob) → GeoLoader → Result Ob
  pub acl_from_string : String → List (OutboundEntry Ob) → GeoLoader → Result Ob
  pub system_resolver : Ob → Ob
  pub resolver_tcp : String → ℤ → Ob → Ob
  pub resolver_udp : String → ℤ → Ob → Ob
  pub resolver_tls : String → ℤ → String → Bool → Ob → Ob
  pub doh_resolver : String → ℤ → String → Bool → Ob → Ob

abbrev is_set : String → Bool
is_set s = not (s == "")

-- `strings.Join(lines, "\n")`
unfoldable pub join_lines : List String → String
join_lines [] = ""
join_lines (l ∷ []) = l
join_lines (l ∷ m ∷ ls) = l ++ "\n" ++ join_lines (m ∷ ls)

unfoldable pub direct_mode : String → Result DirectOutboundMode
direct_mode m =
    if m == "" || m == "auto"
    then ok auto
    else if m == "64"
    then ok mode_64
    else if m == "46"
    then ok mode_46
    else if m == "6"
    then ok mode_6
    else if m == "4"
    then ok mode_4
    else err "outbounds.direct.mode unsupported mode"

module _ {Ob Ip : Type 0} (to_lower : String → String) (parse_ip : String → Option Ip)
    (obs : Outbounds Ob Ip) where
  -- Either address may be IPv4 or IPv6: `net.ParseIP` reads both.
  unfoldable pub direct_to_outbound : ServerConfigOutboundDirect → Result Ob
  unfolding direct_mode
  direct_to_outbound c = do
    mode ← direct_mode (to_lower c.mode)
    let bind_ip = is_set c.bind_ipv4 || is_set c.bind_ipv6
    if bind_ip && is_set c.bind_device
        then err "outbounds.direct cannot bind both IP and device"
        else if bind_ip
        then (let ip4 = parse_ip c.bind_ipv4 in
            let ip6 = parse_ip c.bind_ipv6 in
            if is_set c.bind_ipv4 && not (is_some ip4)
            then err "outbounds.direct.bindIPv4 invalid IPv4 address"
            else if is_set c.bind_ipv6 && not (is_some ip6)
            then err "outbounds.direct.bindIPv6 invalid IPv6 address"
            else obs.direct_bind_to_ips mode ip4 ip6)
        else if is_set c.bind_device
        then obs.direct_bind_to_device mode c.bind_device
        else ok (obs.direct_simple mode)

  unfoldable pub socks5_to_outbound : ServerConfigOutboundSocks5 → Result Ob
  socks5_to_outbound c =
      if c.addr == ""
      then err "outbounds.socks5.addr empty socks5 address"
      else ok (obs.socks5 c.addr c.username c.password)

  unfoldable pub http_to_outbound : ServerConfigOutboundHttp → Result Ob
  http_to_outbound c =
      if c.url == "" then err "outbounds.http.url empty http address" else obs.http c.url c.insecure

  -- One round of the loop over the configured outbounds.
  unfoldable pub entry_to_outbound : ServerConfigOutboundEntry → Result (OutboundEntry Ob)
  unfolding direct_to_outbound socks5_to_outbound http_to_outbound
  entry_to_outbound e = if e.name == "" then err "empty outbound name" else do
    let kind = to_lower e.kind
    ob ←
        if kind == "direct"
        then direct_to_outbound e.direct
        else if kind == "socks5"
        then socks5_to_outbound e.socks5
        else if kind == "http"
        then http_to_outbound e.http
        else err "outbounds.type unsupported outbound type"
    ok (record { name = e.name; outbound = ob })

  unfoldable pub entries : List ServerConfigOutboundEntry → Result (List (OutboundEntry Ob))
  unfolding entry_to_outbound
  entries [] = ok []
  entries (e ∷ es) = do o ← entry_to_outbound e; os ← entries es; ok (o ∷ os)

  -- With none configured there is the direct one.
  unfoldable pub all_outbounds : List ServerConfigOutboundEntry → Result (List (OutboundEntry Ob))
  unfolding entries
  all_outbounds [] = ok (record { name = "default"; outbound = obs.direct_simple auto } ∷ [])
  all_outbounds (e ∷ es) = entries (e ∷ es)

  -- `obs[0]`, which is there; the test of a nil slice has no part in the code.
  first_outbound : List (OutboundEntry Ob) → Result Ob
  first_outbound [] = err "index out of range"
  first_outbound (o ∷ os) = ok o.outbound

  -- The unified outbound, and whether it is an ACL.
  unfoldable pub acl_outbound : ServerConfigAcl → List (OutboundEntry Ob) → Result (Bool × Ob)
  unfolding first_outbound join_lines
  acl_outbound c os =
      let loader : GeoLoader = record {
        geo_ip_filename = c.geo_ip;
        geo_site_filename = c.geo_site;
        update_interval = c.geo_update_interval;
      } in
      if is_set c.file
      then (elim c.inline [
        | l ∷ ls ↦ err "cannot set both acl.file and acl.inline"
        | [] ↦ do ob ← obs.acl_from_file c.file os loader; ok (true, ob)
      ])
      else elim c.inline [
        | l ∷ ls ↦ do ob ← obs.acl_from_string (join_lines (l ∷ ls)) os loader; ok (true, ob)
        | [] ↦ do ob ← first_outbound os; ok (false, ob)
      ]

  unfoldable pub resolve : ServerConfigResolver → Bool → Ob → Result Ob
  resolve c has_acl ob =
      let kind = to_lower c.kind in
      if kind == "" || kind == "system"
      then ok (if has_acl then obs.system_resolver ob else ob)
      else if kind == "tcp"
      then (if c.tcp.addr == ""
          then err "empty resolver address"
          else ok (obs.resolver_tcp c.tcp.addr c.tcp.timeout ob))
      else if kind == "udp"
      then (if c.udp.addr == ""
          then err "empty resolver address"
          else ok (obs.resolver_udp c.udp.addr c.udp.timeout ob))
      else if kind == "tls" || kind == "tcp-tls"
      then (if c.tls.addr == ""
          then err "empty resolver address"
          else ok (obs.resolver_tls c.tls.addr c.tls.timeout c.tls.sni c.tls.insecure ob))
      else if kind == "https" || kind == "http"
      then (if c.https.addr == ""
          then err "empty resolver address"
          else ok (obs.doh_resolver c.https.addr c.https.timeout c.https.sni c.https.insecure ob))
      else err "unsupported resolver type"

  unfoldable pub get_outbound_config : ServerConfig → Result Ob
  unfolding all_outbounds acl_outbound resolve
  get_outbound_config c = do
    os ← all_outbounds c.outbounds
    (has_acl, ob) ← acl_outbound c.acl os
    resolve c.resolver has_acl ob
