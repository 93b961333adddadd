-- ===== src/Core/Hy2/Outbounds/Chain.antt =====
-- The chain Resolver(ACL(outbounds)) that `getOutboundConfig` of core/hy2 builds.
use v2b_x_turbo.Base.{
  ℤ, String, Bool, true, false, not, Option, Result, ok, err, if◌then◌else◌, List, [], ◌∷◌,
  string_eq, ◌==◌, ◌||◌, ◌≡◌, ◌≢◌, ◌⊎◌,
}
use v2b_x_turbo.Core.Hy2.ServerConfig.{
  ServerConfig, ServerConfigOutboundEntry, ServerConfigAcl, ServerConfigResolver,
}
use v2b_x_turbo.Core.Hy2.Outbounds.{
  auto, join_lines, GeoLoader, direct_to_outbound, socks5_to_outbound, http_to_outbound,
  OutboundEntry, Outbounds, resolve,
}

-- Whether rules are configured, in a file or in the configuration itself.
abbrev pub uses_acl : ServerConfigAcl → Bool
uses_acl c = not (c.file == "") || elim c.inline [ [] ↦ false | l ∷ ls ↦ true ]

module _ {Ob Ip : Type 0} (to_lower : String → String) (parse_ip : String → Option Ip)
    (obs : Outbounds Ob Ip) where
  -- An outbound with a resolver in front of another one.
  pub data IsResolved (inner : Ob) : Ob → Type 0 where
    by_system : (ob : Ob) → ob ≡ obs.system_resolver inner → IsResolved inner ob
    by_tcp : (a : String) (t : ℤ) (ob : Ob) → ob ≡ obs.resolver_tcp a t inner → IsResolved inner ob
    by_udp : (a : String) (t : ℤ) (ob : Ob) → ob ≡ obs.resolver_udp a t inner → IsResolved inner ob
    by_tls :
        (a : String) (t : ℤ) (s : String) (b : Bool) (ob : Ob)
        → ob ≡ obs.resolver_tls a t s b inner
        → IsResolved inner ob
    by_https :
        (a : String) (t : ℤ) (s : String) (b : Bool) (ob : Ob)
        → ob ≡ obs.doh_resolver a t s b inner
        → IsResolved inner ob

  -- What an entry of the configuration asks for, by its type.
  pub data Asks (e : ServerConfigOutboundEntry) : Ob → Type 0 where
    asks_direct :
        (ob : Ob)
        → to_lower e.kind ≡ "direct"
        → direct_to_outbound to_lower parse_ip obs e.direct ≡ ok ob
        → Asks e ob
    asks_socks5 :
        to_lower e.kind ≡ "socks5"
        → e.socks5.addr ≢ ""
        → Asks e (obs.socks5 e.socks5.addr e.socks5.username e.socks5.password)
    asks_http :
        (ob : Ob)
        → to_lower e.kind ≡ "http"
        → e.http.url ≢ ""
        → obs.http e.http.url e.http.insecure ≡ ok ob
        → Asks e ob

  -- An outbound for each entry, in their order, under its name.
  abbrev pub Made : List ServerConfigOutboundEntry → List (OutboundEntry Ob) → Type 0
  Made [] [] = Unit
  Made [] (o ∷ os) = ⊥
  Made (e ∷ es) [] = ⊥
  Made (e ∷ es) (o ∷ os) = (e.name ≢ "") × (o.name ≡ e.name) × Asks e o.outbound × Made es os

  -- The one outbound of a configuration that has none.
  abbrev pub IsMade : List ServerConfigOutboundEntry → List (OutboundEntry Ob) → Type 0
  IsMade [] os = os ≡ record { name = "default"; outbound = obs.direct_simple auto } ∷ []
  IsMade (e ∷ es) os = Made (e ∷ es) os

  abbrev pub loader_of : ServerConfigAcl → GeoLoader
  loader_of c = record {
    geo_ip_filename = c.geo_ip;
    geo_site_filename = c.geo_site;
    update_interval = c.geo_update_interval;
  }

  -- The rules over all of the outbounds, in a file or in the configuration itself.
  abbrev pub RuledBy : ServerConfigAcl → List (OutboundEntry Ob) → Ob → Type 0
  RuledBy c os ob =
      (c.file ≢ "") × (c.inline ≡ []) × (obs.acl_from_file c.file os (loader_of c) ≡ ok ob)
      ⊎ (c.file ≡ "")
        × (c.inline ≢ [])
        × (obs.acl_from_string (join_lines c.inline) os (loader_of c) ≡ ok ob)

  -- The outbound of the server, with rules and without.
  abbrev pub Serves : ServerConfigAcl → ServerConfigResolver → List (OutboundEntry Ob) → Ob → Type 0
  Serves acl resolver os ob =
      (uses_acl acl ≡ true) × ((inner : Ob) × RuledBy acl os inner × IsResolved inner ob)
      ⊎ (uses_acl acl ≡ false)
        × ((o : OutboundEntry Ob) × (rest : List (OutboundEntry Ob)) × (os ≡ o ∷ rest)
            × (resolve to_lower parse_ip obs resolver false o.outbound ≡ ok ob))

  -- The outbound that the type of an entry chooses.
  abbrev chosen : ServerConfigOutboundEntry → Result Ob
  chosen e =
      if to_lower e.kind == "direct"
      then direct_to_outbound to_lower parse_ip obs e.direct
      else if to_lower e.kind == "socks5"
      then socks5_to_outbound to_lower parse_ip obs e.socks5
      else if to_lower e.kind == "http"
      then http_to_outbound to_lower parse_ip obs e.http
      else err "outbounds.type unsupported outbound type"
