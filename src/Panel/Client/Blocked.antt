-- ===== src/Panel/Client/Blocked.antt =====
-- Which rules come out of the routes of a node.
use mathlib.Core.List.{append-nil, append_assoc}
use v2b_x_turbo.Base.{
  ℕ, ◌+◌, String, some, List, [], ◌∷◌, ◌++◌, snoc, or_else, string_eq, ◌==◌, if◌then◌else◌,
  has_prefix, trim_prefix, ◌≡◌, sym, ap, ◌∙◌, arith, Bool-cases, Option-cases, inl, inr,
}
use v2b_x_turbo.Panel.Types.{Rules, RawDns, Route, NodeInfo}
use v2b_x_turbo.Panel.Config.{Params, matches_of, block, route, all_routes}
use v2b_x_turbo.Panel.Client.{Client, complete}

-- The protocols among the entries of a rule, and the expressions: all other entries.
unfoldable pub protocols_in : List String → List String
protocols_in [] = []
protocols_in (v ∷ vs) =
    if has_prefix v "protocol:"
    then trim_prefix v "protocol:" ∷ protocols_in vs
    else protocols_in vs

unfoldable pub regexps_in : List String → List String
regexps_in [] = []
regexps_in (v ∷ vs) =
    if has_prefix v "protocol:" then regexps_in vs else trim_prefix v "regexp:" ∷ regexps_in vs

-- The entries of a route that blocks; none of another.
unfoldable pub entries : Route → List String
entries r = if r.action == "block" then or_else [] (matches_of r.match) else []

-- The entries of all routes, in order, each route's read by `f`.
unfoldable pub collect : (List String → List String) → List Route → List String
unfolding entries
collect f [] = []
collect f (r ∷ rs) = f (entries r) ++ collect f rs

block_lem :
    (vs : List String) (rules : Rules)
    → ((block vs rules).protocol ≡ rules.protocol ++ protocols_in vs)
      × ((block vs rules).regexp ≡ rules.regexp ++ regexps_in vs)
unfolding block protocols_in regexps_in
block_lem [] rules = (sym (append-nil rules.protocol), sym (append-nil rules.regexp))
block_lem (v ∷ vs) rules = elim (Bool-cases (has_prefix v "protocol:")) [
  | inl is ↦
      let ih =
        block_lem vs
          (record rules { protocol = snoc rules.protocol (trim_prefix v "protocol:") }) in
      rw (is, block) (ih.0 ∙ append_assoc rules.protocol _ _, ih.1)
  | inr not_is ↦
      let ih =
        block_lem vs (record rules { regexp = snoc rules.regexp (trim_prefix v "regexp:") }) in
      rw (not_is, block) (ih.0, ih.1 ∙ append_assoc rules.regexp _ _)
]

route_lem :
    (i : ℕ) (r : Route) (rules rules' : Rules) (raw raw' : RawDns)
    → route i r (rules, raw) ≡ some (rules', raw')
    → (rules'.protocol ≡ rules.protocol ++ protocols_in (entries r))
      × (rules'.regexp ≡ rules.regexp ++ regexps_in (entries r))
unfolding route entries protocols_in regexps_in
route_lem i r rules rules' raw raw' h = elim (Option-cases (matches_of r.match)) [
  | inl unread ↦ absurd (ground arith)
  | inr (ms, read) ↦
      let b = block_lem ms rules in
      let p = append-nil rules.protocol in
      let x = append-nil rules.regexp in (ground (arith, b.0, p), ground (arith, b.1, x))
]

all_routes_lem :
    (i : ℕ) (rs : List Route) (rules rules' : Rules) (raw raw' : RawDns)
    → all_routes i rs (rules, raw) ≡ some (rules', raw')
    → (rules'.protocol ≡ rules.protocol ++ collect protocols_in rs)
      × (rules'.regexp ≡ rules.regexp ++ collect regexps_in rs)
unfolding all_routes collect
all_routes_lem i [] rules rules' raw raw' h =
    (ground (arith, append-nil rules.protocol), ground (arith, append-nil rules.regexp))
all_routes_lem i (r ∷ rs) rules rules' raw raw' h = elim (Option-cases (route i r (rules, raw))) [
  | inl bad ↦ absurd (ground arith)
  | inr ((mid, raw_mid), e) ↦
      let one = route_lem i r rules mid raw raw_mid e in
      let ih = all_routes_lem (i + 1) rs mid rules' raw_mid raw' (ground arith) in
      (
        ih.0 ∙ ap (λ l. l ++ collect protocols_in rs) one.0 ∙ append_assoc rules.protocol _ _,
        ih.1 ∙ ap (λ l. l ++ collect regexps_in rs) one.1 ∙ append_assoc rules.regexp _ _,
      )
]

-- The rules of a node are the entries of its blocking routes, in order: those behind `protocol:`
-- without that prefix as protocols, and every other one, without a prefix `regexp:`, as expressions.
pub rules-complete :
    (c : Client) (p : Params) (node : NodeInfo)
    → complete c p ≡ some node
    → (node.rules.protocol ≡ collect protocols_in p.common.routes)
      × (node.rules.regexp ≡ collect regexps_in p.common.routes)
unfolding complete
rules-complete c p node h =
    elim (Option-cases (
      all_routes 0 p.common.routes
        (record { regexp = []; protocol = [] }, record { dns_map = []; dns_json = "" }))) [
          | inl bad ↦ absurd (ground arith)
          | inr ((rules, raw), e) ↦
              let all = all_routes_lem 0 p.common.routes _ rules _ raw e in
              let same : node.rules ≡ rules = ground arith in rw same all
        ]
