-- ===== src/Core/Dispatcher/Routing.antt =====
-- core/xray/app/dispatcher/default.go: `routedDispatch`, with the rules that this repository puts into
-- it. The managers and the router of xray-core are parameters: `get_handler`, `default` and the route.
use Prim.Native.String.{◌++◌}
use v2b_x_turbo.Base.{
  ℕ, String, Bool, false, not, Option, none, some, ok, err, get_elem?, string_eq, ◌==◌, ◌&&◌, ◌||◌,
  if◌then◌else◌,
}
use v2b_x_turbo.Limiter.Types.{Limiter}
use v2b_x_turbo.Limiter.Registry.{Limiters, get_limiter}
use v2b_x_turbo.Limiter.Rules.{check_domain_rule, check_protocol_rule}
use v2b_x_turbo.Core.Dispatcher.{interrupts, emit}
use v2b_x_turbo.Core.Dispatcher.Dispatch.{Link, Inbound, Dispatching, close_writer}

-- How `routedDispatch` chose the handler.
pub data Pick : Type 0 where
  fallback : Pick
  forced : Pick
  routed : Pick

-- The detour that the access message gets, if any.
unfoldable pub detour : {H : Type 0} → (H → String) → String → H × Pick → Option String
detour tag_of in_tag (h, pick) =
    if tag_of h == ""
    then none
    else if in_tag == ""
    then some (tag_of h)
    else some (elim pick [
      | forced ↦ in_tag ++ " ==> " ++ tag_of h
      | routed ↦ in_tag ++ " -> " ++ tag_of h
      | fallback ↦ in_tag ++ " >> " ++ tag_of h
    ])

module _ {H : Type 0} (get_handler : String → Option H) (default : Option H) where
  -- The outbound handler: that of the forced tag, of the router's route, or the default one. A tag
  -- that is asked for and has no handler ends the connection; `route` is the tag of the picked route,
  -- `none` if there is no router or no route.
  unfoldable pub choose : String → Option String → Option (H × Pick)
  choose forced_tag route =
      if not (forced_tag == "")
      then (elim (get_handler forced_tag) [ none ↦ none | some h ↦ some (h, forced) ])
      else (elim route [
        | some tag ↦ elim (get_handler tag) [ none ↦ none | some h ↦ some (h, routed) ]
        | none ↦ elim default [ none ↦ none | some h ↦ some (h, fallback) ]
      ])

module _ {Regex Bucket H : Type 0} (matches : Regex → String → Bool)
    (get_handler : String → Option H) (default : Option H) where
  -- The limiter that is given, or that of the tag if there is one.
  unfoldable pub rules_limiter :
      Option ℕ → String → Limiters Regex Bucket → Option (Limiter Regex Bucket)
  rules_limiter (some k) tag ls = get_elem? ls.objects k
  rules_limiter none tag ls = elim (get_limiter tag ls) [
    | err e ↦ none
    | ok k ↦ get_elem? ls.objects k
  ]

  -- The rules are for a session with a user, even one with no email. A call with no session is not
  -- modelled: it panics.
  unfoldable pub is_blocked : Option ℕ → Inbound → String → String → Limiters Regex Bucket → Bool
  unfolding rules_limiter check_domain_rule check_protocol_rule
  is_blocked l i destination protocol ls = elim i.email [
    | none ↦ false
    | some e ↦ elim (rules_limiter l i.tag ls) [
      | none ↦ false
      | some x ↦
          check_domain_rule matches destination x
          || not (protocol == "") && check_protocol_rule protocol x
    ]
  ]

  -- The handler that the link is given to; `none` if it is closed instead.
  unfoldable pub routed_dispatch :
      Link Bucket
      → Option ℕ
      → Inbound
      → String
      → String
      → String
      → Option String
      → Dispatching Regex Bucket
      → Option (H × Pick) × Dispatching Regex Bucket
  unfolding is_blocked choose close_writer interrupts
  routed_dispatch link l i destination protocol forced_tag route s =
      let closed = record s {
        dispatcher = emit (interrupts link.reader) (close_writer link.writer s.dispatcher);
      } in
      if is_blocked l i destination protocol s.limiters
      then (none, closed)
      else elim (choose get_handler default forced_tag route) [
        | none ↦ (none, closed)
        | some h ↦ (some h, s)
      ]
