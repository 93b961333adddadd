-- ===== src/Node/Controller/Starting.antt =====
-- That the limiter of a controller that `Start` has started knows its users.
use v2b_x_turbo.Base.{
  store, lookup, is_some, string_eq, ◌≢◌, ℤ, String, Option, none, some, Result, ok, err, List, [],
  ◌∷◌, ◌++◌, Map, length, get_elem?, set, get_elem?-set_self, get_elem?-append_new, int_eq, ◌≡◌,
  refl, ap, subst, sym, ◌∙◌, arith, Option-cases, inl, inr,
}
use v2b_x_turbo.Panel.Types.{NodeInfo, UserInfo, Rules}
use v2b_x_turbo.Core.Interface.{CoreOps}
use v2b_x_turbo.Format.{user_tag}
use v2b_x_turbo.Limiter.Types.{Limiter}
use v2b_x_turbo.Limiter.Users.{new_limiter}
use v2b_x_turbo.Limiter.Registry.{Limiters, add_limiter}
use v2b_x_turbo.Limiter.Rules.{update_rule}
use v2b_x_turbo.Node.Users.Known.{KnowsExactly, new_limiter-KnowsExactly}
use v2b_x_turbo.Node.Controller.{
  World, returned, cert_error, update_limiter, start_tasks, with_controller,
}
use v2b_x_turbo.Node.Controller.Start.{tag_of, add_to_core, start_node, start}
use v2b_x_turbo.Node.Controller.Sync.{InStep}

module _ {Regex Bucket C : Type 0} where
  -- What `start_tasks` leaves alone.
  start_tasks_lem :
      (node : NodeInfo) (w w' : World Regex Bucket C)
      → start_tasks node w ≡ returned none w'
      → (w'.limiters ≡ w.limiters)
        × (w'.controller.limiter ≡ w.controller.limiter)
        × (w'.controller.tag ≡ w.controller.tag)
        × (w'.controller.user_list ≡ w.controller.user_list)
        × (w'.controller.info ≡ w.controller.info)
  unfolding start_tasks
  start_tasks_lem node w w' e =
      (ground arith, ground arith, ground arith, ground arith, ground arith)

  pub InStep-of_same :
      (w w' : World Regex Bucket C)
      → w'.limiters ≡ w.limiters
      → w'.controller.limiter ≡ w.controller.limiter
      → w'.controller.tag ≡ w.controller.tag
      → w'.controller.user_list ≡ w.controller.user_list
      → InStep w
      → InStep w'
  InStep-of_same w w' ls l t u s = record {
    place = s.place;
    limiter = s.limiter;
    placed = l ∙ s.placed;
    found = ap (λ (x : Limiters Regex Bucket). get_elem? x.objects s.place) ls ∙ s.found;
    knows =
        subst (λ us. KnowsExactly w'.controller.tag us s.limiter) (sym u)
          (subst (λ tag. KnowsExactly tag w.controller.user_list s.limiter) (sym t) s.knows);
  }

module _ {Regex Bucket : Type 0} where
  pub info-update_rule :
      (compile : String → Option Regex) (rules : Rules) (l l' : Limiter Regex Bucket)
      → update_rule compile rules l ≡ some l'
      → l'.user_limit_info ≡ l.user_limit_info
  unfolding update_rule
  info-update_rule compile rules l l' e = ground arith

module _ {Regex Bucket C : Type 0} (compile : String → Option Regex) (ops : CoreOps C) where
  add_to_core_lem :
      (node : NodeInfo) (w w' : World Regex Bucket C)
      → add_to_core compile ops node w ≡ returned none w'
      → (w'.limiters ≡ w.limiters)
        × (w'.controller.limiter ≡ w.controller.limiter)
        × (w'.controller.tag ≡ w.controller.tag)
        × (w'.controller.user_list ≡ w.controller.user_list)
        × (w'.controller.info ≡ some node)
  unfolding add_to_core
  add_to_core_lem node w w' e =
      let c = w.controller in
      let a : Option String × C = ops.add_node c.tag node c.options w.server in
      let u : Result ℤ × C =
        ops.add_users (record { tag = c.tag; users = c.user_list; node_info = node }) a.1 in
      let w'' = record w { controller = record c { info = some node }; server = u.1 } in
      start_tasks_lem node w'' w' (ground arith)

  start_node_lem :
      (node : NodeInfo) (cert : Option String) (w w' : World Regex Bucket C)
      → start_node compile ops node cert w ≡ returned none w'
      → InStep w'
        × (w'.controller.user_list ≡ w.controller.user_list)
        × (w'.controller.info ≡ some node)
  unfolding start_node add_limiter update_limiter
  start_node_lem node cert w w' e =
      let c = w.controller in
      let tag = tag_of c node in
      let speed = c.options.limit_config.speed_limit in
      let place = length w.limiters.objects in
      let lim : Limiter Regex Bucket = new_limiter tag speed c.user_list c.alive_map in
      let there : get_elem? (w.limiters.objects ++ lim ∷ []) place ≡ some lim =
        get_elem?-append_new w.limiters.objects lim in
      elim (Option-cases (update_rule compile node.rules lim)) [
        | inl f ↦ absurd (ground arith)
        | inr (l', f) ↦ elim (Option-cases (cert_error node cert)) [
          | inr (m, g) ↦ absurd (ground arith)
          | inl g ↦
              let ls : Limiters Regex Bucket = record {
                objects = set (w.limiters.objects ++ lim ∷ []) place l';
                by_tag = store tag place w.limiters.by_tag;
              } in
              let ready : World Regex Bucket C = record w {
                controller = record c { tag = tag; limiter = some place };
                limiters = ls;
              } in
              let in_step : InStep ready = record {
                place = place;
                limiter = l';
                placed = refl;
                found = get_elem?-set_self (w.limiters.objects ++ lim ∷ []) place l' lim there;
                knows = λ uuid.
                    ap (λ m. is_some (lookup (user_tag tag uuid) m))
                      (info-update_rule compile node.rules lim l' f)
                    ∙ new_limiter-KnowsExactly Regex Bucket tag speed c.user_list c.alive_map uuid;
              } in
              let (a, b, t, u, i) = add_to_core_lem node ready w' (ground arith) in
              (InStep-of_same ready w' a b t u in_step, u, i)
        ]
      ]

  -- A controller whose `Start` returns nil has the node and the users that the panel answered, of
  -- whom there is at least one, and its limiter has an entry for these users and for no others. It
  -- is then as a round of `nodeInfoMonitor` in which the node has not changed keeps it.
  pub start-InStep :
      (fetched : Result (Option NodeInfo)) (users : Result (List UserInfo))
      (alive : Result (Map ℤ ℤ)) (cert : Option String) (w w' : World Regex Bucket C)
      → start compile ops fetched users alive cert w ≡ returned none w'
      → InStep w'
        × (fetched ≡ ok w'.controller.info)
        × (users ≡ ok w'.controller.user_list)
        × (w'.controller.user_list ≢ [])
  unfolding start
  start-InStep (err m) users alive cert w w' e = absurd (ground (arith, e))
  start-InStep (ok fetched) (err m) alive cert w w' e = absurd (ground (arith, e))
  start-InStep (ok fetched) (ok []) alive cert w w' e = absurd (ground (arith, e))
  start-InStep (ok fetched) (ok (u ∷ us)) (err m) cert w w' e = absurd (ground (arith, e))
  start-InStep (ok none) (ok (u ∷ us)) (ok alive) cert w w' e = absurd (ground (arith, e))
  start-InStep (ok (some node)) (ok (u ∷ us)) (ok alive) cert w w' e =
      let (s, list, info) =
        start_node_lem node cert
          (with_controller (record w.controller { user_list = u ∷ us; alive_map = alive }) w) w'
          e in
      (s, ap ok (sym info), ap ok (sym list), λ empty. ground (arith, list, empty))
