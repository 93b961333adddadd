-- ===== src/Node/Controller/Changing.antt =====
-- A round of `nodeInfoMonitor` (node/task.go) in which the node has changed, and the users that the
-- limiter knows behind it.
use v2b_x_turbo.Base.{
  ℕ, ℤ, String, Option, some, Result, ok, List, [], Map, or_else, length, get_elem?, set,
  get_elem?-set_self, get_elem?-append_new, string_eq, ◌==◌, is_some, lookup, if◌then◌else◌, ◌≡◌,
  refl, ap, ◌∙◌, arith, Bool-cases, Option-cases, Result-cases, inl, inr,
}
use v2b_x_turbo.Format.{user_tag}
use v2b_x_turbo.Panel.Types.{NodeInfo, UserInfo, Rules}
use v2b_x_turbo.Core.Interface.{CoreOps}
use v2b_x_turbo.Limiter.Users.{new_limiter}
use v2b_x_turbo.Limiter.Registry.{Limiters, add_limiter, delete_limiter}
use v2b_x_turbo.Limiter.Rules.{update_rule}
use v2b_x_turbo.Node.Users.Known.{new_limiter-KnowsExactly}
use v2b_x_turbo.Node.Controller.{
  World, returned, build_node_tag, cert_error, update_limiter, with_controller,
}
use v2b_x_turbo.Node.Controller.Monitor.{
  check_intervals, renew_limiter, readd_node, reload, node_info_monitor,
}
use v2b_x_turbo.Node.Controller.Sync.{InStep, set_alive-InStep}
use v2b_x_turbo.Node.Controller.Starting.{InStep-of_same, info-update_rule}

-- The limiter of the controller knows exactly these users, at the controller's tag.
abbrev pub Knows : {Regex Bucket C : Type 0} → List UserInfo → World Regex Bucket C → Type 0
Knows users w = InStep (with_controller (record w.controller { user_list = users }) w)

-- Behind the limiter, nothing of it and of the users changes.
abbrev Keeps : {Regex Bucket C : Type 0} → World Regex Bucket C → World Regex Bucket C → Type 0
Keeps w w' =
    (w'.limiters ≡ w.limiters)
    × (w'.controller.limiter ≡ w.controller.limiter)
    × (w'.controller.tag ≡ w.controller.tag)
    × (w'.controller.user_list ≡ w.controller.user_list)
    × (w'.controller.info ≡ w.controller.info)

module _ {Regex Bucket C : Type 0} where
  check_intervals-Keeps :
      (node : NodeInfo) (e : Option String) (w w' : World Regex Bucket C)
      → check_intervals node w ≡ returned e w'
      → Keeps w w'
  unfolding check_intervals
  check_intervals-Keeps node e w w' h =
      (ground arith, ground arith, ground arith, ground arith, ground arith)

  readd_node-Keeps :
      (ops : CoreOps C) (node : NodeInfo) (e : Option String) (w w' : World Regex Bucket C)
      → readd_node ops node w ≡ returned e w'
      → Keeps w w'
  unfolding readd_node
  readd_node-Keeps ops node e w w' h =
      let c = w.controller in
      let a : Option String × C = ops.add_node c.tag node c.options w.server in
      let u : Result ℤ × C =
        ops.add_users (record { tag = c.tag; users = c.user_list; node_info = node }) a.1 in
      elim (Option-cases a.0) [
        | inr (m, bad) ↦ absurd (ground arith)
        | inl good ↦ elim (Result-cases u.0) [
          | inr (m, bad) ↦ (ground arith, ground arith, ground arith, ground arith, ground arith)
          | inl (n, there) ↦
              check_intervals-Keeps node e (record w { server = u.1 }) w' (ground arith)
        ]
      ]

  renew_limiter-Knows :
      (node : NodeInfo) (alive : Option (Map ℤ ℤ)) (old : List UserInfo) (w : World Regex Bucket C)
      → Knows old w
      → Knows
          (if w.controller.options.name == "" then w.controller.user_list else old)
          (renew_limiter node alive w)
  unfolding renew_limiter add_limiter delete_limiter
  renew_limiter-Knows node alive old w k = elim (Bool-cases (w.controller.options.name == "")) [
    | inr named ↦ rw (renew_limiter, named) k
    | inl unnamed ↦
        let c = w.controller in
        let tag = build_node_tag c.api_host node in
        let speed = c.options.limit_config.speed_limit in
        rw (renew_limiter, unnamed)
          (record {
            place = length w.limiters.objects;
            limiter = new_limiter tag speed c.user_list (or_else [] alive);
            placed = refl;
            found = get_elem?-append_new w.limiters.objects _;
            knows = new_limiter-KnowsExactly Regex Bucket tag speed c.user_list (or_else [] alive);
          })
  ]

  renew_limiter-keeps :
      (node : NodeInfo) (alive : Option (Map ℤ ℤ)) (w : World Regex Bucket C)
      → let w' = renew_limiter node alive w in
        (w'.controller.info ≡ w.controller.info)
        × (w'.controller.user_list ≡ w.controller.user_list)
  unfolding renew_limiter
  renew_limiter-keeps node alive w = (ground arith, ground arith)

  update_rule-InStep :
      (compile : String → Option Regex) (rules : Rules) (w : World Regex Bucket C)
      (ls : Limiters Regex Bucket)
      → update_limiter (update_rule compile rules) w.controller.limiter w.limiters ≡ some ls
      → InStep w
      → InStep (record w { limiters = ls })
  unfolding update_limiter
  update_rule-InStep compile rules w ls h s =
      elim (Option-cases (update_rule compile rules s.limiter)) [
        | inl bad ↦ absurd (ground (arith, s.placed, s.found))
        | inr (l', good) ↦
            let made : ls.objects ≡ set w.limiters.objects s.place l' =
              ground (arith, s.placed, s.found) in
            record {
              place = s.place;
              limiter = l';
              placed = s.placed;
              found =
                  ap (λ x. get_elem? x s.place) made
                  ∙ get_elem?-set_self w.limiters.objects s.place l' s.limiter s.found;
              knows = λ uuid.
                  ap (λ m. is_some (lookup (user_tag w.controller.tag uuid) m))
                    (info-update_rule compile rules s.limiter l' good)
                  ∙ s.knows uuid;
            }
      ]

module _ {Regex Bucket C : Type 0} (ops : CoreOps C) (compile : String → Option Regex) where
  reload-Knows :
      (node : NodeInfo) (users : Option (List UserInfo)) (alive : Option (Map ℤ ℤ))
      (cert e : Option String) (w w' : World Regex Bucket C)
      → reload ops compile node users alive cert w ≡ returned e w'
      → InStep w
      → (w'.controller.info ≡ some node)
        × (w'.controller.user_list ≡ or_else w.controller.user_list users)
        × Knows
            (if w.controller.options.name == ""
              then or_else w.controller.user_list users
              else w.controller.user_list)
            w'
  unfolding reload
  reload-Knows node users alive cert e w w' h s =
      let c = w.controller in
      let list = or_else c.user_list users in
      let d : Option String × C = ops.del_node c.tag w.server in
      let known = if c.options.name == "" then list else c.user_list in
      let w0 = record w {
        controller = record c { info = some node; user_list = list; traffic = [] };
        server = d.1;
      } in
      let k0 : Knows c.user_list w0 =
        InStep-of_same w (with_controller (record w0.controller { user_list = c.user_list }) w0)
          refl refl refl refl s in
      let w1 = renew_limiter node alive w0 in
      let (same_info, same_list) = renew_limiter-keeps node alive w0 in
      let m1 = with_controller (record w1.controller { user_list = known }) w1 in
      let (ls2, set, k2) =
        set_alive-InStep alive m1 (renew_limiter-Knows node alive c.user_list w0 k0) in
      let m2 = record m1 { limiters = ls2 } in
      elim (Option-cases d.0) [
        | inr (m, bad) ↦ absurd (ground arith)
        | inl deleted ↦
            elim (Option-cases
              (update_limiter (update_rule compile node.rules) w1.controller.limiter ls2)) [
                | inl bad ↦ absurd (ground arith)
                | inr (ls3, ruled) ↦
                    let w3 = record w1 { limiters = ls3 } in
                    let (ls, l, tag, us, i) : Keeps w3 w' =
                      elim (Option-cases (cert_error node cert)) [
                        | inr (m, bad) ↦
                            (ground arith, ground arith, ground arith, ground arith, ground arith)
                        | inl good ↦ readd_node-Keeps ops node e w3 w' (ground arith)
                      ] in
                    (
                      i ∙ same_info,
                      us ∙ same_list,
                      InStep-of_same (record m2 { limiters = ls3 })
                          (with_controller (record w'.controller { user_list = known }) w') ls l tag
                          refl (update_rule-InStep compile node.rules m2 ls3 ruled k2),
                    )
              ]
      ]

  -- Where the limiter of a controller knows exactly its users: behind a round of `nodeInfoMonitor` in
  -- which the node has changed and that does not panic, the controller has the new node and the new
  -- users, or the old ones where the panel answers that they are the same. Its limiter knows exactly
  -- these if the node has no fixed name, and still exactly the old ones if it has one; also where the
  -- certificate cannot be had, or the core refuses the users.
  pub node_info_monitor-Knows :
      (visit : Map String ℕ → Map String ℕ) (node : NodeInfo) (users : Option (List UserInfo))
      (alive : Option (Map ℤ ℤ)) (cert e : Option String) (w w' : World Regex Bucket C)
      → node_info_monitor ops compile visit (ok (some node)) (ok users) (ok alive) cert w
        ≡ returned e w'
      → InStep w
      → (w'.controller.info ≡ some node)
        × (w'.controller.user_list ≡ or_else w.controller.user_list users)
        × Knows
            (if w.controller.options.name == ""
              then or_else w.controller.user_list users
              else w.controller.user_list)
            w'
  unfolding node_info_monitor
  node_info_monitor-Knows visit node users alive cert e w w' h s =
      reload-Knows node users alive cert e w w' h s
