-- ===== src/Node/Controller/Monitor.antt =====
-- `nodeInfoMonitor` of node/task.go. It runs in a task that `Start` starts, so that `c.info` is not
-- nil; in a controller that was never started it panics here.
use v2b_x_turbo.Base.{
  ℕ, ℤ, pos, String, Bool, true, false, not, Option, none, some, Result, ok, err, List, [], ◌∷◌,
  Map, delete, or_else, string_eq, int_eq, ◌==◌, ◌&&◌, if◌then◌else◌,
}
use v2b_x_turbo.Panel.Types.{NodeInfo, UserInfo}
use v2b_x_turbo.Core.Interface.{CoreOps, AddUsersParams}
use v2b_x_turbo.Limiter.Users.{update_user}
use v2b_x_turbo.Limiter.Registry.{add_limiter, delete_limiter}
use v2b_x_turbo.Limiter.Rules.{update_rule}
use v2b_x_turbo.Task
use v2b_x_turbo.Node.Users.{compare_user_list}
use v2b_x_turbo.Node.Controller.{
  Periodic, World, Outcome, returned, panicked, build_node_tag, cert_error, set_alive,
  update_limiter, with_controller,
}

-- A task that gets another interval is closed and started; `compared` is the one that decides.
unfoldable pub restart : ℤ → ℤ → Periodic → Periodic
restart compared interval p =
    if not (p.interval == compared) && not (compared == pos 0)
    then record { interval = interval; task = Task.start false (Task.close p.task) }
    else p

-- The traffic records of the deleted users go.
unfoldable pub forget : List UserInfo → Map String ℤ → Map String ℤ
forget [] traffic = traffic
forget (u ∷ us) traffic = forget us (delete u.uuid traffic)

unfoldable pub is_empty : List UserInfo → Bool
is_empty [] = true
is_empty (u ∷ us) = false

module _ {Regex Bucket C : Type 0} where
  -- `Check interval`: the interval of the reports becomes the pull interval.
  unfoldable pub check_intervals : NodeInfo → World Regex Bucket C → Outcome (World Regex Bucket C)
  unfolding restart
  check_intervals node w =
      let c = w.controller in
      elim c.node_info_monitor_periodic [
        | none ↦ panicked
        | some pull ↦ elim c.user_report_periodic [
          | none ↦ panicked
          | some push ↦ returned none (
              with_controller
                (record c {
                  node_info_monitor_periodic =
                      some (restart node.pull_interval node.pull_interval pull);
                  user_report_periodic = some (restart node.push_interval node.pull_interval push);
                })
                w)
        ]
      ]

  -- `Update limiter`, where the node's tag is not a fixed name.
  unfoldable pub renew_limiter :
      NodeInfo → Option (Map ℤ ℤ) → World Regex Bucket C → World Regex Bucket C
  renew_limiter node alive w =
      let c = w.controller in
      if not (c.options.name == "")
      then w
      else (let tag = build_node_tag c.api_host node in
          let (l, ls) =
            add_limiter tag c.options.limit_config.speed_limit c.user_list (or_else [] alive)
              (delete_limiter tag w.limiters) in
          record w { controller = record c { tag = tag; limiter = some l }; limiters = ls })

module _ {Regex Bucket C : Type 0} (ops : CoreOps C) where
  unfoldable pub readd_node : NodeInfo → World Regex Bucket C → Outcome (World Regex Bucket C)
  unfolding check_intervals
  readd_node node w =
      let c = w.controller in
      let (e, s) = ops.add_node c.tag node c.options w.server in
      elim e [
        | some m ↦ panicked
        | none ↦
            let params : AddUsersParams = record {
              tag = c.tag;
              users = c.user_list;
              node_info = node;
            } in
            let (added, s) = ops.add_users params s in
            elim added [
              | err m ↦ returned none (record w { server = s })
              | ok _ ↦ check_intervals node (record w { server = s })
            ]
      ]

  -- The users are compared, and the core and the limiter follow.
  unfoldable pub sync_users :
      (Map String ℕ → Map String ℕ)
      → NodeInfo
      → List UserInfo
      → World Regex Bucket C
      → Outcome (World Regex Bucket C)
  unfolding forget is_empty update_limiter
  sync_users visit info users w =
      let c = w.controller in
      let (deleted, added) = compare_user_list visit c.user_list users in
      let (e, s) =
        if is_empty deleted then (none, w.server) else ops.del_users deleted c.tag info w.server in
      elim e [
        | some m ↦ returned none (record w { server = s })
        | none ↦
            let params : AddUsersParams = record { tag = c.tag; users = added; node_info = info } in
            let (r, s) = if is_empty added then (ok (pos 0), s) else ops.add_users params s in
            let w = record w { server = s } in
            elim r [
              | err m ↦ returned none w
              | ok _ ↦
                  if is_empty added && is_empty deleted
                  then returned none (with_controller (record c { user_list = users }) w)
                  else elim (update_limiter (λ l. some (update_user c.tag added deleted l))
                      c.limiter w.limiters) [
                        | none ↦ panicked
                        | some ls ↦ returned none (record w {
                          controller = record c {
                            user_list = users;
                            traffic =
                                if c.options.limit_config.enable_dynamic_speed_limit
                                then forget deleted c.traffic
                                else c.traffic;
                          };
                          limiters = ls;
                        })
                      ]
            ]
      ]

  -- The part of `nodeInfoMonitor` for a changed node.
  unfoldable pub reload :
      (String → Option Regex)
      → NodeInfo
      → Option (List UserInfo)
      → Option (Map ℤ ℤ)
      → Option String
      → World Regex Bucket C
      → Outcome (World Regex Bucket C)
  unfolding renew_limiter readd_node set_alive update_limiter
  reload compile node users alive cert w =
      let c = w.controller in
      let c = record c { info = some node; user_list = or_else c.user_list users; traffic = [] } in
      let (e, s) = ops.del_node c.tag w.server in
      elim e [
        | some m ↦ panicked
        | none ↦
            let w = renew_limiter node alive (record w { controller = c; server = s }) in
            elim (set_alive alive w.controller.limiter w.limiters) [
              | none ↦ panicked
              | some ls ↦
                  elim (update_limiter (update_rule compile node.rules) w.controller.limiter ls) [
                    | none ↦ panicked
                    | some ls ↦
                        let w = record w { limiters = ls } in
                        elim (cert_error node cert) [
                          | some m ↦ returned none w
                          | none ↦ readd_node node w
                        ]
                  ]
            ]
      ]

  -- The part for an unchanged node.
  unfoldable pub refresh :
      (Map String ℕ → Map String ℕ)
      → Option (List UserInfo)
      → Option (Map ℤ ℤ)
      → World Regex Bucket C
      → Outcome (World Regex Bucket C)
  unfolding set_alive sync_users
  refresh visit users alive w = elim (set_alive alive w.controller.limiter w.limiters) [
    | none ↦ panicked
    | some ls ↦
        let w = record w { limiters = ls } in
        elim (or_else [] users) [
          | [] ↦ returned none w
          | u ∷ us ↦ elim w.controller.info [
            | none ↦ panicked
            | some info ↦ sync_users visit info (u ∷ us) w
          ]
        ]
  ]

  -- `nodeInfoMonitor`: `none` where the panel answers that nothing changed.
  unfoldable pub node_info_monitor :
      (String → Option Regex)
      → (Map String ℕ → Map String ℕ)
      → Result (Option NodeInfo)
      → Result (Option (List UserInfo))
      → Result (Option (Map ℤ ℤ))
      → Option String
      → World Regex Bucket C
      → Outcome (World Regex Bucket C)
  unfolding reload refresh
  node_info_monitor compile visit (ok (some node)) (ok users) (ok alive) cert w =
      reload compile node users alive cert w
  node_info_monitor compile visit (ok none) (ok users) (ok alive) cert w =
      refresh visit users alive w
  node_info_monitor compile visit _ _ _ cert w = returned none w
