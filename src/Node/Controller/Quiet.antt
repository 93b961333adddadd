-- ===== src/Node/Controller/Quiet.antt =====
-- What a run of `nodeInfoMonitor` (node/task.go) returns to its task.
use v2b_x_turbo.Base.{
  ℕ, ℤ, String, Option, none, some, Result, ok, err, List, Map, ◌≡◌, refl, arith, Option-cases, inl,
  inr,
}
use v2b_x_turbo.Panel.Types.{NodeInfo, UserInfo}
use v2b_x_turbo.Core.Interface.{CoreOps, AddUsersParams}
use v2b_x_turbo.Node.Controller.{World, Outcome, returned, panicked}
use v2b_x_turbo.Node.Controller.Monitor.{
  check_intervals, readd_node, sync_users, reload, refresh, node_info_monitor,
}

-- The outcome is a panic or a nil error.
unfoldable IsQuiet : {W : Type 0} → Outcome W → Type 0
IsQuiet (returned e w) = e ≡ none
IsQuiet panicked = Unit

module _ {Regex Bucket C : Type 0} (ops : CoreOps C) where
  check_intervals-IsQuiet :
      (node : NodeInfo) (w : World Regex Bucket C) → IsQuiet (check_intervals node w)
  unfolding check_intervals IsQuiet
  check_intervals-IsQuiet node w = elim (Option-cases w.controller.node_info_monitor_periodic) [
    | inl e ↦ rw e tt
    | inr (p, e) ↦ rw e (elim (Option-cases w.controller.user_report_periodic) [
      | inl f ↦ rw f tt
      | inr (q, f) ↦ rw f refl
    ])
  ]

  readd_node-IsQuiet :
      (node : NodeInfo) (w : World Regex Bucket C) → IsQuiet (readd_node ops node w)
  unfolding readd_node IsQuiet
  readd_node-IsQuiet node w =
      let s = (ops.add_node w.controller.tag node w.controller.options w.server).1 in
      let params : AddUsersParams = record {
        tag = w.controller.tag;
        users = w.controller.user_list;
        node_info = node;
      } in
      let s' = (ops.add_users params s).1 in
      ground (arith, check_intervals-IsQuiet node (record w { server = s' }))

  sync_users-IsQuiet :
      (visit : Map String ℕ → Map String ℕ) (info : NodeInfo) (users : List UserInfo)
      (w : World Regex Bucket C)
      → IsQuiet (sync_users ops visit info users w)
  unfolding sync_users IsQuiet
  sync_users-IsQuiet visit info users w = ground arith

  reload-IsQuiet :
      (compile : String → Option Regex) (node : NodeInfo) (users : Option (List UserInfo))
      (alive : Option (Map ℤ ℤ)) (cert : Option String) (w : World Regex Bucket C)
      → IsQuiet (reload ops compile node users alive cert w)
  unfolding reload IsQuiet
  reload-IsQuiet compile node users alive cert w = ground (arith, readd_node-IsQuiet node)

  refresh-IsQuiet :
      (visit : Map String ℕ → Map String ℕ) (users : Option (List UserInfo))
      (alive : Option (Map ℤ ℤ)) (w : World Regex Bucket C)
      → IsQuiet (refresh ops visit users alive w)
  unfolding refresh IsQuiet
  refresh-IsQuiet visit users alive w = ground (arith, sync_users-IsQuiet visit)

  -- A run of `nodeInfoMonitor` returns nil or panics, whatever the panel and the core answer: no
  -- error of a run ends the task.
  node_info_monitor-IsQuiet :
      (compile : String → Option Regex) (visit : Map String ℕ → Map String ℕ)
      (node : Result (Option NodeInfo)) (users : Result (Option (List UserInfo)))
      (alive : Result (Option (Map ℤ ℤ))) (cert : Option String) (w : World Regex Bucket C)
      → IsQuiet (node_info_monitor ops compile visit node users alive cert w)
  unfolding node_info_monitor IsQuiet
  node_info_monitor-IsQuiet compile visit (ok (some node)) (ok users) (ok alive) cert w =
      reload-IsQuiet compile node users alive cert w
  node_info_monitor-IsQuiet compile visit (ok none) (ok users) (ok alive) cert w =
      refresh-IsQuiet visit users alive w
  node_info_monitor-IsQuiet compile visit (err e) users alive cert w = refl
  node_info_monitor-IsQuiet compile visit (ok (some node)) (err e) alive cert w = refl
  node_info_monitor-IsQuiet compile visit (ok (some node)) (ok users) (err e) cert w = refl
  node_info_monitor-IsQuiet compile visit (ok none) (err e) alive cert w = refl
  node_info_monitor-IsQuiet compile visit (ok none) (ok users) (err e) cert w = refl
