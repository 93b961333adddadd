-- ===== src/Node/Controller/Closing.antt =====
-- What is left of a controller after `Close`.
use v2b_x_turbo.Base.{
  pos, Option-cases, inl, inr, ◌↔◌, false, Option, none, some, err, List, [], ◌∷◌, All, ◌≡◌, refl,
  arith,
}
use v2b_x_turbo.Core.Interface.{CoreOps}
use v2b_x_turbo.Limiter.Registry.{get_limiter, get-add-delete}
use v2b_x_turbo.Task
use v2b_x_turbo.Node.Controller.{Periodic, Controller, World, finish, close}

-- A task that was never made, or that does not run.
unfoldable pub IsStopped : Option Periodic → Type 0
IsStopped none = Unit
IsStopped (some p) = p.task.running ≡ false

-- The tasks of a controller.
abbrev pub tasks : Controller → List (Option Periodic)
tasks c =
    c.node_info_monitor_periodic ∷ c.user_report_periodic ∷ c.renew_cert_periodic
    ∷ c.dynamic_speed_limit_periodic ∷ c.online_ip_report_periodic ∷ []

finish-IsStopped : (p : Option Periodic) → IsStopped (finish p)
unfolding IsStopped Task.close Task.close_stop
finish-IsStopped none = tt
finish-IsStopped (some p) = ground arith

module _ {Regex Bucket C : Type 0} (ops : CoreOps C) where
  -- `Close` stops every task, makes the node's limiter unknown and asks the core once to delete the
  -- node; it fails where the core fails, which stops none of this.
  pub closed :
      (w : World Regex Bucket C)
      → let (e, w') = close ops w in
        All IsStopped (tasks w'.controller)
        × (get_limiter w.controller.tag w'.limiters ≡ err "not found")
        × (w'.server ≡ (ops.del_node w.controller.tag w.server).1)
        × ((e ≡ none) ↔ ((ops.del_node w.controller.tag w.server).0 ≡ none))
  unfolding close
  closed w =
      let c = w.controller in
      (
        (
          finish-IsStopped c.node_info_monitor_periodic,
          (
            finish-IsStopped c.user_report_periodic,
            (
              finish-IsStopped c.renew_cert_periodic,
              (
                finish-IsStopped c.dynamic_speed_limit_periodic,
                (finish-IsStopped c.online_ip_report_periodic, tt),
              ),
            ),
          ),
        ),
        (get-add-delete c.tag c.tag (pos 0) [] [] w.limiters).2,
        refl,
        elim (Option-cases (ops.del_node c.tag w.server).0) [
          | inl e ↦ rw e (λ _. refl, λ _. refl)
          | inr (m, e) ↦ rw e (λ h. cc, λ h. cc)
        ],
      )
