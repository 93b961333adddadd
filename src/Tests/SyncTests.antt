-- ===== src/Tests/SyncTests.antt =====
-- node/task.go: the limiter keeps up where the panel replaces one user by another.
use v2b_x_turbo.Limiter.Rules.{update_rule}
use v2b_x_turbo.Limiter.Registry.{add_limiter}
use v2b_x_turbo.Limiter.Users.Update.{has_uuid}
use v2b_x_turbo.Base.{
  ◌≢◌, ℕ, ℤ, pos, String, Option, none, some, ok, [], ◌∷◌, string_eq, ◌≡◌, refl, sym, ap, ◌∙◌,
  arith, inl, inr, itoa,
}
use text.Mathlib.TextEquality.{eq_iff}
use v2b_x_turbo.Panel.Types.{UserInfo}
use v2b_x_turbo.Limiter.Types.{Limiter}
use v2b_x_turbo.Limiter.Users.{new_limiter}
use v2b_x_turbo.Node.Users.{key}
use v2b_x_turbo.Node.Users.Known.{TellsUuids, new_limiter-KnowsExactly}
use v2b_x_turbo.Node.Controller.{
  Outcome, returned, panicked, World, new_controller, update_limiter, set_alive,
}
use v2b_x_turbo.Task.{new_task}
use v2b_x_turbo.Node.Controller.Monitor.{
  node_info_monitor, reload, renew_limiter, readd_node, check_intervals, restart,
}
use v2b_x_turbo.Node.Controller.Start.{start}
use v2b_x_turbo.Node.Controller.Starting.{start-InStep}
use v2b_x_turbo.Node.Controller.Sync.{InStep, Leaves, node_info_monitor-InStep}
use v2b_x_turbo.Node.Controller.Changing.{Knows, node_info_monitor-Knows}
use v2b_x_turbo.Tests.Samples.{ann, trojan_info, silent, no_options}

abbrev bob : UserInfo
bob = record { id = pos 4; uuid = "b"; speed_limit = pos 0; device_limit = pos 0 }

abbrev ann_key : String
ann_key = "a0"

abbrev bob_key : String
bob_key = "b0"

differ : {A : Type 0} → ann_key ≡ bob_key → A
differ e = absurd (ground (arith, (eq_iff ann_key bob_key).1 e))

tells : TellsUuids (ann ∷ []) (bob ∷ [])
unfolding key itoa
tells u v (inl (inl a)) (inl (inl b)) e = ap (λ (x : UserInfo). x.uuid) (a ∙ sym b)
tells u v (inr (inl a)) (inr (inl b)) e = ap (λ (x : UserInfo). x.uuid) (a ∙ sym b)
tells u v (inl (inl a)) (inr (inl b)) e = differ (sym (ap key a) ∙ e ∙ ap key b)
tells u v (inr (inl a)) (inl (inl b)) e = differ (sym (ap key b) ∙ sym e ∙ ap key a)
tells u v (inl (inl a)) (inl (inr j)) e = absurd j
tells u v (inl (inl a)) (inr (inr j)) e = absurd j
tells u v (inl (inr i)) _ e = absurd i
tells u v (inr (inl a)) (inl (inr j)) e = absurd j
tells u v (inr (inl a)) (inr (inr j)) e = absurd j
tells u v (inr (inr i)) _ e = absurd i

abbrev compile : String → Option String
compile s = some s

abbrev knows : Limiter String ℤ
knows = new_limiter "" (pos 0) (ann ∷ []) []

abbrev world : World String ℤ ℕ
world = record {
  controller = record (new_controller "h" no_options) {
    limiter = some 0;
    user_list = ann ∷ [];
    info = some trojan_info;
  };
  limiters = record { objects = knows ∷ []; by_tag = ("", 0) ∷ [] };
  server = 1;
}

world-InStep : InStep world
unfolding new_controller
world-InStep = record {
  place = 0;
  limiter = knows;
  placed = refl;
  found = refl;
  knows = new_limiter-KnowsExactly String ℤ "" (pos 0) (ann ∷ []) [];
}

node_info_monitor-InStep_example : Leaves InStep (
    node_info_monitor silent compile (λ m. m) (ok none) (ok (some (bob ∷ []))) (ok none) none world)
unfolding has_uuid
node_info_monitor-InStep_example =
    node_info_monitor-InStep silent (λ m. m) (λ m e. (λ i. i, λ i. i)) compile trojan_info
      (some (bob ∷ [])) none none world refl tells (refl, tt) (refl, tt) world-InStep

abbrev state_of : {W : Type 0} → W → Outcome W → W
state_of w (returned e w') = w'
state_of w panicked = w

abbrev fresh : World String ℤ ℕ
fresh = record {
  controller = new_controller "h" no_options;
  limiters = record { objects = []; by_tag = [] };
  server = 0;
}

abbrev started : World String ℤ ℕ
started =
    state_of fresh (start compile silent (ok (some trojan_info)) (ok (ann ∷ [])) (ok []) none fresh)

start-InStep_example :
    InStep started
    × (ok (some trojan_info) ≡ ok started.controller.info)
    × (ok (ann ∷ []) ≡ ok started.controller.user_list)
    × (started.controller.user_list ≢ [])
unfolding start update_limiter add_limiter update_rule new_controller
start-InStep_example =
    start-InStep compile silent (ok (some trojan_info)) (ok (ann ∷ [])) (ok []) none fresh started
      refl

-- The world with a fixed name for its node, and what a changed node leaves of it.
abbrev named : World String ℤ ℕ
named = record world {
  controller = record world.controller {
    options = record no_options { name = "fixed" };
    node_info_monitor_periodic = some (record { interval = pos 60; task = new_task });
    user_report_periodic = some (record { interval = pos 60; task = new_task });
  };
}

named-InStep : InStep named
unfolding new_controller
named-InStep = record {
  place = 0;
  limiter = knows;
  placed = refl;
  found = refl;
  knows = new_limiter-KnowsExactly String ℤ "" (pos 0) (ann ∷ []) [];
}

abbrev reloaded : World String ℤ ℕ → World String ℤ ℕ
reloaded w = state_of w (
    node_info_monitor silent compile (λ m. m) (ok (some trojan_info)) (ok (some (bob ∷ [])))
      (ok none) none w)

node_info_monitor-Knows_example :
    ((reloaded named).controller.info ≡ some trojan_info)
    × ((reloaded named).controller.user_list ≡ bob ∷ [])
    × Knows (ann ∷ []) (reloaded named)
unfolding node_info_monitor reload renew_limiter set_alive update_limiter update_rule readd_node
    check_intervals restart new_controller
node_info_monitor-Knows_example =
    node_info_monitor-Knows silent compile (λ m. m) trojan_info (some (bob ∷ [])) none none none
      named (reloaded named) refl named-InStep
