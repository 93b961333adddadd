-- ===== src/Node/Controller/Start.antt =====
-- `Start` of node/controller.go.
use Prim.Native.String.{◌++◌}
use v2b_x_turbo.Base.{
  ℤ, String, Option, none, some, Result, ok, err, List, [], ◌∷◌, Map, string_eq, ◌==◌,
  if◌then◌else◌,
}
use v2b_x_turbo.Panel.Types.{NodeInfo, UserInfo}
use v2b_x_turbo.Core.Interface.{CoreOps, AddUsersParams}
use v2b_x_turbo.Limiter.Registry.{add_limiter}
use v2b_x_turbo.Limiter.Rules.{update_rule}
use v2b_x_turbo.Node.Controller.{
  Controller, World, Outcome, returned, panicked, build_node_tag, cert_error, start_tasks,
  update_limiter, with_controller,
}

-- The tag that a controller gives its node.
unfoldable pub tag_of : Controller → NodeInfo → String
tag_of c node = if c.options.name == "" then build_node_tag c.api_host node else c.options.name

module _ {Regex Bucket C : Type 0} (compile : String → Option Regex) (ops : CoreOps C) where
  -- The node and its users enter the core.
  unfoldable pub add_to_core : NodeInfo → World Regex Bucket C → Outcome (World Regex Bucket C)
  unfolding start_tasks
  add_to_core node w =
      let c = w.controller in
      let (e, s) = ops.add_node c.tag node c.options w.server in
      elim e [
        | some m ↦ returned (some ("add new node error: " ++ m)) (record w { server = s })
        | none ↦
            let params : AddUsersParams = record {
              tag = c.tag;
              users = c.user_list;
              node_info = node;
            } in
            let (added, s) = ops.add_users params s in
            elim added [
              | err m ↦ returned (some ("add users error: " ++ m)) (record w { server = s })
              | ok _ ↦
                  start_tasks node
                    (record w { controller = record c { info = some node }; server = s })
            ]
      ]

  -- Behind the requests. The panic is that of a rule that does not compile.
  unfoldable pub start_node :
      NodeInfo → Option String → World Regex Bucket C → Outcome (World Regex Bucket C)
  unfolding tag_of add_to_core
  start_node node cert w =
      let c = w.controller in
      let c = record c { tag = tag_of c node } in
      let (l, ls) =
        add_limiter c.tag c.options.limit_config.speed_limit c.user_list c.alive_map w.limiters in
      elim (update_limiter (update_rule compile node.rules) (some l) ls) [
        | none ↦ panicked
        | some ls ↦
            let w = record w { controller = record c { limiter = some l }; limiters = ls } in
            elim (cert_error node cert) [
              | some m ↦ returned (some ("request cert error: " ++ m)) w
              | none ↦ add_to_core node w
            ]
      ]

  -- `Start`, with the answers to `GetNodeInfo`, `GetUserList` and `GetUserAlive`. A nil node without
  -- an error panics.
  unfoldable pub start :
      Result (Option NodeInfo)
      → Result (List UserInfo)
      → Result (Map ℤ ℤ)
      → Option String
      → World Regex Bucket C
      → Outcome (World Regex Bucket C)
  unfolding start_node
  start (err m) users alive cert w = returned (some ("get node info error: " ++ m)) w
  start (ok fetched) (err m) alive cert w =
      returned (some ("get user list error: " ++ m))
        (with_controller (record w.controller { user_list = [] }) w)
  start (ok fetched) (ok []) alive cert w =
      returned (some "add users error: not have any user")
        (with_controller (record w.controller { user_list = [] }) w)
  start (ok fetched) (ok (u ∷ us)) (err m) cert w =
      returned (some ("failed to get user alive list: " ++ m))
        (with_controller (record w.controller { user_list = u ∷ us; alive_map = [] }) w)
  start (ok none) (ok (u ∷ us)) (ok alive) cert w = panicked
  start (ok (some node)) (ok (u ∷ us)) (ok alive) cert w =
      start_node node cert
        (with_controller (record w.controller { user_list = u ∷ us; alive_map = alive }) w)
