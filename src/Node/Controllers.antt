-- ===== src/Node/Controllers.antt =====
-- node/node.go: the controllers of all nodes, which share the limiters and the core. A controller
-- that was not made is nil. What the panel answers to each is an argument.
use Prim.Native.String.{◌++◌}
use v2b_x_turbo.Base.{ℤ, String, Option, none, some, Result, ok, err, List, [], ◌∷◌, Map, itoa}
use v2b_x_turbo.Conf.Types.{NodeConfig}
use v2b_x_turbo.Panel.Types.{NodeInfo, UserInfo}
use v2b_x_turbo.Panel.Client.{new_client}
use v2b_x_turbo.Core.Interface.{CoreOps}
use v2b_x_turbo.Limiter.Registry.{Limiters}
use v2b_x_turbo.Node.Controller.{Controller, World, Outcome, returned, panicked, new_controller}
use v2b_x_turbo.Node.Controller
use v2b_x_turbo.Node.Controller.Start

-- The answers to the requests of one `Start`, and the error of `requestCert`.
pub record Replies : Type 0 where
  pub node : Result (Option NodeInfo)
  pub users : Result (List UserInfo)
  pub alive : Result (Map ℤ ℤ)
  pub cert : Option String

pub record Nodes (Regex Bucket C : Type 0) : Type 0 where
  pub controllers : List (Option Controller)
  pub limiters : Limiters Regex Bucket
  pub server : C

nils : List (NodeConfig × Replies) → List (Option Controller)
nils [] = []
nils (n ∷ ns) = none ∷ nils ns

module _ {Regex Bucket C : Type 0} where
  -- A controller before those that come behind it in the list.
  abbrev pub in_front :
      Option Controller → Outcome (Nodes Regex Bucket C) → Outcome (Nodes Regex Bucket C)
  in_front c panicked = panicked
  in_front c (returned e n) = returned e (record n { controllers = c ∷ n.controllers })

module _ {Regex Bucket C : Type 0} (compile : String → Option Regex) (ops : CoreOps C)
    (to_lower : String → String) where
  -- `Start`: it stops at the first error.
  unfoldable pub start_nodes :
      List (NodeConfig × Replies) → Limiters Regex Bucket → C → Outcome (Nodes Regex Bucket C)
  unfolding nils
  start_nodes [] limiters server =
      returned none (record { controllers = []; limiters = limiters; server = server })
  start_nodes ((n, r) ∷ rest) limiters server = elim (new_client to_lower n.api_config) [
    | err m ↦
        returned (some m)
          (record { controllers = none ∷ nils rest; limiters = limiters; server = server })
    | ok p ↦
        elim (Start.start compile ops r.node r.users r.alive r.cert (record {
          controller = new_controller p.api_host n.options;
          limiters = limiters;
          server = server;
        })) [
          | panicked ↦ panicked
          | returned none w ↦ in_front (some w.controller) (start_nodes rest w.limiters w.server)
          | returned (some m) w ↦
              returned
                (some (
                  "start node controller ["
                  ++ p.api_host
                  ++ "-"
                  ++ p.node_type
                  ++ "-"
                  ++ itoa p.node_id
                  ++ "] error: "
                  ++ m))
                (record {
                  controllers = some w.controller ∷ nils rest;
                  limiters = w.limiters;
                  server = w.server;
                })
        ]
  ]

-- `Close`: an error panics, and so does a nil controller.
unfoldable pub close_nodes :
    {Regex Bucket C : Type 0}
    → CoreOps C
    → List (Option Controller)
    → Limiters Regex Bucket
    → C
    → Outcome (Nodes Regex Bucket C)
close_nodes ops [] limiters server =
    returned none (record { controllers = []; limiters = limiters; server = server })
close_nodes ops (none ∷ cs) limiters server = panicked
close_nodes ops (some c ∷ cs) limiters server =
    let (e, w) =
      Controller.close ops (record { controller = c; limiters = limiters; server = server }) in
    let rest = close_nodes ops cs w.limiters w.server in elim e [ some m ↦ panicked | none ↦ rest ]
