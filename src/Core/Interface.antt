-- ===== src/Core/Interface.antt =====
-- core/interface.go: what the node controllers ask of a core. A core is an implementation of the
-- interface over a state of its own; every method returns the state after it.
use v2b_x_turbo.Base.{ℤ, String, Bool, Option, Result, List}
use v2b_x_turbo.Conf.Types.{Options}
use v2b_x_turbo.Panel.Types.{NodeInfo, UserInfo, UserTraffic}

pub record AddUsersParams : Type 0 where
  pub tag : String
  pub users : List UserInfo
  pub node_info : NodeInfo

-- A returned `error` is an `Option String`: `none` for nil.
pub record CoreOps (C : Type 0) : Type 0 where
  pub start : C → Option String × C
  pub close : C → Option String × C
  pub add_node : String → NodeInfo → Options → C → Option String × C
  pub del_node : String → C → Option String × C
  pub add_users : AddUsersParams → C → Result ℤ × C
  pub get_user_traffic_slice : String → Bool → C → Result (List UserTraffic) × C
  pub del_users : List UserInfo → String → NodeInfo → C → Option String × C
  pub protocols : C → List String
  pub kind : C → String
