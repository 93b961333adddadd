-- ===== src/Node/Controller.antt =====
-- node/controller.go and `startTasks` of node/task.go: the controller of a node. What the panel answers
-- to the requests of one run, and the error that `requestCert` returns (Node.Certificates.Request), are
-- arguments. Logging is left out, except that a log at panic level panics.
pub mod Closing
pub mod Quiet
pub mod Sync
pub mod Starting
pub mod Changing
pub mod Start
pub mod Monitor
pub mod Speed
use Prim.Native.String.{◌++◌}
use v2b_x_turbo.Base.{
  ℕ, ℤ, pos, ◌+ℤ◌, ◌*ℤ◌, lt_ℤ, int64, unix, String, Bool, true, false, not, Option, none, some,
  Result, ok, err, List, [], ◌∷◌, Map, lookup, store, delete, get_elem?, set, itoa, or_else,
  string_eq, int_eq, ◌==◌, ◌&&◌, ◌||◌, if◌then◌else◌,
}
use v2b_x_turbo.Conf.Types.{Options}
use v2b_x_turbo.Panel.Types.{NodeInfo, UserInfo, Rules, security_tls}
use v2b_x_turbo.Core.Interface.{CoreOps, AddUsersParams}
use v2b_x_turbo.Limiter.Types.{Limiter}
use v2b_x_turbo.Limiter.Users.{update_user, update_dynamic_speed_limit}
use v2b_x_turbo.Limiter.Registry.{Limiters, add_limiter, delete_limiter}
use v2b_x_turbo.Limiter.Rules.{update_rule}
use v2b_x_turbo.Task.{Task, new_task}
use v2b_x_turbo.Task
use v2b_x_turbo.Node.Users.{compare_user_list}

-- A `task.Task` with its interval in nanoseconds.
pub record Periodic : Type 0 where
  pub interval : ℤ
  pub task : Task

-- `limiter` is a pointer: the number of an object of `Limiters`. `api_host` is the client's.
pub record Controller : Type 0 where
  pub api_host : String
  pub tag : String
  pub limiter : Option ℕ
  pub traffic : Map String ℤ
  pub user_list : List UserInfo
  pub alive_map : Map ℤ ℤ
  pub info : Option NodeInfo
  pub node_info_monitor_periodic : Option Periodic
  pub user_report_periodic : Option Periodic
  pub renew_cert_periodic : Option Periodic
  pub dynamic_speed_limit_periodic : Option Periodic
  pub online_ip_report_periodic : Option Periodic
  pub options : Options

unfoldable pub new_controller : String → Options → Controller
new_controller api_host config = record {
  api_host = api_host;
  tag = "";
  limiter = none;
  traffic = [];
  user_list = [];
  alive_map = [];
  info = none;
  node_info_monitor_periodic = none;
  user_report_periodic = none;
  renew_cert_periodic = none;
  dynamic_speed_limit_periodic = none;
  online_ip_report_periodic = none;
  options = config;
}

-- `fmt.Sprintf("[%s]-%s:%d", …)`
unfoldable pub build_node_tag : String → NodeInfo → String
build_node_tag api_host node = "[" ++ api_host ++ "]-" ++ node.kind ++ ":" ++ itoa node.id

-- The controller, the limiters that all controllers share, and the core.
pub record World (Regex Bucket C : Type 0) : Type 0 where
  pub controller : Controller
  pub limiters : Limiters Regex Bucket
  pub server : C

-- A method returns its `error`, or panics.
pub data Outcome (W : Type 0) : Type 0 where
  returned : Option String → W → Outcome W
  panicked : Outcome W

abbrev pub new_periodic : ℤ → Periodic
new_periodic interval = record { interval = interval; task = new_task }

abbrev pub begin : Bool → Periodic → Periodic
begin first p = record p { task = Task.start first p.task }

abbrev pub finish : Option Periodic → Option Periodic
finish none = none
finish (some p) = some (record p { task = Task.close p.task })

-- Whether the certificate of this mode is renewed.
abbrev pub renews : String → Bool
renews mode = not (mode == "none" || mode == "" || mode == "file" || mode == "self")

-- The error of `requestCert`, which only a node with TLS calls.
abbrev pub cert_error : NodeInfo → Option String → Option String
cert_error node cert = if node.security == security_tls then cert else none

module _ {Regex Bucket : Type 0} where
  -- A change of the object behind a pointer; `none` is a panic, of the change or at nil.
  unfoldable pub update_limiter :
      (Limiter Regex Bucket → Option (Limiter Regex Bucket))
      → Option ℕ
      → Limiters Regex Bucket
      → Option (Limiters Regex Bucket)
  update_limiter f none ls = none
  update_limiter f (some l) ls = elim (get_elem? ls.objects l) [
    | none ↦ none
    | some x ↦ elim (f x) [
      | none ↦ none
      | some y ↦ some (record ls { objects = set ls.objects l y })
    ]
  ]

  -- Only a non-nil list is entered.
  unfoldable pub set_alive :
      Option (Map ℤ ℤ) → Option ℕ → Limiters Regex Bucket → Option (Limiters Regex Bucket)
  unfolding update_limiter
  set_alive none l ls = some ls
  set_alive (some alive) l ls = update_limiter (λ x. some (record x { alive_list = alive })) l ls

module _ {Regex Bucket C : Type 0} where
  abbrev pub with_controller : Controller → World Regex Bucket C → World Regex Bucket C
  with_controller c w = record w { controller = c }

  -- `nil` for the dynamic limit's options panics where they are read.
  unfoldable pub start_tasks : NodeInfo → World Regex Bucket C → Outcome (World Regex Bucket C)
  start_tasks node w =
      let c = w.controller in
      let c = record c {
        node_info_monitor_periodic = some (begin false (new_periodic node.pull_interval));
        user_report_periodic = some (begin false (new_periodic node.push_interval));
      } in
      let c =
        if node.security == security_tls && renews c.options.cert_config.cert_mode
        then record c {
          renew_cert_periodic = some (begin true (new_periodic (pos 86400000000000)));
        }
        else c in
      if not c.options.limit_config.enable_dynamic_speed_limit
      then returned none (with_controller c w)
      else elim c.options.limit_config.dynamic_speed_limit_config [
        | none ↦ panicked
        | some d ↦ returned none (
            with_controller
              (record c {
                traffic = [];
                dynamic_speed_limit_periodic =
                    some (new_periodic (int64 (d.periodic *ℤ pos 1000000000)));
              })
              w)
      ]

  -- `Close`; it never panics.
  unfoldable pub close : CoreOps C → World Regex Bucket C → Option String × World Regex Bucket C
  unfolding delete_limiter
  close ops w =
      let c = w.controller in
      let (e, s) = ops.del_node c.tag w.server in
      (
        elim e [ none ↦ none | some m ↦ some ("del node error: " ++ m) ],
        record {
          controller = record c {
            node_info_monitor_periodic = finish c.node_info_monitor_periodic;
            user_report_periodic = finish c.user_report_periodic;
            renew_cert_periodic = finish c.renew_cert_periodic;
            dynamic_speed_limit_periodic = finish c.dynamic_speed_limit_periodic;
            online_ip_report_periodic = finish c.online_ip_report_periodic;
          };
          limiters = delete_limiter c.tag w.limiters;
          server = s;
        },
      )
