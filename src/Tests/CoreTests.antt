-- ===== src/Tests/CoreTests.antt =====
-- core/ and node/controller.go: the theorems on a core that counts its nodes.
use v2b_x_turbo.Base.{
  ℕ, ℤ, pos, String, none, some, Result, ok, err, [], ◌∷◌, All, ◌≡◌, ◌≢◌, ◌↔◌, ◌⊎◌, string_eq,
}
use v2b_x_turbo.Conf.Types.{Options}
use v2b_x_turbo.Panel.Types.{NodeInfo, unset}
use v2b_x_turbo.Core.Selector.{Selector, select_core, add}
use v2b_x_turbo.Core.Selector.Routes.{Eligible, NoneEligible, select_core-Eligible}
use v2b_x_turbo.Core.Selector.Delegation.{Placed, add-Placed}
use v2b_x_turbo.Limiter.Registry.{get_limiter}
use v2b_x_turbo.Node.Controller.{World, new_controller, close}
use v2b_x_turbo.Tests.Samples.{silent, no_options}
use v2b_x_turbo.Node.Controller.Closing.{tasks, IsStopped, closed}

abbrev vless : NodeInfo
vless = record {
  id = pos 1;
  kind = "vless";
  security = pos 0;
  push_interval = pos 60;
  pull_interval = pos 60;
  raw_dns = record { dns_map = []; dns_json = "" };
  rules = record { regexp = []; protocol = [] };
  protocol = unset;
  common = none;
}

abbrev empty_selector : Selector ℕ
empty_selector = record { cores = ("c", 0) ∷ []; nodes = [] }

abbrev full_selector : Selector ℕ
full_selector = record { cores = ("c", 1) ∷ []; nodes = ("n", "c") ∷ [] }

abbrev keep : String → Options → Result Options
keep text option = ok option

add-Placed_example :
    let r = add silent keep "n" vless no_options empty_selector in
    (r.0 ≡ none) × Placed silent keep "n" vless no_options empty_selector
    ⊎ (r.0 ≢ none) × (r.2.nodes ≡ empty_selector.nodes)
add-Placed_example = add-Placed silent keep "n" vless no_options empty_selector

select_core-Eligible_example :
    ((name : String) (c : ℕ)
      → select_core silent vless no_options empty_selector ≡ some (name, c)
      → Eligible silent vless no_options empty_selector name c)
    × (select_core silent vless no_options empty_selector ≡ none
        → NoneEligible silent vless no_options empty_selector)
select_core-Eligible_example = select_core-Eligible silent vless no_options empty_selector

abbrev world : World String ℤ ℕ
world = record {
  controller = new_controller "h" no_options;
  limiters = record { objects = []; by_tag = ("", 0) ∷ [] };
  server = 1;
}

closed_example :
    let (e, w') = close silent world in
    All IsStopped (tasks w'.controller)
    × (get_limiter world.controller.tag w'.limiters ≡ err "not found")
    × (w'.server ≡ 0)
    × ((e ≡ none) ↔ ((silent.del_node world.controller.tag world.server).0 ≡ none))
closed_example = closed silent world
