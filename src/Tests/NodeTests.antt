-- ===== src/Tests/NodeTests.antt =====
-- node/, api/panel, and the limiter's users and rules: the theorems on two users and one core.
use v2b_x_turbo.Panel.Types.{NodeInfo}
use v2b_x_turbo.Base.{
  ℤ, pos, String, false, none, some, ok, err, List, [], ◌∷◌, lookup, In, ◌≡◌, ◌↔◌, refl, arith,
  or_else, string_eq, int_eq, int64, ◌+ℤ◌, ◌*ℤ◌, store, itoa, has_prefix, trim_prefix, atoi,
}
use v2b_x_turbo.Panel.Types.{UserInfo, UserTraffic, OnlineUser, Rules}
use v2b_x_turbo.Panel.Config.{Decoder, all_routes, interval_to_time}
use v2b_x_turbo.Panel.Client.{Client, Response, get_node_info}
use v2b_x_turbo.Panel.Types.{unset, float64, string}
use v2b_x_turbo.Panel.Config.{Params}
use v2b_x_turbo.Panel.Client.{complete}
use v2b_x_turbo.Panel.Client.Blocked.{collect, protocols_in, regexps_in, rules-complete}
use v2b_x_turbo.Panel.Client.Repeats.{get_node_info_again}
use v2b_x_turbo.Limiter.Types.{Limiter}
use v2b_x_turbo.Limiter.Check.{get_online_device, report}
use v2b_x_turbo.Limiter.Users.{new_limiter, update_user}
use v2b_x_turbo.Limiter.Users.Update.{lookup-update_user, find_last}
use v2b_x_turbo.Node.Users.{key, compare_user_list}
use v2b_x_turbo.Node.Users.Index.{has_key}
use v2b_x_turbo.Node.Users.Difference.{compare_user_list_lem}
use v2b_x_turbo.Node.Report.{
  report_user_traffic_task, counted, has_small, ips_of, report_user_traffic_task_lem,
}
use v2b_x_turbo.Format.{user_tag}

abbrev alice : UserInfo
alice = record { id = pos 1; uuid = "a"; speed_limit = pos 0; device_limit = pos 1 }

abbrev bob : UserInfo
bob = record { id = pos 2; uuid = "b"; speed_limit = pos 3; device_limit = pos 0 }

abbrev slower_bob : UserInfo
slower_bob = record bob { speed_limit = pos 2 }

compare_user_list_lem_example :
    let (deleted, added) =
      compare_user_list (λ m. m) (alice ∷ bob ∷ []) (slower_bob ∷ alice ∷ []) in
    (In slower_bob added
      ↔ In slower_bob (slower_bob ∷ alice ∷ [])
        × (has_key (key slower_bob) (alice ∷ bob ∷ []) ≡ false))
    × (In slower_bob deleted
        ↔ In slower_bob (alice ∷ bob ∷ [])
          × (has_key (key slower_bob) (slower_bob ∷ alice ∷ []) ≡ false))
unfolding has_key key itoa
compare_user_list_lem_example =
    compare_user_list_lem (λ m. m) (alice ∷ bob ∷ []) (slower_bob ∷ alice ∷ []) slower_bob
      (λ m e. (λ i. i, λ i. i)) (refl, (refl, tt)) (refl, (refl, tt))

abbrev two_online : Limiter String ℤ
two_online = record {
  domain_rules = [];
  protocol_rules = [];
  speed_limit = pos 0;
  user_online_ip = ("a", ("1.1.1.1", pos 1) ∷ []) ∷ ("b", ("2.2.2.2", pos 2) ∷ []) ∷ [];
  old_user_online = [];
  uuid_to_uid = [];
  user_limit_info = [];
  speed_limiter = [];
  alive_list = [];
}

abbrev little : List UserTraffic
little = record { uid = pos 1; upload = pos 5; download = pos 6 } ∷ []

report_user_traffic_task_lem_example :
    let sent = counted (pos 1) little (get_online_device two_online).0 in
    ((o : OnlineUser)
      → In o sent
        ↔ In o (get_online_device two_online).0 × (has_small (pos 1) little o.uid ≡ false))
    × ((uid : ℤ) → or_else [] (lookup uid ((pos 2, "2.2.2.2" ∷ []) ∷ [])) ≡ ips_of uid sent)
unfolding report_user_traffic_task get_online_device report lookup int64 ◌+ℤ◌ ◌*ℤ◌ store
report_user_traffic_task_lem_example =
    report_user_traffic_task_lem (pos 1) little two_online ((pos 2, "2.2.2.2" ∷ []) ∷ []) refl

lookup-update_user_example :
    lookup
      (user_tag "n" "b")
      (update_user "n" (slower_bob ∷ []) (bob ∷ []) (
        new_limiter {Regex = String} {Bucket = ℤ} "n"
          (pos 0)
          (alice ∷ bob ∷ [])
          [])).user_limit_info
    ≡ some (record {
      uid = pos 2;
      speed_limit = pos 2;
      device_limit = pos 0;
      dynamic_speed_limit = pos 0;
      expire_time = pos 0;
      over_limit = false;
    })
unfolding find_last
lookup-update_user_example =
    (lookup-update_user "n" "b" (slower_bob ∷ []) (bob ∷ [])
      (new_limiter {Regex = String} {Bucket = ℤ} "n" (pos 0) (alice ∷ bob ∷ []) [])).0

abbrev rules : Rules
rules = record { regexp = "x" ∷ []; protocol = "bittorrent" ∷ [] }

abbrev decoder : Decoder
decoder = record {
  to_vallss = λ s. err s;
  to_shadowsocks = λ s. err s;
  to_trojan = λ s. err s;
  to_tuic = λ s. err s;
  to_any_tls = λ s. err s;
  to_hysteria = λ s. err s;
  to_hysteria2 = λ s. err s;
}

abbrev client : Client
client = record {
  api_host = "h";
  node_type = "vless";
  node_id = pos 1;
  node_etag = "";
  response_body_hash = "";
}

abbrev failed : Response
failed = record { error = none; status = 500; body = "down"; etag = "" }

get_node_info_again_example :
    let c' = (get_node_info (λ s. s) (λ s. s) decoder client failed).1 in
    get_node_info (λ s. s) (λ s. s) decoder c' failed ≡ (some (ok none), c')
get_node_info_again_example =
    get_node_info_again (λ s. s) (λ s. s) decoder client failed failed (λ e. omega (arith, e)) refl

abbrev params : Params
params = record {
  protocol = λ c. unset;
  common = record {
    host = "";
    server_port = pos 1;
    server_name = "";
    routes =
        record { id = pos 1; match = string "protocol:b,x"; action = "block"; action_value = "" }
        ∷ [];
    base_config = some (record { push_interval = float64 (pos 60); pull_interval = string "30" });
  };
  security = pos 0;
}

abbrev completed_node : NodeInfo
completed_node = record {
  id = pos 1;
  kind = "vless";
  security = pos 0;
  push_interval = pos 60000000000;
  pull_interval = pos 30000000000;
  raw_dns = record { dns_map = []; dns_json = "" };
  rules = record { regexp = "x" ∷ []; protocol = "b" ∷ [] };
  protocol = unset;
  common = some (record {
    host = "";
    server_port = pos 1;
    server_name = "";
    routes = [];
    base_config = none;
  });
}

rules-complete_example :
    (completed_node.rules.protocol ≡ collect protocols_in params.common.routes)
    × (completed_node.rules.regexp ≡ collect regexps_in params.common.routes)
unfolding complete all_routes interval_to_time int64 has_prefix ◌*ℤ◌ trim_prefix atoi
rules-complete_example = rules-complete client params completed_node refl
