-- ===== src/Tests/Samples.antt =====
-- What the tests of the cores share: a user, its counters and a limiter that knows it at node "n".
use v2b_x_turbo.Base.{
  suc, ok, ℕ, ℤ, pos, String, false, none, some, [], ◌∷◌, lookup, string_eq, ◌≡◌, ◌==◌, ◌∙◌, sym,
  arith, Bool-cases, inl, inr,
}
use text.Mathlib.TextEquality.{eq_iff}
use v2b_x_turbo.Panel.Types.{NodeInfo, UserInfo, unset}
use v2b_x_turbo.Conf.Types.{Options, LimitConfig, new_cert_config}
use v2b_x_turbo.Core.Interface.{CoreOps}
use v2b_x_turbo.Limiter.Types.{Limiter}
use v2b_x_turbo.Limiter.Registry.{Limiters}
use v2b_x_turbo.Counter.{Counters}
use v2b_x_turbo.Counter.Traffic.{IsValid}

abbrev pub ann : UserInfo
ann = record { id = pos 3; uuid = "a"; speed_limit = pos 0; device_limit = pos 0 }

abbrev pub counted_ann : Counters
counted_ann = record {
  heap = record { up_counter = pos 4; down_counter = pos 9 } ∷ [];
  counters = ("a", 0) ∷ [];
}

ann_only : (u : String) (a : ℕ) → lookup u counted_ann.counters ≡ some a → (u ≡ "a") × (a ≡ 0)
unfolding lookup
ann_only u a h = elim (Bool-cases ("a" == u)) [
  | inl e ↦ (sym ((eq_iff "a" u).0 e), ground arith)
  | inr e ↦ absurd (ground arith)
]

pub counted_ann-IsValid : IsValid counted_ann
counted_ann-IsValid = record {
  on_heap = λ u a h. omega (arith, (ann_only u a h).1);
  unshared = λ u v a h k. (ann_only u a h).0 ∙ sym (ann_only v a k).0;
}

-- Under the key "n|a", which is that of Ann at node "n".
abbrev pub knows_ann : Limiter String ℤ
knows_ann = record {
  domain_rules = [];
  protocol_rules = "bittorrent" ∷ [];
  speed_limit = pos 0;
  user_online_ip = [];
  old_user_online = [];
  uuid_to_uid = ("a", pos 3) ∷ [];
  user_limit_info =
      (
        "n|a",
        record {
          uid = pos 3;
          speed_limit = pos 8;
          device_limit = pos 0;
          dynamic_speed_limit = pos 0;
          expire_time = pos 0;
          over_limit = false;
        },
      )
      ∷ [];
  speed_limiter = [];
  alive_list = [];
}

abbrev pub limiters : Limiters String ℤ
limiters = record { objects = knows_ann ∷ []; by_tag = ("n", 0) ∷ [] }

abbrev pub new_bucket : ℤ → ℤ → ℤ → ℤ
new_bucket interval capacity quantum = capacity

abbrev pub trojan_info : NodeInfo
trojan_info = record {
  id = pos 1;
  kind = "trojan";
  security = pos 0;
  push_interval = pos 60;
  pull_interval = pos 60;
  raw_dns = record { dns_map = []; dns_json = "" };
  rules = record { regexp = []; protocol = [] };
  protocol = unset;
  common = none;
}

-- A core that accepts everything; its state is the number of its nodes.
abbrev pub silent : CoreOps ℕ
silent = record {
  start = λ c. (none, c);
  close = λ c. (none, c);
  add_node = λ tag info option c. (none, suc c);
  del_node = λ tag c. (none, 0);
  add_users = λ p c. (ok (pos 1), c);
  get_user_traffic_slice = λ tag reset c. (ok [], c);
  del_users = λ users tag info c. (none, c);
  protocols = λ c. "vless" ∷ [];
  kind = λ c. "silent";
}

abbrev pub limits : LimitConfig
limits = record {
  enable_realtime = false;
  speed_limit = pos 0;
  ip_limit = pos 0;
  conn_limit = pos 0;
  enable_ip_recorder = false;
  ip_recorder_config = none;
  enable_dynamic_speed_limit = false;
  dynamic_speed_limit_config = none;
}

abbrev pub no_options : Options
no_options = record {
  name = "";
  core = "";
  core_name = "";
  listen_ip = "";
  send_ip = "";
  device_online_min_traffic = pos 0;
  report_min_traffic = pos 0;
  limit_config = limits;
  raw_options = none;
  xray_options = none;
  sing_options = none;
  hysteria2_config_path = "";
  cert_config = new_cert_config;
}
