-- ===== src/Tests/CoresTests.antt =====
-- core/sing and core/hy2: the theorems on one user at two nodes.
use text.Mathlib.TextEquality.{eq_iff}
use v2b_x_turbo.Format.{user_tag}
use v2b_x_turbo.Limiter.Check.View.{refused}
use v2b_x_turbo.Limiter.Registry.{get_limiter}
use v2b_x_turbo.Base.{
  quot, ◌*ℤ◌, delete, ℕ, ℤ, pos, String, true, false, none, some, ok, List, In, [], ◌∷◌, lookup,
  string_eq, ◌≡◌, ◌≢◌, refl, inl, or_else, Option, arith, ◌&&◌, ◌||◌, ◌==◌, if◌then◌else◌, int_eq,
  int64, ◌+ℤ◌, store, delete, not, trim_prefix,
}
use v2b_x_turbo.Counter.{new_storage, at}
use v2b_x_turbo.Panel.Types.{UserTraffic}
use v2b_x_turbo.Core.Interface.{AddUsersParams}
use v2b_x_turbo.Limiter.Check.{check_limit}
use v2b_x_turbo.Limiter.Types.{determine_speed_limit}
use v2b_x_turbo.Counter.Traffic.{view}
use v2b_x_turbo.Core.Selector.{is_supported}
use v2b_x_turbo.Core.Traffic.{uid_of, is_over, traffic_entry, user_traffic_slice}
use v2b_x_turbo.Core.Traffic.Slices.{reports}
use v2b_x_turbo.Core.Traffic.Users.{user_traffic_slice_lem}
use v2b_x_turbo.Core.Sing.{BoxOps, Sing, del_users as del_from_box, get_user_traffic_slice}
use v2b_x_turbo.Core.Sing.Hook.{Metadata, Tracker}
use v2b_x_turbo.Core.Sing.Shared.{del_users_silences}
use v2b_x_turbo.Core.Hy2.{Hysteria2Node, Hysteria2, authenticate, add_users, del_users}
use v2b_x_turbo.Core.Hy2.{log_traffic}
use v2b_x_turbo.Core.Hy2.Logger.{connect, log_traffic-connect}
use v2b_x_turbo.Limiter.Registry.{Limiters}
use v2b_x_turbo.Core.Hy2.Users.{authenticate_lem, mentions}
use v2b_x_turbo.Tests.Samples.{
  ann, counted_ann, counted_ann-IsValid, limiters, knows_ann, new_bucket, trojan_info,
}

user_traffic_slice_lem_example :
    let r = user_traffic_slice (pos 5) true (("a", pos 3) ∷ []) "n" (("n", counted_ann) ∷ []) in
    (r.0 ≡ ok (record { uid = pos 3; upload = pos 4; download = pos 9 } ∷ []))
    × ((w : String)
        → view (or_else counted_ann (lookup "n" r.1)) w ≡ (
            if is_over (pos 5) (view counted_ann w)
              && (true || uid_of w (("a", pos 3) ∷ []) == pos 0)
            then new_storage
            else view counted_ann w))
    × ((other : String) → "n" ≢ other → lookup other r.1 ≡ lookup other (("n", counted_ann) ∷ []))
unfolding lookup reports int64 ◌+ℤ◌ at
user_traffic_slice_lem_example =
    user_traffic_slice_lem (pos 5) true (("a", pos 3) ∷ []) counted_ann "n"
      (("n", counted_ann) ∷ []) refl counted_ann-IsValid (refl, tt)

abbrev to_torrent : Metadata
to_torrent = record {
  inbound = "n";
  user = "a";
  source = "1.1.1.1";
  destination = "x";
  network = "udp";
  protocol = "bittorrent";
}

abbrev tracker : Tracker String ℤ
tracker = record { limiters = limiters; counter = [] }

abbrev open_box : BoxOps ℕ ℕ
open_box = record {
  found = λ tag b. true;
  create = λ tag kind options b. (none, b);
  remove = λ tag b. (none, b);
  add_users = λ tag us b. (none, b);
  del_users = λ tag us b. (none, b);
  start = λ b. (none, b);
  close = λ b. (none, b);
}

abbrev sing : Sing ℕ
sing = record {
  box = 0;
  counter = ("n", counted_ann) ∷ [];
  uid_map = ("a", pos 3) ∷ [];
  node_report_min_traffic_bytes = [];
}

abbrev here_tag : String
here_tag = "m"

abbrev there_tag : String
there_tag = "n"

apart : here_tag ≢ there_tag
apart e = ground (arith, (eq_iff here_tag there_tag).1 e)

abbrev after : Sing ℕ
after = record sing { uid_map = [] }

del_users_silences_example :
    let r = get_user_traffic_slice "n" true after in
    (lookup "a" after.uid_map ≡ none)
    × (lookup "n" after.counter ≡ some counted_ann)
    × (view (or_else counted_ann (lookup "n" r.1.counter)) "a" ≡ new_storage)
    × (charged : List UserTraffic) × (r.0 ≡ ok charged)
    × ((x : UserTraffic)
        → In x charged
        → (w : String) × (w ≢ "a")
          × (x ≡ traffic_entry (uid_of w after.uid_map) (view counted_ann w)))
unfolding lookup del_from_box is_supported delete int64 ◌+ℤ◌ view at
del_users_silences_example =
    del_users_silences open_box (ann ∷ []) ann "m" "n" trojan_info sing after none counted_ann true
      refl refl (inl refl) apart refl counted_ann-IsValid (refl, tt) refl

abbrev hysteria_node : Hysteria2Node ℕ
hysteria_node = record { hy2_server = 0; tag = "n"; counter = []; report_min_traffic_bytes = pos 0 }

abbrev hysteria : Hysteria2 ℕ
hysteria = record { hy2_nodes = ("n", hysteria_node) ∷ []; users_map = ("a", pos 3) ∷ [] }

abbrev left_over : Hysteria2 ℕ
left_over = record hysteria { users_map = [] }

abbrev adds_ann : AddUsersParams
adds_ann = record { tag = "m"; users = ann ∷ []; node_info = trojan_info }

abbrev no_error : Option String
no_error = none

authenticate_lem_example :
    ((authenticate "a" (add_users (λ us. us) adds_ann hysteria).1).0 ≡ true)
    × ((authenticate "a" left_over).0 ≡ false)
    × (no_error ≡ none)
    × ((authenticate "a" hysteria).0 ≡ true → (authenticate "a" hysteria).1 ≡ "a")
unfolding lookup del_users store delete mentions
authenticate_lem_example =
    authenticate_lem (λ us. us) (λ us u. (λ i. i, λ i. i)) "a" adds_ann (ann ∷ []) "n" hysteria
      left_over none refl

abbrev checked : Option (Limiters String ℤ)
checked = connect new_bucket (pos 20) "n" "a" "1.1.1.1" limiters

abbrev behind_check : Limiters String ℤ
behind_check = or_else limiters checked

log_traffic-connect_example :
    let r = log_traffic "a" (pos 4) (pos 9) behind_check hysteria_node in
    let refuses = refused "n|a" "1.1.1.1" true knows_ann in
    (r.0 ≡ not refuses)
    × (refuses ≡ true → r.2 ≡ hysteria_node)
    × ((log_traffic "a" (pos 1) (pos 1) r.1 r.2).0 ≡ true)
unfolding connect get_limiter lookup user_tag check_limit trim_prefix quot int64 ◌*ℤ◌
    determine_speed_limit
log_traffic-connect_example =
    log_traffic-connect new_bucket (pos 20) "a" "1.1.1.1" (pos 4) (pos 9) (pos 1) (pos 1) 0
      knows_ann limiters behind_check hysteria_node refl refl refl refl
