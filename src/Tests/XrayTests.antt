-- ===== src/Tests/XrayTests.antt =====
-- core/xray: the theorems on a user whose connection is let in and who is then removed.
use v2b_x_turbo.Format.{user_tag}
use v2b_x_turbo.Base.{
  store, ℕ, ℤ, pos, String, true, none, some, ok, List, [], ◌∷◌, lookup, In, inl, ◌≡◌, refl,
  string_eq, delete, nat_eq,
}
use v2b_x_turbo.Core.Interface.{AddUsersParams}
use v2b_x_turbo.Core.Accounts.{User, trojan}
use v2b_x_turbo.Core.Dispatcher.{
  close, store_manager, link, piped, Dispatcher, new_dispatcher, open_link, close_user,
}
use v2b_x_turbo.Core.Dispatcher.Dispatch.{Pipe, Inbound, Dispatching}
use v2b_x_turbo.Core.Dispatcher.Reachable.{here, next, stores, link_closed}
use v2b_x_turbo.Core.Xray.{Instance, Xray, build_users, del_users}
use v2b_x_turbo.Core.Xray.Emails.{emails, emails-build_users}
use v2b_x_turbo.Core.Xray.Removal.{del_users_lem}
use v2b_x_turbo.Tests.Samples.{ann, limiters, trojan_info}

abbrev up : Pipe
up = record { out = 0; into = 1 }

abbrev down : Pipe
down = record { out = 2; into = 3 }

abbrev from_ann : Inbound
from_ann = record { tag = "n"; email = some "n|a"; address = "1.1.1.1"; is_tcp = true }

abbrev dispatching : Dispatching String ℤ
dispatching = record { limiters = limiters; dispatcher = new_dispatcher }

-- The user's first manager is stored, and a link is made at it.
abbrev stored : Dispatcher
stored = (store_manager "n|a" new_dispatcher).1

abbrev linked : Dispatcher
linked = (link 0 1 (piped 0) stored).1

link_closed_example :
    (lookup "n|a" linked.link_managers ≡ some 0)
    × In (close 1) (close_user "n|a" linked).events
    × (lookup "n|a" (close_user "n|a" linked).link_managers ≡ none)
unfolding lookup store_manager store
link_closed_example =
    link_closed "n|a" 0 1 (piped 0) stored linked
      (next (some "n|a") here (stores "n|a" new_dispatcher) tt) refl here

-- An instance whose state counts its users, and whose every handler manages users.
abbrev small : Instance ℕ ℕ ℕ ℕ ℕ ℕ
small = record {
  start = λ s. (none, s);
  close = λ s. (none, s);
  create_inbound = λ i s. ok (some i);
  create_outbound = λ o s. ok (some o);
  add_inbound_handler = λ h s. (none, s);
  add_outbound_handler = λ h s. (none, s);
  remove_inbound_handler = λ tag s. (none, s);
  remove_outbound_handler = λ tag s. (none, s);
  get_handler = λ tag s. ok 0;
  get_inbound = λ h. true;
  user_manager = λ h. some h;
  to_memory_user = λ u. ok 0;
  add_user = λ m n s. (none, s);
  remove_user = λ m user s. (none, s);
}

abbrev opened : Dispatcher
opened = (open_link "n|a" 1 (piped 0) new_dispatcher).1

abbrev before : Xray ℕ
before = record {
  server = 0;
  is_started = true;
  dispatcher = opened;
  uid_map = ("n|a", pos 3) ∷ [];
  node_report_min_traffic_bytes = [];
}

abbrev behind : Xray ℕ
behind = record before { dispatcher = close_user "n|a" opened; uid_map = [] }

del_users_lem_example :
    In (close 1) behind.dispatcher.events
    × (lookup "n|a" behind.uid_map ≡ none)
    × (lookup "n|a" behind.dispatcher.link_managers ≡ none)
unfolding lookup del_users user_tag open_link delete store
del_users_lem_example =
    del_users_lem small (ann ∷ []) ann "n" 0 0 1 (piped 0) before behind refl (inl refl) refl refl
      refl

abbrev adds : AddUsersParams
adds = record { tag = "n"; users = ann ∷ []; node_info = trojan_info }

abbrev built_users : List User
built_users = record { email = "n|a"; account = trojan "a" } ∷ []

emails-build_users_example : emails built_users ≡ "n|a" ∷ []
unfolding build_users user_tag
emails-build_users_example = emails-build_users (λ s. s) (λ s. s) adds built_users refl
