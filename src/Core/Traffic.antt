-- ===== src/Core/Traffic.antt =====
-- What the `GetUserTrafficSlice` of the three cores has in common (core/sing/user.go, core/hy2/user.go,
-- core/xray/user.go): a range over the counters of a node, which reports each user above the least
-- traffic and deletes the counters of unknown users.
pub mod Slices
pub mod Users
use v2b_x_turbo.Base.{
  ℕ, ℤ, pos, ◌+ℤ◌, int64, lt_ℤ, String, Bool, true, false, Option, none, some, Result, ok, List, [],
  ◌∷◌, ◌++◌, Map, lookup, store, or_else, string_eq, int_eq, ◌==◌, if◌then◌else◌,
}
use v2b_x_turbo.Panel.Types.{UserTraffic}
use v2b_x_turbo.Counter.{Storage, Counters, at, write, clear, delete_counter}

-- `uidMap[uuid]`: 0 for an unknown user.
abbrev pub uid_of : String → Map String ℤ → ℤ
uid_of uuid uids = or_else (pos 0) (lookup uuid uids)

abbrev pub is_over : ℤ → Storage → Bool
is_over least s = lt_ℤ least (int64 (s.up_counter +ℤ s.down_counter))

abbrev pub traffic_entry : ℤ → Storage → UserTraffic
traffic_entry uid s = record { uid = uid; upload = s.up_counter; download = s.down_counter }

-- The function that the range calls, at one entry: what it appends, and the counters behind it.
unfoldable pub visit : ℤ → Bool → Map String ℤ → String → ℕ → Counters → List UserTraffic × Counters
visit least reset uids uuid a c =
    let s = at c.heap a in
    let c' = if reset then write a clear c else c in
    if is_over least s
    then (if uid_of uuid uids == pos 0
        then ([], delete_counter uuid c')
        else (traffic_entry (uid_of uuid uids) s ∷ [], c'))
    else ([], c)

-- The range, over the entries that the map had when it began.
unfoldable pub range :
    ℤ → Bool → Map String ℤ → Map String ℕ → Counters → List UserTraffic × Counters
unfolding visit
range least reset uids [] c = ([], c)
range least reset uids ((uuid, a) ∷ es) c =
    let (here, c') = visit least reset uids uuid a c in
    let (rest, c'') = range least reset uids es c' in (here ++ rest, c'')

-- The whole method, over the counters of all nodes. No counter and an empty slice both give nil.
unfoldable pub user_traffic_slice :
    ℤ
    → Bool
    → Map String ℤ
    → String
    → Map String Counters
    → Result (List UserTraffic) × Map String Counters
unfolding range
user_traffic_slice least reset uids tag counter = elim (lookup tag counter) [
  | none ↦ (ok [], counter)
  | some c ↦
      let (slice, c') = range least reset uids c.counters c in (ok slice, store tag c' counter)
]
