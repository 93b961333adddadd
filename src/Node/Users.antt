-- ===== src/Node/Users.antt =====
-- node/user.go: how a controller compares two lists of users. `visit` is the order in which Go
-- ranges over a map.
pub mod Index
pub mod Difference
pub mod Known
use Prim.Native.String.{◌++◌}
use v2b_x_turbo.Base.{
  ℕ, zero, suc, ◌+◌, ℤ, String, Option, none, some, List, [], ◌∷◌, Map, lookup, store, delete,
  string_eq, get_elem?, itoa,
}
use v2b_x_turbo.Panel.Types.{UserInfo}

-- `user.Uuid + strconv.Itoa(user.SpeedLimit)`
unfoldable pub key : UserInfo → String
key user = user.uuid ++ itoa user.speed_limit

-- The first loop: each key with the place of its last user.
unfoldable pub index_from : ℕ → List UserInfo → Map String ℕ → Map String ℕ
index_from i [] old_map = old_map
index_from i (user ∷ users) old_map = index_from (i + 1) users (store (key user) i old_map)

-- The second loop: the users to add, and the keys that are left.
unfoldable pub subtract : List UserInfo → Map String ℕ → List UserInfo × Map String ℕ
subtract [] old_map = ([], old_map)
subtract (user ∷ users) old_map = elim (lookup (key user) old_map) [
  | none ↦ let (added, rest) = subtract users old_map in (user ∷ added, rest)
  | some _ ↦ subtract users (delete (key user) old_map)
]

-- The third loop: `old[index]`, whose index is always in range.
unfoldable pub gather : List UserInfo → Map String ℕ → List UserInfo
gather old [] = []
gather old ((k, index) ∷ m) = elim (get_elem? old index) [
  | none ↦ gather old m
  | some user ↦ user ∷ gather old m
]

-- The deleted users and the added ones.
unfoldable pub compare_user_list :
    (Map String ℕ → Map String ℕ) → List UserInfo → List UserInfo → List UserInfo × List UserInfo
unfolding index_from subtract gather
compare_user_list visit old new =
    let (added, rest) = subtract new (index_from 0 old []) in (gather old (visit rest), added)
