-- ===== src/Counter.antt =====
-- common/counter/traffic.go and xraytraffic.go: the traffic of each user. A `TrafficStorage` is
-- shared: connections hold a pointer to it while the map of counters may drop it. So storages
-- stand on a heap and are named by addresses.
pub mod Heap
pub mod Traffic
pub mod Conn
use v2b_x_turbo.Base.{
  ℕ, zero, suc, ℤ, pos, ◌+ℤ◌, int64, String, Option, none, some, List, [], ◌∷◌, ◌++◌, Map, lookup,
  store, delete, string_eq, length, get_elem?, set,
}

-- Two `atomic.Int64`s.
pub record Storage : Type 0 where
  pub up_counter : ℤ
  pub down_counter : ℤ

pub record Counters : Type 0 where
  pub heap : List Storage
  pub counters : Map String ℕ

unfoldable pub new_traffic_counter : Counters
new_traffic_counter = record { heap = []; counters = [] }

abbrev pub new_storage : Storage
new_storage = record { up_counter = pos 0; down_counter = pos 0 }

-- What stands at an address; an address that was given out always has a storage.
unfoldable pub at : List Storage → ℕ → Storage
at [] a = new_storage
at (s ∷ h) zero = s
at (s ∷ h) (suc a) = at h a

-- `GetCounter` with no other goroutine between its two loads: the address, new if there was none.
unfoldable pub get_counter : String → Counters → ℕ × Counters
get_counter uuid c = elim (lookup uuid c.counters) [
  | some a ↦ (a, c)
  | none ↦ (
    length c.heap,
    record { heap = c.heap ++ new_storage ∷ []; counters = store uuid (length c.heap) c.counters },
  )
]

unfoldable pub get_up_count : String → Counters → ℤ
unfolding at
get_up_count uuid c = elim (lookup uuid c.counters) [
  | some a ↦ (at c.heap a).up_counter
  | none ↦ pos 0
]

unfoldable pub get_down_count : String → Counters → ℤ
unfolding at
get_down_count uuid c = elim (lookup uuid c.counters) [
  | some a ↦ (at c.heap a).down_counter
  | none ↦ pos 0
]

-- `Len`: a range that counts.
unfoldable pub len : Counters → ℕ
len c = length c.counters

-- `Add` of an `atomic.Int64` wraps around.
unfoldable pub add_up : ℤ → Storage → Storage
add_up n s = record s { up_counter = int64 (s.up_counter +ℤ n) }

unfoldable pub add_down : ℤ → Storage → Storage
add_down n s = record s { down_counter = int64 (s.down_counter +ℤ n) }

-- An update through a pointer.
unfoldable pub write : ℕ → (Storage → Storage) → Counters → Counters
unfolding at
write a f c = record c { heap = set c.heap a (f (at c.heap a)) }

-- The two stores of 0 of `Reset`.
unfoldable pub clear : Storage → Storage
clear s = record s { up_counter = pos 0; down_counter = pos 0 }

unfoldable pub reset : String → Counters → Counters
unfolding write clear
reset uuid c = elim (lookup uuid c.counters) [ some a ↦ write a clear c | none ↦ c ]

unfoldable pub delete_counter : String → Counters → Counters
delete_counter uuid c = record c { counters = delete uuid c.counters }

-- `Rx` and `Tx`.
unfoldable pub rx : String → ℤ → Counters → Counters
unfolding get_counter write add_down
rx uuid n c = let (a, c') = get_counter uuid c in write a (add_down n) c'

unfoldable pub tx : String → ℤ → Counters → Counters
unfolding get_counter write add_up
tx uuid n c = let (a, c') = get_counter uuid c in write a (add_up n) c'
