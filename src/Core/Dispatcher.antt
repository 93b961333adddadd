-- ===== src/Core/Dispatcher.antt =====
-- core/xray/app/dispatcher: linkmanager.go and the parts of default.go that this repository adds to
-- xray-core's dispatcher. Pipes are xray-core's: a writer or a reader of a pipe is a number, and the
-- calls of `common.Close` and `common.Interrupt` on them are events, in the order of the calls.
-- Link managers and managed writers are shared by pointers: they stand on heaps and are named by
-- their places.
pub mod Closing
pub mod Removal
pub mod Reachable
pub mod Dispatch
pub mod Routing
pub mod Admission
use v2b_x_turbo.Base.{
  ℕ, String, Option, none, some, List, [], ◌∷◌, ◌++◌, Map, lookup, store, delete, or_else, length,
  get_elem?, set, string_eq, nat_eq,
}
use v2b_x_turbo.Counter.{Counters}

-- A call on a pipe.
pub data Event : Type 0 where
  close : ℕ → Event
  interrupt : ℕ → Event

-- The reader of a link: that of a pipe; or a `CounterReader` over it, with the place of its counter,
-- which has neither `Interrupt` nor `Close`, so that `common.Interrupt` does nothing to it.
pub data Reader : Type 0 where
  piped : ℕ → Reader
  counted : ℕ → ℕ → Reader

unfoldable pub interrupts : Reader → List Event
interrupts (piped r) = interrupt r ∷ []
interrupts (counted r a) = []

-- `manager` is the place of a `LinkManager`.
pub record ManagedWriter : Type 0 where
  pub writer : ℕ
  pub manager : ℕ

-- A `LinkManager`: readers by the places of managed writers.
pub record LinkManager : Type 0 where
  pub links : Map ℕ Reader

-- `counter` and `link_managers` are the two maps of a `DefaultDispatcher`.
pub record Dispatcher : Type 0 where
  pub counter : Map String Counters
  pub link_managers : Map String ℕ
  pub managers : List LinkManager
  pub writers : List ManagedWriter
  pub events : List Event

-- `new(DefaultDispatcher)`
abbrev pub new_dispatcher : Dispatcher
new_dispatcher = record {
  counter = [];
  link_managers = [];
  managers = [];
  writers = [];
  events = [];
}

unfoldable pub new_manager : LinkManager
new_manager = record { links = [] }

-- A place that was given out always has a manager.
unfoldable pub manager_at : List LinkManager → ℕ → LinkManager
unfolding new_manager
manager_at ms i = or_else new_manager (get_elem? ms i)

unfoldable pub on_manager : ℕ → (LinkManager → LinkManager) → Dispatcher → Dispatcher
unfolding manager_at
on_manager i f d = record d { managers = set d.managers i (f (manager_at d.managers i)) }

unfoldable pub add_link : ℕ → ℕ → Reader → Dispatcher → Dispatcher
unfolding on_manager
add_link m w r d = on_manager m (λ x. record { links = store w r x.links }) d

unfoldable pub remove_writer : ℕ → ℕ → Dispatcher → Dispatcher
unfolding on_manager
remove_writer m w d = on_manager m (λ x. record { links = delete w x.links }) d

unfoldable pub emit : List Event → Dispatcher → Dispatcher
emit es d = record d { events = d.events ++ es }

-- `ManagedWriter.Close`, of the managed writer at a place.
unfoldable pub close_managed : ℕ → Dispatcher → Dispatcher
unfolding remove_writer emit
close_managed w d = elim (get_elem? d.writers w) [
  | none ↦ d
  | some x ↦ emit (close x.writer ∷ []) (remove_writer x.manager w d)
]

-- The range of `CloseAll`, over the links that the map had when it began: each iteration takes away
-- no entry but its own.
unfoldable pub close_links : Map ℕ Reader → Dispatcher → Dispatcher
unfolding close_managed interrupts
close_links [] d = d
close_links ((w, r) ∷ ls) d = close_links ls (emit (interrupts r) (close_managed w d))

unfoldable pub close_all : ℕ → Dispatcher → Dispatcher
unfolding close_links
close_all m d = close_links (manager_at d.managers m).links d

-- A new link manager, stored for a user in place of any other.
unfoldable pub store_manager : String → Dispatcher → ℕ × Dispatcher
store_manager email d = (
  length d.managers,
  record d {
    link_managers = store email (length d.managers) d.link_managers;
    managers = d.managers ++ new_manager ∷ [];
  },
)

unfoldable pub forget_manager : String → Dispatcher → Dispatcher
forget_manager email d = record d { link_managers = delete email d.link_managers }

-- The link manager of a user, new if it has none: a `Load` and a `Store`, of a goroutine that runs
-- alone. Where others run in between, they are the steps of Reachable.
unfoldable pub link_manager : String → Dispatcher → ℕ × Dispatcher
unfolding store_manager
link_manager email d = elim (lookup email d.link_managers) [
  | some m ↦ (m, d)
  | none ↦ store_manager email d
]

-- A managed writer over a pipe, of a manager.
unfoldable pub new_managed : ℕ → ℕ → Dispatcher → ℕ × Dispatcher
new_managed writer m d = (
  length d.writers,
  record d { writers = d.writers ++ record { writer = writer; manager = m } ∷ [] },
)

-- A managed writer over a pipe and its link, at a manager. The answer is the place of the writer.
unfoldable pub link : ℕ → ℕ → Reader → Dispatcher → ℕ × Dispatcher
unfolding new_managed add_link
link m writer reader d = let (w, d') = new_managed writer m d in (w, add_link m w reader d')

-- What `getLink` and `DispatchLink` do for an admitted user with both ends of a pipe, of a goroutine
-- that runs alone: its manager, a managed writer and a link.
unfoldable pub open_link : String → ℕ → Reader → Dispatcher → ℕ × Dispatcher
unfolding link_manager link
open_link email writer reader d = let (m, d') = link_manager email d in link m writer reader d'

-- The part of `Xray.DelUsers` that closes a user's links: `Load`, `CloseAll` and `Delete`.
unfoldable pub close_user : String → Dispatcher → Dispatcher
unfolding close_all forget_manager
close_user email d = elim (lookup email d.link_managers) [
  | none ↦ d
  | some m ↦ forget_manager email (close_all m d)
]
