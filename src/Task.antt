-- ===== src/Task.antt =====
-- common/task/task.go: a periodic task. What its goroutines, its owner and the callbacks do is a
-- sequence of steps; a step is what runs under the lock, or between two operations on a channel.
-- `Execute` may itself close and start the task: such calls are steps while a goroutine executes.
pub mod Restart
pub mod Lists
pub mod Channels
pub mod Ending
use v2b_x_turbo.Base.{
  ℕ, Bool, true, false, not, Option, none, some, List, [], ◌∷◌, ◌++◌, length, get_elem?, set,
  if◌then◌else◌, or_else,
}

-- Where a goroutine is: on its way to the `select`, waiting there on the channel that `t.stop` was,
-- in `Execute`, or at its end.
pub data Phase : Type 0 where
  entering : Phase
  waiting : Option ℕ → Phase
  executing : Phase
  ended : Phase

-- Channels are numbered; each is closed or not. `panicked` says that a channel was closed twice.
pub record Task : Type 0 where
  pub running : Bool
  pub stop : Option ℕ
  pub closed : List Bool
  pub goroutines : List Phase
  pub panicked : Bool

unfoldable pub new_task : Task
new_task = record { running = false; stop = none; closed = []; goroutines = []; panicked = false }

abbrev pub is_closed : List Bool → ℕ → Bool
is_closed chans c = or_else true (get_elem? chans c)

-- `close(t.stop)`: it panics on nil and on a closed channel.
unfoldable pub close_stop : Task → Task
close_stop t = elim t.stop [
  | none ↦ record t { panicked = true }
  | some c ↦
      if is_closed t.closed c
      then record t { panicked = true }
      else record t { closed = set t.closed c true }
]

unfoldable pub start : Bool → Task → Task
start first t = if t.running then t else record t {
  running = true;
  stop = some (length t.closed);
  closed = t.closed ++ false ∷ [];
  goroutines = t.goroutines ++ (if first then executing else entering) ∷ [];
}

unfoldable pub close : Task → Task
unfolding close_stop
close t = if t.running then close_stop (record t { running = false }) else t

abbrev pub move : ℕ → Phase → Task → Task
move k p t = record t { goroutines = set t.goroutines k p }

-- What goroutine `k` can do.
pub data Event : Type 0 where
  start_call : Bool → Event
  close_call : Event
  enter : ℕ → Event
  tick : ℕ → Event
  stopped : ℕ → Event
  succeed : ℕ → Event
  fail : ℕ → Event

-- An event of a goroutine that is not where the event starts from changes nothing.
abbrev pub at_phase : Event → Option Phase → Task → Task
at_phase (enter k) (some entering) t = move k (waiting t.stop) t
at_phase (tick k) (some (waiting c)) t = move k executing t
at_phase (stopped k) (some (waiting (some c))) t =
    if is_closed t.closed c then move k ended t else t
at_phase (succeed k) (some executing) t = move k entering t
at_phase (fail k) (some executing) t = move k ended (close_stop (record t { running = false }))
at_phase _ _ t = t

unfoldable pub step : Event → Task → Task
unfolding start close close_stop
step (start_call first) t = if t.panicked then t else start first t
step close_call t = if t.panicked then t else close t
step (enter k) t = if t.panicked then t else at_phase (enter k) (get_elem? t.goroutines k) t
step (tick k) t = if t.panicked then t else at_phase (tick k) (get_elem? t.goroutines k) t
step (stopped k) t = if t.panicked then t else at_phase (stopped k) (get_elem? t.goroutines k) t
step (succeed k) t = if t.panicked then t else at_phase (succeed k) (get_elem? t.goroutines k) t
step (fail k) t = if t.panicked then t else at_phase (fail k) (get_elem? t.goroutines k) t

unfoldable pub run : List Event → Task → Task
unfolding step
run [] t = t
run (e ∷ es) t = run es (step e t)
