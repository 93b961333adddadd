-- ===== src/Task/Ending.antt =====
-- The states that a task reaches, and the end of its goroutines behind `Close`.
use v2b_x_turbo.Base.{
  ℕ, true, false, none, some, List, [], ◌∷◌, get_elem?, get_elem?-set_self, ◌≡◌, refl, subst, sym,
  arith, Bool-cases, inl, inr,
}
use v2b_x_turbo.Task.{
  Phase, entering, waiting, executing, ended, Task, new_task, is_closed, close_stop, close, move,
  Event, close_call, enter, stopped, succeed, start_call, tick, fail, step, run,
}
use v2b_x_turbo.Task.Channels.{IsValid, step-IsValid}

step_panicked : (e : Event) (t : Task) → t.panicked ≡ true → (step e t).panicked ≡ true
unfolding step
step_panicked (start_call first) t p = ground arith
step_panicked close_call t p = ground arith
step_panicked (enter k) t p = ground arith
step_panicked (tick k) t p = ground arith
step_panicked (stopped k) t p = ground arith
step_panicked (succeed k) t p = ground arith
step_panicked (fail k) t p = ground arith

run_panicked : (es : List Event) (t : Task) → t.panicked ≡ true → (run es t).panicked ≡ true
unfolding run
run_panicked [] t p = p
run_panicked (e ∷ es) t p = run_panicked es (step e t) (step_panicked e t p)

run-IsValid :
    (es : List Event) (t : Task)
    → IsValid t
    → t.panicked ≡ false
    → (run es t).panicked ≡ false
    → IsValid (run es t)
unfolding run
run-IsValid [] t v p q = v
run-IsValid (e ∷ es) t v p q = elim (Bool-cases (step e t).panicked) [
  | inl bad ↦ absurd (ground (arith, run_panicked es (step e t) bad))
  | inr good ↦ run-IsValid es (step e t) (step-IsValid e t v p good) good q
]

new_task-IsValid : IsValid new_task
unfolding new_task
new_task-IsValid = record {
  ranged = λ c e. cc;
  is_open = λ e. cc;
  is_shut = λ r c e. cc;
  heard = λ k c e. cc;
  begun = λ k p e. cc;
  told = λ k e. cc;
}

-- Whatever calls and goroutines do to a new task: as long as no channel has been closed twice, a
-- running task has an open channel, a stopped one has a closed channel if it was ever started, and
-- each goroutine that waits does so on the task's channel or on a closed one.
pub run_lem : (es : List Event) → (run es new_task).panicked ≡ false → IsValid (run es new_task)
unfolding new_task
run_lem es p = run-IsValid es new_task new_task-IsValid refl p

-- What is left for a goroutine to do: an `Execute` that succeeds, its way to the `select`, and
-- the closed channel there.
unfoldable pub finish : ℕ → Phase → List Event
finish k executing = succeed k ∷ enter k ∷ stopped k ∷ []
finish k entering = enter k ∷ stopped k ∷ []
finish k (waiting c) = stopped k ∷ []
finish k ended = []

ends_waiting :
    (k c : ℕ) (t : Task)
    → t.panicked ≡ false
    → is_closed t.closed c ≡ true
    → get_elem? t.goroutines k ≡ some (waiting (some c))
    → let t' = run (stopped k ∷ []) t in
      (get_elem? t'.goroutines k ≡ some ended) × (t'.panicked ≡ false)
unfolding run step
ends_waiting k c t p f g =
    let same : step (stopped k) t ≡ move k ended t = ground arith in
    ground (arith, get_elem?-set_self t.goroutines k ended (waiting (some c)) g)

ends_entering :
    (k c : ℕ) (t : Task)
    → t.panicked ≡ false
    → t.stop ≡ some c
    → is_closed t.closed c ≡ true
    → get_elem? t.goroutines k ≡ some entering
    → let t' = run (enter k ∷ stopped k ∷ []) t in
      (get_elem? t'.goroutines k ≡ some ended) × (t'.panicked ≡ false)
unfolding run step
ends_entering k c t p s f g =
    let same : step (enter k) t ≡ move k (waiting (some c)) t = ground arith in
    let Ends : Task → Type 0 = λ x.
      (get_elem? (run (stopped k ∷ []) x).goroutines k ≡ some ended)
      × ((run (stopped k ∷ []) x).panicked ≡ false) in
    subst Ends (sym same) (
      ends_waiting k c (move k (waiting (some c)) t) p f
        (get_elem?-set_self t.goroutines k (waiting (some c)) entering g))

ends_executing :
    (k c : ℕ) (t : Task)
    → t.panicked ≡ false
    → t.stop ≡ some c
    → is_closed t.closed c ≡ true
    → get_elem? t.goroutines k ≡ some executing
    → let t' = run (succeed k ∷ enter k ∷ stopped k ∷ []) t in
      (get_elem? t'.goroutines k ≡ some ended) × (t'.panicked ≡ false)
unfolding run step
ends_executing k c t p s f g =
    let same : step (succeed k) t ≡ move k entering t = ground arith in
    let es : List Event = enter k ∷ stopped k ∷ [] in
    let Ends : Task → Type 0 =
      λ x. (get_elem? (run es x).goroutines k ≡ some ended) × ((run es x).panicked ≡ false) in
    subst Ends (sym same) (
      ends_entering k c (move k entering t) p s f
        (get_elem?-set_self t.goroutines k entering executing g))

running-close : (t : Task) → t.panicked ≡ false → (step close_call t).running ≡ false
unfolding step close close_stop
running-close t p = ground arith

finishes :
    (k : ℕ) (p : Phase) (t : Task)
    → IsValid t
    → t.running ≡ false
    → t.panicked ≡ false
    → get_elem? t.goroutines k ≡ some p
    → let t' = run (finish k p) t in
      (get_elem? t'.goroutines k ≡ some ended) × (t'.panicked ≡ false)
unfolding finish run
finishes k executing t v r q g =
    let (c, s) = v.begun k executing g in ends_executing k c t q s (v.is_shut r c s) g
finishes k entering t v r q g =
    let (c, s) = v.begun k entering g in ends_entering k c t q s (v.is_shut r c s) g
finishes k (waiting none) t v r q g = absurd (v.told k g)
finishes k (waiting (some c)) t v r q g =
    ends_waiting k c t q (elim (v.heard k c g).1 [ inl a ↦ a | inr b ↦ v.is_shut r c b ]) g
finishes k ended t v r q g = (g, q)

-- Behind a `Close`, every goroutine can end, and does so without a panic: from where it is, with an
-- `Execute` that succeeds if it is in one, it comes to a closed channel in its `select`.
pub finish_lem :
    (es : List Event) (k : ℕ) (p : Phase)
    → let t = step close_call (run es new_task) in
      t.panicked ≡ false
      → get_elem? t.goroutines k ≡ some p
      → let t' = run (finish k p) t in
        (get_elem? t'.goroutines k ≡ some ended) × (t'.panicked ≡ false)
unfolding finish
finish_lem es k p q g =
    let t = run es new_task in
    elim (Bool-cases t.panicked) [
      | inl bad ↦ absurd (ground (arith, step_panicked close_call t bad))
      | inr good ↦
          let v = step-IsValid close_call t (run_lem es good) good q in
          finishes k p (step close_call t) v (running-close t good) q g
    ]
