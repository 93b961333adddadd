-- ===== src/Task/Channels.antt =====
-- The invariant of the channels of a task, kept by every step.
use v2b_x_turbo.Base.{
  ℕ, ◌<◌, Bool, true, false, Option, none, some, [], ◌∷◌, length, get_elem?, set, length-append,
  nat_eq, ◌≡◌, ◌⊎◌, refl, sym, ap, subst, ◌∙◌, arith, Option-cases, Bool-cases, inl, inr,
  if◌then◌else◌,
}
use v2b_x_turbo.Task.{
  Phase, entering, waiting, executing, ended, Task, is_closed, close_stop, start, close, move,
  Event, start_call, close_call, enter, tick, stopped, succeed, fail, at_phase, step,
}
use v2b_x_turbo.Task.Restart.{is_closed-set}
use v2b_x_turbo.Task.Lists.{
  is_closed-append, is_closed-append_new, is_closed-set_keeps, length-set, get_elem?-append_inv,
  get_elem?-set_inv,
}

-- A running task has a channel that is open, and a stopped one a channel that is closed, if any.
-- Each goroutine that waits does so on the task's channel or on one that is closed.
pub record IsValid (t : Task) : Type 0 where
  pub ranged : (c : ℕ) → t.stop ≡ some c → c < length t.closed
  pub is_open : t.running ≡ true → (c : ℕ) × (t.stop ≡ some c) × (is_closed t.closed c ≡ false)
  pub is_shut : t.running ≡ false → (c : ℕ) → t.stop ≡ some c → is_closed t.closed c ≡ true
  pub heard :
      (k c : ℕ)
      → get_elem? t.goroutines k ≡ some (waiting (some c))
      → (c < length t.closed) × ((is_closed t.closed c ≡ true) ⊎ (t.stop ≡ some c))
  pub begun : (k : ℕ) (p : Phase) → get_elem? t.goroutines k ≡ some p → (c : ℕ) × (t.stop ≡ some c)
  pub told : (k : ℕ) → get_elem? t.goroutines k ≡ some (waiting none) → ⊥

-- A goroutine moves to a place that is not the `select`, or to the `select` with the task's channel.
move-IsValid :
    (k : ℕ) (p : Phase) (t : Task)
    → IsValid t
    → ((c : Option ℕ) → p ≡ waiting c → c ≡ t.stop)
    → IsValid (move k p t)
move-IsValid k p t v h = record {
  ranged = v.ranged;
  is_open = v.is_open;
  is_shut = v.is_shut;
  heard = λ j c e. elim (get_elem?-set_inv t.goroutines k j p (waiting (some c)) e) [
    | inl old ↦ v.heard j c old
    | inr (same, o) ↦ (v.ranged c (sym (h (some c) same)), inr (sym (h (some c) same)))
  ];
  begun = λ j q e. elim (get_elem?-set_inv t.goroutines k j p q e) [
    | inl old ↦ v.begun j q old
    | inr (same, (o, f)) ↦ v.begun j o f
  ];
  told = λ j e. elim (get_elem?-set_inv t.goroutines k j p (waiting none) e) [
    | inl old ↦ v.told j old
    | inr (same, (o, f)) ↦ let (c, g) = v.begun j o f in absurd (ground (arith, h none same, g))
  ];
}

not_waiting :
    (first : Bool) (c : Option ℕ) → (if first then executing else entering) ≡ waiting c → ⊥
not_waiting true c e = cc
not_waiting false c e = cc

start-IsValid : (first : Bool) (t : Task) → IsValid t → t.running ≡ false → IsValid (start first t)
unfolding start
start-IsValid first t v r =
    rw (start, r)
      (record {
        ranged = λ c e. ground (arith, length-append t.closed (false ∷ []));
        is_open = λ x. (length t.closed, refl, is_closed-append_new t.closed false);
        is_shut = λ x. absurd (ground (arith, x));
        heard = λ k c e. elim (get_elem?-append_inv t.goroutines _ (waiting (some c)) k e) [
          | inl old ↦
              let (lt, h) = v.heard k c old in
              (
                ground (arith, length-append t.closed (false ∷ [])),
                inl (
                    is_closed-append t.closed false c lt
                    ∙ elim h [ inl a ↦ a | inr b ↦ v.is_shut r c b ]),
              )
          | inr new ↦ absurd (not_waiting first (some c) new)
        ];
        begun = λ k p e. (length t.closed, refl);
        told = λ k e. elim (get_elem?-append_inv t.goroutines _ (waiting none) k e) [
          | inl old ↦ v.told k old
          | inr new ↦ not_waiting first none new
        ];
      })

-- The channel of a running task is closed without a panic.
shut-IsValid :
    (c : ℕ) (t : Task)
    → IsValid t
    → t.stop ≡ some c
    → IsValid (record t { running = false; closed = set t.closed c true })
shut-IsValid c t v s = record {
  ranged = λ d e. ground (arith, v.ranged d e, length-set t.closed c true);
  is_open = λ r. cc;
  is_shut = λ r d e. ground (arith, is_closed-set t.closed c (v.ranged c s));
  heard = λ j d e.
      let (lt, h) = v.heard j d e in
      (
        ground (arith, length-set t.closed c true),
        elim h [ inl a ↦ inl (is_closed-set_keeps t.closed c d a) | inr b ↦ inr b ],
      );
  begun = v.begun;
  told = v.told;
}

-- What a close leaves, if it does not panic.
close_stop-IsValid :
    (t : Task)
    → IsValid t
    → let t' = close_stop (record t { running = false }) in
      t.panicked ≡ false → t'.panicked ≡ false → IsValid t'
unfolding close_stop
close_stop-IsValid t v p q = elim (Option-cases t.stop) [
  | inl e ↦ absurd (ground arith)
  | inr (c, e) ↦ elim (Bool-cases (is_closed t.closed c)) [
    | inl f ↦ absurd (ground arith)
    | inr f ↦ rw (close_stop, e, f) (shut-IsValid c t v e)
  ]
]

channel : Phase → Option ℕ
channel (waiting c) = c
channel _ = none

at_phase-IsValid :
    (e : Event) (o : Option Phase) (t : Task)
    → IsValid t
    → t.panicked ≡ false
    → (at_phase e o t).panicked ≡ false
    → IsValid (at_phase e o t)
unfolding channel
at_phase-IsValid (enter k) (some entering) t v p q =
    move-IsValid k (waiting t.stop) t v (λ c e. sym (ap channel e))
at_phase-IsValid (tick k) (some (waiting c)) t v p q =
    move-IsValid k executing t v (λ d e. absurd (ground (arith, e)))
at_phase-IsValid (stopped k) (some (waiting (some c))) t v p q =
    elim (Bool-cases (is_closed t.closed c)) [
      | inl f ↦ rw f (move-IsValid k ended t v (λ d e. absurd (ground (arith, e))))
      | inr f ↦ rw f v
    ]
at_phase-IsValid (succeed k) (some executing) t v p q =
    move-IsValid k entering t v (λ d e. absurd (ground (arith, e)))
at_phase-IsValid (fail k) (some executing) t v p q =
    move-IsValid k ended (close_stop (record t { running = false })) (close_stop-IsValid t v p q)
      (λ d e. absurd (ground (arith, e)))
at_phase-IsValid _ _ t v p q = v

step-start :
    (first : Bool) (t : Task) → t.panicked ≡ false → step (start_call first) t ≡ start first t
unfolding step
step-start first t p = ground arith

step-close :
    (t : Task)
    → t.panicked ≡ false
    → t.running ≡ true
    → step close_call t ≡ close_stop (record t { running = false })
unfolding step close
step-close t p r = ground arith

step-close_idle : (t : Task) → t.panicked ≡ false → t.running ≡ false → step close_call t ≡ t
unfolding step close
step-close_idle t p r = ground arith

step-phase :
    (e : Event) (o : Option Phase) (t : Task)
    → step e t ≡ at_phase e o t
    → IsValid t
    → t.panicked ≡ false
    → (step e t).panicked ≡ false
    → IsValid (step e t)
step-phase e o t same v p q =
    subst IsValid (sym same)
      (at_phase-IsValid e o t v p (sym (ap (λ (x : Task). x.panicked) same) ∙ q))

-- A step that does not panic keeps the invariant.
pub step-IsValid :
    (e : Event) (t : Task)
    → IsValid t
    → t.panicked ≡ false
    → (step e t).panicked ≡ false
    → IsValid (step e t)
unfolding step start close
step-IsValid (start_call first) t v p q = elim (Bool-cases t.running) [
  | inl r ↦ let same : step (start_call first) t ≡ t = ground arith in subst IsValid (sym same) v
  | inr r ↦ subst IsValid (sym (step-start first t p)) (start-IsValid first t v r)
]
step-IsValid close_call t v p q = elim (Bool-cases t.running) [
  | inl r ↦
      let same : step close_call t ≡ close_stop (record t { running = false }) = step-close t p r in
      subst IsValid (sym same) (close_stop-IsValid t v p (ground arith))
  | inr r ↦ subst IsValid (sym (step-close_idle t p r)) v
]
step-IsValid (enter k) t v p q =
    step-phase (enter k) (get_elem? t.goroutines k) t (ground arith) v p q
step-IsValid (tick k) t v p q =
    step-phase (tick k) (get_elem? t.goroutines k) t (ground arith) v p q
step-IsValid (stopped k) t v p q =
    step-phase (stopped k) (get_elem? t.goroutines k) t (ground arith) v p q
step-IsValid (succeed k) t v p q =
    step-phase (succeed k) (get_elem? t.goroutines k) t (ground arith) v p q
step-IsValid (fail k) t v p q =
    step-phase (fail k) (get_elem? t.goroutines k) t (ground arith) v p q
