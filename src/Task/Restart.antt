-- ===== src/Task/Restart.antt =====
-- What becomes of the goroutine that is in `Execute` when the task is closed.
use v2b_x_turbo.Base.{
  ℕ, zero, suc, ◌<◌, Bool, true, false, some, List, [], ◌∷◌, length, get_elem?, set, ◌≡◌, refl,
  arith,
}
use v2b_x_turbo.Task.{Task, executing, close_call, fail, is_closed, run}

pub is_closed-set :
    (chans : List Bool) (c : ℕ) → c < length chans → is_closed (set chans c true) c ≡ true
is_closed-set [] c h = elim h [ ]
is_closed-set (b ∷ chans) zero h = refl
is_closed-set (b ∷ chans) (suc c) h = is_closed-set chans c (omega arith)

-- A task that was closed while a goroutine executes panics when that execution fails.
pub close-fail-panics :
    (t : Task) (k c : ℕ)
    → t.panicked ≡ false
    → t.running ≡ true
    → t.stop ≡ some c
    → c < length t.closed
    → get_elem? t.goroutines k ≡ some executing
    → (run (close_call ∷ fail k ∷ []) t).panicked ≡ true
unfolding run
close-fail-panics t k c p r s lt g = ground (arith, is_closed-set t.closed c lt)
