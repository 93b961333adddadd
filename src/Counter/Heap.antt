-- ===== src/Counter/Heap.antt =====
-- The heap of storages: what stands at an address behind an allocation and behind a write.
use v2b_x_turbo.Base.{
  ℕ, zero, suc, ◌<◌, List, [], ◌∷◌, ◌++◌, string_eq, length, set, ◌≡◌, ◌≢◌, refl, arith, ap,
}
use v2b_x_turbo.Counter.{Storage, at}

pub at-append_old :
    (h : List Storage) (s : Storage) (a : ℕ) → a < length h → at (h ++ s ∷ []) a ≡ at h a
unfolding at
at-append_old [] s a lt = elim lt [ ]
at-append_old (x ∷ h) s zero lt = refl
at-append_old (x ∷ h) s (suc a) lt = at-append_old h s a (omega arith)

pub at-append_new : (h : List Storage) (s : Storage) → at (h ++ s ∷ []) (length h) ≡ s
unfolding at
at-append_new [] s = refl
at-append_new (x ∷ h) s = at-append_new h s

pub at-set_self : (h : List Storage) (a : ℕ) (s : Storage) → a < length h → at (set h a s) a ≡ s
unfolding at
at-set_self [] a s lt = elim lt [ ]
at-set_self (x ∷ h) zero s lt = refl
at-set_self (x ∷ h) (suc a) s lt = at-set_self h a s (omega arith)

pub at-set_ne : (h : List Storage) (a b : ℕ) (s : Storage) → a ≢ b → at (set h a s) b ≡ at h b
unfolding at
at-set_ne [] a b s ne = refl
at-set_ne (x ∷ h) zero zero s ne = absurd (ne refl)
at-set_ne (x ∷ h) zero (suc b) s ne = refl
at-set_ne (x ∷ h) (suc a) zero s ne = refl
at-set_ne (x ∷ h) (suc a) (suc b) s ne = at-set_ne h a b s (λ e. ne (ap suc e))

pub length-set : (h : List Storage) (a : ℕ) (s : Storage) → length (set h a s) ≡ length h
length-set [] a s = refl
length-set (x ∷ h) zero s = refl
length-set (x ∷ h) (suc a) s = ap suc (length-set h a s)
