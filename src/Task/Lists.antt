-- ===== src/Task/Lists.antt =====
-- Channels and goroutines by their numbers, behind an append and a set.
use v2b_x_turbo.Base.{
  ℕ, zero, suc, ◌<◌, Bool, true, some, List, [], ◌∷◌, ◌++◌, length, get_elem?, set, nat_eq, ◌≡◌,
  ◌⊎◌, refl, ap, arith, inl, inr,
}
use v2b_x_turbo.Task.{Phase, is_closed}

pub is_closed-append :
    (chans : List Bool) (b : Bool) (c : ℕ)
    → c < length chans
    → is_closed (chans ++ b ∷ []) c ≡ is_closed chans c
is_closed-append [] b c h = elim h [ ]
is_closed-append (x ∷ chans) b zero h = refl
is_closed-append (x ∷ chans) b (suc c) h = is_closed-append chans b c (omega arith)

pub is_closed-append_new :
    (chans : List Bool) (b : Bool) → is_closed (chans ++ b ∷ []) (length chans) ≡ b
is_closed-append_new [] b = refl
is_closed-append_new (x ∷ chans) b = is_closed-append_new chans b

pub is_closed-set_keeps :
    (chans : List Bool) (i c : ℕ) → is_closed chans c ≡ true → is_closed (set chans i true) c ≡ true
is_closed-set_keeps [] i c h = h
is_closed-set_keeps (x ∷ chans) zero zero h = refl
is_closed-set_keeps (x ∷ chans) zero (suc c) h = h
is_closed-set_keeps (x ∷ chans) (suc i) zero h = h
is_closed-set_keeps (x ∷ chans) (suc i) (suc c) h = is_closed-set_keeps chans i c h

pub length-set : (chans : List Bool) (i : ℕ) (b : Bool) → length (set chans i b) ≡ length chans
length-set [] i b = refl
length-set (x ∷ chans) zero b = refl
length-set (x ∷ chans) (suc i) b = ap suc (length-set chans i b)

-- A goroutine of a longer list is an old one or the new one.
pub get_elem?-append_inv :
    (ps : List Phase) (q p : Phase) (k : ℕ)
    → get_elem? (ps ++ q ∷ []) k ≡ some p
    → (get_elem? ps k ≡ some p) ⊎ (q ≡ p)
get_elem?-append_inv [] q p zero e = inr (ground arith)
get_elem?-append_inv [] q p (suc k) e = cc
get_elem?-append_inv (x ∷ ps) q p zero e = inl e
get_elem?-append_inv (x ∷ ps) q p (suc k) e = get_elem?-append_inv ps q p k e

pub get_elem?-set_inv :
    (ps : List Phase) (i k : ℕ) (q p : Phase)
    → get_elem? (set ps i q) k ≡ some p
    → (get_elem? ps k ≡ some p) ⊎ ((q ≡ p) × ((o : Phase) × (get_elem? ps k ≡ some o)))
get_elem?-set_inv [] i k q p e = inl e
get_elem?-set_inv (x ∷ ps) zero zero q p e = inr (ground arith, (x, refl))
get_elem?-set_inv (x ∷ ps) zero (suc k) q p e = inl e
get_elem?-set_inv (x ∷ ps) (suc i) zero q p e = inl e
get_elem?-set_inv (x ∷ ps) (suc i) (suc k) q p e = get_elem?-set_inv ps i k q p e
