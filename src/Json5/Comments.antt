-- ===== src/Json5/Comments.antt =====
-- Which texts `prep` leaves alone.
use v2b_x_turbo.Base.{
  inl, inr, ℕ, zero, suc, nat_eq, ltb, length, ◌≡◌, ◌≢◌, refl, arith, Bool-cases,
}
use v2b_x_turbo.Json5.{Bytes, byte, round, prep_loop, prep}

-- No slash and no comma.
abbrev pub Plain : Bytes → Type 0
Plain s = (i : ℕ) → (byte s i ≢ b'/') × (byte s i ≢ b',')

round-Plain : (s : Bytes) (i : ℕ) → Plain s → (round s i).0 ≡ s
unfolding round
round-Plain s i h = ground (arith, h i)

prep_loop-Plain : (fuel : ℕ) (s : Bytes) (i : ℕ) → Plain s → (prep_loop fuel s i).0 ≡ s
unfolding prep_loop
prep_loop-Plain zero s i h = refl
prep_loop-Plain (suc fuel) s i h = elim (Bool-cases (ltb i (length s))) [
  | inr done ↦ rw done refl
  | inl more ↦ rw (more, round-Plain s i h) (prep_loop-Plain fuel s (round s i).1 h)
]

-- A text with no slash and no comma is not changed.
pub prep-Plain : (s : Bytes) → Plain s → prep s ≡ s
unfolding prep
prep-Plain s h = prep_loop-Plain (length s) s 0 h
