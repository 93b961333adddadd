-- ===== src/Json5/Blanks.antt =====
-- What `prep` does to a text: it blanks some bytes, and its loop ends at the end of the text.
use v2b_x_turbo.Base.{
  suc, ◌&&◌, ◌||◌, not, leb, ℕ, zero, suc, ◌+◌, ◌-◌, ◌≤◌, ◌<◌, Bool, true, false, [], ◌∷◌, nat_eq,
  ltb, leb, ◌==◌, if◌then◌else◌, length, ◌≡◌, ◌⊎◌, inl, inr, refl, ap, arith, Bool-cases,
}
use v2b_x_turbo.Json5.{
  is_ws, Bytes, byte, blank, line_comment, block_comment, consume_line, consume_block,
  consume_comment, skip_string, trailing, round, prep_loop, prep,
}

-- The second text is the first with some bytes blanked.
abbrev pub Blanked : Bytes → Bytes → Type 0
Blanked [] [] = Unit
Blanked [] (y ∷ ys) = ⊥
Blanked (x ∷ xs) [] = ⊥
Blanked (x ∷ xs) (y ∷ ys) = ((y ≡ x) ⊎ (y ≡ 32)) × Blanked xs ys

Blanked-refl : (s : Bytes) → Blanked s s
Blanked-refl [] = tt
Blanked-refl (x ∷ s) = (inl refl, Blanked-refl s)

Blanked-trans : (s t u : Bytes) → Blanked s t → Blanked t u → Blanked s u
Blanked-trans [] [] u h k = k
Blanked-trans [] (y ∷ t) u h k = absurd h
Blanked-trans (x ∷ s) [] u h k = absurd h
Blanked-trans (x ∷ s) (y ∷ t) [] h k = absurd k
Blanked-trans (x ∷ s) (y ∷ t) (z ∷ u) h k = (ground (arith, h.0, k.0), Blanked-trans s t u h.1 k.1)

pub Blanked-blank : (s : Bytes) (i : ℕ) → Blanked s (blank s i)
unfolding blank
Blanked-blank [] i = tt
Blanked-blank (x ∷ s) zero = (inr refl, Blanked-refl s)
Blanked-blank (x ∷ s) (suc i) = (inl refl, Blanked-blank s i)

pub length-Blanked : (s t : Bytes) → Blanked s t → length t ≡ length s
length-Blanked [] [] h = refl
length-Blanked [] (y ∷ t) h = absurd h
length-Blanked (x ∷ s) [] h = absurd h
length-Blanked (x ∷ s) (y ∷ t) h = ap suc (length-Blanked s t h.1)

-- A loop that starts at `i` blanks bytes and does not move back.
pub record Runs (s : Bytes) (i : ℕ) (r : Bytes × ℕ) : Type 0 where
  pub blanks : Blanked s r.0
  pub forward : i ≤ r.1

Runs-stay : (s : Bytes) (i j : ℕ) → i ≤ j → Runs s i (s, j)
Runs-stay s i j h = record { blanks = Blanked-refl s; forward = h }

Runs-blank : (s : Bytes) (b i j : ℕ) (r : Bytes × ℕ) → i ≤ j → Runs (blank s b) j r → Runs s i r
Runs-blank s b i j r h k = record {
  blanks = Blanked-trans s (blank s b) r.0 (Blanked-blank s b) k.blanks;
  forward = omega arith;
}

Runs-then :
    (s : Bytes) (i : ℕ) (t : Bytes × ℕ) (r : Bytes × ℕ) → Runs s i t → Runs t.0 t.1 r → Runs s i r
Runs-then s i t r h k = record {
  blanks = Blanked-trans s t.0 r.0 h.blanks k.blanks;
  forward = omega arith;
}

Runs-later : (s : Bytes) (i j : ℕ) (r : Bytes × ℕ) → i ≤ j → Runs s j r → Runs s i r
Runs-later s i j r h k = record { blanks = k.blanks; forward = omega arith }

-- A test picks between two runs.
Runs-if :
    (b : Bool) (s : Bytes) (i : ℕ) (r r' : Bytes × ℕ)
    → Runs s i r
    → Runs s i r'
    → Runs s i (if b then r else r')
Runs-if true s i r r' h k = h
Runs-if false s i r r' h k = k

line_comment-Runs : (fuel : ℕ) (s : Bytes) (i : ℕ) → Runs s i (line_comment fuel s i)
unfolding line_comment
line_comment-Runs zero s i = Runs-stay s i i (omega arith)
line_comment-Runs (suc fuel) s i =
    Runs-if _ s i _ _
      (Runs-blank s i i (i + 1) _ (omega arith) (line_comment-Runs fuel (blank s i) (i + 1)))
      (Runs-stay s i i (omega arith))

block_comment-Runs : (fuel : ℕ) (s : Bytes) (i : ℕ) → Runs s i (block_comment fuel s i)
unfolding block_comment
block_comment-Runs zero s i = Runs-stay s i i (omega arith)
block_comment-Runs (suc fuel) s i =
    let s' = blank s i in
    let ends =
      Runs-blank s i i (i + 1) (blank s' (i + 1), i + 1) (omega arith)
        (Runs-blank s' (i + 1) (i + 1) (i + 1) (blank s' (i + 1), i + 1) (omega arith)
          (Runs-stay (blank s' (i + 1)) (i + 1) (i + 1) (omega arith))) in
    let past = Runs-blank s i i (i + 2) _ (omega arith) (block_comment-Runs fuel s' (i + 2)) in
    let next = Runs-blank s i i (i + 1) _ (omega arith) (block_comment-Runs fuel s' (i + 1)) in
    Runs-if (ltb i (length s)) s i _ _
      (Runs-if (byte s i == b'*') s i _ _
        (Runs-if (ltb (i + 1) (length s) && byte s' (i + 1) == b'/') s i _ _ ends past) next)
      (Runs-stay s i i (omega arith))

consume_line-Runs : (s : Bytes) (i : ℕ) → Runs s i (consume_line s i)
unfolding consume_line
consume_line-Runs s i =
    Runs-if _ s i _ _
      (Runs-blank s (i - 1) i i _ (omega arith) (line_comment-Runs (length s) (blank s (i - 1)) i))
      (Runs-stay s i i (omega arith))

consume_block-Runs : (s : Bytes) (i : ℕ) → Runs s i (consume_block s i)
unfolding consume_block
consume_block-Runs s i =
    let s' = blank s (i - 1) in
    Runs-if _ s i _ _
      (Runs-blank s (i - 1) i i _ (omega arith)
        (Runs-blank s' i i i _ (omega arith) (block_comment-Runs (length s) (blank s' i) i)))
      (Runs-stay s i i (omega arith))

pub consume_comment-Runs : (s : Bytes) (i : ℕ) → Runs s i (consume_comment s i)
unfolding consume_comment
consume_comment-Runs s i =
    let r = consume_line s i in
    Runs-then s i r _ (consume_line-Runs s i) (consume_block-Runs r.0 r.1)

skip_string-le : (fuel : ℕ) (s : Bytes) (i : ℕ) → i ≤ skip_string fuel s i
unfolding skip_string
skip_string-le zero s i = omega arith
skip_string-le (suc fuel) s i =
    ground (arith, skip_string-le fuel s (i + 1), skip_string-le fuel s (i + 2))

trailing-Runs : (fuel j : ℕ) (s : Bytes) (i : ℕ) → Runs s i (trailing fuel j s i)
unfolding trailing
trailing-Runs zero j s i = Runs-stay s i i (omega arith)
trailing-Runs (suc fuel) j s i =
    let r = consume_comment s (i + 2) in
    let stay = Runs-stay s i (i + 1) (omega arith) in
    let closes =
      Runs-blank s j i (i + 1) (blank s j, i + 1) (omega arith)
        (Runs-stay (blank s j) (i + 1) (i + 1) (omega arith)) in
    let commented =
      Runs-then s i r _ (Runs-later s i (i + 2) r (omega arith) (consume_comment-Runs s (i + 2)))
        (trailing-Runs fuel j r.0 r.1) in
    let next = Runs-later s i (i + 1) _ (omega arith) (trailing-Runs fuel j s (i + 1)) in
    let c = byte s (i + 1) in
    Runs-if (leb (length s) (i + 1)) s i _ _ stay (
      Runs-if (c == b'}' || c == b']') s i _ _ closes
        (Runs-if (c == b'/') s i _ _ commented (Runs-if (not (is_ws c)) s i _ _ stay next)))

trailing-moves : (fuel j : ℕ) (s : Bytes) (i : ℕ) → i < fuel → Runs s (i + 1) (trailing fuel j s i)
unfolding trailing
trailing-moves zero j s i h = elim h [ ]
trailing-moves (suc fuel) j s i h =
    let r = consume_comment s (i + 2) in
    let stay = Runs-stay s (i + 1) (i + 1) (omega arith) in
    let closes =
      Runs-blank s j (i + 1) (i + 1) (blank s j, i + 1) (omega arith)
        (Runs-stay (blank s j) (i + 1) (i + 1) (omega arith)) in
    let commented =
      Runs-then s (i + 1) r _
        (Runs-later s (i + 1) (i + 2) r (omega arith) (consume_comment-Runs s (i + 2)))
        (trailing-Runs fuel j r.0 r.1) in
    let next = trailing-Runs fuel j s (i + 1) in
    let c = byte s (i + 1) in
    Runs-if (leb (length s) (i + 1)) s (i + 1) _ _ stay (
      Runs-if (c == b'}' || c == b']') s (i + 1) _ _ closes (
        Runs-if (c == b'/') s (i + 1) _ _ commented
          (Runs-if (not (is_ws c)) s (i + 1) _ _ stay next)))

-- Each round of the loop of `prep` blanks bytes and moves on.
pub round-Runs : (s : Bytes) (i : ℕ) → i < length s → Runs s (i + 1) (round s i)
unfolding round
round-Runs s i h =
    let c = byte s i in
    let string = Runs-stay s (i + 1) _ (skip_string-le (length s) s (i + 1)) in
    Runs-if (c == b'"') s (i + 1) _ _ string (
      Runs-if (c == b'/') s (i + 1) _ _ (consume_comment-Runs s (i + 1)) (
        Runs-if (c == b',') s (i + 1) _ _ (trailing-moves (length s) i s i h)
          (Runs-stay s (i + 1) (i + 1) (omega arith))))

prep_loop-Runs : (fuel : ℕ) (s : Bytes) (i : ℕ) → Runs s i (prep_loop fuel s i)
unfolding prep_loop
prep_loop-Runs zero s i = Runs-stay s i i (omega arith)
prep_loop-Runs (suc fuel) s i = elim (Bool-cases (ltb i (length s))) [
  | inr done ↦ rw done (Runs-stay s i i (omega arith))
  | inl more ↦
      let r = round s i in
      rw more (
        Runs-later s i (i + 1) _ (omega arith)
          (Runs-then s (i + 1) r _ (round-Runs s i (ground arith)) (prep_loop-Runs fuel r.0 r.1)))
]

-- With a round for each byte left the loop ends by its test.
prep_loop_ends :
    (fuel : ℕ) (s : Bytes) (i : ℕ)
    → length s ≤ i + fuel
    → length (prep_loop fuel s i).0 ≤ (prep_loop fuel s i).1
unfolding prep_loop
prep_loop_ends zero s i h = omega arith
prep_loop_ends (suc fuel) s i h = elim (Bool-cases (ltb i (length s))) [
  | inr done ↦ rw done (ground arith)
  | inl more ↦
      let r = round s i in
      let k = round-Runs s i (ground arith) in
      let len = length-Blanked s r.0 k.blanks in
      rw more (prep_loop_ends fuel r.0 r.1 (omega (arith, len, k.forward)))
]

-- `prep` ends, having gone through the whole text, and its result is the text with some bytes
-- blanked: it has the same length, and each byte is the old one or a space.
pub prep-Blanked :
    (s : Bytes)
    → Blanked s (prep s) × (length (prep s) ≡ length s) × (length s ≤ (prep_loop (length s) s 0).1)
unfolding prep
prep-Blanked s =
    let r = prep_loop-Runs (length s) s 0 in
    let len = length-Blanked s (prep s) r.blanks in
    (r.blanks, len, omega (arith, len, prep_loop_ends (length s) s 0 (omega arith)))
