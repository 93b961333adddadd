-- ===== src/Base/Text.antt =====
-- What the code uses of Go's `strings` and `strconv`, on native texts.
use Prim.Native.Nat.{ℕ, zero, suc, ◌+◌, ◌-◌, ◌*◌, ◌/◌, ◌%◌, ◌<◌, min}
use Prim.Native.Char.{code}
use Prim.Native.String.{String, ◌++◌}
use mathlib.Core.Path.{◌≡◌, refl, sym, ap, ◌∙◌}
use mathlib.Core.Logic.{inl, inr}
use mathlib.Core.Bool.{Bool, true, false}
use mathlib.Core.Option.{Option, none, some}
use native.Mathlib.Omega.{arith}
use text.Mathlib.TextLemmas.{nil-append, cons-append}
use v2b_x_turbo.Base.Tests.{nat_beq, ltb, if◌then◌else◌, Bool-cases}
use v2b_x_turbo.Base.Int.{ℤ, pos, negsuc, pos_part, neg_part}

-- `strings.CutPrefix`: the text behind a prefix, where it stands.
unfoldable pub cut_prefix : String → String → Option String
cut_prefix s String.[] = some s
cut_prefix String.[] (String.◌∷◌ d p) = none
cut_prefix (String.◌∷◌ c s) (String.◌∷◌ d p) =
    let rest = cut_prefix s p in if nat_beq (code c) (code d) then rest else none

abbrev or_whole : String → Option String → String
or_whole s none = s
or_whole s (some r) = r

-- `strings.TrimPrefix`
unfoldable pub trim_prefix : String → String → String
unfolding cut_prefix
trim_prefix s p = or_whole s (cut_prefix s p)

-- `strings.HasPrefix`
unfoldable pub has_prefix : String → String → Bool
unfolding cut_prefix
has_prefix s p = elim (cut_prefix s p) [ none ↦ false | some r ↦ true ]

abbrev pub digit : ℕ → String
digit zero = "0"
digit (suc zero) = "1"
digit (suc (suc zero)) = "2"
digit (suc (suc (suc zero))) = "3"
digit (suc (suc (suc (suc zero)))) = "4"
digit (suc (suc (suc (suc (suc zero))))) = "5"
digit (suc (suc (suc (suc (suc (suc zero)))))) = "6"
digit (suc (suc (suc (suc (suc (suc (suc zero))))))) = "7"
digit (suc (suc (suc (suc (suc (suc (suc (suc zero)))))))) = "8"
digit (suc (suc (suc (suc (suc (suc (suc (suc (suc n))))))))) = "9"

-- The decimal digits of a number below the fuel.
unfoldable pub decimal : ℕ → ℕ → String
decimal zero n = ""
decimal (suc f) n =
    let rest = decimal f (n / 10) in if ltb n 10 then digit n else rest ++ digit (n % 10)

-- `strconv.Itoa`
unfoldable pub itoa : ℤ → String
unfolding decimal
itoa (pos n) = decimal (suc n) n
itoa (negsuc n) = "-" ++ decimal (suc (suc n)) (suc n)

-- What a print spells: its value and its signs.
value : ℕ → String → ℕ
value acc String.[] = acc
value acc (String.◌∷◌ c s) = value (acc * 10 + (code c - 48)) s

signs : String → ℕ
signs String.[] = 0
signs (String.◌∷◌ c s) = (if nat_beq (code c) 45 then 1 else 0) + signs s

value-append : (s t : String) (acc : ℕ) → value acc (s ++ t) ≡ value (value acc s) t
unfolding value
value-append String.[] t acc = rw nil-append
value-append (String.◌∷◌ c s) t acc = rw cons-append (value-append s t _)

signs-append : (s t : String) → signs (s ++ t) ≡ signs s + signs t
unfolding signs
signs-append String.[] t = rw nil-append (omega arith)
signs-append (String.◌∷◌ c s) t = rw cons-append (omega (arith, signs-append s t))

digit_lem : (d acc : ℕ) → d < 10 → (value acc (digit d) ≡ acc * 10 + d) × (signs (digit d) ≡ 0)
unfolding value signs
digit_lem zero acc h = (omega arith, refl)
digit_lem (suc zero) acc h = (omega arith, refl)
digit_lem (suc (suc zero)) acc h = (omega arith, refl)
digit_lem (suc (suc (suc zero))) acc h = (omega arith, refl)
digit_lem (suc (suc (suc (suc zero)))) acc h = (omega arith, refl)
digit_lem (suc (suc (suc (suc (suc zero))))) acc h = (omega arith, refl)
digit_lem (suc (suc (suc (suc (suc (suc zero)))))) acc h = (omega arith, refl)
digit_lem (suc (suc (suc (suc (suc (suc (suc zero))))))) acc h = (omega arith, refl)
digit_lem (suc (suc (suc (suc (suc (suc (suc (suc zero)))))))) acc h = (omega arith, refl)
digit_lem (suc (suc (suc (suc (suc (suc (suc (suc (suc n))))))))) acc h = (omega arith, refl)

decimal_step :
    (f n : ℕ)
    → decimal (suc f) n ≡ (if ltb n 10 then digit n else decimal f (n / 10) ++ digit (n % 10))
unfolding decimal
decimal_step f n = refl

decimal_lem : (f n : ℕ) → n < f → (value 0 (decimal f n) ≡ n) × (signs (decimal f n) ≡ 0)
decimal_lem zero n h = elim h [ ]
decimal_lem (suc f) n h = elim (Bool-cases (ltb n 10)) [
  | inl small ↦
      let d = digit_lem n 0 (ground arith) in rw (decimal_step, small) (omega (arith, d.0), d.1)
  | inr large ↦
      let ih = decimal_lem f (n / 10) (ground arith) in
      let d = digit_lem (n % 10) (n / 10) (omega arith) in
      rw (decimal_step, large, value-append, signs-append, ih.0)
        (omega (arith, d.0), omega (arith, ih.1, d.1))
]

itoa_lem :
    (a : ℤ) → (value 0 (itoa a) ≡ pos_part a + neg_part a) × (signs (itoa a) ≡ min 1 (neg_part a))
unfolding itoa value signs
itoa_lem (pos n) =
    let d = decimal_lem (suc n) n (omega arith) in (omega (arith, d.0), omega (arith, d.1))
itoa_lem (negsuc n) =
    let d = decimal_lem (suc (suc n)) (suc n) (omega arith) in
    rw (value-append, signs-append) (omega (arith, d.0), omega (arith, d.1))

int_of_size :
    (a b : ℤ)
    → pos_part a + neg_part a ≡ pos_part b + neg_part b
    → min 1 (neg_part a) ≡ min 1 (neg_part b)
    → a ≡ b
int_of_size a b h k = ground arith

-- No two numbers print alike.
pub itoa-injective : (a b : ℤ) → itoa a ≡ itoa b → a ≡ b
itoa-injective a b h =
    let (va, sa) = itoa_lem a in
    let (vb, sb) = itoa_lem b in
    int_of_size a b (sym va ∙ ap (value 0) h ∙ vb) (sym sa ∙ ap signs h ∙ sb)
