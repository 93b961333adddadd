-- ===== src/Base/Net.antt =====
-- `strconv.Atoi`, `net.SplitHostPort` and `strings.Contains` for one character, of texts in ASCII.
use Prim.Native.Char.{code}
use Prim.Native.String.{String}
use Prim.Native.Nat.{ℕ, zero, suc, ◌+◌, ◌-◌, ◌*◌}
use mathlib.Core.Bool.{Bool, true, false, not, ◌&&◌, ◌||◌}
use mathlib.Core.Option.{Option, none, some}
use v2b_x_turbo.Base.Int.{ℤ, pos, negsuc}
use v2b_x_turbo.Base.Tests.{ltb, leb, if◌then◌else◌, string_eq, nat_eq, ◌==◌}

-- The digits of a text, with the number read so far; `none` for any other byte.
digits : ℕ → String → Option ℕ
digits n String.[] = some n
digits n (String.◌∷◌ c s) =
    let rest = digits (n * 10 + (code c - 48)) s in
    if leb 48 (code c) && leb (code c) 57 then rest else none

some_digits : String → Option ℕ
unfolding digits
some_digits String.[] = none
some_digits (String.◌∷◌ c s) = digits 0 (String.◌∷◌ c s)

-- The value that `strconv.Atoi` returns, its error put aside: 0, or the nearest `int`.
unfoldable pub atoi : String → ℤ
unfolding some_digits
atoi String.[] = pos 0
atoi (String.◌∷◌ c s) =
    if code c == 45
    then elim (some_digits s) [
      | none ↦ pos 0
      | some zero ↦ pos 0
      | some (suc n) ↦ if ltb n 9223372036854775808 then negsuc n else negsuc 9223372036854775807
    ]
    else elim (some_digits (if code c == 43 then s else String.◌∷◌ c s)) [
      | none ↦ pos 0
      | some n ↦ if ltb n 9223372036854775808 then pos n else pos 9223372036854775807
    ]

-- Whether `strconv.Atoi` returns no error.
unfoldable pub is_int : String → Bool
unfolding some_digits
is_int String.[] = false
is_int (String.◌∷◌ c s) =
    if code c == 45
    then elim (some_digits s) [ none ↦ false | some n ↦ leb n 9223372036854775808 ]
    else elim (some_digits (if code c == 43 then s else String.◌∷◌ c s)) [
      | none ↦ false
      | some n ↦ ltb n 9223372036854775808
    ]

-- `strings.Contains` with a text of one character.
unfoldable pub has_char : ℕ → String → Bool
has_char k String.[] = false
has_char k (String.◌∷◌ c s) = let rest = has_char k s in if code c == k then true else rest

-- A text cut at the first and at the last place where a character stands, which is left out.
unfoldable pub cut_first : ℕ → String → Option (String × String)
cut_first k String.[] = none
cut_first k (String.◌∷◌ c s) =
    let rest = cut_first k s in
    if code c == k
    then some ("", s)
    else elim rest [ none ↦ none | some (a, b) ↦ some (String.◌∷◌ c a, b) ]

unfoldable pub cut_last : ℕ → String → Option (String × String)
cut_last k String.[] = none
cut_last k (String.◌∷◌ c s) = elim (cut_last k s) [
  | some (a, b) ↦ some (String.◌∷◌ c a, b)
  | none ↦ if code c == k then some ("", s) else none
]

-- `net.SplitHostPort` behind an opening bracket: the host ends at the closing one, and the port
-- follows behind one colon.
bracketed : String → Option (String × String)
unfolding cut_first has_char
bracketed s = elim (cut_first 93 s) [
  | none ↦ none
  | some (host, behind) ↦ elim (cut_first 58 behind) [
    | none ↦ none
    | some (between, port) ↦
        if between == ""
          && not (has_char 58 port)
          && not (has_char 91 host)
          && not (has_char 91 port)
          && not (has_char 93 port)
        then some (host, port)
        else none
  ]
]

-- `net.SplitHostPort`; `none` is an error.
unfoldable pub split_host_port : String → Option (String × String)
unfolding bracketed cut_last has_char
split_host_port String.[] = none
split_host_port (String.◌∷◌ c s) =
    if code c == 91 then bracketed s else elim (cut_last 58 (String.◌∷◌ c s)) [
      | none ↦ none
      | some (host, port) ↦
          if has_char 58 host || has_char 91 (String.◌∷◌ c s) || has_char 93 (String.◌∷◌ c s)
          then none
          else some (host, port)
    ]
