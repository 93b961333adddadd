-- ===== src/Json5/Reader.antt =====
-- common/json5/json5.go: `TrimNodeReader`, an `io.Reader` that hands out the text that `prep` makes. The
-- reader below it is a state `R`, and `copy` is `io.Copy` from it into a buffer.
use v2b_x_turbo.Base.{
  ℕ, ◌+◌, ◌-◌, ◌≤◌, String, Option, none, some, Result, ok, err, List, [], ◌∷◌, ◌++◌, length, ◌≡◌,
  refl, ap, sym, ◌∙◌, arith, take, drop, take-append-drop, length-drop,
}
use mathlib.Core.List.{append-nil, append_assoc}
use v2b_x_turbo.Json5.{Bytes, prep}
use v2b_x_turbo.Json5.Blanks.{prep-Blanked}

-- `br` holds the bytes that are left of the buffer.
pub record TrimNodeReader (R : Type 0) : Type 0 where
  pub r : R
  pub br : Option Bytes

unfoldable pub new_trim_node_reader : {R : Type 0} → R → TrimNodeReader R
new_trim_node_reader r = record { r = r; br = none }

-- `Read` of `bytes.Reader`, into a slice of some length.
unfoldable pub read_bytes : ℕ → Bytes → (Bytes × Option String) × Bytes
read_bytes n [] = (([], some "EOF"), [])
read_bytes n (b ∷ s) = ((take n (b ∷ s), none), drop n (b ∷ s))

module _ {R : Type 0} (copy : R → Result Bytes × R) where
  unfoldable pub read_some : ℕ → Bytes → R → (Bytes × Option String) × TrimNodeReader R
  unfolding read_bytes
  read_some n s r = let (out, rest) = read_bytes n s in (out, record { r = r; br = some rest })

  -- `Read`, into a slice of length `n`.
  unfoldable pub read : ℕ → TrimNodeReader R → (Bytes × Option String) × TrimNodeReader R
  unfolding read_some
  read n st = elim st.br [
    | some s ↦ read_some n s st.r
    | none ↦
        let (copied, r) = copy st.r in
        elim copied [ err m ↦ (([], some m), record st { r = r }) | ok s ↦ read_some n (prep s) r ]
  ]

  -- A client that reads into slices of these lengths: the bytes that it gets.
  unfoldable pub read_all : List ℕ → TrimNodeReader R → Bytes × TrimNodeReader R
  read_all [] st = ([], st)
  read_all (n ∷ ns) st =
      let (out, st') = read n st in let (more, st'') = read_all ns st' in (out.0 ++ more, st'')

abbrev pub sum : List ℕ → ℕ
sum [] = 0
sum (n ∷ ns) = n + sum ns

read_bytes_lem :
    (n : ℕ) (s : Bytes)
    → ((read_bytes n s).0.0 ++ (read_bytes n s).1 ≡ s) × (length (read_bytes n s).1 ≡ length s - n)
unfolding read_bytes
read_bytes_lem n [] = (refl, omega arith)
read_bytes_lem n (b ∷ s) = (take-append-drop n (b ∷ s), length-drop n (b ∷ s))

nothing_left : (s : Bytes) → length s ≤ 0 → s ≡ []
nothing_left [] h = refl
nothing_left (b ∷ s) h = absurd (omega arith)

module _ {R : Type 0} (copy : R → Result Bytes × R) where
  -- What was read of a buffer, and what is left of it.
  record Splits (ns : List ℕ) (s : Bytes) (r : R) (out : Bytes × TrimNodeReader R) : Type 0 where
    left : Bytes
    state : out.1 ≡ record { r = r; br = some left }
    text : out.0 ++ left ≡ s
    progress : length left ≡ length s - sum ns

  read_all-Splits :
      (ns : List ℕ) (s : Bytes) (r : R)
      → Splits ns s r (read_all copy ns (record { r = r; br = some s }))
  unfolding read_all read read_some
  read_all-Splits [] s r = record { left = s; state = refl; text = refl; progress = omega arith }
  read_all-Splits (n ∷ ns) s r =
      let b = read_bytes n s in
      let (whole, forward) = read_bytes_lem n s in
      let k = read_all-Splits ns b.1 r in
      record {
        left = k.left;
        state = k.state;
        text = append_assoc b.0.0 _ k.left ∙ ap (λ t. b.0.0 ++ t) k.text ∙ whole;
        progress = omega (arith, forward, k.progress);
      }

  first-read :
      (n : ℕ) (r r' : R) (s : Bytes)
      → copy r ≡ (ok s, r')
      → read copy n (new_trim_node_reader r) ≡ read copy n (record { r = r'; br = some (prep s) })
  unfolding new_trim_node_reader read
  first-read n r r' s h = ground arith

  -- The first read copies and prepares the text; from then on it is a buffer.
  read_all-first :
      (n : ℕ) (ns : List ℕ) (r r' : R) (s : Bytes)
      → copy r ≡ (ok s, r')
      → read_all copy (n ∷ ns) (new_trim_node_reader r)
        ≡ read_all copy (n ∷ ns) (record { r = r'; br = some (prep s) })
  unfolding new_trim_node_reader read_all
  read_all-first n ns r r' s h =
      ap
        (λ (x : (Bytes × Option String) × TrimNodeReader R).
          (x.0.0 ++ (read_all copy ns x.1).0, (read_all copy ns x.1).1))
        (first-read n r r' s h)

  read-ends :
      (k : ℕ) (st : TrimNodeReader R) → st.br ≡ some [] → read copy k st ≡ (([], some "EOF"), st)
  unfolding read read_some read_bytes
  read-ends k st e = ground arith

  -- Where the bytes below can be copied, whatever the lengths of the slices that a client reads
  -- into, at least one: what it gets is the beginning of the text that `prep` makes of these bytes,
  -- which are copied once, and the reader keeps the rest. Once the slices have room for the whole
  -- text, the client has all of it, and every later `Read` answers `EOF` and changes nothing.
  pub read_all_lem :
      (n : ℕ) (ns : List ℕ) (r r' : R) (s : Bytes)
      → copy r ≡ (ok s, r')
      → let (out, st) = read_all copy (n ∷ ns) (new_trim_node_reader r) in
        (left : Bytes) × (st ≡ record { r = r'; br = some left })
        × (out ++ left ≡ prep s)
        × (length s ≤ n + sum ns
            → (out ≡ prep s) × ((k : ℕ) → read copy k st ≡ (([], some "EOF"), st)))
  read_all_lem n ns r r' s h =
      let k = read_all-Splits (n ∷ ns) (prep s) r' in
      let (blanked, same, ends) = prep-Blanked s in
      rw (read_all-first n ns r r' s h) (
        k.left,
        k.state,
        k.text,
        λ room.
            let empty = nothing_left k.left (omega (arith, k.progress, same, room)) in
            (
              sym (append-nil _)
                  ∙ ap
                      (λ t. (read_all copy (n ∷ ns) (record { r = r'; br = some (prep s) })).0 ++ t)
                      (sym empty)
                  ∙ k.text,
              λ j. read-ends j _ (ap (λ (st : TrimNodeReader R). st.br) k.state ∙ ap some empty),
            ),
      )
