-- ===== src/Json5/Loops/Rules.antt =====
-- The loops of json5.go as they run, without fuel: each relation has a rule for each way through the
-- body of a loop.
use v2b_x_turbo.Base.{
  ℕ, ◌+◌, ◌-◌, true, false, not, nat_eq, ltb, leb, ◌==◌, ◌||◌, ◌&&◌, length, ◌≡◌, ◌⊎◌,
}
use v2b_x_turbo.Json5.{is_nl, is_ws, Bytes, byte, blank}
use v2b_x_turbo.Json5.Blanks.{}

-- `for ; i < len(s) && !isNL(s[i]); i += 1`
pub data Line : Bytes → ℕ → Bytes × ℕ → Type 0 where
  line_ends :
      (s : Bytes) (i : ℕ) → (ltb i (length s) && not (is_nl (byte s i))) ≡ false → Line s i (s, i)
  line_goes :
      (s : Bytes) (i : ℕ) (r : Bytes × ℕ)
      → (ltb i (length s) && not (is_nl (byte s i))) ≡ true
      → Line (blank s i) (i + 1) r
      → Line s i r

-- The loop of a block comment: it ends at the end of the text or behind `*/`. Behind another star one
-- byte is passed over.
pub data Block : Bytes → ℕ → Bytes × ℕ → Type 0 where
  block_ends : (s : Bytes) (i : ℕ) → ltb i (length s) ≡ false → Block s i (s, i)
  block_closes :
      (s : Bytes) (i : ℕ)
      → ltb i (length s) ≡ true
      → (byte s i == b'*') ≡ true
      → (ltb (i + 1) (length s) && byte (blank s i) (i + 1) == b'/') ≡ true
      → Block s i (blank (blank s i) (i + 1), i + 1)
  block_passes :
      (s : Bytes) (i : ℕ) (r : Bytes × ℕ)
      → ltb i (length s) ≡ true
      → (byte s i == b'*') ≡ true
      → (ltb (i + 1) (length s) && byte (blank s i) (i + 1) == b'/') ≡ false
      → Block (blank s i) (i + 2) r
      → Block s i r
  block_goes :
      (s : Bytes) (i : ℕ) (r : Bytes × ℕ)
      → ltb i (length s) ≡ true
      → (byte s i == b'*') ≡ false
      → Block (blank s i) (i + 1) r
      → Block s i r

-- A string, from behind its quote: it ends with the text or behind the next quote that no backslash
-- stands before.
pub data Quoted (s : Bytes) : ℕ → ℕ → Type 0 where
  string_ends : (i : ℕ) → ltb i (length s) ≡ false → Quoted s i i
  string_closes : (i : ℕ) → ltb i (length s) ≡ true → (byte s i == b'"') ≡ true → Quoted s i (i + 1)
  string_escapes :
      (i j : ℕ)
      → ltb i (length s) ≡ true
      → (byte s i == b'"') ≡ false
      → (byte s i == 92) ≡ true
      → Quoted s (i + 2) j
      → Quoted s i j
  string_goes :
      (i j : ℕ)
      → ltb i (length s) ≡ true
      → (byte s i == b'"') ≡ false
      → (byte s i == 92) ≡ false
      → Quoted s (i + 1) j
      → Quoted s i j

-- The two parts of `consumeComment`.
abbrev pub LinePart : Bytes → ℕ → Bytes × ℕ → Type 0
LinePart s i t =
    ((ltb i (length s) && byte s i == b'/') ≡ true) × Line (blank s (i - 1)) i t
    ⊎ ((ltb i (length s) && byte s i == b'/') ≡ false) × (t ≡ (s, i))

abbrev pub BlockPart : Bytes → ℕ → Bytes × ℕ → Type 0
BlockPart s i r =
    ((ltb i (length s) && byte s i == b'*') ≡ true) × Block (blank (blank s (i - 1)) i) i r
    ⊎ ((ltb i (length s) && byte s i == b'*') ≡ false) × (r ≡ (s, i))

abbrev pub Comment : Bytes → ℕ → Bytes × ℕ → Type 0
Comment s i r = (t : Bytes × ℕ) × LinePart s i t × BlockPart t.0 t.1 r

-- The loop behind a comma at `j`.
pub data Comma (j : ℕ) : Bytes → ℕ → Bytes × ℕ → Type 0 where
  comma_ends : (s : Bytes) (i : ℕ) → leb (length s) (i + 1) ≡ true → Comma j s i (s, i + 1)
  comma_blanks :
      (s : Bytes) (i : ℕ)
      → leb (length s) (i + 1) ≡ false
      → (byte s (i + 1) == b'}' || byte s (i + 1) == b']') ≡ true
      → Comma j s i (blank s j, i + 1)
  comma_comment :
      (s : Bytes) (i : ℕ) (t r : Bytes × ℕ)
      → leb (length s) (i + 1) ≡ false
      → (byte s (i + 1) == b'/') ≡ true
      → Comment s (i + 2) t
      → Comma j t.0 t.1 r
      → Comma j s i r
  comma_stays :
      (s : Bytes) (i : ℕ)
      → leb (length s) (i + 1) ≡ false
      → (byte s (i + 1) == b'}' || byte s (i + 1) == b']') ≡ false
      → (byte s (i + 1) == b'/') ≡ false
      → is_ws (byte s (i + 1)) ≡ false
      → Comma j s i (s, i + 1)
  comma_goes :
      (s : Bytes) (i : ℕ) (r : Bytes × ℕ)
      → leb (length s) (i + 1) ≡ false
      → is_ws (byte s (i + 1)) ≡ true
      → Comma j s (i + 1) r
      → Comma j s i r

-- The loop of `prep`: the text that it leaves.
pub data Prepares : Bytes → ℕ → Bytes → Type 0 where
  prep_ends : (s : Bytes) (i : ℕ) → ltb i (length s) ≡ false → Prepares s i s
  at_string :
      (s t : Bytes) (i k : ℕ)
      → ltb i (length s) ≡ true
      → (byte s i == b'"') ≡ true
      → Quoted s (i + 1) k
      → Prepares s k t
      → Prepares s i t
  at_slash :
      (s t : Bytes) (i : ℕ) (r : Bytes × ℕ)
      → ltb i (length s) ≡ true
      → (byte s i == b'/') ≡ true
      → Comment s (i + 1) r
      → Prepares r.0 r.1 t
      → Prepares s i t
  at_comma :
      (s t : Bytes) (i : ℕ) (r : Bytes × ℕ)
      → ltb i (length s) ≡ true
      → (byte s i == b',') ≡ true
      → Comma i s i r
      → Prepares r.0 r.1 t
      → Prepares s i t
  at_other :
      (s t : Bytes) (i : ℕ)
      → ltb i (length s) ≡ true
      → (byte s i == b'"') ≡ false
      → (byte s i == b'/') ≡ false
      → (byte s i == b',') ≡ false
      → Prepares s (i + 1) t
      → Prepares s i t
