-- ===== src/Json5.antt =====
-- common/json5/json5.go: the reader that blanks comments and trailing commas out of a JSON text.
-- The bytes are a list; an index that the loops move stands beside it. The length of the text is
-- the fuel of each loop.
pub mod Blanks
pub mod Comments
pub mod Loops
pub mod Reader
use v2b_x_turbo.Base.{
  ℕ, zero, suc, ◌+◌, ◌-◌, Bool, true, false, not, Option, none, some, List, [], ◌∷◌, nat_eq, ltb,
  leb, ◌==◌, ◌||◌, ◌&&◌, if◌then◌else◌, length, get_elem?, set, or_else,
}

abbrev pub Bytes : Type 0
Bytes = List ℕ

-- `s[i]`, read only below the length.
unfoldable pub byte : Bytes → ℕ → ℕ
byte s i = or_else 0 (get_elem? s i)

abbrev pub is_nl : ℕ → Bool
is_nl c = c == 10 || c == 13

abbrev pub is_ws : ℕ → Bool
is_ws c = c == 32 || c == 9 || is_nl c

-- `s[i] = ' '`
unfoldable pub blank : Bytes → ℕ → Bytes
blank s i = set s i 32

-- `for ; i < len(s) && !isNL(s[i]); i += 1 { s[i] = ' ' }`
unfoldable pub line_comment : ℕ → Bytes → ℕ → Bytes × ℕ
line_comment zero s i = (s, i)
line_comment (suc fuel) s i =
    let rest = line_comment fuel (blank s i) (i + 1) in
    if ltb i (length s) && not (is_nl (byte s i)) then rest else (s, i)

-- The loop of a block comment. Behind a star one more byte is looked at, and passed over unless
-- it ends the comment.
unfoldable pub block_comment : ℕ → Bytes → ℕ → Bytes × ℕ
block_comment zero s i = (s, i)
block_comment (suc fuel) s i =
    let s' = blank s i in
    let next = block_comment fuel s' (i + 1) in
    let past = block_comment fuel s' (i + 2) in
    if ltb i (length s)
    then (if byte s i == b'*'
        then (if ltb (i + 1) (length s) && byte s' (i + 1) == b'/'
            then (blank s' (i + 1), i + 1)
            else past)
        else next)
    else (s, i)

-- The two parts of `consumeComment`; the first `/` stands at `i - 1`.
unfoldable pub consume_line : Bytes → ℕ → Bytes × ℕ
unfolding blank line_comment
consume_line s i =
    if ltb i (length s) && byte s i == b'/'
    then line_comment (length s) (blank s (i - 1)) i
    else (s, i)

unfoldable pub consume_block : Bytes → ℕ → Bytes × ℕ
unfolding blank block_comment
consume_block s i =
    if ltb i (length s) && byte s i == b'*'
    then block_comment (length s) (blank (blank s (i - 1)) i) i
    else (s, i)

unfoldable pub consume_comment : Bytes → ℕ → Bytes × ℕ
unfolding consume_line consume_block
consume_comment s i = let (s', i') = consume_line s i in consume_block s' i'

-- The rest of a string, from the byte behind its opening quote.
unfoldable pub skip_string : ℕ → Bytes → ℕ → ℕ
unfolding byte
skip_string zero s i = i
skip_string (suc fuel) s i =
    let past = skip_string fuel s (i + 2) in
    let next = skip_string fuel s (i + 1) in
    if ltb i (length s)
    then (if byte s i == b'"' then i + 1 else if byte s i == 92 then past else next)
    else i

-- The loop behind a comma at `j`.
unfoldable pub trailing : ℕ → ℕ → Bytes → ℕ → Bytes × ℕ
unfolding byte blank
trailing zero j s i = (s, i)
trailing (suc fuel) j s i =
    let (s', i') = consume_comment s (i + 2) in
    let commented = trailing fuel j s' i' in
    let next = trailing fuel j s (i + 1) in
    let c = byte s (i + 1) in
    if leb (length s) (i + 1)
    then (s, i + 1)
    else (if c == b'}' || c == b']'
        then (blank s j, i + 1)
        else if c == b'/'
        then commented
        else if not (is_ws c)
        then (s, i + 1)
        else next)

-- One round of the loop of `prep`, at a byte of the text.
unfoldable pub round : Bytes → ℕ → Bytes × ℕ
unfolding skip_string trailing consume_comment
round s i =
    let c = byte s i in
    if c == b'"'
    then (s, skip_string (length s) s (i + 1))
    else if c == b'/'
    then consume_comment s (i + 1)
    else if c == b','
    then trailing (length s) i s i
    else (s, i + 1)

unfoldable pub prep_loop : ℕ → Bytes → ℕ → Bytes × ℕ
unfolding round
prep_loop zero s i = (s, i)
prep_loop (suc fuel) s i =
    let (s', i') = round s i in
    let rest = prep_loop fuel s' i' in if ltb i (length s) then rest else (s, i)

unfoldable pub prep : Bytes → Bytes
unfolding prep_loop
prep s = (prep_loop (length s) s 0).0
