-- ===== src/Core/Traffic/Slices.antt =====
-- The range of `GetUserTrafficSlice` entry by entry, said without the changes that it makes.
use text.Mathlib.TextEquality.{eq_iff}
use v2b_x_turbo.Base.{
  ℕ, zero, suc, ℤ, pos, String, Bool, false, none, some, List, [], ◌∷◌, ◌++◌, Map, lookup, set, All,
  In, int_beq_iff, OneEntry, lookup-delete, string_eq, nat_eq, int_eq, ◌==◌, ◌&&◌, ◌||◌,
  if◌then◌else◌, ◌≡◌, ◌≢◌, refl, ◌∙◌, arith, Bool-cases, inl, inr,
}
use v2b_x_turbo.Panel.Types.{UserTraffic}
use v2b_x_turbo.Counter.{Storage, Counters, new_storage, at, write, clear, delete_counter}
use v2b_x_turbo.Counter.Heap.{at-set_ne}
use v2b_x_turbo.Core.Traffic.{uid_of, is_over, traffic_entry, visit, range}

-- The known users above the least traffic, with the numbers of before.
unfoldable pub reports : ℤ → Map String ℤ → Map String ℕ → List Storage → List UserTraffic
reports least uids [] h = []
reports least uids ((u, a) ∷ es) h =
    let rest = reports least uids es h in
    if is_over least (at h a)
    then (if uid_of u uids == pos 0 then rest else traffic_entry (uid_of u uids) (at h a) ∷ rest)
    else rest

-- Each reported user is known, and is one of the entries with its own numbers.
pub reports-In :
    (least : ℤ) (uids : Map String ℤ) (es : Map String ℕ) (h : List Storage) (x : UserTraffic)
    → In x (reports least uids es h)
    → (w : String) × (a : ℕ) × In (w, a) es
      × (uid_of w uids ≢ pos 0)
      × (x ≡ traffic_entry (uid_of w uids) (at h a))
unfolding reports
reports-In least uids [] h x i = absurd i
reports-In least uids ((u, a) ∷ es) h x i =
    let later : In x (reports least uids es h)
        → (w : String) × (b : ℕ) × In (w, b) ((u, a) ∷ es)
          × (uid_of w uids ≢ pos 0)
          × (x ≡ traffic_entry (uid_of w uids) (at h b)) =
      λ j.
        let (w, b, k, known, same) = reports-In least uids es h x j in (w, b, inr k, known, same) in
    elim (Bool-cases (is_over least (at h a))) [
      | inr few ↦ later (rw few at i)
      | inl over ↦ elim (Bool-cases (uid_of u uids == pos 0)) [
        | inl unknown ↦ later (rw (over, unknown) at i)
        | inr known ↦ elim (rw (over, known) at i) [
          | inl here ↦
              (u, a, inl refl, λ z. ground (arith, (int_beq_iff (uid_of u uids) (pos 0)).1 z), here)
          | inr j ↦ later j
        ]
      ]
    ]

-- No two entries share an address.
abbrev pub Apart : Map String ℕ → Type 0
Apart [] = Unit
Apart ((u, a) ∷ es) = All (λ e. a ≢ e.1) es × Apart es

All_ne :
    (es : Map String ℕ) (w : String) (a b : ℕ)
    → All (λ e. a ≢ e.1) es
    → lookup w es ≡ some b
    → a ≢ b
unfolding lookup
All_ne [] w a b apart e = cc
All_ne ((u, d) ∷ es) w a b apart e = elim (Bool-cases (u == w)) [
  | inl here ↦ ground (arith, apart.0)
  | inr later ↦ All_ne es w a b apart.1 (ground arith)
]

-- A cleared storage, whether or not the address stands on the heap.
at-clear :
    (h : List Storage) (a b : ℕ)
    → at (set h a (clear (at h a))) b ≡ (if a == b then new_storage else at h b)
unfolding at clear
at-clear [] a b = ground arith
at-clear (x ∷ h) zero zero = refl
at-clear (x ∷ h) zero (suc b) = ground arith
at-clear (x ∷ h) (suc a) zero = ground arith
at-clear (x ∷ h) (suc a) (suc b) = at-clear h a b ∙ ground arith

reports-set :
    (least : ℤ) (uids : Map String ℤ) (es : Map String ℕ) (h : List Storage) (a : ℕ) (s : Storage)
    → All (λ e. a ≢ e.1) es
    → reports least uids es (set h a s) ≡ reports least uids es h
unfolding reports
reports-set least uids [] h a s apart = refl
reports-set least uids ((u, b) ∷ es) h a s apart =
    rw (at-set_ne h a b s apart.0, reports-set least uids es h a s apart.1) refl

module _ (least : ℤ) (reset : Bool) (uids : Map String ℤ) where
  -- The heap behind one entry.
  heap-visit :
      (u : String) (a : ℕ) (c : Counters)
      → (visit least reset uids u a c).1.heap ≡ (
          if is_over least (at c.heap a) && reset
          then set c.heap a (clear (at c.heap a))
          else c.heap)
  unfolding visit write delete_counter
  heap-visit u a c = ground arith

  slice-visit :
      (u : String) (a : ℕ) (c : Counters) (rest : List UserTraffic)
      → (visit least reset uids u a c).0 ++ rest ≡ (
          if is_over least (at c.heap a)
          then (if uid_of u uids == pos 0
              then rest
              else traffic_entry (uid_of u uids) (at c.heap a) ∷ rest)
          else rest)
  unfolding visit
  slice-visit u a c rest = ground arith

  counters-visit :
      (u w : String) (a : ℕ) (c : Counters)
      → lookup w (visit least reset uids u a c).1.counters ≡ (
          if u == w && is_over least (at c.heap a) && uid_of u uids == pos 0
          then none
          else lookup w c.counters)
  unfolding visit write delete_counter
  counters-visit u w a c = ground (arith, lookup-delete u w c.counters)

  pub range-reports :
      (es : Map String ℕ) (c : Counters)
      → Apart es
      → (range least reset uids es c).0 ≡ reports least uids es c.heap
  unfolding range reports visit
  range-reports [] c apart = refl
  range-reports ((u, a) ∷ es) c apart =
      let c' = (visit least reset uids u a c).1 in
      let ih = range-reports es c' apart.1 in
      let same : reports least uids es c'.heap ≡ reports least uids es c.heap = ground (
        arith,
        heap-visit u a c,
        reports-set least uids es c.heap a (clear (at c.heap a)) apart.0,
      ) in
      rw (ih ∙ same) (slice-visit u a c (reports least uids es c.heap))

  -- Whether the range clears the storage at an address.
  pub clears : ℕ → Map String ℕ → List Storage → Bool
  clears b [] h = false
  clears b ((u, a) ∷ es) h = (a == b && is_over least (at h a) && reset) || clears b es h

  -- Whether the range deletes the counter of a user.
  pub drops : String → Map String ℕ → List Storage → Bool
  drops w [] h = false
  drops w ((u, a) ∷ es) h =
      (u == w && is_over least (at h a) && uid_of u uids == pos 0) || drops w es h

  clears-set :
      (b a : ℕ) (es : Map String ℕ) (h : List Storage) (s : Storage)
      → All (λ e. a ≢ e.1) es
      → clears b es (set h a s) ≡ clears b es h
  unfolding clears
  clears-set b a [] h s apart = refl
  clears-set b a ((u, d) ∷ es) h s apart =
      rw (at-set_ne h a d s apart.0, clears-set b a es h s apart.1) refl

  drops-set :
      (w : String) (a : ℕ) (es : Map String ℕ) (h : List Storage) (s : Storage)
      → All (λ e. a ≢ e.1) es
      → drops w es (set h a s) ≡ drops w es h
  unfolding drops
  drops-set w a [] h s apart = refl
  drops-set w a ((u, d) ∷ es) h s apart =
      rw (at-set_ne h a d s apart.0, drops-set w a es h s apart.1) refl

  pub heap-range :
      (b : ℕ) (es : Map String ℕ) (c : Counters)
      → Apart es
      → at (range least reset uids es c).1.heap b
        ≡ (if clears b es c.heap then new_storage else at c.heap b)
  unfolding range clears
  heap-range b [] c apart = refl
  heap-range b ((u, a) ∷ es) c apart =
      let c' = (visit least reset uids u a c).1 in
      heap-range b es c' apart.1
      ∙ ground (
        arith,
        heap-visit u a c,
        at-clear c.heap a b,
        clears-set b a es c.heap (clear (at c.heap a)) apart.0,
      )

  pub counters-range :
      (w : String) (es : Map String ℕ) (c : Counters)
      → Apart es
      → lookup w (range least reset uids es c).1.counters
        ≡ (if drops w es c.heap then none else lookup w c.counters)
  unfolding range drops
  counters-range w [] c apart = refl
  counters-range w ((u, a) ∷ es) c apart =
      let c' = (visit least reset uids u a c).1 in
      counters-range w es c' apart.1
      ∙ ground (
        arith,
        heap-visit u a c,
        counters-visit u w a c,
        drops-set w a es c.heap (clear (at c.heap a)) apart.0,
      )

  -- In terms of the user: its own entry decides.
  pub drops_lem :
      (w : String) (es : Map String ℕ) (h : List Storage)
      → OneEntry es
      → drops w es h ≡ (elim (lookup w es) [
        | none ↦ false
        | some b ↦ is_over least (at h b) && uid_of w uids == pos 0
      ])
  unfolding drops lookup
  drops_lem w [] h one = refl
  drops_lem w ((u, a) ∷ es) h one = ground (arith, eq_iff u w, drops_lem w es h one.1)

  clears_absent :
      (b : ℕ) (es : Map String ℕ) (h : List Storage) → All (λ e. b ≢ e.1) es → clears b es h ≡ false
  unfolding clears
  clears_absent b [] h apart = refl
  clears_absent b ((u, a) ∷ es) h apart = ground (arith, clears_absent b es h apart.1)

  pub clears_lem :
      (w : String) (b : ℕ) (es : Map String ℕ) (h : List Storage)
      → Apart es
      → lookup w es ≡ some b
      → clears b es h ≡ (is_over least (at h b) && reset)
  unfolding clears lookup
  clears_lem w b [] h apart e = cc
  clears_lem w b ((u, a) ∷ es) h apart e = elim (Bool-cases (u == w)) [
    | inl here ↦ ground (arith, clears_absent a es h apart.0)
    | inr later ↦
        ground (arith, clears_lem w b es h apart.1, All_ne es w a b apart.0 (ground arith))
  ]
