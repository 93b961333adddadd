-- ===== src/Core/Dispatcher/Reachable.antt =====
-- The calls of the goroutines of a dispatcher as steps, and what the removal of a user does in the
-- states that they reach. A `Load`, a `Store`, an `AddLink`, a `CloseAll` and a `Delete` are a step each.
use text.Mathlib.TextEquality.{eq_iff}
use v2b_x_turbo.Base.{
  ℕ, zero, suc, String, Option, none, some, List, [], ◌∷◌, Map, lookup, length, get_elem?, set,
  string_eq, nat_eq, In, get_elem?-append_old, get_elem?-append_new, lookup-store, lookup-delete,
  lookup-delete_self, ◌==◌, ◌≡◌, ◌≢◌, refl, ap, arith, Option-cases, Bool-cases, inl, inr,
}
use v2b_x_turbo.Counter.{Counters}
use v2b_x_turbo.Core.Dispatcher.{
  close, Reader, interrupts, LinkManager, Dispatcher, new_dispatcher, new_manager, on_manager,
  add_link, remove_writer, emit, close_managed, close_all, close_links, store_manager,
  forget_manager, new_managed, link, close_user,
}
use v2b_x_turbo.Core.Dispatcher.Closing.{
  links_of, Watched, close_managed-Watched, close_links-Watched, link_managers-close_links,
}
use v2b_x_turbo.Core.Dispatcher.Removal.{
  IsMade, closed_with_user, store_manager-Watched, forget_manager-Watched, link-Watched, link_new,
}

abbrev Has : Dispatcher → ℕ → Type 0
Has d m = (x : LinkManager) × (get_elem? d.managers m ≡ some x)

-- A connection may close its writer at any time, and any goroutine may store a new manager of a user,
-- which it has not found before, or link a writer at one that it has found or stored. `counts` is any
-- step on the counters. The label is the user whose entry in the map of managers is written.
pub data Step : Option String → Dispatcher → Dispatcher → Type 0 where
  stores : (email : String) (d : Dispatcher) → Step (some email) d (store_manager email d).1
  forgets : (email : String) (d : Dispatcher) → Step (some email) d (forget_manager email d)
  links :
      (m writer : ℕ) (reader : Reader) (d : Dispatcher)
      → Has d m
      → Step none d (link m writer reader d).1
  closes : (w : ℕ) (d : Dispatcher) → Step none d (close_managed w d)
  closes_all : (m : ℕ) (d : Dispatcher) → Step none d (close_all m d)
  counts :
      (counter : Map String Counters) (d : Dispatcher)
      → Step none d (record d { counter = counter })

pub data Steps (P : Option String → Type 0) (d : Dispatcher) : Dispatcher → Type 0 where
  here : Steps P d d
  next : {e f : Dispatcher} (l : Option String) → Steps P d e → Step l e f → P l → Steps P d f

-- Any steps; steps that leave a user's entry in the map of managers alone.
abbrev pub Any : Option String → Type 0
Any l = Unit

abbrev pub Others : String → Option String → Type 0
Others email l = l ≢ some email

set-Has :
    (ms : List LinkManager) (i m : ℕ) (v x : LinkManager)
    → get_elem? ms m ≡ some x
    → (z : LinkManager) × (get_elem? (set ms i v) m ≡ some z)
set-Has [] i m v x e = cc
set-Has (y ∷ ms) zero zero v x e = (v, refl)
set-Has (y ∷ ms) zero (suc m) v x e = (x, e)
set-Has (y ∷ ms) (suc i) zero v x e = (x, e)
set-Has (y ∷ ms) (suc i) (suc m) v x e = set-Has ms i m v x e

close_managed-Has : (w m : ℕ) (d : Dispatcher) → Has d m → Has (close_managed w d) m
unfolding close_managed remove_writer on_manager emit
close_managed-Has w m d (x, h) = elim (Option-cases (get_elem? d.writers w)) [
  | inl e ↦ rw (close_managed, e) (x, h)
  | inr (y, e) ↦ rw (close_managed, e) (set-Has d.managers y.manager m _ x h)
]

close_links-Has : (ls : Map ℕ Reader) (m : ℕ) (d : Dispatcher) → Has d m → Has (close_links ls d) m
unfolding close_links emit
close_links-Has [] m d h = h
close_links-Has ((w, r) ∷ ls) m d h =
    close_links-Has ls m (emit (interrupts r) (close_managed w d)) (close_managed-Has w m d h)

link_managers-close_managed :
    (w : ℕ) (d : Dispatcher) → (close_managed w d).link_managers ≡ d.link_managers
unfolding close_managed remove_writer on_manager emit
link_managers-close_managed w d = ground arith

close_all-Has : (m n : ℕ) (d : Dispatcher) → Has d n → Has (close_all m d) n
unfolding close_all
close_all-Has m n d h = close_links-Has (links_of d m) n d h

store_manager-IsMade :
    (email : String) (d : Dispatcher) → IsMade d → IsMade (store_manager email d).1
unfolding store_manager
store_manager-IsMade email d made other m l = elim (Bool-cases (email == other)) [
  | inl same ↦ (
    new_manager,
    ground (
      arith,
      lookup-store email other (length d.managers) d.link_managers,
      get_elem?-append_new d.managers new_manager,
    ),
  )
  | inr differ ↦
      let (x, f) =
        made other m
          (ground (arith, lookup-store email other (length d.managers) d.link_managers)) in
      (x, get_elem?-append_old d.managers (new_manager ∷ []) m x f)
]

Step-IsMade : {d e : Dispatcher} (l : Option String) → Step l d e → IsMade d → IsMade e
unfolding link new_managed add_link on_manager forget_manager close_all
Step-IsMade l (stores email d) made = store_manager-IsMade email d made
Step-IsMade l (forgets email d) made =
    λ other m k. made other m (ground (arith, lookup-delete email other d.link_managers))
Step-IsMade l (links n writer reader d h) made =
    λ other m k. let (x, f) = made other m k in set-Has d.managers n m _ x f
Step-IsMade l (closes w d) made = λ email m k.
    close_managed-Has w m d (made email m (ground (arith, link_managers-close_managed w d)))
Step-IsMade l (closes_all n d) made = λ email m k.
    close_all-Has n m d (made email m (ground (arith, link_managers-close_links (links_of d n) d)))
Step-IsMade l (counts counter d) made = made

Steps-IsMade : (P : Option String → Type 0) {d e : Dispatcher} → Steps P d e → IsMade d → IsMade e
Steps-IsMade P here made = made
Steps-IsMade P (next l ss s p) made = Step-IsMade l s (Steps-IsMade P ss made)

-- The link is watched, at a manager that the user has.
abbrev At : String → ℕ → ℕ → ℕ → Dispatcher → Type 0
At email m w x d = Watched email w x d × (lookup email d.link_managers ≡ some m)

Step-At :
    {d e : Dispatcher} (email : String) (m w x : ℕ) (l : Option String)
    → Step l d e
    → l ≢ some email
    → At email m w x d
    → At email m w x e
unfolding link new_managed add_link on_manager store_manager forget_manager close_all
Step-At email m w x l (stores other d) ne (h, k) =
    let apart : other ≢ email = λ e. ne (ap some e) in
    (
      store_manager-Watched other email w x d apart h,
      ground
          (arith, lookup-store other email (length d.managers) d.link_managers, eq_iff other email),
    )
Step-At email m w x l (forgets other d) ne (h, k) =
    let apart : other ≢ email = λ e. ne (ap some e) in
    (
      forget_manager-Watched other email w x d apart h,
      ground (arith, lookup-delete other email d.link_managers, eq_iff other email),
    )
Step-At email m w x l (links n writer reader d (y, f)) ne (h, k) =
    (link-Watched n writer reader email w x y d f h, k)
Step-At email m w x l (closes v d) ne (h, k) =
    (close_managed-Watched email w x v d h, ground (arith, link_managers-close_managed v d))
Step-At email m w x l (closes_all n d) ne (h, k) = (
  close_links-Watched email w x (links_of d n) d h,
  ground (arith, link_managers-close_links (links_of d n) d),
)
Step-At email m w x l (counts counter d) ne (h, k) = (h, k)

Steps-At :
    (email : String) (m w x : ℕ) {d e : Dispatcher}
    → Steps (Others email) d e
    → At email m w x d
    → At email m w x e
Steps-At email m w x here h = h
Steps-At email m w x (next l ss s p) h = Step-At email m w x l s p (Steps-At email m w x ss h)

closed_before :
    (email : String) (w x : ℕ) (d : Dispatcher)
    → lookup email d.link_managers ≡ none
    → Watched email w x d
    → In (close x) d.events
closed_before email w x d e (inl i) = i
closed_before email w x d e (inr (m, l, g, k)) = absurd (ground (arith, l, e))

pub closed_user :
    (email : String) (w x : ℕ) (d : Dispatcher)
    → Watched email w x d
    → In (close x) (close_user email d).events
      × (lookup email (close_user email d).link_managers ≡ none)
unfolding close_user close_all forget_manager
closed_user email w x d h = elim (Option-cases (lookup email d.link_managers)) [
  | inl e ↦ rw (close_user, e) (closed_before email w x d e h, e)
  | inr (m, e) ↦
      rw (close_user, e)
        (closed_with_user email w x m d e h, lookup-delete_self email (close_all m d).link_managers)
]

-- A link of a user, made in any state that the goroutines reach at the manager that the map has for
-- the user: as long as no goroutine writes the user's entry in the map, whatever else they do, the
-- user keeps this manager, and its removal closes the writer of the link, if that is not closed yet.
pub link_closed :
    (email : String) (m writer : ℕ) (reader : Reader) (d e : Dispatcher)
    → Steps Any new_dispatcher d
    → lookup email d.link_managers ≡ some m
    → Steps (Others email) (link m writer reader d).1 e
    → (lookup email e.link_managers ≡ some m)
      × In (close writer) (close_user email e).events
      × (lookup email (close_user email e).link_managers ≡ none)
unfolding lookup link new_managed add_link on_manager
link_closed email m writer reader d e ss l ts =
    let (y, f) = Steps-IsMade Any ss (λ other n k. cc) email m l in
    let w = length d.writers in
    let (h, k) = Steps-At email m w writer ts (link_new m writer reader email y d l f, l) in
    let (i, gone) = closed_user email w writer e h in (k, i, gone)
