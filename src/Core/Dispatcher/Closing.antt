-- ===== src/Core/Dispatcher/Closing.antt =====
-- How the operations on links change what is linked and what has been closed.
use v2b_x_turbo.Base.{
  ℕ, zero, suc, true, String, none, some, List, [], ◌∷◌, Map, lookup, store, delete, get_elem?, set,
  string_eq, nat_eq, In, In-append_left, In-append_right, get_elem?-set_self, get_elem?-set_ne,
  lookup-store, lookup-delete, ◌==◌, ◌&&◌, if◌then◌else◌, ◌⊎◌, ◌≡◌, refl, ap, sym, arith,
  Option-cases, Bool-cases, inl, inr, nat_beq_iff, subst,
}
use v2b_x_turbo.Core.Dispatcher.{
  Event, close, Reader, interrupts, ManagedWriter, LinkManager, Dispatcher, new_manager, manager_at,
  on_manager, add_link, remove_writer, emit, close_managed, close_links,
}

abbrev pub links_of : Dispatcher → ℕ → Map ℕ Reader
links_of d m = (manager_at d.managers m).links

manager_at-set :
    (ms : List LinkManager) (i j : ℕ) (v x : LinkManager)
    → get_elem? ms i ≡ some x
    → manager_at (set ms i v) j ≡ (if i == j then v else manager_at ms j)
unfolding manager_at
manager_at-set ms i j v x e = elim (Bool-cases (i == j)) [
  | inl same ↦ ground (
    arith,
    get_elem?-set_self ms i v x e,
    ap (λ k. get_elem? (set ms i v) k) ((nat_beq_iff i j).0 same),
  )
  | inr other ↦ ground (arith, get_elem?-set_ne ms i j v, nat_beq_iff i j)
]

set_missing : {A : Type 0} (xs : List A) (i : ℕ) (v : A) → get_elem? xs i ≡ none → set xs i v ≡ xs
set_missing [] i v e = refl
set_missing (y ∷ xs) zero v e = cc
set_missing (y ∷ xs) (suc i) v e = ap (λ ys. y ∷ ys) (set_missing xs i v e)

same_links : (d : Dispatcher) (i j : ℕ) → (i == j) ≡ true → links_of d i ≡ links_of d j
same_links d i j e = ap (λ k. links_of d k) ((nat_beq_iff i j).0 e)

pub no_links : (i : ℕ) (d : Dispatcher) → get_elem? d.managers i ≡ none → links_of d i ≡ []
unfolding manager_at new_manager
no_links i d e = rw (links_of, e) refl

no_links_at :
    (i j v : ℕ) (d : Dispatcher)
    → get_elem? d.managers i ≡ none
    → (i == j) ≡ true
    → lookup v (links_of d j) ≡ none
unfolding lookup
no_links_at i j v d e same = rw (sym (same_links d i j same), no_links i d e) refl

pub lookup-remove_writer :
    (i w j v : ℕ) (d : Dispatcher)
    → lookup v (links_of (remove_writer i w d) j)
      ≡ (if i == j && w == v then none else lookup v (links_of d j))
unfolding remove_writer on_manager manager_at
lookup-remove_writer i w j v d = elim (Option-cases (get_elem? d.managers i)) [
  | inl e ↦ ground (
    arith,
    set_missing d.managers i (record { links = delete w (links_of d i) }) e,
    nat_beq_iff i j,
    no_links_at i j v d e,
  )
  | inr (x, e) ↦ ground (
    arith,
    manager_at-set d.managers i j (record { links = delete w (links_of d i) }) x e,
    lookup-delete w v (links_of d i),
    same_links d i j,
  )
]

pub lookup-add_link :
    (i w j v : ℕ) (r : Reader) (d : Dispatcher) (x : LinkManager)
    → get_elem? d.managers i ≡ some x
    → lookup v (links_of (add_link i w r d) j)
      ≡ (if i == j && w == v then some r else lookup v (links_of d j))
unfolding add_link on_manager
lookup-add_link i w j v r d x e = ground (
  arith,
  manager_at-set d.managers i j (record { links = store w r (links_of d i) }) x e,
  lookup-store w v r (links_of d i),
  same_links d i j,
)

-- An opened link: the writer of its pipe has been closed, or the manager of its user still has it.
abbrev pub Watched : String → ℕ → ℕ → Dispatcher → Type 0
Watched email w x d =
    In (close x) d.events
    ⊎ ((m : ℕ) × (lookup email d.link_managers ≡ some m)
        × (get_elem? d.writers w ≡ some (record { writer = x; manager = m }))
        × ((r : Reader) × (lookup w (links_of d m) ≡ some r)))

emit-Watched :
    (email : String) (w x : ℕ) (es : List Event) (d : Dispatcher)
    → Watched email w x d
    → Watched email w x (emit es d)
unfolding emit
emit-Watched email w x es d (inl i) = inl (In-append_left (close x) d.events es i)
emit-Watched email w x es d (inr h) = inr h

-- A close of the watched writer is an event; a close of another one leaves the link alone.
remove_writer-Watched :
    (email : String) (w x v : ℕ) (y : ManagedWriter) (d : Dispatcher)
    → get_elem? d.writers v ≡ some y
    → Watched email w x d
    → Watched email w x (emit (close y.writer ∷ []) (remove_writer y.manager v d))
unfolding remove_writer on_manager emit
remove_writer-Watched email w x v y d e (inl i) = inl (In-append_left (close x) d.events _ i)
remove_writer-Watched email w x v y d e (inr (m, l, g, (r, k))) = elim (Bool-cases (v == w)) [
  | inl same ↦ inl (
      In-append_right (close x) d.events (close y.writer ∷ [])
        (inl (ground (arith, nat_beq_iff v w))))
  | inr other ↦ inr (m, l, g, (r, ground (arith, lookup-remove_writer y.manager v m w d)))
]

pub close_managed-Watched :
    (email : String) (w x v : ℕ) (d : Dispatcher)
    → Watched email w x d
    → Watched email w x (close_managed v d)
unfolding close_managed
close_managed-Watched email w x v d h = elim (Option-cases (get_elem? d.writers v)) [
  | inl e ↦ rw (close_managed, e) h
  | inr (y, e) ↦ rw (close_managed, e) (remove_writer-Watched email w x v y d e h)
]

pub close_links-Watched :
    (email : String) (w x : ℕ) (ls : Map ℕ Reader) (d : Dispatcher)
    → Watched email w x d
    → Watched email w x (close_links ls d)
unfolding close_links
close_links-Watched email w x [] d h = h
close_links-Watched email w x ((v, r) ∷ ls) d h =
    close_links-Watched email w x ls (emit (interrupts r) (close_managed v d)) (
      emit-Watched email w x (interrupts r) (close_managed v d)
        (close_managed-Watched email w x v d h))

writers-close_managed : (v : ℕ) (d : Dispatcher) → (close_managed v d).writers ≡ d.writers
unfolding close_managed remove_writer on_manager emit
writers-close_managed v d = ground arith

In-close_managed :
    (ev : Event) (v : ℕ) (d : Dispatcher) → In ev d.events → In ev (close_managed v d).events
unfolding close_managed remove_writer on_manager emit
In-close_managed ev v d i = elim (Option-cases (get_elem? d.writers v)) [
  | inl e ↦ rw (close_managed, e) i
  | inr (y, e) ↦ rw (close_managed, e) (In-append_left ev d.events (close y.writer ∷ []) i)
]

-- What has happened stays.
pub In-close_links :
    (ev : Event) (ls : Map ℕ Reader) (d : Dispatcher)
    → In ev d.events
    → In ev (close_links ls d).events
unfolding close_links emit
In-close_links ev [] d i = i
In-close_links ev ((v, q) ∷ ls) d i =
    In-close_links ev ls (emit (interrupts q) (close_managed v d))
      (In-append_left ev (close_managed v d).events (interrupts q) (In-close_managed ev v d i))

pub link_managers-close_links :
    (ls : Map ℕ Reader) (d : Dispatcher) → (close_links ls d).link_managers ≡ d.link_managers
unfolding close_links close_managed remove_writer on_manager emit
link_managers-close_links [] d = refl
link_managers-close_links ((v, q) ∷ ls) d =
    ground (arith, link_managers-close_links ls (emit (interrupts q) (close_managed v d)))

closes_first :
    (v : ℕ) (q : Reader) (y : ManagedWriter) (d : Dispatcher) (ev : Event)
    → get_elem? d.writers v ≡ some y
    → In ev (close y.writer ∷ interrupts q)
    → In ev (emit (interrupts q) (close_managed v d)).events
unfolding emit close_managed
closes_first v q y d ev g (inl here) = In-append_left ev (close_managed v d).events (interrupts q) (
    rw (close_managed, g)
      (In-append_right ev (remove_writer y.manager v d).events (close y.writer ∷ []) (inl here)))
closes_first v q y d ev g (inr later) =
    In-append_right ev (close_managed v d).events (interrupts q) later

-- The range closes the writer of each of the links, and interrupts the reader if it is a pipe's.
pub close_links-In :
    (w : ℕ) (r : Reader) (y : ManagedWriter) (ls : Map ℕ Reader) (d : Dispatcher) (ev : Event)
    → lookup w ls ≡ some r
    → get_elem? d.writers w ≡ some y
    → In ev (close y.writer ∷ interrupts r)
    → In ev (close_links ls d).events
unfolding close_links lookup emit
close_links-In w r y [] d ev l g i = cc
close_links-In w r y ((v, q) ∷ ls) d ev l g i =
    let d' = emit (interrupts q) (close_managed v d) in
    elim (Bool-cases (v == w)) [
      | inl same ↦ In-close_links ev ls d' (
          closes_first v q y d ev (ground (arith, nat_beq_iff v w))
            (subst (λ p. In ev (close y.writer ∷ interrupts p)) (ground arith) i))
      | inr other ↦
          close_links-In w r y ls d' ev (ground arith) (ground (arith, writers-close_managed v d)) i
    ]
