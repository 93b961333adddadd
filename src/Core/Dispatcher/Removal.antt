-- ===== src/Core/Dispatcher/Removal.antt =====
-- How a link that was opened is watched over by the later calls, up to the removal of its user.
use text.Mathlib.TextEquality.{eq_iff}
use v2b_x_turbo.Base.{
  ℕ, String, Option, some, List, [], ◌∷◌, ◌++◌, lookup, length, get_elem?, string_eq, nat_eq, In,
  get_elem?-append_old, get_elem?-append_new, get_elem?_end, lookup-store, lookup-delete, ==_refl,
  ◌==◌, or_else, ◌≡◌, ◌≢◌, refl, sym, ◌∙◌, ap, arith, Option-cases, Bool-cases, inl, inr,
  nat_beq_iff,
}
use v2b_x_turbo.Core.Dispatcher.{
  close, Reader, ManagedWriter, LinkManager, Dispatcher, new_manager, manager_at, on_manager,
  add_link, close_all, store_manager, forget_manager, new_managed, link, close_user,
}
use v2b_x_turbo.Core.Dispatcher.Closing.{
  links_of, no_links, Watched, lookup-add_link, close_links-Watched, close_links-In, In-close_links,
}

-- The managers of the users stand on the heap.
abbrev pub IsMade : Dispatcher → Type 0
IsMade d =
    (email : String) (m : ℕ)
    → lookup email d.link_managers ≡ some m
    → (x : LinkManager) × (get_elem? d.managers m ≡ some x)

pub has_manager :
    (w m : ℕ) (r : Reader) (d : Dispatcher)
    → lookup w (links_of d m) ≡ some r
    → (x : LinkManager) × (get_elem? d.managers m ≡ some x)
unfolding lookup
has_manager w m r d k = elim (Option-cases (get_elem? d.managers m)) [
  | inl e ↦ absurd (ground (arith, k, ap (λ ls. lookup w ls) (no_links m d e)))
  | inr h ↦ h
]

manager_at-append :
    (ms ns : List LinkManager) (m : ℕ) (y : LinkManager)
    → get_elem? ms m ≡ some y
    → manager_at (ms ++ ns) m ≡ manager_at ms m
unfolding manager_at
manager_at-append ms ns m y e = ground (arith, get_elem?-append_old ms ns m y e)

-- A new manager of another user.
pub store_manager-Watched :
    (other email : String) (w x : ℕ) (d : Dispatcher)
    → other ≢ email
    → Watched email w x d
    → Watched email w x (store_manager other d).1
unfolding store_manager
store_manager-Watched other email w x d ne (inl i) = inl i
store_manager-Watched other email w x d ne (inr (m, l, g, (r, k))) =
    let (y, f) = has_manager w m r d k in
    inr (
      m,
      ground
          (arith, lookup-store other email (length d.managers) d.link_managers, eq_iff other email),
      g,
      (
        r,
        ap (λ (z : LinkManager). lookup w z.links)
              (manager_at-append d.managers (new_manager ∷ []) m y f)
            ∙ k,
      ),
    )

pub forget_manager-Watched :
    (other email : String) (w x : ℕ) (d : Dispatcher)
    → other ≢ email
    → Watched email w x d
    → Watched email w x (forget_manager other d)
unfolding forget_manager
forget_manager-Watched other email w x d ne (inl i) = inl i
forget_manager-Watched other email w x d ne (inr (m, l, g, k)) =
    inr (m, ground (arith, lookup-delete other email d.link_managers, eq_iff other email), g, k)

not_end :
    (w : ℕ) (ws : List ManagedWriter) (y : ManagedWriter) → get_elem? ws w ≡ some y → w ≢ length ws
not_end w ws y g same = absurd (ground (arith, g, get_elem?_end ws, ap (λ a. get_elem? ws a) same))

pub link-Watched :
    (n writer : ℕ) (reader : Reader) (email : String) (w x : ℕ) (y : LinkManager) (d : Dispatcher)
    → get_elem? d.managers n ≡ some y
    → Watched email w x d
    → Watched email w x (link n writer reader d).1
unfolding link add_link on_manager new_managed
link-Watched n writer reader email w x y d f (inl i) = inl i
link-Watched n writer reader email w x y d f (inr (m, l, g, (r, k))) =
    let d' = (new_managed writer n d).1 in
    let v = length d.writers in
    inr (
      m,
      l,
      get_elem?-append_old d.writers _ w _ g,
      (
        r,
        ground (
          arith,
          lookup-add_link n v m w reader d' y f,
          nat_beq_iff v w,
          not_end w d.writers (record { writer = x; manager = m }) g,
        ),
      ),
    )

pub link_new :
    (n writer : ℕ) (reader : Reader) (email : String) (y : LinkManager) (d : Dispatcher)
    → lookup email d.link_managers ≡ some n
    → get_elem? d.managers n ≡ some y
    → Watched email (length d.writers) writer (link n writer reader d).1
unfolding link add_link on_manager new_managed
link_new n writer reader email y d l f =
    let d' = (new_managed writer n d).1 in
    let v = length d.writers in
    inr (
      n,
      l,
      get_elem?-append_new d.writers _,
      (reader, ground (arith, lookup-add_link n v n v reader d' y f, ==_refl v, ==_refl n)),
    )

pub closed_with_user :
    (email : String) (w x m : ℕ) (d : Dispatcher)
    → lookup email d.link_managers ≡ some m
    → Watched email w x d
    → In (close x) (close_all m d).events
unfolding close_all
closed_with_user email w x m d e (inl i) = In-close_links (close x) (links_of d m) d i
closed_with_user email w x m d e (inr (n, l, g, (r, k))) =
    close_links-In w r (record { writer = x; manager = n }) (links_of d m) d (close x)
      (ground (arith, ap (λ (j : Option ℕ). lookup w (links_of d (or_else m j))) (sym l ∙ e))) g
      (inl refl)

pub close_user-Watched :
    (other email : String) (w x : ℕ) (d : Dispatcher)
    → Watched email w x d
    → Watched email w x (close_user other d)
unfolding close_user close_all forget_manager
close_user-Watched other email w x d h = elim (Option-cases (lookup other d.link_managers)) [
  | inl e ↦ rw (close_user, e) h
  | inr (m, e) ↦
      rw (close_user, e)
        (elim (close_links-Watched email w x (links_of d m) d h) [
          | inl i ↦ inl i
          | inr (n, l, g, k) ↦ elim (Bool-cases (other == email)) [
            | inl same ↦ inl (closed_with_user email w x m d (ground (arith, eq_iff other email)) h)
            | inr differ ↦
                inr
                  (n, ground (arith, lookup-delete other email (close_all m d).link_managers), g, k)
          ]
        ])
]
