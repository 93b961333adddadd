-- ===== src/Core/Xray/Removal.antt =====
-- What `DelUsers` of core/xray does to the links of the users that it deletes.
use v2b_x_turbo.Base.{
  ℕ, String, Option, none, some, List, [], ◌∷◌, lookup, string_eq, nat_eq, get_elem?, In,
  lookup-delete, lookup-delete_self, ◌≡◌, ap, subst, arith, Option-cases, Result-cases, inl, inr,
}
use v2b_x_turbo.Format.{user_tag}
use v2b_x_turbo.Panel.Types.{UserInfo}
use v2b_x_turbo.Core.Dispatcher.{
  Event, close, Reader, Dispatcher, manager_at, forget_manager, close_all, close_user,
}
use v2b_x_turbo.Core.Dispatcher.Closing.{
  links_of, Watched, In-close_links, link_managers-close_links,
}
use v2b_x_turbo.Core.Dispatcher.Removal.{close_user-Watched}
use v2b_x_turbo.Core.Dispatcher.Reachable.{closed_user}
use v2b_x_turbo.Core.Xray.{Instance, Xray, forget, del_each, del_users, get_user_manager}

In-close_user :
    (ev : Event) (email : String) (d : Dispatcher)
    → In ev d.events
    → In ev (close_user email d).events
unfolding close_user close_all forget_manager
In-close_user ev email d i = elim (Option-cases (lookup email d.link_managers)) [
  | inl e ↦ rw (close_user, e) i
  | inr (m, e) ↦ rw (close_user, e) (In-close_links ev (links_of d m) d i)
]

close_user_keeps_none :
    (email other : String) (d : Dispatcher)
    → lookup email d.link_managers ≡ none
    → lookup email (close_user other d).link_managers ≡ none
unfolding close_user close_all forget_manager
close_user_keeps_none email other d n = elim (Option-cases (lookup other d.link_managers)) [
  | inl e ↦ rw (close_user, e) n
  | inr (m, e) ↦
      rw (close_user, e)
        (ground (
          arith,
          lookup-delete other email (close_all m d).link_managers,
          link_managers-close_links (links_of d m) d,
        ))
]

-- Nothing is left of a user: its link is closed, and it has no number and no link manager.
abbrev pub IsGone : {X : Type 0} → String → ℕ → Xray X → Type 0
IsGone user writer c =
    In (close writer) c.dispatcher.events
    × (lookup user c.uid_map ≡ none)
    × (lookup user c.dispatcher.link_managers ≡ none)

module _ {X : Type 0} where
  forget-IsGone :
      (tag other user : String) (writer : ℕ) (c : Xray X)
      → IsGone user writer c
      → IsGone user writer (forget tag other c)
  unfolding forget
  forget-IsGone tag other user writer c (i, n, l) =
      elim (Option-cases (lookup tag c.dispatcher.counter)) [
        | inl e ↦
            rw (forget, e)
              (
                In-close_user _ other c.dispatcher i,
                ground (arith, lookup-delete other user c.uid_map),
                close_user_keeps_none user other c.dispatcher l,
              )
        | inr (t, e) ↦
            rw (forget, e)
              (
                In-close_user _ other _ i,
                ground (arith, lookup-delete other user c.uid_map),
                close_user_keeps_none user other _ l,
              )
      ]

  -- The link of a user that is to be deleted, behind the deletion of another.
  forget-Watched :
      (tag other user : String) (w writer : ℕ) (c : Xray X)
      → Watched user w writer c.dispatcher
      → Watched user w writer (forget tag other c).dispatcher
  unfolding forget
  forget-Watched tag other user w writer c h =
      elim (Option-cases (lookup tag c.dispatcher.counter)) [
        | inl e ↦ rw (forget, e) (close_user-Watched other user w writer c.dispatcher h)
        | inr (t, e) ↦ rw (forget, e) (close_user-Watched other user w writer _ h)
      ]

  forget_closes :
      (tag user : String) (w writer : ℕ) (c : Xray X)
      → Watched user w writer c.dispatcher
      → IsGone user writer (forget tag user c)
  unfolding forget
  forget_closes tag user w writer c h = elim (Option-cases (lookup tag c.dispatcher.counter)) [
    | inl e ↦
        let (i, l) = closed_user user w writer c.dispatcher h in
        rw (forget, e) (i, lookup-delete_self user c.uid_map, l)
    | inr (t, e) ↦
        let (i, l) = closed_user user w writer _ h in
        rw (forget, e) (i, lookup-delete_self user c.uid_map, l)
  ]

module _ {X I O H M N : Type 0} (x : Instance X I O H M N) where
  -- With no error, the first user was removed and the loop went on.
  del_each_go :
      (m : M) (tag : String) (u : UserInfo) (us : List UserInfo) (c c' : Xray X)
      → del_each x m tag (u ∷ us) c ≡ (none, c')
      → let (e, s) = x.remove_user m (user_tag tag u.uuid) c.server in
        del_each x m tag us (forget tag (user_tag tag u.uuid) (record c { server = s }))
        ≡ (none, c')
  unfolding del_each
  del_each_go m tag u us c c' e =
      elim (Option-cases (x.remove_user m (user_tag tag u.uuid) c.server).0) [
        | inl good ↦ ground arith
        | inr (t, bad) ↦ ground arith
      ]

  del_each-IsGone :
      (m : M) (tag user : String) (writer : ℕ) (us : List UserInfo) (c c' : Xray X)
      → del_each x m tag us c ≡ (none, c')
      → IsGone user writer c
      → IsGone user writer c'
  unfolding del_each
  del_each-IsGone m tag user writer [] c c' e g =
      subst (IsGone user writer) (ap (λ (r : Option String × Xray X). r.1) e) g
  del_each-IsGone m tag user writer (u ∷ us) c c' e g =
      let s = (x.remove_user m (user_tag tag u.uuid) c.server).1 in
      del_each-IsGone m tag user writer us _ c' (del_each_go m tag u us c c' e)
        (forget-IsGone tag (user_tag tag u.uuid) user writer (record c { server = s }) g)

  del_each_closes :
      (m : M) (tag : String) (w writer : ℕ) (us : List UserInfo) (u : UserInfo) (c c' : Xray X)
      → del_each x m tag us c ≡ (none, c')
      → In u us
      → Watched (user_tag tag u.uuid) w writer c.dispatcher
      → IsGone (user_tag tag u.uuid) writer c'
  del_each_closes m tag w writer [] u c c' e i h = absurd i
  del_each_closes m tag w writer (v ∷ us) u c c' e (inl here) h =
      let s = (x.remove_user m (user_tag tag v.uuid) c.server).1 in
      let user = user_tag tag u.uuid in
      let closes : IsGone user writer (forget tag user (record c { server = s })) =
        forget_closes tag user w writer (record c { server = s }) h in
      del_each-IsGone m tag user writer us _ c' (del_each_go m tag v us c c' e) (
        subst
          (λ (w : UserInfo).
            IsGone user writer (forget tag (user_tag tag w.uuid) (record c { server = s })))
          here closes)
  del_each_closes m tag w writer (v ∷ us) u c c' e (inr later) h =
      let s = (x.remove_user m (user_tag tag v.uuid) c.server).1 in
      del_each_closes m tag w writer us u _ c' (del_each_go m tag v us c c' e) later (
        forget-Watched tag (user_tag tag v.uuid) (user_tag tag u.uuid) w writer
          (record c { server = s }) h)

  -- A `DelUsers` of core/xray that returns no error, with no other goroutine at the dispatcher while
  -- it runs: of every user that it was given it has closed every link that stood, when it began, at the
  -- manager that the map has for the user; and such a user has no number and no link manager behind it.
  pub del_users_lem :
      (users : List UserInfo) (u : UserInfo) (tag : String) (m w writer : ℕ) (reader : Reader)
      (c c' : Xray X)
      → del_users x users tag c ≡ some (none, c')
      → In u users
      → let user = user_tag tag u.uuid in
        lookup user c.dispatcher.link_managers ≡ some m
        → lookup w (manager_at c.dispatcher.managers m).links ≡ some reader
        → get_elem? c.dispatcher.writers w ≡ some (record { writer = writer; manager = m })
        → In (close writer) c'.dispatcher.events
          × (lookup user c'.uid_map ≡ none)
          × (lookup user c'.dispatcher.link_managers ≡ none)
  unfolding del_users
  del_users_lem users u tag m w writer reader c c' e i l k g =
      elim (Result-cases (get_user_manager x tag c.server)) [
        | inl (h, f) ↦
            del_each_closes h tag w writer users u c c' (ground arith) i
              (inr (m, l, g, (reader, k)))
        | inr (h, f) ↦ absurd (ground arith)
      ]
