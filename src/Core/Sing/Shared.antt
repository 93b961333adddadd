-- ===== src/Core/Sing/Shared.antt =====
-- The numbers of the users of a core are kept by UUID for all of its nodes together.
use text.Mathlib.TextEquality.{eq_iff}
use v2b_x_turbo.Base.{
  ℕ, ℤ, pos, ok, sym, ◌∙◌, lookup_of_In, String, Bool, true, Option, none, some, List, [], ◌∷◌, Map,
  lookup, delete, or_else, In, OneEntry, lookup-delete, lookup-store, string_eq, int_eq, ◌≡◌, ◌≢◌,
  refl, ap, arith, Option-cases, inl, inr,
}
use v2b_x_turbo.Panel.Types.{NodeInfo, UserInfo, UserTraffic}
use v2b_x_turbo.Counter.{Counters, new_storage, at}
use v2b_x_turbo.Counter.Traffic.{IsValid, view}
use v2b_x_turbo.Core.Traffic.{uid_of, is_over, traffic_entry}
use v2b_x_turbo.Core.Traffic.Slices.{reports, reports-In}
use v2b_x_turbo.Core.Traffic.Users.{user_traffic_slice_lem}
use v2b_x_turbo.Core.Sing.{
  BoxOps, Sing, unlearn, drop_counters, drop_at, del_users, get_user_traffic_slice,
}

unlearn_keeps_none :
    (w : String) (us : List UserInfo) (m : Map String ℤ)
    → lookup w m ≡ none
    → lookup w (unlearn us m) ≡ none
unfolding unlearn
unlearn_keeps_none w [] m e = e
unlearn_keeps_none w (u ∷ us) m e =
    unlearn_keeps_none w us (delete u.uuid m) (ground (arith, lookup-delete u.uuid w m))

lookup-unlearn :
    (u : UserInfo) (us : List UserInfo) (m : Map String ℤ)
    → In u us
    → lookup u.uuid (unlearn us m) ≡ none
unfolding unlearn
lookup-unlearn u [] m i = absurd i
lookup-unlearn u (x ∷ us) m (inl here) = unlearn_keeps_none u.uuid us (delete x.uuid m) (
    ground (
      arith,
      lookup-delete x.uuid u.uuid m,
      eq_iff x.uuid u.uuid,
      ap (λ (y : UserInfo). y.uuid) here,
    ))
lookup-unlearn u (x ∷ us) m (inr later) = lookup-unlearn u us (delete x.uuid m) later

lookup-drop_at :
    (tag other : String) (us : List UserInfo) (counter : Map String Counters)
    → tag ≢ other
    → lookup other (drop_at tag us counter) ≡ lookup other counter
unfolding drop_at
lookup-drop_at tag other us counter ne = elim (Option-cases (lookup tag counter)) [
  | inl e ↦ rw (e, drop_at) refl
  | inr (c, e) ↦
      ground (arith, eq_iff tag other, lookup-store tag other (drop_counters us c) counter)
]

view_of_In :
    (w : String) (a : ℕ) (c : Counters)
    → OneEntry c.counters
    → In (w, a) c.counters
    → view c w ≡ at c.heap a
unfolding view
view_of_In w a c one i = ground (arith, lookup_of_In w a c.counters one i)

module _ {B O : Type 0} (box : BoxOps B O) where
  -- A user that is deleted at one node of the core is unknown at its other nodes too: what it has
  -- sent and received at another node, once it is above that node's least, is dropped by the next
  -- `GetUserTrafficSlice` of that node, with or without a reset, and nobody is charged for it: each
  -- entry of that slice is another user with its own numbers.
  pub del_users_silences :
      (users : List UserInfo) (u : UserInfo) (tag other : String) (info : NodeInfo) (s s' : Sing B)
      (e : Option String) (c : Counters) (wants_reset : Bool)
      → del_users box users tag info s ≡ some (e, s')
      → box.found tag s.box ≡ true
      → In u users
      → tag ≢ other
      → lookup other s.counter ≡ some c
      → IsValid c
      → OneEntry c.counters
      → is_over (or_else (pos 0) (lookup other s'.node_report_min_traffic_bytes)) (view c u.uuid)
        ≡ true
      → let r = get_user_traffic_slice other wants_reset s' in
        (lookup u.uuid s'.uid_map ≡ none)
        × (lookup other s'.counter ≡ some c)
        × (view (or_else c (lookup other r.1.counter)) u.uuid ≡ new_storage)
        × (charged : List UserTraffic) × (r.0 ≡ ok charged)
        × ((x : UserTraffic)
            → In x charged
            → (w : String) × (w ≢ u.uuid) × (x ≡ traffic_entry (uid_of w s'.uid_map) (view c w)))
  unfolding del_users get_user_traffic_slice
  del_users_silences users u tag other info s s' e c wants_reset d f i ne l v one over =
      let gone = lookup-unlearn u users s.uid_map i in
      let unknown : lookup u.uuid s'.uid_map ≡ none = ground (arith, gone) in
      let kept : lookup other s'.counter ≡ some c =
        ground (arith, lookup-drop_at tag other users s.counter ne) in
      let least = or_else (pos 0) (lookup other s'.node_report_min_traffic_bytes) in
      let slice =
        user_traffic_slice_lem least wants_reset s'.uid_map c other s'.counter kept v one in
      (
        unknown,
        kept,
        ground (arith, slice.1 u.uuid),
        reports least s'.uid_map c.counters c.heap,
        ground (arith, slice.0),
        λ x i.
            let (w, a, j, known, same) = reports-In least s'.uid_map c.counters c.heap x i in
            (
              w,
              λ mine. known (ap (λ k. uid_of k s'.uid_map) mine ∙ ap (or_else (pos 0)) unknown),
              same ∙ ap (traffic_entry (uid_of w s'.uid_map)) (sym (view_of_In w a c one j)),
            ),
      )
