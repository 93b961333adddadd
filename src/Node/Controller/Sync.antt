-- ===== src/Node/Controller/Sync.antt =====
-- That the limiter of a controller keeps up with its list of users.
use v2b_x_turbo.Base.{
  or_else, ℕ, ℤ, pos, String, true, Option, none, some, Result, ok, List, [], ◌∷◌, Map, get_elem?,
  set, get_elem?-set_self, ◌&&◌, if◌then◌else◌, ◌≡◌, refl, subst, Bool-cases, Option-cases,
  Result-cases, inl, inr,
}
use v2b_x_turbo.Panel.Types.{NodeInfo, UserInfo}
use v2b_x_turbo.Core.Interface.{CoreOps}
use v2b_x_turbo.Limiter.Types.{Limiter}
use v2b_x_turbo.Limiter.Users.{update_user}
use v2b_x_turbo.Limiter.Registry.{Limiters}
use v2b_x_turbo.Node.Users.{compare_user_list}
use v2b_x_turbo.Node.Users.Index.{Visits}
use v2b_x_turbo.Node.Users.Known.{KnowsExactly, DistinctUuids, TellsUuids, update_user-KnowsExactly}
use v2b_x_turbo.Node.Controller.{World, Outcome, returned, panicked, update_limiter, set_alive}
use v2b_x_turbo.Node.Controller.Monitor.{is_empty, sync_users, refresh, node_info_monitor}

-- The controller's limiter stands on the heap, and knows the users of its list and no others.
pub record InStep {Regex Bucket C : Type 0} (w : World Regex Bucket C) : Type 0 where
  pub place : ℕ
  pub limiter : Limiter Regex Bucket
  pub placed : w.controller.limiter ≡ some place
  pub found : get_elem? w.limiters.objects place ≡ some limiter
  pub knows : KnowsExactly w.controller.tag w.controller.user_list limiter

-- What an outcome leaves, if it is not a panic.
abbrev pub Leaves : {W : Type 0} → (W → Type 0) → Outcome W → Type 0
Leaves P (returned e w) = P w
Leaves P panicked = ⊥

update_user_nobody :
    {Regex Bucket : Type 0} (tag : String) (added deleted : List UserInfo)
    (l : Limiter Regex Bucket)
    → (is_empty added && is_empty deleted) ≡ true
    → update_user tag added deleted l ≡ l
unfolding is_empty update_user
update_user_nobody tag [] [] l h = refl
update_user_nobody tag [] (u ∷ us) l h = cc
update_user_nobody tag (u ∷ us) deleted l h = cc

module _ {Regex Bucket C : Type 0} where
  pub set_alive-InStep :
      (alive : Option (Map ℤ ℤ)) (w : World Regex Bucket C)
      → InStep w
      → (ls : Limiters Regex Bucket) × (set_alive alive w.controller.limiter w.limiters ≡ some ls)
        × InStep (record w { limiters = ls })
  unfolding set_alive update_limiter
  set_alive-InStep none w s = (w.limiters, refl, s)
  set_alive-InStep (some alive) w s =
      let l' = record s.limiter { alive_list = alive } in
      let ls = record w.limiters { objects = set w.limiters.objects s.place l' } in
      (
        ls,
        rw (s.placed, update_limiter, s.found) refl,
        record {
          place = s.place;
          limiter = l';
          placed = s.placed;
          found = get_elem?-set_self w.limiters.objects s.place l' s.limiter s.found;
          knows = s.knows;
        },
      )

module _ {Regex Bucket C : Type 0} (ops : CoreOps C) (visit : Map String ℕ → Map String ℕ)
    (visits : Visits visit) where
  sync_users-InStep :
      (info : NodeInfo) (users : List UserInfo) (w : World Regex Bucket C)
      → TellsUuids w.controller.user_list users
      → DistinctUuids w.controller.user_list
      → DistinctUuids users
      → InStep w
      → Leaves InStep (sync_users ops visit info users w)
  unfolding sync_users update_limiter is_empty
  sync_users-InStep info users w tells distinct distinct' s =
      let c = w.controller in
      let (deleted, added) = compare_user_list visit c.user_list users in
      let d : Option String × C =
        if is_empty deleted then (none, w.server) else ops.del_users deleted c.tag info w.server in
      let a : Result ℤ × C =
        if is_empty added
        then (ok (pos 0), d.1)
        else ops.add_users (record { tag = c.tag; users = added; node_info = info }) d.1 in
      let follows : KnowsExactly c.tag users (update_user c.tag added deleted s.limiter) =
        update_user-KnowsExactly visit visits c.user_list users tells distinct distinct' c.tag
          s.limiter s.knows in
      let stays : (server : C) → InStep (record w { server = server }) = λ server. record {
        place = s.place;
        limiter = s.limiter;
        placed = s.placed;
        found = s.found;
        knows = s.knows;
      } in
      elim (Option-cases d.0) [
        | inr (m, e) ↦ rw (sync_users, e) (stays d.1)
        | inl e ↦ elim (Result-cases a.0) [
          | inr (m, f) ↦ rw (sync_users, e, f) (stays a.1)
          | inl (n, f) ↦ elim (Bool-cases (is_empty added && is_empty deleted)) [
            | inl nobody ↦
                rw (sync_users, e, f, nobody)
                  (record {
                    place = s.place;
                    limiter = s.limiter;
                    placed = s.placed;
                    found = s.found;
                    knows =
                        subst (KnowsExactly c.tag users)
                          (update_user_nobody c.tag added deleted s.limiter nobody) follows;
                  })
            | inr somebody ↦
                rw (sync_users, e, f, somebody, update_limiter, s.placed, s.found)
                  (record {
                    place = s.place;
                    limiter = update_user c.tag added deleted s.limiter;
                    placed = s.placed;
                    found = get_elem?-set_self w.limiters.objects s.place _ s.limiter s.found;
                    knows = follows;
                  })
          ]
        ]
      ]

  -- What `refresh` does with the users.
  refresh_lem :
      (info : NodeInfo) (users : List UserInfo) (w : World Regex Bucket C)
      → w.controller.info ≡ some info
      → TellsUuids w.controller.user_list users
      → DistinctUuids w.controller.user_list
      → DistinctUuids users
      → InStep w
      → Leaves InStep (elim users [
        | [] ↦ returned none w
        | u ∷ us ↦ elim w.controller.info [
          | none ↦ panicked
          | some info ↦ sync_users ops visit info (u ∷ us) w
        ]
      ])
  refresh_lem info [] w i tells distinct distinct' s = s
  refresh_lem info (u ∷ us) w i tells distinct distinct' s =
      rw i (sync_users-InStep info (u ∷ us) w tells distinct distinct' s)

  -- Where a UUID has one user in the old list and in the new one, and the keys of the comparison
  -- tell UUIDs apart: if the limiter knows exactly the users of the controller's list, a round of
  -- `nodeInfoMonitor` in which the node has not changed keeps it so, and does not panic; also where
  -- the core refuses to delete or to add, and the list stays the old one.
  pub node_info_monitor-InStep :
      (compile : String → Option Regex) (info : NodeInfo) (users : Option (List UserInfo))
      (alive : Option (Map ℤ ℤ)) (cert : Option String) (w : World Regex Bucket C)
      → w.controller.info ≡ some info
      → TellsUuids w.controller.user_list (or_else [] users)
      → DistinctUuids w.controller.user_list
      → DistinctUuids (or_else [] users)
      → InStep w
      → Leaves InStep (node_info_monitor ops compile visit (ok none) (ok users) (ok alive) cert w)
  unfolding node_info_monitor refresh
  node_info_monitor-InStep compile info users alive cert w i tells distinct distinct' s =
      let (ls, e, s') = set_alive-InStep alive w s in
      rw (node_info_monitor, refresh, e)
        (refresh_lem info (or_else [] users) (record w { limiters = ls }) i tells distinct distinct'
          s')
