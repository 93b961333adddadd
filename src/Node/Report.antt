-- ===== src/Node/Report.antt =====
-- `reportUserTrafficTask` of node/user.go: what a controller reports to the panel. The answers of the
-- core and of the panel are arguments; what is sent is returned.
use mathlib.Core.List.{append-nil, append_assoc}
use v2b_x_turbo.Base.{
  ℤ, pos, ◌+ℤ◌, ◌*ℤ◌, int64, lt_ℤ, String, Bool, false, Option, none, some, Result, ok, err, List,
  [], ◌∷◌, ◌++◌, Map, lookup, store, int_eq, int_beq_iff, lookup-store, ◌==◌, ◌||◌, ◌&&◌,
  if◌then◌else◌, In, inl, inr, ◌≡◌, ◌↔◌, refl, sym, ap, ◌∙◌, arith, Bool-cases, is_some, or_else,
}
use v2b_x_turbo.Panel.Types.{OnlineUser, UserTraffic}
use v2b_x_turbo.Limiter.Types.{Limiter}
use v2b_x_turbo.Limiter.Check.{get_online_device}

-- The first loop: the users whose traffic of this round is too small to count as online.
unfoldable pub no_count : ℤ → List UserTraffic → Map ℤ (Unit {0}) → Map ℤ (Unit {0})
no_count min_traffic [] m = m
no_count min_traffic (t ∷ ts) m = no_count min_traffic ts (
    if lt_ℤ (int64 (t.upload +ℤ t.download)) (int64 (min_traffic *ℤ pos 1000))
    then store t.uid tt m
    else m)

-- The second loop.
unfoldable pub keep_counted : Map ℤ (Unit {0}) → List OnlineUser → List OnlineUser
keep_counted m [] = []
keep_counted m (o ∷ os) =
    let rest = keep_counted m os in if is_some (lookup o.uid m) then rest else o ∷ rest

-- The third loop: the addresses by user.
unfoldable pub group : List OnlineUser → Map ℤ (List String) → Map ℤ (List String)
group [] m = m
group (o ∷ os) m = group os (store o.uid (or_else [] (lookup o.uid m) ++ o.ip ∷ []) m)

-- The users of the report.
unfoldable pub counted : ℤ → List UserTraffic → List OnlineUser → List OnlineUser
unfolding no_count keep_counted
counted min_traffic traffic online = keep_counted (no_count min_traffic traffic []) online

-- What the task sends, if it sends it: the traffic, and the online addresses by user.
pub record Sent : Type 0 where
  pub traffic : Option (List UserTraffic)
  pub online : Option (Map ℤ (List String))

abbrev traffic_or_none : Result (List UserTraffic) → List UserTraffic
traffic_or_none (ok ts) = ts
traffic_or_none (err e) = []

-- What is sent of the online addresses: nothing where there are none.
send_online : ℤ → List UserTraffic → List OnlineUser → Option (Map ℤ (List String))
unfolding counted group
send_online min_traffic user_traffic [] = none
send_online min_traffic user_traffic (o ∷ os) =
    some (group (counted min_traffic user_traffic (o ∷ os)) [])

-- The answers of the panel are only logged, and `GetOnlineDevice` never fails.
unfoldable pub report_user_traffic_task :
    {Regex Bucket : Type 0}
    → ℤ
    → Result (List UserTraffic)
    → Limiter Regex Bucket
    → Sent × Limiter Regex Bucket
unfolding send_online
report_user_traffic_task min_traffic slice l =
    let user_traffic = traffic_or_none slice in
    let (online_device, l') = get_online_device l in
    (
      record {
        traffic = elim user_traffic [ [] ↦ none | t ∷ ts ↦ some (t ∷ ts) ];
        online = send_online min_traffic user_traffic online_device;
      },
      l',
    )

-- Whether an entry is the user's and below the least traffic.
abbrev pub is_small : ℤ → UserTraffic → ℤ → Bool
is_small min_traffic t uid =
    t.uid == uid && lt_ℤ (int64 (t.upload +ℤ t.download)) (int64 (min_traffic *ℤ pos 1000))

-- Some entry of the user's traffic is below the least traffic.
unfoldable pub has_small : ℤ → List UserTraffic → ℤ → Bool
has_small min_traffic [] uid = false
has_small min_traffic (t ∷ ts) uid = is_small min_traffic t uid || has_small min_traffic ts uid

lookup-no_count :
    (min_traffic : ℤ) (ts : List UserTraffic) (m : Map ℤ (Unit {0})) (uid : ℤ)
    → is_some (lookup uid (no_count min_traffic ts m))
      ≡ (has_small min_traffic ts uid || is_some (lookup uid m))
unfolding no_count has_small
lookup-no_count min_traffic [] m uid = refl
lookup-no_count min_traffic (t ∷ ts) m uid =
    lookup-no_count min_traffic ts _ uid
    ∙ ground (arith, lookup-store t.uid uid tt m, int_beq_iff t.uid uid)

In-keep_counted :
    (m : Map ℤ (Unit {0})) (os : List OnlineUser) (o : OnlineUser)
    → In o (keep_counted m os) ↔ In o os × (is_some (lookup o.uid m) ≡ false)
unfolding keep_counted
In-keep_counted m [] o = (λ h. absurd h, λ h. absurd h.0)
In-keep_counted m (x ∷ os) o = elim (Bool-cases (is_some (lookup x.uid m))) [
  | inl small ↦
      let ih = In-keep_counted m os o in
      rw small (
        λ h. (inr (ih.0 h).0, (ih.0 h).1),
        λ h. elim h.0 [
          | inl here ↦
              absurd (ground (arith, ap (λ (x : OnlineUser). is_some (lookup x.uid m)) here, h.1))
          | inr later ↦ ih.1 (later, h.1)
        ],
      )
  | inr large ↦
      let ih = In-keep_counted m os o in
      rw large (
        λ h. elim h [
          | inl here ↦ (inl here, ap (λ (x : OnlineUser). is_some (lookup x.uid m)) here ∙ large)
          | inr later ↦ (inr (ih.0 later).0, (ih.0 later).1)
        ],
        λ h. elim h.0 [ inl here ↦ inl here | inr later ↦ inr (ih.1 (later, h.1)) ],
      )
]

-- The addresses of a user in a list, in its order.
unfoldable pub ips_of : ℤ → List OnlineUser → List String
ips_of uid [] = []
ips_of uid (o ∷ os) = if o.uid == uid then o.ip ∷ ips_of uid os else ips_of uid os

lookup-group :
    (os : List OnlineUser) (m : Map ℤ (List String)) (uid : ℤ)
    → or_else [] (lookup uid (group os m)) ≡ or_else [] (lookup uid m) ++ ips_of uid os
unfolding group ips_of
lookup-group [] m uid = sym (append-nil _)
lookup-group (o ∷ os) m uid =
    lookup-group os (store o.uid (or_else [] (lookup o.uid m) ++ o.ip ∷ []) m) uid
    ∙ elim (Bool-cases (o.uid == uid)) [
      | inl same ↦
          let e : o.uid ≡ uid = (int_beq_iff o.uid uid).0 same in
          rw (lookup-store, same, e)
            (append_assoc (or_else [] (lookup uid m)) (o.ip ∷ []) (ips_of uid os))
      | inr other ↦ rw (lookup-store, other) refl
    ]

send_online_lem :
    (min_traffic : ℤ) (traffic : List UserTraffic) (online : List OnlineUser)
    (by_user : Map ℤ (List String))
    → send_online min_traffic traffic online ≡ some by_user
    → by_user ≡ group (counted min_traffic traffic online) []
unfolding send_online
send_online_lem min_traffic traffic [] by_user h = cc
send_online_lem min_traffic traffic (o ∷ os) by_user h = ground arith

-- Of the addresses that were online the task reports exactly those whose user has no small entry in
-- the traffic of the round, so also those whose user has no entry at all; and it reports them by
-- user, in the order of the round's report.
pub report_user_traffic_task_lem :
    {Regex Bucket : Type 0} (min_traffic : ℤ) (traffic : List UserTraffic)
    (l : Limiter Regex Bucket) (by_user : Map ℤ (List String))
    → (report_user_traffic_task min_traffic (ok traffic) l).0.online ≡ some by_user
    → let online = (get_online_device l).0 in
      let sent = counted min_traffic traffic online in
      ((o : OnlineUser) → In o sent ↔ In o online × (has_small min_traffic traffic o.uid ≡ false))
      × ((uid : ℤ) → or_else [] (lookup uid by_user) ≡ ips_of uid sent)
unfolding report_user_traffic_task counted lookup
report_user_traffic_task_lem min_traffic traffic l by_user h =
    let online = (get_online_device l).0 in
    let small = no_count min_traffic traffic [] in
    let grouped = send_online_lem min_traffic traffic online by_user h in
    (
      λ o.
          let kept = In-keep_counted small online o in
          let is_counted : is_some (lookup o.uid small) ≡ has_small min_traffic traffic o.uid =
            lookup-no_count min_traffic traffic [] o.uid ∙ or_none _ in
          (λ i. ((kept.0 i).0, sym is_counted ∙ (kept.0 i).1), λ i. kept.1 (i.0, is_counted ∙ i.1)),
      λ uid. rw grouped (lookup-group (counted min_traffic traffic online) [] uid),
    )
  where
    or_none : (b : Bool) → (b || false) ≡ b
    or_none b = ground arith
