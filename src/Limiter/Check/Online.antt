-- ===== src/Limiter/Check/Online.antt =====
-- `GetOnlineDevice`: the report of a round.
use text.Mathlib.TextEquality.{eq_iff}
use v2b_x_turbo.Base.{
  In-append_left, In-append_right, ℤ, String, true, none, some, List, [], ◌∷◌, map, Map, lookup,
  store, delete, lookup-store, lookup-delete, string_eq, Bool-cases, lookup-store_self, is_some, In,
  inl, inr, ◌⊎◌, ◌==◌, ◌≡◌, refl, arith,
}
use v2b_x_turbo.Panel.Types.{OnlineUser}
use v2b_x_turbo.Limiter.Types.{Limiter}
use v2b_x_turbo.Limiter.Check.{report_ips, report, delete_all, store_all, get_online_device}
use v2b_x_turbo.Limiter.Check.View.{online}
use v2b_x_turbo.Limiter.Check.Admission.{}

delete_all_absent :
    (ks : List String) (k : String) (m : Map String (Map String ℤ))
    → lookup k m ≡ none
    → lookup k (delete_all ks m) ≡ none
unfolding delete_all
delete_all_absent [] k m h = h
delete_all_absent (j ∷ ks) k m h =
    delete_all_absent ks k (delete j m) (ground (arith, lookup-delete j k m))

lookup-delete_all :
    (k : String) (n m : Map String (Map String ℤ))
    → (lookup k n ≡ none → lookup k m ≡ none)
    → lookup k (delete_all (map (λ e. e.0) n) m) ≡ none
unfolding delete_all lookup
lookup-delete_all k [] m h = h refl
lookup-delete_all k ((j, v) ∷ n) m h =
    lookup-delete_all k n (delete j m) (λ e. ground (arith, lookup-delete j k m, eq_iff j k, h))

report_ips_complete :
    (ip : String) (uid : ℤ) (m : Map String ℤ)
    → lookup ip m ≡ some uid
    → In (record { uid = uid; ip = ip }) (report_ips m)
unfolding report_ips lookup
report_ips_complete ip uid [] h = cc
report_ips_complete ip uid ((j, v) ∷ m) h = elim (Bool-cases (j == ip)) [
  | inl same ↦ inl (ground (arith, eq_iff j ip))
  | inr other ↦ inr (report_ips_complete ip uid m (ground arith))
]

report_complete :
    (m : Map String (Map String ℤ)) (j k : String) (v : ℤ)
    → online m j k ≡ some v
    → In (record { uid = v; ip = k }) (report m)
unfolding report online lookup
report_complete [] j k v h = cc
report_complete ((i, ip_map) ∷ m) j k v h = elim (Bool-cases (i == j)) [
  | inl same ↦
      In-append_left _ (report_ips ip_map) _ (report_ips_complete k v ip_map (ground arith))
  | inr other ↦ In-append_right _ (report_ips ip_map) _ (report_complete m j k v (ground arith))
]

-- What is stored is looked up, and only that.
lookup-store_all :
    (k : String) (os : List OnlineUser) (m : Map String ℤ) (v : ℤ)
    → lookup k (store_all os m) ≡ some v
    → (lookup k m ≡ some v) ⊎ In (record { uid = v; ip = k }) os
unfolding store_all
lookup-store_all k [] m v h = inl h
lookup-store_all k (o ∷ os) m v h = elim (lookup-store_all k os (store o.ip o.uid m) v h) [
  | inl e ↦ elim (Bool-cases (o.ip == k)) [
    | inl same ↦ inr (inl (ground (arith, eq_iff o.ip k, lookup-store o.ip k o.uid m)))
    | inr other ↦ inl (ground (arith, lookup-store o.ip k o.uid m))
  ]
  | inr i ↦ inr (inr i)
]

store_all_keeps :
    (k : String) (os : List OnlineUser) (m : Map String ℤ)
    → is_some (lookup k m) ≡ true
    → is_some (lookup k (store_all os m)) ≡ true
unfolding store_all
store_all_keeps k [] m h = h
store_all_keeps k (o ∷ os) m h =
    store_all_keeps k os (store o.ip o.uid m) (ground (arith, lookup-store o.ip k o.uid m))

store_all_stores :
    (o : OnlineUser) (os : List OnlineUser) (m : Map String ℤ)
    → In o os
    → is_some (lookup o.ip (store_all os m)) ≡ true
unfolding store_all
store_all_stores o [] m h = absurd h
store_all_stores o (x ∷ os) m (inl e) =
    rw e (store_all_keeps x.ip os (store x.ip x.uid m) (rw lookup-store_self refl))
store_all_stores o (x ∷ os) m (inr h) = store_all_stores o os (store x.ip x.uid m) h

module _ {Regex Bucket : Type 0} where
  -- The end of a round: no address is online any more; each address that was is in the report and
  -- among the old ones; and each old one is in the report, with its user.
  pub online-get_online_device :
      (l : Limiter Regex Bucket) (j k : String)
      → let r = get_online_device l in
        (online r.1.user_online_ip j k ≡ none)
        × ((v : ℤ)
            → online l.user_online_ip j k ≡ some v
            → In (record { uid = v; ip = k }) r.0 × (is_some (lookup k r.1.old_user_online) ≡ true))
        × ((v : ℤ) → lookup k r.1.old_user_online ≡ some v → In (record { uid = v; ip = k }) r.0)
  unfolding get_online_device online lookup
  online-get_online_device l j k = (
    rw (lookup-delete_all j l.user_online_ip l.user_online_ip (λ e. e)) refl,
    λ v h. (
      report_complete l.user_online_ip j k v h,
      store_all_stores _ _ [] (report_complete l.user_online_ip j k v h),
    ),
    λ v h. elim (lookup-store_all k (report l.user_online_ip) [] v h) [ inl e ↦ cc | inr i ↦ i ],
  )
