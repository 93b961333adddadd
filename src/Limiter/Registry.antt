-- ===== src/Limiter/Registry.antt =====
-- The limiters by their nodes' tags: the package variable of limiter/limiter.go. The map holds
-- pointers, which the controllers share: a limiter is an object, numbered in the order of creation.
-- Each function holds the lock while it reads or writes the map, so it is one step.
use v2b_x_turbo.Base.{
  ℕ, ℤ, String, none, some, Result, ok, err, List, [], ◌∷◌, ◌++◌, length, get_elem?, Map, lookup,
  store, delete, lookup-store_self, lookup-store_ne, lookup-delete_self, lookup-delete_ne,
  get_elem?-append_new, ◌≢◌, string_eq, ◌≡◌, arith,
}
use v2b_x_turbo.Panel.Types.{UserInfo}
use v2b_x_turbo.Limiter.Types.{Limiter}
use v2b_x_turbo.Limiter.Users.{new_limiter}

pub record Limiters (Regex Bucket : Type 0) : Type 0 where
  pub objects : List (Limiter Regex Bucket)
  pub by_tag : Map String ℕ

module _ {Regex Bucket : Type 0} where
  -- `AddLimiter`: the limiter that it returns, and the state after it.
  unfoldable pub add_limiter :
      String → ℤ → List UserInfo → Map ℤ ℤ → Limiters Regex Bucket → ℕ × Limiters Regex Bucket
  add_limiter tag speed_limit users alive_list ls = (
    length ls.objects,
    record {
      objects = ls.objects ++ new_limiter tag speed_limit users alive_list ∷ [];
      by_tag = store tag (length ls.objects) ls.by_tag;
    },
  )

  unfoldable pub get_limiter : String → Limiters Regex Bucket → Result ℕ
  get_limiter tag ls = elim (lookup tag ls.by_tag) [ none ↦ err "not found" | some l ↦ ok l ]

  unfoldable pub delete_limiter : String → Limiters Regex Bucket → Limiters Regex Bucket
  delete_limiter tag ls = record ls { by_tag = delete tag ls.by_tag }

  -- `AddLimiter` enters the new limiter that it returns under its tag and changes no other tag;
  -- `DeleteLimiter` makes its tag unknown and changes no other.
  pub get-add-delete :
      (tag other : String) (speed_limit : ℤ) (users : List UserInfo) (alive_list : Map ℤ ℤ)
      (ls : Limiters Regex Bucket)
      → let (l, after) = add_limiter tag speed_limit users alive_list ls in
        (get_limiter tag after ≡ ok l)
        × (get_elem? after.objects l ≡ some (new_limiter tag speed_limit users alive_list))
        × (get_limiter tag (delete_limiter tag ls) ≡ err "not found")
        × (tag ≢ other
            → (get_limiter other after ≡ get_limiter other ls)
              × (get_limiter other (delete_limiter tag ls) ≡ get_limiter other ls))
  unfolding add_limiter get_limiter delete_limiter
  get-add-delete tag other speed_limit users alive_list ls =
      let l = length ls.objects in
      (
        ground (arith, lookup-store_self tag l ls.by_tag),
        get_elem?-append_new ls.objects (new_limiter tag speed_limit users alive_list),
        ground (arith, lookup-delete_self tag ls.by_tag),
        λ h. (
          ground (arith, lookup-store_ne tag other l ls.by_tag h),
          ground (arith, lookup-delete_ne tag other ls.by_tag h),
        ),
      )
