-- ===== src/Format.antt =====
-- common/format/user.go: the key under which a user of a node is stored.
use Prim.Native.String.{◌++◌}
use text.Mathlib.TextLemmas.{append_cancel_left}
use v2b_x_turbo.Base.{String, ◌≡◌}

unfoldable pub user_tag : String → String → String
user_tag tag uuid = tag ++ ("|" ++ uuid)

-- Under one node's tag no two users share a key.
pub user_tag-injective : (tag u v : String) → user_tag tag u ≡ user_tag tag v → u ≡ v
unfolding user_tag
user_tag-injective tag u v h = append_cancel_left "|" u v (append_cancel_left tag _ _ h)
