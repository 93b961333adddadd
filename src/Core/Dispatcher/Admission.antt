-- ===== src/Core/Dispatcher/Admission.antt =====
-- Whom `getLink` and `DispatchLink` let in.
use v2b_x_turbo.Base.{Bool, true, false, Result, ok, err, string_eq}
use v2b_x_turbo.Limiter.Types.{Limiter}

unfoldable pub is_ok : {A : Type 0} → Result A → Bool
is_ok (ok a) = true
is_ok (err e) = false
