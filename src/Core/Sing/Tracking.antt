-- ===== src/Core/Sing/Tracking.antt =====
-- Which connections the hook of core/sing closes, and what it does with the others.
use v2b_x_turbo.Limiter.Types.{Limiter}
