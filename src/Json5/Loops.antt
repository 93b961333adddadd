-- ===== src/Json5/Loops.antt =====
-- The fuel of the loops of json5.go is enough for every loop to end by its own test.
pub mod Rules
use v2b_x_turbo.Base.{false, nat_eq, ◌⊎◌}
