-- ===== src/Node/Controller/Speed.antt =====
-- `SpeedChecker` of node/task.go. Its task is made behind the limiter; in a controller that was never
-- started it panics here.
use v2b_x_turbo.Base.{
  set, get_elem?, ℤ, pos, ◌+ℤ◌, ◌*ℤ◌, lt_ℤ, int64, unix, String, none, some, ok, err, [], ◌∷◌, Map,
  delete, string_eq, if◌then◌else◌,
}
use v2b_x_turbo.Conf.Types.{DynamicSpeedLimitConfig}
use v2b_x_turbo.Limiter.Types.{Limiter}
use v2b_x_turbo.Limiter.Users.{update_dynamic_speed_limit}
use v2b_x_turbo.Node.Controller.{World, Outcome, returned, panicked}

module _ {Regex Bucket : Type 0} where
  -- The loop of `SpeedChecker` over the records that it visits; an unknown user's error is logged.
  unfoldable pub check_speeds :
      ℤ
      → String
      → DynamicSpeedLimitConfig
      → Map String ℤ
      → Map String ℤ × Limiter Regex Bucket
      → Map String ℤ × Limiter Regex Bucket
  check_speeds now tag d [] (traffic, l) = (traffic, l)
  check_speeds now tag d ((u, t) ∷ rest) (traffic, l) = check_speeds now tag d rest (
      if lt_ℤ t d.traffic then (traffic, l) else (
        delete u traffic,
        elim (update_dynamic_speed_limit tag u d.speed_limit
            (unix (now +ℤ int64 (d.expire_time *ℤ pos 60000000000))) l) [ err m ↦ l | ok l' ↦ l' ],
      ))

  -- `SpeedChecker`, in the order of the records. It runs behind `Start`, which sets the limiter.
  unfoldable pub speed_checker :
      {C : Type 0} → ℤ → World Regex Bucket C → Outcome (World Regex Bucket C)
  unfolding check_speeds
  speed_checker now w =
      let c = w.controller in
      elim c.traffic [
        | [] ↦ returned none w
        | e ∷ es ↦ elim c.options.limit_config.dynamic_speed_limit_config [
          | none ↦ panicked
          | some d ↦ elim c.limiter [
            | none ↦ panicked
            | some k ↦ elim (get_elem? w.limiters.objects k) [
              | none ↦ panicked
              | some l ↦
                  let (traffic, l') = check_speeds now c.tag d (e ∷ es) (e ∷ es, l) in
                  returned none (record w {
                    controller = record c { traffic = traffic };
                    limiters = record w.limiters { objects = set w.limiters.objects k l' };
                  })
            ]
          ]
        ]
      ]
