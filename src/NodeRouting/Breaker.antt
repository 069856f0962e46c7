-- ===== src/NodeRouting/Breaker.antt =====
-- The cooldown of a target (src/node_routing.rs) and its plain description.
use sirius_api_proxy.Base.{
  ℕ, suc, ◌≤◌, ◌<◌, ◌≡◌, ◌↔◌, Bool, true, false, List, [], ◌∷◌, arith, u32_max, min, leb, is_some,
}
use sirius_api_proxy.NodeRouting.Config.{Config, bounds_valid}
use sirius_api_proxy.NodeRouting.Health.{Health, default_health, Permit, admit, finish, drop_permit}

pub data Event : Type 0 where
  admitted : (now : ℕ) → Event
  finished : (now : ℕ) → Permit → (failed : Bool) → Event
  dropped : Permit → Event

module _ (config : Config) where
  unfoldable pub apply : Health → Event → Health
  apply h (admitted now) = (admit now h).0
  apply h (finished now permit failed) = (finish now config permit failed h).0
  apply h (dropped permit) = drop_permit permit h

  unfoldable pub run : Health → List Event → Health
  run h [] = h
  run h (e ∷ events) = run (apply h e) events

abbrev step : ℕ → Event → ℕ
step n (finished now permit true) = suc n
step n (finished now permit false) = 0
step n _ = n

-- The faults since the last call that was none, after `n` of them.
unfoldable pub streak : ℕ → List Event → ℕ
streak n [] = n
streak n (e ∷ events) = streak (step n e) events

record Counts (config : Config) (n : ℕ) (h : Health) : Type 0 where
  counted : h.failures ≡ min n u32_max
  opened : is_some h.open_until ≡ leb config.failure_threshold h.failures

threshold-bounded :
    (config : Config)
    → bounds_valid config ≡ true
    → (0 < config.failure_threshold) × (config.failure_threshold ≤ 100)
unfolding bounds_valid
threshold-bounded config h = (ground (arith, h), ground (arith, h))

module _ (config : Config) (positive : 0 < config.failure_threshold) where
  apply-Counts :
      (h : Health) (n : ℕ) (e : Event)
      → Counts config n h
      → Counts config (step n e) (apply config h e)
  unfolding apply admit finish drop_permit
  apply-Counts h n (admitted now) c = record {
    counted = ground (arith, c.counted);
    opened = ground (arith, c.opened);
  }
  apply-Counts h n (finished now permit true) c = record {
    counted = ground (arith, c.counted);
    opened = ground (arith, c.counted, c.opened);
  }
  apply-Counts h n (finished now permit false) c = record {
    counted = omega arith;
    opened = ground arith;
  }
  apply-Counts h n (dropped permit) c = record {
    counted = ground (arith, c.counted);
    opened = ground (arith, c.opened);
  }

  run-Counts :
      (h : Health) (n : ℕ) (events : List Event)
      → Counts config n h
      → Counts config (streak n events) (run config h events)
  unfolding run streak
  run-Counts h n [] c = c
  run-Counts h n (e ∷ events) c =
      run-Counts (apply config h e) (step n e) events (apply-Counts h n e c)

  default_health-Counts : Counts config 0 default_health
  default_health-Counts = record { counted = omega arith; opened = ground arith }

-- With a configuration within its bounds, and whatever calls are let through, end and give up their
-- permits in whatever order, a target cools down or waits for a probe exactly when the faults since
-- the last call that was none have reached the threshold.
pub open_iff_streak :
    (config : Config) (events : List Event)
    → bounds_valid config ≡ true
    → (is_some (run config default_health events).open_until ≡ true)
      ↔ (config.failure_threshold ≤ streak 0 events)
open_iff_streak config events valid =
    let (positive, bounded) = threshold-bounded config valid in
    let c =
      run-Counts config positive default_health 0 events (default_health-Counts config positive) in
    (
      λ h. ground (arith, c.counted, c.opened, h),
      λ h. ground (arith, c.counted, c.opened, h, bounded),
    )
