-- ===== src/PathHealth/Tests.antt =====
-- Concrete runs of the breaker, and the theorems about it at concrete inputs.
use sirius_api_proxy.Base.{
  ℕ, ◌≤◌, ◌<◌, ◌≡◌, ◌↔◌, ◌⊎◌, refl, true, false, none, some, List, [], ◌∷◌, arith, u32_max, min,
  length, is_some,
}
use sirius_api_proxy.Accounts.Health.{PoolPolicy}
use sirius_api_proxy.PathHealth.{fault, new, record_outcome, admit}
use sirius_api_proxy.PathHealth.Events.{Event, attempt, admission, apply, run}
use sirius_api_proxy.PathHealth.Streak.{
  IsOwn, after, streak, attributed_iff_shared, open_iff_threshold,
}
use sirius_api_proxy.PathHealth.Probe.{
  PolicyStart, World, Reach, here, next, attempted, admitted, start, probes, probes-le-one,
  refused_iff_open,
}

abbrev policy : PoolPolicy
policy = record { failure_threshold = 2; cooldown_seconds = 30 }

-- Two accounts fail in turn: the second fault is the path's, and opens it.
abbrev events : List Event
events = attempt 10 (some "a") fault ∷ admission 20 ∷ attempt 30 (some "b") fault ∷ []

opened_by_two_accounts :
    ((after policy true events).state.open_until ≡ some 5030)
    × ((after policy true events).state.attributed ≡ true)
unfolding run apply record_outcome admit new
opened_by_two_accounts = (refl, refl)

-- One account alone never opens the path.
held_by_one_account :
    (after policy true
      (attempt 10 (some "a") fault ∷ attempt 30 (some "a") fault ∷ [])).state.open_until
    ≡ none
unfolding run apply record_outcome new
held_by_one_account = refl

attributed_iff_shared_example :
    ((after policy true events).state.attributed ≡ false) ↔ IsOwn true (streak policy true events)
attributed_iff_shared_example = attributed_iff_shared policy true events (omega arith) (omega arith)

open_iff_threshold_example :
    ((after policy true events).state.failures ≡ min (length (streak policy true events)) u32_max)
    × ((is_some (after policy true events).state.open_until ≡ true)
        ↔ ((¬ IsOwn true (streak policy true events)) × (2 ≤ length (streak policy true events))))
open_iff_threshold_example = open_iff_threshold policy true events (omega arith) (omega arith)

abbrev sdk : PolicyStart
sdk = record { policy = policy; distinct = false }

-- An SDK path after two anonymous faults.
abbrev faulted : ℕ → World → World
faulted now w = record w { path = (record_outcome now w.path none fault).0 }

abbrev open_world : World
open_world = faulted 20 (faulted 10 (start sdk))

open_reached : Reach (start sdk) open_world
open_reached = next (next here (attempted 10 none fault refl)) (attempted 20 none fault refl)

-- The interval has passed, and one caller holds the probe.
abbrev probe_world : World
probe_world = record { path = (admit 6000 open_world.path).0; live = record { probe = true } ∷ [] }

probe_reached : Reach (start sdk) probe_world
unfolding admit record_outcome new
probe_reached = next open_reached (admitted 6000 (record { probe = true }) refl refl)

probes-le-one_example :
    (probes probe_world.live ≤ 1)
    × ((probe_world.path.state.probing ≡ true) ↔ (probes probe_world.live ≡ 1))
probes-le-one_example = probes-le-one sdk probe_reached

refused_iff_open_example : ((admit 7000 probe_world.path).1 ≡ none) ↔ (
    (until : ℕ) × (probe_world.path.state.open_until ≡ some until)
    × ((7000 < until) ⊎ (probes probe_world.live ≡ 1)))
refused_iff_open_example = refused_iff_open sdk 7000 probe_reached
