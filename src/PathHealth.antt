-- ===== src/PathHealth.antt =====
-- src/path_health.rs: the breaker of one shared upstream path. The mutex makes each method one
-- atomic step, so a method is a function on the guarded state; `Instant::now()` is the argument
-- `now`. The log code of a fault and the mutex's poisoning are left out.
pub mod Invariant
pub mod Events
pub mod Tracks
pub mod Streak
pub mod Probe
mod Tests
use sirius_api_proxy.Base.{
  ℕ, ◌+◌, ◌-◌, ◌*◌, min, String, Bool, true, false, not, Option, none, some, ltb, leb, ◌==◌,
  is_some, if◌then◌else◌, str_eq, saturating_add_u32, increment_u64,
}
use sirius_api_proxy.Accounts.Health.{PoolPolicy, Charge, account, path}

pub data Outcome : Type 0 where
  healthy : Outcome
  fault : Outcome

pub data Transition : Type 0 where
  nothing opened probe_failed recovered : Transition

pub record Change : Type 0 where
  pub transition : Transition
  pub attributed : Option ℕ

pub record State : Type 0 where
  pub failures : ℕ
  pub epoch : ℕ
  pub first_source : Option String
  pub attributed : Bool
  pub last_attributed : ℕ
  pub open_until : Option ℕ
  pub probing : Bool

pub record PathHealth : Type 0 where
  pub distinct_sources : Bool
  pub threshold : ℕ
  pub interval : ℕ
  pub state : State

-- Instants are counted in milliseconds.
abbrev pub max_probe_interval : ℕ
max_probe_interval = 5000

abbrev pub default_state : State
default_state = record {
  failures = 0;
  epoch = 0;
  first_source = none;
  attributed = false;
  last_attributed = 0;
  open_until = none;
  probing = false;
}

unfoldable pub new : PoolPolicy → Bool → PathHealth
new policy distinct_sources = record {
  distinct_sources = distinct_sources;
  threshold = policy.failure_threshold;
  interval = min (1000 * policy.cooldown_seconds) max_probe_interval;
  state = default_state;
}

-- The `Healthy` arm of `record`: `open_until.take()` reports whether the path was open.
abbrev record_healthy : State → State × Change
record_healthy s = (
  record s { failures = 0; attributed = false; first_source = none; open_until = none },
  record {
    transition = if is_some s.open_until then Transition.recovered else Transition.nothing;
    attributed = none;
  },
)

-- The first fault after a healthy answer starts a new streak.
abbrev start_streak : State → State
start_streak s =
    if s.failures == 0
    then record s { epoch = increment_u64 s.epoch; first_source = none; attributed = false }
    else s

-- The inner `match source`: whether the fault is the path's, and the remembered first source.
abbrev blame : Bool → Option String → Option String → Bool × Option String
blame true (some name) none = (false, some name)
blame true (some name) (some first) = (not (str_eq first name), some first)
blame true none first = (true, first)
blame false source first = (true, first)

-- `if !s.attributed { … }`
abbrev attribute : Bool → Option String → State → State × Option ℕ
attribute distinct source s =
    if s.attributed
    then (s, none)
    else let (shared, first) = blame distinct source s.first_source in
      if shared
      then (
        record s { first_source = first; attributed = true; last_attributed = s.epoch },
        some s.epoch,
      )
      else (record s { first_source = first }, none)

abbrev fault_transition : Bool → Bool → Transition
fault_transition false probing = Transition.opened
fault_transition true true = Transition.probe_failed
fault_transition true false = Transition.nothing

-- `if s.attributed && s.failures >= self.threshold { … }`
abbrev open_path : ℕ → ℕ → ℕ → State → State × Transition
open_path now threshold interval s =
    if s.attributed
    then (if leb threshold s.failures
        then (
          record s { open_until = some (now + interval) },
          fault_transition (is_some s.open_until) s.probing,
        )
        else (s, Transition.nothing))
    else (s, Transition.nothing)

-- The `Fault` arm of `record`.
record_fault : ℕ → PathHealth → Option String → State × Change
record_fault now p source =
    let started = start_streak p.state in
    let counted = record started { failures = saturating_add_u32 started.failures 1 } in
    let (blamed, streak) = attribute p.distinct_sources source counted in
    let (final, transition) = open_path now p.threshold p.interval blamed in
    (final, record { transition = transition; attributed = streak })

abbrev with_state : PathHealth → State × Change → PathHealth × Change
with_state p (s, change) = (record p { state = s }, change)

unfoldable pub record_outcome : ℕ → PathHealth → Option String → Outcome → PathHealth × Change
unfolding record_fault
record_outcome now p source healthy = with_state p (record_healthy p.state)
record_outcome now p source fault = with_state p (record_fault now p source)

-- A live ticket says whether it is the probe.
pub record Ticket : Type 0 where
  pub probe : Bool

unfoldable pub admit : ℕ → PathHealth → PathHealth × Option Ticket
admit now p = elim p.state.open_until [
  | none ↦ (p, some (record { probe = false }))
  | some until ↦
      if ltb now until
      then (p, none)
      else if p.state.probing
      then (p, none)
      else (record p { state = record p.state { probing = true } }, some (record { probe = true }))
]

-- `impl Drop for Ticket`
unfoldable pub drop_ticket : Ticket → PathHealth → PathHealth
drop_ticket t p = if t.probe then record p { state = record p.state { probing = false } } else p

unfoldable pub charge : PathHealth → Charge
charge p =
    if p.state.attributed
    then path
    else if is_some p.state.open_until
    then path
    else account (if ltb 0 p.state.failures then some p.state.epoch else none)

-- `attributed(epoch)`
unfoldable pub is_attributed : PathHealth → ℕ → Bool
is_attributed p epoch = p.state.last_attributed == epoch

pub data Label : Type 0 where
  closed probing open_label : Label

pub record Status : Type 0 where
  pub state : Label
  pub failures : ℕ
  pub attributed : Bool
  pub cooldown_remaining_ms : ℕ

abbrev label : Option ℕ → Bool → Label
label none probe = closed
label (some until) true = probing
label (some until) false = open_label

abbrev remaining : ℕ → Option ℕ → ℕ
remaining now none = 0
remaining now (some until) = until - now

unfoldable pub status : ℕ → PathHealth → Status
status now p = record {
  state = label p.state.open_until p.state.probing;
  failures = p.state.failures;
  attributed = p.state.attributed;
  cooldown_remaining_ms = remaining now p.state.open_until;
}
