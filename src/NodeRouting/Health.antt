-- ===== src/NodeRouting/Health.antt =====
-- The health of one target (src/node_routing.rs).
use sirius_api_proxy.Base.{
  ℕ, ◌+◌, Bool, true, false, ◌||◌, Option, none, some, ltb, leb, is_some, if◌then◌else◌,
  saturating_add_u32,
}
use sirius_api_proxy.NodeRouting.Config.{Config}

pub record Health : Type 0 where
  pub failures : ℕ
  pub open_until : Option ℕ
  pub probing : Bool

abbrev pub default_health : Health
default_health = record { failures = 0; open_until = none; probing = false }

pub record Permit : Type 0 where
  pub probe : Bool

pub data Transition : Type 0 where
  nothing cooldown_started probe_failed recovered : Transition

-- `Target::admit`
unfoldable pub admit : ℕ → Health → Health × Option Permit
admit now h = elim h.open_until [
  | none ↦ (h, some (record { probe = false }))
  | some until ↦
      if ltb now until || h.probing
      then (h, none)
      else (record h { probing = true }, some (record { probe = true }))
]

abbrev cooling_transition : Bool → Bool → Transition
cooling_transition true cooling = probe_failed
cooling_transition false false = cooldown_started
cooling_transition false true = nothing

-- `Permit::finish`
unfoldable pub finish : ℕ → Config → Permit → Bool → Health → Health × Transition
finish now config permit true h =
    let h' = record h { failures = saturating_add_u32 h.failures 1 } in
    if leb config.failure_threshold h'.failures
    then (
      record h' { open_until = some (now + config.cooldown_ms) },
      cooling_transition permit.probe (is_some h.open_until),
    )
    else (h', nothing)
finish now config permit false h = (
  record h { failures = 0; open_until = none },
  if is_some h.open_until then recovered else nothing,
)

-- `impl Drop for Permit`
unfoldable pub drop_permit : Permit → Health → Health
drop_permit permit h = if permit.probe then record h { probing = false } else h
