-- ===== src/AssetDispatch/Cycles.antt =====
-- The cycles of the worker (src/asset_dispatch.rs, `run` and `cycles`). What happens during a cycle
-- is a value: the snapshot or a stop, the pass, and the pause with its commands. A stop that comes
-- while a pass is running is not modelled.
use sirius_api_proxy.Base.{
  ℕ, ◌+◌, String, Bool, Option, none, some, List, [], ◌∷◌, if◌then◌else◌, Result, ok, err,
}
use sirius_api_proxy.Error.{AppError}
use sirius_api_proxy.Resources.{ResourceSnapshot}
use sirius_api_proxy.AssetJobs as AssetJobs
use sirius_api_proxy.AssetOutbox.Entries.{Error, invalid, locked, storage, full}
use sirius_api_proxy.AssetOutbox.Entries as Entries
use sirius_api_proxy.AssetOutbox.Archive.{Archiving}
use sirius_api_proxy.AssetDispatch.{Remote}
use sirius_api_proxy.AssetDispatch.Status.{DispatchStatus}
use sirius_api_proxy.AssetDispatch.Worker.{Worker, Io, publish, reconcile}
use sirius_api_proxy.AssetDispatch.Observing.{observe}
use sirius_api_proxy.AssetDispatch.Commands.{Action, handle}

pub record Command : Type 0 where
  pub at : ℕ
  pub closed : Bool
  pub io : Archiving
  pub action : Action

-- What happens in one cycle. `snapshot` is none when the worker is stopped first, and `ended` says
-- whether the pause ends before the worker is stopped.
pub record Cycle : Type 0 where
  pub started_at : ℕ
  pub stopped_before : Bool
  pub snapshot : Option (Result ResourceSnapshot AppError)
  pub observed : Remote → Bool
  pub observed_at : ℕ
  pub taken : Bool
  pub io : String → Io
  pub reconciled_at : ℕ
  pub idle_at : ℕ
  pub commands : List Command
  pub ended : Bool

abbrev pub observe_result : Error → String
observe_result full = "capacity_exhausted"
observe_result invalid = "rejected"
observe_result storage = "storage_failed"
observe_result locked = "storage_failed"

abbrev pub observed_status : ℕ → String → Option String → DispatchStatus → DispatchStatus
observed_status now result version s = record s {
  status = "reconciling";
  last_observation = some (record { at = now; result = result; resource_version = version });
}

abbrev pub observing : ℕ → DispatchStatus → DispatchStatus
observing now s = record s {
  status = "observing";
  cycle_started_at = some now;
  next_cycle_at = none;
}

abbrev pub idle : ℕ → ℕ → DispatchStatus → DispatchStatus
idle interval now s = record s {
  status = "idle";
  cycle_started_at = none;
  last_cycle_at = some now;
  next_cycle_at = some (now + interval);
}

abbrev pub stopped : String → DispatchStatus → DispatchStatus
stopped reason s = record s {
  status = "stopped";
  stop_reason = some reason;
  cycle_started_at = none;
  next_cycle_at = none;
}

unfoldable pub note_observation : ℕ → ResourceSnapshot → Worker × Result Unit Error → Worker
note_observation now s (w, ok u) =
    publish now (observed_status now "recorded" (some s.resource_version)) w
note_observation now s (w, err x) = publish now (observed_status now (observe_result x) none) w

module _ (jobs : AssetJobs.Env) (outbox : Entries.Env) where
  unfoldable pub observe_cycle : Cycle → Result ResourceSnapshot AppError → Worker → Worker
  observe_cycle c (err e) w =
      publish c.observed_at (observed_status c.observed_at "unavailable" none) w
  observe_cycle c (ok s) w = note_observation c.observed_at s (observe jobs outbox c.observed s w)

  unfoldable pub handle_command : Command → Worker → Worker
  handle_command c w =
      publish c.at (λ s. s)
        (record w { outbox = (handle outbox c.io c.closed c.action w.outbox).0 })

  unfoldable pub handle_commands : List Command → Worker → Worker
  handle_commands [] w = w
  handle_commands (c ∷ commands) w = handle_commands commands (handle_command c w)

  -- After the pass: the pause, with the commands that come.
  unfoldable pub pause : Cycle → Worker × Result Unit Error → Worker × Option String
  pause c (w, err x) = (w, some "asset_outbox_storage")
  pause c (w, ok u) = (
    handle_commands c.commands (publish c.idle_at (idle w.config.interval_seconds c.idle_at) w),
    if c.ended then none else some "shutdown",
  )

  unfoldable pub after_snapshot :
      Cycle → Option (Result ResourceSnapshot AppError) → Worker → Worker × Option String
  after_snapshot c none w = (w, some "shutdown")
  after_snapshot c (some snapshot) w =
      pause c (reconcile jobs outbox c.reconciled_at c.taken c.io (observe_cycle c snapshot w))

  unfoldable pub cycle : Cycle → Worker → Worker × Option String
  cycle c w =
      let started = after_snapshot c c.snapshot (publish c.started_at (observing c.started_at) w) in
      if c.stopped_before then (w, some "shutdown") else started

  -- The cycles until one gives the reason of a stop, or those that have happened so far.
  unfoldable pub go_on : List Cycle → Worker × Option String → Worker × Option String
  go_on cycles (w, some reason) = (w, some reason)
  go_on [] (w, none) = (w, none)
  go_on (c ∷ cycles) (w, none) = go_on cycles (cycle c w)

  unfoldable pub cycles : List Cycle → Worker → Worker × Option String
  cycles happened w = go_on happened (w, none)

  unfoldable pub stop_at : ℕ → Worker × Option String → Worker
  stop_at now (w, none) = w
  stop_at now (w, some reason) = publish now (stopped reason) w

  unfoldable pub run_worker : ℕ → List Cycle → Worker → Worker
  run_worker now happened w = stop_at now (cycles happened w)
