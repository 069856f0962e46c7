-- ===== src/AssetDispatch/Observing.antt =====
-- The worker's observation of snapshots and its construction (src/asset_dispatch.rs,
-- `Worker::observe` and `Worker::new`).
use sirius_api_proxy.Base.{
  ℕ, String, Bool, ◌&&◌, none, some, List, [], ◌∷◌, any, str_eq, if◌then◌else◌, Result, ok, err,
}
use sirius_api_proxy.Error.{AppError}
use sirius_api_proxy.Region.{region_eq}
use sirius_api_proxy.Resources.{ResourceSnapshot}
use sirius_api_proxy.AssetJobs.{
  Job, Outcome, HttpRequest, Answer, Client, confirms, submit, get_job,
}
use sirius_api_proxy.AssetJobs as AssetJobs
use sirius_api_proxy.AssetOutbox.Entries.{
  Entry, Identity, State, pending, sending, submitted, completed, failed, Error, invalid,
}
use sirius_api_proxy.AssetOutbox.Entries as Entries
use sirius_api_proxy.AssetOutbox.Store.{World, LedgerFile, ArchiveDirectory, Opening, open_outbox}
use sirius_api_proxy.AssetOutbox.Archive as Archive
use sirius_api_proxy.AssetDispatch.{
  Config, Target, Remote, validate, destination, identity, target_client,
}
use sirius_api_proxy.AssetDispatch.Status.{pending_status}
use sirius_api_proxy.AssetDispatch.Worker.{GameConfig, Worker, and_then, on_outbox, other_identity}

-- The errors of `new`.
pub data NewError : Type 0 where
  app : AppError → NewError
  jobs : AssetJobs.Error → NewError
  outbox : Error → NewError

module _ (jobs : AssetJobs.Env) (outbox : Entries.Env) where
  -- The loop of `observe` over the remotes.
  unfoldable pub observe_identity :
      Bool → Result Identity AppError → Worker → Worker × Result Unit Error
  observe_identity written (err x) w = (w, err invalid)
  observe_identity written (ok i) w =
      and_then (on_outbox (Archive.observe outbox written i w.outbox) w) (λ k w. (w, ok tt))

  unfoldable pub observe_remotes :
      (Remote → Bool) → ResourceSnapshot → List Remote → Worker → Worker × Result Unit Error
  observe_remotes written s [] w = (w, ok tt)
  observe_remotes written s (r ∷ remotes) w =
      and_then (observe_identity (written r) (identity jobs outbox r.config s) w)
        (λ u w. observe_remotes written s remotes w)

  unfoldable pub observe : (Remote → Bool) → ResourceSnapshot → Worker → Worker × Result Unit Error
  observe written s w =
      let all_remotes = observe_remotes written s w.remotes w in
      if region_eq s.region w.region
        && str_eq s.environment w.environment
        && str_eq s.platform w.platform
      then all_remotes
      else (w, err invalid)

  -- The remotes of `new`, with the secrets of the environment.
  unfoldable pub remote_at :
      Target
      → Result String AppError
      → Result String AppError
      → Result Client AssetJobs.Error
      → Result Remote NewError
  remote_at target (err e) d client = err (app e)
  remote_at target (ok token) (err e) client = err (app e)
  remote_at target (ok token) (ok d) (err e) = err (NewError.jobs e)
  remote_at target (ok token) (ok d) (ok client) =
      ok (record { config = target; digest = d; client = client })

  abbrev token_or_empty : Result String AppError → String
  token_or_empty (ok token) = token
  token_or_empty (err e) = ""

  unfoldable pub new_remotes :
      (String → Result String AppError) → ℕ → List Target → Result (List Remote) NewError
  new_remotes secret timeout [] = ok []
  new_remotes secret timeout (t ∷ targets) =
      let token = secret t.token_env in
      elim (remote_at t token (destination jobs outbox t.origin)
        (target_client jobs outbox timeout (token_or_empty token) t)) [
          | err e ↦ err e
          | ok r ↦ elim (new_remotes secret timeout targets) [
            | err e ↦ err e
            | ok remotes ↦ ok (r ∷ remotes)
          ]
        ]

  unfoldable pub new_worker :
      ℕ → GameConfig → Config → List Remote → Result World Error → Result Worker NewError
  new_worker now game config remotes (err e) = err (NewError.outbox e)
  new_worker now game config remotes (ok o) =
      if any (λ x. other_identity game x.1) o.outbox.ledger.entries
      then err
          (app (AppError.config "asset dispatch state belongs to another region or environment"))
      else ok (record {
        region = game.region;
        environment = game.environment;
        platform = game.platform_name;
        config = config;
        outbox = o;
        remotes = remotes;
        refusals = [];
        status = pending_status now o config.history_capacity;
        transport_errors = 0;
        calls = [];
      })

  unfoldable pub new_configured :
      ℕ
      → (String → Result String AppError)
      → Opening
      → LedgerFile
      → ArchiveDirectory
      → GameConfig
      → Config
      → Result Worker NewError
  new_configured now secret io file archive game c = elim (validate jobs outbox c) [
    | err e ↦ err (app e)
    | ok u ↦ elim (new_remotes secret c.request_timeout_ms c.targets) [
      | err e ↦ err e
      | ok remotes ↦
          new_worker now game c remotes (open_outbox outbox c.history_capacity io file archive)
    ]
  ]

  unfoldable pub new :
      ℕ
      → (String → Result String AppError)
      → Opening
      → LedgerFile
      → ArchiveDirectory
      → GameConfig
      → Result Worker NewError
  new now secret io file archive game = elim game.asset_dispatch [
    | none ↦ err (app (AppError.config "missing asset dispatch config"))
    | some c ↦ new_configured now secret io file archive game c
  ]
