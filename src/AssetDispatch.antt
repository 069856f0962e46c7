-- ===== src/AssetDispatch.antt =====
-- src/asset_dispatch.rs: the targets of asset dispatches, and what a job's outcome must match. The
-- worker is in the module `Worker`, the status it publishes in `Status`, and the commands of the
-- administrators in `Commands` (src/asset_dispatch_admin.rs).
pub mod Status
pub mod Worker
pub mod Observing
pub mod Cycles
pub mod Commands
pub mod Steps
pub mod Answers
pub mod Sending
pub mod Passes
pub mod Sends
pub mod Refusals
pub mod Completions
pub mod Counts
pub mod Targets
mod Tests
use sirius_api_proxy.Base.{
  ℕ, String, Bool, true, false, not, ◌&&◌, ◌||◌, Option, none, some, List, [], ◌∷◌, ltb, ◌==◌,
  within, length, any, str_eq, is_some, is_some_and, if◌then◌else◌, byte_len, all_bytes,
  is_alphanumeric, Result, ok, err, bind,
}
use sirius_api_proxy.Error.{AppError}
use sirius_api_proxy.Region.{jp, region_eq}
use sirius_api_proxy.Resources.{ResourceSnapshot}
use sirius_api_proxy.AssetJobs.{Url, Client, Export, Outcome}
use sirius_api_proxy.AssetJobs as AssetJobs
use sirius_api_proxy.AssetOutbox.Entries.{Identity, update, key}
use sirius_api_proxy.AssetOutbox.Entries as Entries

pub record Target : Type 0 where
  pub origin : String
  pub token_env : String
  pub user_agent : Option String
  pub allow_http : Bool
  pub profile : String
  pub profile_revision : String
  pub require_full_catalog : Bool
  pub require_full_export : Bool
  pub require_publication : Bool

pub record Config : Type 0 where
  pub state_directory : String
  pub interval_seconds : ℕ
  pub request_timeout_ms : ℕ
  pub history_capacity : ℕ
  pub targets : List Target

pub record Remote : Type 0 where
  pub config : Target
  pub digest : String
  pub client : Client

-- Every code that the worker persists, in the order of `FAILURE_CODES`.
abbrev pub failure_codes : List String
failure_codes =
    "target_removed" ∷ "submission_ambiguous" ∷ "job_identity_mismatch" ∷ "job_failed"
    ∷ "job_cancelled" ∷ "outcome_mismatch" ∷ "job_pruned" ∷ "submission_refused"
    ∷ "submission_rejected" ∷ "submission_unauthorized" ∷ "idempotency_conflict"
    ∷ "asset_dispatch_request_invalid" ∷ "invalid_job_response" ∷ []

abbrev pub max_refusals : ℕ
max_refusals = 10

unfoldable pub rejected_submission : ℕ → Option String
rejected_submission status =
    if any (λ s. status == s) (400 ∷ 404 ∷ 405 ∷ 413 ∷ 415 ∷ 422 ∷ [])
    then some "submission_rejected"
    else if status == 401 || status == 403
    then some "submission_unauthorized"
    else if status == 409
    then some "idempotency_conflict"
    else none

abbrev exported : Option String → Export → Bool
exported publication e = e.full_export && (e.retained || is_some publication)

unfoldable pub matches_outcome : Identity → Outcome → Bool
matches_outcome i o =
    let v = o.verification in
    region_eq v.region i.request.region
    && str_eq v.environment i.environment
    && str_eq v.platform i.platform
    && str_eq v.resource_version i.resource_version
    && str_eq v.platform_hash i.platform_hash
    && v.catalog_verified
    && (not i.require_full_catalog || v.full_catalog)
    && (not i.require_full_export || is_some_and o.export (exported o.publication_id))
    && (not i.require_publication || is_some o.publication_id)

-- The snapshot that `validate` tries a target on.
abbrev pub validation_snapshot : ResourceSnapshot
validation_snapshot = record {
  schema_version = 2;
  region = jp;
  environment = "validation";
  platform = "iOS";
  client_version = "1";
  protocol_version = "1";
  master_version = none;
  resource_version = "1";
  platform_hash = "hash";
  effective_cdn_root = "";
  credential_ref = "";
  observed_at = 0;
  source = "remote";
  catalog_layout = none;
  catalog_url = none;
  bundle_base_url = none;
  cdn_authorization = none;
}

-- `HashSet::contains` on pairs
abbrev pub contains_pair : String → String → List (String × String) → Bool
contains_pair a b keys = any (λ x. str_eq a x.0 && str_eq b x.1) keys

unfoldable pub valid_token_env : String → Bool
valid_token_env t =
    not (
      str_eq t ""
      || ltb 256 (byte_len t)
      || not (all_bytes (λ b. is_alphanumeric b || b == b'_') t))

unfoldable pub valid_bounds : Config → Bool
valid_bounds c = not (
    str_eq c.state_directory ""
    || not (within 1 16 (length c.targets))
    || not (within 10 86400 c.interval_seconds)
    || not (within 100 300000 c.request_timeout_ms)
    || not (within 1 100000 c.history_capacity))

module _ (jobs : AssetJobs.Env) (outbox : Entries.Env) where
  unfoldable pub destination_of : Option Url → Result String AppError
  destination_of none = err (AppError.config "invalid asset dispatch origin")
  destination_of (some url) = ok (jobs.sha256 url.as_str)

  unfoldable pub destination : String → Result String AppError
  destination origin = destination_of (jobs.parse_url origin)

  unfoldable pub identity_at :
      Target → ResourceSnapshot → Result String AppError → Result Identity AppError
  identity_at target s (err e) = err e
  identity_at target s (ok d) = ok (record {
    destination_sha256 = d;
    request = record { region = s.region; profile = target.profile; operation = update };
    profile_revision = target.profile_revision;
    environment = s.environment;
    platform = s.platform;
    resource_version = s.resource_version;
    platform_hash = s.platform_hash;
    require_full_catalog = target.require_full_catalog;
    require_full_export = target.require_full_export;
    require_publication = target.require_publication;
  })

  unfoldable pub identity : Target → ResourceSnapshot → Result Identity AppError
  identity target s = identity_at target s (destination target.origin)

  -- `Client::new` and then `with_user_agent`
  unfoldable pub client_with :
      Option String → Result Client AssetJobs.Error → Result Client AssetJobs.Error
  client_with agent (err e) = err e
  client_with agent (ok client) = AssetJobs.with_user_agent jobs client agent

  unfoldable pub target_client : ℕ → String → Target → Result Client AssetJobs.Error
  target_client timeout token target =
      client_with target.user_agent
        (AssetJobs.new jobs target.origin token target.allow_http timeout)

  -- The end of the loop's body: the transport and the identity of a target.
  unfoldable pub check_key : Result String Entries.Error → Result Unit AppError
  check_key (err e) = err (AppError.config "invalid asset dispatch profile")
  check_key (ok k) = ok tt

  unfoldable pub check_profile : Result Identity AppError → Result Unit AppError
  check_profile (err e) = err e
  check_profile (ok i) = check_key (key outbox i)

  unfoldable pub check_transport : Target → Result Client AssetJobs.Error → Result Unit AppError
  check_transport target (err e) = err (AppError.config "invalid asset dispatch transport")
  check_transport target (ok client) = check_profile (identity target validation_snapshot)

  -- A target whose destination is known is checked, and its pair joins those before it.
  unfoldable pub check_destination :
      ℕ
      → List (String × String)
      → Target
      → Result String AppError
      → Result (List (String × String)) AppError
  check_destination timeout keys target (err e) = err e
  check_destination timeout keys target (ok d) =
      if contains_pair d target.profile keys
      then err (AppError.config "invalid or duplicate asset dispatch target")
      else bind (check_transport target (target_client timeout "configuration-validation" target))
          (λ u. ok ((d, target.profile) ∷ keys))

  unfoldable pub check_target :
      ℕ → List (String × String) → Target → Result (List (String × String)) AppError
  check_target timeout keys target =
      if valid_token_env target.token_env
      then check_destination timeout keys target (destination target.origin)
      else err (AppError.config "invalid or duplicate asset dispatch target")

  unfoldable pub check_targets : ℕ → List (String × String) → List Target → Result Unit AppError
  check_targets timeout keys [] = ok tt
  check_targets timeout keys (t ∷ targets) =
      bind (check_target timeout keys t) (λ keys'. check_targets timeout keys' targets)

  unfoldable pub validate : Config → Result Unit AppError
  validate c =
      if valid_bounds c
      then check_targets c.request_timeout_ms [] c.targets
      else err (AppError.config "invalid asset dispatch bounds")
