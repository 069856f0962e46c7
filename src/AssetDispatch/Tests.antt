-- ===== src/AssetDispatch/Tests.antt =====
-- The worker of asset dispatches (src/asset_dispatch.rs) at concrete inputs.
use sirius_api_proxy.Base.{
  ◌≤◌, String, ◌≡◌, refl, true, false, none, some, [], ◌∷◌, arith, ok, get, contains_key, str_ltb,
  replace, remove, insert,
}
use sirius_api_proxy.Region.{jp}
use sirius_api_proxy.AssetOutbox.Entries.{
  Request, Identity, Entry, State, pending, sending, submitted, completed, failed, update, key,
  acceptable, digest, component, is_cn, has_dot, valid_state, uuid, valid_code,
}
use sirius_api_proxy.AssetOutbox.Entries as Entries
use sirius_api_proxy.AssetOutbox.Store.{World, holds, absent, valid_entry, commit}
use sirius_api_proxy.AssetOutbox.Changes as Changes
use sirius_api_proxy.AssetOutbox.Events.{held}
use sirius_api_proxy.AssetJobs.{Url, Client, Job, Answer, response, unreachable, ended, running}
use sirius_api_proxy.AssetJobs as AssetJobs
use sirius_api_proxy.AssetDispatch.{
  Target, Config, validate, check_targets, check_target, check_destination, check_transport,
  check_profile, check_key, target_client, client_with, destination, destination_of, identity,
  identity_at, valid_bounds, valid_token_env,
}
use sirius_api_proxy.AssetDispatch.Status.{pending_status, summarize, count_entries, count_state}
use sirius_api_proxy.AssetDispatch.Worker.{
  Worker, Io, reconcile, reconcile_batch, reconcile_taken, reconcile_entries, reconcile_entry,
  with_remote, find_remote, dispatch, fail, publish, published_pass,
}
use sirius_api_proxy.AssetDispatch.Counts.{state_sum, summarize-counts}
use sirius_api_proxy.AssetDispatch.Refusals.{IsWell, reconcile-IsWell}
use sirius_api_proxy.AssetDispatch.Completions.{Explained, reconcile-Explained}
use sirius_api_proxy.AssetOutbox.Rotation.{
  next_batch, move_cursor, rotated, filter_entries, terminal,
}
use sirius_api_proxy.AssetOutbox.Changes.{change, change_found, write_state, failed_state}
use sirius_api_proxy.AssetDispatch.Passes.{Gives}

abbrev hash_a : String
hash_a = "aaaaaaaaaaaaaaaaaaaaaaaaaaaaaaaaaaaaaaaaaaaaaaaaaaaaaaaaaaaaaaaa"

abbrev key_a : String
key_a = "sirius-aaaaaaaaaaaaaaaaaaaaaaaaaaaaaaaaaaaaaaaaaaaaaaaaaaaaaaaaaaaaaaaa"

abbrev outbox : Entries.Env
outbox = record { sha256 = λ i. hash_a; parse_uuid = λ v. some v }

abbrev target : String → Target
target profile = record {
  origin = "https://updater";
  token_env = "TOKEN";
  user_agent = none;
  allow_http = false;
  profile = profile;
  profile_revision = "r1";
  require_full_catalog = true;
  require_full_export = false;
  require_publication = false;
}

abbrev settings : Config
settings = record {
  state_directory = "state";
  interval_seconds = 60;
  request_timeout_ms = 1000;
  history_capacity = 10;
  targets = target "main" ∷ target "other" ∷ [];
}

abbrev root : Url
root = record {
  scheme = "https";
  username = "";
  password = none;
  host_str = some "updater";
  path = "/";
  query = none;
  fragment = none;
  as_str = "https://updater/";
}

abbrev request : Request
request = record { region = jp; profile = "main"; operation = update }

abbrev job : Job
job = record {
  id = "job-1";
  request = request;
  status = running;
  idempotency_sha256 = some hash_a;
  outcome = none;
}

abbrev jobs : AssetJobs.Env
jobs = record {
  parse_url = λ u. some root;
  join = λ u path. some path;
  header_value = λ v. true;
  http_builds = λ timeout. true;
  trim = λ s. s;
  parse_uuid = λ s. some s;
  sha256 = λ s. hash_a;
  to_json = λ r. some "request";
  from_json = λ bytes. some job;
}

abbrev client : Client
client = record {
  connect_timeout = 1000;
  timeout = 1000;
  root = root;
  authorization = "Bearer token";
  user_agent = none;
}

abbrev entry : State → Entry
entry state = record {
  identity = record {
    destination_sha256 = hash_a;
    request = request;
    profile_revision = "r1";
    environment = "prod";
    platform = "iOS";
    resource_version = "1.2.3";
    platform_hash = "h";
    require_full_catalog = true;
    require_full_export = false;
    require_publication = false;
  };
  state = state;
}

abbrev world : State → World
world state = record {
  outbox = record {
    ledger = record {
      schema_version = 1;
      reconciliation_cursor = none;
      entries = (key_a, entry state) ∷ [];
    };
    capacity = 10;
  };
  file = holds (record {
    schema_version = 1;
    reconciliation_cursor = none;
    entries = (key_a, entry state) ∷ [];
  });
  archive = absent;
}

abbrev worker : State → Worker
worker state = record {
  region = jp;
  environment = "prod";
  platform = "iOS";
  config = settings;
  outbox = world state;
  remotes = (record { config = target "main"; digest = hash_a; client = client }) ∷ [];
  refusals = (key_a, 9) ∷ [];
  status = pending_status 1 (world state) 10;
  transport_errors = 0;
  calls = [];
}

-- Every write succeeds, and every call gets the same answer.
abbrev io : Answer → String → Io
io answer key = record {
  begun = true;
  acknowledged = true;
  settled = true;
  now = 5;
  net = λ r. answer;
}

validate_lem : validate jobs outbox settings ≡ ok tt
unfolding validate check_targets check_target check_destination check_transport check_profile
    check_key target_client client_with destination destination_of identity identity_at valid_bounds
    valid_token_env key acceptable digest component is_cn has_dot AssetJobs.new
    AssetJobs.acceptable_root AssetJobs.acceptable_token AssetJobs.with_user_agent
validate_lem = refl

summarize-counts_example :
    ((summarize (world pending) 10 []).0.total ≡ 1)
    × (state_sum (summarize (world pending) 10 []).0 ≡ 1)
    × ((summarize (world pending) 10 []).0.busy_retrying
        ≤ (summarize (world pending) 10 []).0.pending_count)
summarize-counts_example = summarize-counts (world pending) 10 []

worker-IsWell : IsWell outbox (worker pending)
unfolding contains_key get valid_entry key acceptable digest component is_cn has_dot valid_state
worker-IsWell = record {
  sound = record {
    good = record { version = refl; room = omega arith; cursor = refl; valid = refl };
    filed = refl;
  };
  sorted = (refl, tt);
  bounded = refl;
}

-- The tenth busy answer.
reconcile-IsWell_example :
    IsWell outbox (reconcile jobs outbox 9 true (io (response 503 none ended)) (worker pending)).0
reconcile-IsWell_example =
    reconcile-IsWell jobs outbox 9 true (io (response 503 none ended)) (worker pending)
      worker-IsWell

held_lem : (state : State) → held (world state) key_a ≡ some (entry state)
unfolding held get
held_lem state = refl

-- A dispatch that is found being sent.
found_lem :
    held (reconcile jobs outbox 9 true (io unreachable) (worker (sending 3))).0.outbox key_a
    ≡ some (entry (failed none "submission_ambiguous"))
unfolding reconcile reconcile_batch reconcile_taken reconcile_entries reconcile_entry with_remote
    find_remote dispatch fail next_batch move_cursor rotated filter_entries terminal commit str_ltb
    Changes.fail change change_found write_state failed_state valid_code replace get held publish
    published_pass summarize count_entries count_state contains_key remove insert
found_lem = refl

reconcile-Explained_example :
    Explained
      (Gives jobs (io unreachable) (worker (sending 3)).remotes)
      (world (sending 3))
      key_a
      (entry (failed none "submission_ambiguous"))
      (failed none "submission_ambiguous")
reconcile-Explained_example =
    reconcile-Explained jobs outbox 9 true (io unreachable) (worker (sending 3)) key_a
      (entry (failed none "submission_ambiguous")) (refl, tt) found_lem
