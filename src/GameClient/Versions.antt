-- ===== src/GameClient/Versions.antt =====
-- The version headers of the calls and what the game's answers say of them (src/client.rs, `observe`,
-- `version_need`, `promote_snapshot` and the ends of `execute_once_inner` and `call_selected`). The
-- mutex of `State` makes each of them one step; times are natural numbers in milliseconds, and the
-- log lines are left out. Headers are a function from names to texts.
use sirius_api_proxy.Base.{
  ℕ, ◌+◌, ◌*◌, String, Bool, true, false, not, ◌&&◌, ◌||◌, Option, none, some, ltb, leb, ◌==◌,
  byte_len, all_bytes, is_upper, is_digit, is_alphanumeric, is_some, is_none, is_some_and,
  is_none_or, or_else, filter_option, str_eq, if◌then◌else◌, Result, ok, err, to_option, BTreeMap,
  get,
}
use sirius_api_proxy.Error.{AppError}
use sirius_api_proxy.Region.{Region, Platform, platform_name}
use sirius_api_proxy.Peer.{Observation}
use sirius_api_proxy.Resources.{ResourceSnapshot}
use sirius_api_proxy.NodeRouting.Calls.{authenticated}
use sirius_api_proxy.Resources.Selection.{Readers, select_platform, safe_version}

abbrev pub version_route : String
version_route = "/app.masterdata.MasterdataService/Version"

abbrev pub player_login : String
player_login = "/app.playerlogin.PlayerLoginService/PlayerLogin"

-- Milliseconds
abbrev pub version_retry : ℕ
version_retry = 30000

abbrev pub Headers : Type 0
Headers = String → Option String

-- The parts of `State` that calls change.
pub record State : Type 0 where
  pub observation : Observation
  pub master_pair : Option (String × Option String)
  pub snapshot : Option ResourceSnapshot
  pub snapshot_stale : Bool
  pub cdn_root : String
  pub credential_valid : Bool
  pub global_version : Option (String × ℕ)
  pub version_fresh_until : Option ℕ
  pub version_suspect : Bool
  pub version_retry_at : Option ℕ
  pub client_update_required : Bool

-- The configuration of the region, and the libraries that read times and the resources of a release.
pub record Env : Type 0 where
  pub global : Bool
  pub region : Region
  pub environment : String
  pub platform : Platform
  pub client_version : String
  pub cdn_secrets : BTreeMap String
  pub cdn_credential_env : BTreeMap String
  pub version_max_age_seconds : ℕ
  pub parses_rfc3339 : String → Bool
  pub readers : Readers

pub data VersionNeed : Type 0 where
  fresh required : VersionNeed
  refresh : (wait : Bool) → VersionNeed

unfoldable pub application_code : Headers → Option String
application_code md = filter_option (md "x-sirius-error-code") (λ v.
    not (str_eq v "")
    && leb (byte_len v) 64
    && all_bytes (λ c. is_upper c || is_digit c || c == b'_') v)

-- `==` on optional texts, and with a text or a number
abbrev pub opt_eq : Option String → Option String → Bool
opt_eq none none = true
opt_eq (some a) (some b) = str_eq a b
opt_eq _ _ = false

abbrev pub is_text : Option String → String → Bool
is_text none t = false
is_text (some a) t = str_eq a t

abbrev pub is_status : Option ℕ → ℕ → Bool
is_status none n = false
is_status (some a) n = a == n

-- The match of `observe` on the application code.
unfoldable pub note_code : Option ℕ → Option String → State → State
note_code status sent s =
    let code = s.observation.application_code in
    if is_text code "MASTER_VERSION_MISMATCH"
      && (not s.version_suspect && is_some sent && opt_eq sent s.observation.master_version)
    then record s { version_suspect = true }
    else if is_text code "CLIENT_UPDATE_REQUIRED" && not s.client_update_required
    then record s { client_update_required = true }
    else if is_status status 0
    then record s { client_update_required = false }
    else s

unfoldable pub note_root : Option String → State → State
note_root none s = s
note_root (some root) s =
    if str_eq root s.cdn_root
    then s
    else record s { snapshot_stale = true; credential_valid = false; cdn_root = root }

unfoldable pub note_failure : Option ℕ → State → State
note_failure status s = if is_status status 0 then s else record s { snapshot_stale = true }

unfoldable pub selected : Env → String → Result (String × String) AppError
selected env raw = select_platform env.readers raw env.client_version env.platform

module _ (env : Env) where
  unfoldable pub note_credential : Option String → State → State
  note_credential none s = s
  note_credential (some credential) s =
      if is_text (get s.cdn_root env.cdn_secrets) credential
      then record s { credential_valid = true }
      else record s { credential_valid = false; snapshot_stale = true }

  -- `observe`: a gRPC answer to a call that carried the version `sent`.
  unfoldable pub observe : ℕ → Headers → Option ℕ → Option String → State → State
  observe now md status sent s =
      let seen = record s {
        observation = record s.observation {
          observed_at = some now;
          grpc_status = status;
          application_code = application_code md;
          maintenance = is_text (application_code md) "UNDER_MAINTENANCE";
        };
      } in
      let coded = note_code status sent seen in
      let timed = record coded {
        observation = record coded.observation {
          server_time = filter_option (md "x-server-time") env.parses_rfc3339;
        };
      } in
      note_credential (md "x-sirius-cred")
        (note_root (md "x-sirius-env") (note_failure status timed))

  unfoldable pub missing : State → Bool
  missing s =
      is_none s.observation.master_version || env.global && is_none s.observation.resource_version

  unfoldable pub version_need : String → ℕ → State → VersionNeed
  version_need route now s =
      if str_eq route version_route || str_eq route player_login
      then fresh
      else if missing s && authenticated route
      then required
      else if is_none s.observation.master_version
          || is_some_and s.version_retry_at (λ at. ltb now at)
      then fresh
      else if s.version_suspect
      then refresh true
      else if is_none_or s.version_fresh_until (λ at. leb at now)
      then refresh false
      else fresh

  -- A Global resource version that is a component of a path.
  unfoldable pub resource_version_component : String → Bool
  resource_version_component v =
      not (str_eq v "")
      && leb (byte_len v) 128
      && not (str_eq v "." || str_eq v ".." || str_eq v "unknown")
      && all_bytes (λ b. is_alphanumeric b || b == b'.' || b == b'_' || b == b'-') v

  -- The asset version of a VERSION answer: the body's, or the one that the header selects.
  abbrev selected_version : Option (String × String) → Option String
  selected_version none = none
  selected_version (some x) = some x.0

  abbrev selected_by : Option String → Option (String × String)
  selected_by none = none
  selected_by (some raw) = to_option (selected env raw)

  unfoldable pub asset_version : Headers → Option String → Option String
  asset_version md body =
      or_else body
        (filter_option (selected_version (selected_by (md "x-asset-version"))) safe_version)

  abbrev pub global_of : ℕ → Option String → Option (String × ℕ)
  global_of now none = none
  global_of now (some v) = some (v, now)

  -- A VERSION answer with its version and its body's resource version.
  unfoldable pub adopt_version : ℕ → Headers → String → Option String → State → State
  adopt_version now md version body s =
      let same = s.version_suspect && is_text s.observation.master_version version in
      let adopted = record s {
        version_retry_at = if same then some (now + version_retry) else none;
        version_suspect = false;
        version_fresh_until = some (now + 1000 * env.version_max_age_seconds);
        observation = record s.observation {
          master_version = some version;
          resource_version = body;
        };
        master_pair = some (version, asset_version md body);
      } in
      if env.global
      then record adopted {
        global_version = global_of now (filter_option body resource_version_component);
        snapshot_stale = true;
      }
      else adopted

  -- The end of `promote_snapshot`.
  unfoldable pub promoted :
      ℕ → String → Result (String × String) AppError → Option String → State → State
  promoted now protocol (err e) reference s = s
  promoted now protocol (ok x) none s = s
  promoted now protocol (ok (version, hash)) (some reference) s =
      if s.credential_valid
      then record s {
        snapshot = some (record {
          schema_version = 2;
          region = env.region;
          environment = env.environment;
          platform = platform_name env.platform;
          client_version = env.client_version;
          protocol_version = protocol;
          master_version = s.observation.master_version;
          resource_version = version;
          platform_hash = hash;
          effective_cdn_root = s.cdn_root;
          credential_ref = reference;
          observed_at = now;
          source = "remote";
          catalog_layout = none;
          catalog_url = none;
          bundle_base_url = none;
          cdn_authorization = none;
        });
        snapshot_stale = false;
      }
      else s

  unfoldable pub promote_raw : ℕ → String → Option String → State → State
  promote_raw now protocol none s = s
  promote_raw now protocol (some raw) s =
      promoted now protocol (selected env raw) (get s.cdn_root env.cdn_credential_env)
        (record s { snapshot_stale = true })

  unfoldable pub promote_snapshot : ℕ → Headers → String → State → State
  promote_snapshot now md protocol s =
      if env.global then s else promote_raw now protocol (md "x-asset-version") s

  -- A call whose result shows no answer that can be read (the end of `call_selected`).
  unfoldable pub note_unread : ℕ → State → State
  note_unread now s = record s {
    snapshot_stale = true;
    observation = record s.observation { grpc_status = none; observed_at = some now };
  }
