-- ===== src/GameClient/Tests.antt =====
-- The client (src/client.rs) at concrete inputs.
use sirius_api_proxy.Base.{
  ℕ, ◌≤◌, ◌≡◌, refl, String, true, false, Option, none, some, List, [], ◌∷◌, ◌++◌, arith, all, take,
  length, is_some, str_eq, ok, err, if◌then◌else◌, suc, ltb, ◌&&◌,
}
use sirius_api_proxy.Error.{AppError}
use sirius_api_proxy.Region.{jp, ios}
use sirius_api_proxy.Accounts.Health.{
  PoolPolicy, default_health, account, path_fault, transient, revoke_path_failures,
}
use sirius_api_proxy.NodeRouting.Calls.{authenticated}
use sirius_api_proxy.GameClient.Charges.{settle_charge}
use sirius_api_proxy.PathHealth.{PathHealth, fault, new, record_outcome, is_attributed}
use sirius_api_proxy.Peer.{default_observation}
use sirius_api_proxy.GameClient.Settlement.{
  Change, own_fault, rejection, charged, settles, run, own_failures,
}
use sirius_api_proxy.GameClient.Versions.{State, Env, Headers, missing, version_need, version_route}
use sirius_api_proxy.GameClient.VersionCalls.{
  Waiting, versioned, ensure_version, needing, locked, with_lock, back_off, version_call,
  version_tries, unanswered, unread,
}
use sirius_api_proxy.GameClient.Refreshes.{ensure_version-known}
use sirius_api_proxy.GameClient.Stale.{reported}
use sirius_api_proxy.GameClient.Answers.{Response, responded, trailers, attempted}
use sirius_api_proxy.GameClient.Frames.{agrees, attempted-agrees, is_fine}
use sirius_api_proxy.GameClient.Calls.{Try, Executed, execute}
use sirius_api_proxy.GameClient.Repeats.{may_repeat, execute-ends}
use sirius_api_proxy.GameClient.Settled.{settled_own}
use Prim.Native.Nat.{Ordering}

abbrev profile : String
profile = "/app.friend.FriendService/FindByProfileID"

abbrev env : Env
env = record {
  global = false;
  region = jp;
  environment = "prod";
  platform = ios;
  client_version = "1.0.3";
  cdn_secrets = [];
  cdn_credential_env = [];
  version_max_age_seconds = 600;
  parses_rfc3339 = λ s. true;
  readers = record {
    read_document = λ s. none;
    is_version = λ s. true;
    compare_versions = λ s t. Ordering.eq;
  };
}

abbrev headers : Option String → Headers
headers code key = if str_eq key "x-sirius-error-code" then code else none

abbrev state : Option String → State
state master = record {
  observation = record default_observation { master_version = master };
  master_pair = none;
  snapshot = none;
  snapshot_stale = true;
  cdn_root = "";
  credential_valid = false;
  global_version = none;
  version_fresh_until = some 9000;
  version_suspect = false;
  version_retry_at = none;
  client_update_required = false;
}

abbrev waiting : Waiting env
waiting = record {
  now = 1000;
  free = true;
  others = λ s. s;
  then_at = 2000;
  admitted = true;
  failed = unanswered [] AppError.transport ∷ [];
  call = versioned [] (unread 3000 ∷ []) [] 3000 3000 3000 (headers none) "2.0" none "p";
  before_retry = [];
  ended_at = 3000;
}

auth_lem : authenticated profile ≡ true
unfolding authenticated
auth_lem = refl

ensure_lem : (ensure_version env waiting profile (state none)).1 ≡ ok tt
unfolding ensure_version needing locked with_lock back_off version_tries version_call version_need
    missing authenticated
ensure_lem = refl

ensure_version-known_example :
    is_some (ensure_version env waiting profile (state none)).0.observation.master_version ≡ true
ensure_version-known_example =
    ensure_version-known env waiting profile (state none) auth_lem ensure_lem

abbrev stale_headers : Headers
stale_headers = headers (some "MASTER_VERSION_MISMATCH")

abbrev stale_state : State
stale_state = reported env 2 stale_headers (some 9) "1.0" [] (state (some "1.0"))

-- A maintenance.
abbrev busy : Response
busy =
    responded true (λ key. if str_eq key "content-type" then some "application/grpc" else none)
      (trailers (λ key.
          if str_eq key "grpc-status"
          then some "14"
          else if str_eq key "x-sirius-error-code"
          then some "UNDER_MAINTENANCE"
          else none)
        ∷ [])

attempted-agrees_example : agrees (is_fine busy) (attempted (λ s. some 14) 1000 busy) ≡ true
attempted-agrees_example = attempted-agrees (λ s. some 14) 1000 busy

abbrev tries : List (Try ℕ)
tries =
    (record { result = err AppError.transport; code = none; maintenance = false })
    ∷ (record { result = ok 7; code = none; maintenance = false })
    ∷ []

execute-ends_example :
    (x : Executed ℕ) × (n : ℕ) × (execute 2 250 version_route tries ≡ some x)
    × (x.attempts ≡ suc n)
    × (x.attempts ≤ 2)
    × (length x.delays ≡ n)
    × (all may_repeat (take n tries) ≡ true)
    × (authenticated version_route && ltb 1 x.attempts ≡ false)
execute-ends_example = execute-ends 2 250 version_route tries (omega arith) (omega arith)

abbrev policy : PoolPolicy
policy = record { failure_threshold = 3; cooldown_seconds = 30 }

abbrev first : PathHealth
first = (record_outcome 5 (new policy true) (some "a") fault).0

abbrev second : PathHealth
second = (record_outcome 6 first (some "b") fault).0

-- The account fails on its own, is charged for two faults of the streak around a refusal, and the
-- second charge is settled after another account's fault has attributed the streak.
abbrev suffered : List Change
suffered = own_fault 4 ∷ charged 5 ∷ rejection ∷ charged 7 ∷ []

settled_own_example :
    (run policy 1 (suffered ++ settles second ∷ own_fault 9 ∷ []) default_health).failures ≡ 3
unfolding record_outcome new is_attributed own_failures
settled_own_example =
    settled_own policy 1 suffered (own_fault 9 ∷ []) (settles second) refl refl (omega arith)

-- A charge of a later streak lands first: the settlement of the attributed streak withdraws nothing.
overwritten_lem :
    (settle_charge policy second (account (some 1)) (
      path_fault 8 policy
        (account (some 2))
        (path_fault 7 policy (account (some 1)) default_health))).failures
    ≡ 2
unfolding record_outcome new is_attributed settle_charge path_fault transient revoke_path_failures
overwritten_lem = refl
