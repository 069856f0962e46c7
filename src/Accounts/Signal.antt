-- ===== src/Accounts/Signal.antt =====
-- src/accounts.rs: what the outcome of a call does to the account that made it
-- (`Account::global_signal`, `Lease::report`) and to the SDK session that the account shares.
pub mod Outage
pub mod Repeated
pub mod Devices
use sirius_api_proxy.Base.{
  ℕ, ◌+◌, ◌*◌, String, Bool, true, false, ◌&&◌, ◌||◌, Option, none, some, List, [], ◌∷◌, ◌++◌, leb,
  ◌==◌, length, filter_option, if◌then◌else◌, is_some_and, str_eq, starts_with, byte_len, all_bytes,
  is_upper, is_digit, saturating_add_u32,
}
use sirius_api_proxy.Error.{AppError, timeout, transport, protocol, grpc, maintenance}
use sirius_api_proxy.SdkSession.{Env}
use sirius_api_proxy.SdkSession
use sirius_api_proxy.Accounts.Health.{
  Health, PoolPolicy, Charge, succeeded, transient, path_fault, disable, cool_down,
}
use sirius_api_proxy.Accounts.Login.{LoginConfig, LoginState, prune}

-- The result of a call; the body of a success is not looked at.
pub data CallResult : Type 0 where
  ok : CallResult
  err : AppError → CallResult

-- What one outcome may change: the account's health and login state, and the SDK session.
pub record Subject : Type 0 where
  pub health : Health
  pub login : LoginState
  pub sdk : SdkSession.World

-- The instant of the call, the time of day in seconds, and whether the state file can be written.
pub record Moment : Type 0 where
  pub now : ℕ
  pub utc : ℕ
  pub written : Bool

-- `client::version_signal`
unfoldable pub version_signal : Option String → Bool
version_signal none = false
version_signal (some c) = str_eq c "MASTER_VERSION_MISMATCH" || str_eq c "CLIENT_UPDATE_REQUIRED"

unfoldable pub well_formed : String → Bool
well_formed c = leb (byte_len c) 64 && all_bytes (λ b. is_upper b || is_digit b || b == b'_') c

-- The arms of `match code`, in their order.
pub data Signal : Type 0 where
  banned aegis concurrent_device : Signal
  invalid : (sdk_stale : Bool) → Signal
  ignored unsignalled : Signal

unfoldable pub classify : Option String → Signal
classify none = unsignalled
classify (some c) =
    if starts_with c "BAN_"
    then banned
    else if starts_with c "AEGIS_"
    then aegis
    else if str_eq c "CONCURRENT_DEVICE"
    then concurrent_device
    else if starts_with c "TOKEN_"
    then invalid true
    else if starts_with c "PLAYER_NOT_"
    then invalid false
    else if str_eq c "UNDER_MAINTENANCE"
    then ignored
    else if version_signal (some c)
    then ignored
    else unsignalled

abbrev pub grpc_of : AppError → Option ℕ
grpc_of (grpc status) = some status
grpc_of (maintenance status) = some status
grpc_of _ = none

abbrev pub is_path_error : AppError → Bool
is_path_error timeout = true
is_path_error transport = true
is_path_error protocol = true
is_path_error _ = false

abbrev pub status_is : Option ℕ → ℕ → Bool
status_is none n = false
status_is (some status) n = status == n

-- The writes after a success.
abbrev pub cleared : LoginState → LoginState
cleared s = record s { invalidations = 0; last_error_code = none; last_sdk_code = none }

-- `if let Some(code) = code { … }`
abbrev pub noted : Option String → LoginState → LoginState
noted none s = s
noted (some c) s = record s { last_error_code = some c; last_sdk_code = none }

abbrev pub dropped_session : LoginState → LoginState
dropped_session s = record s {
  session = none;
  invalidations = saturating_add_u32 s.invalidations 1;
}

module _ (env : Env) (at : Moment) (policy : PoolPolicy) (login : LoginConfig) where
  -- The closure `invalidate`.
  unfoldable pub invalidate : Bool → Subject → Subject
  invalidate sdk_stale s = record s {
    sdk =
        if sdk_stale
        then SdkSession.mark_stale env at.utc at.written s.login.sdk_generation s.sdk
        else s.sdk;
    login = dropped_session s.login;
  }

  abbrev disable_if : Bool → Subject → Subject
  disable_if b s = if b then record s { health = disable s.health } else s

  abbrev pub disable_repeated : Subject → Subject
  disable_repeated s = disable_if (leb 2 s.login.invalidations) s

  -- `s.prune(now)` and `push_back(now)`
  unfoldable pub count_device : Subject → Subject
  count_device s =
      let pruned = prune at.now s.login in
      record s {
        login = record pruned { concurrent_device = pruned.concurrent_device ++ at.now ∷ [] };
      }

  unfoldable pub limit_device : Subject → Subject
  limit_device s =
      if leb login.concurrent_device_limit (length s.login.concurrent_device)
      then record s { health = disable s.health }
      else record s { health = cool_down (at.now + 1000 * policy.cooldown_seconds) s.health }

  -- The last arm: the error and its gRPC status decide.
  unfoldable pub by_status : AppError → Charge → Subject → Subject
  by_status error charge s =
      if status_is (grpc_of error) 16
      then disable_repeated (invalidate true s)
      else if status_is (grpc_of error) 7
      then record s { health = disable s.health }
      else if is_path_error error || status_is (grpc_of error) 14
      then record s { health = path_fault at.now policy charge s.health }
      else if status_is (grpc_of error) 8 || status_is (grpc_of error) 13
      then record s { health = transient at.now policy none s.health }
      else s

  unfoldable pub act : Signal → AppError → Charge → Subject → Subject
  act banned error charge s = record s {
    login = record s.login { session = none };
    health = disable s.health;
  }
  act aegis error charge s = record s {
    health = cool_down (at.now + 1000 * login.aegis_cooldown_seconds) s.health;
  }
  act concurrent_device error charge s = limit_device (count_device (invalidate false s))
  act (invalid sdk_stale) error charge s = disable_repeated (invalidate sdk_stale s)
  act ignored error charge s = s
  act unsignalled error charge s = by_status error charge s

  unfoldable pub global_signal : CallResult → Option String → Charge → Subject → Subject
  global_signal ok code charge s = record s { health = succeeded s.health; login = cleared s.login }
  global_signal (err error) code charge s =
      let kept = filter_option code well_formed in
      act (classify kept) error charge (record s { login = noted kept s.login })

  -- The `Err` arms of `report`.
  unfoldable pub static_error : AppError → Charge → Health → Health
  static_error (grpc status) charge h =
      if status == 7 || status == 16
      then record h { disabled = true; failures = saturating_add_u32 h.failures 1 }
      else if status == 14
      then path_fault at.now policy charge h
      else if status == 8 || status == 13
      then transient at.now policy none h
      else h
  static_error timeout charge h = path_fault at.now policy charge h
  static_error transport charge h = path_fault at.now policy charge h
  static_error protocol charge h = path_fault at.now policy charge h
  static_error _ charge h = h

  abbrev static_result : CallResult → Charge → Health → Health
  static_result ok charge h = succeeded h
  static_result (err error) charge h = static_error error charge h

  -- The rest of `report`, for an account that is not Global.
  unfoldable pub static_signal : CallResult → Option String → Charge → Health → Health
  static_signal result code charge h =
      if is_some_and code (λ c. str_eq c "UNDER_MAINTENANCE") || version_signal code
      then h
      else static_result result charge h
