-- ===== src/Accounts/Login.antt =====
-- src/global_account.rs: the login lifecycle of one Global account. Instants are in milliseconds;
-- a `VecDeque` is a list with its front at the head.
pub mod Window
use sirius_api_proxy.Base.{
  ℕ, ◌+◌, ◌-◌, ◌*◌, ℤ, String, Bool, true, false, Option, none, some, List, [], ◌∷◌, ltb, leb,
  length, last, filter_option, if◌then◌else◌,
}
use sirius_api_proxy.Accounts.Health.{max_option}

abbrev pub day : ℕ
day = 86400000

-- The members of `LoginConfig` that decide when an account logs in or is disabled.
pub record LoginConfig : Type 0 where
  pub login_min_interval_seconds : ℕ
  pub max_logins_per_day : ℕ
  pub aegis_cooldown_seconds : ℕ
  pub concurrent_device_limit : ℕ

pub record Session : Type 0 where
  pub player_id : String
  pub credential : String
  pub is_new_user : Bool
  pub cp_server_name : String

pub record LoginState : Type 0 where
  pub session : Option Session
  pub sdk_generation : ℕ
  pub attempts : List ℕ
  pub last_login_at : Option ℕ
  pub last_error_code : Option String
  pub last_sdk_code : Option ℤ
  pub invalidations : ℕ
  pub concurrent_device : List ℕ

abbrev pub default_login : LoginState
default_login = record {
  session = none;
  sdk_generation = 0;
  attempts = [];
  last_login_at = none;
  last_error_code = none;
  last_sdk_code = none;
  invalidations = 0;
  concurrent_device = [];
}

-- One `while` loop of `prune`: the front goes while it is a day old.
unfoldable pub drop_old : ℕ → List ℕ → List ℕ
drop_old now [] = []
drop_old now (t ∷ times) =
    let rest = drop_old now times in if leb day (now - t) then rest else t ∷ times

unfoldable pub prune : ℕ → LoginState → LoginState
prune now s = record s {
  attempts = drop_old now s.attempts;
  concurrent_device = drop_old now s.concurrent_device;
}

abbrev pub front : List ℕ → Option ℕ
front [] = none
front (t ∷ times) = some t

abbrev pub add_option : ℕ → Option ℕ → Option ℕ
add_option d none = none
add_option d (some t) = some (t + d)

abbrev by_interval : LoginConfig → ℕ → List ℕ → Option ℕ
by_interval config now times =
    filter_option (add_option (1000 * config.login_min_interval_seconds) (last times))
      (λ t. ltb now t)

abbrev by_cap : LoginConfig → List ℕ → Option ℕ
by_cap config times =
    if leb config.max_logins_per_day (length times) then add_option day (front times) else none

-- `next_allowed`; the pruned queue stays.
unfoldable pub next_allowed : LoginConfig → ℕ → LoginState → LoginState × Option ℕ
next_allowed config now s =
    let s' = prune now s in
    (s', max_option (by_interval config now s'.attempts) (by_cap config s'.attempts))
