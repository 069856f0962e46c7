-- ===== src/Accounts/Tests.antt =====
-- Accounts at concrete inputs.
use sirius_api_proxy.Base.{
  ℕ, zero, suc, ◌≤◌, ◌<◌, ◌≡◌, refl, String, true, false, Option, none, some, List, [], ◌∷◌, ◌++◌,
  arith,
}
use sirius_api_proxy.Error.{AppError, timeout, grpc}
use sirius_api_proxy.SdkSession
use sirius_api_proxy.SdkSession.{Env, missing}
use sirius_api_proxy.Accounts.Health.{
  Health, PoolPolicy, account, default_health, cooldown_until, available, transient,
  revoke_path_failures,
}
use sirius_api_proxy.Accounts.Health.Charges.{Fault, suffer}
use sirius_api_proxy.Accounts.Login.{LoginConfig, default_login, drop_old, prune, next_allowed}
use sirius_api_proxy.Accounts.Login.Window.{ask, ask_all, recent, empty_log, recent-le-cap}
use sirius_api_proxy.Accounts.Signal.{Moment, Subject, err, classify, well_formed}
use sirius_api_proxy.Accounts.Signal.Repeated.{Report, run, repeated-rejection}
use sirius_api_proxy.Accounts.Pool.{
  Account, Pool, static_source, usable, active_at, rotation, min_by_key, public_index, select,
  lease_at, leased,
}
use sirius_api_proxy.Accounts.Pool.Choice.{public_index-least}
use sirius_api_proxy.Accounts.Pool.Leases.{
  World, selected, here, next, IsCounted, held, Reach-IsCounted,
}

abbrev policy : PoolPolicy
policy = record { failure_threshold = 2; cooldown_seconds = 30 }

abbrev cooling : Health
cooling = record default_health { failures = 2; threshold_until = some 31000 }

-- A fault of path streak 4, another failure, and a second fault of the streak.
abbrev faults : List Fault
faults = (1000, some 4) ∷ (2000, none) ∷ (3000, some 4) ∷ []

revoked_lem : (revoke_path_failures 4 policy (suffer policy faults default_health)).failures ≡ 1
unfolding revoke_path_failures suffer transient
revoked_lem = refl

abbrev login : LoginConfig
login = record {
  login_min_interval_seconds = 300;
  max_logins_per_day = 2;
  aegis_cooldown_seconds = 900;
  concurrent_device_limit = 2;
}

-- The second request comes within the interval, and the fourth is over the cap.
abbrev requests : List ℕ
requests = 0 ∷ 1000 ∷ 400000 ∷ 800000 ∷ []

attempted_lem : (ask_all login empty_log requests).history ≡ 0 ∷ 400000 ∷ []
unfolding ask_all ask next_allowed prune drop_old
attempted_lem = refl

recent-le-cap_example : recent 900000 (ask_all login empty_log requests).history ≤ 2
recent-le-cap_example = recent-le-cap login requests 900000 (omega arith) (omega arith)

abbrev env : Env
env = record { token_expiry = λ _. none; is_header_value = λ _. true }

abbrev at : ℕ → Moment
at now = record { now = now; utc = now; written = true }

abbrev subject : Subject
subject = record {
  health = default_health;
  login = default_login;
  sdk = record {
    session = record {
      uid = "7";
      access_key = "key";
      access_key_fingerprint = "f";
      file = false;
      attempts = 0;
      revalidations = 0;
      state = SdkSession.default_state;
    };
    disk = missing;
  };
}

abbrev report : ℕ → AppError → Option String → Report
report now error code = record {
  at = at now;
  result = err error;
  code = code;
  charge = account none;
}

abbrev first : Report
first = report 1 (grpc 16) none

abbrev second : Report
second = report 3 (grpc 3) (some "PLAYER_NOT_FOUND")

repeated-rejection_example :
    (run env policy login subject
      (first ∷ (report 2 timeout none ∷ []) ++ (second ∷ []))).health.disabled
    ≡ true
unfolding classify well_formed
repeated-rejection_example =
    repeated-rejection env policy login subject first (report 2 timeout none ∷ []) second []
      (omega arith) refl (refl, tt) refl

abbrev entry : String → ℕ → Health → Account
entry name active health = record {
  name = name;
  source = static_source;
  active = active;
  health = health;
}

-- The rotation stands at the cooling account.
abbrev pool : Pool
pool = record {
  entries = entry "a" 1 default_health ∷ entry "b" 0 cooling ∷ entry "c" 0 default_health ∷ [];
  next = 1;
  generation = 1;
}

pool_lem : public_index 20000 pool ≡ some 2
unfolding public_index rotation min_by_key available cooldown_until
pool_lem = refl

public_index-least_example :
    (usable 20000 pool.entries 2 ≡ true)
    × ((j : ℕ) → usable 20000 pool.entries j ≡ true → 0 ≤ active_at pool.entries j)
public_index-least_example = public_index-least 20000 pool (omega arith) 2 pool_lem

abbrev pool_after : Pool
pool_after = record pool {
  entries = entry "a" 1 default_health ∷ entry "b" 0 cooling ∷ entry "c" 1 default_health ∷ [];
  next = 0;
}

selected_lem : select 20000 pool none false ≡ leased pool_after 2
unfolding select lease_at public_index rotation min_by_key available cooldown_until
selected_lem = refl

abbrev world : World
world = record { pool = pool; leases = 0 ∷ [] }

world-IsCounted : IsCounted world
unfolding held
world-IsCounted = record { counted = counted; within = within }
  where
    counted : (i : ℕ) → active_at pool.entries i ≡ held i (0 ∷ [])
    counted zero = refl
    counted (suc zero) = refl
    counted (suc (suc zero)) = refl
    counted (suc (suc (suc i))) = ground arith

    within : (i : ℕ) → 0 < held i (0 ∷ []) → i < 3
    within zero h = omega arith
    within (suc i) h = absurd (grind arith)

Reach-IsCounted_example : IsCounted (record { pool = pool_after; leases = 2 ∷ 0 ∷ [] })
Reach-IsCounted_example =
    Reach-IsCounted world-IsCounted
      (next here (omega arith) (selected 20000 none false pool_after 2 selected_lem refl))
