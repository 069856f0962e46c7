-- ===== src/Accounts/Health.antt =====
-- src/accounts.rs: the health of one account (`Health`, `PoolPolicy`, `Charge`) and the methods of
-- `Account` that work on it alone. Instants are counted in milliseconds.
pub mod Charges
pub mod Availability
use sirius_api_proxy.Base.{
  ℕ, ◌+◌, ◌-◌, ◌*◌, max, Bool, true, false, not, ◌&&◌, Option, none, some, ltb, leb, ◌==◌,
  is_none_or, if◌then◌else◌, saturating_add_u32,
}

pub record PoolPolicy : Type 0 where
  pub failure_threshold : ℕ
  pub cooldown_seconds : ℕ

-- Who pays for a path-class fault.
pub data Charge : Type 0 where
  account : Option ℕ → Charge
  path : Charge

pub record Health : Type 0 where
  pub failures : ℕ
  pub path_failures : ℕ
  pub path_streak : ℕ
  pub until : Option ℕ
  pub threshold_until : Option ℕ
  pub disabled : Bool

abbrev pub default_health : Health
default_health = record {
  failures = 0;
  path_failures = 0;
  path_streak = 0;
  until = none;
  threshold_until = none;
  disabled = false;
}

-- `Option::max`, in which `None` is the least.
abbrev pub max_option : Option ℕ → Option ℕ → Option ℕ
max_option none other = other
max_option (some a) none = some a
max_option (some a) (some b) = some (max a b)

unfoldable pub cooldown_until : Health → Option ℕ
cooldown_until h = max_option h.until h.threshold_until

unfoldable pub succeeded : Health → Health
succeeded h = record h { failures = 0; path_failures = 0; until = none; threshold_until = none }

-- `if let Some(streak) = streak { … }`
abbrev charge_streak : Option ℕ → Health → Health
charge_streak none h = h
charge_streak (some streak) h =
    if h.path_streak == streak
    then record h { path_failures = saturating_add_u32 h.path_failures 1 }
    else record h { path_streak = streak; path_failures = saturating_add_u32 0 1 }

abbrev cool_at_threshold : ℕ → PoolPolicy → Health → Health
cool_at_threshold now policy h =
    if leb policy.failure_threshold h.failures
    then record h { threshold_until = some (now + 1000 * policy.cooldown_seconds) }
    else h

unfoldable pub transient : ℕ → PoolPolicy → Option ℕ → Health → Health
transient now policy streak h =
    cool_at_threshold now policy
      (charge_streak streak (record h { failures = saturating_add_u32 h.failures 1 }))

unfoldable pub path_fault : ℕ → PoolPolicy → Charge → Health → Health
path_fault now policy (account streak) h = transient now policy streak h
path_fault now policy path h = h

-- `Account::disable`
unfoldable pub disable : Health → Health
disable h = record h { disabled = true }

-- `Account::cool_down`
unfoldable pub cool_down : ℕ → Health → Health
cool_down until h = record h { until = some (elim h.until [ none ↦ until | some t ↦ max t until ]) }

-- `Account::available`
unfoldable pub available : ℕ → Health → Bool
unfolding cooldown_until
available now h = not h.disabled && is_none_or (cooldown_until h) (λ until. leb until now)

-- `Account::revoke_path_failures`
unfoldable pub revoke_path_failures : ℕ → PoolPolicy → Health → Health
revoke_path_failures streak policy h =
    if h.path_streak == streak
    then (if h.path_failures == 0
        then h
        else let failures = h.failures - h.path_failures in
          if ltb failures policy.failure_threshold
          then record h { failures = failures; path_failures = 0; threshold_until = none }
          else record h { failures = failures; path_failures = 0 })
    else h
