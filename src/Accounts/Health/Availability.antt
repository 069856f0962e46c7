-- ===== src/Accounts/Health/Availability.antt =====
-- When an account may be leased (src/accounts.rs, `Account::available`).
use sirius_api_proxy.Base.{ℕ, ◌≤◌, ◌≡◌, ◌↔◌, true, false, Option, none, some, arith}
use sirius_api_proxy.Accounts.Health.{Health, available, cool_down}

-- The cooldown, if there is one, has passed.
abbrev pub Passed : ℕ → Option ℕ → Type 0
Passed now none = Unit
Passed now (some until) = until ≤ now

-- An account is available exactly when it is not disabled and both of its cooldowns, the one from
-- a signal and the one from the failure threshold, have passed.
pub available_iff :
    (now : ℕ) (h : Health)
    → (available now h ≡ true)
      ↔ ((h.disabled ≡ false) × Passed now h.until × Passed now h.threshold_until)
unfolding available
available_iff now h = ground arith

-- A signal cooldown keeps the account unavailable until then, and never shortens an earlier one.
pub available-cool_down :
    (now until : ℕ) (h : Health)
    → (available now (cool_down until h) ≡ true) ↔ ((available now h ≡ true) × (until ≤ now))
unfolding available cool_down
available-cool_down now until h = ground arith
