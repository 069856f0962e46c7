-- ===== src/PathHealth/Invariant.antt =====
-- The invariant of the breaker (src/path_health.rs).
use sirius_api_proxy.Base.{ℕ, ◌≤◌, ◌<◌, ◌≡◌, String, Bool, true, Option, arith, u32_max, is_some}
use sirius_api_proxy.Accounts.Health.{PoolPolicy}
use sirius_api_proxy.PathHealth.{
  PathHealth, Outcome, healthy, fault, Ticket, new, record_outcome, admit, drop_ticket,
}

pub record IsValid (p : PathHealth) : Type 0 where
  pub positive : 0 < p.threshold
  pub small : p.threshold ≤ u32_max
  pub bounded : p.state.failures ≤ u32_max
  -- An attributed streak is one in progress, and the last to be attributed.
  pub current :
      p.state.attributed ≡ true → (0 < p.state.failures) × (p.state.last_attributed ≡ p.state.epoch)
  -- The path is open exactly in an attributed streak that has reached the threshold.
  pub opened :
      is_some p.state.open_until ≡ true
      → (p.state.attributed ≡ true) × (p.threshold ≤ p.state.failures)
  pub reached :
      p.state.attributed ≡ true → p.threshold ≤ p.state.failures → is_some p.state.open_until ≡ true

pub new-IsValid :
    (policy : PoolPolicy) (distinct : Bool)
    → 0 < policy.failure_threshold
    → policy.failure_threshold ≤ u32_max
    → IsValid (new policy distinct)
unfolding new
new-IsValid policy distinct positive small = ground arith

module _ {p : PathHealth} (v : IsValid p) where
  pub record_outcome-IsValid :
      (now : ℕ) (source : Option String) (outcome : Outcome)
      → IsValid (record_outcome now p source outcome).0
  unfolding record_outcome
  record_outcome-IsValid now source healthy = ground arith
  record_outcome-IsValid now source fault = ground arith

  pub admit-IsValid : (now : ℕ) → IsValid (admit now p).0
  unfolding admit
  admit-IsValid now = ground arith

  pub drop_ticket-IsValid : (t : Ticket) → IsValid (drop_ticket t p)
  unfolding drop_ticket
  drop_ticket-IsValid t = ground arith
