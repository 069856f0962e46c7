-- ===== src/Accounts/Health/Charges.antt =====
-- Path-class faults that an account was charged with, and their withdrawal (src/accounts.rs).
use sirius_api_proxy.Base.{
  ℕ, suc, ◌+◌, ◌-◌, ◌≤◌, ◌<◌, ◌≡◌, Option, none, some, List, [], ◌∷◌, arith, u32_max, ◌==◌,
  if◌then◌else◌, length,
}
use sirius_api_proxy.Accounts.Health.{
  Health, PoolPolicy, succeeded, transient, revoke_path_failures,
}

-- One transient failure: when it came, and the path streak that it was charged during, if any.
abbrev pub Fault : Type 0
Fault = ℕ × Option ℕ

-- The account's health after the faults, oldest first.
unfoldable pub suffer : PoolPolicy → List Fault → Health → Health
suffer policy [] h = h
suffer policy ((now, streak) ∷ faults) h = suffer policy faults (transient now policy streak h)

-- Faults that no streak is charged for.
unfoldable pub plain : List Fault → ℕ
plain [] = 0
plain ((now, none) ∷ faults) = suc (plain faults)
plain ((now, some streak) ∷ faults) = plain faults

-- Every fault charged to a path streak is charged to this one.
abbrev pub Only : ℕ → List Fault → Type 0
Only s [] = Unit
Only s ((now, none) ∷ faults) = Only s faults
Only s ((now, some streak) ∷ faults) = (streak ≡ s) × Only s faults

-- The failures now charged to streak `s`.
unfoldable pub charged : ℕ → Health → ℕ
charged s h = if h.path_streak == s then h.path_failures else 0

charged-transient-none :
    (now s : ℕ) (policy : PoolPolicy) (h : Health)
    → charged s (transient now policy none h) ≡ charged s h
unfolding charged transient
charged-transient-none now s policy h = ground arith

charged-transient-some :
    (now s : ℕ) (policy : PoolPolicy) (h : Health)
    → charged s h < u32_max
    → charged s (transient now policy (some s) h) ≡ charged s h + 1
unfolding charged transient
charged-transient-some now s policy h bound = ground arith

failures-transient :
    (now : ℕ) (policy : PoolPolicy) (streak : Option ℕ) (h : Health)
    → h.failures < u32_max
    → (transient now policy streak h).failures ≡ h.failures + 1
unfolding transient
failures-transient now policy streak h bound = ground arith

failures-suffer :
    (policy : PoolPolicy) (faults : List Fault) (h : Health)
    → h.failures + length faults ≤ u32_max
    → (suffer policy faults h).failures ≡ h.failures + length faults
unfolding suffer
failures-suffer policy [] h bound = omega arith
failures-suffer policy ((now, streak) ∷ faults) h bound =
    let one = failures-transient now policy streak h (omega arith) in
    omega (arith, one, failures-suffer policy faults (transient now policy streak h) (omega arith))

charged-suffer :
    (s : ℕ) (policy : PoolPolicy) (faults : List Fault) (h : Health)
    → Only s faults
    → charged s h + length faults ≤ u32_max
    → charged s (suffer policy faults h) + plain faults ≡ charged s h + length faults
unfolding suffer plain
charged-suffer s policy [] h only bound = omega arith
charged-suffer s policy ((now, none) ∷ faults) h only bound =
    let one = charged-transient-none now s policy h in
    omega (arith, charged-suffer s policy faults (transient now policy none h) only (omega arith))
charged-suffer s policy ((now, some streak) ∷ faults) h (same, only) bound = rw same (
    let one = charged-transient-some now s policy h (omega arith) in
    omega
      (arith, charged-suffer s policy faults (transient now policy (some s) h) only (omega arith)))

pub failures-revoke :
    (s : ℕ) (policy : PoolPolicy) (h : Health)
    → (revoke_path_failures s policy h).failures ≡ h.failures - charged s h
unfolding revoke_path_failures charged
failures-revoke s policy h = ground arith

-- An account that suffers faults of one path streak and other transient failures keeps, once the
-- streak is attributed to the path, exactly the other failures: the withdrawal is exact, wherever
-- the charged faults stood in the order. Fewer than 2^32 failures are assumed, and that the account
-- was charged for nothing of that streak before.
pub failures-revoke-suffer :
    (s : ℕ) (policy : PoolPolicy) (faults : List Fault) (h : Health)
    → Only s faults
    → charged s h ≡ 0
    → h.failures + length faults ≤ u32_max
    → (revoke_path_failures s policy (suffer policy faults h)).failures ≡ h.failures + plain faults
failures-revoke-suffer s policy faults h only fresh bound = omega (
  arith,
  failures-revoke s policy (suffer policy faults h),
  failures-suffer policy faults h bound,
  charged-suffer s policy faults h only (omega arith),
)

-- The threshold cooldown that is left after a withdrawal.
pub threshold-revoke :
    (s : ℕ) (policy : PoolPolicy) (h : Health)
    → 0 < charged s h
    → (revoke_path_failures s policy h).failures < policy.failure_threshold
    → (revoke_path_failures s policy h).threshold_until ≡ none
unfolding revoke_path_failures charged
threshold-revoke s policy h some_charged below = ground arith

-- A withdrawal never touches what a signal decided: the signal cooldown and `disabled` stay.
pub revoke_signals :
    (s : ℕ) (policy : PoolPolicy) (h : Health)
    → ((revoke_path_failures s policy h).until ≡ h.until)
      × ((revoke_path_failures s policy h).disabled ≡ h.disabled)
unfolding revoke_path_failures
revoke_signals s policy h = ground arith

-- The part of the failures charged to a path streak is a part of the failures, and an account at
-- the threshold is cooling or has cooled down.
pub record IsValid (policy : PoolPolicy) (h : Health) : Type 0 where
  pub part : h.path_failures ≤ h.failures
  pub bounded : h.failures ≤ u32_max
  pub cooled : h.threshold_until ≡ none → h.failures < policy.failure_threshold

module _ {policy : PoolPolicy} {h : Health} (v : IsValid policy h) where
  pub transient-IsValid :
      (now : ℕ) (streak : Option ℕ) → IsValid policy (transient now policy streak h)
  unfolding transient
  transient-IsValid now streak = ground arith

  pub succeeded-IsValid : 0 < policy.failure_threshold → IsValid policy (succeeded h)
  unfolding succeeded
  succeeded-IsValid positive = ground arith

  pub revoke-IsValid : (s : ℕ) → IsValid policy (revoke_path_failures s policy h)
  unfolding revoke_path_failures
  revoke-IsValid s = ground arith
