-- ===== src/GameClient/Settlement.antt =====
-- What happens to an account's health while the faults of one streak of the path are charged to it,
-- settled and withdrawn (src/client.rs, `record_path`, `report_lease` and `settle_charge`, with
-- src/accounts.rs). Each change is one step under the account's mutex, and changes of different calls
-- come in any order.
use sirius_api_proxy.Base.{ℕ, suc, Bool, true, false, some, none, List, [], ◌∷◌, saturating_add_u32}
use sirius_api_proxy.Accounts.Health.{
  Health, PoolPolicy, account, path, path_fault, transient, succeeded, disable, cool_down,
}
use sirius_api_proxy.PathHealth.{PathHealth, is_attributed}
use sirius_api_proxy.GameClient.Charges.{withdraw, settle_charge}

pub data Change : Type 0 where
  -- a call that ends well
  success : Change
  -- a transient failure of the account itself, or a path-class fault outside every streak
  own_fault uncharged : (now : ℕ) → Change
  -- a refusal that disables an account of the configuration and is counted
  rejection : Change
  disabling : Change
  cooling : (until : ℕ) → Change
  -- a path-class fault that the account pays for during the streak, and one that the path pays for
  charged spared : (now : ℕ) → Change
  -- the end of `report_lease`, with the path as it finds it then
  settles : PathHealth → Change
  -- `record_path`, when it attributes the streak
  withdraws : Change

module _ (policy : PoolPolicy) (streak : ℕ) where
  unfoldable pub apply : Change → Health → Health
  apply success h = succeeded h
  apply (own_fault now) h = transient now policy none h
  apply (uncharged now) h = path_fault now policy (account none) h
  apply rejection h = record h { disabled = true; failures = saturating_add_u32 h.failures 1 }
  apply disabling h = disable h
  apply (cooling until) h = cool_down until h
  apply (charged now) h = path_fault now policy (account (some streak)) h
  apply (spared now) h = path_fault now policy path h
  apply (settles p) h = settle_charge policy p (account (some streak)) h
  apply withdraws h = withdraw policy (some streak) h

  unfoldable pub run : List Change → Health → Health
  run [] h = h
  run (c ∷ changes) h = run changes (apply c h)

-- The account's own failures since its last success, after a change.
abbrev pub counted : Change → ℕ → ℕ
counted success n = 0
counted (own_fault now) n = suc n
counted (uncharged now) n = suc n
counted rejection n = suc n
counted _ n = n

unfoldable pub own_failures : List Change → ℕ → ℕ
own_failures [] n = n
own_failures (c ∷ changes) n = own_failures changes (counted c n)

abbrev pub is_uncharged : Change → Bool
is_uncharged (charged now) = false
is_uncharged _ = true

-- The changes that take back what was charged during the streak.
abbrev pub is_withdrawal : ℕ → Change → Bool
is_withdrawal streak (settles p) = is_attributed p streak
is_withdrawal streak withdraws = true
is_withdrawal streak _ = false
