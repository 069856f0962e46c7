-- ===== src/GameClient/Charges.antt =====
-- Who pays for a fault of the upstream path (src/client.rs, `record_path`, `report_lease` and
-- `settle_charge`). The path and each account have their own mutex, so these methods are several
-- atomic steps; the log lines are left out.
use sirius_api_proxy.Base.{ℕ, Bool, true, false, Option, none, some, if◌then◌else◌}
use sirius_api_proxy.Accounts.Health.{
  Health, PoolPolicy, Charge, account, path, revoke_path_failures,
}
use sirius_api_proxy.PathHealth.{PathHealth, Change, is_attributed}

-- `change.attributed.filter(|_| !sdk)`
abbrev pub withdrawn : Bool → Change → Option ℕ
withdrawn true change = none
withdrawn false change = change.attributed

-- The account charges of a streak that has just been attributed are withdrawn, on each account.
unfoldable pub withdraw : PoolPolicy → Option ℕ → Health → Health
withdraw policy none h = h
withdraw policy (some streak) h = revoke_path_failures streak policy h

unfoldable pub settle_charge : PoolPolicy → PathHealth → Charge → Health → Health
settle_charge policy p (account (some streak)) h =
    if is_attributed p streak then revoke_path_failures streak policy h else h
settle_charge policy p (account none) h = h
settle_charge policy p path h = h
