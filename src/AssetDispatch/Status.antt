-- ===== src/AssetDispatch/Status.antt =====
-- The status that the worker publishes, and the counts of the ledger (src/asset_dispatch_admin.rs).
-- Times are natural numbers.
use sirius_api_proxy.Base.{
  ℕ, ◌+◌, String, Bool, true, false, Option, none, some, List, [], ◌∷◌, length, str_eq,
  if◌then◌else◌, BTreeMap, get, contains_key, insert,
}
use sirius_api_proxy.AssetOutbox.Entries.{
  Entry, State, pending, sending, submitted, completed, failed,
}
use sirius_api_proxy.AssetOutbox.Store.{World}
use sirius_api_proxy.AssetDispatch.{failure_codes}

pub record ObservationStatus : Type 0 where
  pub at : ℕ
  pub result : String
  pub resource_version : Option String

pub record ReconcileStatus : Type 0 where
  pub at : ℕ
  pub result : String
  pub batch : ℕ
  pub transport_errors : ℕ

pub record EntryCounts : Type 0 where
  pub total : ℕ
  pub capacity : ℕ
  pub pending_count : ℕ
  pub sending_count : ℕ
  pub submitted_count : ℕ
  pub completed_count : ℕ
  pub failed_count : ℕ
  pub busy_retrying : ℕ

pub record DispatchStatus : Type 0 where
  pub status : String
  pub stop_reason : Option String
  pub updated_at : ℕ
  pub cycle_started_at : Option ℕ
  pub last_cycle_at : Option ℕ
  pub next_cycle_at : Option ℕ
  pub last_observation : Option ObservationStatus
  pub last_reconcile : Option ReconcileStatus
  pub entries : EntryCounts
  pub failed_by_code : BTreeMap ℕ

abbrev pub Summary : Type 0
Summary = EntryCounts × BTreeMap ℕ

abbrev pub find_code : String → List String → String
find_code code [] = "other"
find_code code (known ∷ rest) =
    let found = find_code code rest in if str_eq known code then known else found

-- `*failed.entry(code).or_default() += 1`
abbrev pub or_default : Option ℕ → ℕ
or_default none = 0
or_default (some n) = n

abbrev pub bump : String → BTreeMap ℕ → BTreeMap ℕ
bump code failures = insert code (or_default (get code failures) + 1) failures

abbrev pub one_if : Bool → ℕ
one_if true = 1
one_if false = 0

-- The body of the loop over the entries.
unfoldable pub count_state : Bool → State → Summary → Summary
count_state busy pending (c, f) = (
  record c { pending_count = c.pending_count + 1; busy_retrying = c.busy_retrying + one_if busy },
  f,
)
count_state busy (sending at) (c, f) = (record c { sending_count = c.sending_count + 1 }, f)
count_state busy (submitted id) (c, f) = (record c { submitted_count = c.submitted_count + 1 }, f)
count_state busy (completed id catalog publication) (c, f) =
    (record c { completed_count = c.completed_count + 1 }, f)
count_state busy (failed id code) (c, f) =
    (record c { failed_count = c.failed_count + 1 }, bump (find_code code failure_codes) f)

unfoldable pub count_entries : BTreeMap ℕ → BTreeMap Entry → Summary → Summary
count_entries refusals [] s = s
count_entries refusals ((key, e) ∷ entries) s =
    count_entries refusals entries (count_state (contains_key key refusals) e.state s)

-- The counts before the loop.
abbrev pub no_counts : World → ℕ → Summary
no_counts w capacity = (
  record {
    total = length w.outbox.ledger.entries;
    capacity = capacity;
    pending_count = 0;
    sending_count = 0;
    submitted_count = 0;
    completed_count = 0;
    failed_count = 0;
    busy_retrying = 0;
  },
  [],
)

unfoldable pub summarize : World → ℕ → BTreeMap ℕ → Summary
summarize w capacity refusals =
    count_entries refusals w.outbox.ledger.entries (no_counts w capacity)

-- `DispatchStatus::pending`
unfoldable pub pending_status : ℕ → World → ℕ → DispatchStatus
pending_status now w capacity =
    let (entries, failures) = summarize w capacity [] in
    record {
      status = "pending";
      stop_reason = none;
      updated_at = now;
      cycle_started_at = none;
      last_cycle_at = none;
      next_cycle_at = none;
      last_observation = none;
      last_reconcile = none;
      entries = entries;
      failed_by_code = failures;
    }

-- The status route: `exited` says that the worker's task is gone.
unfoldable pub status_route : Bool → DispatchStatus → DispatchStatus
status_route exited s =
    if exited
    then (if str_eq s.status "stopped" then s else record s {
      status = "stopped";
      stop_reason = some "exited";
      cycle_started_at = none;
      next_cycle_at = none;
    })
    else s
