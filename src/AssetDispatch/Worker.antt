-- ===== src/AssetDispatch/Worker.antt =====
-- The worker of asset dispatches (src/asset_dispatch.rs): it reconciles the outbox with the
-- updaters. What the world does during the treatment of one entry is the record
-- `Io`: which writes succeed, the clock, and the updater's answer. The calls of the updaters are
-- logged in `calls`, with the ledger's file as it is when they are sent. The lines of the process
-- log are not modelled.
use sirius_api_proxy.Base.{
  ℕ, ◌+◌, ◌%◌, ◌^◌, String, Bool, true, false, not, ◌&&◌, ◌||◌, Option, none, some, List, [], ◌∷◌,
  leb, ◌==◌, length, str_eq, is_ok, filter_option, if◌then◌else◌, Result, ok, err, BTreeMap, get,
  insert, remove,
}
use sirius_api_proxy.Region.{Region, region_eq}
use sirius_api_proxy.AssetJobs.{
  Job, Outcome, HttpRequest, Answer, Client, confirms, submit, get_job,
}
use sirius_api_proxy.AssetJobs as AssetJobs
use sirius_api_proxy.AssetOutbox.Entries.{
  Entry, Identity, State, pending, sending, submitted, completed, failed, Error, invalid,
}
use sirius_api_proxy.AssetOutbox.Entries as Entries
use sirius_api_proxy.AssetOutbox.Store.{World, LedgerFile}
use sirius_api_proxy.AssetOutbox.Changes.{begin_send, acknowledge, complete}
use sirius_api_proxy.AssetOutbox.Changes as Changes
use sirius_api_proxy.AssetOutbox.Rotation.{next_batch}
use sirius_api_proxy.AssetDispatch.{
  Config, Remote, matches_outcome, rejected_submission, max_refusals,
}
use sirius_api_proxy.AssetDispatch.Status.{DispatchStatus, or_default, summarize}

-- A call of an updater for the dispatch under a key.
pub record Call : Type 0 where
  pub key : String
  pub request : HttpRequest
  pub file : LedgerFile

pub record Worker : Type 0 where
  pub region : Region
  pub environment : String
  pub platform : String
  pub config : Config
  pub outbox : World
  pub remotes : List Remote
  pub refusals : BTreeMap ℕ
  pub status : DispatchStatus
  pub transport_errors : ℕ
  pub calls : List Call

pub record Io : Type 0 where
  pub begun : Bool
  pub acknowledged : Bool
  pub settled : Bool
  pub now : ℕ
  pub net : HttpRequest → Answer

-- The parts of the process's configuration that the worker reads.
pub record GameConfig : Type 0 where
  pub region : Region
  pub environment : String
  pub platform_name : String
  pub asset_dispatch : Option Config

-- `?`
abbrev pub and_then {ℓ} :
    {A B E : Type ℓ}
    → Worker × Result A E
    → (A → Worker → Worker × Result B E)
    → Worker × Result B E
and_then (w, err e) f = (w, err e)
and_then (w, ok a) f = f a w

-- A method of the outbox.
abbrev pub on_outbox {ℓ} : {A E : Type ℓ} → World × Result A E → Worker → Worker × Result A E
on_outbox (o, r) w = (record w { outbox = o }, r)

unfoldable pub publish : ℕ → (DispatchStatus → DispatchStatus) → Worker → Worker
publish now change w =
    let (entries, failures) = summarize w.outbox w.config.history_capacity w.refusals in
    record w {
      status = record (change w.status) {
        updated_at = now;
        entries = entries;
        failed_by_code = failures;
      };
    }

abbrev pub forget_refusals : String → Worker → Worker
forget_refusals key w = record w { refusals = remove key w.refusals }

unfoldable pub fail : Bool → String → String → Worker → Worker × Result Unit Error
fail written key code w =
    and_then (on_outbox (Changes.fail written key code w.outbox) w)
      (λ u w. (forget_refusals key w, ok tt))

unfoldable pub transport_warning : Worker → Worker × Result Unit Error
transport_warning w = (record w { transport_errors = w.transport_errors + 1 }, ok tt)

abbrev pub is_pending : State → Bool
is_pending pending = true
is_pending _ = false

abbrev pub is_submitted : State → Bool
is_submitted (submitted id) = true
is_submitted _ = false

unfoldable pub find_remote : Entry → List Remote → Option Remote
find_remote e [] = none
find_remote e (r ∷ remotes) =
    let rest = find_remote e remotes in
    if str_eq r.digest e.identity.destination_sha256
      && str_eq r.config.profile e.identity.request.profile
    then some r
    else rest

-- `*refusals += 1` on a u32
abbrev pub increment_u32 : ℕ → ℕ
increment_u32 n = (n + 1) % 2 ^ 32

abbrev pub other_identity : GameConfig → Entry → Bool
other_identity c e =
    not (region_eq e.identity.request.region c.region)
    || not (str_eq e.identity.environment c.environment)
    || not (str_eq e.identity.platform c.platform_name)

-- The busy answer to a POST, with the count that it makes.
unfoldable pub busy : Io → String → ℕ → Worker → Worker × Result Unit Error
busy io key count w =
    let counted = record w { refusals = insert key count w.refusals } in
    let failed_now = fail io.settled key "submission_refused" (forget_refusals key counted) in
    let again = on_outbox (Changes.refused io.settled key counted.outbox) counted in
    if leb max_refusals count then failed_now else again

-- A definite answer to the POST, or one that leaves it open.
unfoldable pub rejected : Io → String → Option String → Worker → Worker × Result Unit Error
rejected io key none w = transport_warning w
rejected io key (some code) w = fail io.settled key code (forget_refusals key w)

unfoldable pub on_status : Io → String → State → ℕ → Worker → Worker × Result Unit Error
on_status io key state code w =
    if code == 404 && is_submitted state
    then fail io.settled key "job_pruned" w
    else if not (is_pending state)
    then transport_warning w
    else if code == 429 || code == 503
    then busy io key (increment_u32 (or_default (get key w.refusals))) w
    else rejected io key (rejected_submission code) w

unfoldable pub on_error :
    Io → String → State → AssetJobs.Error → Worker → Worker × Result Unit Error
on_error io key state (AssetJobs.Error.status code) w = on_status io key state code w
on_error io key state AssetJobs.Error.config w =
    if is_pending state
    then fail io.settled key "asset_dispatch_request_invalid" w
    else transport_warning w
on_error io key state AssetJobs.Error.protocol w = fail io.settled key "invalid_job_response" w
on_error io key state AssetJobs.Error.transport w = transport_warning w

module _ (jobs : AssetJobs.Env) (outbox : Entries.Env) where
  unfoldable pub finished : Io → String → Job → Option Outcome → Worker → Worker × Result Unit Error
  finished io key job none w = fail io.settled key "outcome_mismatch" w
  finished io key job (some o) w =
      on_outbox
        (complete outbox io.settled key job.id o.verification.catalog_sha256 o.publication_id
          w.outbox)
        w

  unfoldable pub on_job_status :
      Io → String → Entry → Job → AssetJobs.Status → Worker → Worker × Result Unit Error
  on_job_status io key e job AssetJobs.Status.failed w = fail io.settled key "job_failed" w
  on_job_status io key e job AssetJobs.Status.cancelled w = fail io.settled key "job_cancelled" w
  on_job_status io key e job AssetJobs.Status.completed w =
      finished io key job (filter_option job.outcome (matches_outcome e.identity)) w
  on_job_status io key e job _ w = (w, ok tt)

  unfoldable pub acknowledge_job : Io → String → Bool → Job → Worker → Worker × Result Unit Error
  acknowledge_job io key false job w = (w, ok tt)
  acknowledge_job io key true job w =
      and_then (on_outbox (acknowledge outbox io.acknowledged key job.id w.outbox) w)
        (λ u w. (forget_refusals key w, ok tt))

  unfoldable pub on_job : Io → String → Entry → Job → Worker → Worker × Result Unit Error
  on_job io key e job w =
      let follow =
        and_then (acknowledge_job io key (is_pending e.state) job w)
          (λ u w. on_job_status io key e job job.status w) in
      let mismatch = fail io.settled key "job_identity_mismatch" w in
      if confirms jobs key job then follow else mismatch

  unfoldable pub on_result :
      Io → String → Entry → Result Job AssetJobs.Error → Worker → Worker × Result Unit Error
  on_result io key e (ok job) w = on_job io key e job w
  on_result io key e (err x) w = on_error io key e.state x w

  abbrev pub logged : String → Option HttpRequest → Worker → Worker
  logged key none w = w
  logged key (some request) w = record w {
    calls = (record { key = key; request = request; file = w.outbox.file }) ∷ w.calls;
  }

  unfoldable pub called :
      Io
      → String
      → Entry
      → Option HttpRequest × Result Job AssetJobs.Error
      → Worker
      → Worker × Result Unit Error
  called io key e (sent, result) w = on_result io key e result (logged key sent w)

  -- The match on the entry's state, for an entry that has a remote.
  unfoldable pub dispatch :
      Io → String → Entry → Remote → State → Worker → Worker × Result Unit Error
  dispatch io key e r pending w =
      and_then (on_outbox (begin_send io.now io.begun key w.outbox) w) (λ u w.
        called io key e (submit jobs io.net r.client e.identity.request key)
          (publish io.now (λ s. s) w))
  dispatch io key e r (sending at) w = fail io.settled key "submission_ambiguous" w
  dispatch io key e r (submitted id) w =
      called io key e (get_job jobs io.net r.client id e.identity.request) w
  dispatch io key e r _ w = (w, ok tt)

  unfoldable pub with_remote :
      Io → String → Entry → Option Remote → Worker → Worker × Result Unit Error
  with_remote io key e none w = fail io.settled key "target_removed" w
  with_remote io key e (some r) w = dispatch io key e r e.state w

  -- The body of the loop of `reconcile_batch`.
  unfoldable pub reconcile_entry : Io → String → Entry → Worker → Worker × Result Unit Error
  reconcile_entry io key e w = with_remote io key e (find_remote e w.remotes) w

  -- A batch has no key twice: what happens to its entries is a function of their keys.
  unfoldable pub reconcile_entries :
      (String → Io) → BTreeMap Entry → Worker → Worker × Result Unit Error
  reconcile_entries io [] w = (w, ok tt)
  reconcile_entries io ((key, e) ∷ entries) w =
      and_then (reconcile_entry (io key) key e w) (λ u w. reconcile_entries io entries w)

  -- With the count of the batch.
  unfoldable pub reconcile_taken :
      (String → Io)
      → World × Result (BTreeMap Entry) Error
      → Worker
      → ℕ × (Worker × Result Unit Error)
  reconcile_taken io (o, err x) w = (0, (record w { outbox = o }, err x))
  reconcile_taken io (o, ok entries) w =
      (length entries, reconcile_entries io entries (record w { outbox = o }))

  unfoldable pub reconcile_batch : Bool → (String → Io) → Worker → ℕ × (Worker × Result Unit Error)
  reconcile_batch written io w = reconcile_taken io (next_batch written 16 w.outbox) w

  unfoldable pub published_pass : ℕ → ℕ → Worker × Result Unit Error → Worker × Result Unit Error
  published_pass now count (w, r) = (
    publish now
        (λ s. record s {
          last_reconcile = some (record {
            at = now;
            result = if is_ok r then "completed" else "storage_failed";
            batch = count;
            transport_errors = w.transport_errors;
          });
        })
        w,
    r,
  )

  unfoldable pub reconcile : ℕ → Bool → (String → Io) → Worker → Worker × Result Unit Error
  reconcile now written io w =
      let (count, pass) = reconcile_batch written io (record w { transport_errors = 0 }) in
      published_pass now count pass
