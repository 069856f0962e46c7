-- ===== src/AssetDispatch/Answers.antt =====
-- What the worker does with an updater's answer is made of its steps (src/asset_dispatch.rs).
use sirius_api_proxy.Base.{
  ℕ, ◌+◌, String, ◌≡◌, refl, Bool, true, false, not, ◌&&◌, ◌||◌, inl, inr, Option, none, some,
  arith, leb, ◌==◌, any, str_eq, Result, ok, err, Bool-cases, filter_option, is_none_or, str_eq_iff,
  is_some_and, is_some, ◌⊎◌,
}
use sirius_api_proxy.AssetJobs.{
  HttpRequest, Outcome, Method, post_method, Job, confirms, submit, get_job, Export,
}
use mathlib.Core.Path.{subst}
use mathlib.Core.Option.{some-injective}
use sirius_api_proxy.AssetJobs as AssetJobs
use sirius_api_proxy.AssetOutbox.Entries.{Env, Entry, State, Identity}
use sirius_api_proxy.AssetOutbox.Store.{World}
use sirius_api_proxy.AssetOutbox.Events.{refusal, acknowledged, completion, failure, apply}
use sirius_api_proxy.AssetDispatch.{
  failure_codes, max_refusals, matches_outcome, rejected_submission, exported,
}
use sirius_api_proxy.AssetDispatch.Worker.{
  Worker, Io, forget_refusals, fail, transport_warning, busy, rejected, on_status, on_error,
  finished, on_job_status, acknowledge_job, on_job, on_result, is_pending, is_submitted,
}
use sirius_api_proxy.AssetDispatch.Steps.{
  driven, forgotten, counted, exhausted, noted, Steps, done, next, Steps-append, one,
  and_then-Steps, if-Steps, Known, Steps-Known, Describes,
}
use sirius_api_proxy.Region.{Region, region_eq}

filter_sound :
    {A : Type 0} (p : A → Bool) (o : Option A) (a : A)
    → filter_option o p ≡ some a
    → (o ≡ some a) × (p a ≡ true)
filter_sound p none a h = absurd (ground (arith, h))
filter_sound p (some b) a h = elim (Bool-cases (p b)) [
  | inl t ↦
      let same : some b ≡ some a = rw t at h in
      (same, subst (λ v. p v ≡ true) (some-injective b a same) t)
  | inr t ↦ absurd (ground (arith, rw t at h))
]

region_eq→≡ : (a b : Region) → region_eq a b ≡ true → a ≡ b
region_eq→≡ a b h = ground (arith, h)

exported-some :
    (publication : Option String) (o : Option Export)
    → is_some_and o (exported publication) ≡ true
    → (e : Export) × (o ≡ some e)
      × (e.full_export ≡ true)
      × ((e.retained ≡ true) ⊎ (is_some publication ≡ true))
exported-some publication none h = absurd (ground (arith, h))
exported-some publication (some e) h = (
  e,
  refl,
  ground (arith, h),
  elim (Bool-cases e.retained) [ inl r ↦ inl r | inr r ↦ inr (ground (arith, r, h)) ],
)

or-cases : (a b : Bool) → (not a || b) ≡ true → (a ≡ false) ⊎ (b ≡ true)
or-cases true b h = inr h
or-cases false b h = inl refl

matches_outcome-Describes :
    (i : Identity) (o : Outcome) → matches_outcome i o ≡ true → Describes i o
unfolding matches_outcome
matches_outcome-Describes i o h =
    let v = o.verification in
    (
      region_eq→≡ v.region i.request.region (ground (arith, h)),
      (str_eq_iff v.environment i.environment).0 (ground (arith, h)),
      (str_eq_iff v.platform i.platform).0 (ground (arith, h)),
      (str_eq_iff v.resource_version i.resource_version).0 (ground (arith, h)),
      (str_eq_iff v.platform_hash i.platform_hash).0 (ground (arith, h)),
      ground (arith, h),
      or-cases i.require_full_catalog v.full_catalog (ground (arith, h)),
      elim (or-cases i.require_full_export (is_some_and o.export (exported o.publication_id))
          (ground (arith, h))) [
            | inl n ↦ inl n
            | inr y ↦ inr (exported-some o.publication_id o.export y)
          ],
      or-cases i.require_publication (is_some o.publication_id) (ground (arith, h)),
    )

module _ (jobs : AssetJobs.Env) (outbox : Env) (gave : String → Entry → Job → Type 0)
    (start : World) where
  pub fail-Steps :
      (written : Bool) (key code : String) (w : Worker)
      → any (str_eq code) failure_codes ≡ true
      → Steps outbox gave start w (fail written key code w).0
  unfolding fail apply
  fail-Steps written key code w j =
      and_then-Steps outbox gave start w _ _
        (one outbox gave start (driven (failure written key code) j))
        (λ u v r s. one outbox gave start (forgotten key))

  busy-Steps :
      (io : Io) (key : String) (count : ℕ) (w : Worker)
      → Steps outbox gave start w (busy io key count w).0
  unfolding busy apply
  busy-Steps io key count w =
      if-Steps outbox gave start w (leb max_refusals count) _ _
        (λ e.
          Steps-append outbox gave start (one outbox gave start (exhausted key count))
            (fail-Steps io.settled key "submission_refused" _ refl))
        (λ e.
          next (counted key count (ground (arith, e)))
            (one outbox gave start (driven (refusal io.settled key) tt)))

  noted-Steps : (w : Worker) → Steps outbox gave start w (transport_warning w).0
  unfolding transport_warning
  noted-Steps w = one outbox gave start (noted (w.transport_errors + 1))

  rejected-Steps :
      (io : Io) (key : String) (c : Option String) (w : Worker)
      → is_none_or c (λ code. any (str_eq code) failure_codes) ≡ true
      → Steps outbox gave start w (rejected io key c w).0
  unfolding rejected
  rejected-Steps io key none w j = noted-Steps w
  rejected-Steps io key (some code) w j =
      next (forgotten key) (fail-Steps io.settled key code (forget_refusals key w) j)

  rejected_submission-codes :
      (status : ℕ)
      → is_none_or (rejected_submission status) (λ code. any (str_eq code) failure_codes) ≡ true
  unfolding rejected_submission
  rejected_submission-codes status = ground arith

  on_status-Steps :
      (io : Io) (key : String) (s : State) (code : ℕ) (w : Worker)
      → Steps outbox gave start w (on_status io key s code w).0
  unfolding on_status
  on_status-Steps io key s code w =
      if-Steps outbox gave start w (code == 404 && is_submitted s) _ _
        (λ _. fail-Steps io.settled key "job_pruned" w refl)
        (λ _.
          if-Steps outbox gave start w (not (is_pending s)) _ _ (λ _. noted-Steps w)
            (λ _.
              if-Steps outbox gave start w (code == 429 || code == 503) _ _
                (λ _. busy-Steps io key _ w)
                (λ _. rejected-Steps io key _ w (rejected_submission-codes code))))

  on_error-Steps :
      (io : Io) (key : String) (s : State) (x : AssetJobs.Error) (w : Worker)
      → Steps outbox gave start w (on_error io key s x w).0
  unfolding on_error
  on_error-Steps io key s (AssetJobs.Error.status code) w = on_status-Steps io key s code w
  on_error-Steps io key s AssetJobs.Error.config w =
      if-Steps outbox gave start w (is_pending s) _ _
        (λ _. fail-Steps io.settled key "asset_dispatch_request_invalid" w refl)
        (λ _. noted-Steps w)
  on_error-Steps io key s AssetJobs.Error.protocol w =
      fail-Steps io.settled key "invalid_job_response" w refl
  on_error-Steps io key s AssetJobs.Error.transport w = noted-Steps w

  finished-Steps :
      (io : Io) (key : String) (e : Entry) (job : Job) (o : Option Outcome) (w : Worker)
      → Known outbox gave start key e w
      → gave key e job
      → job.status ≡ AssetJobs.Status.completed
      → ((a : Outcome) → o ≡ some a → (job.outcome ≡ some a) × Describes e.identity a)
      → Steps outbox gave start w (finished jobs outbox io key job o w).0
  unfolding finished apply
  finished-Steps io key e job none w k g c m = fail-Steps io.settled key "outcome_mismatch" w refl
  finished-Steps io key e job (some o) w (d, f, h, i) g c m =
      let (told, describes) = m o refl in
      one outbox gave start (
        driven (completion io.settled key job.id o.verification.catalog_sha256 o.publication_id)
          (d, h, (e, job, o, f, i, g, c, told, describes, refl, refl)))

  on_job_status-Steps :
      (io : Io) (key : String) (e : Entry) (job : Job) (s : AssetJobs.Status) (w : Worker)
      → Known outbox gave start key e w
      → gave key e job
      → job.status ≡ s
      → Steps outbox gave start w (on_job_status jobs outbox io key e job s w).0
  unfolding on_job_status
  on_job_status-Steps io key e job AssetJobs.Status.failed w k g c =
      fail-Steps io.settled key "job_failed" w refl
  on_job_status-Steps io key e job AssetJobs.Status.cancelled w k g c =
      fail-Steps io.settled key "job_cancelled" w refl
  on_job_status-Steps io key e job AssetJobs.Status.completed w k g c =
      finished-Steps io key e job (filter_option job.outcome (matches_outcome e.identity)) w k g c
        (λ a h.
          let (told, m) = filter_sound (matches_outcome e.identity) job.outcome a h in
          (told, matches_outcome-Describes e.identity a m))
  on_job_status-Steps io key e job AssetJobs.Status.queued w k g c = done
  on_job_status-Steps io key e job AssetJobs.Status.running w k g c = done
  on_job_status-Steps io key e job AssetJobs.Status.cancelling w k g c = done

  acknowledge_job-Steps :
      (io : Io) (key : String) (b : Bool) (job : Job) (w : Worker)
      → Steps outbox gave start w (acknowledge_job jobs outbox io key b job w).0
  unfolding acknowledge_job apply
  acknowledge_job-Steps io key false job w = done
  acknowledge_job-Steps io key true job w =
      and_then-Steps outbox gave start w _ _
        (one outbox gave start (driven (acknowledged io.acknowledged key job.id) tt))
        (λ u v r s. one outbox gave start (forgotten key))

  on_job-Steps :
      (io : Io) (key : String) (e : Entry) (job : Job) (w : Worker)
      → Known outbox gave start key e w
      → gave key e job
      → Steps outbox gave start w (on_job jobs outbox io key e job w).0
  unfolding on_job
  on_job-Steps io key e job w k g =
      if-Steps outbox gave start w (confirms jobs key job) _ _
        (λ _.
          and_then-Steps outbox gave start w _ _
            (acknowledge_job-Steps io key (is_pending e.state) job w)
            (λ u v r s.
              on_job_status-Steps io key e job job.status v
                (Steps-Known outbox gave start key e s k) g refl))
        (λ _. fail-Steps io.settled key "job_identity_mismatch" w refl)

  pub on_result-Steps :
      (io : Io) (key : String) (e : Entry) (r : Result Job AssetJobs.Error) (w : Worker)
      → Known outbox gave start key e w
      → ((job : Job) → r ≡ ok job → gave key e job)
      → Steps outbox gave start w (on_result jobs outbox io key e r w).0
  unfolding on_result
  on_result-Steps io key e (ok job) w k g = on_job-Steps io key e job w k (g job refl)
  on_result-Steps io key e (err x) w k g = on_error-Steps io key e.state x w
