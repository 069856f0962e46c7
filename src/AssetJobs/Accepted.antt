-- ===== src/AssetJobs/Accepted.antt =====
-- The jobs that the client returns (src/asset_jobs.rs, `submit`, `get` and `send`).
use sirius_api_proxy.Base.{
  ℕ, String, ◌≡◌, refl, sym, ap, ◌∙◌, Bool, true, false, not, ◌&&◌, ◌||◌, inl, inr, Option, none,
  some, List, [], arith, ltb, ◌==◌, Bool-cases, Option-cases, Result, ok, err, if◌then◌else◌,
  str_eq, str_eq_iff, is_some, is_none, is_some_and, is_none_or,
}
use mathlib.Core.Path.{subst}
use mathlib.Core.Option.{some-injective}
use sirius_api_proxy.AssetOutbox.Entries.{Request}
use sirius_api_proxy.AssetJobs.{
  ask_job, get_method, post_job, Env, Error, protocol, status, Job, Outcome, Answer, unreachable,
  response, Client, HttpRequest, request_eq, is_completed, acceptable_outcome, check_outcome,
  check_job, parse_body, receive, read_body, limit, confirms, confirmed, exchanged, submission,
  submit, same_job, get_job, poll, Method, post_method, acceptable_key,
}

abbrev posts : Method → Bool
posts post_method = true
posts get_method = false

module _ (env : Env) where
  -- What `send` guarantees of a job.
  pub record IsAccepted (request : Request) (job : Job) : Type 0 where
    pub asked : request_eq job.request request ≡ true
    pub named : is_some (env.parse_uuid job.id) ≡ true
    pub early : is_completed job.status ≡ false → job.outcome ≡ none
    pub checked : is_none_or job.outcome (acceptable_outcome env request) ≡ true

  -- Every `ok` of a result satisfies a predicate.
  abbrev pub OkIs : (Job → Type 0) → Result Job Error → Type 0
  OkIs P (err e) = Unit
  OkIs P (ok job) = P job

  if-OkIs :
      (P : Job → Type 0) (b : Bool) (e : Error) (r : Result Job Error)
      → (b ≡ false → OkIs P r)
      → OkIs P (if b then err e else r)
  if-OkIs P true e r h = tt
  if-OkIs P false e r h = h refl

  check_outcome-OkIs :
      (request : Request) (job : Job) (o : Option Outcome)
      → job.outcome ≡ o
      → request_eq job.request request ≡ true
      → is_some (env.parse_uuid job.id) ≡ true
      → (is_completed job.status ≡ false → o ≡ none)
      → OkIs (IsAccepted request) (check_outcome env request job o)
  unfolding check_outcome
  check_outcome-OkIs request job none same a n e = record {
    asked = a;
    named = n;
    early = λ _. same;
    checked = rw same refl;
  }
  check_outcome-OkIs request job (some o) same a n e =
      elim (Bool-cases (acceptable_outcome env request o)) [
        | inl t ↦ simp t (record {
          asked = a;
          named = n;
          early = λ f. same ∙ e f;
          checked = ap (λ v. is_none_or v (acceptable_outcome env request)) same ∙ t;
        })
        | inr t ↦ simp t tt
      ]

  check_job-OkIs :
      (request : Request) (j : Option Job) → OkIs (IsAccepted request) (check_job env request j)
  unfolding check_job
  check_job-OkIs request none = tt
  check_job-OkIs request (some job) =
      if-OkIs (IsAccepted request)
        (not (request_eq job.request request)
          || is_none (env.parse_uuid job.id)
          || not (is_completed job.status) && is_some job.outcome)
        protocol (check_outcome env request job job.outcome)
        (λ f.
          check_outcome-OkIs request job job.outcome refl (ground (arith, f)) (ground (arith, f))
            (λ c. ground (arith, f, c)))

  parse_body-OkIs :
      (request : Request) (r : Result (List ℕ) Error)
      → OkIs (IsAccepted request) (parse_body env request r)
  unfolding parse_body
  parse_body-OkIs request (err e) = tt
  parse_body-OkIs request (ok bytes) = check_job-OkIs request (env.from_json bytes)

  receive-OkIs :
      (expected : ℕ) (request : Request) (a : Answer)
      → OkIs (IsAccepted request) (receive env expected request a)
  unfolding receive
  receive-OkIs expected request unreachable = tt
  receive-OkIs expected request (response code size body) =
      if-OkIs (IsAccepted request) (not (code == expected)) (status code) _ (λ _.
        if-OkIs (IsAccepted request) (is_some_and size (λ v. ltb limit v)) protocol _
          (λ _. parse_body-OkIs request (read_body [] body)))

  pub confirms-hash :
      (key : String) (job : Job)
      → confirms env key job ≡ true
      → job.idempotency_sha256 ≡ some (env.sha256 key)
  unfolding confirms
  confirms-hash key job h = elim (Option-cases job.idempotency_sha256) [
    | inl n ↦ absurd (ground (arith, n, h))
    | inr (v, e) ↦ e ∙ ap some ((str_eq_iff v (env.sha256 key)).0 (rw e at h))
  ]

  confirmed-OkIs :
      (P : Job → Type 0) (key : String) (r : Result Job Error)
      → OkIs P r
      → OkIs (λ j. P j × (j.idempotency_sha256 ≡ some (env.sha256 key))) (confirmed env key r)
  unfolding confirmed
  confirmed-OkIs P key (err e) h = tt
  confirmed-OkIs P key (ok job) h = elim (Bool-cases (confirms env key job)) [
    | inl e ↦ rw e (h, confirms-hash key job e)
    | inr e ↦ rw e tt
  ]

  same_job-OkIs :
      (P : Job → Type 0) (id : String) (r : Result Job Error)
      → OkIs P r
      → OkIs (λ j. P j × (j.id ≡ id)) (same_job env id r)
  unfolding same_job
  same_job-OkIs P id (err e) h = tt
  same_job-OkIs P id (ok job) h = elim (Bool-cases (str_eq job.id id)) [
    | inl e ↦ rw e (h, (str_eq_iff job.id id).0 e)
    | inr e ↦ rw e tt
  ]

  exchanged-OkIs :
      (P : Job → Type 0) (net : HttpRequest → Answer) (read : Answer → Result Job Error)
      → (r : Result HttpRequest Error) → ((a : Answer) → OkIs P (read a))
      → OkIs P (exchanged env net read r).1
  unfolding exchanged
  exchanged-OkIs P net read (err e) h = tt
  exchanged-OkIs P net read (ok request) h = h (net request)

  ok-OkIs : (P : Job → Type 0) (job : Job) (r : Result Job Error) → r ≡ ok job → OkIs P r → P job
  ok-OkIs P job r h p = subst (OkIs P) h p

  exchanged-sent :
      (net : HttpRequest → Answer) (read : Answer → Result Job Error) (r : Result HttpRequest Error)
      → (sent : Option HttpRequest) (job : Job) → exchanged env net read r ≡ (sent, ok job)
      → (request : HttpRequest) × (r ≡ ok request) × (sent ≡ some request)
  unfolding exchanged
  exchanged-sent net read (err e) sent job h = absurd (ground (arith, h))
  exchanged-sent net read (ok request) sent job h = (request, refl, ap (λ x. x.0) (sym h))

  abbrev key_of : HttpRequest → Result HttpRequest Error → Option String
  key_of d (err e) = d.idempotency_key
  key_of d (ok r) = r.idempotency_key

  abbrev method_of : HttpRequest → Result HttpRequest Error → Method
  method_of d (err e) = d.method
  method_of d (ok r) = r.method

  post_job-key :
      (client : Client) (key : String) (v : Result Unit Error) (url body : Option String)
      → (r : HttpRequest) → post_job env client key v url body ≡ ok r
      → (r.idempotency_key ≡ some key) × (r.method ≡ post_method)
  unfolding post_job
  post_job-key client key (err e) url body r h = absurd (ground (arith, h))
  post_job-key client key (ok u) none body r h = absurd (ground (arith, h))
  post_job-key client key (ok u) (some url) none r h = absurd (ground (arith, h))
  post_job-key client key (ok u) (some url) (some body) r h =
      (ap (key_of r) (sym h), ap (method_of r) (sym h))

  pub submission-key :
      (client : Client) (request : Request) (key : String) (r : HttpRequest)
      → submission env client request key ≡ ok r
      → (r.idempotency_key ≡ some key) × (r.method ≡ post_method)
  unfolding submission
  submission-key client request key r h = elim (Bool-cases (acceptable_key env key)) [
    | inl a ↦ post_job-key client key _ _ _ r (simp a at h)
    | inr a ↦ absurd (ground (arith, a, h))
  ]

  abbrev is_post : Result HttpRequest Error → Bool
  is_post (err e) = false
  is_post (ok r) = posts r.method

  ask_job-get :
      (client : Client) (v : Result Unit Error) (readable : Bool) (url : Option String)
      → is_post (ask_job env client v readable url) ≡ false
  unfolding ask_job
  ask_job-get client (err e) readable url = refl
  ask_job-get client (ok u) false url = refl
  ask_job-get client (ok u) true none = refl
  ask_job-get client (ok u) true (some url) = refl

  pub poll-method :
      (client : Client) (request : Request) (id : String) (r : HttpRequest)
      → poll env client request id ≡ ok r
      → r.method ≡ post_method
      → ⊥
  unfolding poll
  poll-method client request id r h p =
      let got : is_post (poll env client request id) ≡ false = ask_job-get client _ _ _ in
      let post : posts r.method ≡ true = ap posts p in
      absurd (ground (arith, post, sym (ap is_post h) ∙ got))

  pub exchanged-some :
      (net : HttpRequest → Answer) (read : Answer → Result Job Error) (x : Result HttpRequest Error)
      → (r : HttpRequest) → (exchanged env net read x).0 ≡ some r
      → x ≡ ok r
  unfolding exchanged
  exchanged-some net read (err e) r h = absurd (ground (arith, h))
  exchanged-some net read (ok q) r h = ap ok (some-injective q r h)

  -- A job that `submit` returns comes from a POST that carried the key. The job names that key's
  -- hash and repeats the request, its id is readable, it has an outcome only when it is completed,
  -- and an outcome passes every check of the client.
  pub submit-IsAccepted :
      (net : HttpRequest → Answer) (client : Client) (request : Request) (key : String)
      → (sent : Option HttpRequest) (job : Job) → submit env net client request key ≡ (sent, ok job)
      → ((r : HttpRequest) × (sent ≡ some r)
          × (r.method ≡ post_method)
          × (r.idempotency_key ≡ some key))
        × (job.idempotency_sha256 ≡ some (env.sha256 key))
        × IsAccepted request job
  unfolding submit
  submit-IsAccepted net client request key sent job h =
      let read : Answer → Result Job Error =
        λ answer. confirmed env key (receive env 202 request answer) in
      let (r, asked, same) =
        exchanged-sent net read (submission env client request key) sent job h in
      let (own, posted) = submission-key client request key r asked in
      let (accepted, hash) =
        ok-OkIs (λ j. IsAccepted request j × (j.idempotency_sha256 ≡ some (env.sha256 key))) job
          (exchanged env net read (submission env client request key)).1 (ap (λ x. x.1) h)
          (exchanged-OkIs _ net read (submission env client request key) (λ a.
            confirmed-OkIs (IsAccepted request) key (receive env 202 request a)
              (receive-OkIs 202 request a))) in
      ((r, same, posted, own), hash, accepted)

  -- A job that `get` returns is the one asked for, and has passed the same checks.
  pub get_job-IsAccepted :
      (net : HttpRequest → Answer) (client : Client) (id : String) (request : Request)
      → (sent : Option HttpRequest) (job : Job) → get_job env net client id request ≡ (sent, ok job)
      → (job.id ≡ id) × IsAccepted request job
  unfolding get_job
  get_job-IsAccepted net client id request sent job h =
      let read : Answer → Result Job Error =
        λ answer. same_job env id (receive env 200 request answer) in
      let (accepted, same) =
        ok-OkIs (λ j. IsAccepted request j × (j.id ≡ id)) job
          (exchanged env net read (poll env client request id)).1 (ap (λ x. x.1) h)
          (exchanged-OkIs _ net read (poll env client request id) (λ a.
            same_job-OkIs (IsAccepted request) id (receive env 200 request a)
              (receive-OkIs 200 request a))) in
      (same, accepted)
