-- ===== src/AssetJobs/Tests.antt =====
-- The job client (src/asset_jobs.rs) at concrete inputs.
use sirius_api_proxy.Base.{ℕ, ◌≤◌, ◌≡◌, refl, ◌↔◌, true, none, some, List, [], ◌∷◌, length, ok}
use sirius_api_proxy.Region.{jp}
use sirius_api_proxy.AssetOutbox.Entries.{Request, update}
use sirius_api_proxy.AssetJobs.{
  Env, Url, Client, Job, HttpRequest, response, Body, ended, chunk, queued, post_method, limit,
  read_body, submit, exchanged, submission, post_job, validate_request, acceptable_key, confirmed,
  confirms, receive, parse_body, check_job, check_outcome,
}
use sirius_api_proxy.AssetJobs.Replies.{content, read_body_iff}
use sirius_api_proxy.AssetJobs.Accepted.{IsAccepted, submit-IsAccepted}

abbrev request : Request
request = record { region = jp; profile = "main"; operation = update }

abbrev job : Job
job = record {
  id = "job-1";
  request = request;
  status = queued;
  idempotency_sha256 = some "hash";
  outcome = none;
}

abbrev root : Url
root = record {
  scheme = "https";
  username = "";
  password = none;
  host_str = some "updater";
  path = "/";
  query = none;
  fragment = none;
  as_str = "https://updater/";
}

abbrev env : Env
env = record {
  parse_url = λ u. some root;
  join = λ u path. some path;
  header_value = λ v. true;
  http_builds = λ timeout. true;
  trim = λ s. s;
  parse_uuid = λ s. some s;
  sha256 = λ s. "hash";
  to_json = λ r. some "request";
  from_json = λ bytes. some job;
}

abbrev client : Client
client = record {
  connect_timeout = 1000;
  timeout = 1000;
  root = root;
  authorization = "Bearer token";
  user_agent = none;
}

abbrev body : Body
body = chunk (1 ∷ 2 ∷ []) (chunk (3 ∷ []) ended)

abbrev posted : HttpRequest
posted = record {
  method = post_method;
  url = "api/v1/jobs";
  user_agent = none;
  authorization = "Bearer token";
  idempotency_key = some "key";
  body = some "request";
}

abbrev bytes : List ℕ
bytes = 1 ∷ 2 ∷ 3 ∷ []

read_body_iff_example :
    read_body [] body ≡ ok bytes ↔ (content body ≡ some bytes) × (length bytes ≤ limit)
read_body_iff_example = read_body_iff body bytes

submit_lem :
    submit env (λ r. response 202 (some 3) body) client request "key" ≡ (some posted, ok job)
unfolding submit exchanged submission post_job validate_request acceptable_key confirmed confirms
    receive parse_body read_body check_job check_outcome
submit_lem = refl

submit-IsAccepted_example :
    ((r : HttpRequest) × (some posted ≡ some r)
      × (r.method ≡ post_method)
      × (r.idempotency_key ≡ some "key"))
    × (job.idempotency_sha256 ≡ some "hash")
    × IsAccepted env request job
submit-IsAccepted_example =
    submit-IsAccepted env (λ r. response 202 (some 3) body) client request "key" (some posted) job
      submit_lem
