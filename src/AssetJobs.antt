-- ===== src/AssetJobs.antt =====
-- src/asset_jobs.rs: the client of the asset updater's jobs. The answer to a request is an argument:
-- its status, the length it announces and the chunks of its body, any of which may fail to arrive.
-- The libraries that read URLs, header values, UUIDs and JSON are in the record `Env`.
pub mod Replies
pub mod Accepted
mod Tests
use sirius_api_proxy.Base.{
  ℕ, String, Bool, true, false, not, ◌&&◌, ◌||◌, min, Option, none, some, List, [], ◌∷◌, ◌++◌, ◌-◌,
  ltb, leb, ◌==◌, within, length, any, str_eq, is_some, is_none, is_some_and, if◌then◌else◌,
  byte_len, all_bytes, is_digit, is_alphanumeric, Result, ok, err,
}
use Prim.Native.String.{◌++◌ as append}
use sirius_api_proxy.Region.{Region, cn, region_eq}
use sirius_api_proxy.AssetOutbox.Entries.{Request, Operation, update, export, verify}

pub data Error : Type 0 where
  config transport protocol : Error
  status : (code : ℕ) → Error

pub data Status : Type 0 where
  queued running cancelling completed failed cancelled : Status

pub record Verification : Type 0 where
  pub region : Region
  pub platform : String
  pub environment : String
  pub resource_version : String
  pub platform_hash : String
  pub catalog_sha256 : String
  pub full_catalog : Bool
  pub catalog_verified : Bool

pub record Export : Type 0 where
  pub full_export : Bool
  pub retained : Bool
  pub files : ℕ
  pub bytes : ℕ

pub record Outcome : Type 0 where
  pub verification : Verification
  pub export : Option Export
  pub publication_id : Option String

pub record Job : Type 0 where
  pub id : String
  pub request : Request
  pub status : Status
  pub idempotency_sha256 : Option String
  pub outcome : Option Outcome

-- The parts of a URL that the library has read, and its text.
pub record Url : Type 0 where
  pub scheme : String
  pub username : String
  pub password : Option String
  pub host_str : Option String
  pub path : String
  pub query : Option String
  pub fragment : Option String
  pub as_str : String

pub data Method : Type 0 where
  get_method post_method : Method

pub record HttpRequest : Type 0 where
  pub method : Method
  pub url : String
  pub user_agent : Option String
  pub authorization : String
  pub idempotency_key : Option String
  pub body : Option String

-- The body of an answer, as its chunks arrive.
pub data Body : Type 0 where
  ended broken : Body
  chunk : List ℕ → Body → Body

pub data Answer : Type 0 where
  unreachable : Answer
  response : (code : ℕ) → (content_length : Option ℕ) → Body → Answer

-- `parse_uuid` gives the text that the library prints for the UUID it reads, `sha256` the hash of a
-- text in lower-case hexadecimal digits, `join` the URL of a relative one, and `trim` a text without
-- the white space at its ends.
pub record Env : Type 0 where
  pub parse_url : String → Option Url
  pub join : Url → String → Option String
  pub header_value : String → Bool
  pub http_builds : ℕ → Bool
  pub trim : String → String
  pub parse_uuid : String → Option String
  pub sha256 : String → String
  pub to_json : Request → Option String
  pub from_json : List ℕ → Option Job

pub record Client : Type 0 where
  pub connect_timeout : ℕ
  pub timeout : ℕ
  pub root : Url
  pub authorization : String
  pub user_agent : Option String

unfoldable pub component : String → Bool
component s =
    not (str_eq s "")
    && leb (byte_len s) 256
    && not (str_eq s "." || str_eq s "..")
    && all_bytes (λ b. is_alphanumeric b || b == b'-' || b == b'_' || b == b'.') s

abbrev is_cn : Region → Bool
is_cn cn = true
is_cn _ = false

unfoldable pub validate_request : Request → Result Unit Error
validate_request r =
    if is_cn r.region
      || str_eq r.profile ""
      || ltb 64 (byte_len r.profile)
      || not (all_bytes (λ b. is_alphanumeric b || b == b'-' || b == b'_') r.profile)
    then err config
    else ok tt

-- `==` on operations, requests and states of a job.
abbrev pub operation_eq : Operation → Operation → Bool
operation_eq update update = true
operation_eq export export = true
operation_eq verify verify = true
operation_eq _ _ = false

abbrev pub request_eq : Request → Request → Bool
request_eq a b =
    region_eq a.region b.region
    && str_eq a.profile b.profile
    && operation_eq a.operation b.operation

abbrev pub is_completed : Status → Bool
is_completed completed = true
is_completed _ = false

abbrev pub limit : ℕ
limit = 65536

-- The chunks are collected while they fit.
unfoldable pub read_body : List ℕ → Body → Result (List ℕ) Error
read_body bytes ended = ok bytes
read_body bytes broken = err transport
read_body bytes (chunk c rest) =
    let read = read_body (bytes ++ c) rest in
    if ltb (limit - length bytes) (length c) then err protocol else read

unfoldable pub lower_hex : String → Bool
lower_hex s = all_bytes (λ b. is_digit b || leb b'a' b && leb b b'f') s

module _ (env : Env) where
  -- The checks of `Client::new` on the URL, and on the token and the timeout.
  unfoldable pub acceptable_root : Bool → Url → Bool
  acceptable_root allow_http root = not (
      is_none root.host_str
      || not (str_eq root.username "")
      || is_some root.password
      || is_some root.query
      || is_some root.fragment
      || not (str_eq root.path "/")
      || not (str_eq root.scheme "https" || allow_http && str_eq root.scheme "http"))

  unfoldable pub acceptable_token : String → Bool
  acceptable_token token =
      not (str_eq token "" || ltb 4096 (byte_len token) || not (all_bytes (within 33 126) token))

  unfoldable pub new : String → String → Bool → ℕ → Result Client Error
  new root token allow_http timeout_ms = elim (env.parse_url root) [
    | none ↦ err config
    | some url ↦
        if not (acceptable_root allow_http url)
          || not (within 100 300000 timeout_ms)
          || not (acceptable_token token)
        then err config
        else if not (env.header_value (append "Bearer " token)) || not (env.http_builds timeout_ms)
        then err config
        else ok (record {
          connect_timeout = min timeout_ms 10000;
          timeout = timeout_ms;
          root = url;
          authorization = append "Bearer " token;
          user_agent = none;
        })
  ]

  unfoldable pub with_user_agent : Client → Option String → Result Client Error
  with_user_agent client none = ok (record client { user_agent = none })
  with_user_agent client (some v) =
      if str_eq (env.trim v) "" || ltb 256 (byte_len v) || not (all_bytes (within 32 126) v)
      then err config
      else if env.header_value v
      then ok (record client { user_agent = some v })
      else err config

  -- The condition under which `send` refuses an outcome, negated.
  unfoldable pub acceptable_outcome : Request → Outcome → Bool
  acceptable_outcome request o =
      let v = o.verification in
      not (
        not (region_eq v.region request.region)
        || not v.catalog_verified
        || not (str_eq v.platform "iOS" || str_eq v.platform "Android")
        || any (λ s. not (component s)) (v.environment ∷ v.resource_version ∷ v.platform_hash ∷ [])
        || not (byte_len v.catalog_sha256 == 64)
        || not (lower_hex v.catalog_sha256)
        || is_some_and o.publication_id (λ id. is_none (env.parse_uuid id))
        || is_some o.publication_id && is_none o.export)

  unfoldable pub check_outcome : Request → Job → Option Outcome → Result Job Error
  check_outcome request job none = ok job
  check_outcome request job (some o) = if acceptable_outcome request o then ok job else err protocol

  unfoldable pub check_job : Request → Option Job → Result Job Error
  check_job request none = err protocol
  check_job request (some job) =
      if not (request_eq job.request request)
        || is_none (env.parse_uuid job.id)
        || not (is_completed job.status) && is_some job.outcome
      then err protocol
      else check_outcome request job job.outcome

  unfoldable pub parse_body : Request → Result (List ℕ) Error → Result Job Error
  parse_body request (err e) = err e
  parse_body request (ok bytes) = check_job request (env.from_json bytes)

  -- `send`, from the answer on.
  unfoldable pub receive : ℕ → Request → Answer → Result Job Error
  receive expected request unreachable = err transport
  receive expected request (response code content_length body) =
      if not (code == expected)
      then err (status code)
      else if is_some_and content_length (λ v. ltb limit v)
      then err protocol
      else parse_body request (read_body [] body)

  unfoldable pub acceptable_key : String → Bool
  acceptable_key key = not (
      str_eq key ""
      || ltb 128 (byte_len key)
      || not (
          all_bytes (λ b. is_alphanumeric b || b == b'-' || b == b'_' || b == b'.' || b == b':')
            key))

  unfoldable pub post_job :
      Client → String → Result Unit Error → Option String → Option String → Result HttpRequest Error
  post_job client key (err e) url body = err e
  post_job client key (ok u) none body = err config
  post_job client key (ok u) (some url) none = err config
  post_job client key (ok u) (some url) (some body) = ok (record {
    method = post_method;
    url = url;
    user_agent = client.user_agent;
    authorization = client.authorization;
    idempotency_key = some key;
    body = some body;
  })

  -- What `submit` sends, or why it sends nothing.
  unfoldable pub submission : Client → Request → String → Result HttpRequest Error
  submission client request key =
      let posted =
        post_job client key (validate_request request) (env.join client.root "api/v1/jobs")
          (env.to_json request) in
      if acceptable_key key then posted else err config

  -- `job.idempotency_sha256` is the hash of the key.
  unfoldable pub confirms : String → Job → Bool
  confirms key job = is_some_and job.idempotency_sha256 (λ h. str_eq h (env.sha256 key))

  unfoldable pub confirmed : String → Result Job Error → Result Job Error
  confirmed key (err e) = err e
  confirmed key (ok job) = if confirms key job then ok job else err protocol

  -- A call with the request that it sent, if it sent one.
  unfoldable pub exchanged :
      (HttpRequest → Answer)
      → (Answer → Result Job Error)
      → Result HttpRequest Error
      → Option HttpRequest × Result Job Error
  exchanged net read (err e) = (none, err e)
  exchanged net read (ok request) = (some request, read (net request))

  unfoldable pub submit :
      (HttpRequest → Answer) → Client → Request → String → Option HttpRequest × Result Job Error
  submit net client request key =
      exchanged net (λ answer. confirmed key (receive 202 request answer))
        (submission client request key)

  unfoldable pub ask_job :
      Client → Result Unit Error → Bool → Option String → Result HttpRequest Error
  ask_job client (err e) readable url = err e
  ask_job client (ok u) false url = err config
  ask_job client (ok u) true none = err config
  ask_job client (ok u) true (some url) = ok (record {
    method = get_method;
    url = url;
    user_agent = client.user_agent;
    authorization = client.authorization;
    idempotency_key = none;
    body = none;
  })

  -- What `get` sends.
  unfoldable pub poll : Client → Request → String → Result HttpRequest Error
  poll client request id =
      ask_job client (validate_request request)
        (is_some_and (env.parse_uuid id) (λ text. str_eq text id))
        (env.join client.root (append "api/v1/jobs/" id))

  unfoldable pub same_job : String → Result Job Error → Result Job Error
  same_job id (err e) = err e
  same_job id (ok job) = if str_eq job.id id then ok job else err protocol

  unfoldable pub get_job :
      (HttpRequest → Answer) → Client → String → Request → Option HttpRequest × Result Job Error
  get_job net client id request =
      exchanged net (λ answer. same_job id (receive 200 request answer)) (poll client request id)
