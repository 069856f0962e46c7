-- ===== src/AssetOutbox/Entries.antt =====
-- Identities of dispatches and the entries of the ledger (src/asset_outbox.rs).
use sirius_api_proxy.Base.{
  ℕ, zero, suc, String, starts_with, Bool, true, false, not, ◌&&◌, ◌||◌, Option, [], ◌∷◌, ltb, leb,
  ◌==◌, any, str_eq, is_some_and, is_none_or, if◌then◌else◌, byte_len, all_bytes, is_lower,
  is_digit, is_alphanumeric, Result, ok, err, BTreeMap, ◌≡◌, inl, inr, arith, Bool-cases,
  str_eq_iff,
}
use native.Mathlib.Decide.{ℕ_discrete}
use Prim.Native.String.{◌++◌ as append}
use sirius_api_proxy.Region.{Region, cn}

pub data Error : Type 0 where
  invalid locked storage full : Error

-- `asset_jobs::Operation` and `asset_jobs::Request`
pub data Operation : Type 0 where
  update export verify : Operation

pub record Request : Type 0 where
  pub region : Region
  pub profile : String
  pub operation : Operation

pub record Identity : Type 0 where
  pub destination_sha256 : String
  pub request : Request
  pub profile_revision : String
  pub environment : String
  pub platform : String
  pub resource_version : String
  pub platform_hash : String
  pub require_full_catalog : Bool
  pub require_full_export : Bool
  pub require_publication : Bool

pub data State : Type 0 where
  pending : State
  sending : (first_attempt_at : ℕ) → State
  submitted : (job_id : String) → State
  completed : (job_id catalog_sha256 : String) → (publication_id : Option String) → State
  failed : (job_id : Option String) → (code : String) → State

pub record Entry : Type 0 where
  pub identity : Identity
  pub state : State

pub record Ledger : Type 0 where
  pub schema_version : ℕ
  pub reconciliation_cursor : Option String
  pub entries : BTreeMap Entry

-- `sha256` is the lower-case hexadecimal SHA-256 of an identity's JSON, and `parse_uuid` the text
-- that the UUID library prints for the value it reads.
pub record Env : Type 0 where
  pub sha256 : Identity → String
  pub parse_uuid : String → Option String

unfoldable pub digest : String → Bool
digest v = byte_len v == 64 && all_bytes (λ b. is_digit b || leb b'a' b && leb b b'f') v

unfoldable pub component : String → Bool
component v =
    not (str_eq v "")
    && leb (byte_len v) 256
    && not (str_eq v "." || str_eq v "..")
    && all_bytes (λ b. is_alphanumeric b || b == b'-' || b == b'_' || b == b'.') v

unfoldable pub is_cn : Region → Bool
is_cn cn = true
is_cn _ = false

-- `v.contains('.')`
unfoldable pub has_dot : String → Bool
has_dot v = not (all_bytes (λ b. not (b == b'.')) v)

-- The condition of `Identity::key`, negated.
unfoldable pub acceptable : Identity → Bool
acceptable i = not (
    not (digest i.destination_sha256)
    || is_cn i.request.region
    || ltb 64 (byte_len i.request.profile)
    || not (component i.request.profile)
    || has_dot i.request.profile
    || any (λ v. not (component v))
        (i.profile_revision ∷ i.environment ∷ i.resource_version ∷ i.platform_hash ∷ [])
    || not (str_eq i.platform "iOS" || str_eq i.platform "Android"))

-- `code.bytes().all(…)` and its bounds, in `fail` and `valid_state`.
unfoldable pub valid_code : String → Bool
valid_code code =
    not (str_eq code "") && leb (byte_len code) 64 && all_bytes (λ b. is_lower b || b == b'_') code

-- `&text[n..]`, for an ASCII prefix
unfoldable pub skip : ℕ → String → String
skip zero s = s
skip (suc n) String.[] = String.[]
skip (suc n) (String.◌∷◌ c s) = skip n s

unfoldable pub valid_key : String → Bool
valid_key key = byte_len key == 71 && starts_with key "sirius-" && digest (skip 7 key)

module _ (env : Env) where
  unfoldable pub key : Identity → Result String Error
  key i = if acceptable i then ok (append "sirius-" (env.sha256 i)) else err invalid

  unfoldable pub uuid : String → Bool
  uuid v = is_some_and (env.parse_uuid v) (λ text. str_eq text v)

  unfoldable pub valid_state : State → Bool
  valid_state pending = true
  valid_state (sending at) = true
  valid_state (submitted job_id) = uuid job_id
  valid_state (completed job_id catalog publication) =
      uuid job_id && digest catalog && is_none_or publication uuid
  valid_state (failed job_id code) = is_none_or job_id uuid && valid_code code

string_discrete : Discrete String
string_discrete s t = elim (Bool-cases (str_eq s t)) [
  | inl e ↦ yes ((str_eq_iff s t).0 e)
  | inr n ↦ no (λ same. ground (arith, n, (str_eq_iff s t).1 same))
]

pub entry_discrete : Discrete Entry
entry_discrete = hlevel (string_discrete, ℕ_discrete)

-- `==` on entries
unfoldable pub same_entry : Entry → Entry → Bool
same_entry a b = elim (entry_discrete a b) [ yes e ↦ true | no n ↦ false ]

pub same_entry_sound : (a b : Entry) → same_entry a b ≡ true → a ≡ b
unfolding same_entry
same_entry_sound a b h =
    elim (entry_discrete a b) as (λ d. elim d [ yes e ↦ true | no n ↦ false ] ≡ true → a ≡ b) [
      | yes e ↦ λ _. e
      | no n ↦ λ h. absurd (ground (arith, h))
    ]
      h
