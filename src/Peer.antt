-- ===== src/Peer.antt =====
-- src/peer.rs: the typed outcomes of a peer's query. The
-- JSON of a payload is a parameter, `Value`.
pub mod Transport
use sirius_api_proxy.Base.{
  ℕ, String, Bool, true, false, not, ◌||◌, Option, none, some, List, [], ◌∷◌, ◌==◌, any,
  if◌then◌else◌, Result, ok, err,
}
use sirius_api_proxy.Error.{AppError}

pub data Failure : Type 0 where
  identity_mismatch unsupported_operation account_unavailable : Failure
  unavailable_before_dispatch timeout transport protocol : Failure
  game : (grpc_status : ℕ) → Failure
  not_found : Failure

pub data Outcome (Value : Type 0) : Type 0 where
  success : Value → Outcome Value
  failure : Failure → Outcome Value

-- `client::Observation`
pub record Observation : Type 0 where
  pub observed_at : Option ℕ
  pub grpc_status : Option ℕ
  pub application_code : Option String
  pub server_time : Option String
  pub maintenance : Bool
  pub master_version : Option String
  pub resource_version : Option String

abbrev pub default_observation : Observation
default_observation = record {
  observed_at = none;
  grpc_status = none;
  application_code = none;
  server_time = none;
  maintenance = false;
  master_version = none;
  resource_version = none;
}

-- What binds a reply to its request is checked by the transport.
pub record Reply (Value : Type 0) : Type 0 where
  pub outcome : Outcome Value
  pub observation : Observation

-- `impl From<AppError> for Failure`
unfoldable pub failure_from : AppError → Failure
failure_from AppError.unsupported_region_operation = unsupported_operation
failure_from AppError.peer_account_unavailable = unavailable_before_dispatch
failure_from AppError.upstream_unavailable = unavailable_before_dispatch
failure_from AppError.account_unavailable = account_unavailable
failure_from AppError.timeout = timeout
failure_from AppError.transport = transport
failure_from AppError.proxy = transport
failure_from (AppError.grpc grpc_status) = game grpc_status
failure_from (AppError.maintenance grpc_status) = game grpc_status
failure_from AppError.peer_identity_mismatch = identity_mismatch
failure_from AppError.not_found = not_found
failure_from _ = protocol

abbrev observed : Option Bool → Observation → Observation
observed none o = o
observed (some flag) o = record o { maintenance = flag }

abbrev pub is_maintenance : AppError → Bool
is_maintenance (AppError.maintenance grpc_status) = true
is_maintenance _ = false

module _ {Value : Type 0} where
  -- The `match` on the call of `query`: the outcome, and whether its failure is a maintenance.
  unfoldable pub called : Result Value AppError → Outcome Value × Option Bool
  called (ok data_) = (success data_, none)
  called (err error) = (failure (failure_from error), some (is_maintenance error))

  -- The end of `query`: `same` says whether the peer's identity is the request's, and `redact`
  -- removes the account's own rank from a ranking.
  unfoldable pub query : Bool → (Value → Value) → Result Value AppError → Observation → Reply Value
  query false redact result observation = record {
    outcome = failure identity_mismatch;
    observation = observation;
  }
  query true redact result observation =
      let (outcome, flag) = called result in
      record {
        outcome = elim outcome [ success v ↦ success (redact v) | failure f ↦ failure f ];
        observation = observed flag observation;
      }
