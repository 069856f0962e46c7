-- ===== src/NodeRouting/Calls.antt =====
-- One routed call (src/node_routing.rs, `call_inner`). What a target answers and whether it lets the
-- call through are inputs; the targets that are called are recorded in their order.
use sirius_api_proxy.Base.{
  Bool, true, false, not, ◌&&◌, ◌||◌, List, [], ◌∷◌, if◌then◌else◌, Result, ok, err, str_eq, String,
}
use sirius_api_proxy.Error.{AppError}
use sirius_api_proxy.Peer.{
  Failure, Outcome, success, failure, Observation, default_observation, Reply,
}
use sirius_api_proxy.Peer.Transport.{TransportError, definitely_not_sent, rejected_before_dispatch}

-- `failure_error`
unfoldable pub failure_error : Failure → Bool → AppError
failure_error Failure.identity_mismatch flag = AppError.peer_identity_mismatch
failure_error Failure.unsupported_operation flag = AppError.unsupported_region_operation
failure_error Failure.unavailable_before_dispatch flag = AppError.peer_account_unavailable
failure_error Failure.account_unavailable flag = AppError.account_unavailable
failure_error Failure.timeout flag = AppError.timeout
failure_error Failure.transport flag = AppError.transport
failure_error Failure.protocol flag = AppError.protocol
failure_error (Failure.game s) flag = if flag then AppError.maintenance s else AppError.grpc s
failure_error Failure.not_found flag = AppError.not_found

-- The outcomes that show that the peer did not dispatch the read.
unfoldable pub undispatched : {Value : Type 0} → Outcome Value → Bool
undispatched (failure Failure.identity_mismatch) = true
undispatched (failure Failure.unsupported_operation) = true
undispatched (failure Failure.unavailable_before_dispatch) = true
undispatched _ = false

unfoldable pub transport_error : TransportError → AppError
transport_error TransportError.timeout = AppError.timeout
transport_error TransportError.not_sent = AppError.timeout
transport_error TransportError.protocol = AppError.protocol
transport_error _ = AppError.transport

-- The errors of a local call that show that it was not dispatched.
unfoldable pub local_undispatched : AppError → Bool
local_undispatched AppError.peer_identity_mismatch = true
local_undispatched AppError.peer_account_unavailable = true
local_undispatched AppError.unsupported_region_operation = true
local_undispatched _ = false

unfoldable pub error_is_fault : AppError → Bool
error_is_fault AppError.transport = true
error_is_fault AppError.proxy = true
error_is_fault AppError.timeout = true
error_is_fault AppError.protocol = true
error_is_fault AppError.peer_identity_mismatch = true
error_is_fault AppError.peer_account_unavailable = true
error_is_fault AppError.account_unavailable = true
error_is_fault AppError.unsupported_region_operation = true
error_is_fault _ = false

-- `client::authenticated`, by the names of src/routes.rs
unfoldable pub authenticated : String → Bool
authenticated route =
    str_eq route "/app.friend.FriendService/FindByProfileID"
    || str_eq route "/app.event.EventService/GetRankingList"
    || str_eq route "/app.event.EventService/GetDeck"
    || str_eq route "/app.livemusic.LiveMusicService/GetRanking"
    || str_eq route "/app.event.EventService/GetChallengeMusicRanking"
    || str_eq route "/app.player.PlayerService/Whoami"
    || str_eq route "/app.player.PlayerService/GetPlayerData"

pub record Execution (Value : Type 0) : Type 0 where
  pub result : Result Value AppError
  pub observation : Observation

-- What a target gives: a peer's reply or the transport's error, or the local call's result, which
-- is a timeout once the deadline has passed.
pub data Answer (Value : Type 0) : Type 0 where
  replied : Reply Value → Answer Value
  unanswered : TransportError → Answer Value
  local_call : Result Value AppError → Observation → Answer Value

-- One target at its turn: whether the deadline has passed, and whether `admit` gives a permit.
pub record Visit (Value : Type 0) : Type 0 where
  pub past_deadline : Bool
  pub admitted : Bool
  pub answer : Answer Value

module _ {Value : Type 0} where
  -- `Execution::error`
  abbrev pub error_execution : AppError → Execution Value
  error_execution e = record { result = err e; observation = default_observation }

  abbrev outcome_result : Outcome Value → Bool → Result Value AppError
  outcome_result (success v) flag = ok v
  outcome_result (failure f) flag = err (failure_error f flag)

  abbrev is_undispatched : Result Value AppError → Bool
  is_undispatched (ok v) = false
  is_undispatched (err e) = local_undispatched e

  -- The execution of an answer, and whether it definitely did not execute the read.
  unfoldable pub executed : Answer Value → Execution Value × Bool
  executed (replied reply) = (
    record {
      result = outcome_result reply.outcome reply.observation.maintenance;
      observation = reply.observation;
    },
    undispatched reply.outcome,
  )
  executed (unanswered e) =
      (error_execution (transport_error e), definitely_not_sent e || rejected_before_dispatch e)
  executed (local_call result observation) =
      (record { result = result; observation = observation }, is_undispatched result)

  unfoldable pub target_fault : Execution Value → Bool
  target_fault e = elim e.result [ ok v ↦ false | err error ↦ error_is_fault error ]

  -- Whether the loop returns the execution.
  unfoldable pub returns : Bool → Answer Value → Bool
  returns authenticated answer =
      let (execution, safe) = executed answer in
      not (target_fault execution) || (not safe && authenticated)

  -- The loop over the targets, with `last` before the first of them.
  unfoldable pub call_targets :
      Bool → Execution Value → List (Visit Value) → List (Answer Value) × Execution Value
  call_targets auth last [] = ([], last)
  call_targets auth last (v ∷ visits) = elim v.past_deadline [
    | true ↦ ([], error_execution AppError.timeout)
    | false ↦ elim v.admitted [
      | false ↦ call_targets auth last visits
      | true ↦ elim (returns auth v.answer) [
        | true ↦ (v.answer ∷ [], (executed v.answer).0)
        | false ↦
            let (calls, final) = call_targets auth (executed v.answer).0 visits in
            (v.answer ∷ calls, final)
      ]
    ]
  ]

  -- `call_inner`; `acquired` says whether the call got one of the places before its deadline.
  unfoldable pub call_inner :
      String → Bool → List (Visit Value) → List (Answer Value) × Execution Value
  call_inner route acquired visits =
      if acquired
      then call_targets (authenticated route) (error_execution AppError.node_unavailable) visits
      else ([], error_execution AppError.timeout)
