-- ===== src/NodeRouting/Tests.antt =====
-- Node routing (src/node_routing.rs) at concrete inputs.
use sirius_api_proxy.Base.{
  ℕ, pos, ◌≤◌, ◌≡◌, ◌↔◌, refl, true, false, ◌||◌, some, List, [], ◌∷◌, is_some, err, all, ok,
}
use sirius_api_proxy.Error.{AppError}
use sirius_api_proxy.Peer.{success, default_observation, query, called}
use sirius_api_proxy.Peer.Transport.{TransportError, definitely_not_sent, rejected_before_dispatch}
use sirius_api_proxy.NodeRouting.Config.{TargetConfig, Env, default_config, bounds_valid}
use sirius_api_proxy.NodeRouting.Health.{default_health}
use sirius_api_proxy.NodeRouting.Calls.{
  replied, unanswered, Visit, executed, target_fault, error_is_fault, transport_error, call_inner,
  authenticated, local_undispatched, returns, call_targets,
}
use sirius_api_proxy.NodeRouting.Breaker.{
  Event, admitted, finished, dropped, run, streak, open_iff_streak,
}
use sirius_api_proxy.NodeRouting.Failover.{
  Dispatches, no_answer, has_not, has, by_peer, executed_once, passed, first_without_fault,
}
use sirius_api_proxy.NodeRouting.Replies.{survives, is_upstream_unavailable, query-executed}

-- Payloads are numbers.
abbrev refused_connection : Visit ℕ
refused_connection = record {
  past_deadline = false;
  admitted = true;
  answer = unanswered TransportError.connect;
}

abbrev cooling : Visit ℕ
cooling = record {
  past_deadline = false;
  admitted = false;
  answer = unanswered TransportError.timeout;
}

abbrev answered : Visit ℕ
answered = record {
  past_deadline = false;
  admitted = true;
  answer = replied (record { outcome = success 7; observation = default_observation });
}

abbrev visits : List (Visit ℕ)
visits = refused_connection ∷ cooling ∷ answered ∷ refused_connection ∷ []

authenticated_route : authenticated "/app.player.PlayerService/Whoami" ≡ true
unfolding authenticated
authenticated_route = refl

public_route : authenticated "/app.masterdata.MasterdataService/Version" ≡ false
unfolding authenticated
public_route = refl

passed_over : all passed (refused_connection ∷ cooling ∷ []) ≡ true
unfolding executed target_fault error_is_fault transport_error
passed_over = refl

no_fault : target_fault (executed answered.answer).0 ≡ false
unfolding executed target_fault
no_fault = refl

-- The second target that is called has dispatched the read.
dispatched_lem : Dispatches (call_inner "/app.player.PlayerService/Whoami" true visits).0 1
unfolding call_inner call_targets authenticated returns executed definitely_not_sent
    rejected_before_dispatch target_fault query called error_is_fault transport_error
dispatched_lem =
    has_not refused_connection.answer (answered.answer ∷ []) 1
      (has answered.answer [] 0 (by_peer (λ v. v) (ok 7) default_observation refl) no_answer)

executed_once_example : 1 ≤ 1
executed_once_example =
    executed_once "/app.player.PlayerService/Whoami" true visits 1 authenticated_route
      dispatched_lem

first_without_fault_example :
    (call_inner "/app.masterdata.MasterdataService/Version" true visits).1
    ≡ (executed answered.answer).0
first_without_fault_example =
    first_without_fault "/app.masterdata.MasterdataService/Version"
      (refused_connection ∷ cooling ∷ []) (refused_connection ∷ []) answered public_route
      passed_over refl refl no_fault

abbrev events : List Event
events =
    admitted 1
    ∷ finished 2 (record { probe = false }) true
    ∷ finished 3 (record { probe = false }) true
    ∷ dropped (record { probe = false })
    ∷ finished 4 (record { probe = false }) true
    ∷ admitted 30010
    ∷ []

bounds_lem : bounds_valid default_config ≡ true
unfolding bounds_valid
bounds_lem = refl

open_iff_streak_example :
    (is_some (run default_config default_health events).open_until ≡ true)
    ↔ (default_config.failure_threshold ≤ streak 0 events)
open_iff_streak_example = open_iff_streak default_config events bounds_lem

abbrev same : ℕ → ℕ
same v = v

query-executed_example :
    (((executed (replied (query true same (err (AppError.grpc 5)) default_observation))).0.result
        ≡ err (AppError.grpc 5))
      ↔ (survives (AppError.grpc 5) ≡ true))
    × ((executed (replied (query true same (err (AppError.grpc 5)) default_observation))).1
        ≡ (local_undispatched (AppError.grpc 5) || is_upstream_unavailable (AppError.grpc 5)))
query-executed_example = query-executed same (AppError.grpc 5) default_observation

abbrev node : TargetConfig
node = record {
  name = "node-1";
  origin = "https://node-1.example";
  token_env = "NODE_TOKEN";
  priority = pos 10;
  regional_paths = false;
  allow_http = false;
}

abbrev env : Env
env = record { transport_valid = true; destination = λ t. some t.origin }
