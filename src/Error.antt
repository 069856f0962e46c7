-- ===== src/Error.antt =====
-- src/error.rs: `AppError`, its stable codes and the response that it becomes.
pub mod Codes
use sirius_api_proxy.Base.{ℕ, String, Option, none, some, ◌==◌, if◌then◌else◌}

pub data AppError : Type 0 where
  node_unavailable peer_account_unavailable peer_identity_mismatch : AppError
  unsupported_region_operation protocol_definition : AppError
  config : String → AppError
  invalid_request unauthorized forbidden auth_unavailable not_found : AppError
  account_unavailable upstream_unavailable timeout transport proxy protocol : AppError
  grpc maintenance : ℕ → AppError
  snapshot_unavailable master_unavailable : AppError

unfoldable pub code : AppError → String
code node_unavailable = "node_unavailable"
code peer_account_unavailable = "peer_account_unavailable"
code peer_identity_mismatch = "peer_identity_mismatch"
code unsupported_region_operation = "unsupported_operation"
code protocol_definition = "protocol_definition_invalid"
code (config _) = "invalid_configuration"
code invalid_request = "invalid_request"
code unauthorized = "unauthorized"
code forbidden = "forbidden"
code auth_unavailable = "auth_unavailable"
code not_found = "not_found"
code account_unavailable = "account_unavailable"
code upstream_unavailable = "upstream_unavailable"
code timeout = "upstream_timeout"
code transport = "upstream_transport"
code proxy = "upstream_proxy"
code protocol = "upstream_protocol"
code (grpc _) = "upstream_grpc"
code (maintenance _) = "maintenance"
code snapshot_unavailable = "snapshot_unavailable"
code master_unavailable = "master_unavailable"

-- The HTTP status of `into_response`.
unfoldable pub http_status : AppError → ℕ
http_status peer_identity_mismatch = 409
http_status unsupported_region_operation = 501
http_status invalid_request = 400
http_status protocol_definition = 422
http_status unauthorized = 401
http_status forbidden = 403
http_status not_found = 404
http_status node_unavailable = 503
http_status peer_account_unavailable = 503
http_status account_unavailable = 503
http_status upstream_unavailable = 503
http_status snapshot_unavailable = 503
http_status master_unavailable = 503
http_status auth_unavailable = 503
http_status (maintenance _) = 503
http_status (grpc status) = if status == 14 then 503 else 502
http_status timeout = 504
http_status (config _) = 502
http_status transport = 502
http_status proxy = 502
http_status protocol = 502

-- The `grpc_status` member of the body.
unfoldable pub body_grpc_status : AppError → Option ℕ
body_grpc_status (grpc status) = some status
body_grpc_status (maintenance status) = some status
body_grpc_status _ = none
