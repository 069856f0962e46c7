-- ===== src/NodeRouting/Replies.antt =====
-- What a node's error becomes for the node that asked it (src/peer.rs and src/node_routing.rs).
use sirius_api_proxy.Base.{◌≡◌, ◌↔◌, Bool, true, false, ◌||◌, arith, err}
use sirius_api_proxy.Error.{AppError}
use sirius_api_proxy.Peer.{failure_from, called, query, Observation}
use sirius_api_proxy.NodeRouting.Calls.{
  failure_error, local_undispatched, undispatched, executed, replied,
}

-- The errors that a typed reply can name.
abbrev pub survives : AppError → Bool
survives AppError.unsupported_region_operation = true
survives AppError.peer_account_unavailable = true
survives AppError.peer_identity_mismatch = true
survives AppError.account_unavailable = true
survives AppError.timeout = true
survives AppError.transport = true
survives AppError.protocol = true
survives (AppError.grpc s) = true
survives (AppError.maintenance s) = true
survives AppError.not_found = true
survives _ = false

abbrev pub is_upstream_unavailable : AppError → Bool
is_upstream_unavailable AppError.upstream_unavailable = true
is_upstream_unavailable _ = false

-- A peer's error reaches the node that asked as the same error exactly when a typed reply can name
-- it, and the node takes the read for not dispatched exactly when the peer refused it before it
-- dispatched it or its upstream path was open.
pub query-executed :
    {Value : Type 0} (redact : Value → Value) (e : AppError) (o : Observation)
    → (((executed (replied (query true redact (err e) o))).0.result ≡ err e) ↔ (survives e ≡ true))
      × ((executed (replied (query true redact (err e) o))).1
          ≡ (local_undispatched e || is_upstream_unavailable e))
unfolding query called executed failure_error failure_from local_undispatched undispatched
query-executed redact e o = ground arith
