-- ===== src/Peer/Transport.antt =====
-- src/peer_transport.rs: the errors of the transport of a peer's query.
use sirius_api_proxy.Base.{ℕ, Bool, true, false, List, [], ◌∷◌, ◌==◌, any}

-- `peer_transport::Error`
pub data TransportError : Type 0 where
  config not_sent connect timeout transport protocol : TransportError
  status : ℕ → TransportError

unfoldable pub definitely_not_sent : TransportError → Bool
definitely_not_sent config = true
definitely_not_sent not_sent = true
definitely_not_sent connect = true
definitely_not_sent _ = false

abbrev pub pre_dispatch_statuses : List ℕ
pre_dispatch_statuses = 400 ∷ 401 ∷ 404 ∷ 405 ∷ 413 ∷ 415 ∷ 422 ∷ []

unfoldable pub rejected_before_dispatch : TransportError → Bool
rejected_before_dispatch (status s) = any (λ p. p == s) pre_dispatch_statuses
rejected_before_dispatch _ = false
