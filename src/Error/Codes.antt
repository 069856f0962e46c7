-- ===== src/Error/Codes.antt =====
-- The codes of src/error.rs as identifiers.
use sirius_api_proxy.Base.{
  ◌≡◌, refl, String, Option, none, some, List, [], ◌∷◌, str_eq, if◌then◌else◌, ap,
}
use sirius_api_proxy.Error.{
  AppError, node_unavailable, peer_account_unavailable, peer_identity_mismatch,
  unsupported_region_operation, protocol_definition, config, invalid_request, unauthorized,
  forbidden, auth_unavailable, not_found, account_unavailable, upstream_unavailable, timeout,
  transport, proxy, protocol, grpc, maintenance, snapshot_unavailable, master_unavailable, code,
}

-- The variant alone: what a variant carries is replaced by a fixed value.
abbrev pub variant : AppError → AppError
variant (config _) = config ""
variant (grpc _) = grpc 0
variant (maintenance _) = maintenance 0
variant e = e

abbrev variants : List AppError
variants =
    node_unavailable
    ∷ peer_account_unavailable
    ∷ peer_identity_mismatch
    ∷ unsupported_region_operation
    ∷ protocol_definition
    ∷ config ""
    ∷ invalid_request
    ∷ unauthorized
    ∷ forbidden
    ∷ auth_unavailable
    ∷ not_found
    ∷ account_unavailable
    ∷ upstream_unavailable
    ∷ timeout
    ∷ transport
    ∷ proxy
    ∷ protocol
    ∷ grpc 0
    ∷ maintenance 0
    ∷ snapshot_unavailable
    ∷ master_unavailable
    ∷ []

find_code : String → List AppError → Option AppError
find_code c [] = none
find_code c (e ∷ es) = if str_eq (code e) c then some e else find_code c es

find-code : (e : AppError) → find_code (code e) variants ≡ some (variant e)
unfolding find_code code
find-code node_unavailable = refl
find-code _ = refl

-- A code names one variant: two errors with the same code differ at most in what they carry.
pub code-determines-variant : (e e' : AppError) → code e ≡ code e' → variant e ≡ variant e'
code-determines-variant e e' h = cc (find-code e, find-code e', ap (λ c. find_code c variants) h)
