-- ===== src/NodeRouting/Config.antt =====
-- The configuration of node routing (src/node_routing.rs). `Env` stands for the libraries that
-- parse a destination: `destination` is the ASCII origin of a target that the peer transport
-- accepts, and `transport_valid` the test of the transport's policy.
use sirius_api_proxy.Base.{
  ℕ, ℤ, pos, String, Bool, true, false, not, ◌&&◌, ◌||◌, Option, none, some, List, [], ◌∷◌, ltb,
  ◌==◌, within, any, length, str_eq, is_none, if◌then◌else◌, byte_len, all_bytes, is_alphanumeric,
}
use sirius_api_proxy.Error.{AppError, config}

pub record TargetConfig : Type 0 where
  pub name : String
  pub origin : String
  pub token_env : String
  pub priority : ℤ
  pub regional_paths : Bool
  pub allow_http : Bool

pub record Config : Type 0 where
  pub local_priority : Option ℤ
  pub targets : List TargetConfig
  pub timeout_ms : ℕ
  pub max_inflight : ℕ
  pub failure_threshold : ℕ
  pub cooldown_ms : ℕ

abbrev pub default_config : Config
default_config = record {
  local_priority = some (pos 0);
  targets = [];
  timeout_ms = 20000;
  max_inflight = 64;
  failure_threshold = 3;
  cooldown_ms = 30000;
}

pub record Env : Type 0 where
  pub transport_valid : Bool
  pub destination : TargetConfig → Option String

-- A set of the names, or of the destinations, seen so far.
abbrev pub contains : String → List String → Bool
contains s seen = any (λ t. str_eq t s) seen

abbrev pub same_destination : String × Bool → String × Bool → Bool
same_destination (o, r) (o', r') = str_eq o o' && (if r then r' else not r')

unfoldable pub bounds_valid : Config → Bool
bounds_valid c = not (
    ltb 16 (length c.targets)
    || (length c.targets == 0 && is_none c.local_priority)
    || not (within 100 300000 c.timeout_ms)
    || not (within 1 4096 c.max_inflight)
    || not (within 1 100 c.failure_threshold)
    || not (within 100 300000 c.cooldown_ms))

unfoldable pub target_named : List String → TargetConfig → Bool
target_named names t = not (
    str_eq t.name ""
    || ltb 64 (byte_len t.name)
    || str_eq t.name "local"
    || not (all_bytes (λ b. is_alphanumeric b || b == b'-' || b == b'_') t.name)
    || contains t.name names
    || str_eq t.token_env ""
    || ltb 256 (byte_len t.token_env)
    || not (all_bytes (λ b. is_alphanumeric b || b == b'_') t.token_env))

-- The loop over the targets, with the names and destinations before the first of them.
unfoldable pub validate_targets :
    Env → List String → List (String × Bool) → List TargetConfig → Option AppError
validate_targets env names destinations [] = none
validate_targets env names destinations (t ∷ targets) = elim (target_named names t) [
  | false ↦ some (config "invalid or duplicate node name or credential reference")
  | true ↦ elim (env.destination t) [
    | none ↦ some (config "invalid peer destination")
    | some origin ↦ elim (any (same_destination (origin, t.regional_paths)) destinations) [
      | true ↦ some (config "duplicate peer destination")
      | false ↦
          validate_targets env (t.name ∷ names) ((origin, t.regional_paths) ∷ destinations) targets
    ]
  ]
]

-- `validate`; no error is `Ok(())`.
unfoldable pub validate : Env → Config → Option AppError
validate env c =
    if not (bounds_valid c)
    then some (config "invalid node routing bounds")
    else if not env.transport_valid
    then some (config "invalid peer transport policy")
    else validate_targets env [] [] c.targets
