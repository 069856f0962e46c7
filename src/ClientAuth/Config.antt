-- ===== src/ClientAuth/Config.antt =====
-- The configuration of client authorization (src/client_auth.rs) and the transport policy of the
-- database that it reuses (src/master_database.rs, `Config::validate`).
use sirius_api_proxy.Base.{
  ℕ, String, Bool, true, not, ◌&&◌, ◌||◌, Option, none, some, List, [], ◌∷◌, ltb, leb, ◌==◌, within,
  is_some, is_some_and, any, str_eq, if◌then◌else◌, byte_len, all_bytes, is_alphanumeric, Result,
  ok, err, bind,
}
use sirius_api_proxy.Error.{AppError, config}

pub record DatabaseConfig : Type 0 where
  pub host : String
  pub port : ℕ
  pub database : String
  pub username : String
  pub password_env : String
  pub root_certificate : Option String
  pub plaintext_loopback : Bool
  pub timeout_seconds : ℕ
  pub read_timeout_seconds : Option ℕ
  pub keep_snapshots : ℕ
  pub max_read_connections : ℕ

pub record Metadata : Type 0 where
  pub is_file : Bool
  pub is_symlink : Bool
  pub len : ℕ

pub record Env : Type 0 where
  pub is_loopback : String → Bool
  pub symlink_metadata : String → Option Metadata
  pub var : String → Option String
  pub is_header_value : String → Bool

-- `char::is_control`, on its code
abbrev pub is_control : ℕ → Bool
is_control c = ltb c 32 || within 127 159 c

-- `|s: &str| !s.is_empty() && s.len() <= 256 && !s.chars().any(char::is_control)`
unfoldable pub text : String → Bool
text s = not (str_eq s "") && leb (byte_len s) 256 && all_bytes (λ c. not (is_control c)) s

abbrev pub is_separator : ℕ → Bool
is_separator c = c == b'/' || c == b'\\' || c == b'@' || c == b'?' || c == b'#' || c == b' '

unfoldable pub env_name_valid : String → Bool
env_name_valid s =
    not (str_eq s "") && leb (byte_len s) 128 && all_bytes (λ b. is_alphanumeric b || b == b'_') s

unfoldable pub certificate_valid : Env → Option String → Bool
certificate_valid env none = true
certificate_valid env (some path) =
    is_some_and (env.symlink_metadata path)
      (λ m. m.is_file && not m.is_symlink && leb m.len 1048576 && not (m.len == 0))

-- `master_database::Config::validate`
unfoldable pub database_valid : Env → DatabaseConfig → Bool
database_valid env d =
    text d.host
    && all_bytes (λ c. not (is_separator c)) d.host
    && text d.database
    && text d.username
    && not (d.port == 0)
    && env_name_valid d.password_env
    && within 1 600 d.timeout_seconds
    && not (is_some_and d.read_timeout_seconds (λ s. not (within 1 600 s)))
    && within 1 10000 d.keep_snapshots
    && within 1 64 d.max_read_connections
    && not (d.plaintext_loopback && not (env.is_loopback d.host))
    && not (d.plaintext_loopback && is_some d.root_certificate)
    && certificate_valid env d.root_certificate

pub record Database : Type 0 where
  pub host : String
  pub port : ℕ
  pub database : String
  pub username : String
  pub password_env : String
  pub root_certificate : Option String
  pub plaintext_loopback : Bool
  pub timeout_seconds : ℕ
  pub max_connections : ℕ

pub record Config : Type 0 where
  pub signing_key_env : String
  pub cache_seconds : ℕ
  pub cache_entries : ℕ
  pub database : Database

abbrev pub invalid : AppError
invalid = config "invalid client authorization configuration"

unfoldable pub connection : Config → DatabaseConfig
connection c = record {
  host = c.database.host;
  port = c.database.port;
  database = c.database.database;
  username = c.database.username;
  password_env = c.database.password_env;
  root_certificate = c.database.root_certificate;
  plaintext_loopback = c.database.plaintext_loopback;
  timeout_seconds = c.database.timeout_seconds;
  read_timeout_seconds = none;
  keep_snapshots = 1;
  max_read_connections = c.database.max_connections;
}

unfoldable pub config_valid : Env → Config → Bool
config_valid env c =
    env_name_valid c.signing_key_env
    && not (str_eq c.signing_key_env c.database.password_env)
    && leb c.cache_seconds 3600
    && within 1 100000 c.cache_entries
    && within 1 60 c.database.timeout_seconds
    && database_valid env (connection c)

unfoldable pub validate : Env → Config → Result Unit AppError
validate env c = if config_valid env c then ok tt else err invalid

unfoldable pub ambient_libpq_configuration : (String → Bool) → Bool
ambient_libpq_configuration is_set =
    any is_set ("PGSSLROOTCERT" ∷ "PGSSLCERT" ∷ "PGSSLKEY" ∷ "PGOPTIONS" ∷ [])

-- Whether `connect_options` gives options.
unfoldable pub options_valid : Env → DatabaseConfig → Bool
options_valid env d =
    database_valid env d
    && not (ambient_libpq_configuration (λ name. is_some (env.var name)))
    && is_some_and (env.var d.password_env)
        (λ password. not (str_eq password "") && leb (byte_len password) 4096)

-- `config::secret` (src/config.rs), on the variable's value
unfoldable pub secret_value : Env → Option String → Result String AppError
secret_value env none = err (config "missing secret environment variable")
secret_value env (some value) =
    if str_eq value "" || not (env.is_header_value value)
    then err (config "empty or invalid secret environment variable")
    else ok value

unfoldable pub secret : Env → String → Result String AppError
secret env name = secret_value env (env.var name)

-- What `Authenticator::new` keeps; `ttl` is in the unit of the instants, seconds.
pub record Authenticator : Type 0 where
  pub key : String
  pub region : String
  pub connections : ℕ
  pub timeout : ℕ
  pub ttl : ℕ
  pub capacity : ℕ

abbrev pub contains : String → List String → Bool
contains s l = any (str_eq s) l

unfoldable pub secrets_checked :
    Env → Config → String → List String → String → String → Result Authenticator AppError
secrets_checked env c region protected key password =
    if ltb (byte_len key) 32
      || ltb 4096 (byte_len key)
      || str_eq key password
      || contains key protected
    then err (
        config
          "client token signing key must be at least 32 bytes and distinct from other credentials")
    else if contains password protected
    then err invalid
    else if not (options_valid env (connection c))
    then err invalid
    else ok (record {
      key = key;
      region = region;
      connections = c.database.max_connections;
      timeout = c.database.timeout_seconds;
      ttl = c.cache_seconds;
      capacity = c.cache_entries;
    })

unfoldable pub new : Env → Config → String → List String → Result Authenticator AppError
new env c region protected = bind (validate env c) (λ u. bind (secret env c.signing_key_env) (λ key.
    bind (secret env c.database.password_env)
      (λ password. secrets_checked env c region protected key password)))
