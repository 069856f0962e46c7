-- ===== src/SdkSession.antt =====
-- src/sdk_session.rs: one SDK identity's session, shared by the accounts of every region, and its
-- state file. Times are in seconds. What is not under src/ is in the record `Env`: the reader of a
-- token's `exp` (base64 and JSON) and the test of a header value. A negative `exp` is read as 0.
-- The state file's text is read by a JSON library: `Disk` says what a read of it finds.
pub mod Events
pub mod Generations
pub mod Restart
pub mod Consistency
mod Tests
use sirius_api_proxy.Base.{
  ℕ, ◌+◌, ℤ, String, Bool, true, false, not, ◌&&◌, ◌||◌, Option, none, some, ltb, leb, ◌==◌, str_eq,
  is_some, is_none, is_some_and, is_none_or, filter_option, if◌then◌else◌, increment_u64, byte_len,
}

pub record SdkAccount : Type 0 where
  pub uid : String
  pub access_key : String
  pub id_token : String
  pub mid : Option String

pub record Env : Type 0 where
  pub token_expiry : String → Option ℕ
  pub is_header_value : String → Bool

-- An SDK refusal: the SDK's numeric code and when it was received.
pub record Refusal : Type 0 where
  pub code : ℤ
  pub at : ℕ

pub record State : Type 0 where
  pub account : Option SdkAccount
  pub validated_at : Option ℕ
  pub generation : ℕ
  pub stale : Bool
  pub refusal : Option Refusal

abbrev pub default_state : State
default_state = record {
  account = none;
  validated_at = none;
  generation = 0;
  stale = false;
  refusal = none;
}

pub record Persisted : Type 0 where
  pub schema : ℕ
  pub uid : String
  pub access_key_fingerprint : String
  pub id_token : String
  pub mid : Option String
  pub validated_at : Option ℕ
  pub refusal : Option Refusal

-- What a read of the state file finds: no file, a file that is not private or cannot be read, one
-- that is not the JSON of a `Persisted`, or a `Persisted`.
pub data Disk : Type 0 where
  missing unreadable malformed : Disk
  holds : Persisted → Disk

pub record SdkSession : Type 0 where
  pub uid : String
  pub access_key : String
  pub access_key_fingerprint : String
  -- Whether a state file is configured.
  pub file : Bool
  pub attempts : ℕ
  pub revalidations : ℕ
  pub state : State

-- A session beside the file that other processes write too.
pub record World : Type 0 where
  pub session : SdkSession
  pub disk : Disk

abbrev pub schema_version : ℕ
schema_version = 1

abbrev pub expiry_margin_seconds : ℕ
expiry_margin_seconds = 300

pub record Loaded : Type 0 where
  pub account : Option SdkAccount
  pub validated_at : Option ℕ
  pub refusal : Option Refusal

module _ (env : Env) where
  unfoldable pub expiring : String → ℕ → Bool
  expiring id_token now =
      is_some_and (env.token_expiry id_token) (λ exp. leb exp (now + expiry_margin_seconds))

  unfoldable pub header_safe : String → Bool
  header_safe value =
      not (str_eq value "") && leb (byte_len value) 4096 && env.is_header_value value

  -- `State::reusable`
  unfoldable pub reusable : State → ℕ → Option (SdkAccount × ℕ)
  reusable s now = if s.stale || is_some s.refusal then none else elim s.account [
    | none ↦ none
    | some a ↦ if expiring a.id_token now then none else some (a, s.generation)
  ]

  -- The account of `read`, from a file that belongs to the identity.
  unfoldable pub loaded_account : SdkSession → Persisted → ℕ → Option SdkAccount
  loaded_account session p now =
      if is_none p.refusal
        && header_safe p.id_token
        && is_some (env.token_expiry p.id_token)
        && not (expiring p.id_token now)
        && is_none_or p.mid header_safe
      then some (record {
        uid = session.uid;
        access_key = session.access_key;
        id_token = p.id_token;
        mid = p.mid;
      })
      else none

  unfoldable pub read : SdkSession → Disk → ℕ → Option Loaded
  read session missing now = none
  read session unreadable now = none
  read session malformed now = none
  read session (holds p) now =
      if p.schema == schema_version
        && str_eq p.uid session.uid
        && str_eq p.access_key_fingerprint session.access_key_fingerprint
      then some (record {
        account = loaded_account session p now;
        validated_at = p.validated_at;
        refusal = p.refusal;
      })
      else none

  -- The closure `newer` of `merge`.
  abbrev newer : State → ℕ → Bool
  newer s at = is_none_or s.validated_at (λ v. ltb v at) && is_none_or s.refusal (λ r. ltb r.at at)

  abbrev adopt_account : Option SdkAccount → State → State
  adopt_account none s = s
  adopt_account (some a) s = record s {
    account = some a;
    generation = increment_u64 s.generation;
    stale = false;
    refusal = none;
  }

  abbrev adopt_validation : Option ℕ → Option SdkAccount → State → State
  adopt_validation none account s = s
  adopt_validation (some at) account s = adopt_account account (record s { validated_at = some at })

  abbrev adopt : Option Refusal → Loaded → State → State
  adopt (some refusal) disk s = record s {
    account = none;
    generation = increment_u64 s.generation;
    stale = false;
    refusal = some refusal;
  }
  adopt none disk s = adopt_validation (filter_option disk.validated_at (newer s)) disk.account s

  -- `merge`, once the file has been read.
  unfoldable pub merge_loaded : Option Loaded → State → State
  merge_loaded none s = s
  merge_loaded (some disk) s = adopt (filter_option disk.refusal (λ r. newer s r.at)) disk s

  unfoldable pub merge : SdkSession → Disk → ℕ → State → State
  merge session disk now s = if session.file then merge_loaded (read session disk now) s else s

  -- What `persist` writes: the account only while it is not stale.
  unfoldable pub persisted : SdkSession → State → Persisted
  persisted session s = record {
    schema = schema_version;
    uid = session.uid;
    access_key_fingerprint = session.access_key_fingerprint;
    id_token = elim s.account [ none ↦ "" | some a ↦ if s.stale then "" else a.id_token ];
    mid = elim s.account [ none ↦ none | some a ↦ if s.stale then none else a.mid ];
    validated_at = s.validated_at;
    refusal = s.refusal;
  }

  abbrev pub with_state : World → State → World
  with_state w s = record w { session = record w.session { state = s } }

  -- `persist`; `written` says whether the file could be replaced. The old file stays otherwise.
  unfoldable pub persist : ℕ → Bool → World → World
  persist now written w =
      if w.session.file
      then (let s = merge w.session w.disk now w.session.state in
          record {
            session = record w.session { state = s };
            disk = if written then holds (persisted w.session s) else w.disk;
          })
      else w

  unfoldable pub mark_stale : ℕ → Bool → ℕ → World → World
  mark_stale now written generation w =
      if not (w.session.state.generation == generation) || w.session.state.stale
      then w
      else (let w' = with_state w (record w.session.state { stale = true }) in
          if is_some w.session.state.account then persist now written w' else w')

  unfoldable pub validated : ℕ → Bool → SdkAccount → World → World
  validated now written account w =
      let s = w.session.state in
      let session = record w.session { revalidations = increment_u64 w.session.revalidations } in
      persist now written (
        with_state (record w { session = session })
          (record {
            account = some account;
            validated_at = some now;
            generation = increment_u64 s.generation;
            stale = false;
            refusal = none;
          }))

  unfoldable pub refused : ℕ → Bool → ℤ → World → World
  refused now written code w =
      let s = w.session.state in
      persist now written (
        with_state w (record s {
          account = none;
          generation = increment_u64 s.generation;
          stale = false;
          refusal = some (record { code = code; at = now });
        }))

  -- The end of `exclusive`: the lock is held, and the file is read.
  unfoldable pub exclusive : ℕ → World → World
  exclusive now w = with_state w (merge w.session w.disk now w.session.state)

  pub data Label : Type 0 where
    refused_label none_label stale_label expired_label valid_label : Label

  unfoldable pub label : ℕ → State → Label
  label now s = if is_some s.refusal then refused_label else elim s.account [
    | none ↦ none_label
    | some a ↦
        if s.stale
        then stale_label
        else if expiring a.id_token now
        then expired_label
        else valid_label
  ]

  -- The session that `SdkSessions::session` makes when no region holds one for the identity.
  unfoldable pub open_session : ℕ → String → String → String → Bool → Disk → World
  open_session now uid access_key fingerprint file disk = exclusive now (record {
    session = record {
      uid = uid;
      access_key = access_key;
      access_key_fingerprint = fingerprint;
      file = file;
      attempts = 0;
      revalidations = 0;
      state = default_state;
    };
    disk = disk;
  })

-- `base`
abbrev pub base : State → Option SdkAccount
base s = s.account

-- `refusal(now, retry)`
unfoldable pub refusal_in_force : State → ℕ → ℕ → Option Refusal
refusal_in_force s now retry = filter_option s.refusal (λ r. ltb now (r.at + retry))

-- `completed`
unfoldable pub completed : SdkSession → SdkSession
completed session = record session { attempts = increment_u64 session.attempts }

unfoldable pub keepalive_due : State → ℕ → ℕ → Bool
keepalive_due s now interval =
    is_none s.refusal && is_some_and s.validated_at (λ at. leb (at + interval) now)
