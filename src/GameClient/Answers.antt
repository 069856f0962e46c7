-- ===== src/GameClient/Answers.antt =====
-- One unary call (src/client.rs, `execute_once_inner`, from the encoded message to the decoded one)
-- and what it says of the path (`UpstreamAttempt`). Bytes are natural numbers, and headers a
-- function from names to texts; the HTTP library gives the response and its frames.
use sirius_api_proxy.Base.{
  ℕ, ◌+◌, ◌*◌, ◌/◌, ◌%◌, ◌^◌, String, Bool, true, false, not, ◌&&◌, ◌||◌, Option, none, some, List,
  [], ◌∷◌, ◌++◌, ltb, leb, ◌==◌, length, is_none, is_some_and, or_else, filter_option, str_eq,
  starts_with, if◌then◌else◌, Result, ok, err,
}
use sirius_api_proxy.Error.{AppError}
use sirius_api_proxy.PathHealth.{Outcome, healthy, fault}
use sirius_api_proxy.GameClient.Versions.{Headers, application_code, is_text}

-- The gRPC frame of a message: no compression, its length as a u32 in four bytes, and the message.
unfoldable pub to_be_bytes : ℕ → List ℕ
to_be_bytes n = n / 2 ^ 24 % 256 ∷ n / 2 ^ 16 % 256 ∷ n / 2 ^ 8 % 256 ∷ n % 256 ∷ []

unfoldable pub frame_message : List ℕ → List ℕ
frame_message encoded = 0 ∷ to_be_bytes (length encoded % 2 ^ 32) ++ encoded

unfoldable pub from_be_bytes : ℕ → ℕ → ℕ → ℕ → ℕ
from_be_bytes a b c d = a * 2 ^ 24 + b * 2 ^ 16 + c * 2 ^ 8 + d

-- The message of a frame.
unfoldable pub unframe : List ℕ → Result (List ℕ) AppError
unframe (flag ∷ a ∷ b ∷ c ∷ d ∷ bytes) =
    if flag == 0
    then (if from_be_bytes a b c d == length bytes then ok bytes else err AppError.protocol)
    else err AppError.protocol
unframe _ = err AppError.protocol

-- A frame of the response's body.
pub data Frame : Type 0 where
  data_frame : List ℕ → Frame
  trailers : Headers → Frame
  failed : Frame

-- `transport::classify`: the chain of an error's sources, each a proxy's rejection or not.
unfoldable pub classify : List Bool → AppError
classify [] = AppError.transport
classify (true ∷ sources) = AppError.proxy
classify (false ∷ sources) = classify sources

pub data Response : Type 0 where
  unreachable : (rejected : List Bool) → Response
  responded : (success : Bool) → Headers → List Frame → Response

-- `metadata.extend(trailers)`
abbrev pub extend : Headers → Headers → Headers
extend md more = λ key. or_else (more key) (md key)

-- Why the frames could not be read: the path failed, or the answer is too large for the route.
pub data Unread : Type 0 where
  broken too_large : Unread

-- The loop over the frames.
unfoldable pub read_frames : ℕ → List ℕ → Headers → List Frame → Result (List ℕ × Headers) Unread
read_frames limit bytes md [] = ok (bytes, md)
read_frames limit bytes md (failed ∷ frames) = err broken
read_frames limit bytes md (trailers more ∷ frames) =
    read_frames limit bytes (extend md more) frames
read_frames limit bytes md (data_frame d ∷ frames) =
    let rest = read_frames limit (bytes ++ d) md frames in
    if ltb limit (length bytes + length d) then err too_large else rest

-- What an attempt leaves: its result, what it says of the path, the application code, and the answer
-- that `observe` notes.
pub record Attempted : Type 0 where
  pub result : Result (List ℕ) AppError
  pub outcome : Option Outcome
  pub code : Option String
  pub observed : Option (Headers × Option ℕ)

abbrev pub is_grpc : Option String → Bool
is_grpc none = false
is_grpc (some s) = str_eq s "application/grpc" || starts_with s "application/grpc+"

-- What a gRPC answer says of the path.
unfoldable pub path_outcome : Bool → Option ℕ → Option String → Outcome
path_outcome false status code = fault
path_outcome true none code = fault
path_outcome true (some status) code = if status == 14 && is_none code then fault else healthy

-- What it says to the caller.
unfoldable pub answer_result :
    Bool → Option ℕ → Option String → Option String → List ℕ → Result (List ℕ) AppError
answer_result false status code encoding bytes = err AppError.protocol
answer_result true none code encoding bytes = err AppError.protocol
answer_result true (some status) code encoding bytes =
    if not (status == 0)
    then (if is_text code "UNDER_MAINTENANCE"
        then err (AppError.maintenance status)
        else err (AppError.grpc status))
    else if is_some_and encoding (λ s. not (str_eq s "identity"))
    then err AppError.protocol
    else unframe bytes

-- `parse_u16` is the library's reader of a number.
module _ (parse_u16 : String → Option ℕ) where
  abbrev parsed : Option String → Option ℕ
  parsed none = none
  parsed (some s) = parse_u16 s

  unfoldable pub grpc_status : Headers → Option ℕ
  grpc_status md = filter_option (parsed (md "grpc-status")) (λ s. leb s 16)

  unfoldable pub answered : Bool → Result (List ℕ × Headers) Unread → Attempted
  answered fine (err broken) = record {
    result = err AppError.transport;
    outcome = some fault;
    code = none;
    observed = none;
  }
  answered fine (err too_large) = record {
    result = err AppError.protocol;
    outcome = none;
    code = none;
    observed = none;
  }
  answered fine (ok (bytes, md)) = record {
    result = answer_result fine (grpc_status md) (application_code md) (md "grpc-encoding") bytes;
    outcome = some (path_outcome fine (grpc_status md) (application_code md));
    code = application_code md;
    observed = some (md, grpc_status md);
  }

  unfoldable pub attempted : ℕ → Response → Attempted
  attempted limit (unreachable rejected) = record {
    result = err (classify rejected);
    outcome = some fault;
    code = none;
    observed = none;
  }
  attempted limit (responded success md frames) =
      answered (success && is_grpc (md "content-type")) (read_frames limit [] md frames)

-- One attempt on a path; `outcome` is what has been found, and none when the call was cut.
pub record UpstreamAttempt : Type 0 where
  pub deadline : ℕ
  pub sent : Bool
  pub outcome : Option (Option Outcome)

-- `impl Drop for UpstreamAttempt`: what is recorded on the path.
unfoldable pub drop_attempt : ℕ → UpstreamAttempt → Option Outcome
drop_attempt now a = elim a.outcome [
  | some outcome ↦ outcome
  | none ↦ if a.sent && leb a.deadline now then some fault else none
]
