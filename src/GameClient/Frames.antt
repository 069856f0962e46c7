-- ===== src/GameClient/Frames.antt =====
-- Framing and unframing of messages, and what answers say of the path (src/client.rs).
use sirius_api_proxy.Base.{
  ℕ, ◌/◌, ◌%◌, ◌^◌, ◌<◌, ◌≡◌, refl, String, Bool, true, false, not, ◌&&◌, inl, inr, Option, none,
  some, List, [], ◌∷◌, arith, Bool-cases, length, ◌==◌, is_none, if◌then◌else◌, Result, ok, err,
  is_some_and, str_eq,
}
use sirius_api_proxy.Error.{AppError}
use sirius_api_proxy.PathHealth.{Outcome, healthy, fault}
use sirius_api_proxy.GameClient.Versions.{Headers, is_text, application_code}
use sirius_api_proxy.GameClient.Answers.{
  to_be_bytes, from_be_bytes, frame_message, unframe, Response, unreachable, responded, attempted,
  answered, read_frames, path_outcome, answer_result, broken, too_large, Unread, classify,
  grpc_status, is_grpc, Attempted,
}

from-to_be_bytes :
    (n : ℕ)
    → n < 4294967296
    → from_be_bytes (n / 2 ^ 24 % 256) (n / 2 ^ 16 % 256) (n / 2 ^ 8 % 256) (n % 256) ≡ n
unfolding from_be_bytes
from-to_be_bytes n h = omega (arith, h)

-- A message of less than 4 GiB is read back from its frame.
pub unframe-frame_message :
    (encoded : List ℕ) → length encoded < 4294967296 → unframe (frame_message encoded) ≡ ok encoded
unfolding unframe frame_message to_be_bytes
unframe-frame_message encoded h =
    let n = length encoded % 4294967296 in
    let same : n ≡ length encoded = omega (arith, h) in
    ground (arith, from-to_be_bytes n (omega arith), same)

-- The response is an HTTP success that declares gRPC.
abbrev pub is_fine : Response → Bool
is_fine (unreachable rejected) = false
is_fine (responded success md frames) = success && is_grpc (md "content-type")

abbrev pub is_healthy : Option Outcome → Bool
is_healthy (some healthy) = true
is_healthy _ = false

abbrev pub is_fault : Option Outcome → Bool
is_fault (some fault) = true
is_fault _ = false

-- What a protocol error says of the path: nothing when the answer was cut for its length; a fault when
-- the response is no gRPC or has no status; and that it works otherwise.
abbrev pub protocol_says : Bool → Option (Headers × Option ℕ) → Option Outcome → Bool
protocol_says fine none outcome = is_none outcome
protocol_says fine (some (md, none)) outcome = is_fault outcome
protocol_says fine (some (md, some status)) outcome =
    if fine then is_healthy outcome else is_fault outcome

-- What an attempt says of the path, by its result, its application code and what was observed.
abbrev pub says :
    Bool
    → Result (List ℕ) AppError
    → Option String
    → Option (Headers × Option ℕ)
    → Option Outcome
    → Bool
says fine (ok bytes) code observed outcome = is_healthy outcome
says fine (err (AppError.maintenance status)) code observed outcome =
    is_healthy outcome && is_text code "UNDER_MAINTENANCE"
says fine (err (AppError.grpc status)) code observed outcome =
    if status == 14 && is_none code then is_fault outcome else is_healthy outcome
says fine (err AppError.protocol) code observed outcome = protocol_says fine observed outcome
says fine (err e) code observed outcome = is_fault outcome && is_none observed

abbrev pub agrees : Bool → Attempted → Bool
agrees fine a = says fine a.result a.code a.observed a.outcome

unframe-says :
    (code : Option String) (md : Headers) (bytes : List ℕ) (status : ℕ)
    → says true (unframe bytes) code (some (md, some status)) (some healthy) ≡ true
unfolding unframe
unframe-says code md [] status = refl
unframe-says code md (a ∷ []) status = refl
unframe-says code md (a ∷ b ∷ []) status = refl
unframe-says code md (a ∷ b ∷ c ∷ []) status = refl
unframe-says code md (a ∷ b ∷ c ∷ d ∷ []) status = refl
unframe-says code md (flag ∷ a ∷ b ∷ c ∷ d ∷ bytes) status = elim (Bool-cases (flag == 0)) [
  | inr f ↦ simp f refl
  | inl f ↦ elim (Bool-cases (from_be_bytes a b c d == length bytes)) [
    | inl l ↦ simp (f, l) refl
    | inr l ↦ simp (f, l) refl
  ]
]

is_text-some : (code : Option String) (t : String) → is_text code t ≡ true → is_none code ≡ false
is_text-some none t h = absurd (ground (arith, h))
is_text-some (some c) t h = refl

bare_lem :
    (status : ℕ) → is_healthy (some (if status == 14 && false then fault else healthy)) ≡ true
bare_lem status = ground arith

grpc-says :
    (status : ℕ) (code : Option String) (md : Headers)
    → says true
        (err (AppError.grpc status))
        code
        (some (md, some status))
        (some (if status == 14 && is_none code then fault else healthy))
      ≡ true
grpc-says status code md = elim (Bool-cases (status == 14 && is_none code)) [
  | inl b ↦ simp b refl
  | inr b ↦ simp b refl
]

answer-says :
    (fine : Bool) (status : Option ℕ) (code encoding : Option String) (md : Headers)
    → (bytes : List ℕ)
    → says fine
        (answer_result fine status code encoding bytes)
        code
        (some (md, status))
        (some (path_outcome fine status code))
      ≡ true
unfolding answer_result path_outcome
answer-says false none code encoding md bytes = refl
answer-says false (some status) code encoding md bytes = refl
answer-says true none code encoding md bytes = refl
answer-says true (some status) code encoding md bytes = elim (Bool-cases (status == 0)) [
  | inl z ↦
      let n : (status == 14) ≡ false = ground (arith, z) in
      elim (Bool-cases (is_some_and encoding (λ s. not (str_eq s "identity")))) [
        | inl e ↦ simp (z, n, e) refl
        | inr e ↦ simp (z, n, e) (unframe-says code md bytes status)
      ]
  | inr z ↦ elim (Bool-cases (is_text code "UNDER_MAINTENANCE")) [
    | inl m ↦
        let some_code : is_none code ≡ false = is_text-some code "UNDER_MAINTENANCE" m in
        simp (z, m, some_code) (simp (bare_lem status) refl)
    | inr m ↦ simp (z, m) (grpc-says status code md)
  ]
]

classify-says :
    (rejected : List Bool) → says false (err (classify rejected)) none none (some fault) ≡ true
unfolding classify
classify-says [] = refl
classify-says (true ∷ sources) = refl
classify-says (false ∷ sources) = classify-says sources

answered-agrees :
    (parse_u16 : String → Option ℕ) (fine : Bool) (r : Result (List ℕ × Headers) Unread)
    → agrees fine (answered parse_u16 fine r) ≡ true
unfolding answered
answered-agrees parse_u16 fine (err broken) = refl
answered-agrees parse_u16 fine (err too_large) = refl
answered-agrees parse_u16 fine (ok (bytes, md)) =
    answer-says fine (grpc_status parse_u16 md) (application_code md) (md "grpc-encoding") md bytes

-- What an attempt says of the path is decided by its result, its application code and what was
-- observed of the answer. A message and a maintenance say that the path works, and a maintenance has
-- its code. A gRPC error says so too, but for a bare UNAVAILABLE (14 without an application code),
-- which is a fault. A call that the game did not answer is a fault. A protocol error says nothing when
-- the answer was cut for its length, is a fault when the response is no gRPC success or has no valid
-- status, and says that the path works otherwise.
pub attempted-agrees :
    (parse_u16 : String → Option ℕ) (limit : ℕ) (r : Response)
    → agrees (is_fine r) (attempted parse_u16 limit r) ≡ true
unfolding attempted
attempted-agrees parse_u16 limit (unreachable rejected) = classify-says rejected
attempted-agrees parse_u16 limit (responded success md frames) =
    answered-agrees parse_u16 (success && is_grpc (md "content-type"))
      (read_frames limit [] md frames)
