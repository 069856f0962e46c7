-- ===== src/GameClient/Calls.antt =====
-- The repetition of anonymous calls (src/client.rs, `execute`), and which calls share an execution.
use sirius_api_proxy.Base.{
  ℕ, suc, ◌-◌, ◌*◌, ◌^◌, min, String, Bool, true, false, not, ◌&&◌, ◌||◌, Option, none, some, List,
  [], ◌∷◌, leb, ◌==◌, str_eq, if◌then◌else◌, Result, err, u64_max,
}
use sirius_api_proxy.Error.{AppError}
use sirius_api_proxy.Accounts.Signal.{version_signal}
use sirius_api_proxy.GameClient.Versions.{version_route}

abbrev pub announcements : String
announcements = "/app.announcement.AnnouncementService/GetList"

abbrev pub announcement : String
announcement = "/app.announcement.AnnouncementService/Get"

abbrev pub server_list : String
server_list = "/app.playerlogin.PlayerLoginService/GetServerList"

-- Public reads that share one execution; `rankings` is the configuration's `coalesce_public_reads`.
unfoldable pub coalesces : Bool → String → Bool
coalesces rankings route =
    str_eq route version_route
    || str_eq route server_list
    || str_eq route announcements
    || str_eq route announcement
    || rankings
      && (str_eq route "/app.event.EventService/GetRankingList"
          || str_eq route "/app.livemusic.LiveMusicService/GetRanking"
          || str_eq route "/app.event.EventService/GetChallengeMusicRanking")

-- How often a call is tried.
unfoldable pub attempts_for : ℕ → String → ℕ
attempts_for anonymous_attempts route =
    if str_eq route version_route
      || str_eq route announcements
      || str_eq route announcement
      || str_eq route server_list
    then anonymous_attempts
    else 1

abbrev pub retryable : {V : Type 0} → Result V AppError → Bool
retryable (err AppError.transport) = true
retryable (err (AppError.grpc status)) = status == 14
retryable _ = false

-- What one attempt brings, with the maintenance flag after it.
pub record Try (V : Type 0) : Type 0 where
  pub result : Result V AppError
  pub code : Option String
  pub maintenance : Bool

-- `retry_delay_ms.saturating_mul(1 << (attempt - 1))`, after the attempt of that number
abbrev pub delay_after : ℕ → ℕ → ℕ
delay_after delay attempt = min (delay * 2 ^ (attempt - 1)) u64_max

-- The result, the number of attempts and the delays between them.
pub record Executed (V : Type 0) : Type 0 where
  pub result : Result V AppError
  pub attempts : ℕ
  pub delays : List ℕ

module _ {V : Type 0} where
  unfoldable pub returns : ℕ → ℕ → Try V → Bool
  returns attempts attempt t =
      leb attempts attempt || not (retryable t.result) || version_signal t.code || t.maintenance

  abbrev pub delayed : ℕ → Option (Executed V) → Option (Executed V)
  delayed d none = none
  delayed d (some x) = some (record x { delays = d ∷ x.delays })

  -- The loop, on what each attempt brings; none when they have not all happened yet.
  unfoldable pub retry_loop : ℕ → ℕ → ℕ → List (Try V) → Option (Executed V)
  retry_loop attempts delay attempt [] = none
  retry_loop attempts delay attempt (t ∷ tries) =
      let rest =
        delayed (delay_after delay (suc attempt)) (retry_loop attempts delay (suc attempt) tries) in
      if returns attempts (suc attempt) t
      then some (record { result = t.result; attempts = suc attempt; delays = [] })
      else rest

  unfoldable pub execute : ℕ → ℕ → String → List (Try V) → Option (Executed V)
  execute anonymous_attempts delay route tries =
      retry_loop (attempts_for anonymous_attempts route) delay 0 tries
