-- ===== src/ResponseCache.antt =====
-- src/response_cache.rs: the storage of responses in memory. The clock's reading in milliseconds is
-- an argument. So is the length of an entry's JSON. Every method holds the mutex for its whole
-- effect, but for a read, which drops an expired entry under a second lock.
pub mod Memory
pub mod Totals
pub mod Bounds
pub mod Reads
mod Tests
use sirius_api_proxy.Base.{
  ℕ, String, Bool, true, false, not, ◌&&◌, ◌||◌, Option, none, some, List, [], ◌∷◌, ltb, leb, ◌==◌,
  within, all, str_eq, if◌then◌else◌, byte_len, all_bytes, is_alphanumeric,
}
use sirius_api_proxy.Error.{AppError, config}

pub data Route : Type 0 where
  announcements announcement event_rankings song_rankings challenge_rankings : Route

-- `Route::from_rpc`, by the names of src/routes.rs
unfoldable pub from_rpc : String → Option Route
from_rpc rpc =
    if str_eq rpc "/app.announcement.AnnouncementService/GetList"
    then some announcements
    else if str_eq rpc "/app.announcement.AnnouncementService/Get"
    then some announcement
    else if str_eq rpc "/app.event.EventService/GetRankingList"
    then some event_rankings
    else if str_eq rpc "/app.livemusic.LiveMusicService/GetRanking"
    then some song_rankings
    else if str_eq rpc "/app.event.EventService/GetChallengeMusicRanking"
    then some challenge_rankings
    else none

-- The members that both backends have; `route_ttl_ms` is a map.
pub record Lifetimes : Type 0 where
  pub ttl_ms : ℕ
  pub stale_while_revalidate_ms : ℕ
  pub route_ttl_ms : List (Route × ℕ)

pub data Config : Type 0 where
  disabled : Config
  memory : Lifetimes → (max_entries max_bytes max_entry_bytes : ℕ) → Config
  redis :
      Lifetimes → (url_env namespace : String) → (max_entry_bytes operation_timeout_ms : ℕ) → Config

unfoldable pub lifetimes_valid : Lifetimes → Bool
lifetimes_valid l =
    within 1 300000 l.ttl_ms
    && leb l.stale_while_revalidate_ms 300000
    && all (λ (route, ttl). leb ttl 300000) l.route_ttl_ms

unfoldable pub config_valid : Config → Bool
config_valid disabled = true
config_valid (memory l max_entries max_bytes max_entry_bytes) =
    lifetimes_valid l
    && within 1 100000 max_entries
    && within 1024 1073741824 max_bytes
    && within 256 8388608 max_entry_bytes
    && leb max_entry_bytes max_bytes
config_valid (redis l url_env namespace max_entry_bytes operation_timeout_ms) =
    not (str_eq url_env "")
    && not (str_eq namespace "")
    && leb (byte_len namespace) 64
    && all_bytes (λ b. is_alphanumeric b || b == b'_' || b == b'-') namespace
    && lifetimes_valid l
    && within 256 8388608 max_entry_bytes
    && within 1 2000 operation_timeout_ms

-- `validate`; no error is `Ok(())`.
unfoldable pub validate : Config → Option AppError
validate c = if config_valid c then none else some (config "invalid response cache configuration")

abbrev pub lifetimes : Config → Option Lifetimes
lifetimes disabled = none
lifetimes (memory l max_entries max_bytes max_entry_bytes) = some l
lifetimes (redis l url_env namespace max_entry_bytes operation_timeout_ms) = some l

abbrev pub same_route : Route → Route → Bool
same_route announcements announcements = true
same_route announcement announcement = true
same_route event_rankings event_rankings = true
same_route song_rankings song_rankings = true
same_route challenge_rankings challenge_rankings = true
same_route _ _ = false

-- `route_ttl_ms.get(&route).unwrap_or(ttl_ms)`
unfoldable pub route_ttl : Route → ℕ → List (Route × ℕ) → ℕ
route_ttl route default_ttl [] = default_ttl
route_ttl route default_ttl ((r, ttl) ∷ rest) =
    let later = route_ttl route default_ttl rest in if same_route route r then ttl else later

abbrev positive : ℕ → Option ℕ
positive ttl = if ltb 0 ttl then some ttl else none

-- `Cache::ttl`
unfoldable pub ttl : Config → String → Option ℕ
ttl c rpc = elim (from_rpc rpc) [
  | none ↦ none
  | some route ↦ elim (lifetimes c) [
    | none ↦ none
    | some l ↦ positive (route_ttl route l.ttl_ms l.route_ttl_ms)
  ]
]

-- `Cache::stale_window`
unfoldable pub stale_window : Config → ℕ
stale_window c = elim (lifetimes c) [ none ↦ 0 | some l ↦ l.stale_while_revalidate_ms ]
