-- ===== src/ResponseCache/Tests.antt =====
-- The cache (src/response_cache.rs) at concrete inputs.
use sirius_api_proxy.Base.{ℕ, ◌+◌, ◌≡◌, refl, none, some, List, [], ◌∷◌, arith}
use sirius_api_proxy.ResponseCache.{
  memory, Lifetimes, validate, config_valid, lifetimes_valid, announcements,
}
use sirius_api_proxy.ResponseCache.Memory.{Entry, empty, new_entry, put_with_ttl, get_with_state}
use sirius_api_proxy.ResponseCache.Bounds.{Event, put, IsBounded, run, run-IsBounded}
use sirius_api_proxy.ResponseCache.Reads.{retained, get_with_state-put}

abbrev lifetimes : Lifetimes
lifetimes = record {
  ttl_ms = 1000;
  stale_while_revalidate_ms = 500;
  route_ttl_ms = (announcements, 60000) ∷ [];
}

-- Payloads are numbers, and an entry's JSON is 300 bytes and the number longer.
abbrev encoded_len : Entry ℕ → ℕ
encoded_len e = 300 + e.value

validate_lem : validate (memory lifetimes 2 1024 600) ≡ none
unfolding validate config_valid lifetimes_valid
validate_lem = refl

-- The last put of `events` does not fit beside the others.
abbrev events : List (Event ℕ)
events =
    put 10 1 "a" 100 none
    ∷ put 20 2 "b" 50 (some 2000)
    ∷ put 30 3 "c" 250 none
    ∷ put 40 4 "c" 9000 none
    ∷ []

run-IsBounded_example :
    IsBounded 2 1024 (run encoded_len (memory lifetimes 2 1024 600) empty events)
run-IsBounded_example = run-IsBounded encoded_len lifetimes 2 1024 600 validate_lem events

get_with_state-put_example :
    get_with_state 1200 "a"
      (put_with_ttl encoded_len (memory lifetimes 2 1024 600) 10 1 "a" 100 none empty)
    ≡ retained encoded_len lifetimes 2 1024 600 10 1 "a" 100 none empty 1200
unfolding new_entry
get_with_state-put_example =
    get_with_state-put encoded_len lifetimes 2 1024 600 10 1 "a" 100 none empty 1200 (omega arith)
      (omega arith)
