-- ===== src/Accounts/Login/Window.antt =====
-- The login rate limits over a rolling day (src/global_account.rs, `prune` and `next_allowed`).
use sirius_api_proxy.Base.{
  ℕ, suc, ◌+◌, ◌-◌, ◌≤◌, ◌<◌, ◌≡◌, refl, ◌∙◌, Option, none, some, List, [], ◌∷◌, ◌++◌, arith, leb,
  length, if◌then◌else◌, inl, inr, length-append, Option-cases, ◌⊎◌,
}
use sirius_api_proxy.Accounts.Health.{max_option}
use sirius_api_proxy.Accounts.Login.{
  LoginConfig, LoginState, default_login, day, drop_old, prune, next_allowed, by_interval, by_cap,
}

-- The login state beside every attempt that was ever made, oldest first.
pub record Log : Type 0 where
  pub state : LoginState
  pub history : List ℕ

abbrev pub decide : ℕ → List ℕ → LoginState → Option ℕ → Log
decide now history s none = record {
  state = record s { attempts = s.attempts ++ now ∷ [] };
  history = history ++ now ∷ [];
}
decide now history s (some until) = record { state = s; history = history }

-- A login that is asked for at `now` is attempted, and recorded, if `next_allowed` names no later
-- instant.
unfoldable pub ask : LoginConfig → Log → ℕ → Log
ask config l now = let (s, later) = next_allowed config now l.state in decide now l.history s later

unfoldable pub ask_all : LoginConfig → Log → List ℕ → Log
ask_all config l [] = l
ask_all config l (now ∷ times) = ask_all config (ask config l now) times

-- The attempts made less than a day before `now`.
unfoldable pub recent : ℕ → List ℕ → ℕ
recent now [] = 0
recent now (t ∷ times) = if leb day (now - t) then recent now times else suc (recent now times)

abbrev pub AllBefore : ℕ → List ℕ → Type 0
AllBefore now [] = Unit
AllBefore now (t ∷ times) = (t ≤ now) × AllBefore now times

recent-append : (now : ℕ) (xs ys : List ℕ) → recent now (xs ++ ys) ≡ recent now xs + recent now ys
unfolding recent
recent-append now [] ys = omega arith
recent-append now (x ∷ xs) ys = ground (arith, recent-append now xs ys)

recent-le-length : (now : ℕ) (xs : List ℕ) → recent now xs ≤ length xs
unfolding recent
recent-le-length now [] = omega arith
recent-le-length now (x ∷ xs) = ground (arith, recent-le-length now xs)

-- What a loop of `prune` takes from the front is no longer recent, now or later.
drop_old-split :
    (now later : ℕ) (times : List ℕ)
    → now ≤ later
    → recent later times ≡ recent later (drop_old now times)
unfolding drop_old recent
drop_old-split now later [] h = refl
drop_old-split now later (t ∷ times) h = ground (arith, drop_old-split now later times h)

-- As many of the attempts ever made are recent as of those that the state still holds.
record Holds (config : LoginConfig) (later : ℕ) (l : Log) : Type 0 where
  held : recent later l.history ≡ recent later l.state.attempts
  cap : length l.state.attempts ≤ config.max_logins_per_day

length-drop_old : (now : ℕ) (times : List ℕ) → length (drop_old now times) ≤ length times
unfolding drop_old
length-drop_old now [] = omega arith
length-drop_old now (t ∷ times) = ground (arith, length-drop_old now times)

abbrev pruned : ℕ → Log → List ℕ
pruned now l = drop_old now l.state.attempts

by_cap-none :
    (config : LoginConfig) (earlier : Option ℕ) (q : List ℕ)
    → 0 < config.max_logins_per_day
    → max_option earlier (by_cap config q) ≡ none
    → length q < config.max_logins_per_day
by_cap-none config earlier [] positive h = positive
by_cap-none config earlier (t ∷ q) positive h = ground arith

-- The two outcomes of one request.
ask_cases :
    (config : LoginConfig) (l : Log) (now : ℕ)
    → 0 < config.max_logins_per_day
    → (((ask config l now).state.attempts ≡ pruned now l ++ now ∷ [])
        × ((ask config l now).history ≡ l.history ++ now ∷ [])
        × (length (pruned now l) < config.max_logins_per_day))
      ⊎ (((ask config l now).state.attempts ≡ pruned now l)
          × ((ask config l now).history ≡ l.history))
unfolding ask next_allowed prune
ask_cases config l now positive =
    let q = pruned now l in
    let early = by_interval config now q in
    elim (Option-cases (max_option early (by_cap config q))) [
      | inl allowed ↦ inl (rw allowed, rw allowed, by_cap-none config early q positive allowed)
      | inr (until, e) ↦ inr (rw e, rw e)
    ]

ask-Holds :
    (config : LoginConfig) (l : Log) (now later : ℕ)
    → 0 < config.max_logins_per_day
    → now ≤ later
    → Holds config later l
    → Holds config later (ask config l now)
ask-Holds config l now later positive past h =
    let gone = drop_old-split now later l.state.attempts past in
    elim (ask_cases config l now positive) [
      | inl (attempts, history, room) ↦ record {
        held =
            rw (attempts, history)
              (omega (
                arith,
                recent-append later l.history (now ∷ []),
                recent-append later (pruned now l) (now ∷ []),
                gone,
                h.held,
              ));
        cap = rw attempts (omega (arith, length-append (pruned now l) (now ∷ [])));
      }
      | inr (attempts, history) ↦ record {
        held = rw (attempts, history) (h.held ∙ gone);
        cap = rw attempts (omega (arith, length-drop_old now l.state.attempts, h.cap));
      }
    ]

ask_all-Holds :
    (config : LoginConfig) (l : Log) (times : List ℕ) (later : ℕ)
    → 0 < config.max_logins_per_day
    → AllBefore later times
    → Holds config later l
    → Holds config later (ask_all config l times)
unfolding ask_all
ask_all-Holds config l [] later positive past h = h
ask_all-Holds config l (now ∷ times) later positive past h =
    ask_all-Holds config (ask config l now) times later positive past.1
      (ask-Holds config l now later positive past.0 h)

abbrev pub empty_log : Log
empty_log = record { state = default_login; history = [] }

-- Whenever logins of an account are asked for, at most the daily cap of them was attempted in the
-- day before any instant that is not before the requests, although the state forgets old attempts.
pub recent-le-cap :
    (config : LoginConfig) (times : List ℕ) (later : ℕ)
    → 0 < config.max_logins_per_day
    → AllBefore later times
    → recent later (ask_all config empty_log times).history ≤ config.max_logins_per_day
unfolding recent
recent-le-cap config times later positive past =
    let h =
      ask_all-Holds config empty_log times later positive past
        (record { held = refl; cap = omega arith }) in
    omega
      (arith, h.held, h.cap, recent-le-length later (ask_all config empty_log times).state.attempts)
