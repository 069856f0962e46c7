-- ===== src/GameClient/Stale.antt =====
-- A version that the game has reported as stale is refreshed (src/client.rs,
-- `ensure_version`).
use sirius_api_proxy.Base.{ℕ, String, Option, some, List, [], ◌∷◌}
use sirius_api_proxy.GameClient.Versions.{State, Env, Headers, observe}

module _ (env : Env) where
  -- What answers to other calls do.
  pub record Answer : Type 0 where
    pub at : ℕ
    pub headers : Headers
    pub status : Option ℕ
    pub sent : Option String

  unfoldable pub observe_all : List Answer → State → State
  observe_all [] s = s
  observe_all (a ∷ answers) s = observe_all answers (observe env a.at a.headers a.status a.sent s)

  -- The state once a call that carried the version was answered with a mismatch, and then others with
  -- these answers.
  abbrev pub reported : ℕ → Headers → Option ℕ → String → List Answer → State → State
  reported now md status v answers s = observe_all answers (observe env now md status (some v) s)
