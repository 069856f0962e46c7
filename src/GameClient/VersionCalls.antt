-- ===== src/GameClient/VersionCalls.antt =====
-- The VERSION call that a call waits for (src/client.rs, `ensure_version` and `execute_once_inner`).
-- What other calls do between two of its steps is a list of changes.
use sirius_api_proxy.Base.{
  ℕ, ◌+◌, String, Bool, true, false, Option, none, some, if◌then◌else◌, Result, ok, err, List, [],
  ◌∷◌,
}
use sirius_api_proxy.Error.{AppError}
use sirius_api_proxy.GameClient.Versions.{
  State, Env, Headers, VersionNeed, fresh, required, refresh, observe, adopt_version,
  promote_snapshot, note_unread, version_need, version_retry,
}

module _ (env : Env) where
  -- What other calls do to the state while a call does not hold its mutex. A reload of the protocol,
  -- which resets the state, waits until no call is running.
  pub data Change : Type 0 where
    seen : (now : ℕ) → Headers → (status : Option ℕ) → (sent : Option String) → Change
    adopted : (now : ℕ) → Headers → (version : String) → (body : Option String) → Change
    published : (now : ℕ) → Headers → (protocol : String) → Change
    unread : (now : ℕ) → Change

  unfoldable pub apply_change : Change → State → State
  apply_change (seen now md status sent) s = observe env now md status sent s
  apply_change (adopted now md version body) s = adopt_version env now md version body s
  apply_change (published now md protocol) s = promote_snapshot env now md protocol s
  apply_change (unread now) s = note_unread env now s

  unfoldable pub changed : List Change → State → State
  changed [] s = s
  changed (c ∷ changes) s = changed changes (apply_change c s)

  -- A VERSION call: no answer of the game, an answer without a version (or whose call runs out of time
  -- once it is observed), one whose call runs out of time once the version is adopted, or one with a
  -- version. It takes the mutex to read the version that it sends, for `observe`, for the adoption and
  -- for the snapshot; other calls may change the state in between.
  pub data VersionCall : Type 0 where
    unanswered : (waiting : List Change) → AppError → VersionCall
    refused :
        (waiting : List Change) → (now : ℕ) → Headers → (status : Option ℕ) → AppError → VersionCall
    cut_off :
        (waiting before_adoption : List Change)
        → (observed_at adopted_at : ℕ) → Headers
        → (version : String) → (body : Option String) → VersionCall
    versioned :
        (waiting before_adoption before_snapshot : List Change)
        → (observed_at adopted_at snapshot_at : ℕ) → Headers
        → (version : String) → (body : Option String) → (protocol : String) → VersionCall

  abbrev pub sent_version : State → Option String
  sent_version s = if s.version_suspect then none else s.observation.master_version

  unfoldable pub version_call : VersionCall → State → State × Result Unit AppError
  version_call (unanswered waiting e) s = (changed waiting s, err e)
  version_call (refused waiting now md status e) s =
      (observe env now md status (sent_version s) (changed waiting s), err e)
  version_call (cut_off waiting before_adoption observed_at adopted_at md version body) s =
      let noted = observe env observed_at md (some 0) (sent_version s) (changed waiting s) in
      (
        adopt_version env adopted_at md version body (changed before_adoption noted),
        err AppError.timeout,
      )
  version_call
        (versioned waiting before_adoption before_snapshot observed_at adopted_at snapshot_at md
          version body protocol)
        s =
      let noted = observe env observed_at md (some 0) (sent_version s) (changed waiting s) in
      let adopted_now =
        adopt_version env adopted_at md version body (changed before_adoption noted) in
      (promote_snapshot env snapshot_at md protocol (changed before_snapshot adopted_now), ok tt)

  -- `execute` may repeat the call after failed attempts.
  unfoldable pub version_tries :
      List VersionCall → VersionCall → State → State × Result Unit AppError
  version_tries [] last s = version_call last s
  version_tries (c ∷ calls) last s = version_tries calls last (version_call c s).0

  -- What happens while `ensure_version` runs: the lock, what other calls do while it waits, whether
  -- the path admits the call, the VERSION call's attempts, and what other calls do before a failure is
  -- noted, with the time of that.
  pub record Waiting : Type 0 where
    pub now : ℕ
    pub free : Bool
    pub others : State → State
    pub then_at : ℕ
    pub admitted : Bool
    pub failed : List VersionCall
    pub call : VersionCall
    pub before_retry : List Change
    pub ended_at : ℕ

  unfoldable pub back_off :
      List Change → ℕ → State × Result Unit AppError → State × Result Unit AppError
  back_off changes now (s, ok u) = (s, ok tt)
  back_off changes now (s, err e) =
      (record (changed changes s) { version_retry_at = some (now + version_retry) }, ok tt)

  -- The second match, under the lock.
  unfoldable pub with_lock : Waiting → VersionNeed → State → State × Result Unit AppError
  with_lock w fresh s = (s, ok tt)
  with_lock w required s =
      if w.admitted then version_tries w.failed w.call s else (s, err AppError.upstream_unavailable)
  with_lock w (refresh wait) s =
      if w.admitted
      then back_off w.before_retry w.ended_at (version_tries w.failed w.call s)
      else (s, ok tt)

  unfoldable pub locked : Waiting → String → State → State × Result Unit AppError
  locked w route s = with_lock w (version_need env route w.then_at (w.others s)) (w.others s)

  -- The first match: a refresh for age alone does not wait for the lock.
  unfoldable pub needing : Waiting → String → VersionNeed → State → State × Result Unit AppError
  needing w route fresh s = (s, ok tt)
  needing w route required s = locked w route s
  needing w route (refresh true) s = locked w route s
  needing w route (refresh false) s = if w.free then locked w route s else (s, ok tt)

  unfoldable pub ensure_version : Waiting → String → State → State × Result Unit AppError
  ensure_version w route s = needing w route (version_need env route w.now s) s
