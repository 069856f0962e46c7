-- ===== src/SdkSession/Consistency.antt =====
-- Consistent states of the shared SDK session (src/sdk_session.rs).
use sirius_api_proxy.Base.{
  ℕ, Bool, true, Option, List, [], ◌∷◌, arith, is_some, Bool-cases, inl, inr, not, ◌||◌, ◌==◌,
}
use sirius_api_proxy.SdkSession.{
  Env, State, World, Disk, Loaded, SdkSession, default_state, merge, merge_loaded, read, persist,
  mark_stale, validated, refused, exclusive, with_state,
}
use sirius_api_proxy.SdkSession.Events.{Event, signal, login, refusal, refresh, foreign, apply, run}
use sirius_api_proxy.SdkSession.Restart.{IsConsistent}

module _ (env : Env) where
  merge_loaded-IsConsistent :
      (loaded : Option Loaded) {s : State}
      → IsConsistent s
      → IsConsistent (merge_loaded env loaded s)
  unfolding merge_loaded
  merge_loaded-IsConsistent loaded c = ground arith

  merge-IsConsistent :
      (session : SdkSession) (disk : Disk) (now : ℕ) {s : State}
      → IsConsistent s
      → IsConsistent (merge env session disk now s)
  unfolding merge
  merge-IsConsistent session disk now {s} c = elim (Bool-cases session.file) [
    | inl e ↦ simp e (merge_loaded-IsConsistent (read env session disk now) c)
    | inr e ↦ simp e c
  ]

  persist-IsConsistent :
      (now : ℕ) (written : Bool) (w : World)
      → IsConsistent w.session.state
      → IsConsistent (persist env now written w).session.state
  unfolding persist
  persist-IsConsistent now written w c = elim (Bool-cases w.session.file) [
    | inl e ↦ simp e (merge-IsConsistent w.session w.disk now c)
    | inr e ↦ simp e c
  ]

  mark_stale-IsConsistent :
      (now : ℕ) (written : Bool) (generation : ℕ) (w : World)
      → IsConsistent w.session.state
      → IsConsistent (mark_stale env now written generation w).session.state
  unfolding mark_stale
  mark_stale-IsConsistent now written generation w c =
      let marked = with_state env w (record w.session.state { stale = true }) in
      let c' : IsConsistent marked.session.state = record {
        exclusive = c.exclusive;
        dated = c.dated;
      } in
      elim (Bool-cases (not (w.session.state.generation == generation) || w.session.state.stale)) [
        | inl e ↦ simp e c
        | inr e ↦ simp e (elim (Bool-cases (is_some w.session.state.account)) [
          | inl a ↦ simp a (persist-IsConsistent now written marked c')
          | inr a ↦ simp a c'
        ])
      ]

  -- Every event keeps the session consistent: a refused identity holds no account, and an account
  -- that is held has been validated.
  pub apply-IsConsistent :
      (w : World) (e : Event)
      → IsConsistent w.session.state
      → IsConsistent (apply env w e).session.state
  unfolding apply validated refused exclusive
  apply-IsConsistent w (signal now written generation) c =
      mark_stale-IsConsistent now written generation w c
  apply-IsConsistent w (login now written account) c =
      persist-IsConsistent now written _ (ground arith)
  apply-IsConsistent w (refusal now written code) c =
      persist-IsConsistent now written _ (ground arith)
  apply-IsConsistent w (refresh now) c = merge-IsConsistent w.session w.disk now c
  apply-IsConsistent w (foreign disk) c = c

  -- Whatever events follow, a consistent session stays consistent: an identity that was refused
  -- holds no account, and an account that is held has been validated.
  pub run-IsConsistent :
      (w : World) (events : List Event)
      → IsConsistent w.session.state
      → IsConsistent (run env w events).session.state
  unfolding run
  run-IsConsistent w [] c = c
  run-IsConsistent w (e ∷ events) c =
      run-IsConsistent (apply env w e) events (apply-IsConsistent w e c)

default_state-IsConsistent : IsConsistent default_state
default_state-IsConsistent = ground arith
