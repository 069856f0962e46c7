-- ===== src/SdkSession/Events.antt =====
-- What happens to a session (src/sdk_session.rs): logins, refusals and signals of this process, and
-- writes of the state file by others.
use sirius_api_proxy.Base.{
  ℕ, ◌+◌, ◌*◌, ◌≤◌, ◌<◌, ◌≡◌, refl, ◌∙◌, ℤ, Bool, true, Option, List, [], ◌∷◌, arith, u64_max,
  length, inl, inr, Bool-cases, not, ◌||◌, ◌==◌, is_some,
}
use sirius_api_proxy.SdkSession.{
  Env, SdkAccount, State, Disk, World, Loaded, SdkSession, merge, merge_loaded, persist, mark_stale,
  validated, refused, exclusive, read,
}

pub data Event : Type 0 where
  signal : (now : ℕ) (written : Bool) (generation : ℕ) → Event
  login : (now : ℕ) (written : Bool) → SdkAccount → Event
  refusal : (now : ℕ) (written : Bool) → ℤ → Event
  refresh : (now : ℕ) → Event
  foreign : Disk → Event

-- One state follows another: the generation only grows, and the account and a stale mark stay as
-- they are while it does not.
pub record Follows (most : ℕ) (s s' : State) : Type 0 where
  pub grows : s.generation ≤ s'.generation
  pub limit : s'.generation ≤ s.generation + most
  pub kept :
      s'.generation ≡ s.generation → (s'.account ≡ s.account) × (s.stale ≡ true → s'.stale ≡ true)

module _ (env : Env) where
  unfoldable pub apply : World → Event → World
  apply w (signal now written generation) = mark_stale env now written generation w
  apply w (login now written account) = validated env now written account w
  apply w (refusal now written code) = refused env now written code w
  apply w (refresh now) = exclusive env now w
  apply w (foreign disk) = record w { disk = disk }

  unfoldable pub run : World → List Event → World
  run w [] = w
  run w (e ∷ events) = run (apply w e) events

Follows-refl : (s : State) → Follows 0 s s
Follows-refl s = record { grows = omega arith; limit = omega arith; kept = λ _. (refl, λ h. h) }

Follows-trans : {k l : ℕ} {a b c : State} → Follows k a b → Follows l b c → Follows (k + l) a c
Follows-trans f g = record {
  grows = omega arith;
  limit = omega arith;
  kept = λ e.
      let (one, stale) = f.kept (omega (arith, g.grows, f.grows, e)) in
      let (two, stale') = g.kept (omega (arith, g.grows, f.grows, e)) in
      (two ∙ one, λ h. stale' (stale h));
}

Follows-le : {k l : ℕ} {a b : State} → k ≤ l → Follows k a b → Follows l a b
Follows-le h f = record { grows = f.grows; limit = omega arith; kept = f.kept }

module _ (env : Env) where
  merge_loaded-Follows :
      (loaded : Option Loaded) (s : State)
      → s.generation < u64_max
      → Follows 1 s (merge_loaded env loaded s)
  unfolding merge_loaded
  merge_loaded-Follows loaded s bound = record {
    grows = ground arith;
    limit = ground arith;
    kept = λ e. (ground arith, λ h. ground arith);
  }

  merge-Follows :
      (session : SdkSession) (disk : Disk) (now : ℕ) (s : State)
      → s.generation < u64_max
      → Follows 1 s (merge env session disk now s)
  unfolding merge
  merge-Follows session disk now s bound = elim (Bool-cases session.file) [
    | inl e ↦ simp e (merge_loaded-Follows (read env session disk now) s bound)
    | inr e ↦ simp e (Follows-le (omega arith) (Follows-refl s))
  ]

  pub persist-Follows :
      (now : ℕ) (written : Bool) (w : World)
      → w.session.state.generation < u64_max
      → Follows 1 w.session.state (persist env now written w).session.state
  unfolding persist
  persist-Follows now written w bound = elim (Bool-cases w.session.file) [
    | inl e ↦ simp e (merge-Follows w.session w.disk now w.session.state bound)
    | inr e ↦ simp e (Follows-le (omega arith) (Follows-refl w.session.state))
  ]

  -- A new generation, and then a write: whatever else changed.
  fresh-Follows :
      (now : ℕ) (written : Bool) (s : State) (w : World)
      → s.generation + 1 < u64_max
      → w.session.state.generation ≡ s.generation + 1
      → Follows 2 s (persist env now written w).session.state
  fresh-Follows now written s w bound e =
      let f = persist-Follows now written w (omega arith) in
      record {
        grows = omega (arith, f.grows);
        limit = omega (arith, f.limit);
        kept = λ same. absurd (omega (arith, f.grows, same));
      }

  marked-Follows : (s : State) → Follows 0 s (record s { stale = true })
  marked-Follows s = record {
    grows = omega arith;
    limit = omega arith;
    kept = λ _. (refl, λ _. refl);
  }

  pub mark_stale-Follows :
      (now : ℕ) (written : Bool) (generation : ℕ) (w : World)
      → w.session.state.generation < u64_max
      → Follows 1 w.session.state (mark_stale env now written generation w).session.state
  unfolding mark_stale
  mark_stale-Follows now written generation w bound =
      elim (Bool-cases (not (w.session.state.generation == generation) || w.session.state.stale)) [
        | inl e ↦ rw e (Follows-le (omega arith) (Follows-refl w.session.state))
        | inr e ↦ rw e (elim (Bool-cases (is_some w.session.state.account)) [
          | inl a ↦ rw a (
              Follows-trans (marked-Follows w.session.state) (
                persist-Follows now written
                  (record w {
                    session = record w.session { state = record w.session.state { stale = true } };
                  })
                  bound))
          | inr a ↦ rw a (Follows-le (omega arith) (marked-Follows w.session.state))
        ])
      ]

  pub apply-Follows :
      (w : World) (e : Event)
      → w.session.state.generation + 1 < u64_max
      → Follows 2 w.session.state (apply env w e).session.state
  unfolding apply validated refused exclusive
  apply-Follows w (signal now written generation) bound =
      Follows-le (omega arith) (mark_stale-Follows now written generation w (omega arith))
  apply-Follows w (login now written account) bound =
      fresh-Follows now written w.session.state _ bound (ground arith)
  apply-Follows w (refusal now written code) bound =
      fresh-Follows now written w.session.state _ bound (ground arith)
  apply-Follows w (refresh now) bound =
      Follows-le (omega arith) (merge-Follows w.session w.disk now w.session.state (omega arith))
  apply-Follows w (foreign disk) bound = Follows-le (omega arith) (Follows-refl w.session.state)

  pub run-Follows :
      (w : World) (events : List Event)
      → w.session.state.generation + 2 * length events < u64_max
      → Follows (2 * length events) w.session.state (run env w events).session.state
  unfolding run
  run-Follows w [] bound = Follows-refl w.session.state
  run-Follows w (e ∷ events) bound =
      let f = apply-Follows w e (omega arith) in
      let g = run-Follows (apply env w e) events (omega (arith, f.limit)) in
      Follows-le (omega arith) (Follows-trans f g)
