-- ===== src/SdkSession/Generations.antt =====
-- Generations of the shared SDK session (src/sdk_session.rs).
use sirius_api_proxy.Base.{
  ℕ, ◌+◌, ◌*◌, ◌<◌, ◌≡◌, refl, ◌∙◌, sym, Bool, true, false, some, List, arith, u64_max, length, inl,
  inr, ◌⊎◌, Bool-cases, ==_refl, is_some,
}
use native.Mathlib.Decide.{dec_lt}
use sirius_api_proxy.SdkSession.{Env, SdkAccount, State, World, reusable, mark_stale, with_state}
use sirius_api_proxy.SdkSession.Events.{
  Event, run, Follows, run-Follows, mark_stale-Follows, persist-Follows,
}

-- The generation's token was rejected, and no later state holds it again.
abbrev Dead : ℕ → State → Type 0
Dead g s = (g < s.generation) ⊎ ((s.generation ≡ g) × (s.stale ≡ true))

Dead-Follows : {k : ℕ} (g : ℕ) (s s' : State) → Follows k s s' → Dead g s → Dead g s'
Dead-Follows g s s' f (inl h) = inl (omega (arith, f.grows))
Dead-Follows g s s' f (inr (e, stale)) = elim (dec_lt g s'.generation) [
  | yes h ↦ inl h
  | no h ↦
      let same : s'.generation ≡ s.generation = omega (arith, f.grows) in
      inr (same ∙ e, (f.kept same).1 stale)
]

module _ (env : Env) where
  reusable_parts :
      (s : State) (now : ℕ) {a : SdkAccount} {g : ℕ}
      → reusable env s now ≡ some (a, g)
      → (s.stale ≡ false) × (s.account ≡ some a) × (s.generation ≡ g)
  unfolding reusable
  reusable_parts s now h = ground arith

  Dead-mark_stale :
      (now : ℕ) (written : Bool) (w : World)
      → w.session.state.generation < u64_max
      → Dead w.session.state.generation
          (mark_stale env now written w.session.state.generation w).session.state
  unfolding mark_stale
  Dead-mark_stale now written w bound =
      let marked = with_state env w (record w.session.state { stale = true }) in
      elim (Bool-cases w.session.state.stale) [
        | inl st ↦ simp (==_refl, st) (inr (refl, refl))
        | inr st ↦
            simp (==_refl, st)
              (elim (Bool-cases (is_some w.session.state.account)) [
                | inl a ↦ simp a (
                    Dead-Follows w.session.state.generation marked.session.state _
                      (persist-Follows env now written marked bound) (inr (refl, refl)))
                | inr a ↦ simp a (inr (refl, refl))
              ])
      ]

  -- After a `TOKEN_*` signal for a session of the current generation, and whatever logins, refusals,
  -- signals and writes of other processes follow, an identity is only handed out again with a later
  -- generation. Fewer than 2^64 generations are assumed.
  pub reusable_after_signal :
      (w : World) (now : ℕ) (written : Bool) (events : List Event) (later k : ℕ) (a : SdkAccount)
      → w.session.state.generation + 2 * length events + 1 < u64_max
      → reusable env
          (run env (mark_stale env now written w.session.state.generation w) events).session.state
          later
        ≡ some (a, k)
      → w.session.state.generation < k
  reusable_after_signal w now written events later k a bound h =
      let g = w.session.state.generation in
      let w1 = mark_stale env now written g w in
      let one = mark_stale-Follows env now written g w (omega arith) in
      let f = run-Follows env w1 events (omega (arith, one.limit)) in
      let (fresh, _, e) = reusable_parts (run env w1 events).session.state later h in
      elim (Dead-Follows g w1.session.state _ f (Dead-mark_stale now written w (omega arith))) [
        | inl lt ↦ omega arith
        | inr (_, stale) ↦ cc
      ]

  -- Two identities that are handed out with the same generation are the same, whatever happened in
  -- between. Fewer than 2^64 generations are assumed.
  pub generation-names-account :
      (w : World) (events : List Event) (now later g : ℕ) (a b : SdkAccount)
      → w.session.state.generation + 2 * length events < u64_max
      → reusable env w.session.state now ≡ some (a, g)
      → reusable env (run env w events).session.state later ≡ some (b, g)
      → a ≡ b
  generation-names-account w events now later g a b bound one two =
      let (_, at, e) = reusable_parts w.session.state now one in
      let (_, at', e') = reusable_parts (run env w events).session.state later two in
      let f = run-Follows env w events bound in cc ((f.kept (e' ∙ sym e)).0)
