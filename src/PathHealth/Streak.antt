-- ===== src/PathHealth/Streak.antt =====
-- The breaker (src/path_health.rs) and the plain description of its streak.
use sirius_api_proxy.PathHealth.Events.{
  Event, attempt, admission, release, apply, run, streak_from, OneAccount,
}
use sirius_api_proxy.PathHealth.Tracks.{Tracks, Tracks-run}
use sirius_api_proxy.Base.{
  ◌≤◌, ◌<◌, ◌≡◌, ◌↔◌, ◌⊎◌, inl, inr, refl, ◌∙◌, String, Bool, true, false, Option, List, [], ◌∷◌,
  arith, u32_max, min, length, is_some, Bool-cases,
}
use sirius_api_proxy.Accounts.Health.{PoolPolicy, path}
use sirius_api_proxy.PathHealth.{
  PathHealth, healthy, fault, new, record_outcome, admit, drop_ticket, charge,
}
use sirius_api_proxy.PathHealth.Invariant.{IsValid, new-IsValid}

module _ (p : PathHealth) where
  apply_settings :
      (e : Event)
      → ((apply p e).distinct_sources ≡ p.distinct_sources) × ((apply p e).threshold ≡ p.threshold)
  unfolding apply record_outcome admit drop_ticket
  apply_settings (attempt now source healthy) = (refl, refl)
  apply_settings (attempt now source fault) = (refl, refl)
  apply_settings (admission now) = ground arith
  apply_settings (release t) = ground arith

run_settings :
    (p : PathHealth) (events : List Event)
    → ((run p events).distinct_sources ≡ p.distinct_sources)
      × ((run p events).threshold ≡ p.threshold)
unfolding run
run_settings p [] = (refl, refl)
run_settings p (e ∷ events) =
    let (d, t) = run_settings (apply p e) events in
    let (d', t') = apply_settings p e in (d ∙ d', t ∙ t')

-- The streak is nobody's yet, or it is one account's.
abbrev pub IsOwn : Bool → List (Option String) → Type 0
IsOwn distinct streak = (streak ≡ []) ⊎ OneAccount distinct streak

module _ (policy : PoolPolicy) (distinct : Bool) (events : List Event) where
  abbrev pub after : PathHealth
  after = run (new policy distinct) events

  abbrev pub streak : List (Option String)
  streak = streak_from [] events

  Tracks-new : Tracks (new policy distinct) []
  unfolding new
  Tracks-new = record {
    counted = omega arith;
    own = λ _ h. absurd (h refl);
    shared = λ h. absurd (cc);
    begun = λ h. absurd (cc);
  }

  settings : (after.distinct_sources ≡ distinct) × (after.threshold ≡ policy.failure_threshold)
  unfolding new
  settings = run_settings (new policy distinct) events

  module _ (positive : 0 < policy.failure_threshold)
      (small : policy.failure_threshold ≤ u32_max) where
    pub after-IsValid : IsValid after
    after-IsValid =
        (Tracks-run (new policy distinct) events [] (new-IsValid policy distinct positive small)
          Tracks-new).0

    after-Tracks : Tracks after streak
    after-Tracks =
        (Tracks-run (new policy distinct) events [] (new-IsValid policy distinct positive small)
          Tracks-new).1

charge_attributed : (p : PathHealth) → IsValid p → (charge p ≡ path) ↔ (p.state.attributed ≡ true)
unfolding charge
charge_attributed p v = ground arith

IsOwn-of_Tracks :
    (p : PathHealth) (streak : List (Option String))
    → Tracks p streak
    → p.state.attributed ≡ false
    → IsOwn p.distinct_sources streak
IsOwn-of_Tracks p [] t a = inl refl
IsOwn-of_Tracks p (s ∷ streak) t a = let (d, name, _, all) = t.own a (λ e. cc) in inr (d, name, all)

Tracks-of_own :
    (p : PathHealth) (streak : List (Option String))
    → Tracks p streak
    → IsOwn p.distinct_sources streak
    → p.state.attributed ≡ false
Tracks-of_own p streak t own = elim (Bool-cases p.state.attributed) [
  | inl a ↦ absurd (refute own a)
  | inr a ↦ a
]
  where
    refute : IsOwn p.distinct_sources streak → p.state.attributed ≡ true → ⊥
    refute (inl e) a = t.begun a e
    refute (inr one) a = t.shared a one

module _ (policy : PoolPolicy) (distinct : Bool) (events : List Event)
    (positive : 0 < policy.failure_threshold) (small : policy.failure_threshold ≤ u32_max) where
  -- Whatever calls came before, in whatever order: a streak of faults is charged to the path unless
  -- it is empty or, on a path that tells accounts apart, every fault of it came from one account.
  pub attributed_iff_shared :
      ((after policy distinct events).state.attributed ≡ false)
      ↔ IsOwn distinct (streak policy distinct events)
  attributed_iff_shared =
      let t = after-Tracks policy distinct events positive small in
      let d = (settings policy distinct events).0 in
      (
        λ a. rw d at (IsOwn-of_Tracks (after policy distinct events) _ t a),
        λ own. Tracks-of_own (after policy distinct events) _ t (rw d own),
      )

  -- Whatever calls came before: the path is open exactly when the faults since the last answer are
  -- attributed to the path and have reached the threshold, and the counter is their number, up to
  -- the largest u32.
  pub open_iff_threshold :
      ((after policy distinct events).state.failures
        ≡ min (length (streak policy distinct events)) u32_max)
      × ((is_some (after policy distinct events).state.open_until ≡ true) ↔ (
          (¬ IsOwn distinct (streak policy distinct events))
          × (policy.failure_threshold ≤ length (streak policy distinct events))))
  open_iff_threshold =
      let t = after-Tracks policy distinct events positive small in
      let v = after-IsValid policy distinct events positive small in
      let th = (settings policy distinct events).1 in
      (
        t.counted,
        (
          λ o. (
            λ own. cc (attributed_iff_shared.1 own, (v.opened o).0),
            omega (arith, (v.opened o).1, t.counted, th),
          ),
          λ (other, enough). elim (Bool-cases (after policy distinct events).state.attributed) [
            | inl a ↦ v.reached a (omega (arith, t.counted, th))
            | inr a ↦ absurd (other (attributed_iff_shared.0 a))
          ],
        ),
      )

  -- Whatever calls came before: the next path-class fault is charged to the path exactly when the
  -- streak in progress is more than one account's; otherwise the account that saw it pays.
  pub charge-eq-path_iff :
      (charge (after policy distinct events) ≡ path)
      ↔ (¬ IsOwn distinct (streak policy distinct events))
  charge-eq-path_iff =
      let v = after-IsValid policy distinct events positive small in
      let c = charge_attributed (after policy distinct events) v in
      (
        λ e own. cc (attributed_iff_shared.1 own, c.0 e),
        λ other. elim (Bool-cases (after policy distinct events).state.attributed) [
          | inl a ↦ c.1 a
          | inr a ↦ absurd (other (attributed_iff_shared.0 a))
        ],
      )
