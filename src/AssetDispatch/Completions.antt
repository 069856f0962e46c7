-- ===== src/AssetDispatch/Completions.antt =====
-- How dispatches end during a pass (src/asset_dispatch.rs, `reconcile`).
use sirius_api_proxy.Base.{
  ℕ, String, ◌≡◌, refl, sym, ap, ◌∙◌, ◌⊎◌, inl, inr, Bool, true, false, not, ◌||◌, ◌&&◌, Option,
  none, some, BTreeMap, get, arith, any, str_eq, str_eq_iff, Bool-cases, Option-cases, Result, ok,
  err, within, is_some_and, if◌then◌else◌,
}
use mathlib.Core.Path.{subst}
use mathlib.Core.Option.{some-injective}
use sirius_api_proxy.AssetJobs as AssetJobs
use sirius_api_proxy.AssetOutbox.Entries.{
  Env, Entry, Error, State, pending, sending, submitted, completed, failed, uuid, digest,
  valid_code,
}
use sirius_api_proxy.AssetOutbox.Store.{World, commit}
use sirius_api_proxy.AssetOutbox.Changes.{
  change, change_found, write_state, begin_send, refused, acknowledge, complete, fail,
  sending_state, refused_state, acknowledged_state, completed_state, failed_state, same_text,
}
use sirius_api_proxy.AssetOutbox.Rotation.{next_batch, move_cursor, terminal}
use sirius_api_proxy.AssetOutbox.Events.{
  Event, observed, begun, refusal, acknowledged, adopted, completion, failure, archiving, batch,
  apply, held,
}
use sirius_api_proxy.AssetOutbox.Lifecycle.{held-replaced, held-ledger}
use sirius_api_proxy.AssetOutbox.Sorted.{IsSorted}
use sirius_api_proxy.AssetDispatch.{failure_codes}
use sirius_api_proxy.AssetDispatch.Worker.{Worker, Io, publish, reconcile}
use sirius_api_proxy.AssetDispatch.Steps.{
  Step, driven, published, forgotten, counted, exhausted, posted, asked, noted, Steps, done, next,
  Justified, Reported,
}
use sirius_api_proxy.AssetDispatch.Passes.{reconcile-Steps, Gives}
use sirius_api_proxy.AssetJobs.{Job}

written-held :
    (key k : String) (e d : Entry) (t : State) (w : World)
    → get key w.outbox.ledger.entries ≡ some e
    → held (write_state true key e (ok t) w).0 k ≡ some d
    → (held w k ≡ some d) ⊎ ((k ≡ key) × (record e { state = t } ≡ d))
unfolding write_state commit
written-held key k e d t w g h =
    let new = record e { state = t } in
    let chosen : (if str_eq k key then some new else held w k) ≡ some d =
      sym (held-replaced key k e new w _ refl refl g) ∙ h in
    elim (Bool-cases (str_eq k key)) [
      | inl same ↦ inr ((str_eq_iff k key).0 same, some-injective new d (rw same at chosen))
      | inr other ↦ inl (rw other at chosen)
    ]

-- What is held after a change was held before, or is the entry that has changed.
abbrev Changed : String → String → (State → Result State Error) → Entry → World → Type 0
Changed key k f d w =
    (e : Entry) × (t : State) × (held w k ≡ some e)
    × (f e.state ≡ ok t)
    × (k ≡ key)
    × (record e { state = t } ≡ d)

write_state-held :
    (written : Bool) (key k : String) (e d : Entry) (f : State → Result State Error) (w : World)
    → (r : Result State Error) → f e.state ≡ r
    → get key w.outbox.ledger.entries ≡ some e
    → held (write_state written key e r w).0 k ≡ some d
    → (held w k ≡ some d) ⊎ Changed key k f d w
unfolding write_state commit
write_state-held written key k e d f w (err x) same g h = inl h
write_state-held false key k e d f w (ok t) same g h = inl h
write_state-held true key k e d f w (ok t) same g h = elim (written-held key k e d t w g h) [
  | inl kept ↦ inl kept
  | inr (own, changed) ↦ inr (e, t, held-ledger w k e (rw own g), same, own, changed)
]

change-held :
    (written : Bool) (key k : String) (f : State → Result State Error) (d : Entry) (w : World)
    → held (change written key f w).0 k ≡ some d
    → (held w k ≡ some d) ⊎ Changed key k f d w
unfolding change change_found
change-held written key k f d w h = elim (Option-cases (get key w.outbox.ledger.entries)) [
  | inl n ↦ inl (rw n at h)
  | inr (e, g) ↦ write_state-held written key k e d f w (f e.state) refl g (rw g at h)
]

-- Why an entry that is held under a key has ended: it had before, or the updater has reported its
-- outcome, or its code is one of the worker's.
abbrev pub Explained : (String → Entry → Job → Type 0) → World → String → Entry → State → Type 0
Explained gave start k e (completed id catalog publication) =
    (held start k ≡ some e) ⊎ Reported gave start k e catalog publication
Explained gave start k e (failed id code) =
    (held start k ≡ some e) ⊎ (any (str_eq code) failure_codes ≡ true)
Explained gave start k e _ = Unit

abbrev Explains : (String → Entry → Job → Type 0) → World → World → Type 0
Explains gave start w =
    (k : String) (e : Entry) → held w k ≡ some e → Explained gave start k e e.state

abbrev okay : State → Result State Error
okay t = ok t

abbrev state_or : State → Result State Error → State
state_or t (ok u) = u
state_or t (err x) = t

module _ (gave : String → Entry → Job → Type 0) (start : World) where
  at-start :
      (k : String) (e : Entry) (s : State) → held start k ≡ some e → Explained gave start k e s
  at-start k e pending h = tt
  at-start k e (sending at) h = tt
  at-start k e (submitted id) h = tt
  at-start k e (completed id c p) h = inl h
  at-start k e (failed id c) h = inl h

  if-Explains :
      {R : Type 0} (b : Bool) (x y : World × R)
      → Explains gave start x.0
      → Explains gave start y.0
      → Explains gave start (if b then x else y).0
  if-Explains true x y s t = s
  if-Explains false x y s t = t

  change-Explains :
      (written : Bool) (key : String) (f : State → Result State Error) (w : World)
      → ((e : Entry) (t : State)
          → held w key ≡ some e
          → f e.state ≡ ok t
          → Explained gave start key (record e { state = t }) t)
      → Explains gave start w
      → Explains gave start (change written key f w).0
  change-Explains written key f w new s k d h = elim (change-held written key k f d w h) [
    | inl kept ↦ s k d kept
    | inr (e, t, g, o, own, changed) ↦
        subst (λ d. Explained gave start k d d.state) changed (rw own (new e t (rw own at g) o))
  ]

  -- The closures that end no dispatch.
  abbrev ends : Result State Error → Bool
  ends (ok t) = terminal t
  ends (err x) = false

  sending_state-ends : (now : ℕ) (s : State) → ends (sending_state now s) ≡ false
  unfolding sending_state terminal
  sending_state-ends now pending = refl
  sending_state-ends now (sending at) = refl
  sending_state-ends now (submitted id) = refl
  sending_state-ends now (completed id c p) = refl
  sending_state-ends now (failed id c) = refl

  refused_state-ends : (s : State) → ends (refused_state s) ≡ false
  unfolding refused_state terminal
  refused_state-ends pending = refl
  refused_state-ends (sending at) = refl
  refused_state-ends (submitted id) = refl
  refused_state-ends (completed id c p) = refl
  refused_state-ends (failed id c) = refl

  acknowledged_state-ends : (id : String) (s : State) → ends (acknowledged_state id s) ≡ false
  unfolding acknowledged_state terminal
  acknowledged_state-ends id pending = refl
  acknowledged_state-ends id (sending at) = refl
  acknowledged_state-ends id (submitted job) = ground arith
  acknowledged_state-ends id (completed job c p) = refl
  acknowledged_state-ends id (failed job c) = refl

  open-Explained :
      (k : String) (e : Entry) (t : State) → terminal t ≡ false → Explained gave start k e t
  unfolding terminal
  open-Explained k e pending h = tt
  open-Explained k e (sending at) h = tt
  open-Explained k e (submitted id) h = tt
  open-Explained k e (completed id c p) h = absurd (ground (arith, h))
  open-Explained k e (failed id c) h = absurd (ground (arith, h))

  change-open :
      (written : Bool) (key : String) (f : State → Result State Error) (w : World)
      → ((s : State) → ends (f s) ≡ false)
      → Explains gave start w
      → Explains gave start (change written key f w).0
  change-open written key f w never s =
      change-Explains written key f w
        (λ e t g o.
          open-Explained key (record e { state = t }) t
            (subst (λ r. ends r ≡ false) o (never e.state)))
        s

  -- The entry with another state.
  abbrev As : String → Entry → State → Type 0
  As k e t = Explained gave start k (record e { state = t }) t

  ok-As : (k : String) (e : Entry) (t u : State) → okay t ≡ ok u → As k e t → As k e u
  ok-As k e t u h a = subst (As k e) (ap (state_or t) h) a

  completed-As :
      (key id catalog : String) (publication : Option String) (e : Entry) (s t : State)
      → Reported gave start key e catalog publication
      → e.state ≡ s
      → Explained gave start key e e.state
      → completed_state id catalog publication s ≡ ok t
      → As key e t
  unfolding completed_state
  completed-As key id catalog publication e pending t m same x h = absurd (ground (arith, h))
  completed-As key id catalog publication e (sending at) t m same x h = absurd (ground (arith, h))
  completed-As key id catalog publication e (failed j c) t m same x h = absurd (ground (arith, h))
  completed-As key id catalog publication e (submitted job) t m same x h =
      elim (Bool-cases (str_eq job id)) [
        | inl own ↦ ok-As key e (completed id catalog publication) t (rw own at h) (inr m)
        | inr other ↦ absurd (ground (arith, rw other at h))
      ]
  completed-As key id catalog publication e (completed j c p) t m same x h =
      elim (Bool-cases (str_eq j id && str_eq c catalog && same_text p publication)) [
        | inl own ↦ ok-As key e (completed j c p) t (simp own at h) (subst (As key e) same x)
        | inr other ↦ absurd (ground (arith, simp other at h))
      ]

  failed-As :
      (key code : String) (e : Entry) (s t : State)
      → any (str_eq code) failure_codes ≡ true
      → failed_state code s ≡ ok t
      → As key e t
  unfolding failed_state
  failed-As key code e pending t j h = ok-As key e (failed none code) t h (inr j)
  failed-As key code e (sending at) t j h = ok-As key e (failed none code) t h (inr j)
  failed-As key code e (submitted id) t j h = ok-As key e (failed (some id) code) t h (inr j)
  failed-As key code e (completed id c p) t j h = absurd (ground (arith, h))
  failed-As key code e (failed id c) t j h = absurd (ground (arith, h))

  move_cursor-held :
      (written : Bool) (l : Option (String × Entry)) (b : BTreeMap Entry) (w : World)
      → Explains gave start w
      → Explains gave start (move_cursor written l b w).0
  unfolding move_cursor commit held
  move_cursor-held written none b w s = s
  move_cursor-held true (some (k, e)) b w s = s
  move_cursor-held false (some (k, e)) b w s = s

  module _ (env : Env) where
    apply-Explains :
        (w : World) (e : Event)
        → Justified gave start w e
        → Explains gave start w
        → Explains gave start (apply env w e)
    unfolding apply begin_send refused acknowledge complete fail next_batch
    apply-Explains w (observed written i) j s = absurd j
    apply-Explains w (adopted written k id) j s = absurd j
    apply-Explains w (archiving io k id) j s = absurd j
    apply-Explains w (begun now written k) j s =
        change-open written k _ w (sending_state-ends now) s
    apply-Explains w (refusal written k) j s = change-open written k _ w refused_state-ends s
    apply-Explains w (acknowledged written k id) j s =
        if-Explains (uuid env id) _ _ (change-open written k _ w (acknowledged_state-ends id) s) s
    apply-Explains w (completion written k id catalog publication) (d, g, m) s =
        if-Explains (not (digest catalog) || is_some_and publication (λ v. not (uuid env v))) _ _ s
          (change-Explains written k _ w
            (λ e t h o.
              completed-As k id catalog publication e e.state t
                (subst (λ d. Reported gave start k d catalog publication)
                  (some-injective d e (sym g ∙ h)) m)
                refl (s k e h) o)
            s)
    apply-Explains w (failure written k code) j s =
        if-Explains (valid_code code) _ _
          (change-Explains written k _ w (λ e t h o. failed-As k code e e.state t j o) s) s
    apply-Explains w (batch written limit) j s =
        if-Explains (not (within 1 256 limit)) _ _ s (move_cursor-held written _ _ w s)

    Step-Explains :
        {w v : Worker}
        → Step env gave start w v
        → Explains gave start w.outbox
        → Explains gave start v.outbox
    unfolding publish
    Step-Explains {w} (driven e j) s = apply-Explains w.outbox e j s
    Step-Explains (published now change) s = s
    Step-Explains (forgotten key) s = s
    Step-Explains (counted key count l) s = s
    Step-Explains (exhausted key count) s = s
    Step-Explains (posted key request b m k f) s = s
    Step-Explains (asked key request m) s = s
    Step-Explains (noted errors) s = s

    Steps-Explains :
        {w v : Worker}
        → Steps env gave start w v
        → Explains gave start w.outbox
        → Explains gave start v.outbox
    Steps-Explains done s = s
    Steps-Explains (next t rest) s = Steps-Explains rest (Step-Explains t s)

-- When the ledger is in the order of its keys, a dispatch that is held as completed after a pass was
-- so before it, or the updater of the dispatch's own target has answered the POST or the poll that the
-- dispatch makes with a completed job, whose outcome is of the dispatch's region, environment,
-- platform, version and hash, has a verified catalog and what the dispatch requires, and is what the
-- completion records. One that is held as failed was so before, or has one of the worker's thirteen
-- codes.
pub reconcile-Explained :
    (jobs : AssetJobs.Env) (env : Env) (now : ℕ) (written : Bool) (io : String → Io) (w : Worker)
    → (k : String) (e : Entry) → IsSorted w.outbox.outbox.ledger.entries
    → held (reconcile jobs env now written io w).0.outbox k ≡ some e
    → Explained (Gives jobs io w.remotes) w.outbox k e e.state
reconcile-Explained jobs env now written io w k e s h =
    Steps-Explains (Gives jobs io w.remotes) w.outbox env
      (reconcile-Steps jobs env now written io w s)
      (λ k e h. at-start (Gives jobs io w.remotes) w.outbox k e e.state h) k e h
