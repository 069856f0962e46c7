-- ===== src/AssetOutbox/Runs.antt =====
-- Runs of the outbox (src/asset_outbox.rs) and the life of a dispatch.
use sirius_api_proxy.Base.{
  ℕ, String, ◌≡◌, refl, ap, ◌∙◌, Bool, true, false, not, ◌||◌, Option, none, some, List, [], ◌∷◌,
  arith, inl, inr, Bool-cases, Result-cases, Result, ok, err, within, is_some_and, if◌then◌else◌,
}
use sirius_api_proxy.AssetOutbox.Entries.{
  Env, Error, Identity, Entry, State, submitted, completed, failed, key, uuid, valid_key,
  valid_code, digest,
}
use sirius_api_proxy.AssetOutbox.Store.{World}
use sirius_api_proxy.AssetOutbox.Changes.{
  begin_send, refused, acknowledge, adopt, complete, fail, is_ambiguous,
}
use sirius_api_proxy.AssetOutbox.Archive.{
  Archiving, archived, archive_completed, observe, observe_found,
}
use sirius_api_proxy.AssetOutbox.Rotation.{next_batch}
use sirius_api_proxy.AssetOutbox.Events.{
  Event, observed, begun, refusal, acknowledged, adopted, completion, failure, archiving, batch,
  apply, run, held,
}
use sirius_api_proxy.AssetOutbox.Lifecycle.{
  Move, stay, begin, refuse, accept, recover, finish, give_up, lose, abort, Moves, none_left,
  move_first, Keeps, Keeps-refl, change-Keeps, sending_state-Moved, refused_state-Moved,
  acknowledged_state-Moved, adopted_state-Moved, completed_state-Moved, failed_state-Moved,
}
use sirius_api_proxy.AssetOutbox.History.{
  Same, Same-refl, Keeps-Same, observe_key-Same, move_cursor-Same, archive_found-Same,
  archived-some,
}

archive_completed-Same :
    (env : Env) (io : Archiving) (k id : String) (w : World)
    → Same w (archive_completed env io k id w).0
unfolding archive_completed
archive_completed-Same env io k id w = elim (Bool-cases (not (valid_key k) || not (uuid env id))) [
  | inl e ↦ rw e (Same-refl w)
  | inr e ↦ elim (Result-cases (archived env k w.archive)) [
    | inr (x, a) ↦ rw (e, a) (Same-refl w)
    | inl (old, a) ↦
        rw (e, a)
          (archive_found-Same io k id old w (λ o h. archived-some env k w.archive o (a ∙ ap ok h)))
  ]
]

observe_found-Same :
    (env : Env) (written : Bool) (i : Identity) (r : Result String Error) (w : World)
    → Same w (observe_found env written i r w).0
unfolding observe_found
observe_found-Same env written i (err x) w = Same-refl w
observe_found-Same env written i (ok k) w = observe_key-Same env written k i w

observe-Same :
    (env : Env) (written : Bool) (i : Identity) (w : World) → Same w (observe env written i w).0
unfolding observe
observe-Same env written i w = observe_found-Same env written i (key env i) w

next_batch-Same : (written : Bool) (limit : ℕ) (w : World) → Same w (next_batch written limit w).0
unfolding next_batch
next_batch-Same written limit w = elim (Bool-cases (not (within 1 256 limit))) [
  | inl e ↦ rw e (Same-refl w)
  | inr e ↦ rw e (move_cursor-Same written _ _ w)
]

guarded-Keeps :
    {R : Type 0} (b : Bool) (w : World) (r : R) (x : World × R)
    → Keeps w x.0
    → Keeps w (if b then x else (w, r)).0
guarded-Keeps true w r x m = m
guarded-Keeps false w r x m = Keeps-refl w

refusing-Keeps :
    {R : Type 0} (b : Bool) (w : World) (r : R) (x : World × R)
    → Keeps w x.0
    → Keeps w (if b then (w, r) else x).0
refusing-Keeps true w r x m = Keeps-refl w
refusing-Keeps false w r x m = m

pub apply-Keeps : (env : Env) (w : World) (e : Event) → Keeps w (apply env w e)
unfolding apply begin_send refused acknowledge adopt complete fail
apply-Keeps env w (observed written i) = Keeps-Same w _ (observe-Same env written i w)
apply-Keeps env w (begun now written k) = change-Keeps written k _ w (sending_state-Moved now)
apply-Keeps env w (refusal written k) = change-Keeps written k _ w refused_state-Moved
apply-Keeps env w (acknowledged written k id) =
    guarded-Keeps (uuid env id) w _ _ (change-Keeps written k _ w (acknowledged_state-Moved id))
apply-Keeps env w (adopted written k id) =
    guarded-Keeps (uuid env id) w _ _ (change-Keeps written k _ w (adopted_state-Moved id))
apply-Keeps env w (completion written k id catalog publication) =
    refusing-Keeps (not (digest catalog) || is_some_and publication (λ v. not (uuid env v))) w _ _
      (change-Keeps written k _ w (completed_state-Moved id catalog publication))
apply-Keeps env w (failure written k code) =
    guarded-Keeps (valid_code code) w _ _ (change-Keeps written k _ w (failed_state-Moved code))
apply-Keeps env w (archiving io k id) = Keeps-Same w _ (archive_completed-Same env io k id w)
apply-Keeps env w (batch written limit) = Keeps-Same w _ (next_batch-Same written limit w)

-- Whatever its owner does and whichever writes fail, the outbox forgets no dispatch: an entry that
-- the ledger or the archive holds under a key is held ever after, with the same identity, and its
-- state has only moved along the transitions of a dispatch.
pub run-Moves :
    (env : Env) (events : List Event) (w : World) (k : String) (e : Entry)
    → held w k ≡ some e
    → (e' : Entry) × (held (run env w events) k ≡ some e')
      × (e'.identity ≡ e.identity)
      × Moves e.state e'.state
unfolding run
run-Moves env [] w k e h = (e, h, refl, none_left)
run-Moves env (v ∷ events) w k e h =
    let (e1, h1, i1, m1) = apply-Keeps env w v k e h in
    let (e2, h2, i2, m2) = run-Moves env events (apply env w v) k e1 h1 in
    (e2, h2, i2 ∙ i1, move_first m1 m2)

abbrev pub job_of : State → Option String
job_of (submitted id) = some id
job_of (completed id catalog publication) = some id
job_of (failed job code) = job
job_of _ = none

-- What no operation changes any more: a completion, and a failure unless it leaves open whether a
-- job was accepted.
abbrev pub settled : State → Bool
settled (completed id catalog publication) = true
settled (failed (some id) code) = true
settled (failed none code) = not (is_ambiguous code)
settled _ = false

Move-job : {s t : State} (id : String) → Move s t → job_of s ≡ some id → job_of t ≡ some id
Move-job id stay h = h
Move-job id begin h = absurd (ground (arith, h))
Move-job id refuse h = absurd (ground (arith, h))
Move-job id accept h = absurd (ground (arith, h))
Move-job id (recover a) h = absurd (ground (arith, h))
Move-job id finish h = h
Move-job id give_up h = absurd (ground (arith, h))
Move-job id lose h = absurd (ground (arith, h))
Move-job id abort h = h

Moves-job : {s t : State} (id : String) → Moves s t → job_of s ≡ some id → job_of t ≡ some id
Moves-job id none_left h = h
Moves-job id (move_first m ms) h = Moves-job id ms (Move-job id m h)

Move-settled : {s t : State} → Move s t → settled s ≡ true → t ≡ s
Move-settled stay h = refl
Move-settled begin h = absurd (ground (arith, h))
Move-settled refuse h = absurd (ground (arith, h))
Move-settled accept h = absurd (ground (arith, h))
Move-settled (recover a) h = absurd (ground (arith, a, h))
Move-settled finish h = absurd (ground (arith, h))
Move-settled give_up h = absurd (ground (arith, h))
Move-settled lose h = absurd (ground (arith, h))
Move-settled abort h = absurd (ground (arith, h))

Moves-settled : {s t : State} → Moves s t → settled s ≡ true → t ≡ s
Moves-settled none_left h = refl
Moves-settled (move_first m ms) h =
    Moves-settled ms (ap settled (Move-settled m h) ∙ h) ∙ Move-settled m h

-- Once the job of a dispatch is known, every later state of the dispatch names the same job, so that
-- it is never pending or being sent again.
pub job_kept :
    (env : Env) (events : List Event) (w : World) (k id : String) (e : Entry)
    → held w k ≡ some e
    → job_of e.state ≡ some id
    → (e' : Entry) × (held (run env w events) k ≡ some e') × (job_of e'.state ≡ some id)
job_kept env events w k id e h j =
    let (e', h', i, m) = run-Moves env events w k e h in (e', h', Moves-job id m j)

-- A dispatch that completed, or that failed in any way but an ambiguous submission, is held
-- unchanged ever after, whether or not it has been moved to the archive.
pub settled_forever :
    (env : Env) (events : List Event) (w : World) (k : String) (e : Entry)
    → held w k ≡ some e
    → settled e.state ≡ true
    → held (run env w events) k ≡ some e
settled_forever env events w k e h s =
    let (e', h', i, m) = run-Moves env events w k e h in
    h' ∙ ap some (entry_eq e' e i (Moves-settled m s))
  where
    entry_eq : (a b : Entry) → a.identity ≡ b.identity → a.state ≡ b.state → a ≡ b
    entry_eq a b i s = cc
