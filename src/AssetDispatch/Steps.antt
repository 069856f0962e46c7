-- ===== src/AssetDispatch/Steps.antt =====
-- The steps of the worker (src/asset_dispatch.rs): what one pass does to the worker, one action after
-- the other.
use sirius_api_proxy.Base.{
  ℕ, ◌<◌, String, ◌≡◌, refl, ◌∙◌, Bool, true, false, Option, some, ◌∷◌, any, str_eq, Result, ok,
  err, get, insert, if◌then◌else◌, is_some, ◌⊎◌,
}
use sirius_api_proxy.AssetJobs.{HttpRequest, Outcome, post_method, Job, Export}
use sirius_api_proxy.AssetJobs as AssetJobs
use sirius_api_proxy.AssetOutbox.Entries.{Env, Entry, sending, Ledger, pending, Identity}
use sirius_api_proxy.AssetOutbox.Store.{World, LedgerFile, holds}
use sirius_api_proxy.AssetOutbox.Events.{
  Event, observed, begun, refusal, acknowledged, adopted, completion, failure, archiving, batch,
  apply, held,
}
use sirius_api_proxy.AssetOutbox.Lifecycle.{Keeps, Keeps-refl}
use sirius_api_proxy.AssetOutbox.Runs.{apply-Keeps}
use sirius_api_proxy.AssetDispatch.{failure_codes, max_refusals}
use sirius_api_proxy.AssetDispatch.Status.{DispatchStatus}
use sirius_api_proxy.AssetDispatch.Worker.{Worker, publish, forget_refusals, and_then}

-- The file holds a dispatch under the key as being sent.
abbrev pub Filed : String → LedgerFile → Type 0
Filed key file =
    (l : Ledger) × (e : Entry) × (at : ℕ) × (file ≡ holds l)
    × (get key l.entries ≡ some e)
    × (e.state ≡ sending at)

-- The outcome is of the dispatch's own region, environment, platform, version and hash, with a verified
-- catalog, and has what the dispatch requires.
abbrev pub Describes : Identity → Outcome → Type 0
Describes i o =
    (o.verification.region ≡ i.request.region)
    × (o.verification.environment ≡ i.environment)
    × (o.verification.platform ≡ i.platform)
    × (o.verification.resource_version ≡ i.resource_version)
    × (o.verification.platform_hash ≡ i.platform_hash)
    × (o.verification.catalog_verified ≡ true)
    × ((i.require_full_catalog ≡ false) ⊎ (o.verification.full_catalog ≡ true))
    × ((i.require_full_export ≡ false)
        ⊎ ((e : Export) × (o.export ≡ some e)
            × (e.full_export ≡ true)
            × ((e.retained ≡ true) ⊎ (is_some o.publication_id ≡ true))))
    × ((i.require_publication ≡ false) ⊎ (is_some o.publication_id ≡ true))

-- A completion records what the outcome of a completed job says that the updater has given for the
-- dispatch that the pass began with under the key, which it describes.
abbrev pub Reported :
    (String → Entry → Job → Type 0) → World → String → Entry → String → Option String → Type 0
Reported gave start key d catalog publication =
    (e : Entry) × (job : Job) × (o : Outcome) × (get key start.outbox.ledger.entries ≡ some e)
    × (d.identity ≡ e.identity)
    × gave key e job
    × (job.status ≡ AssetJobs.Status.completed)
    × (job.outcome ≡ some o)
    × Describes e.identity o
    × (catalog ≡ o.verification.catalog_sha256)
    × (publication ≡ o.publication_id)

-- What a pass does to the outbox, and when.
abbrev pub Justified : (String → Entry → Job → Type 0) → World → World → Event → Type 0
Justified gave start o (observed written identity) = ⊥
Justified gave start o (begun now written key) = Unit
Justified gave start o (refusal written key) = Unit
Justified gave start o (acknowledged written key id) = Unit
Justified gave start o (adopted written key id) = ⊥
Justified gave start o (completion written key id catalog publication) =
    (e : Entry) × (held o key ≡ some e) × Reported gave start key e catalog publication
Justified gave start o (failure written key code) = any (str_eq code) failure_codes ≡ true
Justified gave start o (archiving io key id) = ⊥
Justified gave start o (batch written limit) = Unit

abbrev pub with_call : String → HttpRequest → Worker → Worker
with_call key request w = record w {
  calls = (record { key = key; request = request; file = w.outbox.file }) ∷ w.calls;
}

-- `start` is the outbox when the pass begins, and `gave` says which jobs the updater gives for an entry.
module _ (env : Env) (gave : String → Entry → Job → Type 0) (start : World) where
  -- The actions of a pass.
  pub data Step : Worker → Worker → Type 0 where
    driven :
        {w : Worker} (e : Event)
        → Justified gave start w.outbox e
        → Step w (record w { outbox = apply env w.outbox e })
    published :
        {w : Worker} (now : ℕ) (change : DispatchStatus → DispatchStatus)
        → Step w (publish now change w)
    forgotten : {w : Worker} (key : String) → Step w (forget_refusals key w)
    counted :
        {w : Worker} (key : String) (count : ℕ)
        → count < max_refusals
        → Step w (record w { refusals = insert key count w.refusals })
    exhausted :
        {w : Worker} (key : String) (count : ℕ)
        → Step w (forget_refusals key (record w { refusals = insert key count w.refusals }))
    posted :
        {w : Worker} (key : String) (request : HttpRequest)
        → (e : Entry) × (get key start.outbox.ledger.entries ≡ some e) × (e.state ≡ pending)
        → request.method ≡ post_method
        → request.idempotency_key ≡ some key
        → Filed key w.outbox.file
        → Step w (with_call key request w)
    asked :
        {w : Worker} (key : String) (request : HttpRequest)
        → (request.method ≡ post_method → ⊥)
        → Step w (with_call key request w)
    noted : {w : Worker} (errors : ℕ) → Step w (record w { transport_errors = errors })

  pub data Steps : Worker → Worker → Type 0 where
    done : {w : Worker} → Steps w w
    next : {u v w : Worker} → Step u v → Steps v w → Steps u w

  pub Steps-append : {u v w : Worker} → Steps u v → Steps v w → Steps u w
  Steps-append done t = t
  Steps-append (next s rest) t = next s (Steps-append rest t)

  pub one : {u v : Worker} → Step u v → Steps u v
  one s = next s done

  pub and_then-Steps :
      {A B E : Type 0} (w : Worker) (x : Worker × Result A E) (f : A → Worker → Worker × Result B E)
      → Steps w x.0
      → ((a : A) (v : Worker) → x ≡ (v, ok a) → Steps w v → Steps v (f a v).0)
      → Steps w (and_then x f).0
  and_then-Steps w (v, err e) f s h = s
  and_then-Steps w (v, ok a) f s h = Steps-append s (h a v refl s)

  pub if-Steps :
      {R : Type 0} (w : Worker) (b : Bool) (x y : Worker × R)
      → (b ≡ true → Steps w x.0)
      → (b ≡ false → Steps w y.0)
      → Steps w (if b then x else y).0
  if-Steps w true x y s t = s refl
  if-Steps w false x y s t = t refl

  -- The pass began with that dispatch under the key, and it is held with that identity.
  abbrev pub Known : String → Entry → Worker → Type 0
  Known key e w =
      (d : Entry) × (get key start.outbox.ledger.entries ≡ some e)
      × (held w.outbox key ≡ some d)
      × (d.identity ≡ e.identity)

  Keeps-Known :
      (key : String) (e : Entry) (w v : Worker)
      → Keeps w.outbox v.outbox
      → Known key e w
      → Known key e v
  Keeps-Known key e w v k (d, f, h, i) = let (d', h', i', m) = k key d h in (d', f, h', i' ∙ i)

  pub Step-Keeps : {w v : Worker} → Step w v → Keeps w.outbox v.outbox
  unfolding publish
  Step-Keeps {w} (driven e j) = apply-Keeps env w.outbox e
  Step-Keeps {w} (published now change) = Keeps-refl w.outbox
  Step-Keeps {w} (forgotten key) = Keeps-refl w.outbox
  Step-Keeps {w} (counted key count l) = Keeps-refl w.outbox
  Step-Keeps {w} (exhausted key count) = Keeps-refl w.outbox
  Step-Keeps {w} (posted key request b m k f) = Keeps-refl w.outbox
  Step-Keeps {w} (asked key request m) = Keeps-refl w.outbox
  Step-Keeps {w} (noted errors) = Keeps-refl w.outbox

  pub Steps-Known :
      {w v : Worker} (key : String) (e : Entry) → Steps w v → Known key e w → Known key e v
  Steps-Known key e done k = k
  Steps-Known {w} {v} key e (next {v = x} s rest) k =
      Steps-Known key e rest (Keeps-Known key e w x (Step-Keeps s) k)

  Step-remotes : {w v : Worker} → Step w v → v.remotes ≡ w.remotes
  unfolding publish
  Step-remotes (driven e j) = refl
  Step-remotes (published now change) = refl
  Step-remotes (forgotten key) = refl
  Step-remotes (counted key count l) = refl
  Step-remotes (exhausted key count) = refl
  Step-remotes (posted key request b m k f) = refl
  Step-remotes (asked key request m) = refl
  Step-remotes (noted errors) = refl

  pub Steps-remotes : {w v : Worker} → Steps w v → v.remotes ≡ w.remotes
  Steps-remotes done = refl
  Steps-remotes (next s rest) = Steps-remotes rest ∙ Step-remotes s
