-- ===== src/AssetDispatch/Passes.antt =====
-- A pass of the worker is made of its steps (src/asset_dispatch.rs, `reconcile`).
use sirius_api_proxy.Base.{
  ℕ, String, ◌≡◌, refl, ap, Bool, Option, none, some, [], ◌∷◌, Result, ok, err, BTreeMap, get, List,
  sym,
}
use sirius_api_proxy.AssetJobs.{
  HttpRequest, Outcome, Method, post_method, Job, confirms, submit, get_job, Client,
}
use mathlib.Core.Path.{subst}
use sirius_api_proxy.AssetJobs as AssetJobs
use sirius_api_proxy.AssetOutbox.Entries.{
  Env, Entry, Error, State, pending, sending, submitted, completed, failed,
}
use sirius_api_proxy.AssetOutbox.Store.{World}
use sirius_api_proxy.AssetJobs.Accepted.{submission-key, poll-method, exchanged-some}
use sirius_api_proxy.AssetOutbox.Rotation.{next_batch}
use sirius_api_proxy.AssetOutbox.Events.{begun, batch, apply}
use sirius_api_proxy.AssetDispatch.{Remote}
use sirius_api_proxy.AssetDispatch.Worker.{
  Worker, Io, publish, called, dispatch, logged, with_remote, reconcile_entry, reconcile_entries,
  find_remote, reconcile, reconcile_batch, reconcile_taken, published_pass,
}
use sirius_api_proxy.AssetDispatch.Steps.{
  Step, driven, published, posted, asked, noted, Steps, done, next, Steps-append, one,
  and_then-Steps, Known, Steps-Known, with_call, Steps-remotes,
}
use sirius_api_proxy.AssetOutbox.Members.{All, All-map, next_batch-members}
use sirius_api_proxy.AssetOutbox.Sorted.{IsSorted}
use sirius_api_proxy.AssetOutbox.Lifecycle.{held-ledger}
use sirius_api_proxy.AssetDispatch.Answers.{fail-Steps, on_result-Steps}
use sirius_api_proxy.AssetDispatch.Sending.{begin_send-Filed}

-- What the updater answers to the call that an entry in a state makes.
abbrev pub Answers : AssetJobs.Env → Io → Client → String → Entry → State → Job → Type 0
Answers jobs io client key e pending job =
    (submit jobs io.net client e.identity.request key).1 ≡ ok job
Answers jobs io client key e (submitted id) job =
    (get_job jobs io.net client id e.identity.request).1 ≡ ok job
Answers jobs io client key e _ job = ⊥

-- The job that the updater of an entry's own target answers with.
abbrev pub Gives : AssetJobs.Env → (String → Io) → List Remote → String → Entry → Job → Type 0
Gives jobs io remotes key e job =
    (r : Remote) × (find_remote e remotes ≡ some r)
    × Answers jobs (io key) r.client key e e.state job

module _ (jobs : AssetJobs.Env) (outbox : Env) (gave : String → Entry → Job → Type 0)
    (start : World) where
  -- The worker after a call, with what was sent logged.
  logged-Steps :
      (key : String) (sent : Option HttpRequest) (w : Worker)
      → ((r : HttpRequest) → sent ≡ some r → Step outbox gave start w (with_call key r w))
      → Steps outbox gave start w (logged jobs outbox key sent w)
  logged-Steps key none w h = done
  logged-Steps key (some r) w h = one outbox gave start (h r refl)

  called-Steps :
      (io : Io) (key : String) (e : Entry) (x : Option HttpRequest × Result Job AssetJobs.Error)
      → (w : Worker) → Known outbox gave start key e w
      → ((job : Job) → x.1 ≡ ok job → gave key e job)
      → ((r : HttpRequest) → x.0 ≡ some r → Step outbox gave start w (with_call key r w))
      → Steps outbox gave start w (called jobs outbox io key e x w).0
  unfolding called
  called-Steps io key e x w k g h =
      let logs = logged-Steps key x.0 w h in
      Steps-append outbox gave start logs (
        on_result-Steps jobs outbox gave start io key e x.1 (logged jobs outbox key x.0 w)
          (Steps-Known outbox gave start key e logs k) g)

  dispatch-Steps :
      (io : Io) (key : String) (e : Entry) (r : Remote) (s : State) (w : Worker)
      → e.state ≡ s
      → Known outbox gave start key e w
      → ((job : Job) → Answers jobs io r.client key e s job → gave key e job)
      → Steps outbox gave start w (dispatch jobs outbox io key e r s w).0
  unfolding dispatch apply submit get_job publish
  dispatch-Steps io key e r pending w p k g =
      and_then-Steps outbox gave start w _ _
        (one outbox gave start (driven (begun io.now io.begun key) tt))
        (λ u v b s. next (published io.now (λ s. s)) (
          called-Steps io key e (submit jobs io.net r.client e.identity.request key)
            (publish io.now (λ s. s) v) (Steps-Known outbox gave start key e s k) g
            (λ q sent.
              let (own, method) =
                submission-key jobs r.client e.identity.request key q
                  (exchanged-some jobs io.net _ _ q sent) in
              posted key q (e, k.1, p) method own
                (begin_send-Filed io.begun io.now key w.outbox v.outbox u
                  (ap (λ x. (x.0.outbox, x.1)) b)))))
  dispatch-Steps io key e r (sending at) w p k g =
      fail-Steps jobs outbox gave start io.settled key "submission_ambiguous" w refl
  dispatch-Steps io key e r (submitted id) w p k g =
      called-Steps io key e (get_job jobs io.net r.client id e.identity.request) w k g (λ q sent.
        asked key q (
          poll-method jobs r.client e.identity.request id q
            (exchanged-some jobs io.net _ _ q sent)))
  dispatch-Steps io key e r (completed id c n) w p k g = done
  dispatch-Steps io key e r (failed id c) w p k g = done

  with_remote-Steps :
      (io : Io) (key : String) (e : Entry) (r : Option Remote) (w : Worker)
      → Known outbox gave start key e w
      → ((a : Remote) (job : Job)
          → r ≡ some a
          → Answers jobs io a.client key e e.state job
          → gave key e job)
      → Steps outbox gave start w (with_remote jobs outbox io key e r w).0
  unfolding with_remote
  with_remote-Steps io key e none w k g =
      fail-Steps jobs outbox gave start io.settled key "target_removed" w refl
  with_remote-Steps io key e (some r) w k g =
      dispatch-Steps io key e r e.state w refl k (λ job. g r job refl)

  -- Every entry of the batch is held under its key, with the same identity.
  abbrev AllKnown : BTreeMap Entry → Worker → Type 0
  AllKnown m w = All (λ k e. Known outbox gave start k e w) m

  Steps-AllKnown :
      {w v : Worker} (m : BTreeMap Entry)
      → Steps outbox gave start w v
      → AllKnown m w
      → AllKnown m v
  Steps-AllKnown {w} {v} m s k =
      All-map (λ k e. Known outbox gave start k e w) (λ k e. Known outbox gave start k e v) m
        (λ k e h. Steps-Known outbox gave start k e s h) k

  reconcile_entries-Steps :
      (io : String → Io) (m : BTreeMap Entry) (w : Worker)
      → ((k : String) (e : Entry) (job : Job) → Gives jobs io w.remotes k e job → gave k e job)
      → AllKnown m w
      → Steps outbox gave start w (reconcile_entries jobs outbox io m w).0
  unfolding reconcile_entries reconcile_entry
  reconcile_entries-Steps io [] w g k = done
  reconcile_entries-Steps io ((key, e) ∷ m) w g (k, ks) =
      and_then-Steps outbox gave start w (reconcile_entry jobs outbox (io key) key e w) _
        (with_remote-Steps (io key) key e (find_remote e w.remotes) w k
          (λ a job found answer. g key e job (a, found, answer)))
        (λ u v r s.
          reconcile_entries-Steps io m v
            (subst
              (λ remotes.
                (k : String) (e : Entry) (job : Job) → Gives jobs io remotes k e job → gave k e job)
              (sym (Steps-remotes outbox gave start s)) g)
            (Steps-AllKnown m s ks))

  taken-Steps :
      (written : Bool) (o : World) (w : Worker)
      → (next_batch written 16 w.outbox).0 ≡ o
      → Steps outbox gave start w (record w { outbox = o })
  unfolding apply
  taken-Steps written o w h =
      subst (λ o. Steps outbox gave start w (record w { outbox = o })) h
        (one outbox gave start (driven (batch written 16) tt))

  reconcile_taken-Steps :
      (written : Bool) (io : String → Io) (x : World × Result (BTreeMap Entry) Error) (w : Worker)
      → IsSorted w.outbox.outbox.ledger.entries
      → next_batch written 16 w.outbox ≡ x
      → w.outbox ≡ start
      → ((k : String) (e : Entry) (job : Job) → Gives jobs io w.remotes k e job → gave k e job)
      → Steps outbox gave start w (reconcile_taken jobs outbox io x w).1.0
  unfolding reconcile_taken
  reconcile_taken-Steps written io (o, err x) w s h same g =
      taken-Steps written o w (ap (λ x. x.0) h)
  reconcile_taken-Steps written io (o, ok b) w s h same g =
      let taken = taken-Steps written o w (ap (λ x. x.0) h) in
      let known : AllKnown b w =
        All-map (λ k e. get k w.outbox.outbox.ledger.entries ≡ some e)
          (λ k e. Known outbox gave start k e w) b
          (λ k e g. (
            e,
            subst (λ o. get k o.outbox.ledger.entries ≡ some e) same g,
            held-ledger w.outbox k e g,
            refl,
          ))
          (next_batch-members written 16 w.outbox o b s h) in
      Steps-append outbox gave start taken
        (reconcile_entries-Steps io b (record w { outbox = o }) g (Steps-AllKnown b taken known))

module _ (jobs : AssetJobs.Env) (outbox : Env) where
  -- `reconcile` is a sequence of steps.
  pub reconcile-Steps :
      (now : ℕ) (written : Bool) (io : String → Io) (w : Worker)
      → IsSorted w.outbox.outbox.ledger.entries
      → Steps outbox (Gives jobs io w.remotes) w.outbox w (reconcile jobs outbox now written io w).0
  unfolding reconcile reconcile_batch published_pass
  reconcile-Steps now written io w s =
      let w0 : Worker = record w { transport_errors = 0 } in
      next (noted 0) (
        Steps-append outbox (Gives jobs io w.remotes) w.outbox
          (reconcile_taken-Steps jobs outbox (Gives jobs io w.remotes) w.outbox written io
            (next_batch written 16 w0.outbox) w0 s refl refl (λ k e job h. h))
          (one outbox (Gives jobs io w.remotes) w.outbox (published now _)))
