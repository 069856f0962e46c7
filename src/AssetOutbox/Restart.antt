-- ===== src/AssetOutbox/Restart.antt =====
-- The outbox after a restart (src/asset_outbox.rs).
use sirius_api_proxy.Base.{
  ℕ, String, ◌≡◌, refl, ap, Bool, true, not, ◌||◌, Option, none, some, List, [], ◌∷◌, arith, inl,
  inr, Bool-cases, Result-cases, Result, ok, err, BTreeMap, contains_key, within, is_some_and,
}
use sirius_api_proxy.AssetOutbox.Entries.{
  Env, Error, Identity, Entry, Ledger, key, uuid, digest, valid_code, valid_key,
}
use sirius_api_proxy.AssetOutbox.Store.{
  World, commit, valid_ledger, open_outbox, open_ledger, read_ledger,
}
use sirius_api_proxy.AssetOutbox.Changes.{begin_send, refused, acknowledge, adopt, complete, fail}
use sirius_api_proxy.AssetOutbox.Archive.{
  Archiving, archived, archive_completed, observe_key, observe_found, observe,
}
use sirius_api_proxy.AssetOutbox.Rotation.{move_cursor, next_batch}
use sirius_api_proxy.AssetOutbox.Events.{
  Event, observed, begun, refusal, acknowledged, adopted, completion, failure, archiving, batch,
  apply, run,
}
use sirius_api_proxy.AssetOutbox.Validity.{
  IsGood, IsSound, commit-IsSound, change-IsSound, observe_new-IsSound,
}
use sirius_api_proxy.AssetOutbox.Batch.{contains-last}
use sirius_api_proxy.AssetOutbox.ValidStates.{
  Fine-sending, Fine-refused, Fine-acknowledged, Fine-adopted, Fine-completed, Fine-failed,
  guarded-IsSound, refusing-IsSound, archive_found-IsSound,
}

module _ (env : Env) where
  archive_completed-IsSound :
      (io : Archiving) (k id : String) (w : World)
      → IsSound env w
      → IsSound env (archive_completed env io k id w).0
  unfolding archive_completed
  archive_completed-IsSound io k id w s =
      refusing-IsSound env (not (valid_key k) || not (uuid env id)) w _ _ s (λ _.
        elim (Result-cases (archived env k w.archive)) [
          | inr (x, a) ↦ rw a s
          | inl (old, a) ↦ rw a (archive_found-IsSound env io k id old _ w s)
        ])

  observe_key-IsSound :
      (written : Bool) (k : String) (i : Identity) (w : World)
      → key env i ≡ ok k
      → IsSound env w
      → IsSound env (observe_key env written k i w).0
  unfolding observe_key
  observe_key-IsSound written k i w own s =
      elim (Bool-cases (contains_key k w.outbox.ledger.entries)) [
        | inl e ↦ simp e s
        | inr e ↦ elim (Result-cases (archived env k w.archive)) [
          | inr (x, a) ↦ simp (e, a) s
          | inl (some o, a) ↦ simp (e, a) s
          | inl (none, a) ↦ simp (e, a) (observe_new-IsSound env written k i w own e s)
        ]
      ]

  observe_found-IsSound :
      (written : Bool) (i : Identity) (r : Result String Error) (w : World)
      → key env i ≡ r
      → IsSound env w
      → IsSound env (observe_found env written i r w).0
  unfolding observe_found
  observe_found-IsSound written i (err x) w own s = s
  observe_found-IsSound written i (ok k) w own s = observe_key-IsSound written k i w own s

  move_cursor-IsSound :
      (written : Bool) (l : Option (String × Entry)) (b : BTreeMap Entry) (w : World)
      → ((k : String) (e : Entry) → l ≡ some (k, e) → contains_key k w.outbox.ledger.entries ≡ true)
      → IsSound env w
      → IsSound env (move_cursor written l b w).0
  unfolding move_cursor
  move_cursor-IsSound written none b w c s = s
  move_cursor-IsSound written (some (k, e)) b w c s =
      commit-IsSound env written _ w
        (record {
          version = s.good.version;
          room = s.good.room;
          cursor = ap not (c k e refl);
          valid = s.good.valid;
        })
        s

  pub apply-IsSound : (w : World) (e : Event) → IsSound env w → IsSound env (apply env w e)
  unfolding apply begin_send refused acknowledge adopt complete fail observe next_batch
  apply-IsSound w (observed written i) s = observe_found-IsSound written i (key env i) w refl s
  apply-IsSound w (begun now written k) s =
      change-IsSound env written k _ w (Fine-sending env now) s
  apply-IsSound w (refusal written k) s = change-IsSound env written k _ w (Fine-refused env) s
  apply-IsSound w (acknowledged written k id) s =
      guarded-IsSound env (uuid env id) w _ _ s
        (λ u. change-IsSound env written k _ w (λ t v. Fine-acknowledged env id t u v) s)
  apply-IsSound w (adopted written k id) s =
      guarded-IsSound env (uuid env id) w _ _ s
        (λ u. change-IsSound env written k _ w (λ t v. Fine-adopted env id t u v) s)
  apply-IsSound w (completion written k id catalog publication) s =
      refusing-IsSound env (not (digest catalog) || is_some_and publication (λ v. not (uuid env v)))
        w _ _ s
        (λ g.
          change-IsSound env written k _ w (λ t v. Fine-completed env id catalog publication t g v)
            s)
  apply-IsSound w (failure written k code) s =
      guarded-IsSound env (valid_code code) w _ _ s
        (λ c. change-IsSound env written k _ w (λ t v. Fine-failed env code t c v) s)
  apply-IsSound w (archiving io k id) s = archive_completed-IsSound io k id w s
  apply-IsSound w (batch written limit) s =
      refusing-IsSound env (not (within 1 256 limit)) w _ _ s (λ _.
        move_cursor-IsSound written _ _ w
          (λ k e l.
            contains-last limit w.outbox.ledger.reconciliation_cursor w.outbox.ledger.entries k e l)
          s)

  -- Whatever its owner does and whichever writes fail, the ledger stays within its capacity, its
  -- entries stay valid under the keys of their identities, its cursor stays a key of it, and the
  -- ledger's file holds exactly the ledger.
  pub run-IsSound :
      (w : World) (events : List Event) → IsSound env w → IsSound env (run env w events)
  unfolding run
  run-IsSound w [] s = s
  run-IsSound w (e ∷ events) s = run-IsSound (apply env w e) events (apply-IsSound w e s)

  valid_ledger-good :
      (capacity : ℕ) (l : Ledger) → IsGood env capacity l → valid_ledger env capacity l ≡ true
  unfolding valid_ledger
  valid_ledger-good capacity l g = simp (g.cursor, g.valid) (ground (arith, g.version, g.room))

  reopened :
      (w : World)
      → IsSound env w
      → within 1 100000 w.outbox.capacity ≡ true
      → open_outbox env w.outbox.capacity
          (record { created = true; lock_opened = true; acquired = true; written = true })
          w.file
          w.archive
        ≡ ok w
  unfolding open_outbox open_ledger read_ledger commit
  reopened w s c =
      rw s.filed (simp (c, valid_ledger-good w.outbox.capacity w.outbox.ledger s.good) refl)

  -- A process that restarts after any run, with the same capacity and files that it can use, finds
  -- exactly the ledger that the last process had, and the archive.
  pub open_outbox-run :
      (w : World) (events : List Event)
      → IsSound env w
      → within 1 100000 (run env w events).outbox.capacity ≡ true
      → open_outbox env
          (run env w events).outbox.capacity
          (record { created = true; lock_opened = true; acquired = true; written = true })
          (run env w events).file
          (run env w events).archive
        ≡ ok (run env w events)
  open_outbox-run w events s c = reopened (run env w events) (run-IsSound w events s) c
