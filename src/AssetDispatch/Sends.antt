-- ===== src/AssetDispatch/Sends.antt =====
-- The calls of the updaters during a pass (src/asset_dispatch.rs, `reconcile`).
use sirius_api_proxy.Base.{◌≡◌, some, List, ◌∷◌, get}
use sirius_api_proxy.AssetJobs.{post_method}
use sirius_api_proxy.AssetJobs as AssetJobs
use sirius_api_proxy.AssetOutbox.Entries.{Entry, pending}
use sirius_api_proxy.AssetOutbox.Store.{World}
use sirius_api_proxy.AssetDispatch.Worker.{Worker, Call}
use sirius_api_proxy.AssetDispatch.Steps.{Steps, Filed}

-- A POST carries the key of a dispatch that was pending when the pass began and that the ledger's
-- file holds as being sent.
abbrev pub IsSafe : World → Call → Type 0
IsSafe start c =
    c.request.method ≡ post_method
    → (c.request.idempotency_key ≡ some c.key)
      × ((e : Entry) × (get c.key start.outbox.ledger.entries ≡ some e) × (e.state ≡ pending))
      × Filed c.key c.file

-- The calls of a list before the older ones are safe.
pub data SafeSince (start : World) (old : List Call) : List Call → Type 0 where
  start_of : SafeSince start old old
  one_more :
      {c : Call} {calls : List Call}
      → IsSafe start c
      → SafeSince start old calls
      → SafeSince start old (c ∷ calls)
