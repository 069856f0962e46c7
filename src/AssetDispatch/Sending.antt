-- ===== src/AssetDispatch/Sending.antt =====
-- The ledger's file when a dispatch has begun to be sent (src/asset_dispatch.rs and src/asset_outbox.rs).
use sirius_api_proxy.Base.{
  ℕ, String, ◌≡◌, refl, Bool, true, false, inl, inr, some, arith, str_eq_refl, ok, Option-cases,
  get, contains_key, replace, get-replace,
}
use mathlib.Core.Path.{subst}
use sirius_api_proxy.AssetOutbox.Entries.{
  Entry, State, pending, sending, submitted, Ledger, completed, failed,
}
use sirius_api_proxy.AssetOutbox.Store.{World, holds, commit}
use sirius_api_proxy.AssetOutbox.Changes.{
  write_state, sending_state, begin_send, change, change_found,
}
use sirius_api_proxy.AssetDispatch.Steps.{Filed}

replaced-Filed :
    (key : String) (old e : Entry) (at : ℕ) (l : Ledger)
    → get key l.entries ≡ some old
    → e.state ≡ sending at
    → Filed key (holds (record l { entries = replace key e l.entries }))
unfolding contains_key
replaced-Filed key old e at l g s = (
  record l { entries = replace key e l.entries },
  e,
  at,
  refl,
  ground (arith, g, get-replace key key e l.entries, str_eq_refl key),
  s,
)

sent-Filed :
    (written : Bool) (now : ℕ) (key : String) (e : Entry) (s : State) (o o' : World) (u : Unit)
    → get key o.outbox.ledger.entries ≡ some e
    → write_state written key e (sending_state now s) o ≡ (o', ok u)
    → Filed key o'.file
unfolding write_state sending_state commit
sent-Filed false now key e pending o o' u g h = absurd (ground (arith, h))
sent-Filed false now key e (sending at) o o' u g h = absurd (ground (arith, h))
sent-Filed true now key e pending o o' u g h =
    subst (λ r. Filed key r.0.file) h
      (replaced-Filed key e (record e { state = sending now }) now o.outbox.ledger g refl)
sent-Filed true now key e (sending at) o o' u g h =
    subst (λ r. Filed key r.0.file) h
      (replaced-Filed key e (record e { state = sending at }) at o.outbox.ledger g refl)
sent-Filed written now key e (submitted id) o o' u g h = absurd (ground (arith, h))
sent-Filed written now key e (completed id c p) o o' u g h = absurd (ground (arith, h))
sent-Filed written now key e (failed id c) o o' u g h = absurd (ground (arith, h))

pub begin_send-Filed :
    (written : Bool) (now : ℕ) (key : String) (o o' : World) (u : Unit)
    → begin_send now written key o ≡ (o', ok u)
    → Filed key o'.file
unfolding begin_send change change_found
begin_send-Filed written now key o o' u h = elim (Option-cases (get key o.outbox.ledger.entries)) [
  | inl n ↦ absurd (ground (arith, rw n at h))
  | inr (e, g) ↦ sent-Filed written now key e e.state o o' u g (rw g at h)
]
