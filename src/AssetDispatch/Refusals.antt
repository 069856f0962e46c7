-- ===== src/AssetDispatch/Refusals.antt =====
-- The counts of busy answers (src/asset_dispatch.rs, `refusals`), and what a pass keeps.
use sirius_api_proxy.Base.{
  ℕ, String, ◌≡◌, refl, Bool, true, [], ◌∷◌, arith, inl, inr, Bool-cases, ltb, all, str_eq_refl,
  BTreeMap, insert, remove, all-insert, all-remove, sym, lt→ltb,
}
use sirius_api_proxy.AssetJobs as AssetJobs
use sirius_api_proxy.AssetOutbox.Entries.{Env, Entry}
use sirius_api_proxy.AssetOutbox.Store.{World}
use sirius_api_proxy.AssetOutbox.Events.{
  Event, observed, begun, refusal, acknowledged, adopted, completion, failure, archiving, batch,
}
use sirius_api_proxy.AssetOutbox.Sorted.{IsSorted}
use sirius_api_proxy.AssetOutbox.Validity.{IsSound}
use sirius_api_proxy.AssetOutbox.Restart.{apply-IsSound}
use sirius_api_proxy.AssetOutbox.Order.{replaces, apply-IsSorted}
use sirius_api_proxy.AssetDispatch.{max_refusals}
use sirius_api_proxy.AssetDispatch.Worker.{Worker, Io, publish, reconcile}
use sirius_api_proxy.AssetDispatch.Steps.{
  Step, driven, published, forgotten, counted, exhausted, posted, asked, noted, Steps, done, next,
  Justified,
}
use sirius_api_proxy.AssetDispatch.Passes.{reconcile-Steps, Gives}
use mathlib.Core.Path.{subst}
use sirius_api_proxy.AssetJobs.{Job}

abbrev below_limit : String × ℕ → Bool
below_limit x = ltb x.1 max_refusals

-- The outbox is sound, its entries are in the order of their keys, and every count of busy answers
-- is below the limit.
pub record IsWell (env : Env) (w : Worker) : Type 0 where
  pub sound : IsSound env w.outbox
  pub sorted : IsSorted w.outbox.outbox.ledger.entries
  pub bounded : all (λ x. ltb x.1 max_refusals) w.refusals ≡ true

all-forgotten :
    (k : String) (n : ℕ) (m : BTreeMap ℕ)
    → all below_limit m ≡ true
    → all below_limit (remove k (insert k n m)) ≡ true
unfolding insert remove
all-forgotten k n [] h = ground (arith, str_eq_refl k)
all-forgotten k n ((j, c) ∷ m) h = elim (Bool-cases (ltb c max_refusals)) [
  | inr e ↦ absurd (ground (arith, h, e))
  | inl e ↦ ground (
    arith,
    h,
    e,
    str_eq_refl k,
    all-remove below_limit k m (ground (arith, h, e)),
    all-forgotten k n m (ground (arith, h, e)),
  )
]

Justified-replaces :
    (gave : String → Entry → Job → Type 0) (start w : World) (e : Event)
    → Justified gave start w e
    → replaces e ≡ true
Justified-replaces gave start w (observed written i) j = absurd j
Justified-replaces gave start w (begun now written k) j = refl
Justified-replaces gave start w (refusal written k) j = refl
Justified-replaces gave start w (acknowledged written k id) j = refl
Justified-replaces gave start w (adopted written k id) j = absurd j
Justified-replaces gave start w (completion written k id catalog publication) j = refl
Justified-replaces gave start w (failure written k code) j = refl
Justified-replaces gave start w (archiving io k id) j = absurd j
Justified-replaces gave start w (batch written limit) j = refl

module _ (env : Env) (gave : String → Entry → Job → Type 0) (start : World) where
  -- A step that leaves the outbox alone.
  outside :
      (w v : Worker)
      → v.outbox ≡ w.outbox
      → all below_limit v.refusals ≡ true
      → IsWell env w
      → IsWell env v
  outside w v same b s = record {
    sound = subst (IsSound env) (sym same) s.sound;
    sorted = subst (λ o. IsSorted o.outbox.ledger.entries) (sym same) s.sorted;
    bounded = b;
  }

  Step-IsWell : {w v : Worker} → Step env gave start w v → IsWell env w → IsWell env v
  unfolding publish
  Step-IsWell {w} (driven e j) s = record {
    sound = apply-IsSound env w.outbox e s.sound;
    sorted = apply-IsSorted env w.outbox e (Justified-replaces gave start w.outbox e j) s.sorted;
    bounded = s.bounded;
  }
  Step-IsWell {w} {v} (published now change) s = outside w v refl s.bounded s
  Step-IsWell {w} {v} (forgotten key) s =
      outside w v refl (all-remove below_limit key w.refusals s.bounded) s
  Step-IsWell {w} {v} (counted key count l) s =
      outside w v refl
        (all-insert below_limit key count w.refusals s.bounded (lt→ltb count max_refusals l)) s
  Step-IsWell {w} {v} (exhausted key count) s =
      outside w v refl (all-forgotten key count w.refusals s.bounded) s
  Step-IsWell {w} {v} (posted key request b m k f) s = outside w v refl s.bounded s
  Step-IsWell {w} {v} (asked key request m) s = outside w v refl s.bounded s
  Step-IsWell {w} {v} (noted errors) s = outside w v refl s.bounded s

  Steps-IsWell : {w v : Worker} → Steps env gave start w v → IsWell env w → IsWell env v
  Steps-IsWell done s = s
  Steps-IsWell (next t rest) s = Steps-IsWell rest (Step-IsWell t s)

-- Whatever the updaters answer and whichever writes fail, a pass keeps the outbox sound: the ledger
-- is within its capacity, valid, in the order of its keys, and exactly what its file holds. It
-- also keeps every count of busy answers below ten, so that no count can overflow.
pub reconcile-IsWell :
    (jobs : AssetJobs.Env) (env : Env) (now : ℕ) (written : Bool) (io : String → Io) (w : Worker)
    → IsWell env w
    → IsWell env (reconcile jobs env now written io w).0
reconcile-IsWell jobs env now written io w s =
    Steps-IsWell env (Gives jobs io w.remotes) w.outbox
      (reconcile-Steps jobs env now written io w s.sorted) s
