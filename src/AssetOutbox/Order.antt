-- ===== src/AssetOutbox/Order.antt =====
-- Methods that change the state of entries keep the ledger in the order of its keys
-- (src/asset_outbox.rs).
use sirius_api_proxy.Base.{
  String, ◌≡◌, refl, Bool, true, false, Option, none, some, [], ◌∷◌, arith, inl, inr, Bool-cases,
  Option-cases, str_eq, str_ltb, BTreeMap, get, replace, Result, ok, err, within, not,
  if◌then◌else◌, is_some_and, ◌||◌,
}
use sirius_api_proxy.AssetOutbox.Entries.{
  Env, Entry, Error, State, uuid, digest, valid_code, Ledger,
}
use sirius_api_proxy.AssetOutbox.Store.{World, commit}
use sirius_api_proxy.AssetOutbox.Changes.{
  change, change_found, write_state, begin_send, refused, acknowledge, complete, fail, adopt,
}
use sirius_api_proxy.AssetOutbox.Rotation.{next_batch, move_cursor}
use sirius_api_proxy.AssetOutbox.Sorted.{above, IsSorted, all-parts}
use sirius_api_proxy.AssetOutbox.Events.{
  Event, observed, begun, refusal, acknowledged, adopted, completion, failure, archiving, batch,
  apply,
}

above-replace :
    (j k : String) (e : Entry) (m : BTreeMap Entry)
    → above j m ≡ true
    → above j (replace k e m) ≡ true
unfolding replace
above-replace j k e [] h = refl
above-replace j k e ((i, d) ∷ m) h =
    let (first, rest) = all-parts (λ x. str_ltb j x.0) (i, d) m h in
    elim (Bool-cases (str_eq k i)) [
      | inl t ↦ rw t (ground (arith, first, above-replace j k e m rest))
      | inr t ↦ rw t (ground (arith, first, above-replace j k e m rest))
    ]

IsSorted-replace :
    (k : String) (e : Entry) (m : BTreeMap Entry) → IsSorted m → IsSorted (replace k e m)
unfolding replace
IsSorted-replace k e [] s = tt
IsSorted-replace k e ((i, d) ∷ m) (h, s) = elim (Bool-cases (str_eq k i)) [
  | inl t ↦ rw t (above-replace i k e m h, IsSorted-replace k e m s)
  | inr t ↦ rw t (above-replace i k e m h, IsSorted-replace k e m s)
]

abbrev Ordered : World → Type 0
Ordered w = IsSorted w.outbox.ledger.entries

commit-Ordered :
    (written : Bool) (l : Ledger) (w : World)
    → IsSorted l.entries
    → Ordered w
    → Ordered (commit written l w).0
unfolding commit
commit-Ordered true l w n s = n
commit-Ordered false l w n s = s

write_state-Ordered :
    (written : Bool) (k : String) (e : Entry) (r : Result State Error) (w : World)
    → Ordered w
    → Ordered (write_state written k e r w).0
unfolding write_state
write_state-Ordered written k e (err x) w s = s
write_state-Ordered written k e (ok t) w s =
    commit-Ordered written _ w (IsSorted-replace k _ w.outbox.ledger.entries s) s

change-Ordered :
    (written : Bool) (k : String) (f : State → Result State Error) (w : World)
    → Ordered w
    → Ordered (change written k f w).0
unfolding change change_found
change-Ordered written k f w s = elim (Option-cases (get k w.outbox.ledger.entries)) [
  | inl g ↦ rw g s
  | inr (e, g) ↦ rw g (write_state-Ordered written k e (f e.state) w s)
]

if-Ordered :
    {R : Type 0} (b : Bool) (x y : World × R)
    → Ordered x.0
    → Ordered y.0
    → Ordered (if b then x else y).0
if-Ordered true x y s t = s
if-Ordered false x y s t = t

move_cursor-Ordered :
    (written : Bool) (l : Option (String × Entry)) (b : BTreeMap Entry) (w : World)
    → Ordered w
    → Ordered (move_cursor written l b w).0
unfolding move_cursor
move_cursor-Ordered written none b w s = s
move_cursor-Ordered written (some (k, e)) b w s = commit-Ordered written _ w s s

-- The events that neither add nor remove an entry.
abbrev pub replaces : Event → Bool
replaces (observed written i) = false
replaces (archiving io k id) = false
replaces _ = true

pub apply-IsSorted :
    (env : Env) (w : World) (e : Event)
    → replaces e ≡ true
    → IsSorted w.outbox.ledger.entries
    → IsSorted (apply env w e).outbox.ledger.entries
unfolding apply begin_send refused acknowledge adopt complete fail next_batch
apply-IsSorted env w (observed written i) r s = absurd (ground (arith, r))
apply-IsSorted env w (begun now written k) r s = change-Ordered written k _ w s
apply-IsSorted env w (refusal written k) r s = change-Ordered written k _ w s
apply-IsSorted env w (acknowledged written k id) r s =
    if-Ordered (uuid env id) _ _ (change-Ordered written k _ w s) s
apply-IsSorted env w (adopted written k id) r s =
    if-Ordered (uuid env id) _ _ (change-Ordered written k _ w s) s
apply-IsSorted env w (completion written k id catalog publication) r s =
    if-Ordered (not (digest catalog) || is_some_and publication (λ v. not (uuid env v))) _ _ s
      (change-Ordered written k _ w s)
apply-IsSorted env w (failure written k code) r s =
    if-Ordered (valid_code code) _ _ (change-Ordered written k _ w s) s
apply-IsSorted env w (archiving io k id) r s = absurd (ground (arith, r))
apply-IsSorted env w (batch written limit) r s =
    if-Ordered (not (within 1 256 limit)) _ _ s (move_cursor-Ordered written _ _ w s)
