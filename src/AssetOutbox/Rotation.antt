-- ===== src/AssetOutbox/Rotation.antt =====
-- The batches of work that reconciliation takes (src/asset_outbox.rs, `next_batch`).
use sirius_api_proxy.Base.{
  ℕ, String, Bool, true, false, not, Option, none, some, [], ◌∷◌, ◌++◌, within, take, last,
  is_none_or, is_some_and, if◌then◌else◌, Result, ok, err, BTreeMap, str_ltb,
}
use sirius_api_proxy.AssetOutbox.Entries.{Error, invalid, Entry, State, completed, failed}
use sirius_api_proxy.AssetOutbox.Store.{World, commit}

unfoldable pub filter_entries : (String × Entry → Bool) → BTreeMap Entry → BTreeMap Entry
filter_entries p [] = []
filter_entries p (e ∷ entries) =
    let rest = filter_entries p entries in if p e then e ∷ rest else rest

unfoldable pub terminal : State → Bool
terminal (completed job catalog publication) = true
terminal (failed job code) = true
terminal _ = false

abbrev pub is_after : Option String → String × Entry → Bool
is_after cursor (key, e) = is_none_or cursor (λ c. str_ltb c key)

abbrev pub is_before : Option String → String × Entry → Bool
is_before cursor (key, e) = is_some_and cursor (λ c. not (str_ltb c key))

abbrev pub is_open : String × Entry → Bool
is_open (key, e) = not (terminal e.state)

-- The entries that are not terminal, those after the cursor first.
unfoldable pub rotated : Option String → BTreeMap Entry → BTreeMap Entry
rotated cursor entries =
    filter_entries is_open
      (filter_entries (is_after cursor) entries ++ filter_entries (is_before cursor) entries)

-- The cursor moves to the last key of the batch before the batch is returned.
unfoldable pub move_cursor :
    Bool → Option (String × Entry) → BTreeMap Entry → World → World × Result (BTreeMap Entry) Error
move_cursor written none batch w = (w, ok batch)
move_cursor written (some (key, e)) batch w =
    let (w', result) =
      commit written (record w.outbox.ledger { reconciliation_cursor = some key }) w in
    (w', elim result [ ok u ↦ ok batch | err x ↦ err x ])

unfoldable pub next_batch : Bool → ℕ → World → World × Result (BTreeMap Entry) Error
next_batch written limit w =
    if not (within 1 256 limit)
    then (w, err invalid)
    else (let batch =
          take limit (rotated w.outbox.ledger.reconciliation_cursor w.outbox.ledger.entries) in
        move_cursor written (last batch) batch w)
