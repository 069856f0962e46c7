-- ===== src/AssetOutbox/Validity.antt =====
-- What `Outbox::open` checks of a ledger and its file (src/asset_outbox.rs), and the methods.
use sirius_api_proxy.Base.{
  ℕ, ◌≤◌, String, ◌≡◌, refl, ◌∙◌, Bool, true, false, not, Option, none, some, arith, inl, inr,
  Bool-cases, Option-cases, str_eq_iff, str_eq_refl, Result, ok, err, BTreeMap, get, contains_key,
  insert, remove, leb, replace, get-replace, get-insert, get-remove, length-replace, length-insert,
  length-remove-le, all-insert, all-remove, all-replace, all-get, length, all, is_some_and,
}
use sirius_api_proxy.AssetOutbox.Entries.{
  Env, Error, Identity, Entry, Ledger, State, pending, key, valid_state,
}
use sirius_api_proxy.AssetOutbox.Store.{World, holds, commit, valid_entry}
use sirius_api_proxy.AssetOutbox.Changes.{change, change_found, write_state}
use sirius_api_proxy.AssetOutbox.Archive.{forget, clear_cursor, observe_new}

module _ (env : Env) where
  -- What `open` checks of a ledger.
  pub record IsGood (capacity : ℕ) (l : Ledger) : Type 0 where
    pub version : l.schema_version ≡ 1
    pub room : length l.entries ≤ capacity
    pub cursor : is_some_and l.reconciliation_cursor (λ k. not (contains_key k l.entries)) ≡ false
    pub valid : all (valid_entry env) l.entries ≡ true

  -- The ledger is good, and its file holds it.
  pub record IsSound (w : World) : Type 0 where
    pub good : IsGood w.outbox.capacity w.outbox.ledger
    pub filed : w.file ≡ holds w.outbox.ledger

  pub commit-IsSound :
      (written : Bool) (l : Ledger) (w : World)
      → IsGood w.outbox.capacity l
      → IsSound w
      → IsSound (commit written l w).0
  unfolding commit
  commit-IsSound true l w g s = record { good = g; filed = refl }
  commit-IsSound false l w g s = s

  -- What a closure of `change` gives is valid.
  abbrev pub Fine : Result State Error → Type 0
  Fine (err e) = Unit
  Fine (ok t) = valid_state env t ≡ true

  contains-replace :
      (j k : String) (v : Entry) (m : BTreeMap Entry)
      → contains_key j (replace k v m) ≡ contains_key j m
  unfolding contains_key
  contains-replace j k v m = ground (arith, get-replace j k v m, str_eq_iff j k)

  cursor-replace :
      (c : Option String) (k : String) (v : Entry) (m : BTreeMap Entry)
      → is_some_and c (λ j. not (contains_key j (replace k v m)))
        ≡ is_some_and c (λ j. not (contains_key j m))
  cursor-replace none k v m = refl
  cursor-replace (some j) k v m = rw (contains-replace j k v m) refl

  valid_entry-state :
      (k : String) (e : Entry) (t : State)
      → valid_entry env (k, e) ≡ true
      → valid_state env t ≡ true
      → valid_entry env (k, record e { state = t }) ≡ true
  unfolding valid_entry
  valid_entry-state k e t h v = ground (arith, h, v)

  replaced-IsGood :
      (k : String) (e : Entry) (t : State) (capacity : ℕ) (l : Ledger)
      → get k l.entries ≡ some e
      → valid_state env t ≡ true
      → IsGood capacity l
      → IsGood capacity (record l { entries = replace k (record e { state = t }) l.entries })
  replaced-IsGood k e t capacity l g f s = record {
    version = s.version;
    room = rw (length-replace k (record e { state = t }) l.entries) s.room;
    cursor = cursor-replace l.reconciliation_cursor k (record e { state = t }) l.entries ∙ s.cursor;
    valid =
        all-replace (valid_entry env) k (record e { state = t }) l.entries s.valid
          (λ i same.
            rw (← (str_eq_iff k i).0 same)
              (valid_entry-state k e t (all-get (valid_entry env) k e l.entries s.valid g) f));
  }

  write_state-IsSound :
      (written : Bool) (k : String) (e : Entry) (r : Result State Error) (w : World)
      → get k w.outbox.ledger.entries ≡ some e
      → Fine r
      → IsSound w
      → IsSound (write_state written k e r w).0
  unfolding write_state
  write_state-IsSound written k e (err x) w g f s = s
  write_state-IsSound written k e (ok t) w g f s =
      commit-IsSound written _ w
        (replaced-IsGood k e t w.outbox.capacity w.outbox.ledger g f s.good) s

  valid-state :
      (k : String) (e : Entry) → valid_entry env (k, e) ≡ true → valid_state env e.state ≡ true
  unfolding valid_entry
  valid-state k e h = ground (arith, h)

  pub change-IsSound :
      (written : Bool) (k : String) (f : State → Result State Error) (w : World)
      → ((s : State) → valid_state env s ≡ true → Fine (f s))
      → IsSound w
      → IsSound (change written k f w).0
  unfolding change change_found
  change-IsSound written k f w fine s = elim (Option-cases (get k w.outbox.ledger.entries)) [
    | inl g ↦ rw g s
    | inr (e, g) ↦ rw g (
        write_state-IsSound written k e (f e.state) w g
          (fine e.state (
            valid-state k e (all-get (valid_entry env) k e w.outbox.ledger.entries s.good.valid g)))
          s)
  ]

  valid_entry-pending :
      (k : String) (i : Identity)
      → key env i ≡ ok k
      → valid_entry env (k, record { identity = i; state = pending }) ≡ true
  unfolding valid_entry valid_state
  valid_entry-pending k i own = rw own (ground (arith, str_eq_refl k))

  cursor-insert :
      (c : Option String) (k : String) (v : Entry) (m : BTreeMap Entry)
      → is_some_and c (λ j. not (contains_key j m)) ≡ false
      → is_some_and c (λ j. not (contains_key j (insert k v m))) ≡ false
  unfolding contains_key
  cursor-insert none k v m h = refl
  cursor-insert (some j) k v m h = ground (arith, h, get-insert j k v m)

  pub observe_new-IsSound :
      (written : Bool) (k : String) (i : Identity) (w : World)
      → key env i ≡ ok k
      → contains_key k w.outbox.ledger.entries ≡ false
      → IsSound w
      → IsSound (observe_new written k i w).0
  unfolding observe_new
  observe_new-IsSound written k i w own free s =
      elim (Bool-cases (leb w.outbox.capacity (length w.outbox.ledger.entries))) [
        | inl e ↦ simp e s
        | inr e ↦
            let new : Entry = record { identity = i; state = pending } in
            let l = w.outbox.ledger in
            simp e (
              commit-IsSound written (record l { entries = insert k new l.entries }) w
                (record {
                  version = s.good.version;
                  room = ground (arith, e, length-insert k new l.entries free);
                  cursor = cursor-insert l.reconciliation_cursor k new l.entries s.good.cursor;
                  valid =
                      all-insert (valid_entry env) k new l.entries s.good.valid
                        (valid_entry-pending k i own);
                })
                s)
      ]

  cursor-remove :
      (c : Option String) (k : String) (m : BTreeMap Entry)
      → is_some_and c (λ j. not (contains_key j m)) ≡ false
      → is_some_and (clear_cursor k c) (λ j. not (contains_key j (remove k m))) ≡ false
  unfolding contains_key
  cursor-remove none k m h = refl
  cursor-remove (some j) k m h = ground (arith, h, get-remove j k m)

  pub forget-IsSound :
      (written : Bool) (k : String) (e : Entry) (w : World)
      → IsSound w
      → IsSound (forget written k e w).0
  unfolding forget
  forget-IsSound written k e w s = elim (Bool-cases (contains_key k w.outbox.ledger.entries)) [
    | inr e ↦ simp e s
    | inl e ↦
        let l = w.outbox.ledger in
        simp e (
          commit-IsSound written
            (record l {
              entries = remove k l.entries;
              reconciliation_cursor = clear_cursor k l.reconciliation_cursor;
            })
            w
            (record {
              version = s.good.version;
              room = omega (arith, s.good.room, length-remove-le k l.entries);
              cursor = cursor-remove l.reconciliation_cursor k l.entries s.good.cursor;
              valid = all-remove (valid_entry env) k l.entries s.good.valid;
            })
            s)
  ]
