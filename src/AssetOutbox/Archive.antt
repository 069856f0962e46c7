-- ===== src/AssetOutbox/Archive.antt =====
-- The archive of completed dispatches, and the observation of new ones (src/asset_outbox.rs).
use sirius_api_proxy.Base.{
  String, Bool, true, false, not, ◌&&◌, ◌||◌, Option, none, some, [], leb, length, str_eq, is_some,
  is_some_and, or_else, if◌then◌else◌, Result, ok, err, get, contains_key, insert, remove,
}
use sirius_api_proxy.AssetOutbox.Entries.{
  Error, invalid, storage, full, Entry, Identity, State, pending, completed, Env, key, uuid,
  valid_key, same_entry,
}
use sirius_api_proxy.AssetOutbox.Store.{
  World, ArchiveFile, unusable, archived_entry, ArchiveDirectory, absent, not_a_directory, files,
  commit, valid_entry,
}

abbrev pub is_completed : State → Bool
is_completed (completed j c p) = true
is_completed _ = false

abbrev pub completed_by : String → State → Bool
completed_by id (completed j c p) = str_eq j id
completed_by id _ = false

-- What the file operations of `archive_completed` do: the archive's file is written, it and the
-- directories are synchronized, and the ledger is written.
pub record Archiving : Type 0 where
  pub filed : Bool
  pub synchronized : Bool
  pub written : Bool

-- A missing directory has no file.
unfoldable pub archive_file : String → ArchiveDirectory → Option ArchiveFile
archive_file key (files m) = get key m
archive_file key _ = none

abbrev pub add_file : String → Entry → ArchiveDirectory → ArchiveDirectory
add_file key e (files m) = files (insert key (archived_entry e) m)
add_file key e _ = files (insert key (archived_entry e) [])

abbrev pub clear_cursor : String → Option String → Option String
clear_cursor key none = none
clear_cursor key (some cursor) = if str_eq cursor key then none else some cursor

-- The ledger forgets the entry.
unfoldable pub forget : Bool → String → Entry → World → World × Result Entry Error
forget written key e w =
    let ledger = w.outbox.ledger in
    if contains_key key ledger.entries
    then (let (w', result) =
          commit written
            (record ledger {
              entries = remove key ledger.entries;
              reconciliation_cursor = clear_cursor key ledger.reconciliation_cursor;
            })
            w in
        (w', elim result [ ok u ↦ ok e | err x ↦ err x ]))
    else (w, ok e)

-- The archive's file is written unless it is there, and then everything is synchronized.
unfoldable pub file_entry :
    Archiving → String → Option Entry → Entry → World → World × Result Entry Error
file_entry io key old e w =
    if is_some old
    then (if io.synchronized then forget io.written key e w else (w, err storage))
    else if io.filed
    then (let w' = record w { archive = add_file key e w.archive } in
        if io.synchronized then forget io.written key e w' else (w', err storage))
    else (w, err storage)

unfoldable pub archive_found :
    Archiving → String → String → Option Entry → Option Entry → World → World × Result Entry Error
archive_found io key id old none w = (w, err invalid)
archive_found io key id old (some e) w =
    if not (completed_by id e.state)
    then (w, err invalid)
    else if is_some_and old (λ o. not (same_entry o e))
    then (w, err storage)
    else file_entry io key old e w

unfoldable pub observe_new : Bool → String → Identity → World → World × Result String Error
observe_new written key identity w =
    let ledger = w.outbox.ledger in
    if leb w.outbox.capacity (length ledger.entries)
    then (w, err full)
    else (let (w', result) =
          commit written
            (record ledger {
              entries = insert key (record { identity = identity; state = pending }) ledger.entries;
            })
            w in
        (w', elim result [ ok u ↦ ok key | err x ↦ err x ]))

module _ (env : Env) where
  -- The entry of a file is returned when it is a valid completion under that key.
  unfoldable pub read_archived : String → Option ArchiveFile → Result (Option Entry) Error
  read_archived key none = ok none
  read_archived key (some unusable) = err storage
  read_archived key (some (archived_entry e)) =
      if valid_entry env (key, e) && is_completed e.state then ok (some e) else err storage

  unfoldable pub archived : String → ArchiveDirectory → Result (Option Entry) Error
  archived key archive =
      if valid_key key
      then elim archive [
        | not_a_directory ↦ err storage
        | absent ↦ ok none
        | files m ↦ read_archived key (get key m)
      ]
      else err invalid

  unfoldable pub archive_completed :
      Archiving → String → String → World → World × Result Entry Error
  archive_completed io key id w =
      if not (valid_key key) || not (uuid env id)
      then (w, err invalid)
      else elim (archived key w.archive) [
        | err x ↦ (w, err x)
        | ok old ↦ archive_found io key id old (or_else (get key w.outbox.ledger.entries) old) w
      ]

  unfoldable pub observe_key : Bool → String → Identity → World → World × Result String Error
  observe_key written key identity w =
      if contains_key key w.outbox.ledger.entries
      then (w, ok key)
      else elim (archived key w.archive) [
        | err x ↦ (w, err x)
        | ok (some e) ↦ (w, ok key)
        | ok none ↦ observe_new written key identity w
      ]

  unfoldable pub observe_found :
      Bool → Identity → Result String Error → World → World × Result String Error
  observe_found written identity (err x) w = (w, err x)
  observe_found written identity (ok k) w = observe_key written k identity w

  unfoldable pub observe : Bool → Identity → World → World × Result String Error
  observe written identity w = observe_found written identity (key env identity) w
