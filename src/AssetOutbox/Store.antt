-- ===== src/AssetOutbox/Store.antt =====
-- The files of the outbox, and how it is opened and written (src/asset_outbox.rs).
use sirius_api_proxy.Base.{
  ℕ, String, Bool, true, not, ◌&&◌, ◌||◌, none, [], ltb, ◌==◌, within, length, all, str_eq,
  is_some_and, if◌then◌else◌, Result, ok, err, to_option, BTreeMap, contains_key,
}
use sirius_api_proxy.AssetOutbox.Entries.{
  Error, invalid, locked, storage, Entry, Ledger, Env, key, valid_state,
}

-- What a read of `outbox.json` finds.
pub data LedgerFile : Type 0 where
  missing unreadable malformed : LedgerFile
  holds : Ledger → LedgerFile

-- A file of the archive: not a plain file of at most 64 KiB that holds an entry, or one that is.
pub data ArchiveFile : Type 0 where
  unusable : ArchiveFile
  archived_entry : Entry → ArchiveFile

-- The directory `completed`.
pub data ArchiveDirectory : Type 0 where
  absent not_a_directory : ArchiveDirectory
  files : BTreeMap ArchiveFile → ArchiveDirectory

pub record Outbox : Type 0 where
  pub ledger : Ledger
  pub capacity : ℕ

pub record World : Type 0 where
  pub outbox : Outbox
  pub file : LedgerFile
  pub archive : ArchiveDirectory

-- `commit`
unfoldable pub commit : Bool → Ledger → World → World × Result Unit Error
commit written ledger w =
    if written
    then (record w { outbox = record w.outbox { ledger = ledger }; file = holds ledger }, ok tt)
    else (w, err storage)

-- What the file operations of `open` do: the directory, the lock file and the lock.
pub record Opening : Type 0 where
  pub created : Bool
  pub lock_opened : Bool
  pub acquired : Bool
  pub written : Bool

abbrev pub empty_ledger : Ledger
empty_ledger = record { schema_version = 1; reconciliation_cursor = none; entries = [] }

unfoldable pub read_ledger : LedgerFile → Result Ledger Error
read_ledger missing = ok empty_ledger
read_ledger (holds ledger) = ok ledger
read_ledger _ = err storage

module _ (env : Env) where
  -- The body of the loop over the entries.
  unfoldable pub valid_entry : String × Entry → Bool
  valid_entry (k, e) =
      is_some_and (to_option (key env e.identity)) (λ own. str_eq own k) && valid_state env e.state

  unfoldable pub valid_ledger : ℕ → Ledger → Bool
  valid_ledger capacity l =
      not (
        not (l.schema_version == 1)
        || ltb capacity (length l.entries)
        || is_some_and l.reconciliation_cursor (λ key. not (contains_key key l.entries)))
      && all valid_entry l.entries

  -- The ledger that `open` has read is checked, and written back.
  unfoldable pub open_ledger :
      ℕ → Bool → LedgerFile → ArchiveDirectory → Result Ledger Error → Result World Error
  open_ledger capacity written file archive (err e) = err e
  open_ledger capacity written file archive (ok ledger) =
      if valid_ledger capacity ledger
      then (if written
          then ok
              (commit true ledger (record {
                outbox = record { ledger = ledger; capacity = capacity };
                file = file;
                archive = archive;
              })).0
          else err storage)
      else err storage

  unfoldable pub open_outbox : ℕ → Opening → LedgerFile → ArchiveDirectory → Result World Error
  open_outbox capacity io file archive =
      if not (within 1 100000 capacity)
      then err invalid
      else if not (io.created && io.lock_opened)
      then err storage
      else if not io.acquired
      then err locked
      else open_ledger capacity io.written file archive (read_ledger file)
