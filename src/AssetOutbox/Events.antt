-- ===== src/AssetOutbox/Events.antt =====
-- What happens to the outbox (src/asset_outbox.rs): its owner calls its methods in any order, and
-- any write may fail.
use sirius_api_proxy.Base.{ℕ, String, Bool, Option, none, some, List, [], ◌∷◌, or_else, get}
use sirius_api_proxy.AssetOutbox.Entries.{Env, Identity, Entry}
use sirius_api_proxy.AssetOutbox.Store.{World, ArchiveFile, unusable, archived_entry}
use sirius_api_proxy.AssetOutbox.Changes.{begin_send, refused, acknowledge, adopt, complete, fail}
use sirius_api_proxy.AssetOutbox.Archive.{Archiving, archive_file, archive_completed, observe}
use sirius_api_proxy.AssetOutbox.Rotation.{next_batch}

pub data Event : Type 0 where
  observed : (written : Bool) → Identity → Event
  begun : (now : ℕ) → (written : Bool) → (key : String) → Event
  refusal : (written : Bool) → (key : String) → Event
  acknowledged : (written : Bool) → (key id : String) → Event
  adopted : (written : Bool) → (key id : String) → Event
  completion : (written : Bool) → (key id catalog : String) → (publication : Option String) → Event
  failure : (written : Bool) → (key code : String) → Event
  archiving : Archiving → (key id : String) → Event
  batch : (written : Bool) → (limit : ℕ) → Event

module _ (env : Env) where
  unfoldable pub apply : World → Event → World
  apply w (observed written identity) = (observe env written identity w).0
  apply w (begun now written key) = (begin_send now written key w).0
  apply w (refusal written key) = (refused written key w).0
  apply w (acknowledged written key id) = (acknowledge env written key id w).0
  apply w (adopted written key id) = (adopt env written key id w).0
  apply w (completion written key id catalog publication) =
      (complete env written key id catalog publication w).0
  apply w (failure written key code) = (fail written key code w).0
  apply w (archiving io key id) = (archive_completed env io key id w).0
  apply w (batch written limit) = (next_batch written limit w).0

  unfoldable pub run : World → List Event → World
  run w [] = w
  run w (e ∷ events) = run (apply w e) events

abbrev pub entry_of : Option ArchiveFile → Option Entry
entry_of none = none
entry_of (some unusable) = none
entry_of (some (archived_entry e)) = some e

-- The entry that the outbox remembers under a key, in the ledger or in the archive.
unfoldable pub held : World → String → Option Entry
held w k = or_else (get k w.outbox.ledger.entries) (entry_of (archive_file k w.archive))
