-- ===== src/AssetOutbox/Tests.antt =====
-- Runs of the outbox (src/asset_outbox.rs) at concrete inputs.
use sirius_api_proxy.Base.{
  ◌++◌, Option, String, ◌≡◌, refl, true, false, none, some, List, [], ◌∷◌, arith, ok, BTreeMap, get,
  contains_key, str_eq, if◌then◌else◌, within, insert, remove, replace, str_ltb,
}
use sirius_api_proxy.Region.{jp}
use sirius_api_proxy.AssetOutbox.Entries.{
  Env, Identity, Entry, State, pending, submitted, completed, failed, update, key, acceptable,
  digest, component, is_cn, has_dot, uuid, valid_state, valid_key, skip,
}
use sirius_api_proxy.AssetOutbox.Store.{World, holds, absent, commit, valid_entry, open_outbox}
use sirius_api_proxy.AssetOutbox.Changes.{
  change, change_found, write_state, begin_send, refused, acknowledge, complete, sending_state,
  refused_state, acknowledged_state, completed_state,
}
use sirius_api_proxy.AssetOutbox.Archive.{
  archived, archive_file, archive_completed, archive_found, file_entry, forget, observe,
  observe_found, observe_key, observe_new,
}
use sirius_api_proxy.AssetOutbox.Rotation.{
  next_batch, rotated, filter_entries, move_cursor, terminal,
}
use sirius_api_proxy.AssetOutbox.Events.{
  Event, observed, begun, refusal, acknowledged, completion, archiving, batch, run, apply, held,
}
use sirius_api_proxy.AssetOutbox.Lifecycle.{Moves}
use sirius_api_proxy.AssetOutbox.Runs.{run-Moves, job_kept, settled_forever, job_of}
use sirius_api_proxy.AssetOutbox.Validity.{IsSound}
use sirius_api_proxy.AssetOutbox.Restart.{run-IsSound, open_outbox-run}
use sirius_api_proxy.AssetOutbox.Parts.{drop}
use sirius_api_proxy.AssetOutbox.Sorted.{IsSorted}
use sirius_api_proxy.AssetOutbox.Fairness.{next_batch-rotates}

abbrev hash_a : String
hash_a = "aaaaaaaaaaaaaaaaaaaaaaaaaaaaaaaaaaaaaaaaaaaaaaaaaaaaaaaaaaaaaaaa"

abbrev hash_b : String
hash_b = "bbbbbbbbbbbbbbbbbbbbbbbbbbbbbbbbbbbbbbbbbbbbbbbbbbbbbbbbbbbbbbbb"

-- Every text is read as a UUID that prints the same; the hash depends on the platform alone.
abbrev env : Env
env = record {
  sha256 = λ i. if str_eq i.platform "iOS" then hash_a else hash_b;
  parse_uuid = λ v. some v;
}

abbrev identity : String → Identity
identity platform = record {
  destination_sha256 = hash_a;
  request = record { region = jp; profile = "main"; operation = update };
  profile_revision = "r1";
  environment = "prod";
  platform = platform;
  resource_version = "1.2.3";
  platform_hash = "h";
  require_full_catalog = true;
  require_full_export = false;
  require_publication = false;
}

abbrev key_a : String
key_a = "sirius-aaaaaaaaaaaaaaaaaaaaaaaaaaaaaaaaaaaaaaaaaaaaaaaaaaaaaaaaaaaaaaaa"

abbrev key_b : String
key_b = "sirius-bbbbbbbbbbbbbbbbbbbbbbbbbbbbbbbbbbbbbbbbbbbbbbbbbbbbbbbbbbbbbbbb"

abbrev entry : State → Entry
entry state = record { identity = identity "iOS"; state = state }

abbrev world : State → World
world state = record {
  outbox = record {
    ledger = record {
      schema_version = 1;
      reconciliation_cursor = some key_a;
      entries = (key_a, entry state) ∷ [];
    };
    capacity = 2;
  };
  file = holds (record {
    schema_version = 1;
    reconciliation_cursor = some key_a;
    entries = (key_a, entry state) ∷ [];
  });
  archive = absent;
}

-- One dispatch is sent, refused, sent again and completed, and goes to the archive, beside another.
abbrev events : List Event
events =
    begun 5 true key_a
    ∷ observed true (identity "Android")
    ∷ refusal true key_a
    ∷ begun 7 true key_a
    ∷ acknowledged true key_a "job"
    ∷ batch true 1
    ∷ completion true key_a "job" hash_b none
    ∷ archiving (record { filed = true; synchronized = true; written = true }) key_a "job"
    ∷ batch true 3
    ∷ []

key_lem : key env (identity "iOS") ≡ ok key_a
unfolding key acceptable digest component is_cn has_dot
key_lem = refl

held_lem : (state : State) → held (world state) key_a ≡ some (entry state)
unfolding held get
held_lem state = refl

run_lem : held (run env (world pending) events) key_a ≡ some (entry (completed "job" hash_b none))
unfolding run apply held get contains_key insert remove replace str_ltb begin_send refused
    acknowledge complete change change_found write_state sending_state refused_state
    acknowledged_state completed_state commit observe observe_found observe_key observe_new key
    acceptable digest component is_cn has_dot uuid valid_key skip archived archive_completed
    archive_found file_entry forget archive_file next_batch move_cursor rotated filter_entries
    terminal
run_lem = refl

run-Moves_example :
    (e : Entry) × (held (run env (world pending) events) key_a ≡ some e)
    × (e.identity ≡ identity "iOS")
    × Moves pending e.state
run-Moves_example = run-Moves env events (world pending) key_a (entry pending) (held_lem pending)

job_kept_example :
    (e : Entry) × (held (run env (world (submitted "job")) events) key_a ≡ some e)
    × (job_of e.state ≡ some "job")
job_kept_example =
    job_kept env events (world (submitted "job")) key_a "job" (entry (submitted "job"))
      (held_lem (submitted "job")) refl

settled_forever_example :
    held (run env (world (failed none "job_lost")) events) key_a
    ≡ some (entry (failed none "job_lost"))
settled_forever_example =
    settled_forever env events (world (failed none "job_lost")) key_a
      (entry (failed none "job_lost")) (held_lem (failed none "job_lost")) refl

world-IsSound : IsSound env (world pending)
unfolding contains_key get valid_entry key acceptable digest component is_cn has_dot valid_state
world-IsSound = record {
  good = record { version = refl; room = omega arith; cursor = refl; valid = refl };
  filed = refl;
}

run-IsSound_example : IsSound env (run env (world pending) events)
run-IsSound_example = run-IsSound env (world pending) events world-IsSound

capacity_lem : within 1 100000 (run env (world pending) events).outbox.capacity ≡ true
unfolding run apply held get contains_key insert remove replace str_ltb begin_send refused
    acknowledge complete change change_found write_state sending_state refused_state
    acknowledged_state completed_state commit observe observe_found observe_key observe_new key
    acceptable digest component is_cn has_dot uuid valid_key skip archived archive_completed
    archive_found file_entry forget archive_file next_batch move_cursor rotated filter_entries
    terminal
capacity_lem = refl

open_outbox-run_example :
    open_outbox env
      (run env (world pending) events).outbox.capacity
      (record { created = true; lock_opened = true; acquired = true; written = true })
      (run env (world pending) events).file
      (run env (world pending) events).archive
    ≡ ok (run env (world pending) events)
open_outbox-run_example = open_outbox-run env (world pending) events world-IsSound capacity_lem

abbrev one_batch : BTreeMap Entry
one_batch = (key_a, entry pending) ∷ []

next_batch_lem : next_batch true 5 (world pending) ≡ (world pending, ok one_batch)
unfolding next_batch move_cursor rotated filter_entries terminal commit str_ltb
next_batch_lem = refl

abbrev entry_b : Entry
entry_b = record { identity = identity "Android"; state = pending }

-- Two open dispatches, the first of which was in the last batch.
abbrev two : Option String → World
two cursor = record {
  outbox = record {
    ledger = record {
      schema_version = 1;
      reconciliation_cursor = cursor;
      entries = (key_a, entry pending) ∷ (key_b, entry_b) ∷ [];
    };
    capacity = 2;
  };
  file = holds (record {
    schema_version = 1;
    reconciliation_cursor = cursor;
    entries = (key_a, entry pending) ∷ (key_b, entry_b) ∷ [];
  });
  archive = absent;
}

abbrev batch_b : BTreeMap Entry
batch_b = (key_b, entry_b) ∷ []

two-IsSorted : IsSorted (two (some key_a)).outbox.ledger.entries
unfolding str_ltb
two-IsSorted = (refl, (refl, tt))

batch_b_lem : next_batch true 1 (two (some key_a)) ≡ (two (some key_b), ok batch_b)
unfolding next_batch move_cursor rotated filter_entries terminal commit str_ltb
batch_b_lem = refl

next_batch-rotates_example :
    rotated (some key_b) (two (some key_b)).outbox.ledger.entries
    ≡ drop 1 (rotated (some key_a) (two (some key_a)).outbox.ledger.entries) ++ batch_b
next_batch-rotates_example =
    next_batch-rotates true 1 (two (some key_a)) (two (some key_b)) batch_b two-IsSorted batch_b_lem
