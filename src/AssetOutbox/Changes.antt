-- ===== src/AssetOutbox/Changes.antt =====
-- The methods that change the state of one entry (src/asset_outbox.rs).
use sirius_api_proxy.Base.{
  ℕ, String, Bool, true, false, not, ◌&&◌, ◌||◌, Option, none, some, str_eq, is_some_and,
  if◌then◌else◌, Result, ok, err, get, replace,
}
use sirius_api_proxy.AssetOutbox.Entries.{
  Error, invalid, Entry, State, pending, sending, submitted, completed, failed, Env, uuid, digest,
  valid_code,
}
use sirius_api_proxy.AssetOutbox.Store.{World, commit}

-- The entry under the key, with the state that the closure gave.
unfoldable pub write_state :
    Bool → String → Entry → Result State Error → World → World × Result Unit Error
write_state written key entry (err e) w = (w, err e)
write_state written key entry (ok state) w =
    let ledger = w.outbox.ledger in
    commit written
      (record ledger { entries = replace key (record entry { state = state }) ledger.entries }) w

unfoldable pub change_found :
    Bool → String → Option Entry → (State → Result State Error) → World → World × Result Unit Error
change_found written key none change w = (w, err invalid)
change_found written key (some entry) change w =
    write_state written key entry (change entry.state) w

-- `change`
unfoldable pub change :
    Bool → String → (State → Result State Error) → World → World × Result Unit Error
change written key f w = change_found written key (get key w.outbox.ledger.entries) f w

-- The closures, by the method that passes them.
unfoldable pub sending_state : ℕ → State → Result State Error
sending_state now pending = ok (sending now)
sending_state now (sending at) = ok (sending at)
sending_state now _ = err invalid

unfoldable pub refused_state : State → Result State Error
refused_state (sending at) = ok pending
refused_state _ = err invalid

unfoldable pub acknowledged_state : String → State → Result State Error
acknowledged_state id (sending at) = ok (submitted id)
acknowledged_state id (submitted job_id) =
    if str_eq job_id id then ok (submitted job_id) else err invalid
acknowledged_state id _ = err invalid

-- The codes of a failure that leaves open whether the job was accepted.
abbrev pub is_ambiguous : String → Bool
is_ambiguous code = str_eq code "submission_ambiguous" || str_eq code "invalid_job_response"

unfoldable pub adopted_state : String → State → Result State Error
adopted_state id (sending at) = ok (submitted id)
adopted_state id (failed none code) = if is_ambiguous code then ok (submitted id) else err invalid
adopted_state id (submitted job_id) =
    if str_eq job_id id then ok (submitted job_id) else err invalid
adopted_state id _ = err invalid

abbrev pub same_text : Option String → Option String → Bool
same_text none none = true
same_text (some a) (some b) = str_eq a b
same_text _ _ = false

-- Only a completed state can be the target.
unfoldable pub completed_state : String → String → Option String → State → Result State Error
completed_state id catalog publication (submitted job_id) =
    if str_eq job_id id then ok (completed id catalog publication) else err invalid
completed_state id catalog publication (completed j c p) =
    if str_eq j id && str_eq c catalog && same_text p publication
    then ok (completed j c p)
    else err invalid
completed_state id catalog publication _ = err invalid

unfoldable pub failed_state : String → State → Result State Error
failed_state code pending = ok (failed none code)
failed_state code (sending at) = ok (failed none code)
failed_state code (submitted job_id) = ok (failed (some job_id) code)
failed_state code _ = err invalid

unfoldable pub begin_send : ℕ → Bool → String → World → World × Result Unit Error
begin_send now written key w = change written key (sending_state now) w

unfoldable pub refused : Bool → String → World → World × Result Unit Error
refused written key w = change written key refused_state w

unfoldable pub fail : Bool → String → String → World → World × Result Unit Error
fail written key code w =
    if valid_code code then change written key (failed_state code) w else (w, err invalid)

module _ (env : Env) where
  unfoldable pub acknowledge : Bool → String → String → World → World × Result Unit Error
  acknowledge written key id w =
      if uuid env id then change written key (acknowledged_state id) w else (w, err invalid)

  unfoldable pub adopt : Bool → String → String → World → World × Result Unit Error
  adopt written key id w =
      if uuid env id then change written key (adopted_state id) w else (w, err invalid)

  unfoldable pub complete :
      Bool → String → String → String → Option String → World → World × Result Unit Error
  complete written key id catalog publication w =
      if not (digest catalog) || is_some_and publication (λ v. not (uuid env v))
      then (w, err invalid)
      else change written key (completed_state id catalog publication) w
