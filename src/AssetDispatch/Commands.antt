-- ===== src/AssetDispatch/Commands.antt =====
-- The commands of the administrators on the worker's outbox (src/asset_dispatch_admin.rs). The JSON
-- of a reply is a data type of its own. Only the worker treats commands, one at a time.
use sirius_api_proxy.Base.{
  ℕ, String, Bool, true, false, ◌&&◌, ◌||◌, Option, none, some, leb, ◌==◌, within, length, take,
  last, is_none_or, is_digit, byte_len, all_bytes, starts_with, if◌then◌else◌, Result, ok, err,
  BTreeMap, get, contains_key, str_ltb,
}
use sirius_api_proxy.AssetOutbox.Entries.{Env, Entry, Error, invalid, skip, uuid}
use sirius_api_proxy.AssetOutbox.Store.{World}
use sirius_api_proxy.AssetOutbox.Changes.{adopt}
use sirius_api_proxy.AssetOutbox.Archive.{Archiving, archived, archive_completed}
use sirius_api_proxy.AssetOutbox.Rotation.{filter_entries}

pub data Action : Type 0 where
  list_page : (limit : Option ℕ) → (after : Option String) → Action
  detail : (key : String) → Action
  archive_job : (key job_id : String) → Action
  adopt_job : (key job_id : String) → Action

-- The status codes of the routes.
pub data StatusCode : Type 0 where
  bad_request not_found conflict service_unavailable : StatusCode

pub data Value : Type 0 where
  page : (total : ℕ) → (entries : BTreeMap Entry) → (next_after : Option String) → Value
  shown : (key : String) → (archived : Bool) → Entry → Value
  adopted : (key : String) → Entry → Value

unfoldable pub valid_key : String → Bool
valid_key key =
    byte_len key == 71
    && starts_with key "sirius-"
    && all_bytes (λ b. is_digit b || leb b'a' b && leb b b'f') (skip 7 key)

abbrev pub page_limit : Option ℕ → ℕ
page_limit none = 50
page_limit (some n) = n

-- The checks of the routes before a command is queued.
unfoldable pub admissible : Env → Action → Bool
admissible env (list_page limit after) =
    within 1 200 (page_limit limit) && is_none_or after valid_key
admissible env (detail key) = valid_key key
admissible env (archive_job key id) = valid_key key && uuid env id
admissible env (adopt_job key id) = valid_key key && uuid env id

abbrev pub last_key : BTreeMap Entry → Option String
last_key entries = elim (last entries) [ none ↦ none | some x ↦ some x.0 ]

-- The entries after the cursor, as many as fit, and the cursor of the next page when more are left.
unfoldable pub page_of : ℕ → ℕ → BTreeMap Entry → Value
page_of total n selected =
    page total (take n selected)
      (if leb (length selected) n then none else last_key (take n selected))

unfoldable pub shown_archived : String → Result (Option Entry) Error → Result Value StatusCode
shown_archived key (ok (some e)) = ok (shown key true e)
shown_archived key (ok none) = err not_found
shown_archived key (err x) = err service_unavailable

unfoldable pub show : String → Option Entry → Result (Option Entry) Error → Result Value StatusCode
show key (some e) old = ok (shown key false e)
show key none old = shown_archived key old

abbrev pub refusal_code : Error → StatusCode
refusal_code invalid = conflict
refusal_code _ = service_unavailable

unfoldable pub archive_reply : String → Result Entry Error → Result Value StatusCode
archive_reply key (ok e) = ok (shown key true e)
archive_reply key (err x) = err (refusal_code x)

-- `outbox.entries()[&key]` after the adoption is the entry that is there.
unfoldable pub adopt_reply : String → Option Entry → Result Unit Error → Result Value StatusCode
adopt_reply key (some e) (ok u) = ok (adopted key e)
adopt_reply key none (ok u) = err not_found
adopt_reply key e (err x) = err (refusal_code x)

module _ (env : Env) where
  unfoldable pub archive_action :
      String → World × Result Entry Error → World × Result Value StatusCode
  archive_action key (w, r) = (w, archive_reply key r)

  unfoldable pub adopt_action : String → World × Result Unit Error → World × Result Value StatusCode
  adopt_action key (w, r) = (w, adopt_reply key (get key w.outbox.ledger.entries) r)

  unfoldable pub perform : Archiving → Action → World → World × Result Value StatusCode
  perform io (list_page limit after) w =
      let m = w.outbox.ledger.entries in
      (
        w,
        ok (
            page_of (length m) (page_limit limit)
              (filter_entries (λ x. is_none_or after (λ cursor. str_ltb cursor x.0)) m)),
      )
  perform io (detail key) w =
      (w, show key (get key w.outbox.ledger.entries) (archived env key w.archive))
  perform io (archive_job key id) w = archive_action key (archive_completed env io key id w)
  perform io (adopt_job key id) w =
      if contains_key key w.outbox.ledger.entries
      then adopt_action key (adopt env io.written key id w)
      else (w, err not_found)

  -- A command whose caller is gone does nothing; `closed` says so.
  unfoldable pub handle :
      Archiving → Bool → Action → World → World × Option (Result Value StatusCode)
  handle io true action w = (w, none)
  handle io false action w = let (w', reply) = perform io action w in (w', some reply)
