-- ===== src/Resources/Selection.antt =====
-- The selection of a platform's resources from the version header (src/resources.rs,
-- `select_platform`), and the versions that are safe as paths (src/master.rs, `safe_version`). The
-- readers of JSON and of semantic versions are parameters.
use Prim.Native.Nat.{Ordering}
use sirius_api_proxy.Base.{
  String, Bool, true, false, not, ◌&&◌, ◌||◌, Option, none, some, List, [], ◌∷◌, leb, ◌==◌,
  byte_len, all_bytes, is_alphanumeric, is_hexdigit, or_else, str_eq, split, if◌then◌else◌, Result,
  ok, err, bind,
}
use sirius_api_proxy.Error.{AppError, protocol, snapshot_unavailable}
use sirius_api_proxy.Region.{Platform, ios, android}

pub record Release : Type 0 where
  pub version : String
  pub ios : Option String
  pub android : Option String
  pub minimum : Option String

-- A header with a `live` member, or without one; `none` where the JSON has another form.
pub data Document : Type 0 where
  live : Option (List Release) → Document
  single : Option Release → Document

pub record Readers : Type 0 where
  pub read_document : String → Option Document
  pub is_version : String → Bool
  pub compare_versions : String → String → Ordering

-- `BTreeMap<Version, Release>`
abbrev pub Candidates : Type 0
Candidates = List (String × Release)

abbrev pub cons : String × Release → Option Candidates → Option Candidates
cons c none = none
cons c (some cs) = some (c ∷ cs)

abbrev pub at_most : Ordering → Bool
at_most Ordering.gt = false
at_most _ = true

module _ (readers : Readers) where
  abbrev pub place :
      Ordering → String × Release → Candidates → Option Candidates → Option Candidates
  place Ordering.lt c cs rest = some (c ∷ cs)
  place Ordering.eq c cs rest = none
  place Ordering.gt c cs rest = rest

  -- No candidates for a minimum that is there already.
  unfoldable pub insert_candidate : String → Release → Candidates → Option Candidates
  insert_candidate minimum r [] = some ((minimum, r) ∷ [])
  insert_candidate minimum r ((m, q) ∷ cs) =
      let rest = insert_candidate minimum r cs in
      place (readers.compare_versions minimum m) (minimum, r) ((m, q) ∷ cs) (cons (m, q) rest)

  abbrev pub with_minimum : Option String → Release → Candidates → Option Candidates
  with_minimum none r cs = none
  with_minimum (some minimum) r cs =
      if readers.is_version minimum then insert_candidate minimum r cs else none

  -- The later releases after the earlier ones.
  unfoldable pub add_release : Option Candidates → Release → Option Candidates
  add_release none r = none
  add_release (some cs) r = with_minimum r.minimum r cs

  unfoldable pub candidates : Option Candidates → List Release → Option Candidates
  candidates cs [] = cs
  candidates cs (r ∷ releases) = candidates (add_release cs r) releases

  -- The last candidate whose minimum is at most the client's version.
  unfoldable pub newest : String → Candidates → Option Release
  newest client [] = none
  newest client ((m, r) ∷ cs) =
      or_else (newest client cs)
        (if at_most (readers.compare_versions m client) then some r else none)

  abbrev pub available : Option Release → Result Release AppError
  available none = err snapshot_unavailable
  available (some r) = ok r

  unfoldable pub choose_live : String → Option Candidates → Result Release AppError
  choose_live client none = err protocol
  choose_live client (some cs) = available (newest client cs)

  unfoldable pub choose : String → Document → Result Release AppError
  choose client (live none) = err protocol
  choose client (live (some releases)) = choose_live client (candidates (some []) releases)
  choose client (single none) = err protocol
  choose client (single (some r)) = ok r

  unfoldable pub hash_for : Platform → Release → Option String
  hash_for ios r = r.ios
  hash_for android r = r.android

  unfoldable pub part_valid : String → Bool
  part_valid part =
      not (str_eq part "")
      && leb (byte_len part) 256
      && not (str_eq part "." || str_eq part "..")
      && all_bytes (λ b. is_alphanumeric b || b == b'-' || b == b'_' || b == b'.') part

  unfoldable pub with_hash : Release → Option String → Result (String × String) AppError
  with_hash r none = err snapshot_unavailable
  with_hash r (some hash) =
      if part_valid r.version && part_valid hash then ok (r.version, hash) else err protocol

  unfoldable pub select_known :
      Option Document → String → Platform → Result (String × String) AppError
  select_known none client platform = err protocol
  select_known (some document) client platform =
      if not (readers.is_version client)
      then err protocol
      else bind (choose client document) (λ r. with_hash r (hash_for platform r))

  unfoldable pub select_platform : String → String → Platform → Result (String × String) AppError
  select_platform raw client platform = select_known (readers.read_document raw) client platform

abbrev pub version_part : String → Bool
version_part version =
    not (str_eq version "")
    && leb (byte_len version) 128
    && not (str_eq version "." || str_eq version "..")
    && all_bytes (λ b. is_alphanumeric b || b == b'.' || b == b'_' || b == b'-') version

-- A version, or a version and a hash.
abbrev pub safe_parts : List String → Bool
safe_parts (version ∷ []) = version_part version
safe_parts (version ∷ hash ∷ []) =
    version_part version && byte_len hash == 32 && all_bytes is_hexdigit hash
safe_parts _ = false

unfoldable pub safe_version : String → Bool
safe_version value = leb (byte_len value) 256 && safe_parts (split b'/' value)
