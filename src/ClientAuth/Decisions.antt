-- ===== src/ClientAuth/Decisions.antt =====
-- The authorization of a token and the cache of its decisions (src/client_auth.rs,
-- `Authenticator`). The cache is locked twice in a call: where a decision is looked up and where one
-- is remembered. Between them the user store is asked, and other calls may change the cache.
use sirius_api_proxy.Base.{
  ℕ, ◌+◌, String, Bool, true, false, not, ◌&&◌, Option, none, some, List, [], ◌∷◌, ltb, leb, ◌==◌,
  is_some_and, length, str_eq, if◌then◌else◌, Result, ok, err,
}
use sirius_api_proxy.Error.{AppError, unauthorized, forbidden, auth_unavailable}
use sirius_api_proxy.ClientAuth.Config.{Authenticator}
use sirius_api_proxy.ClientAuth.Tokens.{Claims, Codecs, as_bytes, constant_time_eq, verify}

abbrev pub bytes_eq : List ℕ → List ℕ → Bool
bytes_eq [] [] = true
bytes_eq (x ∷ xs) (y ∷ ys) = x == y && bytes_eq xs ys
bytes_eq _ _ = false

-- The user and the digest of the credential.
abbrev pub Key : Type 0
Key = String × List ℕ

unfoldable pub key_eq : Key → Key → Bool
key_eq (uid, digest) (other, theirs) = str_eq uid other && bytes_eq digest theirs

-- `HashMap<(String, [u8; 32]), Instant>`
abbrev pub Cache : Type 0
Cache = List (Key × ℕ)

unfoldable pub expiry_of : Key → Cache → Option ℕ
expiry_of k [] = none
expiry_of k ((j, expiry) ∷ cache) =
    let rest = expiry_of k cache in if key_eq k j then some expiry else rest

unfoldable pub insert_key : Key → ℕ → Cache → Cache
insert_key k expiry [] = (k, expiry) ∷ []
insert_key k expiry ((j, old) ∷ cache) =
    let rest = insert_key k expiry cache in
    if key_eq k j then (j, expiry) ∷ cache else (j, old) ∷ rest

unfoldable pub retain_live : ℕ → Cache → Cache
retain_live now [] = []
retain_live now ((j, expiry) ∷ cache) =
    let rest = retain_live now cache in if ltb now expiry then (j, expiry) ∷ rest else rest

unfoldable pub cached : Key → ℕ → Cache → Bool
cached k now cache = is_some_and (expiry_of k cache) (λ expiry. ltb now expiry)

unfoldable pub insert_below : ℕ → Key → ℕ → Cache → Cache
insert_below capacity k expiry cache =
    if ltb (length cache) capacity then insert_key k expiry cache else cache

unfoldable pub remember : Authenticator → Key → ℕ → Cache → Cache
remember auth k now cache =
    if auth.ttl == 0
    then cache
    else insert_below auth.capacity k (now + auth.ttl)
        (if leb auth.capacity (length cache) then retain_live now cache else cache)

-- The user's credential and whether this region is granted; no row for an unknown user.
abbrev pub Row : Type 0
Row = Option (String × Bool)

-- `none` for a query that fails or exceeds its time.
unfoldable pub check : Claims → Option Row → Result Unit AppError
check claims none = err auth_unavailable
check claims (some none) = err unauthorized
check claims (some (some (credential, granted))) =
    if not (constant_time_eq (as_bytes credential) (as_bytes claims.credential))
    then err unauthorized
    else if not granted
    then err forbidden
    else ok tt

-- A call of `authorize`: its token, the time of day and the instant when it looks a decision up, what
-- the store would answer, and the instant when it remembers one.
pub record Call : Type 0 where
  pub token : String
  pub now : ℕ
  pub looked_at : ℕ
  pub row : Option Row
  pub remembered_at : ℕ

module _ (codecs : Codecs) (auth : Authenticator) where
  unfoldable pub key_of : Claims → Key
  key_of claims = (claims.uid, codecs.sha256 (as_bytes claims.credential))

  unfoldable pub claims_in : Call → Option Claims
  claims_in call = verify codecs (as_bytes auth.key) call.now call.token

  unfoldable pub settle : Claims → ℕ → Cache → Result Unit AppError → Cache × Result Unit AppError
  settle claims now cache (err e) = (cache, err e)
  settle claims now cache (ok u) = (remember auth (key_of claims) now cache, ok u)

  unfoldable pub authorize_claims :
      Cache → Call → Cache → Option Claims → Cache × Result Unit AppError
  authorize_claims looked call cache none = (cache, err unauthorized)
  authorize_claims looked call cache (some claims) =
      let asked = settle claims call.remembered_at cache (check claims call.row) in
      if cached (key_of claims) call.looked_at looked then (cache, ok tt) else asked

  -- A decision is looked up in the first cache, and may be remembered in the second.
  unfoldable pub authorize : Cache → Call → Cache → Cache × Result Unit AppError
  authorize looked call cache = authorize_claims looked call cache (claims_in call)
