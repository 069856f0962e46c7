-- ===== src/ClientAuth/Capacity.antt =====
-- The size of the cache of decisions (src/client_auth.rs, `remember`).
use sirius_api_proxy.Base.{
  ℕ, suc, ◌+◌, ◌≤◌, inl, inr, Option, none, some, List, [], ◌∷◌, leb, length, Result, ok, err,
  arith, Bool-cases,
}
use sirius_api_proxy.Error.{AppError}
use sirius_api_proxy.ClientAuth.Config.{Authenticator}
use sirius_api_proxy.ClientAuth.Tokens.{Claims, Codecs}
use sirius_api_proxy.ClientAuth.Decisions.{
  Key, Cache, Call, insert_key, retain_live, cached, insert_below, remember, check, key_of,
  claims_in, settle, authorize_claims, authorize,
}
use sirius_api_proxy.ClientAuth.Confirmed.{Reach, start, ended}

length-insert_key-le :
    (k : Key) (expiry : ℕ) (cache : Cache) → length (insert_key k expiry cache) ≤ suc (length cache)
unfolding insert_key
length-insert_key-le k expiry [] = omega arith
length-insert_key-le k expiry ((j, old) ∷ cache) =
    ground (arith, length-insert_key-le k expiry cache)

length-retain_live-le : (now : ℕ) (cache : Cache) → length (retain_live now cache) ≤ length cache
unfolding retain_live
length-retain_live-le now [] = omega arith
length-retain_live-le now ((j, expiry) ∷ cache) = ground (arith, length-retain_live-le now cache)

length-insert_below-le :
    (capacity : ℕ) (k : Key) (expiry : ℕ) (cache : Cache)
    → length cache ≤ capacity
    → length (insert_below capacity k expiry cache) ≤ capacity
unfolding insert_below
length-insert_below-le capacity k expiry cache l =
    ground (arith, length-insert_key-le k expiry cache, l)

length-remember-le :
    (auth : Authenticator) (k : Key) (now : ℕ) (cache : Cache)
    → length cache ≤ auth.capacity
    → length (remember auth k now cache) ≤ auth.capacity
unfolding remember
length-remember-le auth k now cache l = elim (Bool-cases (leb auth.capacity (length cache))) [
  | inl e ↦ simp e (
      ground (
        arith,
        l,
        length-insert_below-le auth.capacity k (now + auth.ttl) (retain_live now cache)
            (omega (arith, l, length-retain_live-le now cache)),
      ))
  | inr e ↦
      simp e (ground (arith, l, length-insert_below-le auth.capacity k (now + auth.ttl) cache l))
]

module _ (codecs : Codecs) (auth : Authenticator) where
  length-settle-le :
      (claims : Claims) (now : ℕ) (cache : Cache) (r : Result Unit AppError)
      → length cache ≤ auth.capacity
      → length (settle codecs auth claims now cache r).0 ≤ auth.capacity
  unfolding settle
  length-settle-le claims now cache (err e) l = l
  length-settle-le claims now cache (ok u) l =
      length-remember-le auth (key_of codecs auth claims) now cache l

  length-authorize_claims-le :
      (looked : Cache) (call : Call) (cache : Cache) (found : Option Claims)
      → length cache ≤ auth.capacity
      → length (authorize_claims codecs auth looked call cache found).0 ≤ auth.capacity
  unfolding authorize_claims
  length-authorize_claims-le looked call cache none l = l
  length-authorize_claims-le looked call cache (some claims) l =
      elim (Bool-cases (cached (key_of codecs auth claims) call.looked_at looked)) [
        | inl e ↦ simp e l
        | inr e ↦
            simp e (length-settle-le claims call.remembered_at cache (check claims call.row) l)
      ]

  -- The cache of decisions never has more entries than its capacity.
  pub length-Reach-le :
      (calls : List Call) (cache : Cache)
      → Reach codecs auth calls cache
      → length cache ≤ auth.capacity
  unfolding authorize
  length-Reach-le _ _ start = omega arith
  length-Reach-le _ _ (ended looked call calls cache r) =
      length-authorize_claims-le looked call cache (claims_in codecs auth call)
        (length-Reach-le calls cache r)
