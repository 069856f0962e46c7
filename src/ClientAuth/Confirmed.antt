-- ===== src/ClientAuth/Confirmed.antt =====
-- What an accepted token rests on (src/client_auth.rs, `authorize`): a verified token, and a user
-- whom the store has confirmed within the lifetime of a decision.
use sirius_api_proxy.Base.{
  ℕ, ◌+◌, ◌<◌, ◌≡◌, ◌⊎◌, inl, inr, refl, sym, ◌∙◌, String, Bool, true, false, Option, none, some,
  List, [], ◌∷◌, ltb, leb, ◌==◌, length, str_eq_iff, if◌then◌else◌, Result, ok, err, arith,
  Bool-cases,
}
use sirius_api_proxy.Error.{AppError}
use sirius_api_proxy.ClientAuth.Config.{Authenticator}
use sirius_api_proxy.ClientAuth.Tokens.{Claims, Codecs, as_bytes}
use sirius_api_proxy.ClientAuth.Comparison.{constant_time_eq_iff}
use sirius_api_proxy.ClientAuth.Decisions.{
  Key, Cache, Row, Call, bytes_eq, key_eq, expiry_of, insert_key, retain_live, cached, insert_below,
  remember, check, key_of, claims_in, settle, authorize_claims, authorize,
}

bytes_eq→≡ : (xs ys : List ℕ) → bytes_eq xs ys ≡ true → xs ≡ ys
bytes_eq→≡ [] [] h = refl
bytes_eq→≡ [] (y ∷ ys) h = absurd (ground (arith, h))
bytes_eq→≡ (x ∷ xs) [] h = absurd (ground (arith, h))
bytes_eq→≡ (x ∷ xs) (y ∷ ys) h =
    let head : x ≡ y = ground (arith, h) in rw (head, bytes_eq→≡ xs ys (ground (arith, h))) refl

key_eq→≡ : (j k : Key) → key_eq j k ≡ true → j ≡ k
unfolding key_eq
key_eq→≡ (uid, digest) (other, theirs) h =
    rw ((str_eq_iff uid other).0 (ground (arith, h)), bytes_eq→≡ digest theirs (ground (arith, h)))
      refl

-- Every entry of the cache passes.
abbrev Entries : (Key → ℕ → Type 0) → Cache → Type 0
Entries P [] = Unit
Entries P ((k, expiry) ∷ cache) = P k expiry × Entries P cache

module _ (P : Key → ℕ → Type 0) where
  Entries-if : (b : Bool) (x y : Cache) → Entries P x → Entries P y → Entries P (if b then x else y)
  Entries-if true x y h g = h
  Entries-if false x y h g = g

  Entries-insert :
      (k : Key) (expiry : ℕ) (cache : Cache)
      → Entries P cache
      → P k expiry
      → Entries P (insert_key k expiry cache)
  unfolding insert_key
  Entries-insert k expiry [] h p = (p, tt)
  Entries-insert k expiry ((j, old) ∷ cache) (q, h) p = elim (Bool-cases (key_eq k j)) [
    | inl e ↦ simp e (rw (← key_eq→≡ k j e) p, h)
    | inr e ↦ simp e (q, Entries-insert k expiry cache h p)
  ]

  Entries-retain : (now : ℕ) (cache : Cache) → Entries P cache → Entries P (retain_live now cache)
  unfolding retain_live
  Entries-retain now [] h = tt
  Entries-retain now ((j, expiry) ∷ cache) (q, h) = elim (Bool-cases (ltb now expiry)) [
    | inl e ↦ simp e (q, Entries-retain now cache h)
    | inr e ↦ simp e (Entries-retain now cache h)
  ]

  Entries-remember :
      (auth : Authenticator) (k : Key) (now : ℕ) (cache : Cache)
      → Entries P cache
      → P k (now + auth.ttl)
      → Entries P (remember auth k now cache)
  unfolding remember insert_below
  Entries-remember auth k now cache h p =
      let live = if leb auth.capacity (length cache) then retain_live now cache else cache in
      let l =
        Entries-if (leb auth.capacity (length cache)) (retain_live now cache) cache
          (Entries-retain now cache h) h in
      Entries-if (auth.ttl == 0) cache (insert_below auth.capacity k (now + auth.ttl) live) h (
        Entries-if (ltb (length live) auth.capacity) (insert_key k (now + auth.ttl) live) live
          (Entries-insert k (now + auth.ttl) live l p) l)

  Entries-cached :
      (k : Key) (now : ℕ) (cache : Cache)
      → Entries P cache
      → cached k now cache ≡ true
      → (expiry : ℕ) × P k expiry × (now < expiry)
  unfolding cached expiry_of
  Entries-cached k now [] h c = absurd (ground (arith, c))
  Entries-cached k now ((j, expiry) ∷ cache) (q, h) c = elim (Bool-cases (key_eq k j)) [
    | inl e ↦ (expiry, rw (key_eq→≡ k j e) q, ground (arith, e, c))
    | inr e ↦ Entries-cached k now cache h (simp e at c)
  ]

module _ (P Q : Key → ℕ → Type 0) (f : (k : Key) (expiry : ℕ) → P k expiry → Q k expiry) where
  Entries-map : (cache : Cache) → Entries P cache → Entries Q cache
  Entries-map [] h = tt
  Entries-map ((k, expiry) ∷ cache) (p, h) = (f k expiry p, Entries-map cache h)

abbrev pub Happened : Call → List Call → Type 0
Happened c [] = ⊥
Happened c (d ∷ calls) = (c ≡ d) ⊎ Happened c calls

module _ (codecs : Codecs) (auth : Authenticator) where
  -- The store grants the region to the user of the call's verified token, with its credential.
  abbrev pub IsConfirmed : Call → Claims → Type 0
  IsConfirmed call claims =
      (credential : String) × (call.row ≡ some (some (credential, true)))
      × (as_bytes credential ≡ as_bytes claims.credential)
      × (claims_in codecs auth call ≡ some claims)

  -- One of the calls has been confirmed for this key, and its decision ends then.
  abbrev pub Vouched : List Call → Key → ℕ → Type 0
  Vouched calls k expiry =
      (earlier : Call) × (theirs : Claims) × Happened earlier calls
      × IsConfirmed earlier theirs
      × (key_of codecs auth theirs ≡ k)
      × (expiry ≡ earlier.remembered_at + auth.ttl)

  -- The calls that have ended, the last first, and the cache after them. What a call found when it
  -- looked its decision up may be any cache.
  pub data Reach : List Call → Cache → Type 0 where
    start : Reach [] []
    ended :
        (looked : Cache) (call : Call) (calls : List Call) (cache : Cache)
        → Reach calls cache
        → Reach (call ∷ calls) (authorize codecs auth looked call cache).0

  check-confirmed :
      (claims : Claims) (row : Option Row)
      → check claims row ≡ ok tt
      → (credential : String) × (row ≡ some (some (credential, true)))
        × (as_bytes credential ≡ as_bytes claims.credential)
  unfolding check
  check-confirmed claims none c = absurd (ground (arith, c))
  check-confirmed claims (some none) c = absurd (ground (arith, c))
  check-confirmed claims (some (some (credential, false))) c = absurd (ground (arith, c))
  check-confirmed claims (some (some (credential, true))) c = (
    credential,
    refl,
    (constant_time_eq_iff (as_bytes credential) (as_bytes claims.credential)).0 (ground (arith, c)),
  )

  settle-result :
      (claims : Claims) (now : ℕ) (cache : Cache) (r : Result Unit AppError)
      → (settle codecs auth claims now cache r).1 ≡ r
  unfolding settle
  settle-result claims now cache (err e) = refl
  settle-result claims now cache (ok u) = refl

  settle-Vouched :
      (claims : Claims) (call : Call) (calls : List Call) (cache : Cache) (r : Result Unit AppError)
      → r ≡ check claims call.row
      → claims_in codecs auth call ≡ some claims
      → Entries (Vouched (call ∷ calls)) cache
      → Entries (Vouched (call ∷ calls)) (settle codecs auth claims call.remembered_at cache r).0
  unfolding settle
  settle-Vouched claims call calls cache (err e) c v h = h
  settle-Vouched claims call calls cache (ok tt) c v h =
      let (credential, row, same) = check-confirmed claims call.row (sym c) in
      Entries-remember (Vouched (call ∷ calls)) auth (key_of codecs auth claims) call.remembered_at
        cache h (call, claims, inl refl, (credential, row, same, v), refl, refl)

  authorize-Vouched :
      (looked : Cache) (call : Call) (calls : List Call) (cache : Cache) (found : Option Claims)
      → claims_in codecs auth call ≡ found
      → Entries (Vouched (call ∷ calls)) cache
      → Entries (Vouched (call ∷ calls)) (authorize_claims codecs auth looked call cache found).0
  unfolding authorize_claims
  authorize-Vouched looked call calls cache none v h = h
  authorize-Vouched looked call calls cache (some claims) v h =
      elim (Bool-cases (cached (key_of codecs auth claims) call.looked_at looked)) [
        | inl e ↦ simp e h
        | inr e ↦ simp e (settle-Vouched claims call calls cache (check claims call.row) refl v h)
      ]

  Reach-Vouched :
      (calls : List Call) (cache : Cache) → Reach calls cache → Entries (Vouched calls) cache
  unfolding authorize
  Reach-Vouched [] [] start = tt
  Reach-Vouched _ _ (ended looked call calls cache r) =
      authorize-Vouched looked call calls cache (claims_in codecs auth call) refl (
        Entries-map (Vouched calls) (Vouched (call ∷ calls))
          (λ k expiry (earlier, theirs, happened, c, e, x).
            (earlier, theirs, inr happened, c, e, x))
          cache (Reach-Vouched calls cache r))

  claims-IsConfirmed :
      (looked : Cache) (calls : List Call) (call : Call) (cache : Cache) (found : Option Claims)
      → claims_in codecs auth call ≡ found
      → Entries (Vouched calls) looked
      → (authorize_claims codecs auth looked call cache found).1 ≡ ok tt
      → (claims : Claims) × (found ≡ some claims)
        × (IsConfirmed call claims
            ⊎ ((expiry : ℕ) × Vouched calls (key_of codecs auth claims) expiry
                × (call.looked_at < expiry)))
  unfolding authorize_claims
  claims-IsConfirmed looked calls call cache none v h a = absurd (ground (arith, a))
  claims-IsConfirmed looked calls call cache (some claims) v h a =
      elim (Bool-cases (cached (key_of codecs auth claims) call.looked_at looked)) [
        | inl e ↦ (
          claims,
          refl,
          inr (
              Entries-cached (Vouched calls) (key_of codecs auth claims) call.looked_at looked h e),
        )
        | inr e ↦
            let c = settle-result claims call.remembered_at cache (check claims call.row) in
            let (credential, row, same) = check-confirmed claims call.row (sym c ∙ simp e at a) in
            (claims, refl, inl (credential, row, same, v))
      ]

  -- An accepted token is a verified one, and either the store has just granted the region to its
  -- user with the very bytes of its credential, or an ended call was confirmed so, for the same user
  -- and a credential of the same digest, and remembered less than the lifetime of a decision before
  -- this call looked it up. This holds whatever calls have ended before, however they interleaved.
  pub authorize-IsConfirmed :
      (calls : List Call) (looked cache : Cache) (call : Call)
      → Reach calls looked
      → (authorize codecs auth looked call cache).1 ≡ ok tt
      → (claims : Claims) × (claims_in codecs auth call ≡ some claims)
        × (IsConfirmed call claims
            ⊎ ((expiry : ℕ) × Vouched calls (key_of codecs auth claims) expiry
                × (call.looked_at < expiry)))
  unfolding authorize
  authorize-IsConfirmed calls looked cache call r a =
      claims-IsConfirmed looked calls call cache (claims_in codecs auth call) refl
        (Reach-Vouched calls looked r) a
