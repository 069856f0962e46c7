-- ===== src/ClientAuth/Genuine.antt =====
-- What a verified token is (src/client_auth.rs, `verify`).
use sirius_api_proxy.Base.{
  ℕ, ◌≤◌, ◌≡◌, inl, inr, refl, ap, String, Bool, true, Option, none, some, List, [], ◌∷◌, ltb,
  is_some_and, str_eq_iff, byte_len, arith, Bool-cases, Option-cases, is_none_or,
}
use sirius_api_proxy.ClientAuth.Comparison.{constant_time_eq_iff}
use sirius_api_proxy.ClientAuth.Tokens.{
  Header, Payload, Claims, Codecs, split_dots, constant_time_eq, hmac_sha256, signed_part,
  header_accepted, payload_accepted, read, checked, claims_of, verify_parts, verify,
}
use mathlib.Core.Option.{some-injective}

signed :
    (s : Option (List ℕ)) (expected : List ℕ)
    → is_some_and s (λ s. constant_time_eq s expected) ≡ true
    → s ≡ some expected
signed none expected h = absurd (ground (arith, h))
signed (some bytes) expected h = rw ((constant_time_eq_iff bytes expected).0 h) refl

checked-some :
    {A : Type 0} (p : A → Bool) (o : Option A) (a : A)
    → checked p o ≡ some a
    → (o ≡ some a) × (p a ≡ true)
checked-some p none a h = absurd (ground (arith, h))
checked-some p (some b) a h = elim (Bool-cases (p b)) [
  | inl e ↦ let same : some b ≡ some a = simp e at h in (same, rw (← some-injective b a same) e)
  | inr e ↦ absurd (ground (arith, e, h))
]

claims-some :
    (o : Option Payload) (claims : Claims)
    → claims_of o ≡ some claims
    → (p : Payload) × (o ≡ some p) × (p.uid ≡ claims.uid) × (p.credential ≡ claims.credential)
claims-some none claims h = absurd (ground (arith, h))
claims-some (some p) claims h =
    let same = some-injective _ claims h in
    (p, refl, ap (λ c. c.uid) same, ap (λ c. c.credential) same)

module _ (codecs : Codecs) where
  -- The three parts: the signature is the key's on the others, the header names the algorithm, and
  -- the payload has these claims and has not expired.
  abbrev pub IsGenuine : List ℕ → ℕ → List String → Claims → Type 0
  IsGenuine key now parts claims =
      (header : String) × (payload : String) × (signature : String) × (parts
        ≡ header ∷ payload ∷ signature ∷ [])
      × (codecs.decode signature ≡ some (hmac_sha256 codecs key (signed_part header payload)))
      × ((h : Header) × (read codecs.read_header (codecs.decode header) ≡ some h)
          × (h.alg ≡ "HS256"))
      × ((p : Payload) × (read codecs.read_payload (codecs.decode payload) ≡ some p)
          × (p.uid ≡ claims.uid)
          × (p.credential ≡ claims.credential)
          × (is_none_or p.exp (λ exp. ltb now exp) ≡ true))

  parts-IsGenuine :
      (key : List ℕ) (now : ℕ) (parts : List String) (claims : Claims)
      → verify_parts codecs key now parts ≡ some claims
      → IsGenuine key now parts claims
  unfolding verify_parts
  parts-IsGenuine key now [] claims h = absurd (ground (arith, h))
  parts-IsGenuine key now (a ∷ []) claims h = absurd (ground (arith, h))
  parts-IsGenuine key now (a ∷ b ∷ []) claims h = absurd (ground (arith, h))
  parts-IsGenuine key now (a ∷ b ∷ c ∷ d ∷ parts) claims h = absurd (ground (arith, h))
  parts-IsGenuine key now (header ∷ payload ∷ signature ∷ []) claims h =
      let expected = hmac_sha256 codecs key (signed_part header payload) in
      elim (Bool-cases (is_some_and (codecs.decode signature) (λ s. constant_time_eq s expected))) [
        | inr e ↦ absurd (ground (arith, e, h))
        | inl e ↦
            elim (Option-cases
              (checked header_accepted (read codecs.read_header (codecs.decode header)))) [
                | inl n ↦ absurd (ground (arith, e, n, h))
                | inr (head, o) ↦
                    let (found, accepted) =
                      checked-some header_accepted (read codecs.read_header (codecs.decode header))
                        head o in
                    let (p, c, uid, credential) =
                      claims-some
                        (checked (payload_accepted now)
                          (read codecs.read_payload (codecs.decode payload)))
                        claims (simp (e, o) at h) in
                    let (there, live) =
                      checked-some (payload_accepted now)
                        (read codecs.read_payload (codecs.decode payload)) p c in
                    (
                      header,
                      payload,
                      signature,
                      refl,
                      signed (codecs.decode signature) expected e,
                      (head, found, (str_eq_iff head.alg "HS256").0 (ground (arith, accepted))),
                      (
                        p,
                        there,
                        uid,
                        credential,
                        elim (Option-cases p.exp) [
                          | inl n ↦ rw n refl
                          | inr (exp, x) ↦ simp x (ground (arith, live, x))
                        ],
                      ),
                    )
              ]
      ]

  -- A verified token has at most 8192 bytes and exactly three parts, the last of which decodes to the
  -- key's signature on the first two; its header names HS256, and its payload gives the claims and no
  -- time of expiry that has passed.
  pub verify-IsGenuine :
      (key : List ℕ) (now : ℕ) (token : String) (claims : Claims)
      → verify codecs key now token ≡ some claims
      → (byte_len token ≤ 8192) × IsGenuine key now (split_dots token) claims
  unfolding verify
  verify-IsGenuine key now token claims h = elim (Bool-cases (ltb 8192 (byte_len token))) [
    | inl e ↦ absurd (ground (arith, e, h))
    | inr e ↦ (ground (arith, e), parts-IsGenuine key now (split_dots token) claims (simp e at h))
  ]
