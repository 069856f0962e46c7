-- ===== src/SdkSession/Restart.antt =====
-- A new process that reads the state file which the last one wrote (src/sdk_session.rs, `persist`,
-- `read`, `merge` and `SdkSessions::session`).
use sirius_api_proxy.Base.{
  ℕ, ◌≡◌, refl, ◌∙◌, true, false, Option, none, some, arith, is_some, is_none_or, Option-cases, inl,
  inr,
}
use text.Mathlib.TextPositions.{eq_refl}
use sirius_api_proxy.SdkSession.{
  Env, SdkAccount, Refusal, State, holds, World, SdkSession, default_state, expiring, header_safe,
  reusable, read, merge, merge_loaded, loaded_account, persisted, open_session, exclusive,
}

-- The account is this identity's, and its token can be read back: it has an `exp` and is, as its
-- `mid`, a header value.
pub record IsStorable (env : Env) (session : SdkSession) (a : SdkAccount) : Type 0 where
  pub same_uid : a.uid ≡ session.uid
  pub same_key : a.access_key ≡ session.access_key
  pub token : header_safe env a.id_token ≡ true
  pub exp : is_some (env.token_expiry a.id_token) ≡ true
  pub mid : is_none_or a.mid (header_safe env) ≡ true

-- A refused identity holds no account, and an account has been validated.
pub record IsConsistent (s : State) : Type 0 where
  pub exclusive : is_some s.refusal ≡ true → s.account ≡ none
  pub dated : is_some s.account ≡ true → is_some s.validated_at ≡ true

module _ (env : Env) (session : SdkSession) (s : State) (later : ℕ) where
  loaded_reusable :
      {a : SdkAccount} {g : ℕ}
      → IsStorable env session a
      → reusable env s later ≡ some (a, g)
      → loaded_account env session (persisted env session s) later ≡ some a
  unfolding reusable loaded_account persisted
  loaded_reusable {a} st h = ground (arith, st.token, st.exp, st.mid, st.same_uid, st.same_key)

  header_safe_nil : header_safe env "" ≡ false
  unfolding header_safe
  header_safe_nil = refl

  loaded_unusable :
      IsConsistent s
      → reusable env s later ≡ none
      → loaded_account env session (persisted env session s) later ≡ none
  unfolding reusable loaded_account persisted
  loaded_unusable c h = ground (arith, header_safe_nil)

  read-persisted :
      read env session (holds (persisted env session s)) later
      ≡ some (record {
        account = loaded_account env session (persisted env session s) later;
        validated_at = s.validated_at;
        refusal = s.refusal;
      })
  unfolding read persisted loaded_account
  read-persisted = simp eq_refl

-- The identity that a fresh process hands out: the same, as its first generation.
abbrev pub first_generation : Option (SdkAccount × ℕ) → Option (SdkAccount × ℕ)
first_generation none = none
first_generation (some (a, g)) = some (a, 1)

-- What a new session makes of what it reads.
merge_default :
    (env : Env) (account : Option SdkAccount) (validated_at : Option ℕ) (refusal : Option Refusal)
    → (is_some refusal ≡ true → account ≡ none)
    → (is_some account ≡ true → is_some validated_at ≡ true)
    → let s =
        merge_loaded env
          (some (record { account = account; validated_at = validated_at; refusal = refusal }))
          default_state in
      (s.account ≡ account)
      × (s.refusal ≡ refusal)
      × (s.stale ≡ false)
      × (is_some account ≡ true → s.generation ≡ 1)
      × (refusal ≡ none → s.validated_at ≡ validated_at)
unfolding merge_loaded
merge_default env account validated_at refusal excl dated =
    (ground arith, ground arith, ground arith, λ h. ground arith, λ h. ground arith)

module _ (env : Env) (session : SdkSession) (s : State) (later : ℕ) where
  -- A process that starts on the file written for the session's state.
  abbrev pub reopened : World
  reopened =
      open_session env later session.uid session.access_key session.access_key_fingerprint true
        (holds (persisted env session s))

  abbrev kept : Option SdkAccount
  kept = loaded_account env session (persisted env session s) later

  reopened_state :
      reopened.session.state
      ≡ merge_loaded env
          (some (record { account = kept; validated_at = s.validated_at; refusal = s.refusal }))
          default_state
  unfolding open_session exclusive merge read persisted loaded_account
  reopened_state = simp eq_refl

  reusable-none : (t : State) → t.account ≡ none → reusable env t later ≡ none
  unfolding reusable
  reusable-none t h = ground arith

  reusable-some :
      (t : State) (a : SdkAccount)
      → t.account ≡ some a
      → t.refusal ≡ none
      → t.stale ≡ false
      → t.generation ≡ 1
      → expiring env a.id_token later ≡ false
      → reusable env t later ≡ some (a, 1)
  unfolding reusable
  reusable-some t a h r st g e = ground arith

  reusable_facts :
      {a : SdkAccount} {g : ℕ}
      → reusable env s later ≡ some (a, g)
      → (s.account ≡ some a) × (s.refusal ≡ none) × (expiring env a.id_token later ≡ false)
  unfolding reusable
  reusable_facts h = ground arith

  module _ (c : IsConsistent s)
      (storable : (a : SdkAccount) → s.account ≡ some a → IsStorable env session a) where
    -- A process that restarts on the state file reuses exactly the identity that the old process
    -- would have reused at that time, and none where that one would have revalidated. The refusal
    -- survives too, and without one the time of the last validation. The state must be consistent,
    -- and its token one that can be read back.
    pub reusable-reopened :
        (reusable env reopened.session.state later ≡ first_generation (reusable env s later))
        × (reopened.session.state.refusal ≡ s.refusal)
        × (s.refusal ≡ none → reopened.session.state.validated_at ≡ s.validated_at)
    reusable-reopened = elim (Option-cases (reusable env s later)) [
      | inl none_now ↦
          let k = loaded_unusable env session s later c none_now in
          let (account, refusal, _, _, dated) =
            merge_default env kept s.validated_at s.refusal (λ _. k) (λ h. absurd (cc (k, h))) in
          rw (reopened_state, none_now) (reusable-none _ (account ∙ k), refusal, dated)
      | inr ((a, g), some_now) ↦
          let (held, fine, fresh) = reusable_facts some_now in
          let k = loaded_reusable env session s later (storable a held) some_now in
          let (account, refusal, unstale, first, dated) =
            merge_default env kept s.validated_at s.refusal (λ h. absurd (cc (fine, h)))
              (λ _. c.dated (ground arith)) in
          rw (reopened_state, some_now)
            (
              reusable-some _ a (account ∙ k) (refusal ∙ fine) unstale (first (ground arith)) fresh,
              refusal,
              dated,
            )
    ]
