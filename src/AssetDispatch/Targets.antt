-- ===== src/AssetDispatch/Targets.antt =====
-- The targets of a configuration that is accepted (src/asset_dispatch.rs, `validate`).
use sirius_api_proxy.Base.{
  ℕ, String, ◌≡◌, refl, sym, ap, ◌∙◌, true, false, inl, inr, List, [], ◌∷◌, arith, str_eq_refl,
  Result, ok, err, Bool-cases, bind-ok,
}
use mathlib.Core.Path.{subst}
use sirius_api_proxy.Error.{AppError}
use sirius_api_proxy.AssetJobs.{Client}
use sirius_api_proxy.AssetJobs as AssetJobs
use sirius_api_proxy.AssetOutbox.Entries.{Identity, key}
use sirius_api_proxy.AssetOutbox.Entries as Entries
use sirius_api_proxy.AssetDispatch.{
  Config, Target, validate, valid_bounds, valid_token_env, check_targets, check_target,
  check_destination, check_transport, check_profile, target_client, destination, identity,
  contains_pair, validation_snapshot, check_key,
}

abbrev text_or : String → Result String AppError → String
text_or t (ok s) = s
text_or t (err e) = t

abbrev keys_ok : List (String × String) → Result (List (String × String)) AppError
keys_ok keys = ok keys

abbrev keys_or :
    List (String × String) → Result (List (String × String)) AppError → List (String × String)
keys_or keys (ok k) = k
keys_or keys (err e) = keys

module _ (jobs : AssetJobs.Env) (outbox : Entries.Env) where
  -- Two targets do not share both their destination and their profile.
  abbrev pub Differs : Target → Target → Type 0
  Differs t u =
      destination jobs outbox t.origin ≡ destination jobs outbox u.origin
      → t.profile ≡ u.profile
      → ⊥

  abbrev pub Every : (Target → Type 0) → List Target → Type 0
  Every P [] = Unit
  Every P (t ∷ targets) = P t × Every P targets

  abbrev pub Distinct : List Target → Type 0
  Distinct [] = Unit
  Distinct (t ∷ targets) = Every (Differs t) targets × Distinct targets

  -- A client can be built for the target, and its dispatches have a key.
  abbrev pub Usable : ℕ → Target → Type 0
  Usable timeout t =
      (valid_token_env t.token_env ≡ true)
      × ((d : String) × (destination jobs outbox t.origin ≡ ok d))
      × ((c : Client) × (target_client jobs outbox timeout "configuration-validation" t ≡ ok c))
      × ((i : Identity) × (k : String) × (identity jobs outbox t validation_snapshot ≡ ok i)
          × (key outbox i ≡ ok k))

  check_key-ok :
      (r : Result String Entries.Error)
      → check_key jobs outbox r ≡ ok tt
      → (k : String) × (r ≡ ok k)
  unfolding check_key
  check_key-ok (err e) h = absurd (ground (arith, h))
  check_key-ok (ok k) h = (k, refl)

  check_profile-ok :
      (r : Result Identity AppError)
      → check_profile jobs outbox r ≡ ok tt
      → (i : Identity) × (k : String) × (r ≡ ok i) × (key outbox i ≡ ok k)
  unfolding check_profile
  check_profile-ok (err e) h = absurd (ground (arith, h))
  check_profile-ok (ok i) h = let (k, e) = check_key-ok (key outbox i) h in (i, k, refl, e)

  check_transport-ok :
      (t : Target) (r : Result Client AssetJobs.Error)
      → check_transport jobs outbox t r ≡ ok tt
      → ((c : Client) × (r ≡ ok c))
        × ((i : Identity) × (k : String) × (identity jobs outbox t validation_snapshot ≡ ok i)
            × (key outbox i ≡ ok k))
  unfolding check_transport
  check_transport-ok t (err e) h = absurd (ground (arith, h))
  check_transport-ok t (ok c) h =
      ((c, refl), check_profile-ok (identity jobs outbox t validation_snapshot) h)

  keys_injective : (a b : List (String × String)) → keys_ok a ≡ ok b → a ≡ b
  keys_injective a b h = ap (keys_or a) h

  check_destination-ok :
      (timeout : ℕ) (keys keys' : List (String × String)) (t : Target) (r : Result String AppError)
      → check_destination jobs outbox timeout keys t r ≡ ok keys'
      → (d : String) × (r ≡ ok d)
        × (contains_pair d t.profile keys ≡ false)
        × ((d, t.profile) ∷ keys ≡ keys')
        × ((c : Client) × (target_client jobs outbox timeout "configuration-validation" t ≡ ok c))
        × ((i : Identity) × (k : String) × (identity jobs outbox t validation_snapshot ≡ ok i)
            × (key outbox i ≡ ok k))
  unfolding check_destination
  check_destination-ok timeout keys keys' t (err x) h = absurd (ground (arith, h))
  check_destination-ok timeout keys keys' t (ok d) h =
      elim (Bool-cases (contains_pair d t.profile keys)) [
        | inl c ↦ absurd (ground (arith, simp c at h))
        | inr c ↦
            let (u, transport, last) =
              bind-ok
                (check_transport jobs outbox t
                  (target_client jobs outbox timeout "configuration-validation" t))
                (λ u. keys_ok ((d, t.profile) ∷ keys)) keys' (simp c at h) in
            let (client, own) = check_transport-ok t _ transport in
            (d, refl, c, keys_injective ((d, t.profile) ∷ keys) keys' last, client, own)
      ]

  check_target-ok :
      (timeout : ℕ) (keys keys' : List (String × String)) (t : Target)
      → check_target jobs outbox timeout keys t ≡ ok keys'
      → (d : String) × (destination jobs outbox t.origin ≡ ok d)
        × (contains_pair d t.profile keys ≡ false)
        × ((d, t.profile) ∷ keys ≡ keys')
        × Usable timeout t
  unfolding check_target
  check_target-ok timeout keys keys' t h = elim (Bool-cases (valid_token_env t.token_env)) [
    | inr n ↦ absurd (ground (arith, simp n at h))
    | inl v ↦
        let (d, e, c, grown, client, own) =
          check_destination-ok timeout keys keys' t (destination jobs outbox t.origin)
            (simp v at h) in
        (d, e, c, grown, (v, (d, e), client, own))
  ]

  -- No later target has a pair of the keys.
  fresh :
      (timeout : ℕ) (keys : List (String × String)) (d p : String) (targets : List Target)
      → contains_pair d p keys ≡ true
      → check_targets jobs outbox timeout keys targets ≡ ok tt
      → Every (λ u. destination jobs outbox u.origin ≡ ok d → u.profile ≡ p → ⊥) targets
  unfolding check_targets
  fresh timeout keys d p [] c h = tt
  fresh timeout keys d p (u ∷ targets) c h =
      let (keys', first, rest) = bind-ok (check_target jobs outbox timeout keys u) _ tt h in
      let (d', e, free, grown, usable) = check_target-ok timeout keys keys' u first in
      let still : contains_pair d p keys' ≡ true =
        subst (λ ks. contains_pair d p ks ≡ true) grown (ground (arith, c)) in
      (
        λ own same.
            let de : d' ≡ d = ap (text_or d') (sym e ∙ own) in
            let clash : contains_pair d p keys ≡ false =
              subst (λ x. contains_pair x p keys ≡ false) de
                (subst (λ x. contains_pair d' x keys ≡ false) same free) in
            ground (arith, clash, c),
        fresh timeout keys' d p targets still rest,
      )

  Every-map :
      (P Q : Target → Type 0) (targets : List Target)
      → ((t : Target) → P t → Q t)
      → Every P targets
      → Every Q targets
  Every-map P Q [] f a = tt
  Every-map P Q (t ∷ targets) f (h, a) = (f t h, Every-map P Q targets f a)

  check_targets_sound :
      (timeout : ℕ) (keys : List (String × String)) (targets : List Target)
      → check_targets jobs outbox timeout keys targets ≡ ok tt
      → Every (Usable timeout) targets × Distinct targets
  unfolding check_targets
  check_targets_sound timeout keys [] h = (tt, tt)
  check_targets_sound timeout keys (t ∷ targets) h =
      let (keys', first, rest) = bind-ok (check_target jobs outbox timeout keys t) _ tt h in
      let (d, e, free, grown, usable) = check_target-ok timeout keys keys' t first in
      let in_keys : contains_pair d t.profile keys' ≡ true =
        subst (λ ks. contains_pair d t.profile ks ≡ true) grown
          (ground (arith, str_eq_refl d, str_eq_refl t.profile)) in
      let (all_usable, distinct) = check_targets_sound timeout keys' targets rest in
      (
        (usable, all_usable),
        (
          Every-map (λ u. destination jobs outbox u.origin ≡ ok d → u.profile ≡ t.profile → ⊥)
              (Differs t) targets (λ u f own same. f (sym own ∙ e) (sym same))
              (fresh timeout keys' d t.profile targets in_keys rest),
          distinct,
        ),
      )

  -- A configuration that is accepted is within its bounds. For each of its targets a client can be
  -- built and dispatches have a key, and no two targets share both destination and profile, so that
  -- a dispatch never has two updaters.
  pub validate-Distinct :
      (c : Config)
      → validate jobs outbox c ≡ ok tt
      → (valid_bounds c ≡ true) × Every (Usable c.request_timeout_ms) c.targets × Distinct c.targets
  unfolding validate
  validate-Distinct c h = elim (Bool-cases (valid_bounds c)) [
    | inr n ↦ absurd (ground (arith, simp n at h))
    | inl v ↦
        let (usable, distinct) =
          check_targets_sound c.request_timeout_ms [] c.targets (simp v at h) in
        (v, usable, distinct)
  ]
