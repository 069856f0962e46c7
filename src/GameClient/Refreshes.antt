-- ===== src/GameClient/Refreshes.antt =====
-- An authenticated call carries a version (src/client.rs, `ensure_version`).
use sirius_api_proxy.Base.{
  ℕ, ◌≡◌, refl, ap, ◌∙◌, String, Bool, true, false, ◌||◌, Option, none, some, List, [], ◌∷◌, inl,
  inr, arith, Bool-cases, is_some, str_eq, str_eq_iff, if◌then◌else◌, Result, ok, err, get,
}
use mathlib.Core.Path.{subst}
use sirius_api_proxy.Error.{AppError}
use sirius_api_proxy.NodeRouting.Calls.{authenticated}
use sirius_api_proxy.GameClient.Versions.{
  State, Env, Headers, VersionNeed, fresh, required, refresh, version_route, player_login, missing,
  version_need, adopt_version, promoted, promote_raw, promote_snapshot, selected, note_unread,
}
use sirius_api_proxy.GameClient.VersionCalls.{
  VersionCall, unanswered, refused, cut_off, versioned, sent_version, version_call, Waiting,
  back_off, with_lock, locked, needing, ensure_version, version_tries, Change, seen, adopted,
  published, unread, apply_change, changed,
}
use sirius_api_proxy.GameClient.Kept.{observe-IsKept}

module _ (env : Env) where
  abbrev known : State → Bool
  known s = is_some s.observation.master_version

  abbrev is_required : VersionNeed → Bool
  is_required required = true
  is_required _ = false

  not_anonymous :
      (route : String)
      → authenticated route ≡ true
      → (str_eq route version_route || str_eq route player_login) ≡ false
  unfolding authenticated
  not_anonymous route a = elim (Bool-cases (str_eq route version_route)) [
    | inl e ↦ absurd (
        ground
          (arith, subst (λ r. authenticated r ≡ true) ((str_eq_iff route version_route).0 e) a))
    | inr e ↦ elim (Bool-cases (str_eq route player_login)) [
      | inl f ↦ absurd (
          ground
            (arith, subst (λ r. authenticated r ≡ true) ((str_eq_iff route player_login).0 f) a))
      | inr f ↦ ground (arith, e, f)
    ]
  ]

  version_need-known :
      (route : String) (now : ℕ) (s : State)
      → authenticated route ≡ true
      → (is_required (version_need env route now s) || known s) ≡ true
  unfolding version_need missing
  version_need-known route now s a = elim (Bool-cases (known s)) [
    | inl k ↦ ground (arith, k)
    | inr k ↦ simp (not_anonymous route a, a) (ground (arith, k))
  ]

  promoted-known :
      (now : ℕ) (protocol : String) (r : Result (String × String) AppError)
      → (reference : Option String) (s : State)
      → known (promoted env now protocol r reference s) ≡ known s
  unfolding promoted
  promoted-known now protocol (err e) reference s = refl
  promoted-known now protocol (ok x) none s = refl
  promoted-known now protocol (ok x) (some reference) s = elim (Bool-cases s.credential_valid) [
    | inl c ↦ simp c refl
    | inr c ↦ simp c refl
  ]

  promote_raw-known :
      (now : ℕ) (protocol : String) (raw : Option String) (s : State)
      → known (promote_raw env now protocol raw s) ≡ known s
  unfolding promote_raw
  promote_raw-known now protocol none s = refl
  promote_raw-known now protocol (some raw) s =
      promoted-known now protocol (selected env raw) (get s.cdn_root env.cdn_credential_env)
        (record s { snapshot_stale = true })

  promote_snapshot-known :
      (now : ℕ) (md : Headers) (protocol : String) (s : State)
      → known (promote_snapshot env now md protocol s) ≡ known s
  unfolding promote_snapshot
  promote_snapshot-known now md protocol s = elim (Bool-cases env.global) [
    | inl g ↦ simp g refl
    | inr g ↦ simp g (promote_raw-known now protocol (md "x-asset-version") s)
  ]

  adopt_version-known :
      (now : ℕ) (md : Headers) (version : String) (body : Option String) (s : State)
      → known (adopt_version env now md version body s) ≡ true
  unfolding adopt_version
  adopt_version-known now md version body s = elim (Bool-cases env.global) [
    | inl g ↦ simp g refl
    | inr g ↦ simp g refl
  ]

  -- Whether a call that has been made leaves a version.
  abbrev Known : State × Result Unit AppError → Type 0
  Known (s, r) = r ≡ ok tt → known s ≡ true

  apply_change-known :
      (c : Change env) (s : State) → known s ≡ true → known (apply_change env c s) ≡ true
  unfolding apply_change note_unread
  apply_change-known (seen now md status sent) s k =
      ap is_some (observe-IsKept env now md status sent s).master ∙ k
  apply_change-known (adopted now md version body) s k = adopt_version-known now md version body s
  apply_change-known (published now md protocol) s k = promote_snapshot-known now md protocol s ∙ k
  apply_change-known (unread now) s k = k

  changed-known :
      (changes : List (Change env)) (s : State)
      → known s ≡ true
      → known (changed env changes s) ≡ true
  unfolding changed
  changed-known [] s k = k
  changed-known (c ∷ changes) s k =
      changed-known changes (apply_change env c s) (apply_change-known c s k)

  version_call-Known : (c : VersionCall env) (s : State) → Known (version_call env c s)
  unfolding version_call
  version_call-Known (unanswered a e) s = λ h. absurd (ground (arith, h))
  version_call-Known (refused a now md status e) s = λ h. absurd (ground (arith, h))
  version_call-Known (cut_off a b now later md version body) s = λ h. absurd (ground (arith, h))
  version_call-Known (versioned a b c now later at md version body protocol) s = λ h.
      promote_snapshot-known at md protocol _
      ∙ changed-known c _ (adopt_version-known later md version body _)

  version_call-keeps :
      (c : VersionCall env) (s : State) → known s ≡ true → known (version_call env c s).0 ≡ true
  unfolding version_call
  version_call-keeps (unanswered a e) s k = changed-known a s k
  version_call-keeps (refused a now md status e) s k =
      ap is_some (observe-IsKept env now md status (sent_version env s) (changed env a s)).master
      ∙ changed-known a s k
  version_call-keeps (cut_off a b now later md version body) s k =
      adopt_version-known later md version body _
  version_call-keeps (versioned a b c now later at md version body protocol) s k =
      version_call-Known (versioned a b c now later at md version body protocol) s refl

  version_tries-Known :
      (calls : List (VersionCall env)) (last : VersionCall env) (s : State)
      → Known (version_tries env calls last s)
  unfolding version_tries
  version_tries-Known [] last s = version_call-Known last s
  version_tries-Known (c ∷ calls) last s = version_tries-Known calls last (version_call env c s).0

  version_tries-keeps :
      (calls : List (VersionCall env)) (last : VersionCall env) (s : State)
      → known s ≡ true
      → known (version_tries env calls last s).0 ≡ true
  unfolding version_tries
  version_tries-keeps [] last s k = version_call-keeps last s k
  version_tries-keeps (c ∷ calls) last s k =
      version_tries-keeps calls last (version_call env c s).0 (version_call-keeps c s k)

  back_off-known :
      (changes : List (Change env)) (now : ℕ) (x : State × Result Unit AppError)
      → known x.0 ≡ true
      → Known (back_off env changes now x)
  unfolding back_off
  back_off-known changes now (s, ok u) k = λ h. k
  back_off-known changes now (s, err e) k = λ h. changed-known changes s k

  if-Known :
      (b : Bool) (x y : State × Result Unit AppError)
      → Known x
      → Known y
      → Known (if b then x else y)
  if-Known true x y k l = k
  if-Known false x y k l = l

  with_lock-known :
      (w : Waiting env) (n : VersionNeed) (s : State)
      → (is_required n || known s) ≡ true
      → Known (with_lock env w n s)
  unfolding with_lock
  with_lock-known w fresh s k = λ h. k
  with_lock-known w required s k =
      if-Known w.admitted _ _ (version_tries-Known w.failed w.call s)
        (λ h. absurd (ground (arith, h)))
  with_lock-known w (refresh wait) s k =
      if-Known w.admitted _ _
        (back_off-known w.before_retry w.ended_at (version_tries env w.failed w.call s)
          (version_tries-keeps w.failed w.call s k))
        (λ h. k)

  locked-Known :
      (w : Waiting env) (route : String) (s : State)
      → authenticated route ≡ true
      → Known (locked env w route s)
  unfolding locked
  locked-Known w route s a =
      with_lock-known w (version_need env route w.then_at (w.others s)) (w.others s)
        (version_need-known route w.then_at (w.others s) a)

  needing-known :
      (w : Waiting env) (route : String) (n : VersionNeed) (s : State)
      → authenticated route ≡ true
      → (is_required n || known s) ≡ true
      → Known (needing env w route n s)
  unfolding needing
  needing-known w route fresh s a k = λ h. k
  needing-known w route required s a k = locked-Known w route s a
  needing-known w route (refresh true) s a k = locked-Known w route s a
  needing-known w route (refresh false) s a k =
      if-Known w.free _ _ (locked-Known w route s a) (λ h. k)

  -- An authenticated call never goes out without a version: whatever happens while it waits for the
  -- lock, whatever other calls do during the VERSION call and however that ends, when `ensure_version` lets the call go on, the
  -- Master version that it will carry is known.
  pub ensure_version-known :
      (w : Waiting env) (route : String) (s : State)
      → authenticated route ≡ true
      → (ensure_version env w route s).1 ≡ ok tt
      → is_some (ensure_version env w route s).0.observation.master_version ≡ true
  unfolding ensure_version
  ensure_version-known w route s a h =
      needing-known w route (version_need env route w.now s) s a
        (version_need-known route w.now s a) h
