-- ===== src/Accounts/Signal/Outage.antt =====
-- Accounts during an outage of the shared path (src/accounts.rs).
use sirius_api_proxy.Base.{
  ◌≡◌, inl, inr, refl, String, Bool, true, ◌||◌, Option, none, some, arith, Bool-cases, is_some_and,
  str_eq,
}
use sirius_api_proxy.Error.{AppError, timeout, transport, protocol, grpc}
use sirius_api_proxy.SdkSession.{Env}
use sirius_api_proxy.Accounts.Health.{Health, PoolPolicy, path, path_fault}
use sirius_api_proxy.Accounts.Login.{LoginConfig}
use sirius_api_proxy.Accounts.Signal.{
  Moment, Subject, err, is_path_error, status_is, static_error, static_signal, classify, by_status,
  act, global_signal, version_signal,
}

-- No usable answer: a timeout, a broken transport or protocol, or a bare gRPC 14.
abbrev pub is_path_class : AppError → Bool
is_path_class (grpc status) = status_is (some status) 14
is_path_class e = is_path_error e

module _ (env : Env) (at : Moment) (policy : PoolPolicy) (login : LoginConfig) where
  static_error_path :
      (error : AppError) (h : Health)
      → is_path_class error ≡ true
      → static_error env at policy login error path h ≡ h
  unfolding static_error path_fault
  static_error_path (grpc status) h p = ground arith
  static_error_path timeout h p = refl
  static_error_path transport h p = refl
  static_error_path protocol h p = refl
  static_error_path _ h p = cc

  by_status_path :
      (error : AppError) (s : Subject)
      → is_path_class error ≡ true
      → by_status env at policy login error path s ≡ s
  unfolding by_status path_fault
  by_status_path (grpc status) s p = ground arith
  by_status_path timeout s p = refl
  by_status_path transport s p = refl
  by_status_path protocol s p = refl
  by_status_path _ s p = cc

  -- A path-class fault that the shared path pays for changes nothing of the account that saw it: not
  -- the health of a static account, whatever code came with the fault, and nothing of a Global
  -- account or of its SDK session, if no code came with it.
  pub outage_is_free :
      (error : AppError) (code : Option String) (h : Health) (s : Subject)
      → is_path_class error ≡ true
      → (static_signal env at policy login (err error) code path h ≡ h)
        × (global_signal env at policy login (err error) none path s ≡ s)
  unfolding static_signal global_signal act classify
  outage_is_free error code h s p = (
    elim (Bool-cases
        (is_some_and code (λ c. str_eq c "UNDER_MAINTENANCE") || version_signal code)) [
          | inl e ↦ simp e refl
          | inr e ↦ simp e (static_error_path error h p)
        ],
    by_status_path error s p,
  )
