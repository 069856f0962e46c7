-- ===== src/Accounts/Signal/Repeated.antt =====
-- Sessions that end again and again (src/accounts.rs, `global_signal`).
use sirius_api_proxy.Base.{
  ◌≤◌, ◌<◌, ◌≡◌, refl, String, Bool, true, false, Option, none, some, List, [], ◌∷◌, ◌++◌, arith,
  u32_max, filter_option, if◌then◌else◌,
}
use sirius_api_proxy.Error.{AppError}
use sirius_api_proxy.SdkSession.{Env}
use sirius_api_proxy.Accounts.Health.{
  PoolPolicy, Charge, transient, path_fault, succeeded, disable, cool_down,
}
use sirius_api_proxy.Accounts.Login.{LoginConfig, LoginState, prune}
use sirius_api_proxy.Accounts.Signal.{
  Moment, Subject, CallResult, ok, err, Signal, banned, aegis, concurrent_device, invalid, ignored,
  unsignalled, grpc_of, status_is, classify, well_formed, by_status, act, global_signal, invalidate,
  count_device, limit_device, noted,
}

-- One reported outcome.
pub record Report : Type 0 where
  pub at : Moment
  pub result : CallResult
  pub code : Option String
  pub charge : Charge

-- The signal ends the account's session.
abbrev pub ends_session : Signal → AppError → Bool
ends_session concurrent_device error = true
ends_session (invalid stale) error = true
ends_session unsignalled error = status_is (grpc_of error) 16
ends_session _ error = false

-- The signal says that the session itself was bad: `TOKEN_*`, `PLAYER_NOT_*` or gRPC 16.
abbrev pub is_rejection : Signal → AppError → Bool
is_rejection (invalid stale) error = true
is_rejection unsignalled error = status_is (grpc_of error) 16
is_rejection _ error = false

abbrev pub on_error : (Signal → AppError → Bool) → Report → Bool
on_error p r = elim r.result [
  | ok ↦ false
  | err error ↦ p (classify (filter_option r.code well_formed)) error
]

abbrev pub is_error : Report → Bool
is_error r = elim r.result [ ok ↦ false | err error ↦ true ]

abbrev pub AllErrors : List Report → Type 0
AllErrors [] = Unit
AllErrors (r ∷ reports) = (is_error r ≡ true) × AllErrors reports

-- Whether one of the reports ended the session.
unfoldable pub any_ended : List Report → Bool
any_ended [] = false
any_ended (r ∷ reports) = if on_error ends_session r then true else any_ended reports

noted_invalidations :
    (code : Option String) (l : LoginState) → (noted code l).invalidations ≡ l.invalidations
noted_invalidations none l = refl
noted_invalidations (some c) l = refl

module _ (env : Env) (policy : PoolPolicy) (login : LoginConfig) where
  unfoldable pub apply : Subject → Report → Subject
  apply s r = global_signal env r.at policy login r.result r.code r.charge s

  unfoldable pub run : Subject → List Report → Subject
  run s [] = s
  run s (r ∷ reports) = run (apply s r) reports

  module _ (at : Moment) (s : Subject) (error : AppError) (charge : Charge) where
    -- No signal enables an account, and none takes an invalidation back.
    act_disabled :
        (signal : Signal)
        → s.health.disabled ≡ true
        → (act env at policy login signal error charge s).health.disabled ≡ true
    unfolding act limit_device count_device invalidate by_status path_fault transient disable
        cool_down
    act_disabled banned h = ground arith
    act_disabled aegis h = ground arith
    act_disabled concurrent_device h = ground arith
    act_disabled (invalid stale) h = ground arith
    act_disabled ignored h = h
    act_disabled unsignalled h = ground arith

    act_counts :
        (signal : Signal)
        → s.login.invalidations ≤ u32_max
        → let s' = act env at policy login signal error charge s in
          (s'.login.invalidations ≤ u32_max)
          × (s.login.invalidations ≤ s'.login.invalidations)
          × (ends_session signal error ≡ true → 0 < s'.login.invalidations)
    unfolding act limit_device count_device invalidate by_status prune
    act_counts banned h = ground arith
    act_counts aegis h = ground arith
    act_counts concurrent_device h = ground arith
    act_counts (invalid stale) h = ground arith
    act_counts ignored h = ground arith
    act_counts unsignalled h = ground arith

    act_rejects :
        (signal : Signal)
        → 0 < s.login.invalidations
        → is_rejection signal error ≡ true
        → (act env at policy login signal error charge s).health.disabled ≡ true
    unfolding act invalidate by_status disable
    act_rejects banned h r = cc
    act_rejects aegis h r = cc
    act_rejects concurrent_device h r = cc
    act_rejects (invalid stale) h r = ground arith
    act_rejects ignored h r = cc
    act_rejects unsignalled h r = ground arith

  module _ (at : Moment) (code : Option String) (charge : Charge) (s : Subject) where
    signal_disabled :
        (result : CallResult)
        → s.health.disabled ≡ true
        → (global_signal env at policy login result code charge s).health.disabled ≡ true
    unfolding global_signal succeeded
    signal_disabled ok h = h
    signal_disabled (err error) h = act_disabled at _ error charge _ h

    signal_counts :
        (error : AppError)
        → s.login.invalidations ≤ u32_max
        → let s' = global_signal env at policy login (err error) code charge s in
          (s'.login.invalidations ≤ u32_max)
          × (s.login.invalidations ≤ s'.login.invalidations)
          × (ends_session (classify (filter_option code well_formed)) error ≡ true
              → 0 < s'.login.invalidations)
    unfolding global_signal
    signal_counts error bound =
        let kept = filter_option code well_formed in
        let e = noted_invalidations kept s.login in
        let (a, b, c) =
          act_counts at (record s { login = noted kept s.login }) error charge (classify kept)
            (omega (arith, e)) in
        (a, omega (arith, b, e), c)

    signal_rejects :
        (error : AppError)
        → 0 < s.login.invalidations
        → is_rejection (classify (filter_option code well_formed)) error ≡ true
        → (global_signal env at policy login (err error) code charge s).health.disabled ≡ true
    unfolding global_signal
    signal_rejects error h r =
        let kept = filter_option code well_formed in
        act_rejects at (record s { login = noted kept s.login }) error charge (classify kept)
          (omega (arith, h, noted_invalidations kept s.login)) r

  apply_disabled :
      (s : Subject) (r : Report) → s.health.disabled ≡ true → (apply s r).health.disabled ≡ true
  unfolding apply
  apply_disabled s r h = signal_disabled r.at r.code r.charge s r.result h

  -- No outcome enables an account again: once it is disabled it stays so.
  pub run_disabled :
      (s : Subject) (reports : List Report)
      → s.health.disabled ≡ true
      → (run s reports).health.disabled ≡ true
  unfolding run
  run_disabled s [] h = h
  run_disabled s (r ∷ reports) h = run_disabled (apply s r) reports (apply_disabled s r h)

  run-append : (s : Subject) (xs ys : List Report) → run s (xs ++ ys) ≡ run (run s xs) ys
  unfolding run
  run-append s [] ys = refl
  run-append s (x ∷ xs) ys = run-append (apply s x) xs ys

  module _ (at : Moment) (code : Option String) (charge : Charge) (s : Subject) where
    abbrev report_of : CallResult → Report
    report_of result = record { at = at; result = result; code = code; charge = charge }

    apply_counts :
        (result : CallResult)
        → s.login.invalidations ≤ u32_max
        → is_error (report_of result) ≡ true
        → ((apply s (report_of result)).login.invalidations ≤ u32_max)
          × (s.login.invalidations ≤ (apply s (report_of result)).login.invalidations)
          × (on_error ends_session (report_of result) ≡ true
              → 0 < (apply s (report_of result)).login.invalidations)
    unfolding apply
    apply_counts ok bound e = cc
    apply_counts (err error) bound e = signal_counts at code charge s error bound

    apply_rejects :
        (result : CallResult)
        → 0 < s.login.invalidations
        → on_error is_rejection (report_of result) ≡ true
        → (apply s (report_of result)).health.disabled ≡ true
    unfolding apply
    apply_rejects ok h r = cc
    apply_rejects (err error) h r = signal_rejects at code charge s error h r

    ended_is_error :
        (result : CallResult)
        → on_error ends_session (report_of result) ≡ true
        → is_error (report_of result) ≡ true
    ended_is_error ok h = h
    ended_is_error (err error) h = refl

  run_counts :
      (s : Subject) (reports : List Report)
      → s.login.invalidations ≤ u32_max
      → AllErrors reports
      → s.login.invalidations ≤ (run s reports).login.invalidations
  unfolding run
  run_counts s [] bound all = omega arith
  run_counts s (r ∷ reports) bound all =
      let (bound', more, _) = apply_counts r.at r.code r.charge s r.result bound all.0 in
      omega (arith, more, run_counts (apply s r) reports bound' all.1)

  -- A signal that ends the session, then any failures, then a signal that rejects the session
  -- (`TOKEN_*`, `PLAYER_NOT_*` or gRPC 16): with no success in between the account is disabled, and
  -- stays disabled whatever follows.
  pub repeated-rejection :
      (s : Subject) (first : Report) (between : List Report) (second : Report) (after : List Report)
      → s.login.invalidations ≤ u32_max
      → on_error ends_session first ≡ true
      → AllErrors between
      → on_error is_rejection second ≡ true
      → (run s (first ∷ between ++ (second ∷ after))).health.disabled ≡ true
  unfolding run
  repeated-rejection s first between second after bound ended failures rejected =
      let is = ended_is_error first.at first.code first.charge s first.result ended in
      let (bound', _, one) =
        apply_counts first.at first.code first.charge s first.result bound is in
      let s1 = apply s first in
      let s2 = run s1 between in
      let two : 0 < s2.login.invalidations =
        omega (arith, one ended, run_counts s1 between bound' failures) in
      let off = apply_rejects second.at second.code second.charge s2 second.result two rejected in
      rw (run-append s1 between (second ∷ after)) (run_disabled (apply s2 second) after off)
