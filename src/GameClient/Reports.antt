-- ===== src/GameClient/Reports.antt =====
-- The end of a call on an account (src/accounts.rs, `Lease::report` and `Account::global_signal`),
-- as changes of the account's health.
use sirius_api_proxy.Base.{
  ℕ, ◌≡◌, ◌||◌, String, Bool, true, false, Option, none, some, ◌==◌, str_eq, is_some_and,
  if◌then◌else◌, filter_option,
}
use sirius_api_proxy.Error.{AppError, timeout, transport, protocol, grpc}
use sirius_api_proxy.Accounts.Health.{Health, PoolPolicy, Charge, account, path, path_fault}
use sirius_api_proxy.SdkSession.{Env}
use sirius_api_proxy.Accounts.Login.{LoginConfig}
use sirius_api_proxy.Accounts.Signal.{
  CallResult, ok, err, Subject, Moment, version_signal, well_formed, Signal, banned, aegis,
  concurrent_device, invalid, ignored, unsignalled, classify, grpc_of, is_path_error, status_is,
  noted, invalidate, disable_repeated, count_device, limit_device, by_status, act, global_signal,
  static_error, static_signal,
}
use sirius_api_proxy.GameClient.Settlement.{
  Change, success, own_fault, uncharged, rejection, disabling, cooling, charged, apply,
}

module _ (env : Env) (at : Moment) (policy : PoolPolicy) (login : LoginConfig) (streak : ℕ) where
  -- The health is left alone or changed by one change.
  pub data IsChange (h : Health) : Health → Type 0 where
    kept : IsChange h h
    one : (c : Change) → IsChange h (apply policy streak c h)

  if-IsChange :
      (b : Bool) (h : Health) {x y : Health}
      → IsChange h x
      → IsChange h y
      → IsChange h (if b then x else y)
  if-IsChange true h p q = p
  if-IsChange false h p q = q

  -- A charge of no other streak.
  abbrev pub Pays : Charge → Type 0
  Pays path = Unit
  Pays (account none) = Unit
  Pays (account (some s)) = s ≡ streak

  path_fault-IsChange :
      (now : ℕ) (charge : Charge) (h : Health)
      → Pays charge
      → IsChange h (path_fault now policy charge h)
  unfolding apply path_fault
  path_fault-IsChange now path h p = kept
  path_fault-IsChange now (account none) h p = one (uncharged now)
  path_fault-IsChange now (account (some s)) h p = rw p (one (charged now))

  static_error-IsChange :
      (error : AppError) (charge : Charge) (h : Health)
      → Pays charge
      → IsChange h (static_error env at policy login error charge h)
  unfolding static_error apply
  static_error-IsChange (grpc status) charge h p =
      if-IsChange (status == 7 || status == 16) h (one rejection) (
        if-IsChange (status == 14) h (path_fault-IsChange at.now charge h p)
          (if-IsChange (status == 8 || status == 13) h (one (own_fault at.now)) kept))
  static_error-IsChange timeout charge h p = path_fault-IsChange at.now charge h p
  static_error-IsChange transport charge h p = path_fault-IsChange at.now charge h p
  static_error-IsChange protocol charge h p = path_fault-IsChange at.now charge h p
  static_error-IsChange _ charge h p = kept

  -- The report on an account of the configuration, whose fault is charged to no other streak.
  pub static_signal-IsChange :
      (result : CallResult) (code : Option String) (charge : Charge) (h : Health)
      → Pays charge
      → IsChange h (static_signal env at policy login result code charge h)
  unfolding static_signal apply
  static_signal-IsChange ok code charge h p =
      if-IsChange (is_some_and code (λ c. str_eq c "UNDER_MAINTENANCE") || version_signal code) h
        kept (one success)
  static_signal-IsChange (err error) code charge h p =
      if-IsChange (is_some_and code (λ c. str_eq c "UNDER_MAINTENANCE") || version_signal code) h
        kept (static_error-IsChange error charge h p)

  -- The same of an account with its login state and its SDK session.
  pub data IsReport (h : Health) (t : Subject) : Type 0 where
    report : IsChange h t.health → IsReport h t

  if-IsReport :
      (b : Bool) (h : Health) {x y : Subject}
      → IsReport h x
      → IsReport h y
      → IsReport h (if b then x else y)
  if-IsReport true h p q = p
  if-IsReport false h p q = q

  repeated-IsReport :
      (sdk_stale : Bool) (s : Subject)
      → IsReport s.health
          (disable_repeated env at policy login (invalidate env at policy login sdk_stale s))
  unfolding invalidate apply
  repeated-IsReport sdk_stale s = if-IsReport _ s.health (report (one disabling)) (report kept)

  by_status-IsReport :
      (error : AppError) (charge : Charge) (s : Subject)
      → Pays charge
      → IsReport s.health (by_status env at policy login error charge s)
  unfolding by_status apply
  by_status-IsReport error charge s p =
      if-IsReport (status_is (grpc_of error) 16) s.health (repeated-IsReport true s) (
        if-IsReport (status_is (grpc_of error) 7) s.health (report (one disabling)) (
          if-IsReport (is_path_error error || status_is (grpc_of error) 14) s.health
            (report (path_fault-IsChange at.now charge s.health p))
            (if-IsReport (status_is (grpc_of error) 8 || status_is (grpc_of error) 13) s.health
              (report (one (own_fault at.now))) (report kept))))

  act-IsReport :
      (signal : Signal) (error : AppError) (charge : Charge) (s : Subject)
      → Pays charge
      → IsReport s.health (act env at policy login signal error charge s)
  unfolding act limit_device count_device invalidate apply
  act-IsReport banned error charge s p = report (one disabling)
  act-IsReport aegis error charge s p = report (one (cooling _))
  act-IsReport concurrent_device error charge s p =
      if-IsReport _ s.health (report (one disabling)) (report (one (cooling _)))
  act-IsReport (invalid sdk_stale) error charge s p = repeated-IsReport sdk_stale s
  act-IsReport ignored error charge s p = report kept
  act-IsReport unsignalled error charge s p = by_status-IsReport error charge s p

  -- The report on a Global account.
  pub global_signal-IsReport :
      (result : CallResult) (code : Option String) (charge : Charge) (s : Subject)
      → Pays charge
      → IsReport s.health (global_signal env at policy login result code charge s)
  unfolding global_signal apply
  global_signal-IsReport ok code charge s p = report (one success)
  global_signal-IsReport (err error) code charge s p =
      let kept_code = filter_option code well_formed in
      act-IsReport (classify kept_code) error charge (record s { login = noted kept_code s.login })
        p
