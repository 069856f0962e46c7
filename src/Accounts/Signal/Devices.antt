-- ===== src/Accounts/Signal/Devices.antt =====
-- `CONCURRENT_DEVICE` signals (src/accounts.rs, `global_signal`) against their daily limit.
use sirius_api_proxy.Base.{
  ℕ, suc, ◌+◌, ◌≤◌, ◌<◌, ◌≡◌, ◌↔◌, refl, true, false, some, List, [], ◌∷◌, ◌++◌, arith, leb, length,
  length-append, if◌then◌else◌,
}
use sirius_api_proxy.Error.{AppError}
use sirius_api_proxy.SdkSession.{Env}
use sirius_api_proxy.Accounts.Health.{PoolPolicy, Charge, disable, cool_down}
use sirius_api_proxy.Accounts.Login.{LoginConfig, day, drop_old, prune}
use sirius_api_proxy.Accounts.Signal.{
  Moment, Subject, err, classify, well_formed, act, global_signal, invalidate, count_device,
  limit_device,
}

-- Instants of one day that begins at `start`.
abbrev pub WithinDay : ℕ → List ℕ → Type 0
WithinDay start [] = Unit
WithinDay start (t ∷ times) = (start ≤ t) × (t < start + day) × WithinDay start times

drop_old_within :
    (start now : ℕ) (times : List ℕ)
    → now < start + day
    → WithinDay start times
    → drop_old now times ≡ times
unfolding drop_old
drop_old_within start now [] h w = refl
drop_old_within start now (t ∷ times) h w =
    ground (arith, w.0, drop_old_within start now times h w.2)

WithinDay-append :
    (start now : ℕ) (times : List ℕ)
    → start ≤ now
    → now < start + day
    → WithinDay start times
    → WithinDay start (times ++ now ∷ [])
WithinDay-append start now [] h k w = (h, k, tt)
WithinDay-append start now (t ∷ times) h k w = (w.0, w.1, WithinDay-append start now times h k w.2)

module _ (env : Env) (policy : PoolPolicy) (login : LoginConfig) (error : AppError)
    (charge : Charge) where
  -- One `CONCURRENT_DEVICE` signal at each moment, in turn.
  unfoldable pub device_signals : Subject → List Moment → Subject
  device_signals s [] = s
  device_signals s (at ∷ moments) =
      device_signals
        (global_signal env at policy login (err error) (some "CONCURRENT_DEVICE") charge s) moments

  device_signal :
      (at : Moment) (s : Subject)
      → let s' =
          global_signal env at policy login (err error) (some "CONCURRENT_DEVICE") charge s in
        let queue = drop_old at.now s.login.concurrent_device ++ at.now ∷ [] in
        (s'.login.concurrent_device ≡ queue)
        × (s'.health.disabled ≡ (
            if leb login.concurrent_device_limit (length queue) then true else s.health.disabled))
  unfolding global_signal act classify well_formed limit_device count_device invalidate prune
      disable cool_down
  device_signal at s = (ground arith, ground arith)

  abbrev Limited : ℕ → ℕ → Subject → Type 0
  Limited start seen s =
      WithinDay start s.login.concurrent_device
      × (length s.login.concurrent_device ≡ seen)
      × (s.health.disabled ≡ (if leb login.concurrent_device_limit seen then true else false))

  Limited-device_signal :
      (start seen : ℕ) (at : Moment) (s : Subject)
      → start ≤ at.now
      → at.now < start + day
      → Limited start seen s
      → Limited start
          (suc seen)
          (global_signal env at policy login (err error) (some "CONCURRENT_DEVICE") charge s)
  Limited-device_signal start seen at s from to (w, l, d) =
      let (queue, off) = device_signal at s in
      let same = drop_old_within start at.now s.login.concurrent_device to w in
      let long = length-append s.login.concurrent_device (at.now ∷ []) in
      (
        rw (queue, same) (WithinDay-append start at.now s.login.concurrent_device from to w),
        rw (queue, same) (omega (arith, long, l)),
        rw off (rw same (ground (arith, long, l, d))),
      )

  abbrev pub times_of : List Moment → List ℕ
  times_of [] = []
  times_of (at ∷ moments) = at.now ∷ times_of moments

  device_signals-Limited :
      (start seen : ℕ) (moments : List Moment) (s : Subject)
      → WithinDay start (times_of moments)
      → Limited start seen s
      → Limited start (seen + length moments) (device_signals s moments)
  unfolding device_signals
  device_signals-Limited start seen [] s w h = let e : seen + 0 ≡ seen = omega arith in rw e h
  device_signals-Limited start seen (at ∷ moments) s w h =
      let e : seen + suc (length moments) ≡ suc seen + length moments = omega arith in
      rw e (
        device_signals-Limited start (suc seen) moments _ w.2
          (Limited-device_signal start seen at s w.0 w.1 h))

  -- `CONCURRENT_DEVICE` signals of one day, to an account that has seen none that day, disable it
  -- exactly when their number has reached the limit.
  pub device_limit_iff :
      (start : ℕ) (moments : List Moment) (s : Subject)
      → 0 < login.concurrent_device_limit
      → s.login.concurrent_device ≡ []
      → s.health.disabled ≡ false
      → WithinDay start (times_of moments)
      → ((device_signals s moments).health.disabled ≡ true)
        ↔ (login.concurrent_device_limit ≤ length moments)
  device_limit_iff start moments s positive unseen enabled w =
      let h : Limited start 0 s = (rw unseen tt, rw unseen, ground arith) in
      let (_, _, d) = device_signals-Limited start 0 moments s w h in
      let e : 0 + length moments ≡ length moments = omega arith in ground (arith, d, e)
