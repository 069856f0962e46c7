-- ===== src/GameClient/Repeats.antt =====
-- How often a call is made (src/client.rs, `execute`).
use sirius_api_proxy.Base.{
  ℕ, suc, ◌+◌, ◌≤◌, ◌≡◌, refl, ap, String, Bool, true, false, not, ◌&&◌, ◌||◌, inl, inr, some, List,
  [], ◌∷◌, arith, Bool-cases, length, str_eq, str_eq_iff, all, take, ltb,
}
use mathlib.Core.Path.{subst}
use sirius_api_proxy.Accounts.Signal.{version_signal}
use sirius_api_proxy.NodeRouting.Calls.{authenticated}
use sirius_api_proxy.GameClient.Versions.{version_route}
use sirius_api_proxy.GameClient.Calls.{
  announcements, announcement, server_list, attempts_for, retryable, Try, delay_after, Executed,
  returns, retry_loop, execute,
}

abbrev anonymous : String → Bool
anonymous route =
    str_eq route version_route
    || str_eq route announcements
    || str_eq route announcement
    || str_eq route server_list

-- A route with credentials is none of them.
apart :
    (route other : String)
    → authenticated route ≡ true
    → authenticated other ≡ false
    → str_eq route other ≡ false
apart route other a b = elim (Bool-cases (str_eq route other)) [
  | inr n ↦ n
  | inl e ↦
      absurd
        (ground (arith, subst (λ r. authenticated r ≡ true) ((str_eq_iff route other).0 e) a, b))
]

not_anonymous : (route : String) → authenticated route ≡ true → anonymous route ≡ false
unfolding authenticated
not_anonymous route a = ground (
  arith,
  apart route version_route a refl,
  apart route announcements a refl,
  apart route announcement a refl,
  apart route server_list a refl,
)

attempts-bounds :
    (anonymous_attempts : ℕ) (route : String)
    → 1 ≤ anonymous_attempts
    → (1 ≤ attempts_for anonymous_attempts route)
      × (attempts_for anonymous_attempts route ≤ anonymous_attempts)
unfolding attempts_for
attempts-bounds anonymous_attempts route l = elim (Bool-cases (anonymous route)) [
  | inl y ↦ simp y (l, omega arith)
  | inr n ↦ simp n (omega arith, l)
]

authenticated-once :
    (anonymous_attempts : ℕ) (route : String)
    → authenticated route ≡ true
    → attempts_for anonymous_attempts route ≡ 1
unfolding attempts_for
authenticated-once anonymous_attempts route a = simp (not_anonymous route a) refl

module _ {V : Type 0} where
  -- A failure that may be repeated.
  abbrev pub may_repeat : Try V → Bool
  may_repeat t = retryable t.result && not (version_signal t.code) && not t.maintenance

  retry_loop-ends :
      (attempts delay attempt : ℕ) (tries : List (Try V))
      → suc attempt ≤ attempts
      → attempts ≤ length tries + attempt
      → (x : Executed V) × (n : ℕ) × (retry_loop attempts delay attempt tries ≡ some x)
        × (x.attempts ≡ n + suc attempt)
        × (x.attempts ≤ attempts)
        × (length x.delays ≡ n)
        × (all may_repeat (take n tries) ≡ true)
  unfolding retry_loop returns
  retry_loop-ends attempts delay attempt [] l e = absurd (omega (arith, l, e))
  retry_loop-ends attempts delay attempt (t ∷ tries) l e =
      elim (Bool-cases (returns attempts (suc attempt) t)) [
        | inl r ↦ (
          record { result = t.result; attempts = suc attempt; delays = [] },
          0,
          simp r refl,
          omega arith,
          l,
          refl,
          refl,
        )
        | inr r ↦
            let (x, n, o, a, b, d, m) =
              retry_loop-ends attempts delay (suc attempt) tries (ground (arith, r, l))
                (omega (arith, e)) in
            (
              record x { delays = delay_after delay (suc attempt) ∷ x.delays },
              suc n,
              simp (r, o) refl,
              omega (arith, a),
              b,
              ap suc d,
              ground (arith, r, m),
            )
      ]

  -- A call ends after at most its attempts, and each attempt before the last failed in a way that
  -- may be repeated: the transport failed or the game was unavailable, without a version signal or
  -- a maintenance. There is a delay before each new attempt. A call with an account's credentials
  -- is made once.
  pub execute-ends :
      (anonymous_attempts delay : ℕ) (route : String) (tries : List (Try V))
      → 1 ≤ anonymous_attempts
      → anonymous_attempts ≤ length tries
      → (x : Executed V) × (n : ℕ) × (execute anonymous_attempts delay route tries ≡ some x)
        × (x.attempts ≡ suc n)
        × (x.attempts ≤ anonymous_attempts)
        × (length x.delays ≡ n)
        × (all may_repeat (take n tries) ≡ true)
        × (authenticated route && ltb 1 x.attempts ≡ false)
  unfolding execute
  execute-ends anonymous_attempts delay route tries l e =
      let k = attempts_for anonymous_attempts route in
      let (low, high) = attempts-bounds anonymous_attempts route l in
      let (x, n, o, a, b, d, m) = retry_loop-ends k delay 0 tries low (omega (arith, high, e)) in
      (
        x,
        n,
        o,
        omega (arith, a),
        omega (arith, b, high),
        d,
        m,
        elim (Bool-cases (authenticated route)) [
          | inl y ↦ simp y (ground (arith, a, b, authenticated-once anonymous_attempts route y))
          | inr e ↦ simp e refl
        ],
      )
