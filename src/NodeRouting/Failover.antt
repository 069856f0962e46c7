-- ===== src/NodeRouting/Failover.antt =====
-- Which targets a routed call reaches (src/node_routing.rs, `call_inner`).
use sirius_api_proxy.Base.{
  ◌≡◌, inl, inr, refl, String, Bool, true, false, not, ◌&&◌, ◌||◌, List, [], ◌∷◌, ◌++◌, arith, all,
  Bool-cases, ℕ, suc, ◌≤◌, ◌==◌, Result, ok, err,
}
use sirius_api_proxy.NodeRouting.Calls.{
  Execution, Answer, Visit, executed, target_fault, returns, call_targets, call_inner,
  authenticated, replied, unanswered, local_call, undispatched, local_undispatched,
}
use sirius_api_proxy.Error.{AppError}
use sirius_api_proxy.Peer.{Observation, query, called, failure_from}
use sirius_api_proxy.Peer.Transport.{TransportError, definitely_not_sent, rejected_before_dispatch}

-- Every answer but the last is taken to show that its target did not execute the read.
abbrev IsTakenOnce : {Value : Type 0} → List (Answer Value) → Type 0
IsTakenOnce [] = Unit
IsTakenOnce (a ∷ []) = Unit
IsTakenOnce (a ∷ b ∷ rest) = ((executed a).1 ≡ true) × IsTakenOnce (b ∷ rest)

-- The errors that a call ends with before it is dispatched to the game: the node is not the one that
-- is meant, serves no such operation, has no account to lease, or refuses calls on an open path.
abbrev pub precedes_dispatch : AppError → Bool
precedes_dispatch AppError.peer_identity_mismatch = true
precedes_dispatch AppError.unsupported_region_operation = true
precedes_dispatch AppError.peer_account_unavailable = true
precedes_dispatch AppError.upstream_unavailable = true
precedes_dispatch _ = false

abbrev pub ended_before : {Value : Type 0} → Result Value AppError → Bool
ended_before (ok v) = false
ended_before (err e) = precedes_dispatch e

-- The statuses with which a node answers before its handler dispatches a call (src/peer_transport.rs,
-- `PRE_DISPATCH_STATUSES`).
abbrev pub precedes_handler : ℕ → Bool
precedes_handler s =
    s == 400 || s == 401 || s == 404 || s == 405 || s == 413 || s == 415 || s == 422

-- The answers of a target that has dispatched the read: its node has answered with what its own call
-- ended with, or the answer was lost, broken or of another status, or the local call has ended.
pub data HasRun {Value : Type 0} : Answer Value → Type 0 where
  by_peer :
      (redact : Value → Value) (r : Result Value AppError) (o : Observation)
      → ended_before r ≡ false
      → HasRun (replied (query true redact r o))
  timed_out : HasRun (unanswered TransportError.timeout)
  cut_off : HasRun (unanswered TransportError.transport)
  garbled : HasRun (unanswered TransportError.protocol)
  with_status : (s : ℕ) → precedes_handler s ≡ false → HasRun (unanswered (TransportError.status s))
  by_itself :
      (r : Result Value AppError) (o : Observation)
      → ended_before r ≡ false
      → HasRun (local_call r o)

-- How many of the targets that gave these answers have dispatched the read. Any target may have not.
pub data Dispatches {Value : Type 0} : List (Answer Value) → ℕ → Type 0 where
  no_answer : Dispatches [] 0
  has_not :
      (a : Answer Value) (rest : List (Answer Value)) (n : ℕ)
      → Dispatches rest n
      → Dispatches (a ∷ rest) n
  has :
      (a : Answer Value) (rest : List (Answer Value)) (n : ℕ)
      → HasRun a
      → Dispatches rest n
      → Dispatches (a ∷ rest) (suc n)

module _ {Value : Type 0} where
  IsTakenOnce-cons :
      (a : Answer Value) (rest : List (Answer Value))
      → (executed a).1 ≡ true
      → IsTakenOnce rest
      → IsTakenOnce (a ∷ rest)
  IsTakenOnce-cons a [] s o = tt
  IsTakenOnce-cons a (b ∷ rest) s o = (s, o)

  not_returned : (a : Answer Value) → returns true a ≡ false → (executed a).1 ≡ true
  unfolding returns
  not_returned a h = ground (arith, h)

  call_targets-once :
      (last : Execution Value) (visits : List (Visit Value))
      → IsTakenOnce (call_targets true last visits).0
  unfolding call_targets
  call_targets-once last [] = tt
  call_targets-once last (v ∷ visits) = elim (Bool-cases v.past_deadline) [
    | inl d ↦ simp d tt
    | inr d ↦ elim (Bool-cases v.admitted) [
      | inr a ↦ simp (d, a) (call_targets-once last visits)
      | inl a ↦ elim (Bool-cases (returns true v.answer)) [
        | inl r ↦ simp (d, a, r) tt
        | inr r ↦
            simp (d, a, r)
              (IsTakenOnce-cons v.answer _ (not_returned v.answer r)
                (call_targets-once (executed v.answer).0 visits))
      ]
    ]
  ]

  taken_once :
      (route : String) (acquired : Bool) (visits : List (Visit Value))
      → authenticated route ≡ true
      → IsTakenOnce (call_inner route acquired visits).0
  unfolding call_inner
  taken_once route true visits h = rw h (call_targets-once _ visits)
  taken_once route false visits h = tt

  by_peer-executed :
      (redact : Value → Value) (r : Result Value AppError) (o : Observation)
      → ended_before r ≡ false
      → (executed (replied (query true redact r o))).1 ≡ false
  unfolding executed query called undispatched failure_from
  by_peer-executed redact (ok v) o b = refl
  by_peer-executed redact (err e) o b = ground (arith, b)

  HasRun-executed : (a : Answer Value) → HasRun a → (executed a).1 ≡ false
  unfolding executed local_undispatched definitely_not_sent rejected_before_dispatch
  HasRun-executed _ (by_peer redact r o b) = by_peer-executed redact r o b
  HasRun-executed _ timed_out = refl
  HasRun-executed _ cut_off = refl
  HasRun-executed _ garbled = refl
  HasRun-executed _ (with_status s b) = ground (arith, b)
  HasRun-executed _ (by_itself (ok v) o b) = refl
  HasRun-executed _ (by_itself (err e) o b) = ground (arith, b)

  Dispatches-le-one :
      (calls : List (Answer Value)) (n : ℕ) → IsTakenOnce calls → Dispatches calls n → n ≤ 1
  Dispatches-le-one [] _ t no_answer = omega arith
  Dispatches-le-one (a ∷ []) _ t (has_not _ _ _ no_answer) = omega arith
  Dispatches-le-one (a ∷ []) _ t (has _ _ _ h no_answer) = omega arith
  Dispatches-le-one (a ∷ b ∷ rest) _ (s, t) (has_not _ _ n d) = Dispatches-le-one (b ∷ rest) n t d
  Dispatches-le-one (a ∷ b ∷ rest) _ (s, t) (has _ _ n h d) =
      absurd (ground (arith, s, HasRun-executed a h))

  -- An authenticated read is dispatched to the game by one target at most, whatever the targets
  -- answer, when each target that has dispatched it answers as such a target can: with what its call
  -- ended with, or not at all, or with a broken answer or a status that the handler may give.
  pub executed_once :
      (route : String) (acquired : Bool) (visits : List (Visit Value)) (n : ℕ)
      → authenticated route ≡ true
      → Dispatches (call_inner route acquired visits).0 n
      → n ≤ 1
  executed_once route acquired visits n h d =
      Dispatches-le-one (call_inner route acquired visits).0 n (taken_once route acquired visits h)
        d

  -- A target that the loop passes over in a public read.
  abbrev pub passed : Visit Value → Bool
  passed v = not v.past_deadline && (not v.admitted || target_fault (executed v.answer).0)

  all_parts :
      (u : Visit Value) (before : List (Visit Value))
      → all passed (u ∷ before) ≡ true
      → (passed u ≡ true) × (all passed before ≡ true)
  all_parts u before h = elim (Bool-cases (passed u)) [
    | inl e ↦ (e, simp e at h)
    | inr e ↦ absurd (ground (arith, h, e))
  ]

  returns-public :
      (a : Answer Value) (b : Bool) → target_fault (executed a).0 ≡ b → returns false a ≡ not b
  unfolding returns
  returns-public a b h = ground (arith, h)

  call_targets-first :
      (last : Execution Value) (before after : List (Visit Value)) (v : Visit Value)
      → all passed before ≡ true
      → v.past_deadline ≡ false
      → v.admitted ≡ true
      → target_fault (executed v.answer).0 ≡ false
      → (call_targets false last (before ++ v ∷ after)).1 ≡ (executed v.answer).0
  unfolding call_targets
  call_targets-first last [] after v p d a f = simp (d, a, returns-public v.answer false f) refl
  call_targets-first last (u ∷ before) after v p d a f =
      let (here, rest) = all_parts u before p in
      elim (Bool-cases u.past_deadline) [
        | inl ud ↦ absurd (ground (arith, here, ud))
        | inr ud ↦ elim (Bool-cases u.admitted) [
          | inr ua ↦ simp (ud, ua) (call_targets-first last before after v rest d a f)
          | inl ua ↦
              let fault : target_fault (executed u.answer).0 ≡ true =
                ground (arith, here, ud, ua) in
              simp (ud, ua, returns-public u.answer true fault)
                (call_targets-first (executed u.answer).0 before after v rest d a f)
        ]
      ]

  -- A public read ends with the first target that lets it through and answers without a fault, when
  -- the targets before it let it through and fail, or do not let it through, before the deadline.
  pub first_without_fault :
      (route : String) (before after : List (Visit Value)) (v : Visit Value)
      → authenticated route ≡ false
      → all passed before ≡ true
      → v.past_deadline ≡ false
      → v.admitted ≡ true
      → target_fault (executed v.answer).0 ≡ false
      → (call_inner route true (before ++ v ∷ after)).1 ≡ (executed v.answer).0
  unfolding call_inner
  first_without_fault route before after v h p d a f =
      rw h (call_targets-first _ before after v p d a f)
