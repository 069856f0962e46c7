-- ===== src/PathHealth/Tracks.antt =====
-- The breaker's state beside the streak of faults since the last answer (src/path_health.rs).
use sirius_api_proxy.Base.{
  ℕ, ◌<◌, ◌≡◌, ◌⊎◌, inl, inr, refl, ap, sym, ◌∙◌, String, Bool, true, false, Option, none, some,
  List, [], ◌∷◌, arith, u32_max, min, length, str_eq, str_eq_iff, Bool-cases, saturating_add_u32,
  ◌≢◌,
}
use sirius_api_proxy.PathHealth.{
  PathHealth, Outcome, healthy, fault, Ticket, record_outcome, admit, drop_ticket,
}
use sirius_api_proxy.PathHealth.Invariant.{
  IsValid, record_outcome-IsValid, admit-IsValid, drop_ticket-IsValid,
}
use sirius_api_proxy.PathHealth.Events.{
  Event, attempt, admission, release, apply, run, extend, streak_from, AllFrom, OneAccount,
}

-- How the breaker's state stands for a streak.
pub record Tracks (p : PathHealth) (streak : List (Option String)) : Type 0 where
  pub counted : p.state.failures ≡ min (length streak) u32_max
  pub own :
      p.state.attributed ≡ false
      → streak ≢ []
      → (p.distinct_sources ≡ true)
        × (name : String) × (p.state.first_source ≡ some name)
        × AllFrom name streak
  pub shared : p.state.attributed ≡ true → ¬ OneAccount p.distinct_sources streak
  pub begun : p.state.attributed ≡ true → streak ≢ []

not-OneAccount-cons :
    (distinct : Bool) (s : Option String) (streak : List (Option String))
    → ¬ OneAccount distinct streak
    → ¬ OneAccount distinct (s ∷ streak)
not-OneAccount-cons distinct s streak h (d, name, all) = h (d, name, all.1)

module _ (now : ℕ) (p : PathHealth) where
  failures-fault :
      (source : Option String)
      → (record_outcome now p source fault).0.state.failures ≡ saturating_add_u32 p.state.failures 1
  unfolding record_outcome
  failures-fault source = ground arith

  distinct-record_outcome :
      (source : Option String) (outcome : Outcome)
      → (record_outcome now p source outcome).0.distinct_sources ≡ p.distinct_sources
  unfolding record_outcome
  distinct-record_outcome source healthy = refl
  distinct-record_outcome source fault = refl

  -- A fault of an attributed streak leaves it attributed.
  fault_attributed :
      (source : Option String)
      → 0 < p.state.failures
      → p.state.attributed ≡ true
      → (record_outcome now p source fault).0.state.attributed ≡ true
  unfolding record_outcome
  fault_attributed source going h = ground arith

  fault_anonymous : (record_outcome now p none fault).0.state.attributed ≡ true
  unfolding record_outcome
  fault_anonymous = ground arith

  fault_shared :
      (source : Option String)
      → p.distinct_sources ≡ false
      → (record_outcome now p source fault).0.state.attributed ≡ true
  unfolding record_outcome
  fault_shared source h = ground arith

  fault_first :
      (name : String)
      → p.distinct_sources ≡ true
      → p.state.failures ≡ 0
      → ((record_outcome now p (some name) fault).0.state.attributed ≡ false)
        × ((record_outcome now p (some name) fault).0.state.first_source ≡ some name)
  unfolding record_outcome
  fault_first name d h = ground arith

  fault_again :
      (name first : String)
      → p.distinct_sources ≡ true
      → 0 < p.state.failures
      → p.state.attributed ≡ false
      → p.state.first_source ≡ some first
      → ((str_eq first name ≡ true)
          → ((record_outcome now p (some name) fault).0.state.attributed ≡ false)
            × ((record_outcome now p (some name) fault).0.state.first_source ≡ some first))
        × ((str_eq first name ≡ false)
            → (record_outcome now p (some name) fault).0.state.attributed ≡ true)
  unfolding record_outcome
  fault_again name first d going h f = ground arith

cons≢nil : (s : Option String) (streak : List (Option String)) → (s ∷ streak) ≢ []
cons≢nil s streak e = cc

-- After a fault the streak is attributed to the path, or it is still one account's.
module _ (now : ℕ) (p : PathHealth) (source : Option String) (streak : List (Option String)) where
  Tracks-attributed :
      Tracks p streak
      → (record_outcome now p source fault).0.state.attributed ≡ true
      → ¬ OneAccount p.distinct_sources (source ∷ streak)
      → Tracks (record_outcome now p source fault).0 (source ∷ streak)
  Tracks-attributed t a other = record {
    counted = omega (arith, failures-fault now p source, t.counted);
    own = λ h _. absurd (cc);
    shared = λ _. rw (distinct-record_outcome now p source fault) other;
    begun = λ _. cons≢nil source streak;
  }

  Tracks-own :
      (name : String)
      → Tracks p streak
      → (record_outcome now p source fault).0.state.attributed ≡ false
      → (record_outcome now p source fault).0.state.first_source ≡ some name
      → p.distinct_sources ≡ true
      → AllFrom name (source ∷ streak)
      → Tracks (record_outcome now p source fault).0 (source ∷ streak)
  Tracks-own name t a f d all = record {
    counted = omega (arith, failures-fault now p source, t.counted);
    own = λ _ _. (distinct-record_outcome now p source fault ∙ d, name, f, all);
    shared = λ h. absurd (cc);
    begun = λ _. cons≢nil source streak;
  }

going :
    (p : PathHealth) (s : Option String) (streak : List (Option String))
    → Tracks p (s ∷ streak)
    → 0 < p.state.failures
going p s streak t = omega (arith, t.counted)

Tracks-fault_named :
    (now : ℕ) (p : PathHealth) (name : String) (streak : List (Option String))
    → p.distinct_sources ≡ true
    → p.state.attributed ≡ false
    → Tracks p streak
    → Tracks (record_outcome now p (some name) fault).0 (some name ∷ streak)
Tracks-fault_named now p name [] d a t =
    let (own, first) = fault_first now p name d (omega (arith, t.counted)) in
    Tracks-own now p (some name) [] name t own first d (refl, tt)
Tracks-fault_named now p name (s ∷ streak) d a t =
    let (_, first, f, all) = t.own a (cons≢nil s streak) in
    let (same, other) = fault_again now p name first d (going p s streak t) a f in
    elim (Bool-cases (str_eq first name)) [
      | inl e ↦
          let (own, kept) = same e in
          Tracks-own now p (some name) (s ∷ streak) first t own kept d
            (ap some (sym ((str_eq_iff first name).0 e)), all)
      | inr e ↦
          Tracks-attributed now p (some name) (s ∷ streak) t (other e)
            (λ (_, k, from). ground (arith, str_eq_iff first name, from.0, from.1.0, all.0))
    ]

Tracks-fault :
    (now : ℕ) (p : PathHealth) (source : Option String) (streak : List (Option String))
    → IsValid p
    → Tracks p streak
    → Tracks (record_outcome now p source fault).0 (source ∷ streak)
Tracks-fault now p source streak v t = elim (Bool-cases p.state.attributed) [
  | inl a ↦
      Tracks-attributed now p source streak t (fault_attributed now p source (v.current a).0 a)
        (not-OneAccount-cons p.distinct_sources source streak (t.shared a))
  | inr a ↦ elim (Bool-cases p.distinct_sources) [
    | inl d ↦ split source d a
    | inr d ↦
        Tracks-attributed now p source streak t (fault_shared now p source d) (λ (e, k, from). cc)
  ]
]
  where
    split :
        (source : Option String)
        → p.distinct_sources ≡ true
        → p.state.attributed ≡ false
        → Tracks (record_outcome now p source fault).0 (source ∷ streak)
    split none d a =
        Tracks-attributed now p none streak t (fault_anonymous now p) (λ (_, k, from). cc (from.0))
    split (some name) d a = Tracks-fault_named now p name streak d a t

pub Tracks-healthy :
    (now : ℕ) (p : PathHealth) (source : Option String)
    → Tracks (record_outcome now p source healthy).0 []
unfolding record_outcome
Tracks-healthy now p source = record {
  counted = omega arith;
  own = λ _ h. absurd (h refl);
  shared = λ h. absurd (cc);
  begun = λ h. absurd (cc);
}

-- Admission and the end of a ticket change `probing` alone.
admit_state :
    (now : ℕ) (p : PathHealth)
    → ((admit now p).0 ≡ p)
      ⊎ ((admit now p).0 ≡ record p { state = record p.state { probing = true } })
unfolding admit
admit_state now p = ground arith

drop_state :
    (t : Ticket) (p : PathHealth)
    → (drop_ticket t p ≡ p)
      ⊎ (drop_ticket t p ≡ record p { state = record p.state { probing = false } })
unfolding drop_ticket
drop_state t p = ground arith

Tracks-probing :
    (p p' : PathHealth) (b : Bool) (streak : List (Option String))
    → (p' ≡ p) ⊎ (p' ≡ record p { state = record p.state { probing = b } })
    → Tracks p streak
    → Tracks p' streak
Tracks-probing p p' b streak (inl e) t = rw e t
Tracks-probing p p' b streak (inr e) t =
    rw e (record { counted = t.counted; own = t.own; shared = t.shared; begun = t.begun })

Tracks-apply :
    (p : PathHealth) (e : Event) (streak : List (Option String))
    → IsValid p
    → Tracks p streak
    → Tracks (apply p e) (extend streak e)
unfolding apply
Tracks-apply p (attempt now source healthy) streak v t = Tracks-healthy now p source
Tracks-apply p (attempt now source fault) streak v t = Tracks-fault now p source streak v t
Tracks-apply p (admission now) streak v t =
    Tracks-probing p (admit now p).0 true streak (admit_state now p) t
Tracks-apply p (release ticket) streak v t =
    Tracks-probing p (drop_ticket ticket p) false streak (drop_state ticket p) t

pub apply-IsValid : (p : PathHealth) (e : Event) → IsValid p → IsValid (apply p e)
unfolding apply
apply-IsValid p (attempt now source outcome) v = record_outcome-IsValid v now source outcome
apply-IsValid p (admission now) v = admit-IsValid v now
apply-IsValid p (release t) v = drop_ticket-IsValid v t

pub Tracks-run :
    (p : PathHealth) (events : List Event) (streak : List (Option String))
    → IsValid p
    → Tracks p streak
    → IsValid (run p events) × Tracks (run p events) (streak_from streak events)
unfolding run streak_from
Tracks-run p [] streak v t = (v, t)
Tracks-run p (e ∷ events) streak v t =
    Tracks-run (apply p e) events (extend streak e) (apply-IsValid p e v)
      (Tracks-apply p e streak v t)
