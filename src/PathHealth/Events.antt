-- ===== src/PathHealth/Events.antt =====
-- Calls on the breaker (src/path_health.rs) as events, and the streak of faults that the module's
-- comment describes.
use sirius_api_proxy.Base.{ℕ, ◌≡◌, String, Bool, true, Option, some, List, [], ◌∷◌}
use sirius_api_proxy.PathHealth.{
  PathHealth, Outcome, healthy, fault, Ticket, record_outcome, admit, drop_ticket,
}

-- What calls do to a path: report an attempt, ask for admission, or give a ticket back.
pub data Event : Type 0 where
  attempt : ℕ → Option String → Outcome → Event
  admission : ℕ → Event
  release : Ticket → Event

unfoldable pub apply : PathHealth → Event → PathHealth
apply p (attempt now source outcome) = (record_outcome now p source outcome).0
apply p (admission now) = (admit now p).0
apply p (release t) = drop_ticket t p

unfoldable pub run : PathHealth → List Event → PathHealth
run p [] = p
run p (e ∷ events) = run (apply p e) events

-- The sources of the faults since the last answer, the newest first.
abbrev pub extend : List (Option String) → Event → List (Option String)
extend streak (attempt now source healthy) = []
extend streak (attempt now source fault) = source ∷ streak
extend streak (admission now) = streak
extend streak (release t) = streak

unfoldable pub streak_from : List (Option String) → List Event → List (Option String)
streak_from streak [] = streak
streak_from streak (e ∷ events) = streak_from (extend streak e) events

abbrev pub AllFrom : String → List (Option String) → Type 0
AllFrom name [] = Unit
AllFrom name (s ∷ streak) = (s ≡ some name) × AllFrom name streak

-- Every fault of the streak came from one account, on a path that tells accounts apart.
abbrev pub OneAccount : Bool → List (Option String) → Type 0
OneAccount distinct streak = (distinct ≡ true) × (name : String) × AllFrom name streak
