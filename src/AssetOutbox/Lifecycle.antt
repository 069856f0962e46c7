-- ===== src/AssetOutbox/Lifecycle.antt =====
-- The life of one dispatch (src/asset_outbox.rs): the transitions of its state, and `change`.
use sirius_api_proxy.Base.{
  ℕ, String, ◌≡◌, refl, sym, ◌∙◌, ap, Bool, true, false, ◌&&◌, Option, none, some, arith, inl, inr,
  Bool-cases, Option-cases, str_eq, str_eq_iff, Result, ok, err, get, contains_key, replace,
  get-replace, if◌then◌else◌,
}
use mathlib.Core.Option.{some-injective}
use sirius_api_proxy.AssetOutbox.Entries.{
  Error, invalid, Entry, State, pending, sending, submitted, completed, failed,
}
use sirius_api_proxy.AssetOutbox.Store.{World, commit}
use sirius_api_proxy.AssetOutbox.Changes.{
  same_text, is_ambiguous, change, change_found, write_state, sending_state, refused_state,
  acknowledged_state, adopted_state, completed_state, failed_state,
}
use sirius_api_proxy.AssetOutbox.Events.{held}

-- The transitions of one dispatch. A job that was accepted keeps its id; what failed or completed
-- stays so, but for an operator who supplies the job of an ambiguous submission.
pub data Move : State → State → Type 0 where
  stay : {s : State} → Move s s
  begin : {at : ℕ} → Move pending (sending at)
  refuse : {at : ℕ} → Move (sending at) pending
  accept : {at : ℕ} {id : String} → Move (sending at) (submitted id)
  recover : {code id : String} → is_ambiguous code ≡ true → Move (failed none code) (submitted id)
  finish :
      {id catalog : String} {publication : Option String}
      → Move (submitted id) (completed id catalog publication)
  give_up : {code : String} → Move pending (failed none code)
  lose : {at : ℕ} {code : String} → Move (sending at) (failed none code)
  abort : {id code : String} → Move (submitted id) (failed (some id) code)

pub data Moves : State → State → Type 0 where
  none_left : {s : State} → Moves s s
  move_first : {s t u : State} → Move s t → Moves t u → Moves s u

-- What a closure of `change` gives is a transition.
abbrev pub Moved : State → Result State Error → Type 0
Moved s (err e) = Unit
Moved s (ok t) = Move s t

Moved-if :
    (b : Bool) (s : State) (r : Result State Error)
    → (b ≡ true → Moved s r)
    → Moved s (if b then r else err invalid)
Moved-if true s r m = m refl
Moved-if false s r m = tt

pub sending_state-Moved : (now : ℕ) (s : State) → Moved s (sending_state now s)
unfolding sending_state
sending_state-Moved now pending = begin
sending_state-Moved now (sending at) = stay
sending_state-Moved now (submitted id) = tt
sending_state-Moved now (completed id c p) = tt
sending_state-Moved now (failed id c) = tt

pub refused_state-Moved : (s : State) → Moved s (refused_state s)
unfolding refused_state
refused_state-Moved pending = tt
refused_state-Moved (sending at) = refuse
refused_state-Moved (submitted id) = tt
refused_state-Moved (completed id c p) = tt
refused_state-Moved (failed id c) = tt

pub acknowledged_state-Moved : (id : String) (s : State) → Moved s (acknowledged_state id s)
unfolding acknowledged_state
acknowledged_state-Moved id pending = tt
acknowledged_state-Moved id (sending at) = accept
acknowledged_state-Moved id (submitted job) =
    Moved-if (str_eq job id) (submitted job) (ok (submitted job)) (λ _. stay)
acknowledged_state-Moved id (completed job c p) = tt
acknowledged_state-Moved id (failed job c) = tt

pub adopted_state-Moved : (id : String) (s : State) → Moved s (adopted_state id s)
unfolding adopted_state
adopted_state-Moved id pending = tt
adopted_state-Moved id (sending at) = accept
adopted_state-Moved id (submitted job) =
    Moved-if (str_eq job id) (submitted job) (ok (submitted job)) (λ _. stay)
adopted_state-Moved id (completed job c p) = tt
adopted_state-Moved id (failed none c) =
    Moved-if (is_ambiguous c) (failed none c) (ok (submitted id)) (λ e. recover e)
adopted_state-Moved id (failed (some job) c) = tt

pub completed_state-Moved :
    (id catalog : String) (publication : Option String) (s : State)
    → Moved s (completed_state id catalog publication s)
unfolding completed_state
completed_state-Moved id catalog publication pending = tt
completed_state-Moved id catalog publication (sending at) = tt
completed_state-Moved id catalog publication (submitted job) =
    Moved-if (str_eq job id) (submitted job) (ok (completed id catalog publication))
      (λ e. rw ((str_eq_iff job id).0 e) finish)
completed_state-Moved id catalog publication (completed job c p) =
    Moved-if (str_eq job id && str_eq c catalog && same_text p publication) (completed job c p)
      (ok (completed job c p)) (λ _. stay)
completed_state-Moved id catalog publication (failed job c) = tt

pub failed_state-Moved : (code : String) (s : State) → Moved s (failed_state code s)
unfolding failed_state
failed_state-Moved code pending = give_up
failed_state-Moved code (sending at) = lose
failed_state-Moved code (submitted job) = abort
failed_state-Moved code (completed job c p) = tt
failed_state-Moved code (failed job c) = tt

-- Whatever is remembered under any key stays so, with the same identity, one transition on.
abbrev pub Keeps : World → World → Type 0
Keeps w w' =
    (k : String) (e : Entry)
    → held w k ≡ some e
    → (e' : Entry) × (held w' k ≡ some e') × (e'.identity ≡ e.identity) × Move e.state e'.state

pub Keeps-refl : (w : World) → Keeps w w
Keeps-refl w k e h = (e, h, refl, stay)

pub held-ledger :
    (w : World) (k : String) (e : Entry)
    → get k w.outbox.ledger.entries ≡ some e
    → held w k ≡ some e
unfolding held
held-ledger w k e g = rw g refl

pub held-replaced :
    (key k : String) (entry new : Entry) (w w' : World)
    → w'.archive ≡ w.archive
    → w'.outbox.ledger.entries ≡ replace key new w.outbox.ledger.entries
    → get key w.outbox.ledger.entries ≡ some entry
    → held w' k ≡ (if str_eq k key then some new else held w k)
unfolding held contains_key
held-replaced key k entry new w w' same_archive e g =
    rw (same_archive, e)
      (ground (arith, g, get-replace k key new w.outbox.ledger.entries, str_eq_iff k key))

write_state-Keeps :
    (written : Bool) (key : String) (entry : Entry) (r : Result State Error) (w : World)
    → get key w.outbox.ledger.entries ≡ some entry
    → Moved entry.state r
    → Keeps w (write_state written key entry r w).0
unfolding write_state commit
write_state-Keeps written key entry (err x) w g m = Keeps-refl w
write_state-Keeps false key entry (ok t) w g m = Keeps-refl w
write_state-Keeps true key entry (ok t) w g m = λ k e h. elim (Bool-cases (str_eq k key)) [
  | inl same ↦
      let k_is : k ≡ key = (str_eq_iff k key).0 same in
      let at : entry ≡ e = some-injective entry e (sym (held-ledger w k entry (rw k_is g)) ∙ h) in
      (record entry { state = t }, after k ∙ rw same refl, ap (λ x. x.identity) at, rw (← at) m)
  | inr other ↦ (e, after k ∙ rw other h, refl, stay)
]
  where
    after :
        (k : String)
        → held (write_state true key entry (ok t) w).0 k
          ≡ (if str_eq k key then some (record entry { state = t }) else held w k)
    after k = held-replaced key k entry (record entry { state = t }) w _ refl refl g

pub change-Keeps :
    (written : Bool) (key : String) (f : State → Result State Error) (w : World)
    → ((s : State) → Moved s (f s))
    → Keeps w (change written key f w).0
unfolding change change_found
change-Keeps written key f w m = elim (Option-cases (get key w.outbox.ledger.entries)) [
  | inl none_there ↦ rw none_there (Keeps-refl w)
  | inr (e, g) ↦ rw g (write_state-Keeps written key e (f e.state) w g (m e.state))
]
