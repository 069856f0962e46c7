-- ===== src/MasterAdmission/Delivery.antt =====
-- What the connection receives of a table (src/master_admission.rs, `Held`).
use sirius_api_proxy.Base.{
  ℕ, zero, suc, ◌+◌, ◌-◌, ◌≤◌, ◌≡◌, inl, inr, refl, sym, ap, ◌∙◌, min, Bool, true, List, [], ◌∷◌,
  ◌++◌, ltb, leb, length, take, all, arith, Bool-cases, length-take-le, le→leb,
}
use sirius_api_proxy.MasterAdmission.{
  max_chunk, data_frame, trailers, Poll, waiting, finished, failed, frame, Body, Held, advance,
  hand_on, held_of, poll_inner, poll_frame, polls,
}

-- The bytes of the data frames, in order.
unfoldable pub received : List Poll → List ℕ
received [] = []
received (frame (data_frame bytes) ∷ ps) = bytes ++ received ps
received (_ ∷ ps) = received ps

-- The other frames and the errors, in order.
unfoldable pub passed : List Poll → List Poll
passed [] = []
passed (failed e ∷ ps) = failed e ∷ passed ps
passed (frame (trailers t) ∷ ps) = frame (trailers t) ∷ passed ps
passed (_ ∷ ps) = passed ps

abbrev pub is_bounded : Poll → Bool
is_bounded (frame (data_frame bytes)) = leb (length bytes) max_chunk
is_bounded _ = true

-- How many polls a body may still take.
abbrev pub weight_of : Poll → ℕ
weight_of (frame (data_frame bytes)) = suc (length bytes)
weight_of _ = 1

unfoldable pub weight : List Poll → ℕ
weight [] = 0
weight (p ∷ ps) = weight_of p + weight ps

take-advance : (n : ℕ) (bytes : List ℕ) → take n bytes ++ advance n bytes ≡ bytes
unfolding advance
take-advance zero bytes = refl
take-advance (suc n) [] = refl
take-advance (suc n) (b ∷ bytes) = ap (λ t. b ∷ t) (take-advance n bytes)

length-advance : (n : ℕ) (bytes : List ℕ) → length (advance n bytes) ≡ length bytes - n
unfolding advance
length-advance zero bytes = omega arith
length-advance (suc n) [] = omega arith
length-advance (suc n) (b ∷ bytes) = omega (arith, length-advance n bytes)

append_nil : {A : Type 0} (xs : List A) → xs ++ [] ≡ xs
append_nil [] = refl
append_nil (x ∷ xs) = ap (λ t. x ∷ t) (append_nil xs)

append_assoc : (xs ys zs : List ℕ) → (xs ++ ys) ++ zs ≡ xs ++ (ys ++ zs)
append_assoc [] ys zs = refl
append_assoc (x ∷ xs) ys zs = ap (λ t. x ∷ t) (append_assoc xs ys zs)

-- One poll, by what it gives and leaves.
abbrev Delivers : Held → Held × Poll → Type 0
Delivers held (next, p) =
    (received (p ∷ []) ++ (next.pending ++ received next.inner)
      ≡ held.pending ++ received held.inner)
    × (passed (p ∷ []) ++ passed next.inner ≡ passed held.inner)
    × (is_bounded p ≡ true)
    × (length next.pending + weight next.inner ≤ (length held.pending + weight held.inner) - 1)

hand_on-Delivers : (held : Held) → 1 ≤ length held.pending → Delivers held (hand_on held)
unfolding hand_on received passed
hand_on-Delivers held l =
    let n = min (length held.pending) max_chunk in
    (
      rw (append_nil (take n held.pending)) (
          sym (append_assoc (take n held.pending) (advance n held.pending) (received held.inner))
          ∙ ap (λ t. t ++ received held.inner) (take-advance n held.pending)),
      refl,
      le→leb (length (take n held.pending)) max_chunk
          (omega (arith, length-take-le n held.pending)),
      omega (arith, length-advance n held.pending, l),
    )

poll_inner-Delivers : (inner : Body) → Delivers (held_of inner []) (poll_inner inner)
unfolding poll_inner received passed weight
poll_inner-Delivers [] = (refl, refl, refl, omega arith)
poll_inner-Delivers (waiting ∷ rest) = (refl, refl, refl, omega arith)
poll_inner-Delivers (finished ∷ rest) = (refl, refl, refl, omega arith)
poll_inner-Delivers (failed e ∷ rest) = (refl, refl, refl, omega arith)
poll_inner-Delivers (frame (trailers t) ∷ rest) = (refl, refl, refl, omega arith)
poll_inner-Delivers (frame (data_frame bytes) ∷ rest) =
    elim (Bool-cases (ltb max_chunk (length bytes))) [
      | inl e ↦
          let (a, b, c, d) = hand_on-Delivers (held_of rest bytes) (ground (arith, e)) in
          simp e (a, b, c, omega (arith, d))
      | inr e ↦ simp (e, append_nil bytes) (refl, refl, ground (arith, e), omega arith)
    ]

poll-Delivers :
    (inner : Body) (pending : List ℕ)
    → Delivers (held_of inner pending) (poll_frame (held_of inner pending))
unfolding poll_frame
poll-Delivers inner [] = poll_inner-Delivers inner
poll-Delivers inner (b ∷ bytes) = hand_on-Delivers (held_of inner (b ∷ bytes)) (omega arith)

poll_frame-Delivers : (held : Held) → Delivers held (poll_frame held)
poll_frame-Delivers held = poll-Delivers held.inner held.pending

received-cons : (p : Poll) (ps : List Poll) → received (p ∷ ps) ≡ received (p ∷ []) ++ received ps
unfolding received
received-cons waiting ps = refl
received-cons finished ps = refl
received-cons (failed e) ps = refl
received-cons (frame (trailers t)) ps = refl
received-cons (frame (data_frame bytes)) ps = rw (append_nil bytes) refl

passed-cons :
    (p : Poll) (ps qs : List Poll) → passed (p ∷ ps) ++ qs ≡ passed (p ∷ []) ++ (passed ps ++ qs)
unfolding passed
passed-cons waiting ps qs = refl
passed-cons finished ps qs = refl
passed-cons (failed e) ps qs = refl
passed-cons (frame (trailers t)) ps qs = refl
passed-cons (frame (data_frame bytes)) ps qs = refl

-- Some polls, by what they give and leave.
abbrev Delivered : ℕ → Held → Held × List Poll → Type 0
Delivered n held (after, ps) =
    (received ps ++ (after.pending ++ received after.inner) ≡ held.pending ++ received held.inner)
    × (passed ps ++ passed after.inner ≡ passed held.inner)
    × (all is_bounded ps ≡ true)
    × (length after.pending + weight after.inner ≤ (length held.pending + weight held.inner) - n)

polls-Delivered : (n : ℕ) (held : Held) → Delivered n held (polls n held)
unfolding polls received passed
polls-Delivered zero held = (refl, refl, refl, omega arith)
polls-Delivered (suc n) held =
    let (a, b, c, d) = poll_frame-Delivers held in
    let (e, f, g, h) = polls-Delivered n (poll_frame held).0 in
    let p = (poll_frame held).1 in
    let ps = (polls n (poll_frame held).0).1 in
    let after = (polls n (poll_frame held).0).0 in
    (
      rw
          (
            received-cons p ps,
            append_assoc (received (p ∷ [])) (received ps) (after.pending ++ received after.inner),
          )
          (ap (λ t. received (p ∷ []) ++ t) e ∙ a),
      passed-cons p ps (passed after.inner) ∙ ap (λ t. passed (p ∷ []) ++ t) f ∙ b,
      simp (c, g) refl,
      omega (arith, d, h),
    )

weight-zero : (ps : List Poll) → weight ps ≤ 0 → ps ≡ []
unfolding weight
weight-zero [] l = refl
weight-zero (waiting ∷ ps) l = absurd (omega (arith, l))
weight-zero (finished ∷ ps) l = absurd (omega (arith, l))
weight-zero (failed e ∷ ps) l = absurd (omega (arith, l))
weight-zero (frame (trailers t) ∷ ps) l = absurd (omega (arith, l))
weight-zero (frame (data_frame bytes) ∷ ps) l = absurd (omega (arith, l))

length-zero : (bytes : List ℕ) → length bytes ≤ 0 → bytes ≡ []
length-zero [] l = refl
length-zero (b ∷ bytes) l = absurd (omega (arith, l))

-- After enough polls the held body has handed on all bytes of the table in order, and all other
-- frames and errors in order, in data frames of at most 64 KiB.
pub polls-deliver :
    (n : ℕ) (inner : Body)
    → weight inner ≤ n
    → (received (polls n (held_of inner [])).1 ≡ received inner)
      × (passed (polls n (held_of inner [])).1 ≡ passed inner)
      × (all is_bounded (polls n (held_of inner [])).1 ≡ true)
unfolding received passed
polls-deliver n inner l =
    let (after, ps) = polls n (held_of inner []) in
    let (a, b, c, d) = polls-Delivered n (held_of inner []) in
    let none_pending = length-zero after.pending (omega (arith, d, l)) in
    let none_left = weight-zero after.inner (omega (arith, d, l)) in
    let bytes : after.pending ++ received after.inner ≡ [] = rw (none_pending, none_left) refl in
    let others : passed after.inner ≡ [] = rw none_left refl in
    (
      sym (append_nil (received ps)) ∙ ap (λ t. received ps ++ t) (sym bytes) ∙ a,
      sym (append_nil (passed ps)) ∙ ap (λ t. passed ps ++ t) (sym others) ∙ b,
      c,
    )
