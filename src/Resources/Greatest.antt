-- ===== src/Resources/Greatest.antt =====
-- Which release of a version header is selected (src/resources.rs, `select_platform`).
use Prim.Native.Nat.{Ordering}
use sirius_api_proxy.Base.{
  ◌≡◌, ◌⊎◌, inl, inr, refl, sym, ap, ◌∙◌, String, Bool, true, false, not, ◌||◌, Option, none, some,
  List, [], ◌∷◌, all, is_none_or, ok, arith, Bool-cases, Option-cases, to_option,
}
use mathlib.Core.Option.{some-injective}
use sirius_api_proxy.Resources.Selection.{
  Release, live, Readers, Candidates, insert_candidate, add_release, candidates, at_most, newest,
  choose_live, choose, with_minimum,
}

Ordering-cases : (o : Ordering) → (o ≡ Ordering.lt) ⊎ ((o ≡ Ordering.eq) ⊎ (o ≡ Ordering.gt))
Ordering-cases Ordering.lt = inl refl
Ordering-cases Ordering.eq = inr (inl refl)
Ordering-cases Ordering.gt = inr (inr refl)

-- Every candidate passes.
abbrev Each : (String → Release → Type 0) → Candidates → Type 0
Each P [] = Unit
Each P ((m, r) ∷ cs) = P m r × Each P cs

-- Every release passes with its minimum.
abbrev Every : (String → Release → Type 0) → List Release → Type 0
Every P [] = Unit
Every P (r ∷ releases) = ((m : String) → r.minimum ≡ some m → P m r) × Every P releases

-- Among the releases.
abbrev pub In : Release → List Release → Type 0
In r [] = ⊥
In r (q ∷ releases) = (r ≡ q) ⊎ In r releases

abbrev Listed : List Release → String → Release → Type 0
Listed total m r = (r.minimum ≡ some m) × In r total

-- Every release is among the releases.
Every-In :
    (total releases : List Release)
    → ((q : Release) → In q releases → In q total)
    → Every (Listed total) releases
Every-In total [] f = tt
Every-In total (r ∷ releases) f =
    ((λ m o. (o, f r (inl refl))), Every-In total releases (λ q i. f q (inr i)))

module _ (P Q : String → Release → Type 0) (f : (m : String) (r : Release) → P m r → Q m r) where
  Each-map : (cs : Candidates) → Each P cs → Each Q cs
  Each-map [] h = tt
  Each-map ((m, r) ∷ cs) (p, h) = (f m r p, Each-map cs h)

module _ (P Q : String → Release → Type 0) where
  Each-zip : (cs : Candidates) → Each P cs → Each Q cs → Each (λ m r. P m r × Q m r) cs
  Each-zip [] h g = tt
  Each-zip ((m, r) ∷ cs) (p, h) (q, g) = ((p, q), Each-zip cs h g)

module _ (readers : Readers) where
  abbrev pub le : String → String → Bool
  le a b = at_most (readers.compare_versions a b)

  abbrev Below : String → Candidates → Type 0
  Below a cs = Each (λ m r. le a m ≡ true) cs

  abbrev Sorted : Candidates → Type 0
  Sorted [] = Unit
  Sorted ((m, r) ∷ cs) = Below m cs × Sorted cs

  -- How a candidate is inserted.
  data Inserted : String → Release → Candidates → Candidates → Type 0 where
    alone : (m : String) (r : Release) → Inserted m r [] ((m, r) ∷ [])
    before :
        (m : String) (r : Release) (j : String) (q : Release) (cs : Candidates)
        → readers.compare_versions m j ≡ Ordering.lt
        → Inserted m r ((j, q) ∷ cs) ((m, r) ∷ (j, q) ∷ cs)
    after :
        (m : String) (r : Release) (j : String) (q : Release) (cs t : Candidates)
        → readers.compare_versions m j ≡ Ordering.gt
        → Inserted m r cs t
        → Inserted m r ((j, q) ∷ cs) ((j, q) ∷ t)

  insert-Inserted :
      (m : String) (r : Release) (cs t : Candidates)
      → insert_candidate readers m r cs ≡ some t
      → Inserted m r cs t
  unfolding insert_candidate
  insert-Inserted m r [] t h = rw (← some-injective _ t h) (alone m r)
  insert-Inserted m r ((j, q) ∷ cs) t h = elim (Ordering-cases (readers.compare_versions m j)) [
    | inl l ↦ rw (← some-injective _ t (simp l at h)) (before m r j q cs l)
    | inr (inl e) ↦ absurd (ground (arith, e, h))
    | inr (inr g) ↦ elim (Option-cases (insert_candidate readers m r cs)) [
      | inl n ↦ absurd (ground (arith, g, n, h))
      | inr (u, o) ↦
          rw (← some-injective _ t (simp (g, o) at h))
            (after m r j q cs u g (insert-Inserted m r cs u o))
    ]
  ]

  module _ (P : String → Release → Type 0) where
    Inserted-Each :
        (m : String) (r : Release) (cs t : Candidates)
        → Inserted m r cs t
        → Each P cs
        → P m r
        → Each P t
    Inserted-Each _ _ _ _ (alone m r) h p = (p, tt)
    Inserted-Each _ _ _ _ (before m r j q cs l) h p = (p, h)
    Inserted-Each _ _ _ _ (after m r j q cs t g i) (b, h) p = (b, Inserted-Each m r cs t i h p)

    Inserted-whole :
        (m : String) (r : Release) (cs t : Candidates)
        → Inserted m r cs t
        → Each P t
        → P m r × Each P cs
    Inserted-whole _ _ _ _ (alone m r) (p, h) = (p, tt)
    Inserted-whole _ _ _ _ (before m r j q cs l) (p, h) = (p, h)
    Inserted-whole _ _ _ _ (after m r j q cs t g i) (b, h) =
        let (p, k) = Inserted-whole m r cs t i h in (p, (b, k))

  with_minimum-cases :
      (o : Option String) (r : Release) (cs t : Candidates)
      → with_minimum readers o r cs ≡ some t
      → (m : String) × (o ≡ some m) × Inserted m r cs t
  with_minimum-cases none r cs t h = absurd (ground (arith, h))
  with_minimum-cases (some m) r cs t h = elim (Bool-cases (readers.is_version m)) [
    | inl y ↦ (m, refl, insert-Inserted m r cs t (simp y at h))
    | inr n ↦ absurd (ground (arith, n, h))
  ]

  candidates-none : (releases : List Release) → candidates readers none releases ≡ none
  unfolding candidates add_release
  candidates-none [] = refl
  candidates-none (r ∷ releases) = candidates-none releases

  module _ (P : String → Release → Type 0) where
    candidates-Each :
        (cs t : Candidates) (releases : List Release)
        → candidates readers (some cs) releases ≡ some t
        → Each P cs
        → Every P releases
        → Each P t
    unfolding candidates add_release
    candidates-Each cs t [] h e v = rw (← some-injective cs t h) e
    candidates-Each cs t (r ∷ releases) h e (p, v) =
        elim (Option-cases (with_minimum readers r.minimum r cs)) [
          | inl n ↦ absurd (ground (arith, sym (simp n at h) ∙ candidates-none releases))
          | inr (u, o) ↦
              let (m, minimum, i) = with_minimum-cases r.minimum r cs u o in
              candidates-Each u t releases (simp o at h)
                (Inserted-Each P m r cs u i e (p m minimum)) v
        ]

    candidates-whole :
        (cs t : Candidates) (releases : List Release)
        → candidates readers (some cs) releases ≡ some t
        → Each P t
        → Each P cs × Every P releases
    unfolding candidates add_release
    candidates-whole cs t [] h e = (rw (some-injective cs t h) e, tt)
    candidates-whole cs t (r ∷ releases) h e =
        elim (Option-cases (with_minimum readers r.minimum r cs)) [
          | inl n ↦ absurd (ground (arith, sym (simp n at h) ∙ candidates-none releases))
          | inr (u, o) ↦
              let (m, minimum, i) = with_minimum-cases r.minimum r cs u o in
              let (k, v) = candidates-whole u t releases (simp o at h) e in
              let (p, k) = Inserted-whole P m r cs u i k in
              (
                k,
                (
                  (λ n other.
                      let same : n ≡ m = some-injective n m (sym other ∙ minimum) in rw same p),
                  v,
                ),
              )
        ]

  newest-none :
      (client : String) (cs : Candidates)
      → newest readers client cs ≡ none
      → Each (λ n q. le n client ≡ false) cs
  unfolding newest
  newest-none client [] h = tt
  newest-none client ((m, r) ∷ cs) h = elim (Option-cases (newest readers client cs)) [
    | inr (x, o) ↦ absurd (ground (arith, o, h))
    | inl n ↦ elim (Bool-cases (le m client)) [
      | inl y ↦ absurd (ground (arith, n, y, h))
      | inr l ↦ (l, newest-none client cs n)
    ]
  ]

  abbrev Bounded : String → String → String → Release → Type 0
  Bounded client m n q = (le n client ≡ false) ⊎ (le n m ≡ true)

  -- At most the bound, if at most the client's version.
  abbrev pub is_bounded : String → String → Release → Bool
  is_bounded client m q = is_none_or q.minimum (λ n. not (le n client) || le n m)

  Every-Bounded :
      (client m : String) (releases : List Release)
      → Every (Bounded client m) releases
      → all (is_bounded client m) releases ≡ true
  Every-Bounded client m [] h = refl
  Every-Bounded client m (q ∷ releases) (b, h) = elim (Option-cases q.minimum) [
    | inl n ↦ simp (n, Every-Bounded client m releases h) refl
    | inr (n, o) ↦ elim (b n o) [
      | inl l ↦ simp (o, l, Every-Bounded client m releases h) refl
      | inr l ↦ ground (arith, o, l, Every-Bounded client m releases h)
    ]
  ]

  -- The order of versions is reflexive, total and transitive.
  module _ (refl_le : (a : String) → le a a ≡ true)
      (flip : (a b : String) → readers.compare_versions a b ≡ Ordering.gt → le b a ≡ true)
      (trans : (a b c : String) → le a b ≡ true → le b c ≡ true → le a c ≡ true) where
    Inserted-Sorted :
        (m : String) (r : Release) (cs t : Candidates) → Inserted m r cs t → Sorted cs → Sorted t
    Inserted-Sorted _ _ _ _ (alone m r) s = (tt, tt)
    Inserted-Sorted _ _ _ _ (before m r j q cs l) (b, s) =
        let first : le m j ≡ true = simp l refl in
        (
          (
            first,
            Each-map (λ n q. le j n ≡ true) (λ n q. le m n ≡ true) (λ n q h. trans m j n first h) cs
                b,
          ),
          (b, s),
        )
    Inserted-Sorted _ _ _ _ (after m r j q cs t g i) (b, s) = (
      Inserted-Each (λ n q. le j n ≡ true) m r cs t i b (flip m j g),
      Inserted-Sorted m r cs t i s,
    )

    candidates-Sorted :
        (cs t : Candidates) (releases : List Release)
        → candidates readers (some cs) releases ≡ some t
        → Sorted cs
        → Sorted t
    unfolding candidates add_release
    candidates-Sorted cs t [] h s = rw (← some-injective cs t h) s
    candidates-Sorted cs t (r ∷ releases) h s =
        elim (Option-cases (with_minimum readers r.minimum r cs)) [
          | inl n ↦ absurd (ground (arith, sym (simp n at h) ∙ candidates-none releases))
          | inr (u, o) ↦
              let (m, minimum, i) = with_minimum-cases r.minimum r cs u o in
              candidates-Sorted u t releases (simp o at h) (Inserted-Sorted m r cs u i s)
        ]

    newest-Bounded :
        (P : String → Release → Type 0) (client : String) (cs : Candidates) (r : Release)
        → Sorted cs
        → Each P cs
        → newest readers client cs ≡ some r
        → (m : String) × P m r × (le m client ≡ true) × Each (Bounded client m) cs
    unfolding newest
    newest-Bounded P client [] r s e h = absurd (ground (arith, h))
    newest-Bounded P client ((j, q) ∷ cs) r (b, s) (p, e) h =
        elim (Option-cases (newest readers client cs)) [
          | inr (x, o) ↦
              let (m, (p, above), l, k) =
                newest-Bounded (λ m r. P m r × (le j m ≡ true)) client cs r s
                  (Each-zip P (λ m r. le j m ≡ true) cs e b) (o ∙ (simp o at h)) in
              (m, p, l, (inr above, k))
          | inl n ↦ elim (Bool-cases (le j client)) [
            | inr l ↦ absurd (ground (arith, n, l, h))
            | inl y ↦
                let same : q ≡ r = some-injective q r (simp (n, y) at h) in
                (
                  j,
                  rw (← same) p,
                  y,
                  (
                    inr (refl_le j),
                    Each-map (λ n q. le n client ≡ false) (Bounded client j) (λ n q f. inl f) cs
                        (newest-none client cs n),
                  ),
                )
          ]
        ]

    -- From a header with live releases, the release is selected whose minimum is the greatest that the
    -- client's version reaches: it is one of the releases, its minimum is at most the client's version,
    -- and so is that of no release with a greater one. The order of versions is assumed to be
    -- reflexive, total and transitive.
    pub choose_greatest :
        (client : String) (releases : List Release) (r : Release)
        → choose readers client (live (some releases)) ≡ ok r
        → (m : String) × (r.minimum ≡ some m)
          × In r releases
          × (le m client ≡ true)
          × (all (is_bounded client m) releases ≡ true)
    unfolding choose choose_live
    choose_greatest client releases r h =
        elim (Option-cases (candidates readers (some []) releases)) [
          | inl n ↦ absurd (ground (arith, n, h))
          | inr (cs, o) ↦ elim (Option-cases (newest readers client cs)) [
            | inl n ↦ absurd (ground (arith, o, n, h))
            | inr (q, found) ↦
                let same : q ≡ r = some-injective q r (ap to_option (simp (o, found) at h)) in
                let listed =
                  candidates-Each (Listed releases) [] cs releases o tt
                    (Every-In releases releases (λ q i. i)) in
                let sorted = candidates-Sorted [] cs releases o tt in
                let (m, (minimum, i), l, k) =
                  newest-Bounded (Listed releases) client cs r sorted listed
                    (found ∙ ap some same) in
                let (e, every) = candidates-whole (Bounded client m) [] cs releases o k in
                (m, minimum, i, l, Every-Bounded client m releases every)
          ]
        ]
