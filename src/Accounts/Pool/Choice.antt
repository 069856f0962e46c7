-- ===== src/Accounts/Pool/Choice.antt =====
-- The account that a public call is given (src/accounts.rs, `Pool::public_index`).
use sirius_api_proxy.Base.{
  ℕ, zero, suc, ◌+◌, ◌-◌, ◌%◌, ◌≤◌, ◌<◌, ◌≡◌, ◌⊎◌, ◌↔◌, inl, inr, refl, Bool, true, false, Option,
  none, some, List, [], ◌∷◌, map, arith, leb, length, Option-cases, Bool-cases,
}
use mathlib.Core.Path.{subst}
use native.Mathlib.Decide.{dec_lt}
use sirius_api_proxy.Accounts.Pool.{
  Account, Pool, usable, active_at, filter_list, range_from, prefer, min_by_key, rotation,
  public_index,
}

-- The index is one of the list's.
abbrev pub In : ℕ → List ℕ → Type 0
In i [] = ⊥
In i (x ∷ xs) = (i ≡ x) ⊎ In i xs

In-map : (f : ℕ → ℕ) (i j : ℕ) (xs : List ℕ) → f i ≡ j → In i xs → In j (map f xs)
In-map f i j [] e h = h
In-map f i j (x ∷ xs) e (inl h) = inl (cc)
In-map f i j (x ∷ xs) e (inr h) = inr (In-map f i j xs e h)

In-range_from : (start n i : ℕ) → start ≤ i → i < start + n → In i (range_from start n)
In-range_from start zero i h k = absurd (omega arith)
In-range_from start (suc n) i h k = elim (dec_lt start i) [
  | yes lt ↦ inr (In-range_from (start + 1) n i (omega arith) (omega arith))
  | no ge ↦ inl (omega arith)
]

In-filter_list :
    (p : ℕ → Bool) (i : ℕ) (xs : List ℕ) → p i ≡ true → In i xs → In i (filter_list p xs)
In-filter_list p i [] e h = h
In-filter_list p i (x ∷ xs) e (inl h) = rw (← h) (rw e (inl refl))
In-filter_list p i (x ∷ xs) e (inr h) = elim (Bool-cases (p x)) [
  | inl t ↦ rw t (inr (In-filter_list p i xs e h))
  | inr f ↦ rw f (In-filter_list p i xs e h)
]

In-filter_list_kept : (p : ℕ → Bool) (i : ℕ) (xs : List ℕ) → In i (filter_list p xs) → p i ≡ true
In-filter_list_kept p i [] h = elim h [ ]
In-filter_list_kept p i (x ∷ xs) h = elim (Bool-cases (p x)) [
  | inl t ↦ elim (kept t h) [ inl e ↦ rw e t | inr k ↦ In-filter_list_kept p i xs k ]
  | inr f ↦ In-filter_list_kept p i xs (rw f at h)
]
  where
    kept : p x ≡ true → In i (filter_list p (x ∷ xs)) → (i ≡ x) ⊎ In i (filter_list p xs)
    kept t h = rw t at h

In-cons : (i x : ℕ) (xs : List ℕ) → In i xs → In i (x ∷ xs)
In-cons i x xs h = inr h

-- The index is one of the list's, and no index of it has a smaller key; none is there for no list.
abbrev IsLeast : (ℕ → ℕ) → List ℕ → Option ℕ → Type 0
IsLeast key xs none = xs ≡ []
IsLeast key xs (some i) = In i xs × ((j : ℕ) → In j xs → key i ≤ key j)

prefer-IsLeast :
    (key : ℕ → ℕ) (x : ℕ) (xs : List ℕ) (o : Option ℕ)
    → IsLeast key xs o
    → IsLeast key (x ∷ xs) (prefer key x o)
prefer-IsLeast key x xs none e = (inl refl, λ j m. below j m)
  where
    below : (j : ℕ) → (j ≡ x) ⊎ In j xs → key x ≤ key j
    below j (inl same) = rw same (omega arith)
    below j (inr m) = absurd (rw e at m)
prefer-IsLeast key x xs (some k) (is, least) = elim (Bool-cases (leb (key x) (key k))) [
  | inl t ↦ rw t (inl refl, λ j m. first t j m)
  | inr f ↦ rw f (inr is, λ j m. later f j m)
]
  where
    first : leb (key x) (key k) ≡ true → (j : ℕ) → (j ≡ x) ⊎ In j xs → key x ≤ key j
    first t j (inl same) = rw same (omega arith)
    first t j (inr m) = let le = least j m in ground (arith, le, t)

    later : leb (key x) (key k) ≡ false → (j : ℕ) → (j ≡ x) ⊎ In j xs → key k ≤ key j
    later f j (inl same) = rw same (ground (arith, f))
    later f j (inr m) = least j m

min_by_key-IsLeast : (key : ℕ → ℕ) (xs : List ℕ) → IsLeast key xs (min_by_key key xs)
unfolding min_by_key
min_by_key-IsLeast key [] = refl
min_by_key-IsLeast key (x ∷ xs) = prefer-IsLeast key x xs _ (min_by_key-IsLeast key xs)

pub usable-lt :
    (now : ℕ) (entries : List Account) (i : ℕ) → usable now entries i ≡ true → i < length entries
usable-lt now [] i h = cc
usable-lt now (a ∷ entries) zero h = omega arith
usable-lt now (a ∷ entries) (suc i) h = omega (arith, usable-lt now entries i h)

-- Every index stands in the rotation.
In-rotation :
    (p : Pool) (i : ℕ) → p.next < length p.entries → i < length p.entries → In i (rotation p)
unfolding rotation
In-rotation p i start h = elim (dec_lt i p.next) [
  | yes before ↦
      In-map _ (i + length p.entries - p.next) i _ (wrapped before)
        (In-range_from 0 (length p.entries) _ (omega arith) (omega arith))
  | no after ↦
      In-map _ (i - p.next) i _ (plain after)
        (In-range_from 0 (length p.entries) _ (omega arith) (omega arith))
]
  where
    plain : ¬ (i < p.next) → (p.next + (i - p.next)) % length p.entries ≡ i
    plain after = grind arith

    wrapped : i < p.next → (p.next + (i + length p.entries - p.next)) % length p.entries ≡ i
    wrapped before = grind arith

module _ (now : ℕ) (p : Pool) where
  abbrev candidates : List ℕ
  candidates = filter_list (usable now p.entries) (rotation p)

  choice : IsLeast (active_at p.entries) candidates (public_index now p)
  unfolding public_index
  choice = min_by_key-IsLeast (active_at p.entries) candidates

  chosen : {i : ℕ} → public_index now p ≡ some i → IsLeast (active_at p.entries) candidates (some i)
  chosen e = subst (IsLeast (active_at p.entries) candidates) e choice

  unchosen : public_index now p ≡ none → IsLeast (active_at p.entries) candidates none
  unchosen e = subst (IsLeast (active_at p.entries) candidates) e choice

  module _ (start : p.next < length p.entries) where
    In-candidates : (j : ℕ) → usable now p.entries j ≡ true → In j candidates
    In-candidates j u =
        In-filter_list (usable now p.entries) j (rotation p) u
          (In-rotation p j start (usable-lt now p.entries j u))

    -- The account that a public call is given is available, and no available account has fewer
    -- active calls.
    pub public_index-least :
        (i : ℕ)
        → public_index now p ≡ some i
        → (usable now p.entries i ≡ true)
          × ((j : ℕ)
              → usable now p.entries j ≡ true
              → active_at p.entries i ≤ active_at p.entries j)
    public_index-least i e =
        let (is, least) = chosen e in
        (
          In-filter_list_kept (usable now p.entries) i (rotation p) is,
          λ j u. least j (In-candidates j u),
        )

    -- A public call finds no account exactly when every account is disabled or cooling down.
    pub public_index-eq-none_iff :
        (public_index now p ≡ none) ↔ ((j : ℕ) → usable now p.entries j ≡ false)
    public_index-eq-none_iff = (
      λ e j. elim (Bool-cases (usable now p.entries j)) [
        | inl u ↦ absurd (rw (unchosen e) at (In-candidates j u))
        | inr u ↦ u
      ],
      λ all. elim (Option-cases (public_index now p)) [
        | inl e ↦ e
        | inr (i, e) ↦ cc ((public_index-least i e).0, all i)
      ],
    )
