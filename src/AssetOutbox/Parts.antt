-- ===== src/AssetOutbox/Parts.antt =====
-- Lists of entries: their ends and their parts.
use sirius_api_proxy.Base.{
  ℕ, zero, suc, String, ◌≡◌, ◌⊎◌, refl, sym, ap, none, some, [], ◌∷◌, ◌++◌, arith, inl, inr,
  BTreeMap, last, take,
}
use mathlib.Core.Option.{some-injective}
use sirius_api_proxy.AssetOutbox.Entries.{Entry}

abbrev pub drop : ℕ → BTreeMap Entry → BTreeMap Entry
drop zero m = m
drop (suc n) [] = []
drop (suc n) (x ∷ m) = drop n m

pub append_assoc : (a b c : BTreeMap Entry) → (a ++ b) ++ c ≡ a ++ (b ++ c)
append_assoc [] b c = refl
append_assoc (x ∷ a) b c = ap (λ r. x ∷ r) (append_assoc a b c)

pub append_nil : (a : BTreeMap Entry) → a ++ [] ≡ a
append_nil [] = refl
append_nil (x ∷ a) = ap (λ r. x ∷ r) (append_nil a)

pub take-drop : (n : ℕ) (m : BTreeMap Entry) → take n m ++ drop n m ≡ m
take-drop zero m = refl
take-drop (suc n) [] = refl
take-drop (suc n) (x ∷ m) = ap (λ r. x ∷ r) (take-drop n m)

-- A list with a last entry ends with it.
pub last-split :
    (m : BTreeMap Entry) (x : String × Entry)
    → last m ≡ some x
    → (front : BTreeMap Entry) × (m ≡ front ++ x ∷ [])
last-split [] x h = absurd (ground (arith, h))
last-split (y ∷ []) x h = ([], ap (λ z. z ∷ []) (some-injective y x h))
last-split (y ∷ z ∷ m) x h =
    let (front, e) = last-split (z ∷ m) x h in (y ∷ front, ap (λ r. y ∷ r) e)

abbrev tail : BTreeMap Entry → BTreeMap Entry
tail [] = []
tail (x ∷ m) = m

abbrev head_or : String × Entry → BTreeMap Entry → String × Entry
head_or d [] = d
head_or d (x ∷ m) = x

-- An entry of two lists in a row stands in the first or in the second.
pub append-split :
    (a b front rest : BTreeMap Entry) (x : String × Entry)
    → a ++ b ≡ front ++ x ∷ rest
    → ((a' : BTreeMap Entry) × (a ≡ front ++ x ∷ a') × (rest ≡ a' ++ b))
      ⊎ ((b' : BTreeMap Entry) × (front ≡ a ++ b') × (b ≡ b' ++ x ∷ rest))
append-split [] b front rest x h = inr (front, refl, h)
append-split (y ∷ a) b [] rest x h = inl (a, ap (λ z. z ∷ a) (ap (head_or y) h), sym (ap tail h))
append-split (y ∷ a) b (z ∷ front) rest x h =
    let same : y ≡ z = ap (head_or y) h in
    elim (append-split a b front rest x (ap tail h)) [
      | inl (a', e, f) ↦ inl (a', rw (same, e) refl, f)
      | inr (b', e, f) ↦ inr (b', rw (same, e) refl, f)
    ]

pub last-none : (m : BTreeMap Entry) → last m ≡ none → m ≡ []
last-none [] h = refl
last-none (x ∷ []) h = absurd (ground (arith, h))
last-none (x ∷ y ∷ m) h = absurd (ground (arith, last-none (y ∷ m) h))
