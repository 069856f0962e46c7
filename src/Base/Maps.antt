-- ===== src/Base/Maps.antt =====
-- `BTreeMap<String, V>`: a list of entries in the order of their keys.
use Prim.Native.Nat.{ℕ, suc, ◌≤◌}
use Prim.Native.String.{String}
use mathlib.Core.Path.{◌≡◌, refl}
use mathlib.Core.Logic.{inl, inr}
use mathlib.Core.Bool.{Bool, true, false, ◌&&◌, ◌||◌}
use mathlib.Core.List.{List, [], ◌∷◌}
use mathlib.Core.Option.{Option, none, some, some-injective}
use native.Mathlib.Omega.{arith}
use text.Mathlib.Text.{◌==◌ as str_eq}
use text.Mathlib.TextEquality.{eq_iff as str_eq_iff}
use sirius_api_proxy.Base.Tests.{ltb, ◌==◌, if◌then◌else◌, Bool-cases}
use sirius_api_proxy.Base.Options.{is_some}
use sirius_api_proxy.Base.Lists.{length, all}
use sirius_api_proxy.Base.Texts.{codes}

abbrev pub BTreeMap {ℓ} : Type ℓ → Type ℓ
BTreeMap V = List (String × V)

abbrev pub codes_ltb : List ℕ → List ℕ → Bool
codes_ltb xs [] = false
codes_ltb [] (y ∷ ys) = true
codes_ltb (x ∷ xs) (y ∷ ys) = ltb x y || x == y && codes_ltb xs ys

-- `a < b` on strings: UTF-8 keeps the order of the code points.
unfoldable pub str_ltb : String → String → Bool
str_ltb a b = codes_ltb (codes a) (codes b)

pub str_eq_refl : (s : String) → str_eq s s ≡ true
str_eq_refl s = (str_eq_iff s s).1 refl

pub str_eq_sym : (s t : String) → str_eq s t ≡ str_eq t s
str_eq_sym s t = elim (Bool-cases (str_eq s t)) [
  | inl e ↦ rw ((str_eq_iff s t).0 e) refl
  | inr e ↦ elim (Bool-cases (str_eq t s)) [
    | inl h ↦ rw ((str_eq_iff t s).0 h) refl
    | inr h ↦ rw (e, h) refl
  ]
]

module _ {ℓ} {V : Type ℓ} where
  unfoldable pub get : String → BTreeMap V → Option V
  get k [] = none
  get k ((j, v) ∷ m) = let rest = get k m in if str_eq k j then some v else rest

  unfoldable pub contains_key : String → BTreeMap V → Bool
  contains_key k m = is_some (get k m)

  unfoldable pub insert : String → V → BTreeMap V → BTreeMap V
  insert k v [] = (k, v) ∷ []
  insert k v ((j, w) ∷ m) =
      let rest = insert k v m in
      if str_eq k j then (k, v) ∷ m else if str_ltb k j then (k, v) ∷ (j, w) ∷ m else (j, w) ∷ rest

  unfoldable pub remove : String → BTreeMap V → BTreeMap V
  remove k [] = []
  remove k ((j, w) ∷ m) = let rest = remove k m in if str_eq k j then rest else (j, w) ∷ rest

  -- A write through `get_mut`.
  unfoldable pub replace : String → V → BTreeMap V → BTreeMap V
  replace k v [] = []
  replace k v ((j, w) ∷ m) =
      let rest = replace k v m in if str_eq k j then (j, v) ∷ rest else (j, w) ∷ rest

module _ {ℓ} {V : Type ℓ} where
  pub get-insert :
      (j k : String) (v : V) (m : BTreeMap V)
      → get j (insert k v m) ≡ (if str_eq j k then some v else get j m)
  unfolding get insert
  get-insert j k v [] = refl
  get-insert j k v ((i, w) ∷ m) =
      ground (arith, get-insert j k v m, str_eq_iff k i, str_eq_iff j k, str_eq_iff j i)

  pub get-remove :
      (j k : String) (m : BTreeMap V) → get j (remove k m) ≡ (if str_eq j k then none else get j m)
  unfolding get remove
  get-remove j k [] = ground arith
  get-remove j k ((i, w) ∷ m) =
      ground (arith, get-remove j k m, str_eq_iff k i, str_eq_iff j k, str_eq_iff j i)

  pub get-replace :
      (j k : String) (v : V) (m : BTreeMap V)
      → get j (replace k v m)
        ≡ (if str_eq j k then (if contains_key k m then some v else none) else get j m)
  unfolding get replace contains_key
  get-replace j k v [] = ground arith
  get-replace j k v ((i, w) ∷ m) =
      ground (arith, get-replace j k v m, str_eq_iff k i, str_eq_iff j k, str_eq_iff j i)

  pub length-insert :
      (k : String) (v : V) (m : BTreeMap V)
      → contains_key k m ≡ false
      → length (insert k v m) ≡ suc (length m)
  unfolding contains_key get insert
  length-insert k v [] h = refl
  length-insert k v ((i, w) ∷ m) h = elim (Bool-cases (str_eq k i)) [
    | inl e ↦ absurd (ground (arith, h, e))
    | inr e ↦ ground (arith, e, length-insert k v m (ground (arith, h, e)))
  ]

  pub length-remove-le : (k : String) (m : BTreeMap V) → length (remove k m) ≤ length m
  unfolding remove
  length-remove-le k [] = omega arith
  length-remove-le k ((i, w) ∷ m) = ground (arith, length-remove-le k m)

  pub length-replace : (k : String) (v : V) (m : BTreeMap V) → length (replace k v m) ≡ length m
  unfolding replace
  length-replace k v [] = refl
  length-replace k v ((i, w) ∷ m) = ground (arith, length-replace k v m)

-- A test that every entry passes.
module _ {ℓ} {V : Type ℓ} (p : String × V → Bool) where
  pub all-insert :
      (k : String) (v : V) (m : BTreeMap V)
      → all p m ≡ true
      → p (k, v) ≡ true
      → all p (insert k v m) ≡ true
  unfolding insert
  all-insert k v [] h q = ground (arith, q)
  all-insert k v ((i, w) ∷ m) h q = elim (Bool-cases (p (i, w))) [
    | inl e ↦ ground (arith, h, q, e, all-insert k v m (ground (arith, h, e)) q)
    | inr e ↦ absurd (ground (arith, h, e))
  ]

  pub all-remove : (k : String) (m : BTreeMap V) → all p m ≡ true → all p (remove k m) ≡ true
  unfolding remove
  all-remove k [] h = refl
  all-remove k ((i, w) ∷ m) h = elim (Bool-cases (p (i, w))) [
    | inl e ↦ ground (arith, h, e, all-remove k m (ground (arith, h, e)))
    | inr e ↦ absurd (ground (arith, h, e))
  ]

  pub all-replace :
      (k : String) (v : V) (m : BTreeMap V)
      → all p m ≡ true
      → ((i : String) → str_eq k i ≡ true → p (i, v) ≡ true)
      → all p (replace k v m) ≡ true
  unfolding replace
  all-replace k v [] h q = refl
  all-replace k v ((i, w) ∷ m) h q = elim (Bool-cases (p (i, w))) [
    | inl e ↦ elim (Bool-cases (str_eq k i)) [
      | inl same ↦ ground (arith, q i same, same, all-replace k v m (ground (arith, h, e)) q)
      | inr other ↦ ground (arith, e, other, all-replace k v m (ground (arith, h, e)) q)
    ]
    | inr e ↦ absurd (ground (arith, h, e))
  ]

  pub all-get :
      (k : String) (v : V) (m : BTreeMap V) → all p m ≡ true → get k m ≡ some v → p (k, v) ≡ true
  unfolding get
  all-get k v [] h g = absurd (ground (arith, g))
  all-get k v ((i, w) ∷ m) h g = elim (Bool-cases (p (i, w))) [
    | inl e ↦ elim (Bool-cases (str_eq k i)) [
      | inl same ↦
          let at : some w ≡ some v = simp same at g in
          rw ((str_eq_iff k i).0 same) (rw (← some-injective w v at) e)
      | inr other ↦ all-get k v m (ground (arith, h, e)) (ground (arith, g, other))
    ]
    | inr e ↦ absurd (ground (arith, h, e))
  ]
