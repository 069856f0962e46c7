-- ===== src/AssetOutbox/Sorted.antt =====
-- Filters of the ledger's entries in the order of their keys (src/asset_outbox.rs, `next_batch`).
use sirius_api_proxy.Base.{
  ℕ, String, ◌≡◌, refl, ap, Bool, true, false, none, some, List, [], ◌∷◌, ◌++◌, arith, inl, inr,
  Bool-cases, BTreeMap, all, codes, codes_ltb, str_ltb,
}
use sirius_api_proxy.AssetOutbox.Entries.{Entry}
use sirius_api_proxy.AssetOutbox.Rotation.{filter_entries, is_after, is_before}

codes_ltb_irrefl : (xs : List ℕ) → codes_ltb xs xs ≡ false
codes_ltb_irrefl [] = refl
codes_ltb_irrefl (x ∷ xs) = ground (arith, codes_ltb_irrefl xs)

codes_ltb-asym : (xs ys : List ℕ) → codes_ltb xs ys ≡ true → codes_ltb ys xs ≡ false
codes_ltb-asym [] [] h = refl
codes_ltb-asym [] (y ∷ ys) h = refl
codes_ltb-asym (x ∷ xs) [] h = absurd (ground (arith, h))
codes_ltb-asym (x ∷ xs) (y ∷ ys) h = elim (Bool-cases (codes_ltb xs ys)) [
  | inl e ↦ ground (arith, h, e, codes_ltb-asym xs ys e)
  | inr e ↦ ground (arith, h, e)
]

codes_ltb_trans :
    (xs ys zs : List ℕ) → codes_ltb xs ys ≡ true → codes_ltb ys zs ≡ true → codes_ltb xs zs ≡ true
codes_ltb_trans xs [] zs h k = absurd (ground (arith, h))
codes_ltb_trans xs (y ∷ ys) [] h k = absurd (ground (arith, k))
codes_ltb_trans [] (y ∷ ys) (z ∷ zs) h k = refl
codes_ltb_trans (x ∷ xs) (y ∷ ys) (z ∷ zs) h k = elim (Bool-cases (codes_ltb xs ys)) [
  | inr e ↦ ground (arith, h, k, e)
  | inl e ↦ elim (Bool-cases (codes_ltb ys zs)) [
    | inr f ↦ ground (arith, h, k, e, f)
    | inl f ↦ ground (arith, h, k, e, f, codes_ltb_trans xs ys zs e f)
  ]
]

-- The keys of the entries are after `k`, or before it.
abbrev pub above : String → BTreeMap Entry → Bool
above k m = all (λ x. str_ltb k x.0) m

abbrev pub below : String → BTreeMap Entry → Bool
below k m = all (λ x. str_ltb x.0 k) m

-- The order of a `BTreeMap`.
abbrev pub IsSorted : BTreeMap Entry → Type 0
IsSorted [] = Unit
IsSorted ((k, e) ∷ m) = (above k m ≡ true) × IsSorted m

pub all-parts :
    (p : String × Entry → Bool) (x : String × Entry) (m : BTreeMap Entry)
    → all p (x ∷ m) ≡ true
    → (p x ≡ true) × (all p m ≡ true)
all-parts p x m h = elim (Bool-cases (p x)) [
  | inl e ↦ (e, simp e at h)
  | inr e ↦ absurd (ground (arith, h, e))
]

pub all-join :
    (p : String × Entry → Bool) (x : String × Entry) (m : BTreeMap Entry)
    → p x ≡ true
    → all p m ≡ true
    → all p (x ∷ m) ≡ true
all-join p x m e h = simp (e, h) refl

pub above_trans :
    (j k : String) (m : BTreeMap Entry) → str_ltb j k ≡ true → above k m ≡ true → above j m ≡ true
unfolding str_ltb
above_trans j k [] h a = refl
above_trans j k (x ∷ m) h a =
    let (here, rest) = all-parts (λ x. str_ltb k x.0) x m a in
    all-join (λ x. str_ltb j x.0) x m (codes_ltb_trans (codes j) (codes k) (codes x.0) h here)
      (above_trans j k m h rest)

pub filter-above :
    (k : String) (m : BTreeMap Entry)
    → above k m ≡ true
    → (filter_entries (is_after (some k)) m ≡ m) × (filter_entries (is_before (some k)) m ≡ [])
unfolding filter_entries
filter-above k [] a = (refl, refl)
filter-above k (x ∷ m) a =
    let (here, rest) = all-parts (λ x. str_ltb k x.0) x m a in
    let (after, before) = filter-above k m rest in
    (simp here (ap (λ r. x ∷ r) after), simp here before)

pub filter-below :
    (k : String) (m : BTreeMap Entry)
    → below k m ≡ true
    → (filter_entries (is_after (some k)) m ≡ []) × (filter_entries (is_before (some k)) m ≡ m)
unfolding filter_entries str_ltb
filter-below k [] a = (refl, refl)
filter-below k (x ∷ m) a =
    let (here, rest) = all-parts (λ x. str_ltb x.0 k) x m a in
    let other = codes_ltb-asym (codes x.0) (codes k) here in
    let (after, before) = filter-below k m rest in
    (simp other after, simp other (ap (λ r. x ∷ r) before))

pub str_ltb_irrefl : (k : String) → str_ltb k k ≡ false
unfolding str_ltb
str_ltb_irrefl k = codes_ltb_irrefl (codes k)

-- The cursor's own entry is before the cursor.
pub filter-cursor :
    (k : String) (e : Entry) (m : BTreeMap Entry)
    → above k m ≡ true
    → (filter_entries (is_after (some k)) ((k, e) ∷ m) ≡ m)
      × (filter_entries (is_before (some k)) ((k, e) ∷ m) ≡ (k, e) ∷ [])
unfolding filter_entries
filter-cursor k e m a =
    let (after, before) = filter-above k m a in
    (simp (str_ltb_irrefl k) after, simp (str_ltb_irrefl k) (ap (λ r. (k, e) ∷ r) before))

-- Without a cursor every entry is after it.
pub filter-none :
    (m : BTreeMap Entry)
    → (filter_entries (is_after none) m ≡ m) × (filter_entries (is_before none) m ≡ [])
unfolding filter_entries
filter-none [] = (refl, refl)
filter-none (x ∷ m) = (ap (λ r. x ∷ r) (filter-none m).0, (filter-none m).1)

pub filter-append :
    (p : String × Entry → Bool) (a b : BTreeMap Entry)
    → filter_entries p (a ++ b) ≡ filter_entries p a ++ filter_entries p b
unfolding filter_entries
filter-append p [] b = refl
filter-append p (x ∷ a) b = elim (Bool-cases (p x)) [
  | inl e ↦ simp e (ap (λ r. x ∷ r) (filter-append p a b))
  | inr e ↦ simp e (filter-append p a b)
]

pub filter_comm :
    (p q : String × Entry → Bool) (m : BTreeMap Entry)
    → filter_entries p (filter_entries q m) ≡ filter_entries q (filter_entries p m)
unfolding filter_entries
filter_comm p q [] = refl
filter_comm p q (x ∷ m) = elim (Bool-cases (p x)) [
  | inl e ↦ elim (Bool-cases (q x)) [
    | inl f ↦ simp (e, f) (ap (λ r. x ∷ r) (filter_comm p q m))
    | inr f ↦ simp (e, f) (filter_comm p q m)
  ]
  | inr e ↦ elim (Bool-cases (q x)) [
    | inl f ↦ simp (e, f) (filter_comm p q m)
    | inr f ↦ simp (e, f) (filter_comm p q m)
  ]
]
