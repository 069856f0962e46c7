-- ===== src/AssetOutbox/Members.antt =====
-- The entries of a batch are entries of the ledger (src/asset_outbox.rs, `next_batch`).
use sirius_api_proxy.Base.{
  ℕ, zero, suc, String, ◌≡◌, refl, Bool, true, false, Option, some, [], ◌∷◌, ◌++◌, arith, inl, inr,
  Bool-cases, str_eq, str_eq_iff, str_eq_refl, ok, BTreeMap, get, take, str_ltb,
}
use mathlib.Core.Path.{subst}
use sirius_api_proxy.AssetOutbox.Entries.{Entry}
use sirius_api_proxy.AssetOutbox.Store.{World}
use sirius_api_proxy.AssetOutbox.Rotation.{next_batch, filter_entries, is_open, rotated}
use sirius_api_proxy.AssetOutbox.Sorted.{above, IsSorted, all-parts, str_ltb_irrefl}
use sirius_api_proxy.AssetOutbox.Batch.{next_batch-taken}

-- Every entry of a list satisfies the predicate.
abbrev pub All : (String → Entry → Type 0) → BTreeMap Entry → Type 0
All P [] = Unit
All P ((k, e) ∷ m) = P k e × All P m

pub All-map :
    (P Q : String → Entry → Type 0) (m : BTreeMap Entry)
    → ((k : String) (e : Entry) → P k e → Q k e)
    → All P m
    → All Q m
All-map P Q [] f a = tt
All-map P Q ((k, e) ∷ m) f (h, a) = (f k e h, All-map P Q m f a)

module _ (P : String → Entry → Type 0) where
  All-filter :
      (q : String × Entry → Bool) (m : BTreeMap Entry) → All P m → All P (filter_entries q m)
  unfolding filter_entries
  All-filter q [] a = tt
  All-filter q ((k, e) ∷ m) (h, a) = elim (Bool-cases (q (k, e))) [
    | inl t ↦ simp t (h, All-filter q m a)
    | inr t ↦ simp t (All-filter q m a)
  ]

  All-append : (m n : BTreeMap Entry) → All P m → All P n → All P (m ++ n)
  All-append [] n a b = b
  All-append ((k, e) ∷ m) n (h, a) b = (h, All-append m n a b)

  All-take : (i : ℕ) (m : BTreeMap Entry) → All P m → All P (take i m)
  All-take zero m a = tt
  All-take (suc i) [] a = tt
  All-take (suc i) ((k, e) ∷ m) (h, a) = (h, All-take i m a)

  All-rotated : (c : Option String) (m : BTreeMap Entry) → All P m → All P (rotated c m)
  unfolding rotated
  All-rotated c m a = All-filter is_open _ (All-append _ _ (All-filter _ m a) (All-filter _ m a))

abbrev In : BTreeMap Entry → String → Entry → Type 0
In m k e = get k m ≡ some e

other-key : (k j : String) → str_ltb k j ≡ true → str_eq j k ≡ false
other-key k j h = elim (Bool-cases (str_eq j k)) [
  | inr n ↦ n
  | inl e ↦
      absurd
        (ground (arith, str_ltb_irrefl k, subst (λ x. str_ltb k x ≡ true) ((str_eq_iff j k).0 e) h))
]

All-later :
    (k : String) (e : Entry) (m n : BTreeMap Entry)
    → above k n ≡ true
    → All (In m) n
    → All (In ((k, e) ∷ m)) n
unfolding get
All-later k e m [] h a = tt
All-later k e m ((j, d) ∷ n) h (g, a) =
    let (first, rest) = all-parts (λ x. str_ltb k x.0) (j, d) n h in
    (rw (other-key k j first) g, All-later k e m n rest a)

-- A sorted list holds each entry under its key.
sorted-In : (m : BTreeMap Entry) → IsSorted m → All (In m) m
unfolding get
sorted-In [] s = tt
sorted-In ((k, e) ∷ m) (h, s) = (rw (str_eq_refl k) refl, All-later k e m m h (sorted-In m s))

pub next_batch-members :
    (written : Bool) (limit : ℕ) (w w' : World) (b : BTreeMap Entry)
    → IsSorted w.outbox.ledger.entries
    → next_batch written limit w ≡ (w', ok b)
    → All (λ k e. get k w.outbox.ledger.entries ≡ some e) b
next_batch-members written limit w w' b s h =
    let m = w.outbox.ledger.entries in
    let c = w.outbox.ledger.reconciliation_cursor in
    rw (next_batch-taken written limit w w' b h)
      (All-take (In m) limit (rotated c m) (All-rotated (In m) c m (sorted-In m s)))
