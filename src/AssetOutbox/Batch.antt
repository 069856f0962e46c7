-- ===== src/AssetOutbox/Batch.antt =====
-- The batches of work (src/asset_outbox.rs, `next_batch`).
use sirius_api_proxy.Base.{
  ℕ, zero, suc, ◌+◌, min, String, ◌≡◌, refl, ap, ◌∙◌, Bool, true, false, not, Option, none, some,
  [], ◌∷◌, ◌++◌, arith, inl, inr, Bool-cases, str_eq_refl, ok, BTreeMap, get, contains_key, length,
  all, take, last, within,
}
use mathlib.Core.Path.{subst}
use mathlib.Core.Option.{some-injective}
use sirius_api_proxy.AssetOutbox.Entries.{Entry}
use sirius_api_proxy.AssetOutbox.Store.{World, commit}
use sirius_api_proxy.AssetOutbox.Rotation.{
  next_batch, move_cursor, filter_entries, rotated, is_open, is_after, is_before,
}

-- Tests that all entries pass.
module _ (q : String × Entry → Bool) where
  pub all-filter_entries :
      (p : String × Entry → Bool) (m : BTreeMap Entry)
      → all q m ≡ true
      → all q (filter_entries p m) ≡ true
  unfolding filter_entries
  all-filter_entries p [] h = refl
  all-filter_entries p (e ∷ m) h = elim (Bool-cases (q e)) [
    | inl t ↦ ground (arith, t, all-filter_entries p m (ground (arith, h, t)))
    | inr f ↦ absurd (ground (arith, h, f))
  ]

  filter_entries-all : (m : BTreeMap Entry) → all q (filter_entries q m) ≡ true
  unfolding filter_entries
  filter_entries-all [] = refl
  filter_entries-all (e ∷ m) = ground (arith, filter_entries-all m)

  all-append : (m n : BTreeMap Entry) → all q m ≡ true → all q n ≡ true → all q (m ++ n) ≡ true
  all-append [] n h k = k
  all-append (e ∷ m) n h k = elim (Bool-cases (q e)) [
    | inl t ↦ ground (arith, t, all-append m n (ground (arith, h, t)) k)
    | inr f ↦ absurd (ground (arith, h, f))
  ]

  all-take : (n : ℕ) (m : BTreeMap Entry) → all q m ≡ true → all q (take n m) ≡ true
  all-take zero m h = refl
  all-take (suc n) [] h = refl
  all-take (suc n) (e ∷ m) h = elim (Bool-cases (q e)) [
    | inl t ↦ ground (arith, t, all-take n m (ground (arith, h, t)))
    | inr f ↦ absurd (ground (arith, h, f))
  ]

  all-last :
      (m : BTreeMap Entry) (e : String × Entry) → all q m ≡ true → last m ≡ some e → q e ≡ true
  all-last [] e h l = absurd (ground (arith, l))
  all-last (x ∷ []) e h l = subst (λ x. q x ≡ true) (some-injective x e l) (ground (arith, h))
  all-last (x ∷ y ∷ m) e h l = all-last (y ∷ m) e (ground (arith, h)) l

-- Every entry of a batch has a key of the ledger.
all-contains :
    (q : String → Bool) (m : BTreeMap Entry)
    → ((k : String) → contains_key k m ≡ true → q k ≡ true)
    → all (λ x. q x.0) m ≡ true
unfolding contains_key get
all-contains q [] h = refl
all-contains q ((j, e) ∷ m) h =
    let head : q j ≡ true = h j (ground (arith, str_eq_refl j)) in
    let tail : all (λ x. q x.0) m ≡ true = all-contains q m (λ k c. h k (ground (arith, c))) in
    ground (arith, head, tail)

pub all-rotated :
    (q : String × Entry → Bool) (c : Option String) (m : BTreeMap Entry)
    → all q m ≡ true
    → all q (rotated c m) ≡ true
unfolding rotated
all-rotated q c m h = all-filter_entries q is_open _ (
    all-append q _ _ (all-filter_entries q (is_after c) m h)
      (all-filter_entries q (is_before c) m h))

pub contains-last :
    (n : ℕ) (c : Option String) (m : BTreeMap Entry) (k : String) (e : Entry)
    → last (take n (rotated c m)) ≡ some (k, e)
    → contains_key k m ≡ true
contains-last n c m k e l =
    all-last (λ x. contains_key x.0 m) (take n (rotated c m)) (k, e)
      (all-take _ n _ (all-rotated _ c m (all-contains (λ k. contains_key k m) m (λ k c. c)))) l

length-filter_append :
    (a b : BTreeMap Entry)
    → length (filter_entries is_open (a ++ b))
      ≡ length (filter_entries is_open a) + length (filter_entries is_open b)
unfolding filter_entries
length-filter_append [] b = omega arith
length-filter_append (x ∷ a) b = ground (arith, length-filter_append a b)

-- An entry is after the cursor or before it, and not both.
length-filter_split :
    (c : Option String) (m : BTreeMap Entry)
    → length (filter_entries is_open (filter_entries (is_after c) m))
        + length (filter_entries is_open (filter_entries (is_before c) m))
      ≡ length (filter_entries is_open m)
unfolding filter_entries
length-filter_split c [] = omega arith
length-filter_split c (x ∷ m) = ground (arith, length-filter_split c m)

length-rotated :
    (c : Option String) (m : BTreeMap Entry)
    → length (rotated c m) ≡ length (filter_entries is_open m)
unfolding rotated
length-rotated c m =
    length-filter_append (filter_entries (is_after c) m) (filter_entries (is_before c) m)
    ∙ length-filter_split c m

length-take : (n : ℕ) (m : BTreeMap Entry) → length (take n m) ≡ min n (length m)
length-take zero m = omega arith
length-take (suc n) [] = omega arith
length-take (suc n) (x ∷ m) = omega (arith, length-take n m)

move_cursor-batch :
    (written : Bool) (l : Option (String × Entry)) (b b' : BTreeMap Entry) (w w' : World)
    → move_cursor written l b w ≡ (w', ok b')
    → b' ≡ b
unfolding move_cursor commit
move_cursor-batch written none b b' w w' h = ground (arith, h)
move_cursor-batch true (some (k, e)) b b' w w' h = ground (arith, h)
move_cursor-batch false (some (k, e)) b b' w w' h = absurd (ground (arith, h))

pub next_batch-taken :
    (written : Bool) (limit : ℕ) (w w' : World) (b : BTreeMap Entry)
    → next_batch written limit w ≡ (w', ok b)
    → b ≡ take limit (rotated w.outbox.ledger.reconciliation_cursor w.outbox.ledger.entries)
unfolding next_batch
next_batch-taken written limit w w' b h = elim (Bool-cases (not (within 1 256 limit))) [
  | inl e ↦ absurd (ground (arith, e, h))
  | inr e ↦ move_cursor-batch written _ _ b w w' (simp e at h)
]

-- A batch that is returned holds as many entries as its limit allows and the ledger has dispatches
-- that are not terminal; each of them is under a key of the ledger and not terminal.
pub next_batch-fills :
    (written : Bool) (limit : ℕ) (w w' : World) (b : BTreeMap Entry)
    → next_batch written limit w ≡ (w', ok b)
    → (length b ≡ min limit (length (filter_entries is_open w.outbox.ledger.entries)))
      × (all is_open b ≡ true)
      × (all (λ x. contains_key x.0 w.outbox.ledger.entries) b ≡ true)
unfolding rotated
next_batch-fills written limit w w' b h =
    let c = w.outbox.ledger.reconciliation_cursor in
    let m = w.outbox.ledger.entries in
    rw (next_batch-taken written limit w w' b h) (
      length-take limit (rotated c m) ∙ ap (min limit) (length-rotated c m),
      all-take is_open limit (rotated c m) (filter_entries-all is_open _),
      all-take _ limit (rotated c m)
          (all-rotated _ c m (all-contains (λ k. contains_key k m) m (λ k t. t))),
    )
