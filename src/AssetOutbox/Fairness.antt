-- ===== src/AssetOutbox/Fairness.antt =====
-- The queue of the dispatches that are not terminal, and `next_batch` (src/asset_outbox.rs).
use sirius_api_proxy.Base.{
  ℕ, String, ◌≡◌, ◌⊎◌, refl, sym, ap, ◌∙◌, Bool, true, false, not, Option, none, some, [], ◌∷◌,
  ◌++◌, arith, inl, inr, Bool-cases, BTreeMap, str_ltb, last, take, within, ok,
}
use mathlib.Core.Path.{subst}
use sirius_api_proxy.AssetOutbox.Entries.{Entry}
use sirius_api_proxy.AssetOutbox.Store.{World, commit}
use sirius_api_proxy.AssetOutbox.Rotation.{
  filter_entries, is_open, is_after, is_before, rotated, next_batch, move_cursor,
}
use sirius_api_proxy.AssetOutbox.Sorted.{
  above, below, IsSorted, all-parts, all-join, above_trans, filter-above, filter-below,
  filter-append, filter_comm, filter-cursor, filter-none,
}
use sirius_api_proxy.AssetOutbox.Parts.{
  drop, append_assoc, append_nil, take-drop, last-split, append-split, last-none,
}
use sirius_api_proxy.AssetOutbox.Batch.{next_batch-taken, all-filter_entries}

above-append :
    (k : String) (a b : BTreeMap Entry) (j : String) (e : Entry)
    → above k (a ++ (j, e) ∷ b) ≡ true
    → str_ltb k j ≡ true
above-append k [] b j e h = (all-parts (λ x. str_ltb k x.0) (j, e) b h).0
above-append k (x ∷ a) b j e h =
    above-append k a b j e (all-parts (λ x. str_ltb k x.0) x (a ++ (j, e) ∷ b) h).1

-- In a sorted list the entries before one have smaller keys, and those after it greater ones.
sorted-split :
    (a b : BTreeMap Entry) (k : String) (e : Entry)
    → IsSorted (a ++ (k, e) ∷ b)
    → (below k a ≡ true) × (above k b ≡ true)
sorted-split [] b k e (h, s) = (refl, h)
sorted-split ((j, d) ∷ a) b k e (h, s) =
    let (lower, upper) = sorted-split a b k e s in
    (all-join (λ x. str_ltb x.0 k) (j, d) a (above-append j a b k e h) lower, upper)

-- The queue of the entries with the cursor on one of them.
queue-split :
    (a b : BTreeMap Entry) (k : String) (e : Entry)
    → IsSorted (a ++ (k, e) ∷ b)
    → (filter_entries (is_after (some k)) (a ++ (k, e) ∷ b) ≡ b)
      × (filter_entries (is_before (some k)) (a ++ (k, e) ∷ b) ≡ a ++ (k, e) ∷ [])
queue-split a b k e s =
    let (lower, upper) = sorted-split a b k e s in
    let (after, before) = filter-below k a lower in
    let (after', before') = filter-cursor k e b upper in
    (
      filter-append (is_after (some k)) a ((k, e) ∷ b) ∙ rw (after, after') refl,
      filter-append (is_before (some k)) a ((k, e) ∷ b) ∙ rw (before, before') refl,
    )

-- Whatever the cursor is, the queue is a rotation of the sorted list.
queue-rotation :
    (c : Option String) (m : BTreeMap Entry)
    → IsSorted m
    → m ≡ filter_entries (is_before c) m ++ filter_entries (is_after c) m
unfolding filter_entries
queue-rotation c [] s = refl
queue-rotation none (x ∷ m) s = sym (
    ap (λ r. r ++ x ∷ filter_entries (is_after none) m) (filter-none m).1
    ∙ ap (λ r. x ∷ r) (filter-none m).0)
queue-rotation (some c) ((k, e) ∷ m) (h, s) = elim (Bool-cases (str_ltb c k)) [
  | inl l ↦
      let (after, before) = filter-above c m (above_trans c k m l h) in
      simp l (rw (after, before) refl)
  | inr l ↦ simp l (ap (λ r. (k, e) ∷ r) (queue-rotation (some c) m s))
]

-- The sorted list, as the queue sees it with the cursor `c`.
abbrev queue : Option String → BTreeMap Entry → BTreeMap Entry
queue c m = filter_entries (is_after c) m ++ filter_entries (is_before c) m

queue-cursor :
    (a b : BTreeMap Entry) (k : String) (e : Entry)
    → IsSorted (a ++ (k, e) ∷ b)
    → queue (some k) (a ++ (k, e) ∷ b) ≡ b ++ (a ++ (k, e) ∷ [])
queue-cursor a b k e s = let (after, before) = queue-split a b k e s in rw (after, before) refl

queue-at :
    (m a b : BTreeMap Entry) (k : String) (e : Entry)
    → m ≡ a ++ (k, e) ∷ b
    → IsSorted m
    → queue (some k) m ≡ b ++ (a ++ (k, e) ∷ [])
queue-at m a b k e whole =
    subst (λ l. IsSorted l → queue (some k) l ≡ b ++ (a ++ (k, e) ∷ [])) (sym whole)
      (queue-cursor a b k e)

-- With the cursor on an entry of the queue, what was before it and itself go to the queue's end.
queue-moved :
    (c : Option String) (m front rest : BTreeMap Entry) (k : String) (e : Entry)
    → IsSorted m
    → queue c m ≡ front ++ (k, e) ∷ rest
    → queue (some k) m ≡ rest ++ (front ++ (k, e) ∷ [])
queue-moved c m front rest k e s q =
    let a = filter_entries (is_after c) m in
    let b = filter_entries (is_before c) m in
    let x = (k, e) ∷ [] in
    let whole : m ≡ b ++ a = queue-rotation c m s in
    elim (append-split a b front rest (k, e) q) [
      | inl (a', ea, er) ↦
          queue-at m (b ++ front) a' k e
            (whole ∙ ap (λ r. b ++ r) ea ∙ sym (append_assoc b front ((k, e) ∷ a'))) s
          ∙ ap (λ r. a' ++ r) (append_assoc b front x)
          ∙ sym (append_assoc a' b (front ++ x))
          ∙ ap (λ r. r ++ (front ++ x)) (sym er)
      | inr (b', ef, eb) ↦
          queue-at m b' (rest ++ a) k e
            (whole ∙ ap (λ r. r ++ a) eb ∙ append_assoc b' ((k, e) ∷ rest) a) s
          ∙ append_assoc rest a (b' ++ x)
          ∙ ap (λ r. rest ++ r) (sym (append_assoc a b' x))
          ∙ ap (λ r. rest ++ (r ++ x)) (sym ef)
    ]

-- The queue of the open entries.
IsSorted-filter :
    (p : String × Entry → Bool) (m : BTreeMap Entry) → IsSorted m → IsSorted (filter_entries p m)
unfolding filter_entries
IsSorted-filter p [] s = tt
IsSorted-filter p ((k, e) ∷ m) (h, s) = elim (Bool-cases (p (k, e))) [
  | inl t ↦ simp t (all-filter_entries (λ x. str_ltb k x.0) p m h, IsSorted-filter p m s)
  | inr t ↦ simp t (IsSorted-filter p m s)
]

rotated-queue :
    (c : Option String) (m : BTreeMap Entry) → rotated c m ≡ queue c (filter_entries is_open m)
unfolding rotated
rotated-queue c m =
    filter-append is_open (filter_entries (is_after c) m) (filter_entries (is_before c) m)
    ∙ rw (filter_comm is_open (is_after c) m, filter_comm is_open (is_before c) m) refl

-- What `move_cursor` leaves, when it returns the batch.
move_cursor-cursor :
    (written : Bool) (l : Option (String × Entry)) (b b' : BTreeMap Entry) (w w' : World)
    → move_cursor written l b w ≡ (w', ok b')
    → (w'.outbox.ledger.entries ≡ w.outbox.ledger.entries)
      × (((l ≡ none)
            × (w'.outbox.ledger.reconciliation_cursor ≡ w.outbox.ledger.reconciliation_cursor))
          ⊎ ((x : String × Entry) × (l ≡ some x)
              × (w'.outbox.ledger.reconciliation_cursor ≡ some x.0)))
unfolding move_cursor commit
move_cursor-cursor written none b b' w w' h =
    let same : w ≡ w' = ap (λ r. r.0) h in
    (
      ap (λ v. v.outbox.ledger.entries) (sym same),
      inl (refl, ap (λ v. v.outbox.ledger.reconciliation_cursor) (sym same)),
    )
move_cursor-cursor true (some (k, e)) b b' w w' h = (
  ap (λ r. r.0.outbox.ledger.entries) (sym h),
  inr ((k, e), refl, ap (λ r. r.0.outbox.ledger.reconciliation_cursor) (sym h)),
)
move_cursor-cursor false (some (k, e)) b b' w w' h = absurd (ground (arith, h))

next_batch-moved :
    (written : Bool) (limit : ℕ) (w w' : World) (b : BTreeMap Entry)
    → next_batch written limit w ≡ (w', ok b)
    → let batch =
        take limit (rotated w.outbox.ledger.reconciliation_cursor w.outbox.ledger.entries) in
      move_cursor written (last batch) batch w ≡ (w', ok b)
unfolding next_batch
next_batch-moved written limit w w' b h = elim (Bool-cases (not (within 1 256 limit))) [
  | inl e ↦ absurd (ground (arith, e, h))
  | inr e ↦ simp e at h
]

-- The open entries' queue, with the cursor on the last of the first `n`: those are at its end.
queue-batch :
    (n : ℕ) (c : Option String) (m : BTreeMap Entry) (k : String) (e : Entry)
    → IsSorted m
    → last (take n (queue c m)) ≡ some (k, e)
    → queue (some k) m ≡ drop n (queue c m) ++ take n (queue c m)
queue-batch n c m k e s l =
    let (front, f) = last-split (take n (queue c m)) (k, e) l in
    let parts : queue c m ≡ front ++ (k, e) ∷ drop n (queue c m) =
      sym (take-drop n (queue c m))
      ∙ ap (λ r. r ++ drop n (queue c m)) f
      ∙ append_assoc front ((k, e) ∷ []) (drop n (queue c m)) in
    queue-moved c m front (drop n (queue c m)) k e s parts
    ∙ ap (λ r. drop n (queue c m) ++ r) (sym f)

queue-empty : (n : ℕ) (q : BTreeMap Entry) → last (take n q) ≡ none → q ≡ drop n q ++ take n q
queue-empty n q l =
    let empty = last-none (take n q) l in
    sym (take-drop n q)
    ∙ ap (λ r. r ++ drop n q) empty
    ∙ sym (append_nil (drop n q))
    ∙ ap (λ r. drop n q ++ r) (sym empty)

-- When the entries are in the order of their keys, a batch that is returned goes to the end of the
-- queue of dispatches that are not terminal, and the others move up in their order, so that none of
-- them waits behind the same ones again.
pub next_batch-rotates :
    (written : Bool) (limit : ℕ) (w w' : World) (b : BTreeMap Entry)
    → IsSorted w.outbox.ledger.entries
    → next_batch written limit w ≡ (w', ok b)
    → rotated w'.outbox.ledger.reconciliation_cursor w'.outbox.ledger.entries
      ≡ drop limit (rotated w.outbox.ledger.reconciliation_cursor w.outbox.ledger.entries) ++ b
next_batch-rotates written limit w w' b s h =
    let c = w.outbox.ledger.reconciliation_cursor in
    let m = w.outbox.ledger.entries in
    let q = rotated c m in
    let (entries, moved) =
      move_cursor-cursor written (last (take limit q)) (take limit q) b w w'
        (next_batch-moved written limit w w' b h) in
    let taken = next_batch-taken written limit w w' b h in
    elim moved [
      | inl (l, same) ↦ rw (entries, same, taken) (queue-empty limit q l)
      | inr ((k, e), l, on) ↦
          rw (entries, on, taken)
            (rw (rotated-queue c m, rotated-queue (some k) m)
              (queue-batch limit c (filter_entries is_open m) k e (IsSorted-filter is_open m s)
                (rw (rotated-queue c m) at l)))
    ]
