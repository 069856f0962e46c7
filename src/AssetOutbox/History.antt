-- ===== src/AssetOutbox/History.antt =====
-- Observation, archiving and rotation (src/asset_outbox.rs), and what the outbox remembers.
use sirius_api_proxy.Base.{
  String, ◌≡◌, refl, sym, ap, ◌∙◌, Bool, true, false, Option, none, some, arith, inl, inr,
  Bool-cases, Option-cases, Result-cases, str_eq, str_eq_iff, str_eq_refl, ok, get, contains_key,
  insert, get-insert, get-remove, if◌then◌else◌, or_else, is_some, BTreeMap,
}
use mathlib.Core.Option.{some-injective}
use sirius_api_proxy.AssetOutbox.Entries.{
  Env, Identity, Entry, pending, key, same_entry, same_entry_sound,
}
use sirius_api_proxy.AssetOutbox.Store.{
  World, ArchiveFile, unusable, archived_entry, ArchiveDirectory, absent, not_a_directory, files,
  commit,
}
use sirius_api_proxy.AssetOutbox.Archive.{
  Archiving, archive_file, read_archived, archived, add_file, forget, file_entry, archive_found,
  observe_new, observe_key, completed_by,
}
use sirius_api_proxy.AssetOutbox.Rotation.{move_cursor}
use sirius_api_proxy.AssetOutbox.Events.{held}
use sirius_api_proxy.AssetOutbox.Lifecycle.{stay, Keeps}

-- Nothing that is remembered changes.
abbrev pub Same : World → World → Type 0
Same w w' = (k : String) (e : Entry) → held w k ≡ some e → held w' k ≡ some e

pub Keeps-Same : (w w' : World) → Same w w' → Keeps w w'
Keeps-Same w w' s k e h = (e, s k e h, refl, stay)

pub Same-refl : (w : World) → Same w w
Same-refl w k e h = h

Same-trans : (u v w : World) → Same u v → Same v w → Same u w
Same-trans u v w s t k e h = t k e (s k e h)

read_archived-none :
    (env : Env) (key : String) (f : Option ArchiveFile)
    → read_archived env key f ≡ ok none
    → f ≡ none
unfolding read_archived
read_archived-none env key none h = refl
read_archived-none env key (some unusable) h = absurd (ground (arith, h))
read_archived-none env key (some (archived_entry e)) h = absurd (ground (arith, h))

read_archived-some :
    (env : Env) (key : String) (f : Option ArchiveFile) (e : Entry)
    → read_archived env key f ≡ ok (some e)
    → f ≡ some (archived_entry e)
unfolding read_archived
read_archived-some env key none e h = absurd (ground (arith, h))
read_archived-some env key (some unusable) e h = absurd (ground (arith, h))
read_archived-some env key (some (archived_entry o)) e h = ground (arith, h)

archived-none :
    (env : Env) (key : String) (a : ArchiveDirectory)
    → archived env key a ≡ ok none
    → archive_file key a ≡ none
unfolding archived archive_file
archived-none env key absent h = refl
archived-none env key not_a_directory h = refl
archived-none env key (files m) h = read_archived-none env key (get key m) (ground (arith, h))

pub archived-some :
    (env : Env) (key : String) (a : ArchiveDirectory) (e : Entry)
    → archived env key a ≡ ok (some e)
    → archive_file key a ≡ some (archived_entry e)
unfolding archived archive_file
archived-some env key absent e h = absurd (ground (arith, h))
archived-some env key not_a_directory e h = absurd (ground (arith, h))
archived-some env key (files m) e h = read_archived-some env key (get key m) e (ground (arith, h))

observe_new-Same :
    (written : Bool) (key : String) (i : Identity) (w : World)
    → held w key ≡ none
    → Same w (observe_new written key i w).0
unfolding observe_new commit held
observe_new-Same written key i w free = λ k e h. ground (
  arith,
  h,
  free,
  get-insert k key (record { identity = i; state = pending }) w.outbox.ledger.entries,
  str_eq_iff k key,
)

held-free :
    (w : World) (key : String)
    → contains_key key w.outbox.ledger.entries ≡ false
    → archive_file key w.archive ≡ none
    → held w key ≡ none
unfolding held contains_key
held-free w key c a = rw a (ground (arith, c))

pub observe_key-Same :
    (env : Env) (written : Bool) (key : String) (i : Identity) (w : World)
    → Same w (observe_key env written key i w).0
unfolding observe_key
observe_key-Same env written key i w =
    elim (Bool-cases (contains_key key w.outbox.ledger.entries)) [
      | inl e ↦ simp e (Same-refl w)
      | inr e ↦ elim (Result-cases (archived env key w.archive)) [
        | inr (x, a) ↦ simp (e, a) (Same-refl w)
        | inl (some o, a) ↦ simp (e, a) (Same-refl w)
        | inl (none, a) ↦
            simp (e, a)
              (observe_new-Same written key i w
                (held-free w key e (archived-none env key w.archive a)))
      ]
    ]

pub move_cursor-Same :
    (written : Bool) (l : Option (String × Entry)) (b : BTreeMap Entry) (w : World)
    → Same w (move_cursor written l b w).0
unfolding move_cursor commit held
move_cursor-Same written none b w = Same-refl w
move_cursor-Same written (some (key, e)) b w = λ k e' h. ground (arith, h)

forget-Same :
    (written : Bool) (key : String) (e : Entry) (w : World)
    → archive_file key w.archive ≡ some (archived_entry e)
    → ((o : Entry) → get key w.outbox.ledger.entries ≡ some o → o ≡ e)
    → Same w (forget written key e w).0
unfolding forget commit held
forget-Same written key e w filed same = λ k o h.
    elim (Option-cases (get key w.outbox.ledger.entries)) [
      | inl g ↦
          ground (arith, filed, g, h, get-remove k key w.outbox.ledger.entries, str_eq_iff k key)
      | inr (x, g) ↦
          let is : x ≡ e = same x g in
          ground
            (arith, filed, is, g, h, get-remove k key w.outbox.ledger.entries, str_eq_iff k key)
    ]

add_file-other :
    (key k : String) (e : Entry) (a : ArchiveDirectory)
    → archive_file k (add_file key e a)
      ≡ (if str_eq k key then some (archived_entry e) else archive_file k a)
unfolding archive_file insert get
add_file-other key k e absent = refl
add_file-other key k e not_a_directory = refl
add_file-other key k e (files m) = get-insert k key (archived_entry e) m

add_file-Same :
    (key : String) (e : Entry) (w : World)
    → get key w.outbox.ledger.entries ≡ some e
    → Same w (record w { archive = add_file key e w.archive })
unfolding held
add_file-Same key e w g =
    λ k o h. rw (add_file-other key k e w.archive) (ground (arith, g, h, str_eq_iff k key))

file_entry-Same :
    (io : Archiving) (key : String) (old : Option Entry) (e : Entry) (w : World)
    → (old ≡ none → get key w.outbox.ledger.entries ≡ some e)
    → (is_some old ≡ true → archive_file key w.archive ≡ some (archived_entry e))
    → ((o : Entry) → get key w.outbox.ledger.entries ≡ some o → o ≡ e)
    → Same w (file_entry io key old e w).0
unfolding file_entry
file_entry-Same io key (some o) e w kept filed same = elim (Bool-cases io.synchronized) [
  | inl s ↦ simp s (forget-Same io.written key e w (filed refl) same)
  | inr s ↦ simp s (Same-refl w)
]
file_entry-Same io key none e w kept filed same = elim (Bool-cases io.filed) [
  | inr f ↦ simp f (Same-refl w)
  | inl f ↦
      let w' = record w { archive = add_file key e w.archive } in
      elim (Bool-cases io.synchronized) [
        | inr s ↦ simp (f, s) (add_file-Same key e w (kept refl))
        | inl s ↦
            simp (f, s)
              (Same-trans w w' _ (add_file-Same key e w (kept refl)) (
                forget-Same io.written key e w'
                  (add_file-other key key e w.archive ∙ rw (str_eq_refl key) refl) same))
      ]
]

found_archived-Same :
    (io : Archiving) (key id : String) (o e : Entry) (w : World)
    → archive_file key w.archive ≡ some (archived_entry o)
    → ((x : Entry) → get key w.outbox.ledger.entries ≡ some x → x ≡ e)
    → Same w (archive_found io key id (some o) (some e) w).0
unfolding archive_found
found_archived-Same io key id o e w filed same = elim (Bool-cases (completed_by id e.state)) [
  | inr c ↦ simp c (Same-refl w)
  | inl c ↦ elim (Bool-cases (same_entry o e)) [
    | inr differs ↦ simp (c, differs) (Same-refl w)
    | inl equal ↦
        simp (c, equal)
          (file_entry-Same io key (some o) e w (λ no. absurd (ground (arith, no)))
            (λ _. filed ∙ ap (λ x. some (archived_entry x)) (same_entry_sound o e equal)) same)
  ]
]

pub archive_found-Same :
    (io : Archiving) (key id : String) (old : Option Entry) (w : World)
    → ((o : Entry) → old ≡ some o → archive_file key w.archive ≡ some (archived_entry o))
    → Same w (archive_found io key id old (or_else (get key w.outbox.ledger.entries) old) w).0
unfolding archive_found
archive_found-Same io key id none w filed = elim (Option-cases (get key w.outbox.ledger.entries)) [
  | inl g ↦ simp g (Same-refl w)
  | inr (e, g) ↦ elim (Bool-cases (completed_by id e.state)) [
    | inr c ↦ simp (g, c) (Same-refl w)
    | inl c ↦
        simp (g, c)
          (file_entry-Same io key none e w (λ _. g) (λ no. absurd (ground (arith, no)))
            (λ o h. some-injective o e (sym h ∙ g)))
  ]
]
archive_found-Same io key id (some o) w filed =
    elim (Option-cases (get key w.outbox.ledger.entries)) [
      | inl g ↦ rw g (
          found_archived-Same io key id o o w (filed o refl) (λ x h. absurd (ground (arith, g, h))))
      | inr (e, g) ↦ rw g (
          found_archived-Same io key id o e w (filed o refl)
            (λ x h. some-injective x e (sym h ∙ g)))
    ]
