-- ===== src/ResponseCache/Totals.antt =====
-- The byte counter of the memory backend (src/response_cache.rs).
use sirius_api_proxy.Base.{
  ℕ, ◌+◌, ◌-◌, ◌≤◌, ◌<◌, ◌≡◌, refl, ap, ◌∙◌, String, false, ◌||◌, none, [], ◌∷◌, arith, inl, inr,
  Bool-cases, str_eq, str_eq_iff, str_eq_sym, ltb, leb, length, BTreeMap, get, contains_key, insert,
  remove, get-insert, get-remove, str_ltb,
}
use sirius_api_proxy.ResponseCache.Memory.{Stored, Memory, size_of, evict}

-- No key stands twice.
abbrev pub IsUnique : {Value : Type 0} → BTreeMap (Stored Value) → Type 0
IsUnique [] = Unit
IsUnique ((k, s) ∷ m) = (contains_key k m ≡ false) × IsUnique m

unfoldable pub total : {Value : Type 0} → BTreeMap (Stored Value) → ℕ
total [] = 0
total ((k, s) ∷ m) = s.size + total m

module _ {Value : Type 0} where
  contains-remove :
      (j k : String) (m : BTreeMap (Stored Value))
      → contains_key j m ≡ false
      → contains_key j (remove k m) ≡ false
  unfolding contains_key
  contains-remove j k m h = ground (arith, h, get-remove j k m)

  pub contains-removed :
      (k : String) (m : BTreeMap (Stored Value)) → contains_key k (remove k m) ≡ false
  unfolding contains_key
  contains-removed k m = ground (arith, get-remove k k m, str_eq_iff k k)

  contains-insert :
      (j k : String) (s : Stored Value) (m : BTreeMap (Stored Value))
      → str_eq j k ≡ false
      → contains_key j m ≡ false
      → contains_key j (insert k s m) ≡ false
  unfolding contains_key
  contains-insert j k s m n h = ground (arith, h, n, get-insert j k s m)

  -- The head of a map without the key.
  contains-cons :
      (k j : String) (s : Stored Value) (m : BTreeMap (Stored Value))
      → contains_key k ((j, s) ∷ m) ≡ false
      → (str_eq k j ≡ false) × (contains_key k m ≡ false)
  unfolding contains_key get
  contains-cons k j s m h = elim (Bool-cases (str_eq k j)) [
    | inl e ↦ absurd (ground (arith, h, e))
    | inr e ↦ (e, ground (arith, h, e))
  ]

  pub IsUnique-remove :
      (k : String) (m : BTreeMap (Stored Value)) → IsUnique m → IsUnique (remove k m)
  unfolding remove
  IsUnique-remove k [] u = tt
  IsUnique-remove k ((j, s) ∷ m) (c, u) = elim (Bool-cases (str_eq k j)) [
    | inl e ↦ simp e (IsUnique-remove k m u)
    | inr e ↦ simp e (contains-remove j k m c, IsUnique-remove k m u)
  ]

  pub IsUnique-insert :
      (k : String) (s : Stored Value) (m : BTreeMap (Stored Value))
      → contains_key k m ≡ false
      → IsUnique m
      → IsUnique (insert k s m)
  unfolding insert
  IsUnique-insert k s [] h u = (ground (arith, h), tt)
  IsUnique-insert k s ((j, t) ∷ m) h (c, u) =
      let (other, rest) = contains-cons k j t m h in
      elim (Bool-cases (str_ltb k j)) [
        | inl e ↦ simp (other, e) (h, (c, u))
        | inr e ↦
            simp (other, e)
              (contains-insert j k s m (str_eq_sym j k ∙ other) c, IsUnique-insert k s m rest u)
      ]

  remove-absent :
      (k : String) (m : BTreeMap (Stored Value)) → contains_key k m ≡ false → remove k m ≡ m
  unfolding remove
  remove-absent k [] h = refl
  remove-absent k ((j, s) ∷ m) h =
      let (other, rest) = contains-cons k j s m h in
      simp other (ap (λ r. (j, s) ∷ r) (remove-absent k m rest))

  get-absent :
      (k : String) (m : BTreeMap (Stored Value)) → contains_key k m ≡ false → get k m ≡ none
  unfolding contains_key
  get-absent k m h = ground (arith, h)

  pub total-remove :
      (k : String) (m : BTreeMap (Stored Value))
      → IsUnique m
      → total (remove k m) + size_of (get k m) ≡ total m
  unfolding total remove get
  total-remove k [] u = omega arith
  total-remove k ((j, s) ∷ m) (c, u) = elim (Bool-cases (str_eq k j)) [
    | inl e ↦
        let absent : contains_key k m ≡ false = rw ((str_eq_iff k j).0 e) c in
        simp e (rw (remove-absent k m absent) (omega arith))
    | inr e ↦ simp e (omega (arith, total-remove k m u))
  ]

  pub total-insert :
      (k : String) (s : Stored Value) (m : BTreeMap (Stored Value))
      → contains_key k m ≡ false
      → total (insert k s m) ≡ total m + s.size
  unfolding total insert
  total-insert k s [] h = omega arith
  total-insert k s ((j, t) ∷ m) h =
      let (other, rest) = contains-cons k j t m h in
      elim (Bool-cases (str_ltb k j)) [
        | inl e ↦ simp (other, e) (omega arith)
        | inr e ↦ simp (other, e) (omega (arith, total-insert k s m rest))
      ]

  -- What the eviction leaves.
  pub record IsRoomy (max_entries max_bytes size : ℕ) (key : String) (m : Memory Value)
      : Type 0 where
    pub unique : IsUnique m.entries
    pub counted : m.bytes ≡ total m.entries
    pub few : length m.entries < max_entries
    pub small : m.bytes + size ≤ max_bytes
    pub absent : contains_key key m.entries ≡ false

  pub evict-IsRoomy :
      (max_entries max_bytes size : ℕ) (key : String) (entries : BTreeMap (Stored Value))
      (bytes : ℕ)
      → 0 < max_entries
      → size ≤ max_bytes
      → IsUnique entries
      → bytes ≡ total entries
      → contains_key key entries ≡ false
      → IsRoomy max_entries max_bytes size key (evict max_entries max_bytes size entries bytes)
  unfolding evict total
  evict-IsRoomy me mb size key [] bytes pos fits u c a = record {
    unique = tt;
    counted = c;
    few = pos;
    small = omega arith;
    absent = a;
  }
  evict-IsRoomy me mb size key ((k, s) ∷ entries) bytes pos fits (d, u) c a =
      elim (Bool-cases (leb me (length ((k, s) ∷ entries)) || ltb mb (bytes + size))) [
        | inl e ↦ simp e (
            evict-IsRoomy me mb size key entries (bytes - s.size) pos fits u (omega (arith, c))
              (contains-cons key k s entries a).1)
        | inr e ↦ simp e (record {
          unique = (d, u);
          counted = c;
          few = ground (arith, e);
          small = ground (arith, e);
          absent = a;
        })
      ]
