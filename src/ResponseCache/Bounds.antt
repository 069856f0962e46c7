-- ===== src/ResponseCache/Bounds.antt =====
-- The limits of the memory backend (src/response_cache.rs).
use sirius_api_proxy.Base.{
  ℕ, ◌-◌, ◌≤◌, ◌<◌, ◌≡◌, refl, String, Option, none, some, List, [], ◌∷◌, arith, inl, inr,
  Bool-cases, ltb, length, get, remove, length-insert, length-remove-le,
}
use sirius_api_proxy.ResponseCache.{Config, memory, Lifetimes, config_valid, validate}
use sirius_api_proxy.ResponseCache.Memory.{
  Entry, Stored, Memory, empty, size_of, ptr_eq, drop_same, drop_expired, take_out, store,
  put_with_ttl, new_entry, unwrap_or,
}
use sirius_api_proxy.ResponseCache.Totals.{
  IsUnique, total, IsUnique-remove, IsUnique-insert, total-remove, total-insert, contains-removed,
  evict-IsRoomy,
}

-- The counter is the sum of the sizes, and the memory is within its limits.
pub record IsBounded {Value : Type 0} (max_entries max_bytes : ℕ) (m : Memory Value) : Type 0 where
  pub unique : IsUnique m.entries
  pub counted : m.bytes ≡ total m.entries
  pub few : length m.entries ≤ max_entries
  pub small : m.bytes ≤ max_bytes

module _ {Value : Type 0} where
  taken-counted :
      (key : String) (m : Memory Value)
      → IsUnique m.entries
      → m.bytes ≡ total m.entries
      → m.bytes - size_of (get key m.entries) ≡ total (remove key m.entries)
  taken-counted key m u c = omega (arith, c, total-remove key m.entries u)

  store-IsBounded :
      (max_entries max_bytes : ℕ) (key : String) (s : Stored Value) (m : Memory Value)
      → 0 < max_entries
      → s.size ≤ max_bytes
      → IsBounded max_entries max_bytes m
      → IsBounded max_entries max_bytes (store max_entries max_bytes key s m)
  unfolding store take_out
  store-IsBounded me mb key s m pos fits b =
      let r =
        evict-IsRoomy me mb s.size key (remove key m.entries)
          (m.bytes - size_of (get key m.entries)) pos fits (IsUnique-remove key m.entries b.unique)
          (taken-counted key m b.unique b.counted) (contains-removed key m.entries) in
      record {
        unique = IsUnique-insert key s _ r.absent r.unique;
        counted = omega (arith, r.counted, total-insert key s _ r.absent);
        few = omega (arith, r.few, length-insert key s _ r.absent);
        small = r.small;
      }

  drop_same-IsBounded :
      (max_entries max_bytes : ℕ) (key : String) (read : Stored Value) (o : Option (Stored Value))
      (m : Memory Value)
      → get key m.entries ≡ o
      → IsBounded max_entries max_bytes m
      → IsBounded max_entries max_bytes (drop_same key read o m)
  drop_same-IsBounded me mb key read none m g b = b
  drop_same-IsBounded me mb key read (some current) m g b =
      elim (Bool-cases (ptr_eq current read)) [
        | inr e ↦ rw e b
        | inl e ↦
            let size : read.size ≡ size_of (get key m.entries) = rw g (ground (arith, e)) in
            rw e (record {
              unique = IsUnique-remove key m.entries b.unique;
              counted = rw size (taken-counted key m b.unique b.counted);
              few = omega (arith, b.few, length-remove-le key m.entries);
              small = omega (arith, b.small);
            })
      ]

-- What happens to the memory of a cache: puts, and drops of an entry that a read found expired.
pub data Event (Value : Type 0) : Type 0 where
  put : (now handle : ℕ) → (key : String) → Value → (override_ttl : Option ℕ) → Event Value
  expired : (key : String) → (read : Stored Value) → Event Value

module _ {Value : Type 0} (encoded_len : Entry Value → ℕ) (config : Config) where
  unfoldable pub apply : Memory Value → Event Value → Memory Value
  apply m (put now handle key value override_ttl) =
      put_with_ttl encoded_len config now handle key value override_ttl m
  apply m (expired key read) = drop_expired key read m

  unfoldable pub run : Memory Value → List (Event Value) → Memory Value
  run m [] = m
  run m (e ∷ events) = run (apply m e) events

limits :
    (l : Lifetimes) (max_entries max_bytes limit : ℕ)
    → validate (memory l max_entries max_bytes limit) ≡ none
    → (0 < max_entries) × (limit ≤ max_bytes)
unfolding validate config_valid
limits l me mb limit h = (ground (arith, h), ground (arith, h))

module _ {Value : Type 0} (encoded_len : Entry Value → ℕ) (l : Lifetimes)
    (max_entries max_bytes limit : ℕ)
    (valid : validate (memory l max_entries max_bytes limit) ≡ none) where
  apply-IsBounded :
      (m : Memory Value) (e : Event Value)
      → IsBounded max_entries max_bytes m
      → IsBounded max_entries max_bytes
          (apply encoded_len (memory l max_entries max_bytes limit) m e)
  unfolding apply put_with_ttl drop_expired
  apply-IsBounded m (expired key read) b =
      drop_same-IsBounded max_entries max_bytes key read (get key m.entries) m refl b
  apply-IsBounded m (put now handle key value override_ttl) b =
      let (pos, fits) = limits l max_entries max_bytes limit valid in
      elim (Bool-cases (
        ltb limit (
          encoded_len (
            new_entry (memory l max_entries max_bytes limit) now (unwrap_or l.ttl_ms override_ttl)
              value)))) [
                | inl e ↦ rw e b
                | inr e ↦
                    rw e (
                      store-IsBounded max_entries max_bytes key _ m pos (ground (arith, e, fits)) b)
              ]

  run_from-IsBounded :
      (m : Memory Value) (events : List (Event Value))
      → IsBounded max_entries max_bytes m
      → IsBounded max_entries max_bytes
          (run encoded_len (memory l max_entries max_bytes limit) m events)
  unfolding run
  run_from-IsBounded m [] b = b
  run_from-IsBounded m (e ∷ events) b =
      run_from-IsBounded (apply encoded_len (memory l max_entries max_bytes limit) m e) events
        (apply-IsBounded m e b)

  -- With a valid configuration, after any puts and drops the memory backend holds no more entries
  -- and no more bytes than it is configured for, no key twice, and its byte counter is the sum of
  -- the sizes of its entries.
  pub run-IsBounded :
      (events : List (Event Value))
      → IsBounded max_entries max_bytes
          (run encoded_len (memory l max_entries max_bytes limit) empty events)
  unfolding total
  run-IsBounded events =
      run_from-IsBounded empty events
        (record { unique = tt; counted = refl; few = omega arith; small = omega arith })
