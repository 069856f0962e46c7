-- ===== src/ResponseCache/Memory.antt =====
-- The memory backend (src/response_cache.rs).
use sirius_api_proxy.Base.{
  ℕ, ◌+◌, ◌-◌, max, String, Bool, false, ◌&&◌, ◌||◌, Option, none, some, [], ◌∷◌, ltb, leb, ◌==◌,
  length, if◌then◌else◌, BTreeMap, get, insert, remove, saturating_add_u64,
}
use sirius_api_proxy.ResponseCache.{Config, disabled, memory, redis, stale_window}

pub record Entry (Value : Type 0) : Type 0 where
  pub expires_ms : ℕ
  pub retain_ms : ℕ
  pub value : Value

-- A shared handle: the bytes are those of the entry's JSON, and `handle` tells allocations apart.
pub record Stored (Value : Type 0) : Type 0 where
  pub entry : Entry Value
  pub size : ℕ
  pub handle : ℕ

pub record Memory (Value : Type 0) : Type 0 where
  pub entries : BTreeMap (Stored Value)
  pub bytes : ℕ

pub record Cached (Value : Type 0) : Type 0 where
  pub value : Value
  pub stale : Bool

-- What a removal from the counter finds: nothing, or the bytes that leave.
abbrev pub size_of : {Value : Type 0} → Option (Stored Value) → ℕ
size_of none = 0
size_of (some s) = s.size

abbrev pub unwrap_or : ℕ → Option ℕ → ℕ
unwrap_or default_ttl none = default_ttl
unwrap_or default_ttl (some lifetime) = lifetime

module _ {Value : Type 0} where
  abbrev pub empty : Memory Value
  empty = record { entries = []; bytes = 0 }

  -- `decode`, whose reader of JSON gives back the entry that was written.
  unfoldable pub decode : ℕ → Option ℕ → Stored Value → Option (Cached Value)
  decode now limit s =
      if elim limit [ none ↦ false | some bound ↦ ltb bound s.size ]
      then none
      else if ltb now (max s.entry.retain_ms s.entry.expires_ms)
      then some (record { value = s.entry.value; stale = leb s.entry.expires_ms now })
      else none

  -- A handle's bytes never change, so that one allocation has one size.
  abbrev pub ptr_eq : Stored Value → Stored Value → Bool
  ptr_eq a b = a.handle == b.handle && a.size == b.size

  -- The first lock of `get_with_state`.
  unfoldable pub lookup : String → Memory Value → Option (Stored Value)
  lookup key m = get key m.entries

  abbrev pub decode_found : ℕ → Option (Stored Value) → Option (Cached Value)
  decode_found now none = none
  decode_found now (some s) = decode now none s

  -- What `get_with_state` returns.
  unfoldable pub get_with_state : ℕ → String → Memory Value → Option (Cached Value)
  get_with_state now key m = decode_found now (lookup key m)

  abbrev pub drop_same : String → Stored Value → Option (Stored Value) → Memory Value → Memory Value
  drop_same key read none m = m
  drop_same key read (some current) m =
      if ptr_eq current read
      then record { entries = remove key m.entries; bytes = m.bytes - read.size }
      else m

  -- Its second lock, when the entry that was read has expired.
  unfoldable pub drop_expired : String → Stored Value → Memory Value → Memory Value
  drop_expired key read m = drop_same key read (get key m.entries) m

  -- The `while` loop of `put_with_ttl`: the first key goes while the new bytes do not fit.
  unfoldable pub evict :
      (max_entries max_bytes size : ℕ) → BTreeMap (Stored Value) → ℕ → Memory Value
  evict max_entries max_bytes size [] bytes = record { entries = []; bytes = bytes }
  evict max_entries max_bytes size ((k, s) ∷ entries) bytes =
      let rest = evict max_entries max_bytes size entries (bytes - s.size) in
      if leb max_entries (length ((k, s) ∷ entries)) || ltb max_bytes (bytes + size)
      then rest
      else record { entries = (k, s) ∷ entries; bytes = bytes }

  -- The old entry of the key goes first.
  unfoldable pub take_out : String → Memory Value → Memory Value
  take_out key m = record {
    entries = remove key m.entries;
    bytes = m.bytes - size_of (get key m.entries);
  }

  -- The `Memory` arm of `put_with_ttl`.
  unfoldable pub store :
      (max_entries max_bytes : ℕ) → String → Stored Value → Memory Value → Memory Value
  store max_entries max_bytes key s m =
      let out = take_out key m in
      let kept = evict max_entries max_bytes s.size out.entries out.bytes in
      record { entries = insert key s kept.entries; bytes = kept.bytes + s.size }

  -- The entry that `put_with_ttl` writes; the sums saturate.
  unfoldable pub new_entry : Config → ℕ → ℕ → Value → Entry Value
  new_entry c now lifetime value =
      let expires = saturating_add_u64 now lifetime in
      record {
        expires_ms = expires;
        retain_ms = saturating_add_u64 expires (stale_window c);
        value = value;
      }

  -- `put_with_ttl` on the memory backend, the only one that changes the memory. `encoded_len` is
  -- the length of an entry's JSON and `handle` the new allocation.
  unfoldable pub put_with_ttl :
      (encoded_len : Entry Value → ℕ)
      → Config
      → (now handle : ℕ) → String
      → Value
      → Option ℕ
      → Memory Value
      → Memory Value
  put_with_ttl encoded_len disabled now handle key value override_ttl m = m
  put_with_ttl encoded_len (redis l url namespace limit timeout) now handle key value override_ttl
        m =
      m
  put_with_ttl encoded_len (memory l max_entries max_bytes limit) now handle key value override_ttl
        m =
      let entry =
        new_entry (memory l max_entries max_bytes limit) now (unwrap_or l.ttl_ms override_ttl)
          value in
      if ltb limit (encoded_len entry)
      then m
      else store max_entries max_bytes key
          (record { entry = entry; size = encoded_len entry; handle = handle }) m
