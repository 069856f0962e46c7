-- ===== src/ResponseCache/Reads.antt =====
-- Reads after a put (src/response_cache.rs).
use sirius_api_proxy.Base.{
  ℕ, ◌+◌, ◌≤◌, ◌≡◌, refl, ap, ◌∙◌, String, true, false, Option, none, some, arith, str_eq_iff, ltb,
  get-insert, if◌then◌else◌, u64_max,
}
use sirius_api_proxy.ResponseCache.{Config, memory, Lifetimes, stale_window}
use sirius_api_proxy.ResponseCache.Memory.{
  Entry, Stored, Memory, Cached, decode, lookup, decode_found, get_with_state, store, put_with_ttl,
  new_entry, unwrap_or,
}

module _ {Value : Type 0} where
  store-lookup :
      (max_entries max_bytes : ℕ) (key : String) (s : Stored Value) (m : Memory Value)
      → lookup key (store max_entries max_bytes key s m) ≡ some s
  unfolding lookup store
  store-lookup me mb key s m = get-insert key key s _ ∙ ground (arith, str_eq_iff key key)

  get_with_state-lookup :
      (later : ℕ) (key : String) (m : Memory Value) (s : Stored Value)
      → lookup key m ≡ some s
      → get_with_state later key m ≡ decode later none s
  unfolding get_with_state
  get_with_state-lookup later key m s h = ap (decode_found later) h

-- What reads find of an entry that was put at `now` for `lifetime`: it is fresh, then stale within
-- the window, and then gone.
module _ {Value : Type 0} (encoded_len : Entry Value → ℕ) (l : Lifetimes)
    (max_entries max_bytes limit now handle : ℕ) (key : String) (value : Value)
    (override_ttl : Option ℕ) (m : Memory Value) where
  abbrev pub cache : Config
  cache = memory l max_entries max_bytes limit

  abbrev pub lifetime : ℕ
  lifetime = unwrap_or l.ttl_ms override_ttl

  abbrev pub written : Entry Value
  written = new_entry cache now lifetime value

  -- The value, fresh during its lifetime and stale during the window after it.
  abbrev pub retained : ℕ → Option (Cached Value)
  retained later =
      if ltb later (now + lifetime)
      then some (record { value = value; stale = false })
      else if ltb later (now + lifetime + l.stale_while_revalidate_ms)
      then some (record { value = value; stale = true })
      else none

  decode-written :
      (later size : ℕ)
      → now + lifetime + l.stale_while_revalidate_ms ≤ u64_max
      → decode later none (record { entry = written; size = size; handle = handle })
        ≡ retained later
  unfolding decode new_entry stale_window
  decode-written later size room = ground arith

  abbrev stored : Stored Value
  stored = record { entry = written; size = encoded_len written; handle = handle }

  put-stored :
      encoded_len written ≤ limit
      → put_with_ttl encoded_len cache now handle key value override_ttl m
        ≡ store max_entries max_bytes key stored m
  unfolding put_with_ttl
  put-stored fits =
      let small : ltb limit (encoded_len written) ≡ false = ground arith in simp small refl

  -- An entry that is not too long and is put before the end of time is read back until its lifetime
  -- and the window after it are over: its value, as fresh in its lifetime and as stale after it, and
  -- nothing then.
  pub get_with_state-put :
      (later : ℕ)
      → encoded_len written ≤ limit
      → now + lifetime + l.stale_while_revalidate_ms ≤ u64_max
      → get_with_state later key
          (put_with_ttl encoded_len cache now handle key value override_ttl m)
        ≡ retained later
  get_with_state-put later fits room =
      ap (get_with_state later key) (put-stored fits)
      ∙ get_with_state-lookup later key (store max_entries max_bytes key stored m) stored
          (store-lookup max_entries max_bytes key stored m)
      ∙ decode-written later (encoded_len written) room
