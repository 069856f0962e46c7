-- ===== src/ClientAuth/Tokens.antt =====
-- The verification of a client's token (src/client_auth.rs, `verify`, `hmac_sha256` and
-- `constant_time_eq`). A byte is a number, and a signature a list of them.
use Prim.Native.Char.{code}
use sirius_api_proxy.Base.{
  ℕ, zero, suc, ◌+◌, ◌-◌, ◌/◌, ◌%◌, String, Bool, not, ◌&&◌, Option, none, some, List, [], ◌∷◌,
  ◌++◌, map, ltb, leb, ◌==◌, is_some, is_some_and, length, str_eq, if◌then◌else◌, byte_len, bit_or,
  bit_xor, split,
}

-- The UTF-8 bytes of a code point.
abbrev pub utf8 : ℕ → List ℕ
utf8 c =
    if ltb c 128
    then c ∷ []
    else if ltb c 2048
    then (192 + c / 64) ∷ (128 + c % 64) ∷ []
    else if ltb c 65536
    then (224 + c / 4096) ∷ (128 + c / 64 % 64) ∷ (128 + c % 64) ∷ []
    else (240 + c / 262144) ∷ (128 + c / 4096 % 64) ∷ (128 + c / 64 % 64) ∷ (128 + c % 64) ∷ []

-- `s.as_bytes()`
unfoldable pub as_bytes : String → List ℕ
as_bytes String.[] = []
as_bytes (String.◌∷◌ c s) = utf8 (code c) ++ as_bytes s

-- `token.split('.')`
abbrev pub split_dots : String → List String
split_dots token = split b'.' token

pub record Header : Type 0 where
  pub alg : String
  pub typ : Option String

pub record Payload : Type 0 where
  pub uid : String
  pub credential : String
  pub exp : Option ℕ

pub record Claims : Type 0 where
  pub uid : String
  pub credential : String

pub record Codecs : Type 0 where
  pub decode : String → Option (List ℕ)
  pub read_header : List ℕ → Option Header
  pub read_payload : List ℕ → Option Payload
  pub sha256 : List ℕ → List ℕ

-- `a.iter().zip(b).fold(acc, |acc, (x, y)| acc | (x ^ y))`
unfoldable pub differences : ℕ → List ℕ → List ℕ → ℕ
differences acc [] ys = acc
differences acc (x ∷ xs) [] = acc
differences acc (x ∷ xs) (y ∷ ys) = differences (bit_or acc (bit_xor x y)) xs ys

unfoldable pub constant_time_eq : List ℕ → List ℕ → Bool
constant_time_eq a b = length a == length b && differences 0 a b == 0

abbrev pub zeros : ℕ → List ℕ
zeros zero = []
zeros (suc n) = 0 ∷ zeros n

-- `block.map(|b| b ^ byte)`
abbrev pub pad : List ℕ → ℕ → List ℕ
pad block byte = map (λ b. bit_xor b byte) block

-- `format!("{header}.{payload}")`, as bytes
abbrev pub signed_part : String → String → List ℕ
signed_part header payload = as_bytes header ++ b'.' ∷ as_bytes payload

abbrev pub header_accepted : Header → Bool
header_accepted h = str_eq h.alg "HS256" && not (is_some_and h.typ (λ t. not (str_eq t "JWT")))

abbrev pub payload_accepted : ℕ → Payload → Bool
payload_accepted now p =
    not (str_eq p.uid "")
    && leb (byte_len p.uid) 256
    && not (str_eq p.credential "")
    && leb (byte_len p.credential) 4096
    && not (is_some_and p.exp (λ exp. leb exp now))

abbrev pub read : {A : Type 0} → (List ℕ → Option A) → Option (List ℕ) → Option A
read reader none = none
read reader (some bytes) = reader bytes

abbrev pub checked : {A : Type 0} → (A → Bool) → Option A → Option A
checked p none = none
checked p (some a) = if p a then some a else none

abbrev pub claims_of : Option Payload → Option Claims
claims_of none = none
claims_of (some p) = some (record { uid = p.uid; credential = p.credential })

module _ (codecs : Codecs) where
  unfoldable pub hmac_block : List ℕ → List ℕ
  hmac_block key =
      let k = if ltb 64 (length key) then codecs.sha256 key else key in k ++ zeros (64 - length k)

  unfoldable pub hmac_sha256 : List ℕ → List ℕ → List ℕ
  hmac_sha256 key message =
      codecs.sha256
        (pad (hmac_block key) 0x5c ++ codecs.sha256 (pad (hmac_block key) 0x36 ++ message))

  unfoldable pub verify_parts : List ℕ → ℕ → List String → Option Claims
  verify_parts key now (header ∷ payload ∷ signature ∷ []) =
      let genuine =
        is_some_and (codecs.decode signature)
          (λ s. constant_time_eq s (hmac_sha256 key (signed_part header payload))) in
      let head = checked header_accepted (read codecs.read_header (codecs.decode header)) in
      if not genuine
      then none
      else if not (is_some head)
      then none
      else claims_of
          (checked (payload_accepted now) (read codecs.read_payload (codecs.decode payload)))
  verify_parts key now _ = none

  unfoldable pub verify : List ℕ → ℕ → String → Option Claims
  verify key now token =
      if ltb 8192 (byte_len token) then none else verify_parts key now (split_dots token)
