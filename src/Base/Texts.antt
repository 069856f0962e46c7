-- ===== src/Base/Texts.antt =====
-- Tests on text. A predicate on bytes that holds of ASCII alone is the same on code points.
use Prim.Native.Nat.{ℕ}
use Prim.Native.Char.{code}
use Prim.Native.String.{String}
use mathlib.Core.Bool.{Bool, true, ◌&&◌, ◌||◌}
use mathlib.Core.List.{List, [], ◌∷◌}
use sirius_api_proxy.Base.Tests.{leb, ◌==◌, if◌then◌else◌}

abbrev pub codes : String → List ℕ
codes String.[] = []
codes (String.◌∷◌ c s) = code c ∷ codes s

-- `s.bytes().all(p)`
abbrev pub all_bytes : (ℕ → Bool) → String → Bool
all_bytes p String.[] = true
all_bytes p (String.◌∷◌ c s) = p (code c) && all_bytes p s

abbrev pub is_lower : ℕ → Bool
is_lower b = leb b'a' b && leb b b'z'

abbrev pub is_upper : ℕ → Bool
is_upper b = leb b'A' b && leb b b'Z'

abbrev pub is_digit : ℕ → Bool
is_digit b = leb b'0' b && leb b b'9'

-- `u8::is_ascii_alphanumeric`
abbrev pub is_alphanumeric : ℕ → Bool
is_alphanumeric b = is_lower b || is_upper b || is_digit b

-- `s.split(c)`, for a character by its code
unfoldable pub split : ℕ → String → List String
split separator String.[] = "" ∷ []
split separator (String.◌∷◌ c s) =
    let rest = split separator s in
    elim rest [
      | [] ↦ []
      | part ∷ parts ↦ if code c == separator then "" ∷ part ∷ parts else String.◌∷◌ c part ∷ parts
    ]

-- `u8::is_ascii_hexdigit`
abbrev pub is_hexdigit : ℕ → Bool
is_hexdigit b = is_digit b || leb b'a' b && leb b b'f' || leb b'A' b && leb b b'F'
