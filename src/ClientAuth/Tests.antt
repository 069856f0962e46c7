-- ===== src/ClientAuth/Tests.antt =====
-- Client authorization (src/client_auth.rs) at concrete inputs. The signature of this reader is the
-- length of the message.
use sirius_api_proxy.Base.{
  ℕ, ◌≤◌, ◌<◌, ◌≡◌, ◌⊎◌, refl, true, none, some, [], ◌∷◌, ◌%◌, length, ok, byte_len, split,
}
use sirius_api_proxy.ClientAuth.Config.{Authenticator}
use sirius_api_proxy.ClientAuth.Tokens.{
  Claims, Codecs, as_bytes, split_dots, differences, constant_time_eq, hmac_block, hmac_sha256,
  verify_parts, verify,
}
use sirius_api_proxy.ClientAuth.Decisions.{
  Cache, Call, key_eq, expiry_of, insert_key, cached, insert_below, remember, check, key_of,
  claims_in, settle, authorize_claims, authorize,
}
use sirius_api_proxy.ClientAuth.Confirmed.{
  IsConfirmed, Vouched, Reach, start, ended, authorize-IsConfirmed,
}
use sirius_api_proxy.ClientAuth.Genuine.{IsGenuine, verify-IsGenuine}
use sirius_api_proxy.ClientAuth.Capacity.{length-Reach-le}

abbrev codecs : Codecs
codecs = record {
  decode = λ s. some (as_bytes s);
  read_header = λ b. some (record { alg = "HS256"; typ = none });
  read_payload = λ b. some (record { uid = "u"; credential = "c"; exp = some 100 });
  sha256 = λ b. (length b % 256) ∷ [];
}

abbrev auth : Authenticator
auth = record { key = "k"; region = "jp"; connections = 4; timeout = 10; ttl = 60; capacity = 2 }

abbrev claims : Claims
claims = record { uid = "u"; credential = "c" }

verify_lem : verify codecs (as_bytes "k") 7 "h.p.A" ≡ some claims
unfolding verify verify_parts split as_bytes constant_time_eq differences hmac_sha256 hmac_block
verify_lem = refl

verify-IsGenuine_example :
    (byte_len "h.p.A" ≤ 8192) × IsGenuine codecs (as_bytes "k") 7 (split_dots "h.p.A") claims
verify-IsGenuine_example = verify-IsGenuine codecs (as_bytes "k") 7 "h.p.A" claims verify_lem

-- A call that the store confirms, and one while the store does not answer.
abbrev first : Call
first = record {
  token = "h.p.A";
  now = 7;
  looked_at = 9;
  row = some (some ("c", true));
  remembered_at = 10;
}

abbrev second : Call
second = record { token = "h.p.A"; now = 50; looked_at = 52; row = none; remembered_at = 53 }

abbrev after_first : Cache
after_first = (authorize codecs auth [] first []).0

first_ended : Reach codecs auth (first ∷ []) after_first
first_ended = ended [] first [] [] start

accepted_lem : (authorize codecs auth after_first second after_first).1 ≡ ok tt
unfolding authorize authorize_claims claims_in settle check remember insert_below insert_key cached
    expiry_of key_of key_eq verify verify_parts split as_bytes constant_time_eq differences
    hmac_sha256 hmac_block
accepted_lem = refl

authorize-IsConfirmed_example :
    (claims : Claims) × (claims_in codecs auth second ≡ some claims)
    × (IsConfirmed codecs auth second claims
        ⊎ ((expiry : ℕ) × Vouched codecs auth (first ∷ []) (key_of codecs auth claims) expiry
            × (52 < expiry)))
authorize-IsConfirmed_example =
    authorize-IsConfirmed codecs auth (first ∷ []) after_first after_first second first_ended
      accepted_lem

length-Reach-le_example : length after_first ≤ 2
length-Reach-le_example = length-Reach-le codecs auth (first ∷ []) after_first first_ended
