-- ===== src/SdkSession/Tests.antt =====
-- The shared SDK session at concrete inputs.
use sirius_api_proxy.Base.{
  ◌<◌, ◌≡◌, refl, String, true, false, none, some, List, [], ◌∷◌, arith, str_eq, if◌then◌else◌,
}
use mathlib.Core.Path.{subst}
use mathlib.Core.Option.{some-injective}
use sirius_api_proxy.SdkSession.{
  Env, SdkAccount, State, missing, holds, World, default_state, expiring, header_safe, reusable,
  read, loaded_account, merge, merge_loaded, persisted, persist, mark_stale, validated, refused,
  exclusive, open_session,
}
use sirius_api_proxy.SdkSession.Events.{Event, login, refresh, apply, run}
use sirius_api_proxy.SdkSession.Generations.{reusable_after_signal, generation-names-account}
use sirius_api_proxy.SdkSession.Restart.{
  IsConsistent, IsStorable, reopened, first_generation, reusable-reopened,
}
use sirius_api_proxy.SdkSession.Consistency.{run-IsConsistent}

-- Tokens "t1" and "t2" expire at 10000; every value may be sent in a header.
abbrev env : Env
env = record {
  token_expiry = λ token.
      if str_eq token "t1" then some 10000 else if str_eq token "t2" then some 10000 else none;
  is_header_value = λ _. true;
}

abbrev account_of : String → SdkAccount
account_of token = record { uid = "7"; access_key = "key"; id_token = token; mid = none }

abbrev fresh : World
fresh = record {
  session = record {
    uid = "7";
    access_key = "key";
    access_key_fingerprint = "f";
    file = true;
    attempts = 0;
    revalidations = 0;
    state = default_state;
  };
  disk = missing;
}

definitions : Unit {0}
unfolding apply run mark_stale validated refused exclusive persist persisted merge merge_loaded read
    loaded_account header_safe expiring reusable open_session
definitions = tt

-- The session after its first login.
abbrev logged_in_state : State
logged_in_state = record {
  account = some (account_of "t1");
  validated_at = some 100;
  generation = 1;
  stale = false;
  refusal = none;
}

abbrev logged_in : World
logged_in = record {
  session = record fresh.session { revalidations = 1; state = logged_in_state };
  disk = holds (record {
    schema = 1;
    uid = "7";
    access_key_fingerprint = "f";
    id_token = "t1";
    mid = none;
    validated_at = some 100;
    refusal = none;
  });
}

logged_in_lem : validated env 100 true (account_of "t1") fresh ≡ logged_in
unfolding definitions
logged_in_lem = refl

logged_in_reuses : reusable env logged_in_state 200 ≡ some (account_of "t1", 1)
unfolding definitions
logged_in_reuses = refl

-- The file is read again, and then a login.
abbrev events : List Event
events = refresh 350 ∷ login 400 true (account_of "t2") ∷ []

after_signal :
    reusable env (run env (mark_stale env 300 true 1 logged_in) events).session.state 500
    ≡ some (account_of "t2", 2)
unfolding definitions
after_signal = refl

reusable_after_signal_example : 1 < 2
reusable_after_signal_example =
    reusable_after_signal env logged_in 300 true events 500 2 (account_of "t2") (omega arith)
      after_signal

quiet :
    reusable env (run env logged_in (refresh 350 ∷ [])).session.state 500
    ≡ some (account_of "t1", 1)
unfolding definitions
quiet = refl

generation-names-account_example : account_of "t1" ≡ account_of "t1"
generation-names-account_example =
    generation-names-account env logged_in (refresh 350 ∷ []) 200 500 1 (account_of "t1")
      (account_of "t1") (omega arith) logged_in_reuses quiet

logged_in-IsConsistent : IsConsistent logged_in_state
logged_in-IsConsistent = ground arith

storable : (a : SdkAccount) → logged_in_state.account ≡ some a → IsStorable env logged_in.session a
unfolding header_safe
storable a h =
    subst (IsStorable env logged_in.session) (some-injective _ _ h)
      (record { same_uid = refl; same_key = refl; token = refl; exp = refl; mid = refl })

reusable-reopened_example :
    (reusable env (reopened env logged_in.session logged_in_state 600).session.state 600
      ≡ first_generation (reusable env logged_in_state 600))
    × ((reopened env logged_in.session logged_in_state 600).session.state.refusal ≡ none)
    × (logged_in_state.refusal ≡ none
        → (reopened env logged_in.session logged_in_state 600).session.state.validated_at
          ≡ some 100)
reusable-reopened_example =
    reusable-reopened env logged_in.session logged_in_state 600 logged_in-IsConsistent storable

run-IsConsistent_example : IsConsistent (run env logged_in events).session.state
run-IsConsistent_example = run-IsConsistent env logged_in events logged_in-IsConsistent
